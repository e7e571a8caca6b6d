-- ===== src/Inbox/Delivery.antt =====
-- internal/inbox/inbox.go: what a subscriber finds in its channel.
use mrmi_gateway.Prelude.{
  ℕ, suc, ◌≤◌, ltb, nat_eq, ◌≡◌, refl, ◌∙◌, ap, sym, zero, Bool-cases, inl, inr, Option, none, some,
  List, [], ◌∷◌, ◌++◌, length, take, length-append, arith,
}
use mrmi_gateway.Inbox.{Event, Inbox, sub_buf_size, buffer, offer, offer_all, publish}

abbrev pub publish_all : List Event → Inbox → Inbox
publish_all [] i = i
publish_all (e ∷ es) i = publish_all es (publish e i)

offered : Event → Option (List Event) → Option (List Event)
offered e none = none
offered e (some b) = some (offer e b)

buffer-offer_all :
    (e : Event) (id : ℕ) (subs : List (ℕ × List Event))
    → buffer id (offer_all e subs) ≡ offered e (buffer id subs)
unfolding buffer offer_all offered
buffer-offer_all e id [] = refl
buffer-offer_all e id ((k, b) ∷ subs) = elim (Bool-cases (nat_eq k id)) [
  | inl same ↦ rw same refl
  | inr other ↦ rw other (buffer-offer_all e id subs)
]

append_assoc : (a b c : List Event) → (a ++ b) ++ c ≡ a ++ (b ++ c)
append_assoc [] b c = refl
append_assoc (x ∷ a) b c = ap (◌∷◌ x) (append_assoc a b c)

append_nil : (a : List Event) → a ++ [] ≡ a
append_nil [] = refl
append_nil (x ∷ a) = ap (◌∷◌ x) (append_nil a)

-- `take` of a list that is long enough reads only its start.
take-long : (n : ℕ) (a b : List Event) → n ≤ length a → take n (a ++ b) ≡ take n a
take-long zero a b h = refl
take-long (suc n) [] b h = absurd (omega (arith, h))
take-long (suc n) (x ∷ a) b h = ap (◌∷◌ x) (take-long n a b (omega (arith, h)))

take_all : (n : ℕ) (a : List Event) → length a ≤ n → take n a ≡ a
take_all zero [] h = refl
take_all zero (x ∷ a) h = absurd (omega (arith, h))
take_all (suc n) [] h = refl
take_all (suc n) (x ∷ a) h = ap (◌∷◌ x) (take_all n a (omega (arith, h)))

length-offer :
    (e : Event) (b : List Event) → length b ≤ sub_buf_size → length (offer e b) ≤ sub_buf_size
unfolding offer
length-offer e b h = ground (arith, length-append b (e ∷ []))

take-offer :
    (e : Event) (es b : List Event)
    → length b ≤ sub_buf_size
    → take sub_buf_size (offer e b ++ es) ≡ take sub_buf_size (b ++ e ∷ es)
unfolding offer
take-offer e es b h = elim (Bool-cases (ltb (length b) sub_buf_size)) [
  | inl room ↦ rw room (ap (take sub_buf_size) (append_assoc b (e ∷ []) es))
  | inr full ↦
      let long : sub_buf_size ≤ length b = ground arith in
      rw full (take-long sub_buf_size b es long ∙ sym (take-long sub_buf_size b (e ∷ es) long))
]

-- A subscriber that takes nothing out finds, after any events, the first 64 of what was in its
-- channel and what was published since, in order; the others are skipped, for it alone.
pub publish_all-buffer :
    (es : List Event) (id : ℕ) (i : Inbox) (b : List Event)
    → buffer id i.subs ≡ some b
    → length b ≤ sub_buf_size
    → buffer id (publish_all es i).subs ≡ some (take sub_buf_size (b ++ es))
unfolding publish offered
publish_all-buffer [] id i b there fits =
    there ∙ ap some (sym (take_all sub_buf_size (b ++ []) (rw append_nil fits) ∙ append_nil b))
publish_all-buffer (e ∷ es) id i b there fits =
    publish_all-buffer es id (publish e i) (offer e b)
      (buffer-offer_all e id i.subs ∙ ap (offered e) there) (length-offer e b fits)
    ∙ ap some (take-offer e es b fits)
