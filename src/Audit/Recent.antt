-- ===== src/Audit/Recent.antt =====
-- internal/audit/log.go: `Recent` on the chain in memory.
use mrmi_gateway.Prelude.Int.{pos_part}
use mrmi_gateway.Prelude.{
  ℕ, zero, suc, ◌+◌, ◌-◌, ◌≤◌, ℤ, pos, negsuc, ltb, some, ◌≡◌, refl, ap, ◌∙◌, List, [], ◌∷◌, ◌++◌,
  arith, length, take, drop, get_elem?, length-append, sym, ◌<◌, Bool-cases, inl, inr,
}
use mrmi_gateway.Audit.{
  Entry, Log, AuditStore, cons_some, newest, recent_in_memory, prefer, from_backend, recent,
}

get_elem?-last : (xs ys : List Entry) (x : Entry) → get_elem? (xs ++ x ∷ ys) (length xs) ≡ some x
get_elem?-last [] ys x = refl
get_elem?-last (y ∷ xs) ys x = get_elem?-last xs ys x

-- The loop from the end, over a list split where the loop stands.
unfoldable pub back : List Entry → List Entry
back [] = []
back (x ∷ xs) = back xs ++ x ∷ []

length-back : (xs : List Entry) → length (back xs) ≡ length xs
unfolding back
length-back [] = refl
length-back (x ∷ xs) = omega (arith, length-append {0} (back xs) (x ∷ []), length-back xs)

back-snoc : (xs : List Entry) (x : Entry) → back (xs ++ x ∷ []) ≡ x ∷ back xs
unfolding back
back-snoc [] x = refl
back-snoc (y ∷ xs) x = rw (back-snoc xs x)

back-back : (xs : List Entry) → back (back xs) ≡ xs
unfolding back
back-back [] = refl
back-back (x ∷ xs) = back-snoc (back xs) x ∙ ap (◌∷◌ x) (back-back xs)

get_elem?-left :
    (xs ys : List Entry) (i : ℕ) → i < length xs → get_elem? (xs ++ ys) i ≡ get_elem? xs i
get_elem?-left [] ys i h = elim h [ ]
get_elem?-left (x ∷ xs) ys zero h = refl
get_elem?-left (x ∷ xs) ys (suc i) h = get_elem?-left xs ys i (omega arith)

-- The entry that the loop reads in round `i`.
get_elem?-back :
    (rs : List Entry) (i : ℕ)
    → i < length rs
    → get_elem? (back rs) (length rs - 1 - i) ≡ get_elem? rs i
unfolding back
get_elem?-back [] i h = elim h [ ]
get_elem?-back (x ∷ rs) zero h =
    let e : suc (length rs) - 1 - 0 ≡ length (back rs) = omega (arith, length-back rs) in
    rw e (get_elem?-last (back rs) [] x)
get_elem?-back (x ∷ rs) (suc i) h =
    let e : suc (length rs) - 1 - suc i ≡ length rs - 1 - i = omega arith in
    rw e (
      get_elem?-left (back rs) (x ∷ []) (length rs - 1 - i) (omega (arith, length-back rs))
      ∙ get_elem?-back rs i (omega arith))

cons_some-take :
    (rs : List Entry) (i k : ℕ)
    → i < length rs
    → cons_some (get_elem? rs i) (take k (drop (suc i) rs)) ≡ take (suc k) (drop i rs)
unfolding cons_some
cons_some-take [] i k h = elim h [ ]
cons_some-take (x ∷ rs) zero k h = refl
cons_some-take (x ∷ rs) (suc i) k h = cons_some-take rs i k (omega arith)

newest-back :
    (rs : List Entry) (k i : ℕ) → i + k ≤ length rs → newest (back rs) k i ≡ take k (drop i rs)
unfolding newest
newest-back rs zero i h = refl
newest-back rs (suc k) i h =
    rw (length-back rs, get_elem?-back rs i (omega arith), newest-back rs k (suc i) (omega arith))
      (cons_some-take rs i k (omega arith))

take_all : (rs : List Entry) (n : ℕ) → length rs ≤ n → take n rs ≡ take (length rs) rs
take_all [] zero h = refl
take_all [] (suc n) h = refl
take_all (x ∷ rs) zero h = absurd (omega arith)
take_all (x ∷ rs) (suc n) h = ap (◌∷◌ x) (take_all rs n (omega arith))

newest-eq : (es : List Entry) (k : ℕ) → k ≤ length es → newest es k 0 ≡ take k (back es)
newest-eq es k h =
    ap (λ l. newest l k 0) (sym (back-back es))
    ∙ newest-back (back es) k 0 (omega (arith, length-back es))

-- Without a backend, or with one that fails or is empty, `Recent` returns the last n entries of the
-- chain, newest first, and all of them if there are fewer; for n ≤ 0 it returns none.
pub recent-eq-take :
    {B : Type 0} (store : AuditStore B) (n : ℤ) (l : Log B)
    → from_backend store n l.backend ≡ []
    → recent store n l ≡ take (pos_part n) (back l.entries)
unfolding recent recent_in_memory prefer
recent-eq-take store (negsuc n) l h = rw h
recent-eq-take store (pos n) l h = rw h (elim (Bool-cases (ltb (length l.entries) n)) [
  | inl more ↦ rw more (
      newest-eq l.entries (length l.entries) (omega arith)
      ∙ sym (
          rw (← length-back l.entries)
            (take_all (back l.entries) n (ground (arith, length-back l.entries)))))
  | inr enough ↦ rw enough (newest-eq l.entries n (ground arith))
])
