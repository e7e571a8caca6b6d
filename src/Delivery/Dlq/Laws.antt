-- ===== src/Delivery/Dlq/Laws.antt =====
-- internal/delivery/dlq.go: `Append` and `Remove`.
use mrmi_gateway.Prelude.{
  ℕ, suc, ℤ, pos, length-append, ◌≡◌, refl, ap, ◌∙◌, List, [], ◌∷◌, ◌++◌, arith, length, take, drop,
}
use mrmi_gateway.Prelude.Int.{◌≤ℤ◌, ◌<ℤ◌}
use mrmi_gateway.Delivery.Dlq.{Entry, append, remove}

cut : (i : ℕ) (l : List Entry) → List Entry
cut i l = take i l ++ drop (suc i) l

cut-append : (l r : List Entry) (e : Entry) → cut (length l) (l ++ e ∷ r) ≡ l ++ r
unfolding cut
cut-append [] r e = refl
cut-append (x ∷ l) r e = ap (◌∷◌ x) (cut-append l r e)

append_nil : (l : List Entry) → l ++ [] ≡ l
append_nil [] = refl
append_nil (x ∷ l) = ap (◌∷◌ x) (append_nil l)

-- Removing an index inside the queue takes out the entry there and keeps the others in order;
-- every other index, negative ones too, leaves the queue as it is.
remove_lem :
    (l r : List Entry) (e : Entry) (i : ℤ)
    → (remove (pos (length l)) (l ++ e ∷ r) ≡ l ++ r)
      × (pos (length r) ≤ℤ i → remove i r ≡ r)
      × (i <ℤ pos 0 → remove i r ≡ r)
unfolding remove
remove_lem l r e i = (
  unfold cut in ground (arith, length-append l (e ∷ r), cut-append l r e),
  λ h. ground arith,
  λ h. ground arith,
)

-- The entry that `Append` puts at the end has a first time, and removing it gives the queue back.
remove-append :
    (l : List Entry) (e : Entry) (now : ℤ) → remove (pos (length l)) (append e now l) ≡ l
unfolding append
remove-append l e now = (remove_lem l [] _ (pos 0)).0 ∙ append_nil l
