-- ===== src/Store/Keys.antt =====
-- internal/store/bbolt/store.go: the keys of the audit entries are in the order of their numbers.
use mrmi_gateway.Prelude.{
  ℕ, zero, suc, ◌*◌, ◌/◌, ◌%◌, ◌^◌, ◌<◌, ltb, Bool, Bool-cases, true, false, ◌≡◌, refl, ◌∙◌, sym,
  inl, inr, List, [], ◌∷◌, ◌++◌, arith, if◌then◌else◌, length, length-append,
}
use mrmi_gateway.Store.{big_endian, seq_key}

-- bytes.Compare(a, b) < 0
unfoldable pub before : List ℕ → List ℕ → Bool
before [] [] = false
before [] (b ∷ t) = true
before (a ∷ s) [] = false
before (a ∷ s) (b ∷ t) =
    let rest = before s t in if ltb a b then true else if ltb b a then false else rest

before-snoc_lt :
    (s t : List ℕ) (x y : ℕ)
    → length s ≡ length t
    → before s t ≡ true
    → before (s ++ x ∷ []) (t ++ y ∷ []) ≡ true
unfolding before
before-snoc_lt [] [] x y e h = absurd (cc h)
before-snoc_lt [] (b ∷ t) x y e h = absurd (omega (arith, e))
before-snoc_lt (a ∷ s) [] x y e h = absurd (omega (arith, e))
before-snoc_lt (a ∷ s) (b ∷ t) x y e h =
    let same : length s ≡ length t = omega (arith, e) in ground (arith, before-snoc_lt s t x y same)

before-snoc_same : (s : List ℕ) (x y : ℕ) → x < y → before (s ++ x ∷ []) (s ++ y ∷ []) ≡ true
unfolding before
before-snoc_same [] x y h = ground arith
before-snoc_same (a ∷ s) x y h = ground (arith, before-snoc_same s x y h)

length-big_endian : (width n : ℕ) → length (big_endian width n) ≡ width
unfolding big_endian
length-big_endian zero n = refl
length-big_endian (suc width) n = omega (
  arith,
  length-append {0} (big_endian width (n / 256)) (n % 256 ∷ []),
  length-big_endian width (n / 256),
)

-- 256 to the power `width`.
abbrev pub capacity : ℕ → ℕ
capacity zero = 1
capacity (suc width) = 256 * capacity width

big_endian-before :
    (width m n : ℕ)
    → m < n
    → n < capacity width
    → before (big_endian width m) (big_endian width n) ≡ true
unfolding big_endian
big_endian-before zero m n h fits = absurd (omega arith)
big_endian-before (suc width) m n h fits = elim (Bool-cases (ltb (m / 256) (n / 256))) [
  | inl smaller ↦
      before-snoc_lt (big_endian width (m / 256)) (big_endian width (n / 256)) (m % 256) (n % 256)
        (length-big_endian width (m / 256) ∙ sym (length-big_endian width (n / 256)))
        (big_endian-before width (m / 256) (n / 256) (ground arith) (omega arith))
  | inr not_smaller ↦
      let same : m / 256 ≡ n / 256 = ground arith in
      rw same (before-snoc_same (big_endian width (n / 256)) (m % 256) (n % 256) (omega arith))
]

pub seq_key-before : (m n : ℕ) → m < n → n < 2 ^ 64 → before (seq_key m) (seq_key n) ≡ true
unfolding seq_key
seq_key-before m n h fits = big_endian-before 8 m n h (omega arith)
