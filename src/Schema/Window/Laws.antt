-- ===== src/Schema/Window/Laws.antt =====
-- internal/schema/iso20022.go: windows on the circle of the day, and the texts of times of day.
use Prim.Native.Nat.{suc}
use mathlib.Core.Option
use mrmi_gateway.Prelude.{
  ℕ, zero, ◌+◌, ◌-◌, ◌*◌, ◌/◌, ◌%◌, ◌<◌, ltb, ◌&&◌, String, ◌≡◌, refl, ap, Bool, [], ◌∷◌, get_or,
  true, false, some, arith, none, Option, nat_eq, Bool-cases, inl, inr,
}
use Prim.Native.String.{◌++◌ as append_text}
use mrmi_gateway.Schema.Window.{parse_tod, inside}

-- For three minutes of the day, the window is an arc of the day: counted from `opens`, `now` comes before `closes`.
inside-eq-arc :
    (opens closes now : ℕ)
    → opens < 1440
    → closes < 1440
    → now < 1440
    → inside opens closes now ≡ ltb ((now + 1440 - opens) % 1440) ((closes + 1440 - opens) % 1440)
unfolding inside
inside-eq-arc opens closes now a b c = ground arith

abbrev digit : ℕ → String
digit n = get_or ("0" ∷ "1" ∷ "2" ∷ "3" ∷ "4" ∷ "5" ∷ "6" ∷ "7" ∷ "8" ∷ "9" ∷ []) n ""

-- An hour and a minute as HH:MM.
abbrev clock_text : ℕ → ℕ → String
clock_text h m =
    append_text (digit (h / 10)) (
      append_text (digit (h % 10))
        (append_text ":" (append_text (digit (m / 10)) (digit (m % 10)))))

abbrev is_some_of : ℕ → Option ℕ → Bool
is_some_of n none = false
is_some_of n (some k) = nat_eq k n

abbrev all_below : ℕ → (ℕ → Bool) → Bool
all_below zero p = true
all_below (suc n) p = p n && all_below n p

all_below-elim : (n : ℕ) (p : ℕ → Bool) → all_below n p ≡ true → (k : ℕ) → k < n → p k ≡ true
all_below-elim zero p h k lt = absurd (omega arith)
all_below-elim (suc n) p h k lt = elim (Bool-cases (nat_eq k n)) [
  | inl same ↦ let e : k ≡ n = ground arith in rw e (ground arith)
  | inr other ↦ all_below-elim n p (ground arith) k (ground arith)
]

all_parse :
    all_below 24 (λ h. all_below 60 (λ m. is_some_of (h * 60 + m) (parse_tod (clock_text h m))))
    ≡ true
unfolding parse_tod Option.bind
all_parse = refl

is_some_of_lem : (n : ℕ) (o : Option ℕ) → is_some_of n o ≡ true → o ≡ some n
is_some_of_lem n none h = absurd (cc h)
is_some_of_lem n (some k) h = ap some (ground arith)

-- Every hour and minute of the day, written HH:MM, is read back as the minute of the day.
parse_tod-clock_text : (h m : ℕ) → h < 24 → m < 60 → parse_tod (clock_text h m) ≡ some (h * 60 + m)
parse_tod-clock_text h m a b = is_some_of_lem _ _ (
    all_below-elim 60 (λ m. is_some_of (h * 60 + m) (parse_tod (clock_text h m)))
      (all_below-elim 24
        (λ h. all_below 60 (λ m. is_some_of (h * 60 + m) (parse_tod (clock_text h m)))) all_parse h
        a)
      m b)

tod_tests :
    (parse_tod "08:30" ≡ some 510)
    × (parse_tod "24:00" ≡ none)
    × (parse_tod "8:30" ≡ none)
    × (parse_tod "08:5x" ≡ some 485)
    × (parse_tod "+8:00" ≡ some 480)
unfolding parse_tod Option.bind
tod_tests = (refl, refl, refl, refl, refl)
