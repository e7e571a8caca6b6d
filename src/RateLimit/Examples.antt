-- ===== src/RateLimit/Examples.antt =====
-- The limiter's theorem, with whole numbers for float64.
use mrmi_gateway.Prelude.{◌*◌, ◌/◌, ℤ, pos, ◌+ℤ◌, ◌-ℤ◌, ltb_ℤ, [], ◌∷◌, ◌≡◌, refl, arith}
use mrmi_gateway.Prelude.Int.{pos_part}
use mrmi_gateway.Prelude.Map
use mrmi_gateway.RateLimit.{Float64, Limiter}
use mrmi_gateway.RateLimit.Burst.{Exact, occurrences, passed, passed-burst}
use Prim.Native.Nat.{min}

abbrev whole_numbers : Float64 ℤ
whole_numbers = record {
  zero_float = pos 0;
  one_float = pos 1;
  plus = ◌+ℤ◌;
  minus = ◌-ℤ◌;
  times = λ a b. pos (pos_part a * pos_part b);
  less = ltb_ℤ;
  of_int = λ n. n;
  seconds = λ d. pos (pos_part d / 1_000_000_000);
}

abbrev limiter : Limiter ℤ
limiter = record { buckets = []; rate = pos 10; burst = pos 2 }

whole_numbers-Exact : Exact whole_numbers (pos 10) 100
unfolding ◌+ℤ◌ ◌-ℤ◌
whole_numbers-Exact = record {
  no_time = λ n _. ground arith;
  less_whole = λ m n _ _. ground arith;
  one_whole = refl;
  minus_one = λ n _. ground arith;
}

passed-burst_example :
    passed whole_numbers "n1" (pos 7) ("n1" ∷ "n2" ∷ "n1" ∷ "n1" ∷ []) limiter
    ≡ min (occurrences "n1" ("n1" ∷ "n2" ∷ "n1" ∷ "n1" ∷ [])) 2
unfolding Map.lookup
passed-burst_example =
    passed-burst whole_numbers 100 "n1" (pos 7) ("n1" ∷ "n2" ∷ "n1" ∷ "n1" ∷ []) limiter 2
      whole_numbers-Exact (omega arith) (omega arith) refl refl
