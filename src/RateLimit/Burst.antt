-- ===== src/RateLimit/Burst.antt =====
-- internal/ratelimit/tokenbucket.go: how many calls of one instant pass.
use Prim.Native.Nat.{min}
use mrmi_gateway.Prelude.{
  ℕ, zero, suc, ◌+◌, ◌≤◌, ltb, ℤ, pos, ◌-ℤ◌, String, Bool, true, false, ◌≡◌, refl, ◌∙◌, ap, Option,
  none, some, List, [], ◌∷◌, ◌==◌, arith, eq_iff, if◌then◌else◌, Bool-cases, inl, inr, if_true,
  if_false,
}
use mrmi_gateway.Prelude.Map
use mrmi_gateway.Prelude.Map.{Map, lookup-insert}
use mrmi_gateway.RateLimit.{Float64, Bucket, Limiter, refill, allow_bucket, bucket_for, allow}

-- What IEEE 754 says of the whole numbers up to a bound (2^53 for float64) and of a finite rate.
pub record Exact {R : Type 0} (f : Float64 R) (rate : R) (bound : ℕ) : Type 0 where
  pub no_time :
      (n : ℕ)
      → n ≤ bound
      → f.plus (f.of_int (pos n)) (f.times (f.seconds (pos 0)) rate) ≡ f.of_int (pos n)
  pub less_whole :
      (m n : ℕ) → m ≤ bound → n ≤ bound → f.less (f.of_int (pos m)) (f.of_int (pos n)) ≡ ltb m n
  pub one_whole : f.one_float ≡ f.of_int (pos 1)
  pub minus_one :
      (n : ℕ)
      → suc n ≤ bound
      → f.minus (f.of_int (pos (suc n))) (f.of_int (pos 1)) ≡ f.of_int (pos n)

-ℤ-self : (now : ℤ) → now -ℤ now ≡ pos 0
unfolding ◌-ℤ◌
-ℤ-self now = ground arith

-- How many of the calls for `key` pass, when the calls for `keys` come at one instant.
count_call : Bool → Bool → ℕ → ℕ
count_call same ok n = if same then (if ok then suc n else n) else n

abbrev pub occurrences : String → List String → ℕ
occurrences key [] = 0
occurrences key (k ∷ keys) = (if k == key then 1 else 0) + occurrences key keys

module _ {R : Type 0} (f : Float64 R) where
  unfoldable pub passed : String → ℤ → List String → Limiter R → ℕ
  unfolding count_call
  passed key now [] l = 0
  passed key now (k ∷ keys) l =
      let (ok, l') = allow f k now l in count_call (k == key) ok (passed key now keys l')

  -- A bucket with whole tokens that was seen at this instant.
  abbrev whole : Limiter R → ℕ → ℤ → ℕ → Bucket R
  whole l n now t = record {
    tokens = f.of_int (pos t);
    capacity = f.of_int (pos n);
    rate = l.rate;
    last_seen = now;
  }

  abbrev bucket_of : String → ℤ → Limiter R → Bucket R
  bucket_of key now l = bucket_for f key now l (Map.lookup key l.buckets)

  module _ (bound : ℕ) where
    refill-whole :
        (l : Limiter R) (n t : ℕ) (now : ℤ)
        → Exact f l.rate bound
        → n ≤ bound
        → t ≤ n
        → refill f (whole l n now t) now ≡ f.of_int (pos t)
    unfolding refill
    refill-whole l n t now x small few =
        rw (-ℤ-self now, x.no_time t (omega arith), x.less_whole n t small (omega arith))
          (ground arith)

    allow_bucket-zero :
        (l : Limiter R) (n : ℕ) (now : ℤ)
        → Exact f l.rate bound
        → n ≤ bound
        → 1 ≤ bound
        → allow_bucket f now (whole l n now 0) ≡ (false, whole l n now 0)
    unfolding allow_bucket
    allow_bucket-zero l n now x small one =
        rw
          (
            refill-whole l n 0 now x small (omega arith),
            x.one_whole,
            x.less_whole 0 1 (omega arith) one,
          )
          refl

    allow_bucket-suc :
        (l : Limiter R) (n t : ℕ) (now : ℤ)
        → Exact f l.rate bound
        → n ≤ bound
        → suc t ≤ n
        → allow_bucket f now (whole l n now (suc t)) ≡ (true, whole l n now t)
    unfolding allow_bucket
    allow_bucket-suc l n t now x small few =
        rw
          (
            refill-whole l n (suc t) now x small few,
            x.one_whole,
            x.less_whole (suc t) 1 (omega arith) (omega arith),
            x.minus_one t (omega arith),
          )
          (ground arith)

    bucket_for-buckets :
        (key : String) (now : ℤ) (l : Limiter R) (m : Map (Bucket R)) (o : Option (Bucket R))
        → bucket_for f key now (record l { buckets = m }) o ≡ bucket_for f key now l o
    unfolding bucket_for
    bucket_for-buckets key now l m none = refl
    bucket_for-buckets key now l m (some b) = refl

    -- A call leaves the other keys' buckets and the limits alone.
    allow-bucket_of :
        (k key : String) (now : ℤ) (l : Limiter R)
        → bucket_of key now (allow f k now l).1
          ≡ (if k == key then (allow_bucket f now (bucket_of k now l)).1 else bucket_of key now l)
    unfolding allow bucket_for
    allow-bucket_of k key now l = elim (Bool-cases (k == key)) [
      | inl same ↦ rw (lookup-insert, same) refl
      | inr other ↦
          rw (lookup-insert, other)
            (bucket_for-buckets key now l (allow f k now l).1.buckets (Map.lookup key l.buckets))
    ]

    allow-answer :
        (k : String) (now : ℤ) (l : Limiter R)
        → (allow f k now l).0 ≡ (allow_bucket f now (bucket_of k now l)).0
    unfolding allow
    allow-answer k now l = refl

    -- What a call does to a key that has t tokens.
    allow-same :
        (k key : String) (now : ℤ) (l : Limiter R) (b : Bucket R) (ok : Bool) (b' : Bucket R)
        → (k == key) ≡ true
        → bucket_of key now l ≡ b
        → allow_bucket f now b ≡ (ok, b')
        → ((allow f k now l).0 ≡ ok) × (bucket_of key now (allow f k now l).1 ≡ b')
    allow-same k key now l b ok b' same h e =
        let k-key : k ≡ key = (eq_iff k key).0 same in
        let at_k : bucket_of k now l ≡ b = rw k-key h in
        (
          allow-answer k now l
              ∙ ap (λ c. (allow_bucket f now c).0) at_k
              ∙ ap (λ (r : Bool × Bucket R). r.0) e,
          allow-bucket_of k key now l
              ∙ if_true (k == key) _ _ same
              ∙ ap (λ c. (allow_bucket f now c).1) at_k
              ∙ ap (λ (r : Bool × Bucket R). r.1) e,
        )

    allow-rate : (k : String) (now : ℤ) (l : Limiter R) → (allow f k now l).1.rate ≡ l.rate
    unfolding allow
    allow-rate k now l = refl

    passed-min :
        (key : String) (now : ℤ) (keys : List String) (l : Limiter R) (n t : ℕ)
        → Exact f l.rate bound
        → n ≤ bound
        → 1 ≤ bound
        → t ≤ n
        → bucket_of key now l ≡ whole l n now t
        → passed key now keys l ≡ min (occurrences key keys) t
    unfolding passed count_call allow
    passed-min key now [] l n t x small one few h = ground arith
    passed-min key now (k ∷ keys) l n zero x small one few h = elim (Bool-cases (k == key)) [
      | inl same ↦
          let (answer, bucket) =
            allow-same k key now l _ false (whole l n now 0) same h
              (allow_bucket-zero l n now x small one) in
          rw (same, answer, passed-min key now keys (allow f k now l).1 n 0 x small one few bucket)
            (ground arith)
      | inr other ↦
          rw
            (
              other,
              passed-min key now keys (allow f k now l).1 n 0 x small one few
                  (allow-bucket_of k key now l ∙ if_false (k == key) _ _ other ∙ h),
            )
            (ground arith)
    ]
    passed-min key now (k ∷ keys) l n (suc t) x small one few h = elim (Bool-cases (k == key)) [
      | inl same ↦
          let (answer, bucket) =
            allow-same k key now l _ true (whole l n now t) same h
              (allow_bucket-suc l n t now x small few) in
          rw
            (
              same,
              answer,
              passed-min key now keys (allow f k now l).1 n t x small one (omega arith) bucket,
            )
            (ground arith)
      | inr other ↦
          rw
            (
              other,
              passed-min key now keys (allow f k now l).1 n (suc t) x small one few
                  (allow-bucket_of k key now l ∙ if_false (k == key) _ _ other ∙ h),
            )
            (ground arith)
    ]

    -- Of the calls that come at one instant, for a key that has no bucket and a limiter whose burst is
    -- a whole number n, min(calls for the key, n) pass, whatever calls for other keys come in between.
    -- The whole numbers up to `bound` are taken to be exact.
    pub passed-burst :
        (key : String) (now : ℤ) (keys : List String) (l : Limiter R) (n : ℕ)
        → Exact f l.rate bound
        → n ≤ bound
        → 1 ≤ bound
        → l.burst ≡ f.of_int (pos n)
        → Map.lookup key l.buckets ≡ none
        → passed key now keys l ≡ min (occurrences key keys) n
    unfolding bucket_for
    passed-burst key now keys l n x small one burst fresh =
        passed-min key now keys l n n x small one (omega arith) (rw (fresh, burst) refl)
