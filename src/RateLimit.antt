-- ===== src/RateLimit.antt =====
-- internal/ratelimit/tokenbucket.go: a token bucket for each key. float64 is the machine's, so it is
-- a parameter: a type with the operations that the code uses; `seconds` is Duration.Seconds.
pub mod Burst
mod Examples
use mrmi_gateway.Prelude.{
  ℕ, ℤ, pos, ◌-ℤ◌, leb_ℤ, ltb_ℤ, String, Bool, true, false, not, Option, none, some, List, [], ◌∷◌,
  if◌then◌else◌, length,
}
use mrmi_gateway.Prelude.Map
use mrmi_gateway.Prelude.Map.{Map}
use mrmi_gateway.Config.{minutes}

pub record Float64 (R : Type 0) : Type 0 where
  pub zero_float : R
  pub one_float : R
  pub plus : R → R → R
  pub minus : R → R → R
  pub times : R → R → R
  pub less : R → R → Bool
  pub of_int : ℤ → R
  pub seconds : ℤ → R

pub record Bucket (R : Type 0) : Type 0 where
  pub tokens : R
  pub capacity : R
  pub rate : R
  pub last_seen : ℤ

pub record Limiter (R : Type 0) : Type 0 where
  pub buckets : Map (Bucket R)
  pub rate : R
  pub burst : R

abbrev pub default_burst : ℤ
default_burst = pos 20

abbrev pub idle_evict_after : ℤ
idle_evict_after = minutes 5

module _ {R : Type 0} (f : Float64 R) where
  -- The tokens after the time since the last call.
  unfoldable pub refill : Bucket R → ℤ → R
  refill b now =
      let tokens = f.plus b.tokens (f.times (f.seconds (now -ℤ b.last_seen)) b.rate) in
      if f.less b.capacity tokens then b.capacity else tokens

  -- bucket.allow
  unfoldable pub allow_bucket : ℤ → Bucket R → Bool × Bucket R
  unfolding refill
  allow_bucket now b =
      let tokens = refill b now in
      if f.less tokens f.one_float
      then (false, record b { last_seen = now; tokens = tokens })
      else (true, record b { last_seen = now; tokens = f.minus tokens f.one_float })

  -- ratelimit.New; `default_rate` is 10.0
  unfoldable pub new : R → R → ℤ → Limiter R
  new default_rate rate burst = record {
    buckets = [];
    rate = if not (f.less f.zero_float rate) then default_rate else rate;
    burst = f.of_int (if leb_ℤ burst (pos 0) then default_burst else burst);
  }

  -- The bucket of a key, full if it is new.
  unfoldable pub bucket_for : String → ℤ → Limiter R → Option (Bucket R) → Bucket R
  bucket_for key now l none = record {
    tokens = l.burst;
    capacity = l.burst;
    rate = l.rate;
    last_seen = now;
  }
  bucket_for key now l (some b) = b

  -- Limiter.Allow
  unfoldable pub allow : String → ℤ → Limiter R → Bool × Limiter R
  unfolding bucket_for allow_bucket
  allow key now l =
      let (ok, b) = allow_bucket now (bucket_for key now l (Map.lookup key l.buckets)) in
      (ok, record l { buckets = Map.insert key b l.buckets })

-- A tick of `cleanup`.
unfoldable pub clean : {R : Type 0} → ℤ → Limiter R → Limiter R
clean now l = record l {
  buckets = Map.retain (λ _ b. not (ltb_ℤ idle_evict_after (now -ℤ b.last_seen))) l.buckets;
}

-- Limiter.Len
unfoldable pub len : {R : Type 0} → Limiter R → ℕ
len l = length l.buckets
