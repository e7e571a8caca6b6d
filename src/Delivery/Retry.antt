-- ===== src/Delivery/Retry.antt =====
-- internal/delivery/retry.go: sending with exponential backoff. What the loop does outside the
-- process is an interface over a state W of the world: the send, the clock, and the wait for the
-- delay, which says whether the context was done first. The multiplier of the policy is the
-- function that it computes on durations (time.Duration(float64(delay) * Multiplier)), and a
-- number of attempts below zero counts as zero.
pub mod Laws
pub mod Sent
use mrmi_gateway.Prelude.{
  ℕ, zero, suc, ◌+◌, ◌/◌, ℤ, pos, negsuc, ◌+ℤ◌, ltb_ℤ, nat_eq, String, Bool, true, false, Option,
  none, some, List, if◌then◌else◌,
}
use mrmi_gateway.Config.{seconds, minutes}
use mrmi_gateway.Delivery.Dlq.{Entry, append}

pub record RetryPolicy : Type 0 where
  pub base_delay : ℤ
  pub multiply : ℤ → ℤ
  pub cap_delay : ℤ
  pub max_attempts : ℕ

-- DefaultRetryPolicy
unfoldable pub default_retry_policy : RetryPolicy
unfolding ◌+ℤ◌
default_retry_policy = record {
  base_delay = seconds 1;
  multiply = λ d. d +ℤ d;
  cap_delay = minutes 5;
  max_attempts = 10;
}

-- Time.Unix and Time.UnixMilli of an instant
unfoldable pub unix : ℤ → ℤ
unix (pos n) = pos (n / 1_000_000_000)
unix (negsuc n) = negsuc (n / 1_000_000_000)

unfoldable pub unix_milli : ℤ → ℤ
unix_milli (pos n) = pos (n / 1_000_000)
unix_milli (negsuc n) = negsuc (n / 1_000_000)

-- `send` returns nil or an error; `wait` returns the context's error if it was done before the
-- delay was over; `now` reads the clock.
pub record World (W : Type 0) : Type 0 where
  pub send : W → Option String × W
  pub wait : ℤ → W → Option String × W
  pub now : W → ℤ × W

-- The error that is returned, the queue and the world after it.
pub record Outcome (W : Type 0) : Type 0 where
  pub err : Option String
  pub dlq : Option (List Entry)
  pub world : W

-- What the loop writes into the entry after a failure.
unfoldable pub note_failure : ℕ → String → ℤ → Entry → Entry
note_failure attempt err now entry = record entry {
  attempts = attempt;
  last_err = err;
  last_attempt_unix = unix now;
}

unfoldable pub next_delay : RetryPolicy → ℤ → ℤ
next_delay policy delay =
    if ltb_ℤ policy.cap_delay (policy.multiply delay)
    then policy.cap_delay
    else policy.multiply delay

module _ {W : Type 0} (world : World W) where
  -- After the loop the entry goes to the queue, if there is one.
  unfoldable pub give_up : Option (List Entry) → Entry → Option String → W → Outcome W
  give_up none entry err w = record { err = err; dlq = none; world = w }
  give_up (some dlq) entry err w =
      let (now, w') = world.now w in
      record { err = err; dlq = some (append entry (unix now) dlq); world = w' }

  -- The loop, by the rounds that are left.
  unfoldable pub attempt_loop :
      RetryPolicy → ℕ → ℕ → ℤ → Option String → Option (List Entry) → Entry → W → Outcome W
  unfolding note_failure give_up
  attempt_loop policy zero attempt delay last_err dlq entry w = give_up dlq entry last_err w
  attempt_loop policy (suc rounds) attempt delay last_err dlq entry w =
      let (result, w₁) = world.send w in
      elim result [
        | none ↦ record { err = none; dlq = dlq; world = w₁ }
        | some e ↦
            let (now, w₂) = world.now w₁ in
            let entry' = note_failure attempt e now entry in
            let (done, w₃) = world.wait delay w₂ in
            let rest =
              attempt_loop policy rounds (attempt + 1) (next_delay policy delay) (some e) dlq entry'
                w₃ in
            if nat_eq attempt policy.max_attempts
            then give_up dlq entry' (some e) w₂
            else elim done [
              | some cancelled ↦ record { err = some cancelled; dlq = dlq; world = w₃ }
              | none ↦ rest
            ]
      ]

  -- SendWithRetry
  unfoldable pub send_with_retry : RetryPolicy → Option (List Entry) → Entry → W → Outcome W
  unfolding attempt_loop
  send_with_retry policy dlq entry w =
      attempt_loop policy policy.max_attempts 1 policy.base_delay none dlq entry w
