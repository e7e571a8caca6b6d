-- ===== src/Delivery/Retry/Sent.antt =====
-- internal/delivery/retry.go: what a nil error of `SendWithRetry` means.
use mrmi_gateway.Prelude.{
  ℕ, zero, suc, ◌+◌, ◌<◌, ℤ, nat_eq, String, true, false, ◌≡◌, refl, inl, inr, Option-cases, Option,
  none, some, List, arith,
}
use mrmi_gateway.Delivery.Dlq.{Entry}
use mrmi_gateway.Delivery.Retry.{
  RetryPolicy, World, note_failure, next_delay, give_up, attempt_loop, send_with_retry,
}

module _ {W : Type 0} (world : World W) (policy : RetryPolicy) where
  -- A send succeeded, and nothing happened after it.
  abbrev pub JustSent : W → Type 0
  JustSent w' = (w : W) × ((world.send w).0 ≡ none) × (w' ≡ (world.send w).1)

  give_up-err :
      (dlq : Option (List Entry)) (entry : Entry) (e : String) (w : W)
      → (give_up world dlq entry (some e) w).err ≡ some e
  unfolding give_up
  give_up-err none entry e w = refl
  give_up-err (some q) entry e w = refl

  attempt_loop-JustSent :
      (n attempt : ℕ) (delay : ℤ) (last : Option String) (dlq : Option (List Entry)) (entry : Entry)
      (w : W)
      → attempt + n ≡ policy.max_attempts
      → (attempt_loop world policy (suc n) attempt delay last dlq entry w).err ≡ none
      → JustSent (attempt_loop world policy (suc n) attempt delay last dlq entry w).world
  unfolding attempt_loop note_failure
  attempt_loop-JustSent zero attempt delay last dlq entry w limit =
      elim (Option-cases (world.send w).0) [
        | inl ok ↦ rw (ok, attempt_loop) (λ h. (w, ok, refl))
        | inr (e, failed) ↦
            let over : nat_eq attempt policy.max_attempts ≡ true = ground arith in
            rw (failed, attempt_loop, over, give_up-err) (λ h. absurd (cc h))
      ]
  attempt_loop-JustSent (suc n) attempt delay last dlq entry w limit =
      elim (Option-cases (world.send w).0) [
        | inl ok ↦ rw (ok, attempt_loop) (λ h. (w, ok, refl))
        | inr (e, failed) ↦
            let more : nat_eq attempt policy.max_attempts ≡ false = ground arith in
            let read = world.now (world.send w).1 in
            let waited = world.wait delay read.1 in
            elim (Option-cases waited.0) [
              | inl timed_out ↦
                  rw (failed, attempt_loop, more, timed_out)
                    (attempt_loop-JustSent n (attempt + 1) (next_delay policy delay) (some e) dlq
                      (note_failure attempt e read.0 entry) waited.1 (omega arith))
              | inr (c, cancelled) ↦ rw (failed, attempt_loop, more, cancelled) (λ h. absurd (cc h))
            ]
      ]

  rounds-JustSent :
      (k : ℕ) (dlq : Option (List Entry)) (entry : Entry) (w : W)
      → k ≡ policy.max_attempts
      → 0 < k
      → (attempt_loop world policy k 1 policy.base_delay none dlq entry w).err ≡ none
      → JustSent (attempt_loop world policy k 1 policy.base_delay none dlq entry w).world
  rounds-JustSent zero dlq entry w e h = elim h [ ]
  rounds-JustSent (suc n) dlq entry w e h =
      attempt_loop-JustSent n 1 policy.base_delay none dlq entry w (omega arith)

  pub send_with_retry-JustSent :
      (dlq : Option (List Entry)) (entry : Entry) (w : W)
      → 0 < policy.max_attempts
      → (send_with_retry world policy dlq entry w).err ≡ none
      → JustSent (send_with_retry world policy dlq entry w).world
  unfolding send_with_retry
  send_with_retry-JustSent dlq entry w h = rounds-JustSent policy.max_attempts dlq entry w refl h
