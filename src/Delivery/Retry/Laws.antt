-- ===== src/Delivery/Retry/Laws.antt =====
-- internal/delivery/retry.go: the sends and the waits of the loop, counted, and its ends.
use mrmi_gateway.Prelude.{
  ℕ, zero, suc, ◌+◌, ◌≤◌, ◌<◌, ℤ, nat_eq, String, ◌≡◌, ◌≢◌, refl, ◌⊎◌, inl, inr, Option-cases,
  Bool-cases, All, Option, none, some, List, [], ◌∷◌, arith,
}
use mrmi_gateway.Prelude.Int.{◌≤ℤ◌}
use mrmi_gateway.Delivery.Dlq.{Entry, append}
use mrmi_gateway.Delivery.Retry.{
  RetryPolicy, World, Outcome, note_failure, next_delay, give_up, attempt_loop, send_with_retry,
}

-- A world that counts the sends and the longest delay it was asked to wait.
pub record Meter (W : Type 0) : Type 0 where
  pub inner : W
  pub sends : ℕ
  pub waits : List ℤ

unfoldable pub metered : {W : Type 0} → World W → World (Meter W)
metered world = record {
  send = λ m. let (r, w) = world.send m.inner in (r, record m { inner = w; sends = m.sends + 1 });
  wait =
      λ d m. let (r, w) = world.wait d m.inner in (r, record m { inner = w; waits = d ∷ m.waits });
  now = λ m. let (t, w) = world.now m.inner in (t, record m { inner = w });
}

abbrev pub start : {W : Type 0} → W → Meter W
start w = record { inner = w; sends = 0; waits = [] }

-- One of three ends. A send succeeded and the queue is as before; or the context was done in a
-- wait before the last attempt, and the queue is as before; or every attempt failed, and a queue,
-- if there is one, has one entry more, with the number of attempts and the last error.
abbrev pub Ends : {W : Type 0} → ℕ → Option (List Entry) → Outcome (Meter W) → Type 0
Ends limit dlq o =
    ((o.err ≡ none) × (o.dlq ≡ dlq) × (0 < o.world.sends) × (o.world.sends ≤ limit))
    ⊎ ((o.err ≢ none) × (o.dlq ≡ dlq) × (0 < o.world.sends) × (o.world.sends < limit))
    ⊎ ((o.err ≢ none)
        × (o.world.sends ≡ limit)
        × ((q : List Entry)
            → dlq ≡ some q
            → (e : Entry) × (t : ℤ) × (o.dlq ≡ some (append e t q))
              × (e.attempts ≡ limit)
              × (o.err ≡ some e.last_err)))

module _ {W : Type 0} (world : World W) (policy : RetryPolicy) where
  -- The meter after a send that left the world in `w`, and the reading of the clock.
  abbrev after_now : Meter W → W → Meter W
  after_now m w = record m { inner = (world.now w).1; sends = m.sends + 1 }

  next_delay-le : (delay : ℤ) → next_delay policy delay ≤ℤ policy.cap_delay
  unfolding next_delay
  next_delay-le delay = ground arith

  give_up-waits :
      (dlq : Option (List Entry)) (entry : Entry) (e : Option String) (m : Meter W)
      → (give_up (metered world) dlq entry e m).world.waits ≡ m.waits
  unfolding give_up metered
  give_up-waits none entry e m = refl
  give_up-waits (some q) entry e m = refl

  attempt_loop-waits :
      (n attempt : ℕ) (delay : ℤ) (last : Option String) (dlq : Option (List Entry)) (entry : Entry)
      (m : Meter W)
      → delay ≤ℤ policy.cap_delay
      → All (λ d. d ≤ℤ policy.cap_delay) m.waits
      → All
          (λ d. d ≤ℤ policy.cap_delay)
          (attempt_loop (metered world) policy n attempt delay last dlq entry m).world.waits
  unfolding attempt_loop metered note_failure
  attempt_loop-waits zero attempt delay last dlq entry m le all =
      rw (give_up-waits dlq entry last m) all
  attempt_loop-waits (suc n) attempt delay last dlq entry m le all =
      let sent = world.send m.inner in
      elim (Option-cases sent.0) [
        | inl ok ↦ rw (ok, attempt_loop) all
        | inr (e, failed) ↦
            let m₂ = after_now m sent.1 in
            let entry' = note_failure attempt e (world.now sent.1).0 entry in
            let waited = world.wait delay m₂.inner in
            let m₃ : Meter W = record m₂ { inner = waited.1; waits = delay ∷ m.waits } in
            elim (Bool-cases (nat_eq attempt policy.max_attempts)) [
              | inl over ↦
                  rw (failed, attempt_loop, over) (rw (give_up-waits dlq entry' (some e) m₂) all)
              | inr more ↦ elim (Option-cases waited.0) [
                | inl timed_out ↦
                    rw (failed, attempt_loop, more, timed_out)
                      (attempt_loop-waits n (attempt + 1) (next_delay policy delay) (some e) dlq
                        entry' m₃ (next_delay-le delay) (le, all))
                | inr (c, cancelled) ↦ rw (failed, attempt_loop, more, cancelled) (le, all)
              ]
            ]
      ]

  -- If the first delay is within the cap, so is every delay that `SendWithRetry` waits, whatever
  -- the multiplier.
  pub send_with_retry-waits :
      (dlq : Option (List Entry)) (entry : Entry) (w : W)
      → policy.base_delay ≤ℤ policy.cap_delay
      → All
          (λ d. d ≤ℤ policy.cap_delay)
          (send_with_retry (metered world) policy dlq entry (start w)).world.waits
  unfolding send_with_retry
  send_with_retry-waits dlq entry w le =
      attempt_loop-waits policy.max_attempts 1 policy.base_delay none dlq entry (start w) le tt
