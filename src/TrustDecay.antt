-- ===== src/TrustDecay.antt =====
-- internal/trustdecay/timer.go: the last validation of each peer and the tier that it leaves. `now` is
-- what time.Now() returns in the call; `Run` only logs.
use mrmi_gateway.Prelude.{
  ℕ, ◌-◌, ltb, ℤ, pos, ◌-ℤ◌, ltb_ℤ, leb_ℤ, String, Bool, true, Option, none, some, [],
  if◌then◌else◌,
}
use mrmi_gateway.Prelude.Map
use mrmi_gateway.Prelude.Map.{Map}
use mrmi_gateway.Config.{hours}

pub record Timer : Type 0 where
  pub last_validated : Map ℤ
  pub decay_window : ℤ

-- New; the default is 30 days.
unfoldable pub new : ℤ → Timer
new window = record {
  last_validated = [];
  decay_window = if leb_ℤ window (pos 0) then hours 720 else window;
}

-- Timer.RecordValidation
unfoldable pub record_validation : String → ℤ → Timer → Timer
record_validation peer_id now t = record t {
  last_validated = Map.insert peer_id now t.last_validated;
}

-- !known || time.Since(last) > t.DecayWindow
unfoldable pub is_stale : ℤ → ℤ → Option ℤ → Bool
is_stale window now none = true
is_stale window now (some last) = ltb_ℤ window (now -ℤ last)

-- Timer.EffectiveTier
unfoldable pub effective_tier : String → ℕ → ℤ → Timer → ℕ
unfolding is_stale
effective_tier peer_id announced now t =
    if is_stale t.decay_window now (Map.lookup peer_id t.last_validated)
    then (if ltb 0 announced then announced - 1 else 0)
    else announced
