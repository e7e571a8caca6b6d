-- ===== src/App/Examples.antt =====
-- The wiring's theorems at concrete envelopes, ticks and configurations.
use mrmi_gateway.Prelude.{
  ℕ, ◌+◌, ℤ, pos, String, Bool, false, nat_eq, none, some, List, [], ◌∷◌, ◌≡◌, refl,
}
use mrmi_gateway.Prelude.Map
use mrmi_gateway.Config.{Config, seconds}
use mrmi_gateway.Config.Presets.{default_config_for_profile}
use mrmi_gateway.Config.Validate.Laws.{default_config_for_profile-IsValid}
use mrmi_gateway.Identity
use mrmi_gateway.Session.{Tracker}
use mrmi_gateway.Hotreload
use mrmi_gateway.Transit
use mrmi_gateway.App.Link.{Peers, response, send_to_peer}
use mrmi_gateway.App.Link.Laws.{KeyPair, Sent, send_to_peer-Sent}
use mrmi_gateway.App.Background
use mrmi_gateway.App.Background.Expiry.{Queued, AllUntil, SomeAfter, ticks, ticks-kept}
use mrmi_gateway.App.Reload.{Event, saved, polled, steps}
use mrmi_gateway.App.Reload
use mrmi_gateway.App.Reload.Valid.{HasValid, steps-HasValid}
use mrmi_gateway.Config.Toml.Apply.{no_path}
use mrmi_gateway.Samples.{config, envelope}

-- Signatures that begin with the key.
abbrev sign : ℕ → Identity.Payload → List ℕ
sign key p = key ∷ p.payload

abbrev valid : ℕ → Identity.Payload → List ℕ → Bool
valid key p [] = false
valid key p (b ∷ _) = nat_eq b key

pair : KeyPair sign valid 7 7
pair = record { not_empty = λ p h. cc h; correct = λ p. refl }

-- A peer that allows everything; the world counts the calls.
abbrev peers : Peers ℕ
peers = record {
  connect = λ _ n. (none, n);
  call = λ _ env n. (
    response (record {
      decision = "ALLOW";
      reason = "";
      profile = "";
      node_id = "by-node-01";
      audit_root_hash = "sha256:by";
      peer_audit_root_hash = "";
    }),
    n + 1,
  );
}

abbrev tracker : Tracker
tracker = record { next = [] }

send_to_peer-Sent_example :
    Sent sign valid peers config 7 "by:7777"
      (envelope "a1" "BY")
      0
      (send_to_peer sign peers config 7 "by:7777" (envelope "a1" "BY") (tracker, 0))
send_to_peer-Sent_example =
    send_to_peer-Sent sign valid peers config 7 7 "by:7777" (envelope "a1" "BY") tracker 0 pair

abbrev buffered : Transit.Entry
buffered = record { env = envelope "a1" "BY"; peer_addr = "by:7777"; expires = pos 30 }

abbrev state : Background.State
state = record { transit = record { entries = ("a1", buffered) ∷ []; ttl = seconds 30 }; dlq = [] }

abbrev two_ticks : List (ℤ × ℤ)
two_ticks = (pos 20, pos 0) ∷ (pos 40, pos 0) ∷ []

ticks-kept_example :
    (AllUntil (pos 30) two_ticks
      → Map.lookup "a1" (ticks two_ticks state).transit.entries ≡ some buffered)
    × (SomeAfter (pos 30) two_ticks → Queued buffered (ticks two_ticks state).dlq)
unfolding Map.lookup
ticks-kept_example = ticks-kept two_ticks "a1" buffered state (refl, tt) refl

abbrev strict : Config
strict = default_config_for_profile "strict"

abbrev loaded : Reload.State
loaded = record {
  engine = record { cfg = strict; crl_store = none };
  last_version = "";
  watcher = Hotreload.new;
}

abbrev decimal : ℤ → String
decimal n = "7000"

steps-HasValid_example :
    HasValid (steps decimal (saved config ∷ polled (some (pos 5)) no_path ∷ []) loaded)
steps-HasValid_example =
    steps-HasValid decimal (saved config ∷ polled (some (pos 5)) no_path ∷ []) loaded
      (default_config_for_profile-IsValid "strict")
