-- ===== src/Registry/Examples.antt =====
-- The registry's theorem at a concrete token.
use mrmi_gateway.Prelude.{ℕ, ◌+◌, pos, [], ◌∷◌, ◌≡◌, refl}
use mrmi_gateway.Registry.{Registry, Uuid, denial}
use mrmi_gateway.Registry.Laws.{Call, call, calls, connect_once}
use mrmi_gateway.Samples.{config}

abbrev uuid : Uuid ℕ
uuid = record { new_string = λ n. ("s", n + 1) }

abbrev registry : Registry
registry = record {
  cfg = config;
  tokens = ("t1", record { app_id = "chat"; user_id = "ana"; expires = pos 100 }) ∷ [];
}

abbrev attempt : ℕ → Call uuid
attempt now = record {
  token = "t1";
  requester_id = "n1";
  requester_region = "BY";
  now = pos now;
  session_now = pos now;
}

connect_once_example :
    (call uuid (attempt 9) (calls uuid (attempt 7 ∷ []) (call uuid (attempt 5) (registry, 0)).1)).0
    ≡ denial uuid
connect_once_example = connect_once uuid (attempt 5) (attempt 9) (attempt 7 ∷ []) registry 0 refl
