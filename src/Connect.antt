-- ===== src/Connect.antt =====
-- internal/connect/resolver.go: whether a connection request is accepted at once.
pub mod Laws
use mrmi_gateway.Prelude.{ℕ, String, Bool, List, ◌==◌, if◌then◌else◌}
use mrmi_gateway.Prelude.Text.{codes, codes_eq, to_upper, trim_space, contains}
use mrmi_gateway.Config.{Config}

pub data Status : Type 0 where
  accepted pending refused : Status

pub record Request : Type 0 where
  pub origin_node_id : String
  pub origin_app_id : String
  pub recipient_app_id : String
  pub mutual_discovery : Bool

pub record Resolver : Type 0 where
  pub cfg : Config

-- Resolver.Reload
unfoldable pub reload : Config → Resolver → Resolver
reload cfg r = record { cfg = cfg }

-- strings.ToUpper(strings.TrimSpace(auto_accept)), with the default for an empty one
unfoldable pub mode_of : String → List ℕ
mode_of auto_accept =
    if trim_space auto_accept == "" then codes "MANUAL" else to_upper (trim_space auto_accept)

-- Resolver.Resolve
unfoldable pub resolve : Resolver → Request → Status
resolve r req =
    let mode = mode_of r.cfg.policy.connect.auto_accept in
    if codes_eq mode (codes "AUTO_ALL")
    then accepted
    else if codes_eq mode (codes "AUTO_WHITELIST")
    then (if contains r.cfg.policy.connect.trusted_nodes req.origin_node_id
        then accepted
        else pending)
    else if codes_eq mode (codes "AUTO_MUTUAL")
    then (if req.mutual_discovery then accepted else pending)
    else pending
