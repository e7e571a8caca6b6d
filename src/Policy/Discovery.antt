-- ===== src/Policy/Discovery.antt =====
-- internal/policy/engine.go: `EvaluateDiscovery`, for each mode of the configuration.
use mrmi_gateway.Prelude.{
  String, true, false, ◌≡◌, ◌⊎◌, ◌↔◌, arith, ◌==◌, eq_iff, Bool-cases, inl, inr, refl,
}
use mrmi_gateway.Prelude.Text.{codes, codes_eq, to_upper, trim_space, contains, equal_fold}
use mrmi_gateway.Config.{Config}
use mrmi_gateway.Policy.{Engine, DiscoveryRequest, allow, evaluate_discovery}

-- The configured mode reads as `mode` when trimmed and put in capitals.
abbrev pub ModeIs : Config → String → Type 0
ModeIs cfg mode =
    codes_eq (to_upper (trim_space cfg.policy.discovery.app_isolation)) (codes mode) ≡ true

-- The mode is open; or it is a whitelist that holds the origin app; or it is neither (empty, or
-- any other text), and the two apps have the same name up to case.
abbrev pub MayDiscover : Config → DiscoveryRequest → Type 0
MayDiscover cfg req =
    ModeIs cfg "OPEN"
    ⊎ (ModeIs cfg "WHITELIST"
        × (contains cfg.policy.discovery.allowed_app_ids req.origin_app_id ≡ true))
    ⊎ ((¬ ModeIs cfg "OPEN")
        × (¬ ModeIs cfg "WHITELIST")
        × (equal_fold req.origin_app_id req.node_app_id ≡ true))

-- A discovery request is allowed exactly in these three cases; a mode that is empty or unknown
-- counts as SAME_APP_ONLY.
pub evaluate_discovery-allow_iff :
    (e : Engine) (req : DiscoveryRequest)
    → ((evaluate_discovery e req).decision ≡ allow) ↔ MayDiscover e.cfg req
unfolding evaluate_discovery
evaluate_discovery-allow_iff e req =
    let mode = trim_space e.cfg.policy.discovery.app_isolation in
    elim (Bool-cases (mode == "")) [
      | inl blank ↦
          let none_given : mode ≡ "" = (eq_iff mode "").0 blank in
          let not_open : codes_eq (to_upper mode) (codes "OPEN") ≡ false =
            rw none_given (unfold to_upper codes_eq in refl) in
          let not_list : codes_eq (to_upper mode) (codes "WHITELIST") ≡ false =
            rw none_given (unfold to_upper codes_eq in refl) in
          let default : codes_eq (codes "SAME_APP_ONLY") (codes "OPEN") ≡ false =
            (unfold codes_eq in refl) in
          let default' : codes_eq (codes "SAME_APP_ONLY") (codes "WHITELIST") ≡ false =
            (unfold codes_eq in refl) in
          ground (arith, default, default', not_open, not_list)
      | inr given ↦ ground arith
    ]
