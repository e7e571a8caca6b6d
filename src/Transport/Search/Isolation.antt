-- ===== src/Transport/Search/Isolation.antt =====
-- internal/transport/grpc/adapter.go: which requests `BroadcastDiscovery` takes for the isolation of
-- apps.
use mrmi_gateway.Prelude.{
  String, true, false, Option, Option-cases, none, some, [], ◌∷◌, ◌≡◌, refl, inl, inr, ◌⊎◌, ◌↔◌,
}
use mrmi_gateway.Prelude.Map.{Map}
use mrmi_gateway.Config.{AppConfig}
use mrmi_gateway.Policy.{Engine, Decision, DiscoveryRequest, allow, deny, evaluate_discovery}
use mrmi_gateway.Policy.Discovery.{MayDiscover, evaluate_discovery-allow_iff}
use mrmi_gateway.Discovery.{Request}
use mrmi_gateway.Transport.Search.{Node, first_app, is_isolated}

-- The node serves this app, the first of its apps; without apps, the empty name.
pub data Serves : Map AppConfig → String → Type 0 where
  no_app : Serves [] ""
  first :
      {app_id : String} {app : AppConfig} {apps : Map AppConfig}
      → Serves ((app_id, app) ∷ apps) app_id

-- The app that asks may discover the app that the node serves; a node without a policy engine has no
-- isolation.
abbrev pub MayAsk : Option Engine → Map AppConfig → Request → Type 0
MayAsk none apps req = Unit
MayAsk (some e) apps req =
    (app_id : String) × Serves apps app_id
    × MayDiscover e.cfg (record { origin_app_id = req.origin_app_id; node_app_id = app_id })

first_app-Serves : (apps : Map AppConfig) → Serves apps (first_app apps)
unfolding first_app
first_app-Serves [] = no_app
first_app-Serves ((app_id, app) ∷ apps) = first

Serves-first_app :
    (apps : Map AppConfig) (app_id : String) → Serves apps app_id → app_id ≡ first_app apps
unfolding first_app
Serves-first_app [] app_id no_app = refl
Serves-first_app ((k, app) ∷ apps) app_id first = refl

abbrev asked : Map AppConfig → Request → DiscoveryRequest
asked apps req = record { origin_app_id = req.origin_app_id; node_app_id = first_app apps }

Decision-cases : (d : Decision) → (d ≡ allow) ⊎ (d ≡ deny)
Decision-cases allow = inl refl
Decision-cases deny = inr refl

engine-MayAsk :
    (e : Engine) (apps : Map AppConfig) (req : Request)
    → ((evaluate_discovery e (asked apps req)).decision ≡ allow) ↔ MayAsk (some e) apps req
engine-MayAsk e apps req =
    let spec = evaluate_discovery-allow_iff e (asked apps req) in
    (
      λ h. (first_app apps, first_app-Serves apps, spec.0 h),
      λ (app_id, serves, may). spec.1 (rw (Serves-first_app apps app_id serves) at may),
    )

pub isolated-MayAsk :
    (n : Node) (req : Request) → is_isolated n req ≡ true → ¬ MayAsk n.policy_eng n.cfg.apps req
unfolding is_isolated
isolated-MayAsk n req e = elim (Option-cases n.policy_eng) [
  | inl alone ↦ absurd (cc (rw (alone, is_isolated) at e))
  | inr (eng, there) ↦
      elim (Decision-cases (evaluate_discovery eng (asked n.cfg.apps req)).decision) [
        | inl permitted ↦ absurd (cc (rw (there, permitted, is_isolated) at e))
        | inr refused ↦ rw there (λ may. cc (refused, (engine-MayAsk eng n.cfg.apps req).1 may))
      ]
]

pub open-MayAsk :
    (n : Node) (req : Request) → is_isolated n req ≡ false → MayAsk n.policy_eng n.cfg.apps req
unfolding is_isolated
open-MayAsk n req e = elim (Option-cases n.policy_eng) [
  | inl alone ↦ rw alone tt
  | inr (eng, there) ↦
      elim (Decision-cases (evaluate_discovery eng (asked n.cfg.apps req)).decision) [
        | inl permitted ↦ rw there ((engine-MayAsk eng n.cfg.apps req).0 permitted)
        | inr refused ↦ absurd (cc (rw (there, refused, is_isolated) at e))
      ]
]
