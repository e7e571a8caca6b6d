-- ===== src/Connect/Laws.antt =====
-- internal/connect/resolver.go: which requests are accepted.
use mrmi_gateway.Prelude.{ℕ, true, false, List, ◌≡◌, ◌↔◌, ◌⊎◌, refl, arith}
use mrmi_gateway.Prelude.Text.{codes, codes_eq, codes_eq_eq, contains}
use mrmi_gateway.Config.{Config}
use mrmi_gateway.Connect.{accepted, pending, Request, Resolver, mode_of, resolve}

-- What the mode of the configuration asks of a request.
abbrev MayConnect : Config → Request → Type 0
MayConnect cfg req =
    (codes_eq (mode_of cfg.policy.connect.auto_accept) (codes "AUTO_ALL") ≡ true)
    ⊎ ((codes_eq (mode_of cfg.policy.connect.auto_accept) (codes "AUTO_WHITELIST") ≡ true)
        × (contains cfg.policy.connect.trusted_nodes req.origin_node_id ≡ true))
    ⊎ ((codes_eq (mode_of cfg.policy.connect.auto_accept) (codes "AUTO_MUTUAL") ≡ true)
        × (req.mutual_discovery ≡ true))

one_mode :
    (m : List ℕ)
    → codes_eq m (codes "AUTO_WHITELIST") ≡ true
    → codes_eq m (codes "AUTO_MUTUAL") ≡ false
one_mode m h = rw (codes_eq_eq m (codes "AUTO_WHITELIST") h) (unfold codes_eq in refl)

-- A request is accepted exactly in the three cases of the modes, and is left pending otherwise; it
-- is never refused.
resolve-accepted_iff :
    (r : Resolver) (req : Request)
    → ((resolve r req ≡ accepted) ↔ MayConnect r.cfg req)
      × ((resolve r req ≡ accepted) ⊎ (resolve r req ≡ pending))
unfolding resolve
resolve-accepted_iff r req =
    let exclusive = one_mode (mode_of r.cfg.policy.connect.auto_accept) in ground (arith, exclusive)
