-- ===== src/Delivery/Forwarder/Paths.antt =====
-- internal/delivery/forwarder.go: the candidate peers and the routing hint.
use mrmi_gateway.Prelude.{
  String, true, ◌≡◌, ◌≢◌, refl, ap, ◌⊎◌, ◌↔◌, inl, inr, none, some, List, [], ◌∷◌, ◌++◌, arith,
  eq_iff,
}
use mrmi_gateway.Prelude.Map.{Map}
use mrmi_gateway.Prelude.Text.{contains}
use mrmi_gateway.Config.{Config, PeerConfig}
use mrmi_gateway.Delivery.Forwarder.{
  Tiers, is_empty, add_peer, tiers_for, peers_for, reorder_from, or_peers, reorder_by_hint,
}

-- The tier of the peer may be used.
abbrev pub Via : List String → PeerConfig → Type 0
Via allow_via p = (allow_via ≡ []) ⊎ (contains allow_via p.node_scope ≡ true)

-- A regional peer stands under the region as its key; an alliance peer lists the region; a global
-- peer serves every region.
abbrev pub Serves : String → (String × PeerConfig) → Type 0
Serves region e =
    ((e.1.node_scope ≡ "regional") × (e.0 ≡ region))
    ⊎ ((e.1.node_scope ≡ "alliance") × (contains e.1.regions region ≡ true))
    ⊎ (e.1.node_scope ≡ "global")

-- `p` is in the list.
abbrev pub In : PeerConfig → List PeerConfig → Type 0
In p [] = ⊥
In p (q ∷ l) = (q ≡ p) ⊎ In p l

In-append : (p : PeerConfig) (l r : List PeerConfig) → In p (l ++ r) ↔ (In p l ⊎ In p r)
In-append p [] r = (λ h. inr h, λ h. elim h [ inl x ↦ elim x [ ] | inr y ↦ y ])
In-append p (q ∷ l) r = ground (arith, In-append p l r)

abbrev pub AllScope : String → List PeerConfig → Type 0
AllScope scope [] = Unit
AllScope scope (p ∷ l) = (p.node_scope ≡ scope) × AllScope scope l

-- Each list holds peers of its tier.
record AreTiers (t : Tiers) : Type 0 where
  regional : AllScope "regional" t.regional
  alliance : AllScope "alliance" t.alliance
  global : AllScope "global" t.global

add_peer-AreTiers :
    (via : List String) (region key : String) (p : PeerConfig) (t : Tiers)
    → AreTiers t
    → AreTiers (add_peer via region key p t)
unfolding add_peer
add_peer-AreTiers via region key p t a = ground (
  arith,
  eq_iff p.node_scope "regional",
  eq_iff p.node_scope "alliance",
  eq_iff p.node_scope "global",
)

is_empty_iff : (l : List String) → (is_empty l ≡ true) ↔ (l ≡ [])
unfolding is_empty
is_empty_iff [] = (λ _. refl, λ _. refl)
is_empty_iff (x ∷ l) = (λ h. cc, λ h. cc)

tiers_for-AreTiers :
    (via : List String) (region : String) (m : Map PeerConfig) → AreTiers (tiers_for via region m)
unfolding tiers_for
tiers_for-AreTiers via region [] = record { regional = tt; alliance = tt; global = tt }
tiers_for-AreTiers via region ((key, p) ∷ m) =
    add_peer-AreTiers via region key p (tiers_for via region m) (tiers_for-AreTiers via region m)

abbrev InTiers : PeerConfig → Tiers → Type 0
InTiers p t = In p t.regional ⊎ In p t.alliance ⊎ In p t.global

tier_names :
    (◌≢◌ {A = String} "regional" "alliance")
    × (◌≢◌ {A = String} "regional" "global")
    × (◌≢◌ {A = String} "alliance" "global")
tier_names =
    ground
      (arith, eq_iff "regional" "alliance", eq_iff "regional" "global", eq_iff "alliance" "global")

add_peer-InTiers :
    (via : List String) (region key : String) (q p : PeerConfig) (t : Tiers)
    → InTiers p (add_peer via region key q t)
      ↔ (((q ≡ p) × Via via q × Serves region (key, q)) ⊎ InTiers p t)
unfolding add_peer
add_peer-InTiers via region key q p t = ground (
  arith,
  eq_iff q.node_scope "regional",
  eq_iff q.node_scope "alliance",
  eq_iff q.node_scope "global",
  eq_iff key region,
  is_empty_iff via,
  tier_names,
)

-- `p` is a configured peer whose tier may be used and that serves the region.
abbrev pub IsCandidate : List String → String → PeerConfig → Map PeerConfig → Type 0
IsCandidate via region p [] = ⊥
IsCandidate via region p (e ∷ m) =
    ((e.1 ≡ p) × Via via e.1 × Serves region e) ⊎ IsCandidate via region p m

tiers_for-InTiers :
    (via : List String) (region : String) (p : PeerConfig) (m : Map PeerConfig)
    → InTiers p (tiers_for via region m) ↔ IsCandidate via region p m
unfolding tiers_for
tiers_for-InTiers via region p [] = ground arith
tiers_for-InTiers via region p ((key, q) ∷ m) = ground (
  arith,
  add_peer-InTiers via region key q p (tiers_for via region m),
  tiers_for-InTiers via region p m,
)

-- `PeersFor` returns regional peers, then alliance peers, then global peers, in whatever order the
-- map is visited, and exactly the configured peers that may be used and serve the region.
pub peers_for_lem :
    (cfg : Config) (region : String)
    → ((r : List PeerConfig) × (a : List PeerConfig) × (g : List PeerConfig) × (peers_for cfg region
          ≡ (r ++ a) ++ g)
        × AllScope "regional" r
        × AllScope "alliance" a
        × AllScope "global" g)
      × ((p : PeerConfig)
          → In p (peers_for cfg region)
            ↔ IsCandidate cfg.policy.routing.allow_via region p cfg.network.peers)
unfolding peers_for
peers_for_lem cfg region =
    let via = cfg.policy.routing.allow_via in
    let t = tiers_for via region cfg.network.peers in
    let tiers = tiers_for-AreTiers via region cfg.network.peers in
    (
      (t.regional, t.alliance, t.global, refl, tiers.regional, tiers.alliance, tiers.global),
      λ p. ground (
        arith,
        In-append p (t.regional ++ t.alliance) t.global,
        In-append p t.regional t.alliance,
        tiers_for-InTiers via region p cfg.network.peers,
      ),
    )

-- No peer of the list is in the region.
abbrev pub NoneIn : String → List PeerConfig → Type 0
NoneIn hint [] = Unit
NoneIn hint (p ∷ l) = (p.region ≢ hint) × NoneIn hint l

append_snoc : (l r : List PeerConfig) (p : PeerConfig) → (l ++ p ∷ []) ++ r ≡ l ++ p ∷ r
append_snoc [] r p = refl
append_snoc (x ∷ l) r p = ap (◌∷◌ x) (append_snoc l r p)

append_nil : (l : List PeerConfig) → l ++ [] ≡ l
append_nil [] = refl
append_nil (x ∷ l) = ap (◌∷◌ x) (append_nil l)

reorder_from_hit :
    (hint : String) (passed before after : List PeerConfig) (p : PeerConfig)
    → NoneIn hint before
    → p.region ≡ hint
    → reorder_from passed (before ++ p ∷ after) hint ≡ some (p ∷ (passed ++ (before ++ after)))
unfolding reorder_from
reorder_from_hit hint passed [] after p none_in hit = ground (arith, eq_iff p.region hint)
reorder_from_hit hint passed (q ∷ before) after p none_in hit = ground (
  arith,
  eq_iff q.region hint,
  reorder_from_hit hint (passed ++ q ∷ []) before after p,
  append_snoc passed (before ++ after) q,
)

reorder_from_miss :
    (hint : String) (passed peers : List PeerConfig)
    → NoneIn hint peers
    → reorder_from passed peers hint ≡ none
unfolding reorder_from
reorder_from_miss hint passed [] none_in = refl
reorder_from_miss hint passed (q ∷ peers) none_in =
    ground (arith, eq_iff q.region hint, reorder_from_miss hint (passed ++ q ∷ []) peers)

-- The routing hint moves the first peer of that region to the front and keeps the order of all
-- others; without such a peer nothing changes.
reorder_by_hint_lem :
    (hint : String) (before after : List PeerConfig) (p : PeerConfig)
    → NoneIn hint before
    → (p.region ≡ hint → reorder_by_hint (before ++ p ∷ after) hint ≡ p ∷ (before ++ after))
      × (reorder_by_hint before hint ≡ before)
unfolding reorder_by_hint or_peers
reorder_by_hint_lem hint before after p none_in = (
  λ hit. rw (reorder_from_hit hint [] before after p none_in hit),
  rw (reorder_from_miss hint [] before none_in),
)
