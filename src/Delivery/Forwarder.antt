-- ===== src/Delivery/Forwarder.antt =====
-- internal/delivery/forwarder.go: path selection and delivery. The transport, the clock and the
-- waits are an interface over a state W of the world; the map of peers is visited in the order of
-- its list; time zones are a parameter, as in Schema.Window.
pub mod Paths
pub mod Promise
pub mod Success
use mrmi_gateway.Prelude.{
  ℕ, ℤ, pos, String, Bool, true, false, not, ◌&&◌, Option, none, some, List, [], ◌∷◌, ◌++◌, ◌==◌,
  if◌then◌else◌, is_set,
}
use Prim.Native.String.{◌++◌ as append_text}
use mrmi_gateway.Prelude.Map
use mrmi_gateway.Prelude.Map.{Map}
use mrmi_gateway.Prelude.Text.{contains}
use mrmi_gateway.Config.{Config, PeerConfig, CutoffWindow}
use mrmi_gateway.Envelope.{Envelope}
use mrmi_gateway.Schema.{iso20022}
use mrmi_gateway.Schema.Window
use mrmi_gateway.Schema.Window.{Zone, WindowError, is_in_window, next_open}
use mrmi_gateway.Transit
use mrmi_gateway.Transit.{Cache}
use mrmi_gateway.Delivery.Dlq
use mrmi_gateway.Delivery.Dlq.{entry_for}
use mrmi_gateway.Delivery.Retry.{RetryPolicy, World, unix, unix_milli, send_with_retry}

-- `send` returns the peer's root hash and nil or an error.
pub record Net (W : Type 0) : Type 0 where
  pub send : String → Envelope → W → (String × Option String) × W
  pub wait : ℤ → W → Option String × W
  pub now : W → ℤ × W

-- The forwarder's queue and transit cache, where it has them, and the world.
pub record State (W : Type 0) : Type 0 where
  pub dlq : Option (List Dlq.Entry)
  pub transit : Option Cache
  pub world : W

pub data ForwardError : Type 0 where
  cutoff_check : WindowError → ForwardError
  outside_window no_peer buffered exhausted : String → ForwardError

pub record Tiers : Type 0 where
  pub regional : List PeerConfig
  pub alliance : List PeerConfig
  pub global : List PeerConfig

is_empty : List String → Bool
is_empty [] = true
is_empty (_ ∷ _) = false

-- The body of the loop of `PeersFor`: the tier's list takes the peer, if it serves the region.
unfoldable pub add_peer : List String → String → String → PeerConfig → Tiers → Tiers
unfolding is_empty
add_peer allow_via region key peer t =
    if not (is_empty allow_via) && not (contains allow_via peer.node_scope)
    then t
    else if peer.node_scope == "regional"
    then (if key == region then record t { regional = peer ∷ t.regional } else t)
    else if peer.node_scope == "alliance"
    then (if contains peer.regions region then record t { alliance = peer ∷ t.alliance } else t)
    else if peer.node_scope == "global"
    then record t { global = peer ∷ t.global }
    else t

-- The three lists, each in the order in which the map is visited.
unfoldable pub tiers_for : List String → String → Map PeerConfig → Tiers
unfolding add_peer
tiers_for allow_via region [] = record { regional = []; alliance = []; global = [] }
tiers_for allow_via region ((key, peer) ∷ m) =
    add_peer allow_via region key peer (tiers_for allow_via region m)

-- Forwarder.PeersFor
unfoldable pub peers_for : Config → String → List PeerConfig
unfolding tiers_for
peers_for cfg region =
    let t = tiers_for cfg.policy.routing.allow_via region cfg.network.peers in
    (t.regional ++ t.alliance) ++ t.global

-- The loop of `reorderByHint`, with the peers passed so far.
unfoldable pub reorder_from : List PeerConfig → List PeerConfig → String → Option (List PeerConfig)
reorder_from passed [] hint = none
reorder_from passed (p ∷ rest) hint =
    let later = reorder_from (passed ++ p ∷ []) rest hint in
    if p.region == hint then some (p ∷ (passed ++ rest)) else later

or_peers : Option (List PeerConfig) → List PeerConfig → List PeerConfig
or_peers none peers = peers
or_peers (some l) peers = l

-- reorderByHint
unfoldable pub reorder_by_hint : List PeerConfig → String → List PeerConfig
unfolding reorder_from or_peers
reorder_by_hint peers hint = or_peers (reorder_from [] peers hint) peers

unfoldable pub order_peers : List PeerConfig → String → List PeerConfig
unfolding reorder_by_hint
order_peers peers hint = if not (hint == "") then reorder_by_hint peers hint else peers

corridor_key : Envelope → String
corridor_key env = append_text env.sender_region (append_text "-" env.recipient_region)

-- What `checkCutoffWindow` returns: the next opening, none if it is the zero time, and the error.
pub record Cutoff : Type 0 where
  pub next_open : Option ℤ
  pub err : Option ForwardError

pub opening : Window.Result ℤ → Option ℤ
opening (Window.ok t) = some t
opening (Window.err _) = none

module _ (load_location : String → Option Zone) where
  cutoff_verdict : CutoffWindow → String → ℤ → Window.Result Bool → Cutoff
  unfolding opening
  cutoff_verdict w key now (Window.err e) = record { next_open = none; err = some (cutoff_check e) }
  cutoff_verdict w key now (Window.ok true) = record { next_open = none; err = none }
  cutoff_verdict w key now (Window.ok false) = record {
    next_open = opening (Window.next_open load_location w now);
    err = some (outside_window key);
  }

  -- Forwarder.checkCutoffWindow for the window of the corridor, if one is configured
  unfoldable pub check_cutoff_window :
      {W : Type 0} → Net W → Map CutoffWindow → Envelope → W → Cutoff × W
  unfolding corridor_key cutoff_verdict
  check_cutoff_window net windows env w = elim (Map.lookup (corridor_key env) windows) [
    | none ↦ (record { next_open = none; err = none }, w)
    | some window ↦
        let (now, w') = net.now w in
        (cutoff_verdict window (corridor_key env) now (is_in_window load_location window now), w')
  ]

-- The closure that `Forward` hands to `SendWithRetry`: the variable peerRootHash is part of its
-- world.
unfoldable pub link : {W : Type 0} → Net W → String → Envelope → World (W × String)
link net addr env = record {
  send = λ s. let (r, w) = net.send addr env s.0 in (r.1, (w, r.0));
  wait = λ d s. let (r, w) = net.wait d s.0 in (r, (w, s.1));
  now = λ s. let (t, w) = net.now s.0 in (t, (w, s.1));
}

module _ {W : Type 0} (net : Net W) (policy : RetryPolicy) where
  -- The loop over the peers: the root hash of the first that takes the envelope.
  unfoldable pub try_peers : Envelope → List PeerConfig → W → Option String × W
  unfolding link
  try_peers env [] w = (none, w)
  try_peers env (peer ∷ rest) w =
      let out =
        send_with_retry (link net peer.addr env) policy none (entry_for env peer.addr) (w, "") in
      let later = try_peers env rest out.world.0 in
      elim out.err [ none ↦ (some out.world.1, out.world.0) | some e ↦ later ]

  -- All peers are exhausted: the transit cache takes the envelope, or else the queue.
  unfoldable pub hold : Envelope → String → State W → ForwardError × State W
  hold env addr s = elim s.transit [
    | some c ↦
        let (now, w) = net.now s.world in
        (
          buffered env.recipient_region,
          record s { transit = some (Transit.put env addr now c); world = w },
        )
    | none ↦ elim s.dlq [
      | some q ↦
          let (now, w) = net.now s.world in
          (
            exhausted env.recipient_region,
            record s { dlq = some (Dlq.append (entry_for env addr) (unix now) q); world = w },
          )
      | none ↦ (exhausted env.recipient_region, s)
    ]
  ]

  unfoldable pub first_addr : List PeerConfig → String
  first_addr [] = ""
  first_addr (p ∷ _) = p.addr

  unfoldable pub delivered :
      Envelope → String → Option String → State W → (String × Option ForwardError) × State W
  delivered env addr (some hash) s = ((hash, none), s)
  delivered env addr none s = let (e, s') = hold env addr s in (("", some e), s')

  -- `Forward` past the cutoff check, with the candidate peers.
  unfoldable pub route_to :
      Envelope → List PeerConfig → State W → (String × Option ForwardError) × State W
  unfolding first_addr delivered
  route_to env [] s = (("", some (no_peer env.recipient_region)), s)
  route_to env (p ∷ ps) s =
      let peers = order_peers (p ∷ ps) env.routing_hint in
      let (found, w) = try_peers env peers s.world in
      delivered env (first_addr peers) found (record s { world = w })

  unfoldable pub route : Config → Envelope → State W → (String × Option ForwardError) × State W
  route cfg env s = route_to env (peers_for cfg env.recipient_region) s

  -- An envelope outside its window goes to the queue, if there is one, with the next opening.
  unfoldable pub reject : Envelope → Option ℤ → State W → State W
  reject env opens s = elim s.dlq [
    | none ↦ s
    | some q ↦
        let (now, w) = net.now s.world in
        let e = record (entry_for env "") {
          reason = "outside_cutoff_window";
          next_open_unix = elim opens [ none ↦ pos 0 | some t ↦ unix_milli t ];
        } in
        record s { dlq = some (Dlq.append e (unix now) q); world = w }
  ]

  module _ (load_location : String → Option Zone) where
    -- Forwarder.Forward
    unfoldable pub forward : Config → Envelope → State W → (String × Option ForwardError) × State W
    forward cfg env s =
        if env.schema_type == iso20022
        then (let (c, w) =
              check_cutoff_window load_location net cfg.schema_registry.iso20022.cutoff_windows env
                s.world in
            let s' = record s { world = w } in
            elim c.err [
              | some e ↦ (("", some e), reject env c.next_open s')
              | none ↦ route cfg env s'
            ])
        else route cfg env s
