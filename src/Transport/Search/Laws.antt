-- ===== src/Transport/Search/Laws.antt =====
-- internal/transport/grpc/adapter.go: the ends of `BroadcastDiscovery`.
use mrmi_gateway.Prelude.{
  ℕ, ℤ, String, Bool-cases, true, false, ◌≡◌, ◌≢◌, refl, inl, inr, Option, Option-cases, none, some,
  List, [], ◌∷◌, if_true, if_false, ap, ◌⊎◌,
}
use mrmi_gateway.Config.{Config}
use mrmi_gateway.Dedup.{Index}
use mrmi_gateway.Token
use mrmi_gateway.Discovery.{Request, Response, Broadcaster, broadcast}
use mrmi_gateway.Discovery.Laws.{HaveTokens, broadcast-Forwards}
use mrmi_gateway.RateLimit.{Float64, Limiter, allow}
use mrmi_gateway.Transport.{RpcError, resource_exhausted}
use mrmi_gateway.Transport.Search.{
  State, Node, Moment, Outside, no_match, is_isolated, limited, first_response, search_apps,
  search_own, search, count, broadcast_discovery,
}
use mrmi_gateway.Transport.Search.Isolation.{MayAsk, isolated-MayAsk, open-MayAsk}
use mrmi_gateway.Transport.Search.Own.{
  Offered, search_apps-Offered, Held, DrawFails, Userless, search_apps-Held, search_apps-none,
}

module _ {W : Type 0} (out : Outside W) (hash : String → String) where
  module _ {R : Type 0} (f : Float64 R) (sum32 : String → ℕ) where
    -- The limiter lets the origin of the request through; a node without one lets everybody through.
    abbrev pub WithinLimit : String → ℤ → Option (Limiter R) → Type 0
    WithinLimit key now none = Unit
    WithinLimit key now (some l) = (allow f key now l).0 ≡ true

    -- The limiter after it was asked.
    abbrev pub charged : String → ℤ → Option (Limiter R) → Option (Limiter R)
    charged key now none = none
    charged key now (some l) = some (allow f key now l).1

    limited-over :
        (key : String) (now : ℤ) (l : Option (Limiter R))
        → (limited f key now l).0 ≡ true
        → ¬ WithinLimit key now l
    unfolding limited
    limited-over key now none over = absurd (cc over)
    limited-over key now (some l) over = λ ok. absurd (cc (rw ok at over))

    limited-within :
        (key : String) (now : ℤ) (l : Option (Limiter R))
        → (limited f key now l).0 ≡ false
        → WithinLimit key now l
    unfolding limited
    limited-within key now none within = tt
    limited-within key now (some l) within = elim (Bool-cases (allow f key now l).0) [
      | inl ok ↦ ok
      | inr ko ↦ absurd (cc (rw ko at within))
    ]

    limited-charged :
        (key : String) (now : ℤ) (l : Option (Limiter R))
        → (limited f key now l).1 ≡ charged key now l
    unfolding limited
    limited-charged key now none = refl
    limited-charged key now (some l) = refl

    -- What the peers answer; a node without a broadcaster asks none.
    abbrev pub peer_answers : Option Broadcaster → Request → Moment → Index × W → List Response
    peer_answers none req m before = []
    peer_answers (some b) req m before =
        (broadcast out.dialer sum32 b req m.now_ms m.index_now before).0

    -- The ends of a call, for the state before and after.
    pub data Outcome (n : Node) (req : Request) (m : Moment) (s : State R W)
        (r : (Option RpcError × Response) × State R W) : Type 0 where
      over_limit :
          ¬ WithinLimit req.origin_node_id m.limit_now s.limiter
          → r ≡ (
            (some (resource_exhausted req.origin_node_id), no_match),
            record s {
              limiter = charged req.origin_node_id m.limit_now s.limiter;
              rate_limit_denies = count s.rate_limit_denies;
            },
          )
          → Outcome n req m s r
      isolated :
          WithinLimit req.origin_node_id m.limit_now s.limiter
          → ¬ MayAsk n.policy_eng n.cfg.apps req
          → r ≡ (
            (none, no_match),
            record s { limiter = charged req.origin_node_id m.limit_now s.limiter },
          )
          → Outcome n req m s r
      nothing :
          WithinLimit req.origin_node_id m.limit_now s.limiter
          → MayAsk n.policy_eng n.cfg.apps req
          → peer_answers n.broadcaster req m (s.index, s.world) ≡ []
          → Userless out hash n.cfg.apps ⊎ DrawFails out hash
          → r.0 ≡ (none, no_match)
          → Outcome n req m s r
      from_peer :
          (others : List Response)
          → WithinLimit req.origin_node_id m.limit_now s.limiter
          → MayAsk n.policy_eng n.cfg.apps req
          → peer_answers n.broadcaster req m (s.index, s.world) ≡ r.0.1 ∷ others
          → r.0.0 ≡ none
          → r.0.1.opaque_token ≢ ""
          → r.1.tokens ≡ s.tokens
          → Outcome n req m s r
      own :
          WithinLimit req.origin_node_id m.limit_now s.limiter
          → MayAsk n.policy_eng n.cfg.apps req
          → peer_answers n.broadcaster req m (s.index, s.world) ≡ []
          → r.0.0 ≡ none
          → Offered n.cfg.apps r.0.1
          → Held out hash n.cfg req m r.0.1 r.1.tokens
          → Outcome n req m s r

    -- What `search` leaves, for the answers of the peers and the tokens before.
    data Searched (cfg : Config) (req : Request) (m : Moment) (answers : List Response)
        (tokens : Token.Store) (r : Response × State R W) : Type 0 where
      missed :
          answers ≡ []
          → Userless out hash cfg.apps ⊎ DrawFails out hash
          → r.0 ≡ no_match
          → Searched cfg req m answers tokens r
      relayed :
          (others : List Response)
          → answers ≡ r.0 ∷ others
          → r.0.opaque_token ≢ ""
          → r.1.tokens ≡ tokens
          → Searched cfg req m answers tokens r
      issued :
          answers ≡ []
          → Offered cfg.apps r.0
          → Held out hash cfg req m r.0 r.1.tokens
          → Searched cfg req m answers tokens r

    search_own-Searched :
        (n : Node) (req : Request) (m : Moment) (s : State R W) (answers : List Response)
        (tokens : Token.Store)
        → answers ≡ []
        → Searched n.cfg req m answers tokens (search_own out hash f sum32 n req m s)
    unfolding search_own
    search_own-Searched n req m s answers tokens quiet =
        let held = search_apps-Held out hash n.cfg req m n.cfg.apps (s.tokens, s.world) in
        elim (Option-cases (search_apps out hash n.cfg req m n.cfg.apps (s.tokens, s.world)).0) [
          | inl nobody ↦
              rw (nobody, search_own)
                (missed quiet
                  (search_apps-none out hash n.cfg req m n.cfg.apps (s.tokens, s.world) nobody)
                  refl)
          | inr (r, found) ↦
              rw (found, search_own)
                (issued quiet
                  (search_apps-Offered out hash n.cfg req m n.cfg.apps (s.tokens, s.world) r found)
                  (rw found at held))
        ]

    first-none : (rs : List Response) → first_response rs ≡ none → rs ≡ []
    unfolding first_response
    first-none [] e = refl
    first-none (x ∷ rs) e = absurd (cc e)

    first-some :
        (rs : List Response) (r : Response)
        → first_response rs ≡ some r
        → HaveTokens rs
        → ((others : List Response) × (rs ≡ r ∷ others)) × (r.opaque_token ≢ "")
    unfolding first_response
    first-some [] r e h = absurd (cc e)
    first-some (x ∷ rs) r e h = let same : x ≡ r = cc e in rw⁻¹ same ((rs, refl), h.0)

    search-Searched :
        (n : Node) (req : Request) (m : Moment) (s : State R W)
        → Searched n.cfg req m
            (peer_answers n.broadcaster req m (s.index, s.world))
            s.tokens
            (search out hash f sum32 n req m s)
    unfolding search
    search-Searched n req m s = elim (Option-cases n.broadcaster) [
      | inl alone ↦ rw (alone, search) (search_own-Searched n req m s [] s.tokens refl)
      | inr (b, wired) ↦
          let answers = broadcast out.dialer sum32 b req m.now_ms m.index_now (s.index, s.world) in
          let tokens =
            (broadcast-Forwards out.dialer sum32 b req m.now_ms m.index_now s.index s.world).2 in
          elim (Option-cases (first_response answers.0)) [
            | inl nobody ↦
                rw (wired, nobody, search)
                  (search_own-Searched n req m
                    (record s { index = answers.1.0; world = answers.1.1 }) answers.0 s.tokens
                    (first-none answers.0 nobody))
            | inr (r, found) ↦
                let first = first-some answers.0 r found tokens in
                rw (wired, found, search) (relayed first.0.0 first.0.1 first.1 refl)
          ]
    ]

    from_search :
        (n : Node) (req : Request) (m : Moment) (s : State R W) (r : Response × State R W)
        → WithinLimit req.origin_node_id m.limit_now s.limiter
        → MayAsk n.policy_eng n.cfg.apps req
        → Searched n.cfg req m (peer_answers n.broadcaster req m (s.index, s.world)) s.tokens r
        → Outcome n req m s ((none, r.0), r.1)
    from_search n req m s r ok open_ (missed quiet why e) =
        nothing ok open_ quiet why (ap (λ (x : Response). (none, x)) e)
    from_search n req m s r ok open_ (relayed others e t k) = from_peer others ok open_ e refl t k
    from_search n req m s r ok open_ (issued quiet offered held) =
        own ok open_ quiet refl offered held

    -- If the limiter does not let its origin through, a request is answered with an error; if the
    -- policy does not let its app discover the app of this node, with no match; both change only the
    -- limiter and, for the first, the counter. Any other request is answered with the first answer of
    -- the peers, which has a token; if they give none, with an app of this node, the hint of one of its
    -- users, and a token that resolves to that app and to the node that asked for as long as tokens are
    -- configured to live, five minutes if that is not configured; and with no match only if, besides,
    -- no app has a user or a draw of a random token fails.
    pub broadcast_discovery-Outcome :
        (n : Node) (req : Request) (m : Moment) (s : State R W)
        → Outcome n req m s (broadcast_discovery out hash f sum32 n req m s)
    unfolding broadcast_discovery
    broadcast_discovery-Outcome n req m s =
        let key = req.origin_node_id in
        let l = limited f key m.limit_now s.limiter in
        let s₁ = record s { limiter = l.1 } in
        let found = search out hash f sum32 n req m s₁ in
        let after = limited-charged key m.limit_now s.limiter in
        elim (Bool-cases l.0) [
          | inl over ↦ rw (if_true l.0 _ _ over) (
              over_limit (limited-over key m.limit_now s.limiter over) (
                ap
                  (λ x. (
                    (some (resource_exhausted key), no_match),
                    record s { limiter = x; rate_limit_denies = count s.rate_limit_denies },
                  ))
                  after))
          | inr under ↦
              let ok = limited-within key m.limit_now s.limiter under in
              elim (Bool-cases (is_isolated n req)) [
                | inl apart ↦
                    rw (if_false l.0 _ _ under, if_true (is_isolated n req) _ _ apart)
                      (isolated ok (isolated-MayAsk n req apart)
                        (ap (λ x. ((none, no_match), record s { limiter = x })) after))
                | inr open_ ↦
                    rw (if_false l.0 _ _ under, if_false (is_isolated n req) _ _ open_)
                      (from_search n req m s found ok (open-MayAsk n req open_)
                        (search-Searched n req m s₁))
              ]
        ]
