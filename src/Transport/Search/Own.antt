-- ===== src/Transport/Search/Own.antt =====
-- internal/transport/grpc/adapter.go: what the search of the node's own users finds.
use mrmi_gateway.Prelude.{
  ap, sym, ℤ, pos, arith, ◌+ℤ◌, ltb_ℤ, String, false, ◌≡◌, refl, ◌∙◌, inl, inr, Option,
  Option-cases, none, some, [], ◌∷◌, if_false, ◌⊎◌, All,
}
use mrmi_gateway.Prelude.Int.{◌<ℤ◌, ◌≤ℤ◌}
use mrmi_gateway.Prelude.Map.{Map}
use mrmi_gateway.Config.{Config, AppConfig, UserConfig}
use mrmi_gateway.Token
use mrmi_gateway.Token.Laws.{resolve-issue}
use mrmi_gateway.Discovery.{Request, Response}
use mrmi_gateway.Transport.Search.{Moment, Outside, token_ttl, search_users, search_apps}

-- How long a token lives, in nanoseconds: as configured if that is positive, and five minutes if not.
pub data Lives (cfg : Config) (ttl : ℤ) : Type 0 where
  configured :
      pos 0 <ℤ cfg.node.discovery_token_ttl → ttl ≡ cfg.node.discovery_token_ttl → Lives cfg ttl
  unset : cfg.node.discovery_token_ttl ≤ℤ pos 0 → ttl ≡ pos 300_000_000_000 → Lives cfg ttl

Lives-token_ttl : (cfg : Config) (ttl : ℤ) → Lives cfg ttl → token_ttl cfg ≡ ttl
unfolding token_ttl
Lives-token_ttl cfg ttl (configured given e) = ground arith
Lives-token_ttl cfg ttl (unset missing e) = ground arith

-- The hint is that of one of these users.
abbrev pub Hinted : Map UserConfig → Response → Type 0
Hinted [] r = ⊥
Hinted ((_, u) ∷ users) r = (r.display_hint ≡ u.display_hint) ⊎ Hinted users r

-- The app is one of these, and the hint that of one of its users.
abbrev pub Offered : Map AppConfig → Response → Type 0
Offered [] r = ⊥
Offered ((app_id, app) ∷ apps) r = ((r.app_id ≡ app_id) × Hinted app.users r) ⊎ Offered apps r

module _ {W : Type 0} (out : Outside W) (hash : String → String) where
  -- The response is this node's, and its token resolves, until it expires, to the app and to the node
  -- that asked.
  pub record Held (cfg : Config) (req : Request) (m : Moment) (r : Response) (tokens : Token.Store)
      : Type 0 where
    pub own : r.node_id ≡ cfg.node.node_id
    pub resolves :
        (ttl now : ℤ)
        → Lives cfg ttl
        → now ≤ℤ (m.issue_now +ℤ ttl)
        → (Token.resolve hash r.opaque_token now tokens).0 ≡ some (r.app_id, req.origin_node_id)

  abbrev pub HeldIf : Config → Request → Moment → Option Response → Token.Store → Type 0
  HeldIf cfg req m none tokens = Unit
  HeldIf cfg req m (some r) tokens = Held cfg req m r tokens

  search_users-Held :
      (cfg : Config) (app_id : String) (req : Request) (m : Moment) (users : Map UserConfig)
      (tokens : Token.Store) (w : W)
      → HeldIf cfg req m
          (search_users out hash cfg app_id req m users (tokens, w)).0
          (search_users out hash cfg app_id req m users (tokens, w)).1.0
  unfolding search_users
  search_users-Held cfg app_id req m [] tokens w = tt
  search_users-Held cfg app_id req m ((k, u) ∷ users) tokens w =
      elim (Option-cases (out.random w).0) [
        | inl dry ↦
            rw (dry, search_users)
              (search_users-Held cfg app_id req m users tokens (out.random w).1)
        | inr (t, drawn) ↦
            rw (drawn, search_users)
              (record {
                own = refl;
                resolves = λ ttl now lives soon.
                    let same = Lives-token_ttl cfg ttl lives in
                    let fresh : ltb_ℤ (m.issue_now +ℤ token_ttl cfg) now ≡ false =
                      rw same (ground arith) in
                    (resolve-issue hash t t app_id req.origin_node_id (token_ttl cfg) m.issue_now
                      now tokens).0
                    ∙ if_false (ltb_ℤ (m.issue_now +ℤ token_ttl cfg) now) _ _ fresh;
              })
      ]

  pub search_apps-Held :
      (cfg : Config) (req : Request) (m : Moment) (apps : Map AppConfig) (s : Token.Store × W)
      → HeldIf cfg req m
          (search_apps out hash cfg req m apps s).0
          (search_apps out hash cfg req m apps s).1.0
  unfolding search_apps
  search_apps-Held cfg req m [] s = tt
  search_apps-Held cfg req m ((app_id, app) ∷ apps) s =
      let users = search_users out hash cfg app_id req m app.users s in
      let held = search_users-Held cfg app_id req m app.users s.0 s.1 in
      elim (Option-cases users.0) [
        | inl nobody ↦ rw (nobody, search_apps) (search_apps-Held cfg req m apps users.1)
        | inr (r, found) ↦ rw (found, search_apps) (rw found at held)
      ]

  -- Some draw of a random token fails.
  abbrev pub DrawFails : Type 0
  DrawFails = (w : W) × ((out.random w).0 ≡ none)

  abbrev pub Userless : Map AppConfig → Type 0
  Userless = All (λ (p : String × AppConfig). p.1.users ≡ [])

  search_users-none :
      (cfg : Config) (app_id : String) (req : Request) (m : Moment) (users : Map UserConfig)
      (tokens : Token.Store) (w : W)
      → (search_users out hash cfg app_id req m users (tokens, w)).0 ≡ none
      → (users ≡ []) ⊎ DrawFails
  unfolding search_users
  search_users-none cfg app_id req m [] tokens w e = inl refl
  search_users-none cfg app_id req m ((k, u) ∷ users) tokens w e =
      elim (Option-cases (out.random w).0) [
        | inl dry ↦ inr (w, dry)
        | inr (t, drawn) ↦ absurd (cc (rw (drawn, search_users) at e))
      ]

  pub search_apps-none :
      (cfg : Config) (req : Request) (m : Moment) (apps : Map AppConfig) (s : Token.Store × W)
      → (search_apps out hash cfg req m apps s).0 ≡ none
      → Userless apps ⊎ DrawFails
  unfolding search_apps
  search_apps-none cfg req m [] s e = inl tt
  search_apps-none cfg req m ((app_id, app) ∷ apps) s e =
      let users = search_users out hash cfg app_id req m app.users s in
      elim (Option-cases users.0) [
        | inl nobody ↦ elim (search_users-none cfg app_id req m app.users s.0 s.1 nobody) [
          | inl empty ↦
              elim (search_apps-none cfg req m apps users.1 (rw (nobody, search_apps) at e)) [
                | inl rest ↦ inl (empty, rest)
                | inr dry ↦ inr dry
              ]
          | inr dry ↦ inr dry
        ]
        | inr (r, found) ↦ absurd (cc (rw (found, search_apps) at e))
      ]

  search_users-Hinted :
      (cfg : Config) (app_id : String) (req : Request) (m : Moment) (users : Map UserConfig)
      (tokens : Token.Store) (w : W) (r : Response)
      → (search_users out hash cfg app_id req m users (tokens, w)).0 ≡ some r
      → (r.app_id ≡ app_id) × Hinted users r
  unfolding search_users
  search_users-Hinted cfg app_id req m [] tokens w r e = absurd (cc e)
  search_users-Hinted cfg app_id req m ((k, u) ∷ users) tokens w r e =
      elim (Option-cases (out.random w).0) [
        | inl dry ↦
            let rest =
              search_users-Hinted cfg app_id req m users tokens (out.random w).1 r
                (rw (dry, search_users) at e) in
            (rest.0, inr rest.1)
        | inr (t, drawn) ↦
            let found = rw (drawn, search_users) at e in
            (
              ap (λ (o : Option Response). elim o [ none ↦ app_id | some x ↦ x.app_id ])
                  (sym found),
              inl (
                  ap
                    (λ (o : Option Response). elim o [
                      | none ↦ u.display_hint
                      | some x ↦ x.display_hint
                    ])
                    (sym found)),
            )
      ]

  pub search_apps-Offered :
      (cfg : Config) (req : Request) (m : Moment) (apps : Map AppConfig) (s : Token.Store × W)
      (r : Response)
      → (search_apps out hash cfg req m apps s).0 ≡ some r
      → Offered apps r
  unfolding search_apps
  search_apps-Offered cfg req m [] s r e = absurd (cc e)
  search_apps-Offered cfg req m ((app_id, app) ∷ apps) s r e =
      let users = search_users out hash cfg app_id req m app.users s in
      elim (Option-cases users.0) [
        | inl nobody ↦
            inr (search_apps-Offered cfg req m apps users.1 r (rw (nobody, search_apps) at e))
        | inr (x, found) ↦
            let same : some x ≡ some r = rw (found, search_apps) at e in
            inl (search_users-Hinted cfg app_id req m app.users s.0 s.1 r (found ∙ same))
      ]
