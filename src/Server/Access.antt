-- ===== src/Server/Access.antt =====
-- internal/server/http.go: whom `checkAuth` and the wrappers let in.
use mrmi_gateway.Prelude.{
  String, Bool-cases, true, false, ◌&&◌, ◌≡◌, ◌≢◌, refl, ◌⊎◌, inl, inr, ◌↔◌, Option, Option-cases,
  some, ◌==◌, eq_iff, arith, if_true, if_false,
}
use mrmi_gateway.Prelude.Text.{cut_prefix}
use mrmi_gateway.Config.{ApiConfig}
use mrmi_gateway.Server.{Reply, failed, bare, Caller, grants, check_token, check_auth, guard}

-- The scopes that are enough for a required one.
pub data Grants (required_scope scope : String) : Type 0 where
  operator : scope ≡ "operator" → Grants required_scope scope
  reader : scope ≡ "read" → required_scope ≢ "operator" → Grants required_scope scope

grants_iff :
    (required_scope scope : String)
    → (grants required_scope scope ≡ true) ↔ Grants required_scope scope
unfolding grants
grants_iff required_scope scope = elim (Bool-cases (required_scope == "operator")) [
  | inl strict ↦ (
    λ h. operator ((eq_iff scope "operator").0 (rw strict at h)),
    λ g. elim g [
      | operator e ↦ rw strict ((eq_iff scope "operator").1 e)
      | reader e other ↦ absurd (other ((eq_iff required_scope "operator").0 strict))
    ],
  )
  | inr lax ↦ (
    λ h. elim (Bool-cases (scope == "read")) [
      | inl r ↦
          reader ((eq_iff scope "read").0 r) (ground (arith, eq_iff required_scope "operator"))
      | inr n ↦ operator ((eq_iff scope "operator").0 (rw (lax, n) at h))
    ],
    λ g. elim g [ operator e ↦ rw (lax, e) refl | reader e other ↦ rw (lax, e) refl ],
  )
]

module _ (scope_of : String → String → Option String) where
  -- Who may call: anyone if nothing is configured; a caller with a key, which is compared only if a
  -- key is configured; without a key, the holder of a valid token whose scope is enough.
  pub data Authorized (api_key jwt_secret required_scope : String) (r : Caller) : Type 0 where
    anyone : api_key ≡ "" → jwt_secret ≡ "" → Authorized api_key jwt_secret required_scope r
    with_key :
        r.key ≢ ""
        → (api_key ≡ "") ⊎ (r.key ≡ api_key)
        → Authorized api_key jwt_secret required_scope r
    with_token :
        (token scope : String)
        → r.key ≡ ""
        → jwt_secret ≢ ""
        → cut_prefix "Bearer " r.authorization ≡ some token
        → scope_of jwt_secret token ≡ some scope
        → Grants required_scope scope
        → Authorized api_key jwt_secret required_scope r

  token-Authorized :
      (api_key jwt_secret required_scope : String) (r : Caller)
      → r.key ≡ ""
      → jwt_secret ≢ ""
      → check_token scope_of jwt_secret required_scope (cut_prefix "Bearer " r.authorization) ≡ true
      → Authorized api_key jwt_secret required_scope r
  unfolding check_token
  token-Authorized api_key jwt_secret required_scope r keyless secret h =
      elim (Option-cases (cut_prefix "Bearer " r.authorization)) [
        | inl bad ↦ absurd (cc (rw bad at h))
        | inr (token, e) ↦ elim (Option-cases (scope_of jwt_secret token)) [
          | inl bad ↦ absurd (cc (rw (e, bad, check_token) at h))
          | inr (scope, e') ↦
              with_token token scope keyless secret e e'
                ((grants_iff required_scope scope).0 (rw (e, e', check_token) at h))
        ]
      ]

  Authorized-token :
      (jwt_secret required_scope token scope : String) (o : Option String)
      → o ≡ some token
      → scope_of jwt_secret token ≡ some scope
      → Grants required_scope scope
      → check_token scope_of jwt_secret required_scope o ≡ true
  unfolding check_token
  Authorized-token jwt_secret required_scope token scope o e e' g =
      rw (e, e', check_token) ((grants_iff required_scope scope).1 g)

  pub auth-Authorized :
      (api_key jwt_secret required_scope : String) (r : Caller)
      → check_auth scope_of api_key jwt_secret required_scope r ≡ true
      → Authorized api_key jwt_secret required_scope r
  unfolding check_auth
  auth-Authorized api_key jwt_secret required_scope r h =
      elim (Bool-cases (api_key == "" && jwt_secret == "")) [
        | inl off ↦
            anyone (ground (arith, eq_iff api_key "")) (ground (arith, eq_iff jwt_secret ""))
        | inr on ↦ elim (Bool-cases (r.key == "")) [
          | inr keyed ↦
              with_key (ground (arith, eq_iff r.key ""))
                (ground (arith, eq_iff api_key "", eq_iff r.key api_key))
          | inl keyless ↦ elim (Bool-cases (jwt_secret == "")) [
            | inl unset ↦ absurd (cc (rw (on, keyless, unset) at h))
            | inr secret ↦
                token-Authorized api_key jwt_secret required_scope r ((eq_iff r.key "").0 keyless)
                  (ground (arith, eq_iff jwt_secret "")) (rw (on, keyless, secret) at h)
          ]
        ]
      ]

  Authorized-auth :
      (api_key jwt_secret required_scope : String) (r : Caller)
      → Authorized api_key jwt_secret required_scope r
      → check_auth scope_of api_key jwt_secret required_scope r ≡ true
  unfolding check_auth
  Authorized-auth api_key jwt_secret required_scope r (anyone a j) = rw (a, j) refl
  Authorized-auth api_key jwt_secret required_scope r (with_key k h) =
      ground (arith, eq_iff r.key "", eq_iff api_key "", eq_iff r.key api_key)
  Authorized-auth api_key jwt_secret required_scope r
        (with_token token scope keyless secret e e' g) =
      let ok = Authorized-token jwt_secret required_scope token scope _ e e' g in
      ground (arith, eq_iff r.key "", eq_iff jwt_secret "", ok)

  -- What a wrapped handler's call comes to.
  pub data Guarded {A S : Type 0} (api : ApiConfig) (required_scope : String) (r : Caller)
      (run : S → Reply A × S) (s : S) (out : Reply A × S) : Type 0 where
    preflight : r.is_options ≡ true → out ≡ (bare 204, s) → Guarded api required_scope r run s out
    denied :
        ¬ Authorized api.api_key api.jwt_secret required_scope r
        → out ≡ (failed 401 "unauthorized", s)
        → Guarded api required_scope r run s out
    let_in :
        r.is_options ≡ false
        → Authorized api.api_key api.jwt_secret required_scope r
        → out ≡ run s
        → Guarded api required_scope r run s out

  -- A wrapped handler runs exactly for an authorized caller, preflight requests apart; otherwise the
  -- reply is 401, or 204 for a preflight request, and nothing changes. Authorized is anyone if neither
  -- a key nor a secret is configured, a caller with a key (compared only if one is configured), and,
  -- without a key, the holder of a valid token with a scope that is enough.
  pub guard-Guarded :
      {A S : Type 0} (api : ApiConfig) (required_scope : String) (r : Caller)
      (run : S → Reply A × S) (s : S)
      → Guarded api required_scope r run s (guard scope_of api required_scope r run s)
  unfolding guard
  guard-Guarded api required_scope r run s = elim (Bool-cases r.is_options) [
    | inl asks ↦ rw (if_true r.is_options _ _ asks) (preflight asks refl)
    | inr calls ↦
        elim (Bool-cases (check_auth scope_of api.api_key api.jwt_secret required_scope r)) [
          | inl ok ↦
              rw (if_false r.is_options _ _ calls, ok)
                (let_in calls (auth-Authorized api.api_key api.jwt_secret required_scope r ok) refl)
          | inr bad ↦
              rw (if_false r.is_options _ _ calls, bad)
                (denied
                  (λ a. cc (bad, Authorized-auth api.api_key api.jwt_secret required_scope r a))
                  refl)
        ]
  ]
