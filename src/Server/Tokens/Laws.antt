-- ===== src/Server/Tokens/Laws.antt =====
-- internal/server/http.go: to whom POST /api/v1/token gives a token, and what the token says.
use mrmi_gateway.Prelude.{ℕ, ℤ, ◌+ℤ◌, ◌≤◌, String, ◌≡◌, ◌≢◌, ◌⊎◌, Option, none, some}
use mrmi_gateway.Config.{ApiConfig, minutes}
use mrmi_gateway.Delivery.Retry.{unix}
use mrmi_gateway.Server.{Reply, failed, done, Caller}
use mrmi_gateway.Server.Tokens.{Claims, TokenAnswer}

-- What the claims of a token say, for the instants at which it is made.
pub record WithinADay (c : Claims) (now issued : ℤ) : Type 0 where
  pub scope_known : (c.scope ≡ "read") ⊎ (c.scope ≡ "operator")
  pub lifetime : (k : ℕ) × (c.exp ≡ unix (now +ℤ minutes k)) × (1 ≤ k) × (k ≤ 1440)
  pub since : c.iat ≡ unix issued

module _ (scope_of : String → String → Option String) (sign : String → Claims → Option String) where
  -- A caller for whom the key is right, or any caller if no key is configured.
  abbrev pub KeyHolder : ApiConfig → Caller → Type 0
  KeyHolder api r = (api.api_key ≡ "") ⊎ (r.key ≡ api.api_key)

  -- The ends of a request for a token.
  pub data Asked (api : ApiConfig) (r : Caller) (now issued : ℤ) (out : Reply TokenAnswer)
      : Type 0 where
    unauthorized : ¬ KeyHolder api r → out ≡ failed 401 "unauthorized" → Asked api r now issued out
    unset :
        KeyHolder api r
        → api.jwt_secret ≡ ""
        → out ≡ failed 503 "JWT not configured on this node"
        → Asked api r now issued out
    unreadable :
        KeyHolder api r
        → api.jwt_secret ≢ ""
        → out ≡ failed 400 "invalid request body"
        → Asked api r now issued out
    unsigned :
        (c : Claims)
        → KeyHolder api r
        → api.jwt_secret ≢ ""
        → sign api.jwt_secret c ≡ none
        → out ≡ failed 500 "token signing failed"
        → Asked api r now issued out
    issued_token :
        (c : Claims) (token : String)
        → KeyHolder api r
        → api.jwt_secret ≢ ""
        → sign api.jwt_secret c ≡ some token
        → WithinADay c now issued
        → out ≡ done 200 (record { token = token; scope = c.scope; expires_at = c.exp })
        → Asked api r now issued out
