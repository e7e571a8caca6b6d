-- ===== src/Server/Tokens.antt =====
-- internal/server/http.go: POST /api/v1/token. Signing (the JWT library) is the parameter `sign`, none
-- for an error; the identifier of a token (uuid) and the two readings of the clock are arguments.
pub mod Laws
use mrmi_gateway.Prelude.{
  ℕ, ℤ, pos, ◌+ℤ◌, ◌*◌, ltb_ℤ, leb_ℤ, String, Bool, not, ◌&&◌, ◌||◌, Option, none, some, ◌==◌,
  if◌then◌else◌,
}
use mrmi_gateway.Prelude.Int.{pos_part}
use mrmi_gateway.Config.{ApiConfig, minutes}
use mrmi_gateway.Delivery.Retry.{unix}
use mrmi_gateway.Server.{Reply, failed, done, Caller, check_auth}

pub record TokenBody : Type 0 where
  pub scope : String
  pub ttl_minutes : ℤ

pub record Claims : Type 0 where
  pub scope : String
  pub exp : ℤ
  pub iat : ℤ
  pub jti : String

pub record TokenAnswer : Type 0 where
  pub token : String
  pub scope : String
  pub expires_at : ℤ

unfoldable pub granted_scope : String → String
granted_scope scope = if not (scope == "read") && not (scope == "operator") then "read" else scope

unfoldable pub granted_minutes : ℤ → ℤ
granted_minutes n = if leb_ℤ n (pos 0) || ltb_ℤ (pos 1440) n then pos 60 else n

unfoldable pub claims_of : TokenBody → String → ℤ → ℤ → Claims
unfolding granted_scope granted_minutes unix
claims_of b id now issued = record {
  scope = granted_scope b.scope;
  exp = unix (now +ℤ minutes (pos_part (granted_minutes b.ttl_minutes)));
  iat = unix issued;
  jti = id;
}

module _ (scope_of : String → String → Option String) (sign : String → Claims → Option String) where
  unfoldable pub signed : Claims → Option String → Reply TokenAnswer
  signed c none = failed 500 "token signing failed"
  signed c (some token) = done 200 (record { token = token; scope = c.scope; expires_at = c.exp })

  -- The body of the handler, after the checks.
  unfoldable pub grant : String → Option TokenBody → String → ℤ → ℤ → Reply TokenAnswer
  unfolding signed claims_of
  grant secret none id now issued = failed 400 "invalid request body"
  grant secret (some b) id now issued =
      signed (claims_of b id now issued) (sign secret (claims_of b id now issued))

  -- POST /api/v1/token
  unfoldable pub post_token :
      ApiConfig → Caller → Option TokenBody → String → ℤ → ℤ → Reply TokenAnswer
  unfolding grant
  post_token api r body id now issued =
      let granted = grant api.jwt_secret body id now issued in
      if not (check_auth scope_of api.api_key "" "read" r)
      then failed 401 "unauthorized"
      else if api.jwt_secret == ""
      then failed 503 "JWT not configured on this node"
      else granted
