-- ===== src/Server.antt =====
-- internal/server/http.go: replies, and the check of the caller's key or token. Headers, JSON and the
-- routes of the multiplexer are outside: a handler gets the decoded body and the path's values, and
-- replies with a code and what is encoded. The JWT library is the parameter `scope_of`: for a secret
-- and a token text, the claim "scope" (empty if it is no text) of a token that is signed with the
-- secret and valid.
pub mod Access
pub mod Queue
pub mod Stores
pub mod Adapters
pub mod Tokens
pub mod Revocation
mod Examples
use mrmi_gateway.Prelude.{
  ℕ, String, Bool, true, false, not, ◌&&◌, ◌||◌, Option, none, some, ◌==◌, if◌then◌else◌,
}
use mrmi_gateway.Prelude.Text.{cut_prefix}
use mrmi_gateway.Config.{ApiConfig}

-- A reply: an error in JSON, a code alone, or a code with a body.
pub data Reply (A : Type 0) : Type 0 where
  failed : ℕ → String → Reply A
  bare : ℕ → Reply A
  done : ℕ → A → Reply A

-- The parts of a request that decide on access.
pub record Caller : Type 0 where
  pub is_options : Bool
  pub key : String
  pub authorization : String

-- What a claim of the token allows.
unfoldable pub grants : String → String → Bool
grants required_scope scope =
    if required_scope == "operator"
    then scope == "operator"
    else scope == "read" || scope == "operator"

module _ (scope_of : String → String → Option String) where
  unfoldable pub check_token : String → String → Option String → Bool
  unfolding grants
  check_token jwt_secret required_scope none = false
  check_token jwt_secret required_scope (some token) = elim (scope_of jwt_secret token) [
    | none ↦ false
    | some scope ↦ grants required_scope scope
  ]

  -- checkAuth
  unfoldable pub check_auth : String → String → String → Caller → Bool
  unfolding check_token
  check_auth api_key jwt_secret required_scope r =
      if api_key == "" && jwt_secret == ""
      then true
      else if not (r.key == "")
      then (api_key == "" || r.key == api_key)
      else if not (jwt_secret == "")
      then check_token jwt_secret required_scope (cut_prefix "Bearer " r.authorization)
      else false

  -- The wrappers `auth` (scope "read") and `authOp` (scope "operator").
  unfoldable pub guard :
      {A S : Type 0} → ApiConfig → String → Caller → (S → Reply A × S) → S → Reply A × S
  unfolding check_auth
  guard api required_scope r run s =
      if r.is_options
      then (bare 204, s)
      else if not (check_auth api.api_key api.jwt_secret required_scope r)
      then (failed 401 "unauthorized", s)
      else run s
