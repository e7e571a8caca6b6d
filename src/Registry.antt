-- ===== src/Registry.antt =====
-- internal/registry/registry.go: the node's app users, found by discovery and reached with one-time
-- tokens. Random identifiers (uuid) are drawn from a state W; maps are visited in the order of their
-- lists; `now` is what time.Now() returns.
pub mod Laws
mod Examples
use mrmi_gateway.Prelude.{
  ℕ, nat_eq, ℤ, pos, ◌+ℤ◌, ltb_ℤ, String, Bool, true, false, not, ◌&&◌, ◌||◌, Option, none, some,
  List, [], ◌∷◌, ◌==◌, if◌then◌else◌,
}
use mrmi_gateway.Prelude.Map
use mrmi_gateway.Prelude.Map.{Map}
use mrmi_gateway.Prelude.Text.{to_lower, equal_fold}
use mrmi_gateway.Config.{Config, AppConfig, UserConfig, minutes, hours}
use mrmi_gateway.Delivery.Retry.{unix}

-- DiscoveryResult
pub record Result : Type 0 where
  pub node_id : String
  pub app_id : String
  pub user_id : String
  pub display_hint : String
  pub region : String
  pub opaque_token : String
  pub token_expires : ℤ

pub data Status : Type 0 where
  accepted pending denied : Status

-- ConnectResult
pub record Answer : Type 0 where
  pub status : Status
  pub session_id : String
  pub expires_at : ℤ

-- tokenEntry
pub record Entry : Type 0 where
  pub app_id : String
  pub user_id : String
  pub expires : ℤ

pub record Registry : Type 0 where
  pub cfg : Config
  pub tokens : Map Entry

abbrev pub token_ttl : ℤ
token_ttl = minutes 5

unfoldable pub starts : List ℕ → List ℕ → Bool
starts [] s = true
starts (a ∷ p) [] = false
starts (a ∷ p) (b ∷ s) = nat_eq a b && starts p s

-- strings.Contains(s, p)
unfoldable pub has_part : List ℕ → List ℕ → Bool
unfolding starts
has_part p [] = starts p []
has_part p (c ∷ s) = starts p (c ∷ s) || has_part p s

-- The `switch` on the type of the query.
unfoldable pub is_match : String → String → String → UserConfig → Bool
unfolding has_part
is_match query query_type app_id u =
    if query_type == "app_id"
    then equal_fold app_id query
    else has_part (to_lower query) (to_lower u.display_hint)

-- What a new identifier is drawn from.
pub record Uuid (W : Type 0) : Type 0 where
  pub new_string : W → String × W

module _ {W : Type 0} (uuid : Uuid W) where
  -- The loop over the users of an app.
  unfoldable pub discover_users :
      Config
      → String
      → String
      → ℤ
      → String
      → Map UserConfig
      → Map Entry × W
      → List Result × (Map Entry × W)
  unfolding is_match unix
  discover_users cfg query query_type now app_id [] s = ([], s)
  discover_users cfg query query_type now app_id ((user_id, u) ∷ users) (tokens, w) =
      let (token, w') = uuid.new_string w in
      let expires = now +ℤ token_ttl in
      let issued =
        Map.insert token (record { app_id = app_id; user_id = user_id; expires = expires })
          tokens in
      let (rest, s') = discover_users cfg query query_type now app_id users (issued, w') in
      let skipped = discover_users cfg query query_type now app_id users (tokens, w) in
      let result : Result = record {
        node_id = cfg.node.node_id;
        app_id = app_id;
        user_id = user_id;
        display_hint = u.display_hint;
        region = u.region;
        opaque_token = token;
        token_expires = unix expires;
      } in
      if is_match query query_type app_id u then (result ∷ rest, s') else skipped

  append_results : List Result → List Result → List Result
  append_results [] rs = rs
  append_results (r ∷ rs) ts = r ∷ append_results rs ts

  -- The loop over the apps.
  unfoldable pub discover_apps :
      Config → String → String → ℤ → Map AppConfig → Map Entry × W → List Result × (Map Entry × W)
  unfolding discover_users append_results
  discover_apps cfg query query_type now [] s = ([], s)
  discover_apps cfg query query_type now ((app_id, app) ∷ apps) s =
      let (found, s') = discover_users cfg query query_type now app_id app.users s in
      let (rest, s'') = discover_apps cfg query query_type now apps s' in
      (append_results found rest, s'')

  -- Registry.Discover
  unfoldable pub discover : String → String → ℤ → Registry × W → List Result × (Registry × W)
  unfolding discover_apps
  discover query query_type now (r, w) =
      let (results, s) = discover_apps r.cfg query query_type now r.cfg.apps (r.tokens, w) in
      (results, (record r { tokens = s.0 }, s.1))

  -- strings.EqualFold with a region of the list
  unfoldable pub any_fold : List String → String → Bool
  any_fold [] region = false
  any_fold (x ∷ xs) region = equal_fold x region || any_fold xs region

  is_known : Option UserConfig → Bool
  is_known none = false
  is_known (some _) = true

  -- The `switch` on the app's mode.
  unfoldable pub status_of : Config → AppConfig → String → String → Status
  unfolding any_fold is_known
  status_of cfg app requester_id requester_region =
      let mode = if app.auto_accept == "" then "manual" else app.auto_accept in
      if mode == "auto_all"
      then accepted
      else if mode == "auto_mutual"
      then (if any_fold cfg.policy.outbound.allow_to requester_region then accepted else pending)
      else if mode == "auto_whitelist"
      then (if is_known (Map.lookup requester_id app.users) then accepted else pending)
      else pending

  abbrev pub denial : Answer
  denial = record { status = denied; session_id = ""; expires_at = pos 0 }

  unfoldable pub expired : ℤ → Option Entry → Bool
  expired now none = true
  expired now (some e) = ltb_ℤ e.expires now

  -- What follows a valid token.
  unfoldable pub open_session : Config → Option AppConfig → String → String → ℤ → W → Answer × W
  unfolding status_of unix
  open_session cfg none requester_id requester_region now w = (denial, w)
  open_session cfg (some app) requester_id requester_region now w =
      let (session, w') = uuid.new_string w in
      (
        record {
          status = status_of cfg app requester_id requester_region;
          session_id = session;
          expires_at = unix (now +ℤ hours 24);
        },
        w',
      )

  app_of : Option Entry → Map AppConfig → Option AppConfig
  app_of none apps = none
  app_of (some e) apps = Map.lookup e.app_id apps

  -- Registry.Connect, with the two readings of the clock
  unfoldable pub connect : String → String → String → ℤ → ℤ → Registry × W → Answer × (Registry × W)
  unfolding expired open_session app_of
  connect token requester_id requester_region now session_now (r, w) =
      let e = Map.lookup token r.tokens in
      let r' = record r { tokens = Map.delete token r.tokens } in
      let (answer, w') =
        open_session r.cfg (app_of e r.cfg.apps) requester_id requester_region session_now w in
      if expired now e then (denial, (r', w)) else (answer, (r', w'))
