-- ===== src/Server/Adapters.antt =====
-- internal/server/http.go: `RuntimeAdapters` and the endpoints over it.
pub mod Names
use mrmi_gateway.Prelude.{
  ℤ, String, Bool, not, Option, none, some, List, [], ◌∷◌, ◌==◌, if◌then◌else◌, is_set,
}
use mrmi_gateway.Prelude.Map
use mrmi_gateway.Prelude.Map.{Map}
use mrmi_gateway.Prelude.Text.{cut_prefix}
use mrmi_gateway.Server.{Reply, failed, bare, done}

-- CustomAdapterEntry
pub record Entry : Type 0 where
  pub schema_type : String
  pub schema_version : String
  pub description : String
  pub allow_tiers : List String
  pub require_profile : String
  pub contact : String
  pub registered_at : ℤ

-- RuntimeAdapters
pub record RuntimeAdapters : Type 0 where
  pub adapters : Map Entry

-- RuntimeAdapters.Register
unfoldable pub register : Entry → RuntimeAdapters → RuntimeAdapters
register e ra = record { adapters = Map.insert e.schema_type e ra.adapters }

-- RuntimeAdapters.Delete
unfoldable pub delete : String → RuntimeAdapters → Bool × RuntimeAdapters
delete schema_type ra = (
  is_set (Map.lookup schema_type ra.adapters),
  record { adapters = Map.delete schema_type ra.adapters },
)

-- strings.HasPrefix(name, "custom:")
unfoldable pub is_custom : String → Bool
is_custom name = is_set (cut_prefix "custom:" name)

-- The entry that is stored for a body.
unfoldable pub stamped : Entry → ℤ → Entry
stamped e now = record e {
  schema_version = if e.schema_version == "" then "1.0.0" else e.schema_version;
  registered_at = now;
}

-- POST /api/v1/schema/adapters; `now` is time.Now().Unix()
unfoldable pub post_adapter :
    Option Entry → ℤ → Option RuntimeAdapters → Reply Entry × Option RuntimeAdapters
unfolding register is_custom stamped
post_adapter body now none = (failed 503 "schema adapter registry not available", none)
post_adapter none now (some ra) = (failed 400 "invalid request body", some ra)
post_adapter (some e) now (some ra) =
    if not (is_custom e.schema_type)
    then (failed 400 "schema_type must start with 'custom:'", some ra)
    else (done 201 (stamped e now), some (register (stamped e now) ra))

-- DELETE /api/v1/schema/adapters/{type}
unfoldable pub delete_adapter :
    String → Option RuntimeAdapters → Reply Unit × Option RuntimeAdapters
unfolding delete is_custom
delete_adapter schema_type none = (failed 503 "schema adapter registry not available", none)
delete_adapter schema_type (some ra) =
    let (found, ra') = delete schema_type ra in
    if not (is_custom schema_type)
    then (failed 403 "built-in adapters cannot be removed", some ra)
    else (if not found then failed 404 "adapter not found" else bare 204, some ra')
