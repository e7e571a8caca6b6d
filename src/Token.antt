-- ===== src/Token.antt =====
-- internal/token/store.go: opaque discovery tokens, held under their hashes. The hash (SHA-256 in
-- hexadecimal) is a parameter; the random token of `Issue` is an argument, none if the source of
-- randomness fails; `now` is the instant that time.Now() returns in the call.
pub mod Laws
mod Examples
use mrmi_gateway.Prelude.{
  ℤ, ◌+ℤ◌, ltb_ℤ, String, Bool, true, false, not, ◌&&◌, ◌||◌, Option, none, some, [], ◌∷◌, ◌==◌,
  if◌then◌else◌,
}
use mrmi_gateway.Prelude.Map
use mrmi_gateway.Prelude.Map.{Map}

pub record Entry : Type 0 where
  pub app_id : String
  pub origin_node_id : String
  pub expires : ℤ

pub record Store : Type 0 where
  pub entries : Map Entry

abbrev pub empty : Store
empty = record { entries = [] }

unfoldable pub expired : ℤ → Option Entry → Bool
expired now none = true
expired now (some e) = ltb_ℤ e.expires now

abbrev pub claims : Option Entry → Option (String × String)
claims none = none
claims (some e) = some (e.app_id, e.origin_node_id)

-- The loop of `HasActiveToken`.
unfoldable pub any_active : String → ℤ → Map Entry → Bool
any_active origin now [] = false
any_active origin now ((_, e) ∷ rest) =
    (e.origin_node_id == origin && ltb_ℤ now e.expires) || any_active origin now rest

-- Store.HasActiveToken
unfoldable pub has_active_token : String → ℤ → Store → Bool
unfolding any_active
has_active_token origin now s = any_active origin now s.entries

-- Store.Purge
unfoldable pub purge : ℤ → Store → Store
purge now s = record { entries = Map.retain (λ _ e. not (ltb_ℤ e.expires now)) s.entries }

module _ (hash : String → String) where
  -- Store.Issue
  unfoldable pub issue : Option String → String → String → ℤ → ℤ → Store → Option String × Store
  issue none app origin ttl now s = (none, s)
  issue (some token) app origin ttl now s = (
    some token,
    record {
      entries =
          Map.insert (hash token)
            (record { app_id = app; origin_node_id = origin; expires = now +ℤ ttl }) s.entries;
    },
  )

  -- Store.Resolve; none is ErrNotFound
  unfoldable pub resolve : String → ℤ → Store → Option (String × String) × Store
  unfolding expired
  resolve token now s =
      let e = Map.lookup (hash token) s.entries in
      if expired now e
      then (none, record { entries = Map.delete (hash token) s.entries })
      else (claims e, s)

  -- Store.Evict
  unfoldable pub evict : String → Store → Store
  evict token s = record { entries = Map.delete (hash token) s.entries }
