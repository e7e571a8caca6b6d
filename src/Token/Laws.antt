-- ===== src/Token/Laws.antt =====
-- internal/token/store.go: issuing, resolving and evicting, and who holds an active token.
use mrmi_gateway.Prelude.{
  ℤ, ◌+ℤ◌, ltb_ℤ, String, true, false, none, some, [], ◌∷◌, ◌≡◌, ◌↔◌, ◌⊎◌, refl, sym, ◌==◌,
  if◌then◌else◌, eq_iff, eq_refl, arith,
}
use mrmi_gateway.Prelude.Int.{◌<ℤ◌}
use mrmi_gateway.Prelude.Map
use mrmi_gateway.Prelude.Map.{Map, lookup-insert, lookup-delete}
use mrmi_gateway.Token.{
  Entry, Store, expired, claims, any_active, has_active_token, issue, resolve, evict,
}

module _ (hash : String → String) where
  pub resolve-answer :
      (token : String) (now : ℤ) (s : Store)
      → (resolve hash token now s).0 ≡ (
          if expired now (Map.lookup (hash token) s.entries)
          then none
          else claims (Map.lookup (hash token) s.entries))
  unfolding resolve
  resolve-answer token now s = ground arith

  -- A token that was issued resolves to its app and node up to and including its expiry and is not
  -- found after that; once it is evicted it is not found at any time; and a token with another hash
  -- resolves as before.
  pub resolve-issue :
      (token other app origin : String) (ttl now later : ℤ) (s : Store)
      → ((resolve hash token later (issue hash (some token) app origin ttl now s).1).0
          ≡ (if ltb_ℤ (now +ℤ ttl) later then none else some (app, origin)))
        × ((resolve hash token later
              (evict hash token (issue hash (some token) app origin ttl now s).1)).0
            ≡ none)
        × ((hash token == hash other) ≡ false
            → (resolve hash other later (issue hash (some token) app origin ttl now s).1).0
              ≡ (resolve hash other later s).0)
  unfolding issue evict expired
  resolve-issue token other app origin ttl now later s = (
    rw (resolve-answer, lookup-insert, eq_refl) refl,
    rw (resolve-answer, lookup-delete, eq_refl) refl,
    λ different. rw (resolve-answer, lookup-insert, different) (sym (resolve-answer other later s)),
  )

-- A token of the node that has not expired.
abbrev HoldsActive : String → ℤ → Map Entry → Type 0
HoldsActive origin now [] = ⊥
HoldsActive origin now ((_, e) ∷ rest) =
    ((e.origin_node_id ≡ origin) × (now <ℤ e.expires)) ⊎ HoldsActive origin now rest

any_active_iff :
    (origin : String) (now : ℤ) (m : Map Entry)
    → (any_active origin now m ≡ true) ↔ HoldsActive origin now m
unfolding any_active
any_active_iff origin now [] = ground arith
any_active_iff origin now ((k, e) ∷ rest) =
    ground (arith, any_active_iff origin now rest, eq_iff e.origin_node_id origin)

-- `HasActiveToken` says of a node exactly whether the store holds a token of it that has not expired.
has_active_token_iff :
    (origin : String) (now : ℤ) (s : Store)
    → (has_active_token origin now s ≡ true) ↔ HoldsActive origin now s.entries
unfolding has_active_token
has_active_token_iff origin now s = any_active_iff origin now s.entries
