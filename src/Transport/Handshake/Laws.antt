-- ===== src/Transport/Handshake/Laws.antt =====
-- internal/transport/grpc/adapter.go: `Connect` and the token that it uses up.
use mrmi_gateway.Prelude.{
  ℤ, String, Bool-cases, ◌≡◌, refl, ap, ◌∙◌, sym, inl, inr, Option, none, some, ◌==◌, eq_iff,
  eq_refl,
}
use mrmi_gateway.Prelude.Map.{lookup-delete}
use mrmi_gateway.Token
use mrmi_gateway.Token.{Store, evict, expired, has_active_token}
use mrmi_gateway.Token.Laws.{resolve-answer}
use mrmi_gateway.Connect
use mrmi_gateway.Connect.{Status, Resolver}
use mrmi_gateway.Transport.Handshake.{Request, Ack, Moment, acknowledge, status_of, admit, connect}

module _ (hash : String → String) where
  resolve-evict :
      (token : String) (now : ℤ) (s : Store)
      → (Token.resolve hash token now (evict hash token s)).0 ≡ none
  unfolding evict expired
  resolve-evict token now s = rw (resolve-answer, lookup-delete, eq_refl) refl

  -- How a call ends, for the store before and after.
  pub data Handshake (res : Option Resolver) (req : Request) (m : Moment) (s : Store)
      (r : Ack × Option Store) : Type 0 where
    turned_away :
        r.0.status ≡ Connect.refused
        → r.0.session_id ≡ ""
        → r.1 ≡ some (Token.resolve hash req.opaque_token m.resolve_now s).1
        → Handshake res req m s r
    used_up :
        (app_id : String) (s' : Store)
        → (Token.resolve hash req.opaque_token m.resolve_now s).0
          ≡ some (app_id, req.origin_node_id)
        → r.0
          ≡ acknowledge
              (status_of res req app_id (has_active_token req.origin_node_id m.active_now s'))
              m
        → r.1 ≡ some s'
        → ((now : ℤ) → (Token.resolve hash req.opaque_token now s').0 ≡ none)
        → Handshake res req m s r

  admit-Handshake :
      (res : Option Resolver) (req : Request) (m : Moment) (s : Store)
      (claims : Option (String × String)) (s₁ : Store)
      → Token.resolve hash req.opaque_token m.resolve_now s ≡ (claims, s₁)
      → Handshake res req m s
          ((admit hash res req m claims s₁).0, some (admit hash res req m claims s₁).1)
  unfolding admit
  admit-Handshake res req m s none s₁ e =
      turned_away refl refl (ap (λ (r : Option (String × String) × Store). some r.1) (sym e))
  admit-Handshake res req m s (some (app, origin)) s₁ e =
      elim (Bool-cases (origin == req.origin_node_id)) [
        | inl same ↦ rw same (
            used_up app (evict hash req.opaque_token s₁)
              (ap (λ (r : Option (String × String) × Store). r.0) e
                ∙ ap (λ o. some (app, o)) ((eq_iff origin req.origin_node_id).0 same))
              refl refl (λ now. resolve-evict req.opaque_token now s₁))
        | inr other ↦ rw other (
            turned_away refl refl (ap (λ (r : Option (String × String) × Store). some r.1) (sym e)))
      ]

  -- A call of `Connect` is denied and leaves the store as the lookup of the token left it; or the
  -- token was issued to this node and is used up: the answer is the resolver's, and no later call
  -- finds the token, at whatever time.
  pub connect-Handshake :
      (res : Option Resolver) (req : Request) (m : Moment) (s : Store)
      → Handshake res req m s (connect hash res req m (some s))
  unfolding connect
  connect-Handshake res req m s =
      let r = Token.resolve hash req.opaque_token m.resolve_now s in
      admit-Handshake res req m s r.0 r.1 refl
