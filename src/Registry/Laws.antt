-- ===== src/Registry/Laws.antt =====
-- internal/registry/registry.go: the tokens of `Discover`, and that `Connect` takes each once.
use mrmi_gateway.Prelude.{
  ℤ, String, Bool-cases, true, ◌≡◌, refl, inl, inr, none, List, [], ◌∷◌, eq_refl, arith, if_true,
  if_false,
}
use mrmi_gateway.Prelude.Map
use mrmi_gateway.Prelude.Map.{Map, lookup-insert, lookup-delete}
use mrmi_gateway.Registry.{Answer, Registry, Uuid, denial, expired, connect}

module _ {W : Type 0} (uuid : Uuid W) where
  connect-expired :
      (token id region : String) (now later : ℤ) (r : Registry) (w : W)
      → expired uuid now (Map.lookup token r.tokens) ≡ true
      → (connect uuid token id region now later (r, w)).0 ≡ denial uuid
  unfolding connect
  connect-expired token id region now later r w e =
      rw (if_true (expired uuid now (Map.lookup token r.tokens)) _ _ e) refl

  connect-tokens :
      (token id region : String) (now later : ℤ) (r : Registry) (w : W)
      → (connect uuid token id region now later (r, w)).1.0
        ≡ record r { tokens = Map.delete token r.tokens }
  unfolding connect
  connect-tokens token id region now later r w =
      elim (Bool-cases (expired uuid now (Map.lookup token r.tokens))) [
        | inl e ↦ rw (if_true (expired uuid now (Map.lookup token r.tokens)) _ _ e) refl
        | inr e ↦ rw (if_false (expired uuid now (Map.lookup token r.tokens)) _ _ e) refl
      ]

  -- A call of `Connect`: the token, who asks, and the two readings of the clock.
  pub record Call : Type 0 where
    pub token : String
    pub requester_id : String
    pub requester_region : String
    pub now : ℤ
    pub session_now : ℤ

  abbrev pub call : Call → Registry × W → Answer × (Registry × W)
  call c s = connect uuid c.token c.requester_id c.requester_region c.now c.session_now s

  abbrev pub calls : List Call → Registry × W → Registry × W
  calls [] s = s
  calls (c ∷ cs) s = calls cs (call c s).1

  call-gone :
      (token : String) (c : Call) (r : Registry) (w : W)
      → Map.lookup token r.tokens ≡ none
      → Map.lookup token (call c (r, w)).1.0.tokens ≡ none
  call-gone token c r w gone =
      rw
        (
          connect-tokens c.token c.requester_id c.requester_region c.now c.session_now r w,
          lookup-delete,
          gone,
        )
        (ground arith)

  calls-gone :
      (token : String) (cs : List Call) (s : Registry × W)
      → Map.lookup token s.0.tokens ≡ none
      → Map.lookup token (calls cs s).0.tokens ≡ none
  calls-gone token [] s gone = gone
  calls-gone token (c ∷ cs) s gone =
      calls-gone token cs (call c s).1 (call-gone token c s.0 s.1 gone)

  -- A token is used up by the first call of `Connect` with it, whatever its answer: after that call
  -- and any further calls of `Connect`, a call with the same token is denied, whoever makes it and
  -- at whatever time.
  pub connect_once :
      (first again : Call) (between : List Call) (r : Registry) (w : W)
      → again.token ≡ first.token
      → (call again (calls between (call first (r, w)).1)).0 ≡ denial uuid
  unfolding expired
  connect_once first again between r w same =
      let s = calls between (call first (r, w)).1 in
      let gone : Map.lookup again.token s.0.tokens ≡ none =
        calls-gone again.token between (call first (r, w)).1 (
          rw
            (
              same,
              connect-tokens first.token first.requester_id first.requester_region first.now
                  first.session_now r w,
              lookup-delete,
              eq_refl,
            )
            refl) in
      connect-expired again.token again.requester_id again.requester_region again.now
        again.session_now s.0 s.1 (rw gone refl)
