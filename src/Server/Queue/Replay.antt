-- ===== src/Server/Queue/Replay.antt =====
-- internal/server/http.go: the replay of a dead letter, and the dedup index that it meets.
use mrmi_gateway.Prelude.{
  ℕ, ℤ, pos, ltb_ℤ, ◌+ℤ◌, String, Bool-cases, false, ◌≡◌, ◌≢◌, refl, ap, ◌∙◌, inl, inr, Option,
  Option-cases, none, some, List, get_elem?, if_true, if_false, arith,
}
use mrmi_gateway.Prelude.Int.{pos_part, ◌<ℤ◌, ◌≤ℤ◌}
use mrmi_gateway.Envelope.{Envelope}
use mrmi_gateway.Dedup.Laws.{IsValid}
use mrmi_gateway.Audit.{AuditStore, Payload}
use mrmi_gateway.Delivery.Dlq
use mrmi_gateway.Delivery.Dlq.{Entry}
use mrmi_gateway.Gateway.{
  Gateway, Forwarder, State, Moment, SendResponse, GatewayError, check_duplicate,
}
use mrmi_gateway.Gateway.Trail.{normalized, send, refused, answered, send_envelope-Answered}
use mrmi_gateway.Gateway.Resend.{window, run, SentBefore, resend-duplicate}
use mrmi_gateway.Server.{Reply, failed, done}
use mrmi_gateway.Server.Queue.{
  SharedQueue, ReplayAnswer, error_text, replay_reply, queued, without, settle, replay_entry,
  replay,
}

module _ {B F : Type 0} (store : AuditStore B) (sum : Payload → String) (forwarder : Forwarder F)
    (sum32 : String → ℕ) (queue : SharedQueue F) where
  -- The forwarder's state without the entry at an index.
  abbrev pub taken_off : ℤ → F → F
  taken_off i f = queue.with_entries (Dlq.remove i (queue.entries f)) f

  -- The ends of a replay, for the state before and what the call leaves.
  pub data Replayed (g : Gateway) (index : Option ℤ) (m : Moment) (s : State B F)
      (r : Reply ReplayAnswer × State B F) : Type 0 where
    no_number : index ≡ none → r ≡ (failed 400 "invalid index", s) → Replayed g index m s r
    negative :
        (i : ℤ)
        → index ≡ some i
        → i <ℤ pos 0
        → r ≡ (failed 400 "invalid index", s)
        → Replayed g index m s r
    past_end :
        (i : ℤ)
        → index ≡ some i
        → pos 0 ≤ℤ i
        → get_elem? (queued store sum forwarder sum32 queue s) (pos_part i) ≡ none
        → r ≡ (failed 404 "index out of range", s)
        → Replayed g index m s r
    keyless :
        (i : ℤ) (e : Entry)
        → index ≡ some i
        → pos 0 ≤ℤ i
        → get_elem? (queued store sum forwarder sum32 queue s) (pos_part i) ≡ some e
        → e.envelope.idempotency_key ≡ ""
        → r ≡ (failed 500 "replay failed: idempotency_key is required", s)
        → Replayed g index m s r
    sent :
        (i : ℤ) (e : Entry) (response : SendResponse)
        → index ≡ some i
        → pos 0 ≤ℤ i
        → get_elem? (queued store sum forwarder sum32 queue s) (pos_part i) ≡ some e
        → e.envelope.idempotency_key ≢ ""
        → (send store sum forwarder sum32 g e.envelope m s).0 ≡ (none, some response)
        → r ≡ (
          done 200 (record { decision = response.decision; reason = response.reason }),
          record (send store sum forwarder sum32 g e.envelope m s).1 {
            forwarder = taken_off i (send store sum forwarder sum32 g e.envelope m s).1.forwarder;
          },
        )
        → Replayed g index m s r

  settle-eq :
      (i : ℤ) (response : SendResponse)
      (r : (Option GatewayError × Option SendResponse) × State B F)
      → r.0 ≡ (none, some response)
      → settle store sum forwarder sum32 queue i r ≡ (
        done 200 (record { decision = response.decision; reason = response.reason }),
        without store sum forwarder sum32 queue i r.1,
      )
  unfolding settle replay_reply
  settle-eq i response r e =
      ap
        (λ (x : Option GatewayError × Option SendResponse).
          settle store sum forwarder sum32 queue i (x, r.1))
        e

  entry-Replayed :
      (g : Gateway) (i : ℤ) (e : Entry) (m : Moment) (s : State B F)
      → pos 0 ≤ℤ i
      → get_elem? (queued store sum forwarder sum32 queue s) (pos_part i) ≡ some e
      → Replayed g (some i) m s (replay_entry store sum forwarder sum32 queue g i (some e) m s)
  unfolding replay_entry settle replay_reply error_text
  entry-Replayed g i e m s natural there =
      elim (send_envelope-Answered store sum forwarder sum32 g e.envelope m s) [
        | refused empty told ↦ keyless i e refl natural there empty (
            ap
              (λ (x : (Option GatewayError × Option SendResponse) × State B F).
                settle store sum forwarder sum32 queue i x)
              told)
        | answered response keyed told _ _ ↦
            sent i e response refl natural there keyed told
              (settle-eq i response (send store sum forwarder sum32 g e.envelope m s) told)
      ]

  -- A replay is refused, with no change, for a text that is no index, a negative index, an index past
  -- the end, and an index whose entry has an envelope without a key. Otherwise the gateway gets the
  -- envelope of the entry at the index, the reply is the decision and the reason of its response, and
  -- the entry at that index is removed from the queue that the call leaves.
  pub replay-Replayed :
      (g : Gateway) (index : Option ℤ) (m : Moment) (s : State B F)
      → Replayed g index m s (replay store sum forwarder sum32 queue g index m s)
  unfolding replay replay_entry
  replay-Replayed g none m s = no_number refl refl
  replay-Replayed g (some i) m s = elim (Bool-cases (ltb_ℤ i (pos 0))) [
    | inl below ↦ rw (if_true (ltb_ℤ i (pos 0)) _ _ below) (negative i refl (ground arith) refl)
    | inr within ↦
        elim (Option-cases (get_elem? (queued store sum forwarder sum32 queue s) (pos_part i))) [
          | inl missing ↦
              rw (if_false (ltb_ℤ i (pos 0)) _ _ within, missing)
                (past_end i refl (ground arith) missing refl)
          | inr (e, there) ↦
              rw (if_false (ltb_ℤ i (pos 0)) _ _ within, there)
                (entry-Replayed g i e m s (ground arith) there)
        ]
  ]

  -- An envelope that the index took for new, any sends before its key expires, and then, also before
  -- that, a replay of a dead letter with the same key: the reply is the decision "DUPLICATE", the
  -- forwarder is not called, and the entry at the index of the letter is removed from the queue.
  pub replay-duplicate :
      (g : Gateway) (env : Envelope) (letter : Entry) (i : ℤ) (m m' : Moment)
      (sends : List (Envelope × Moment)) (s : State B F)
      → IsValid s.dedup
      → env.idempotency_key ≢ ""
      → env.is_dummy ≡ false
      → (check_duplicate sum32 g.cfg (normalized env) m.dedup_now s.dedup).0 ≡ false
      → SentBefore store sum forwarder sum32
          (m.dedup_now +ℤ window g.cfg (normalized env) s.dedup)
          sends
      → letter.envelope.idempotency_key ≡ env.idempotency_key
      → letter.envelope.is_dummy ≡ false
      → m'.dedup_now <ℤ (m.dedup_now +ℤ window g.cfg (normalized env) s.dedup)
      → pos 0 ≤ℤ i
      → get_elem?
          (queued store sum forwarder sum32 queue
            (run store sum forwarder sum32 g sends (send store sum forwarder sum32 g env m s).1))
          (pos_part i)
        ≡ some letter
      → (response : ReplayAnswer) × (s' : State B F) × (replay store sum forwarder sum32 queue g
            (some i)
            m'
            (run store sum forwarder sum32 g sends (send store sum forwarder sum32 g env m s).1)
          ≡ (done 200 response, s'))
        × (response.decision ≡ "DUPLICATE")
        × (s'.forwarder
            ≡ taken_off i
                (run store sum forwarder sum32 g sends
                  (send store sum forwarder sum32 g env m s).1).forwarder)
        × (queue.entries s'.forwarder
            ≡ Dlq.remove i (
                queued store sum forwarder sum32 queue (
                  run store sum forwarder sum32 g sends
                    (send store sum forwarder sum32 g env m s).1)))
  unfolding replay replay_entry settle replay_reply
  replay-duplicate g env letter i m m' sends s valid keyed real fresh before same real' soon natural
        there =
      let (response, s', e, decision, unchanged) =
        resend-duplicate store sum forwarder sum32 g env letter.envelope m m' sends s valid keyed
          real fresh before same real' soon in
      let within : ltb_ℤ i (pos 0) ≡ false = ground arith in
      (
        record { decision = response.decision; reason = response.reason },
        without store sum forwarder sum32 queue i s',
        rw (if_false (ltb_ℤ i (pos 0)) _ _ within, there)
            (ap
              (λ (x : (Option GatewayError × Option SendResponse) × State B F).
                settle store sum forwarder sum32 queue i x)
              e),
        decision,
        ap (taken_off i) unchanged,
        queue.entries-with_entries _ s'.forwarder
            ∙ ap (λ f. Dlq.remove i (queue.entries f)) unchanged,
      )
