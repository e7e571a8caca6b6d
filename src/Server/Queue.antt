-- ===== src/Server/Queue.antt =====
-- internal/server/http.go: the endpoints that send envelopes and that look after the dead-letter
-- queue. The queue is the forwarder's own, so it is reached through the forwarder's state; `index` is
-- what strconv.Atoi makes of the path, `body` the decoded request.
pub mod Replay
use Prim.Native.String.{◌++◌ as append_text}
use mrmi_gateway.Prelude.{
  ℕ, suc, ℤ, pos, ltb_ℤ, String, Bool, false, Option, none, some, List, [], ◌∷◌, ◌==◌, ◌≡◌,
  if◌then◌else◌, get_elem?,
}
use mrmi_gateway.Prelude.Int.{pos_part}
use mrmi_gateway.Envelope.{Envelope}
use mrmi_gateway.Audit.{AuditStore, Payload}
use mrmi_gateway.Delivery.Dlq
use mrmi_gateway.Delivery.Dlq.{Entry}
use mrmi_gateway.Gateway.{
  Gateway, Forwarder, State, Moment, SendResponse, GatewayError, empty_idempotency_key,
  send_envelope,
}
use mrmi_gateway.Server.{Reply, failed, bare, done}

-- The queue inside the forwarder's state: its entries, and the state with other entries.
pub record SharedQueue (F : Type 0) : Type 0 where
  pub entries : F → List Entry
  pub with_entries : List Entry → F → F
  pub entries-with_entries : (q : List Entry) (f : F) → entries (with_entries q f) ≡ q

-- The body of a request to send.
pub record SendBody : Type 0 where
  pub idempotency_key : String
  pub sender_region : String
  pub recipient_region : String
  pub trust_tier : ℕ
  pub payload : List ℕ
  pub sender_identity : List ℕ

-- The envelope of a body; fields that the body lacks are zero.
unfoldable pub to_envelope : SendBody → ℤ → Envelope
to_envelope b now_ms = record {
  idempotency_key = b.idempotency_key;
  sender_node_id = "";
  sender_identity = b.sender_identity;
  recipient_identity = [];
  sender_region = b.sender_region;
  recipient_region = b.recipient_region;
  trust_tier = b.trust_tier;
  sequence_number = 0;
  payload = b.payload;
  padded_to = 0;
  timestamp = now_ms;
  signature = [];
  is_dummy = false;
  schema_type = "";
  schema_version = "";
  routing_hint = "";
}

-- GatewayError.Error
unfoldable pub error_text : GatewayError → String
error_text empty_idempotency_key = "idempotency_key is required"

-- The gateway's error or its response. It returns exactly one of them; without either the code would
-- fail, which a bare 500 stands for here and in `replay_reply`.
unfoldable pub reply_of : Option GatewayError → Option SendResponse → Reply SendResponse
unfolding error_text
reply_of (some e) response = failed 400 (error_text e)
reply_of none none = bare 500
reply_of none (some r) = done 200 r

-- What a replay tells of the gateway's response.
pub record ReplayAnswer : Type 0 where
  pub decision : String
  pub reason : String

unfoldable pub replay_reply : Option GatewayError → Option SendResponse → Reply ReplayAnswer
unfolding error_text
replay_reply (some e) response = failed 500 (append_text "replay failed: " (error_text e))
replay_reply none none = bare 500
replay_reply none (some r) = done 200 (record { decision = r.decision; reason = r.reason })

module _ {B F : Type 0} (store : AuditStore B) (sum : Payload → String) (forwarder : Forwarder F)
    (sum32 : String → ℕ) where
  -- POST /api/v1/envelopes
  unfoldable pub post_envelope :
      Option Gateway → Option SendBody → ℤ → Moment → State B F → Reply SendResponse × State B F
  unfolding reply_of to_envelope
  post_envelope none body now_ms m s = (failed 503 "gateway not available", s)
  post_envelope (some g) none now_ms m s = (failed 400 "invalid request body", s)
  post_envelope (some g) (some b) now_ms m s =
      let (result, s') = send_envelope store sum forwarder sum32 g (to_envelope b now_ms) m s in
      if b.idempotency_key == ""
      then (failed 400 "idempotency_key is required", s)
      else (reply_of result.0 result.1, s')

  module _ (queue : SharedQueue F) where
    abbrev pub queued : State B F → List Entry
    queued s = queue.entries s.forwarder

    abbrev pub without : ℤ → State B F → State B F
    without index s = record s {
      forwarder = queue.with_entries (Dlq.remove index (queued s)) s.forwarder;
    }

    -- What follows the call of the gateway: the entry goes unless there was an error.
    unfoldable pub settle :
        ℤ → (Option GatewayError × Option SendResponse) × State B F → Reply ReplayAnswer × State B F
    unfolding replay_reply
    settle index ((some e, response), s) = (replay_reply (some e) response, s)
    settle index ((none, response), s) = (replay_reply none response, without index s)

    unfoldable pub replay_entry :
        Gateway → ℤ → Option Entry → Moment → State B F → Reply ReplayAnswer × State B F
    unfolding settle
    replay_entry g index none m s = (failed 404 "index out of range", s)
    replay_entry g index (some e) m s =
        settle index (send_envelope store sum forwarder sum32 g e.envelope m s)

    -- POST /api/v1/dlq/{index}/replay, with a queue and a gateway
    unfoldable pub replay : Gateway → Option ℤ → Moment → State B F → Reply ReplayAnswer × State B F
    unfolding replay_entry
    replay g none m s = (failed 400 "invalid index", s)
    replay g (some index) m s =
        let rest = replay_entry g index (get_elem? (queued s) (pos_part index)) m s in
        if ltb_ℤ index (pos 0) then (failed 400 "invalid index", s) else rest

    -- DELETE /api/v1/dlq/{index} and POST /api/v1/dlq/{index}/discard, with a queue
    unfoldable pub discard : Option ℤ → State B F → Reply Unit × State B F
    discard none s = (failed 400 "invalid index", s)
    discard (some index) s =
        if ltb_ℤ index (pos 0) then (failed 400 "invalid index", s) else (bare 204, without index s)

-- A line of the list.
pub record Line : Type 0 where
  pub index : ℕ
  pub peer_addr : String
  pub attempts : ℕ
  pub last_error : String
  pub first_seen_unix : ℤ
  pub last_attempt_unix : ℤ
  pub envelope_id : String
  pub sender_region : String
  pub recipient_region : String
  pub reason : String
  pub next_open_unix : ℤ

unfoldable pub lines_from : ℕ → List Entry → List Line
lines_from i [] = []
lines_from i (e ∷ es) =
    record {
      index = i;
      peer_addr = e.peer_addr;
      attempts = e.attempts;
      last_error = e.last_err;
      first_seen_unix = e.first_seen_unix;
      last_attempt_unix = e.last_attempt_unix;
      envelope_id = e.envelope.idempotency_key;
      sender_region = e.envelope.sender_region;
      recipient_region = e.envelope.recipient_region;
      reason = e.reason;
      next_open_unix = e.next_open_unix;
    }
    ∷ lines_from (suc i) es

-- GET /api/v1/dlq
unfoldable pub list_queue : Option (List Entry) → Reply (List Line)
unfolding lines_from
list_queue none = done 200 []
list_queue (some entries) = done 200 (lines_from 0 entries)
