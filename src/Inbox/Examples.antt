-- ===== src/Inbox/Examples.antt =====
-- The inbox's theorem at a concrete subscriber.
use mrmi_gateway.Prelude.{pos, some, [], ◌∷◌, ◌++◌, ◌≡◌, refl, arith, take}
use mrmi_gateway.Inbox
use mrmi_gateway.Inbox.{Event, Inbox, sub_buf_size, new, buffer, subscribe}
use mrmi_gateway.Inbox.Delivery.{publish_all, publish_all-buffer}

abbrev event : Event
event = record {
  idempotency_key = "a1";
  sender_region = "RU";
  recipient_region = "BY";
  trust_tier = 2;
  payload = [];
  timestamp = pos 1;
}

abbrev subscribed : Inbox
subscribed = (subscribe new).1

publish_all-buffer_example :
    buffer 0 (publish_all (event ∷ event ∷ []) subscribed).subs
    ≡ some (take sub_buf_size ([] ++ event ∷ event ∷ []))
unfolding subscribe Inbox.set_buffer buffer
publish_all-buffer_example =
    publish_all-buffer (event ∷ event ∷ []) 0 subscribed [] refl (omega arith)
