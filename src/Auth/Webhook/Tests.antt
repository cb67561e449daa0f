-- ===== src/Auth/Webhook/Tests.antt =====
-- Deliveries of the webhook of app.py, under a signature that is the signed text itself.
use kong.Base.{◌-◌, String, [], ◌∷◌, false, ◌||◌, ◌≡◌, ◌≢◌, ◌↔◌, refl, arith, ok, err}
use kong.Base.Int.{pos}
use kong.Base.Text.{codes}
use kong.Base.Bytes.{Bytes, int_of_text}
use kong.Auth.Failure.{denied, get_header, is_json}
use kong.Auth.Store.{State, no_faults, open_, begin, purge, insert, commit, purge_events, has_event}
use kong.Auth.Webhook.{Delivery, event_id, window, verify, remember, webhook}
use kong.Auth.Webhook.Accepted.{IsGenuine, webhook-eq-ok_iff}
use kong.Auth.Webhook.Replay.{Arrival, run_webhooks, webhook_once, webhook_once_in_window}
use kong.Auth.Webhook.Gaps.{webhook_replayed_after_window, webhook_accepts_shifted}

abbrev sign : Bytes → Bytes
sign bytes = bytes

abbrev event : String → String → String → String → Delivery
event stamp id body signature = record {
  family = codes "sms";
  headers =
      (codes "content-type", codes "application/json")
      ∷ (codes "x-signature-version", codes "v1")
      ∷ (codes "x-key-id", codes "k1")
      ∷ (codes "x-timestamp", codes stamp)
      ∷ (codes "x-event-id", codes id)
      ∷ (codes "x-signature", codes signature)
      ∷ [];
  body = codes body;
}

abbrev empty_state : State
empty_state = record { idempotency = []; webhook_replay = [] }

-- sent at 990, from the near future, and in between
abbrev past_event : Delivery
past_event = event "990" "e1" "a.b" "v1.990.e1.a.b"

abbrev early_event : Delivery
early_event = event "1200" "e2" "{}" "v1.1200.e2.{}"

abbrev other_event : Arrival
other_event = record {
  fails = no_faults;
  now = 1050;
  delivery = event "1050" "e3" "{}" "v1.1050.e3.{}";
}

past_accepted : (webhook sign no_faults 1000 past_event empty_state).0 ≡ ok tt
unfolding webhook verify remember get_header is_json int_of_text has_event purge_events
past_accepted = refl

early_accepted : (webhook sign no_faults 1000 early_event empty_state).0 ≡ ok tt
unfolding webhook verify remember get_header is_json int_of_text has_event purge_events
early_accepted = refl

forged :
    (webhook sign no_faults 1000 (event "990" "e1" "a.c" "v1.990.e1.a.b") empty_state).0
    ≡ err (denied 401 "signature_invalid")
unfolding webhook verify remember get_header is_json int_of_text
forged = refl

webhook-eq-ok_iff_example : ((webhook sign no_faults 1000 past_event empty_state).0 ≡ ok tt) ↔ (
    IsGenuine sign 1000 past_event
    × ((no_faults open_
          || no_faults begin
          || no_faults purge
          || no_faults insert
          || no_faults commit)
        ≡ false)
    × (has_event (event_id past_event.headers) (purge_events (1000 - window) []) ≡ false))
webhook-eq-ok_iff_example = webhook-eq-ok_iff sign no_faults 1000 past_event empty_state

webhook_once_example :
    (webhook sign no_faults 1100 past_event (
      run_webhooks sign
        (webhook sign no_faults 1000 past_event empty_state).1
        (other_event ∷ []))).0
    ≢ ok tt
unfolding get_header int_of_text
webhook_once_example =
    webhook_once sign no_faults no_faults 1000 1100 past_event past_event empty_state
      (other_event ∷ []) (pos 990) past_accepted refl (omega arith) (omega arith, tt) refl refl

webhook_once_in_window_example :
    (webhook sign no_faults 1300 early_event (
      run_webhooks sign
        (webhook sign no_faults 1000 early_event empty_state).1
        (other_event ∷ []))).0
    ≢ ok tt
webhook_once_in_window_example =
    webhook_once_in_window sign no_faults no_faults 1000 1300 early_event early_event empty_state
      (other_event ∷ []) early_accepted (omega arith, tt) refl (omega arith)

webhook_replayed_after_window_example :
    (webhook sign no_faults 1400 early_event
      (webhook sign no_faults 1000 early_event empty_state).1).0
    ≡ ok tt
unfolding get_header int_of_text
webhook_replayed_after_window_example =
    webhook_replayed_after_window sign no_faults 1000 1400 early_event empty_state (pos 1200)
      early_accepted refl (omega arith) (omega arith)

-- the event "e1" with the body "a.b", again as the event "e1.a" with the body "b"
webhook_accepts_shifted_example :
    (webhook sign no_faults 1000
      (event "990" "e1.a" "b" "v1.990.e1.a.b")
      (webhook sign no_faults 1000 past_event empty_state).1).0
    ≡ ok tt
unfolding webhook verify remember get_header is_json int_of_text has_event purge_events
webhook_accepts_shifted_example =
    webhook_accepts_shifted sign 1000 past_event (event "990" "e1.a" "b" "v1.990.e1.a.b")
      (codes "a") (codes "b") empty_state past_accepted refl refl refl refl refl refl refl refl refl
      refl
