-- ===== src/Auth/Webhook.antt =====
-- `webhook` of app.py: a signed event, accepted once while the replay cache remembers it. The
-- hexadecimal HMAC-SHA-256 under the service's key is the parameter `sign`.
pub mod Accepted
pub mod Replay
pub mod Gaps
mod Tests
use kong.Base.{
  ℕ, ◌-◌, String, List, [], ◌∷◌, ◌++◌, Bool, true, false, not, ◌&&◌, ◌||◌, Option, none, some,
  Result, ok, err, require, ◌>>=◌, ◌>>◌, ltb, all, elem, ◌==◌, if◌then◌else◌,
}
use kong.Base.Int.{ℤ, pos, dist}
use kong.Base.Text.{codes}
use kong.Base.Bytes.{Bytes, bytes_eq, int_of_text, encode}
use kong.Auth.Failure.{Failure, denied, crashed, Reply, Headers, get_header, is_json, text_or_empty}
use kong.Auth.Identity.{or_deny}
use kong.Auth.Store.{
  Event, State, purge_events, has_event, Stage, open_, begin, purge, insert, commit, Faults,
}

-- the parameters of the handler: the path's family, the headers and the body
pub record Delivery : Type 0 where
  pub family : Bytes
  pub headers : Headers
  pub body : Bytes

-- `x_event_id: str | None = Header(None)`, and so for the other names; empty where it is missing
abbrev pub event_id : Headers → Bytes
event_id headers = text_or_empty (get_header (codes "x-event-id") headers)

abbrev pub timestamp_text : Headers → Bytes
timestamp_text headers = text_or_empty (get_header (codes "x-timestamp") headers)

abbrev pub signature : Headers → Bytes
signature headers = text_or_empty (get_header (codes "x-signature") headers)

abbrev pub key_id : Headers → Bytes
key_id headers = text_or_empty (get_header (codes "x-key-id") headers)

abbrev pub version : Headers → Bytes
version headers = text_or_empty (get_header (codes "x-signature-version") headers)

-- the window of a timestamp, and of the replay cache, in seconds
abbrev pub window : ℕ
window = 300

abbrev pub full : Bytes → Bool
full text = not (text == [])

-- `x_signature_version == "v1" and all((x_key_id, x_timestamp, x_event_id, x_signature))`
abbrev pub is_signed : Headers → Bool
is_signed headers =
    version headers == codes "v1"
    && (full (key_id headers)
        && full (timestamp_text headers)
        && full (event_id headers)
        && full (signature headers))

-- `f"v1.{x_timestamp}.{x_event_id}.".encode() + body`
abbrev pub signed_bytes : Bytes → Bytes → Bytes → Bytes
signed_bytes timestamp event body =
    encode (codes "v1." ++ timestamp ++ b'.' ∷ event ++ b'.' ∷ []) ++ body

-- `hmac.compare_digest` takes texts of ASCII characters alone, and raises on any other
abbrev pub is_ascii : Bytes → Bool
is_ascii = all (λ c. ltb c 0x80)

-- the families that the handler serves
abbrev pub families : List Bytes
families = codes "sms" ∷ codes "email" ∷ []

-- The part from `state()` on. An `IntegrityError` of the `INSERT` is rolled back, with the purge.
unfoldable pub remember : Faults → ℕ → Bytes → State → Reply (Unit {0}) × State
remember fails now id s =
    if fails open_ || fails begin
    then (err crashed, s)
    else if fails purge || fails insert
    then (err (denied 503 "replay_cache_unavailable"), s)
    else if has_event id (purge_events (now - window) s.webhook_replay)
    then (err (denied 409 "event_replay"), s)
    else if fails commit
    then (err (denied 503 "replay_cache_unavailable"), s)
    else (
      ok tt,
      record s {
        webhook_replay =
            record { event_id = id; accepted_at = now }
            ∷ purge_events (now - window) s.webhook_replay;
      },
    )

abbrev pub run_verified : Faults → ℕ → Bytes → State → Reply (Unit {0}) → Reply (Unit {0}) × State
run_verified fails now id s (err failure) = (err failure, s)
run_verified fails now id s (ok _) = remember fails now id s

module _ (sign : Bytes → Bytes) where
  -- the checks before the database
  unfoldable pub verify : ℕ → Delivery → Reply (Unit {0})
  verify now delivery = do
    require (elem delivery.family families) (denied 404 "not_found")
    require (is_json delivery.headers) (denied 415 "content_type_denied")
    require (is_signed delivery.headers) (denied 401 "signature_missing")
    timestamp ←
        or_deny (int_of_text (timestamp_text delivery.headers)) (denied 401 "timestamp_invalid")
    require (not (ltb window (dist (pos now) timestamp))) (denied 401 "timestamp_stale")
    let expected =
        sign
          (signed_bytes (timestamp_text delivery.headers) (event_id delivery.headers) delivery.body)
    require (is_ascii (signature delivery.headers)) crashed
    require (expected == signature delivery.headers) (denied 401 "signature_invalid")

  -- `POST /v1/webhooks/{family}`
  unfoldable pub webhook : Faults → ℕ → Delivery → State → Reply (Unit {0}) × State
  webhook fails now delivery s =
      run_verified fails now (event_id delivery.headers) s (verify now delivery)
