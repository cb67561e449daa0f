-- ===== src/Auth/Webhook/Gaps.antt =====
-- Two ways in which an event that was accepted is accepted again.
use mathlib.Core.List.{append_assoc}
use kong.Base.{
  ℕ, ◌≤◌, ◌<◌, ◌+◌, ◌-◌, [], ◌∷◌, ◌++◌, true, false, ◌≡◌, refl, sym, ◌∙◌, ap, arith, ok, some, ltb,
}
use kong.Base.Int.{ℤ, pos, dist}
use kong.Base.Bytes.{Bytes, bytes_eq, int_of_text, encode, encode-append}
use kong.Auth.Failure.{is_json}
use kong.Auth.Store.{State, purge_events, has_event, no_faults, Faults}
use kong.Auth.Webhook.{
  Delivery, event_id, timestamp_text, signature, is_signed, window, signed_bytes, is_ascii, webhook,
}
use kong.Auth.Webhook.Accepted.{IsGenuine, webhook-eq-ok_iff}
use kong.Auth.Webhook.Replay.{with_event, accepted_table, has_event-purge_events}

-- The cache forgets the event once the window has passed since it was accepted.
forgotten :
    (id : Bytes) (now now' : ℕ) (s : State)
    → has_event id (purge_events (now - window) s.webhook_replay) ≡ false
    → now + window < now'
    → has_event id (purge_events (now' - window) (with_event id now s)) ≡ false
unfolding purge_events
forgotten id now now' s absent late = ground (
  arith,
  has_event-purge_events id (now' - window) (purge_events (now - window) s.webhook_replay) absent,
)

-- An event that was accepted is accepted a second time at any time that is still within the window
-- of its timestamp, but past the window since it was accepted; no fault is assumed then.
pub webhook_replayed_after_window :
    (sign : Bytes → Bytes) (fails : Faults) (now now' : ℕ) (delivery : Delivery) (s : State)
    (timestamp : ℤ)
    → (webhook sign fails now delivery s).0 ≡ ok tt
    → int_of_text (timestamp_text delivery.headers) ≡ some timestamp
    → now + window < now'
    → dist (pos now') timestamp ≤ window
    → (webhook sign no_faults now' delivery (webhook sign fails now delivery s).1).0 ≡ ok tt
webhook_replayed_after_window sign fails now now' delivery s timestamp accepted read late fresh =
    let (v, up, absent) = (webhook-eq-ok_iff sign fails now delivery s).0 accepted in
    let still : IsGenuine sign now' delivery = record {
      family = v.family;
      json = v.json;
      complete = v.complete;
      timestamp = timestamp;
      read = read;
      fresh = fresh;
      ascii = v.ascii;
      signed = v.signed;
    } in
    (webhook-eq-ok_iff sign no_faults now' delivery (webhook sign fails now delivery s).1).1 (
      still,
      refl,
      rw (accepted_table sign fails now delivery s accepted)
          (forgotten (event_id delivery.headers) now now' s absent late),
    )

encode_ascii : (text : Bytes) → is_ascii text ≡ true → encode text ≡ text
encode_ascii [] h = refl
encode_ascii (c ∷ text) h =
    let small : ltb c 0x80 ≡ true = ground arith in
    let rest : is_ascii text ≡ true = ground arith in rw small (ap (◌∷◌ c) (encode_ascii text rest))

-- What stands between the event's name and the body can move from one to the other.
signed_bytes_shift :
    (stamp event moved body : Bytes)
    → is_ascii moved ≡ true
    → signed_bytes stamp (event ++ (b'.' ∷ moved)) body
      ≡ signed_bytes stamp event (moved ++ (b'.' ∷ body))
signed_bytes_shift stamp event moved body ascii =
    simp (encode-append, append_assoc, encode_ascii moved ascii)

-- From an accepted event whose body holds a dot, the same signature is accepted for another event:
-- its name goes on with what stands before that dot, and its body is what stands after it. This
-- needs that the cache does not hold that name, and the other checks of the headers.
pub webhook_accepts_shifted :
    (sign : Bytes → Bytes) (now : ℕ) (delivery shifted : Delivery) (moved rest : Bytes) (s : State)
    → (webhook sign no_faults now delivery s).0 ≡ ok tt
    → is_ascii moved ≡ true
    → delivery.body ≡ moved ++ (b'.' ∷ rest)
    → shifted.body ≡ rest
    → shifted.family ≡ delivery.family
    → event_id shifted.headers ≡ event_id delivery.headers ++ (b'.' ∷ moved)
    → timestamp_text shifted.headers ≡ timestamp_text delivery.headers
    → signature shifted.headers ≡ signature delivery.headers
    → is_json shifted.headers ≡ true
    → is_signed shifted.headers ≡ true
    → has_event
        (event_id shifted.headers)
        (purge_events (now - window) (webhook sign no_faults now delivery s).1.webhook_replay)
      ≡ false
    → (webhook sign no_faults now shifted (webhook sign no_faults now delivery s).1).0 ≡ ok tt
webhook_accepts_shifted sign now delivery shifted moved rest s accepted ascii whole part family
      event stamp same json complete absent =
    let (v, up, _) = (webhook-eq-ok_iff sign no_faults now delivery s).0 accepted in
    let bytes : signed_bytes (timestamp_text shifted.headers) (event_id shifted.headers)
          shifted.body
        ≡ signed_bytes (timestamp_text delivery.headers) (event_id delivery.headers) delivery.body =
      rw (stamp, event, part, whole)
        (signed_bytes_shift (timestamp_text delivery.headers) (event_id delivery.headers) moved rest
          ascii) in
    let genuine : IsGenuine sign now shifted = record {
      family = rw family v.family;
      json = json;
      complete = complete;
      timestamp = v.timestamp;
      read = rw stamp v.read;
      fresh = v.fresh;
      ascii = rw same v.ascii;
      signed = ap sign bytes ∙ v.signed ∙ sym same;
    } in
    (webhook-eq-ok_iff sign no_faults now shifted (webhook sign no_faults now delivery s).1).1
      (genuine, refl, absent)
