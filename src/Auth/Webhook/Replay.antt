-- ===== src/Auth/Webhook/Replay.antt =====
-- The replay cache over a series of deliveries: what it stops, and what it lets through.
use kong.Base.{
  some, some_injective, err-ne-ok, ℕ, ◌≤◌, ◌+◌, ◌-◌, List, [], ◌∷◌, true, false, ◌≡◌, ◌≢◌, ◌⊎◌,
  refl, sym, ◌∙◌, ap, false≢true, arith, ok, err, ltb, All, Bool-cases, inl, inr,
}
use kong.Base.Int.{ℤ, pos, dist, ◌≤ℤ◌}
use kong.Base.Bytes.{Bytes, bytes_eq, bytes_beq_iff, int_of_text}
use kong.Auth.Failure.{Reply}
use kong.Auth.Store.{Event, State, purge_events, has_event, Faults}
use kong.Auth.Webhook.{
  Delivery, event_id, timestamp_text, window, verify, remember, run_verified, webhook,
}
use kong.Auth.Webhook.Accepted.{webhook-eq-ok_iff}

-- The cache holds an event that was accepted at `since` or later.
abbrev pub Remembers : Bytes → ℕ → List Event → Type 0
Remembers id since [] = ⊥
Remembers id since (event ∷ events) =
    ((event.event_id ≡ id) × (since ≤ event.accepted_at)) ⊎ Remembers id since events

Remembers-purge_events :
    (id : Bytes) (since cutoff : ℕ) (events : List Event)
    → Remembers id since events
    → cutoff ≤ since
    → Remembers id since (purge_events cutoff events)
unfolding purge_events
Remembers-purge_events id since cutoff [] r h = elim r [ ]
Remembers-purge_events id since cutoff (event ∷ events) (inl (e, late)) h = ground arith
Remembers-purge_events id since cutoff (event ∷ events) (inr r) h =
    ground (arith, Remembers-purge_events id since cutoff events r h)

has_event_of_Remembers :
    (id : Bytes) (since : ℕ) (events : List Event)
    → Remembers id since events
    → has_event id events ≡ true
unfolding has_event
has_event_of_Remembers id since [] r = elim r [ ]
has_event_of_Remembers id since (event ∷ events) (inl (e, late)) =
    rw ((bytes_beq_iff event.event_id id).1 e)
has_event_of_Remembers id since (event ∷ events) (inr r) =
    ground (arith, has_event_of_Remembers id since events r)

pub has_event-purge_events :
    (id : Bytes) (cutoff : ℕ) (events : List Event)
    → has_event id events ≡ false
    → has_event id (purge_events cutoff events) ≡ false
unfolding has_event purge_events
has_event-purge_events id cutoff [] h = refl
has_event-purge_events id cutoff (event ∷ events) h =
    ground (arith, has_event-purge_events id cutoff events)

-- the cache after an event that was accepted
abbrev pub with_event : Bytes → ℕ → State → List Event
with_event id now s =
    record { event_id = id; accepted_at = now } ∷ purge_events (now - window) s.webhook_replay

remember_cases :
    (fails : Faults) (now : ℕ) (id : Bytes) (s : State)
    → ((remember fails now id s).1.webhook_replay ≡ s.webhook_replay)
      ⊎ ((remember fails now id s).1.webhook_replay ≡ with_event id now s)
unfolding remember
remember_cases fails now id s = ground arith

remembered :
    (fails : Faults) (now : ℕ) (id : Bytes) (s : State)
    → (remember fails now id s).0 ≡ ok tt
    → (remember fails now id s).1.webhook_replay ≡ with_event id now s
unfolding remember
remembered fails now id s h = ground arith

remember_keeps :
    (fails : Faults) (now : ℕ) (other : Bytes) (s : State) (id : Bytes) (since : ℕ)
    → Remembers id since s.webhook_replay
    → now ≤ since + window
    → Remembers id since (remember fails now other s).1.webhook_replay
remember_keeps fails now other s id since r h = elim (remember_cases fails now other s) [
  | inl same ↦ rw same r
  | inr more ↦
      rw more
        (inr (Remembers-purge_events id since (now - window) s.webhook_replay r (omega arith)))
]

webhook_keeps :
    (sign : Bytes → Bytes) (fails : Faults) (now : ℕ) (delivery : Delivery) (s : State) (id : Bytes)
    (since : ℕ)
    → Remembers id since s.webhook_replay
    → now ≤ since + window
    → Remembers id since (webhook sign fails now delivery s).1.webhook_replay
unfolding webhook
webhook_keeps sign fails now delivery s id since r h = verified (verify sign now delivery)
  where
    verified :
        (v : Reply (Unit {0}))
        → Remembers id since
            (run_verified fails now (event_id delivery.headers) s v).1.webhook_replay
    verified (err failure) = r
    verified (ok _) = remember_keeps fails now (event_id delivery.headers) s id since r h

-- One delivery, with the clock and the database as it met them.
pub record Arrival : Type 0 where
  pub fails : Faults
  pub now : ℕ
  pub delivery : Delivery

-- the state after a series of deliveries
pub run_webhooks : (Bytes → Bytes) → State → List Arrival → State
run_webhooks sign s [] = s
run_webhooks sign s (a ∷ arrivals) =
    run_webhooks sign (webhook sign a.fails a.now a.delivery s).1 arrivals

run_webhooks_keeps :
    (sign : Bytes → Bytes) (s : State) (arrivals : List Arrival) (id : Bytes) (since : ℕ)
    → Remembers id since s.webhook_replay
    → All (λ a. a.now ≤ since + window) arrivals
    → Remembers id since (run_webhooks sign s arrivals).webhook_replay
unfolding run_webhooks
run_webhooks_keeps sign s [] id since r h = r
run_webhooks_keeps sign s (a ∷ arrivals) id since r (now, h) =
    run_webhooks_keeps sign (webhook sign a.fails a.now a.delivery s).1 arrivals id since
      (webhook_keeps sign a.fails a.now a.delivery s id since r now) h

-- What is accepted is in the cache, at the head.
pub accepted_table :
    (sign : Bytes → Bytes) (fails : Faults) (now : ℕ) (delivery : Delivery) (s : State)
    → (webhook sign fails now delivery s).0 ≡ ok tt
    → (webhook sign fails now delivery s).1.webhook_replay
      ≡ with_event (event_id delivery.headers) now s
unfolding webhook
accepted_table sign fails now delivery s = verified (verify sign now delivery)
  where
    verified :
        (v : Reply (Unit {0}))
        → (run_verified fails now (event_id delivery.headers) s v).0 ≡ ok tt
        → (run_verified fails now (event_id delivery.headers) s v).1.webhook_replay
          ≡ with_event (event_id delivery.headers) now s
    verified (err failure) h = absurd (err-ne-ok h)
    verified (ok _) h = remembered fails now (event_id delivery.headers) s h

All-weaken :
    {m n : ℕ} (arrivals : List Arrival)
    → All (λ a. a.now ≤ m) arrivals
    → m ≤ n
    → All (λ a. a.now ≤ n) arrivals
All-weaken [] h le = tt
All-weaken (a ∷ arrivals) (now, h) le = (omega arith, All-weaken arrivals h le)

-- An event that was accepted at `now` is not accepted again within the window since then, whatever
-- is delivered in between at times within it.
pub webhook_once_in_window :
    (sign : Bytes → Bytes) (fails fails' : Faults) (now now' : ℕ) (first again : Delivery)
    (s : State) (arrivals : List Arrival)
    → (webhook sign fails now first s).0 ≡ ok tt
    → All (λ a. a.now ≤ now + window) arrivals
    → event_id again.headers ≡ event_id first.headers
    → now' ≤ now + window
    → (webhook sign fails' now' again
        (run_webhooks sign (webhook sign fails now first s).1 arrivals)).0
      ≢ ok tt
webhook_once_in_window sign fails fails' now now' first again s arrivals accepted between same soon
      h =
    let id = event_id first.headers in
    let s' = (webhook sign fails now first s).1 in
    let start : Remembers id now s'.webhook_replay =
      rw (accepted_table sign fails now first s accepted) (inl (refl, omega arith)) in
    let held = run_webhooks_keeps sign s' arrivals id now start between in
    let (_, _, absent) =
      (webhook-eq-ok_iff sign fails' now' again (run_webhooks sign s' arrivals)).0 h in
    false≢true (
      sym (rw same at absent)
      ∙ has_event_of_Remembers id now _
          (Remembers-purge_events id now (now' - window) _ held (omega arith)))

-- An event that was accepted at `now`, and whose timestamp is not after `now`, is not accepted again
-- under that timestamp at any time `now'`, whatever is delivered in between at times up to `now'`.
pub webhook_once :
    (sign : Bytes → Bytes) (fails fails' : Faults) (now now' : ℕ) (first again : Delivery)
    (s : State) (arrivals : List Arrival) (timestamp : ℤ)
    → (webhook sign fails now first s).0 ≡ ok tt
    → int_of_text (timestamp_text first.headers) ≡ some timestamp
    → timestamp ≤ℤ pos now
    → All (λ a. a.now ≤ now') arrivals
    → event_id again.headers ≡ event_id first.headers
    → timestamp_text again.headers ≡ timestamp_text first.headers
    → (webhook sign fails' now' again
        (run_webhooks sign (webhook sign fails now first s).1 arrivals)).0
      ≢ ok tt
webhook_once sign fails fails' now now' first again s arrivals timestamp accepted read past between
      same stamp h =
    elim (Bool-cases (ltb (now + window) now')) [
      | inl late ↦
          let (v, _, _) =
            (webhook-eq-ok_iff sign fails' now' again
                (run_webhooks sign (webhook sign fails now first s).1 arrivals)).0
              h in
          let e : v.timestamp ≡ timestamp =
            some_injective (sym v.read ∙ ap int_of_text stamp ∙ read) in
          let fresh : dist (pos now') timestamp ≤ window = rw e at v.fresh in
          absurd (ground (arith, fresh, past))
      | inr soon ↦
          webhook_once_in_window sign fails fails' now now' first again s arrivals accepted
            (All-weaken arrivals between (ground arith)) same (ground arith) h
    ]
