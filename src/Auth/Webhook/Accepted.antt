-- ===== src/Auth/Webhook/Accepted.antt =====
-- What `webhook` establishes about a delivery that it accepts.
use kong.Base.{
  ℕ, ◌≤◌, ◌-◌, Bool, true, false, not, ◌||◌, some, ◌≡◌, ◌↔◌, refl, arith, ok, err, require,
  >>=-eq-ok, >>-eq-ok, err-ne-ok, ltb, elem, elem_iff, In, ◌==◌, eq-false_of_not,
}
use kong.Base.Int.{ℤ, pos, dist}
use kong.Base.Bytes.{Bytes, bytes_eq, bytes_beq_iff, int_of_text}
use kong.Auth.Failure.{Failure, denied, crashed, Reply, is_json}
use kong.Auth.Identity.{or_deny}
use kong.Auth.Identity.Authentic.{or_deny-eq-ok}
use kong.Auth.Store.{State, purge_events, has_event, open_, begin, purge, insert, commit, Faults}
use kong.Auth.Webhook.{
  Delivery, event_id, timestamp_text, signature, is_signed, window, families, signed_bytes,
  is_ascii, verify, remember, run_verified, webhook,
}

-- The event is complete, was signed by the holder of the key, and its time is within the window.
pub record IsGenuine (sign : Bytes → Bytes) (now : ℕ) (delivery : Delivery) : Type 0 where
  pub family : In delivery.family families
  pub json : is_json delivery.headers ≡ true
  pub complete : is_signed delivery.headers ≡ true
  pub timestamp : ℤ
  pub read : int_of_text (timestamp_text delivery.headers) ≡ some timestamp
  pub fresh : dist (pos now) timestamp ≤ window
  pub ascii : is_ascii (signature delivery.headers) ≡ true
  pub signed :
      sign
        (signed_bytes (timestamp_text delivery.headers) (event_id delivery.headers) delivery.body)
      ≡ signature delivery.headers

not_later : (a b : ℕ) → ltb a b ≡ false → b ≤ a
not_later a b h = ground arith

later_not : (a b : ℕ) → b ≤ a → ltb a b ≡ false
later_not a b h = ground arith

require-eq-ok : (c : Bool) (f : Failure) → require c f ≡ ok tt → c ≡ true
require-eq-ok true f h = refl
require-eq-ok false f h = absurd (err-ne-ok h)

module _ (sign : Bytes → Bytes) (now : ℕ) (delivery : Delivery) where
  abbrev expected : Bytes
  expected =
      sign
        (signed_bytes (timestamp_text delivery.headers) (event_id delivery.headers) delivery.body)

  verify_sound : verify sign now delivery ≡ ok tt → IsGenuine sign now delivery
  unfolding verify
  verify_sound h =
      let (a, h1) = >>-eq-ok (elem delivery.family families) (denied 404 "not_found") _ h in
      let (b, h2) = >>-eq-ok (is_json delivery.headers) (denied 415 "content_type_denied") _ h1 in
      let (c, h3) = >>-eq-ok (is_signed delivery.headers) (denied 401 "signature_missing") _ h2 in
      let (timestamp, e, h4) =
        >>=-eq-ok
          (or_deny (int_of_text (timestamp_text delivery.headers)) (denied 401 "timestamp_invalid"))
          _ h3 in
      let (d, h5) =
        >>-eq-ok (not (ltb window (dist (pos now) timestamp))) (denied 401 "timestamp_stale") _
          h4 in
      let (g, h6) = >>-eq-ok (is_ascii (signature delivery.headers)) crashed _ h5 in
      record {
        family = (elem_iff delivery.family families).0 a;
        json = b;
        complete = c;
        timestamp = timestamp;
        read = or_deny-eq-ok (int_of_text (timestamp_text delivery.headers)) _ e;
        fresh = not_later window (dist (pos now) timestamp) (eq-false_of_not _ d);
        ascii = g;
        signed = (bytes_beq_iff expected (signature delivery.headers)).0 (require-eq-ok _ _ h6);
      }

  verify_complete : IsGenuine sign now delivery → verify sign now delivery ≡ ok tt
  unfolding verify
  verify_complete v =
      let family : elem delivery.family families ≡ true =
        (elem_iff delivery.family families).1 v.family in
      let fresh : ltb window (dist (pos now) v.timestamp) ≡ false = later_not window _ v.fresh in
      let signed : (expected == signature delivery.headers) ≡ true =
        (bytes_beq_iff _ _).1 v.signed in
      rw family (rw v.json (rw v.complete (rw v.read (rw fresh (rw v.ascii (rw signed refl))))))

  -- The checks pass exactly when the delivery is genuine.
  pub verify-eq-ok_iff : (verify sign now delivery ≡ ok tt) ↔ IsGenuine sign now delivery
  verify-eq-ok_iff = (verify_sound, verify_complete)

run_verified_ok :
    (fails : Faults) (now : ℕ) (id : Bytes) (s : State) (v : Reply (Unit {0}))
    → (run_verified fails now id s v).0 ≡ ok tt
    → (v ≡ ok tt) × ((remember fails now id s).0 ≡ ok tt)
run_verified_ok fails now id s (err failure) h = absurd (err-ne-ok h)
run_verified_ok fails now id s (ok _) h = (refl, h)

pub remember-eq-ok_iff :
    (fails : Faults) (now : ℕ) (id : Bytes) (s : State)
    → ((remember fails now id s).0 ≡ ok tt) ↔ (
        ((fails open_ || fails begin || fails purge || fails insert || fails commit) ≡ false)
        × (has_event id (purge_events (now - window) s.webhook_replay) ≡ false))
unfolding remember
remember-eq-ok_iff fails now id s = ground arith

-- An event is accepted, at a time and with faults, exactly when it is genuine, no stage of the
-- database fails, and the replay cache, less what is older than the window, does not hold it.
pub webhook-eq-ok_iff :
    (sign : Bytes → Bytes) (fails : Faults) (now : ℕ) (delivery : Delivery) (s : State)
    → ((webhook sign fails now delivery s).0 ≡ ok tt) ↔ (
        IsGenuine sign now delivery
        × ((fails open_ || fails begin || fails purge || fails insert || fails commit) ≡ false)
        × (has_event (event_id delivery.headers) (purge_events (now - window) s.webhook_replay)
            ≡ false))
unfolding webhook
webhook-eq-ok_iff sign fails now delivery s = (
  λ h.
      let (v, remembered) =
        run_verified_ok fails now (event_id delivery.headers) s (verify sign now delivery) h in
      let (up, new) = (remember-eq-ok_iff fails now (event_id delivery.headers) s).0 remembered in
      ((verify-eq-ok_iff sign now delivery).0 v, up, new),
  λ w.
      rw ((verify-eq-ok_iff sign now delivery).1 w.0)
        ((remember-eq-ok_iff fails now (event_id delivery.headers) s).1 (w.1, w.2)),
)
