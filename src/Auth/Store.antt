-- ===== src/Auth/Store.antt =====
-- The state database of app.py: its two tables, and how a statement of a transaction fails.
use kong.Base.{
  ℕ, List, [], ◌∷◌, Bool, false, ◌&&◌, ◌||◌, Option, none, some, ltb, ◌==◌, if◌then◌else◌,
}
use kong.Base.Bytes.{Bytes, bytes_eq}

-- the fields of a command's answer that depend on the request
pub record Response : Type 0 where
  pub request_digest : Bytes

-- table `idempotency`, with its primary key
pub record Key : Type 0 where
  pub tenant : Bytes
  pub family : Bytes
  pub key : Bytes

pub record Row : Type 0 where
  pub id : Key
  pub digest : Bytes
  pub response : Response
  pub created_at : ℕ

-- table `webhook_replay`
pub record Event : Type 0 where
  pub event_id : Bytes
  pub accepted_at : ℕ

pub record State : Type 0 where
  pub idempotency : List Row
  pub webhook_replay : List Event

abbrev pub same_key : Key → Key → Bool
same_key a b = a.tenant == b.tenant && a.family == b.family && a.key == b.key

-- `DELETE FROM idempotency WHERE created_at < cutoff`
unfoldable pub purge_rows : ℕ → List Row → List Row
purge_rows cutoff [] = []
purge_rows cutoff (row ∷ rows) =
    let rest = purge_rows cutoff rows in if ltb row.created_at cutoff then rest else row ∷ rest

-- `SELECT … WHERE tenant=? AND family=? AND key=?`
unfoldable pub find_row : Key → List Row → Option Row
find_row key [] = none
find_row key (row ∷ rows) = if same_key row.id key then some row else find_row key rows

-- `INSERT INTO idempotency`; `none` is a violation of the primary key
unfoldable pub insert_row : Row → List Row → Option (List Row)
unfolding find_row
insert_row row rows = elim (find_row row.id rows) [ none ↦ some (row ∷ rows) | some old ↦ none ]

-- `DELETE FROM webhook_replay WHERE accepted_at < cutoff`
unfoldable pub purge_events : ℕ → List Event → List Event
purge_events cutoff [] = []
purge_events cutoff (event ∷ events) =
    let rest = purge_events cutoff events in
    if ltb event.accepted_at cutoff then rest else event ∷ rest

unfoldable pub has_event : Bytes → List Event → Bool
has_event id [] = false
has_event id (event ∷ events) = event.event_id == id || has_event id events

-- Where the database may fail. A statement that fails inside a transaction is rolled back; a
-- `ROLLBACK` outside one raises.
pub data Stage : Type 0 where
  open_ begin purge select insert commit : Stage

abbrev pub Faults : Type 0
Faults = Stage → Bool

abbrev pub no_faults : Faults
no_faults stage = false
