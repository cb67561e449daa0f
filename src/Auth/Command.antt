-- ===== src/Auth/Command.antt =====
-- `command` of app.py: a mock command, answered once for each idempotency key. Reading the body as
-- JSON and SHA-256 are the fields of `Decoders`.
pub mod Rows
pub mod Once
pub mod Atomic
use kong.Base.{
  ℕ, ◌-◌, ◌*◌, String, List, [], ◌∷◌, Bool, true, false, not, ◌&&◌, ◌||◌, Option, none, some,
  Result, ok, err, require, ◌>>=◌, ◌>>◌, leb, length, ◌==◌, if◌then◌else◌,
}
use kong.Base.Text.{codes}
use kong.Base.Bytes.{Bytes, bytes_eq, take}
use kong.Auth.Failure.{Failure, denied, crashed, Reply, Headers, get_header, is_json, text_or_empty}
use kong.Auth.Identity.{Services, Context, or_deny, identity}
use kong.Auth.Store.{
  Response, Key, Row, State, purge_rows, find_row, insert_row, Stage, open_, begin, purge, select,
  insert, commit, Faults,
}

-- what `json.loads` makes of a body: of an object only the text under "tenant" is read
pub data Payload : Type 0 where
  not_object : Payload
  object : (tenant : Option Bytes) → Payload

pub record Decoders : Type 0 where
  -- `none` where `json.loads` raises
  pub loads : Bytes → Option Payload
  -- `hashlib.sha256(body).hexdigest()`
  pub sha256 : Bytes → Bytes

pub record Request : Type 0 where
  pub family : Bytes
  pub headers : Headers
  pub body : Bytes

abbrev pub retention : ℕ
retention = 30 * 24 * 60 * 60

-- `SCOPES`
abbrev pub scope_of : Bytes → Option Bytes
scope_of family =
    if family == codes "sms"
    then some (codes "sms.send")
    else if family == codes "email"
    then some (codes "email.send")
    else none

abbrev pub unavailable : Failure
unavailable = denied 503 "idempotency_unavailable"

-- a found row is returned, once the transaction is committed, if the digest is the same
abbrev pub stored_reply : Bytes → Row → Reply Response
stored_reply digest row =
    if row.digest == digest then ok row.response else err (denied 409 "idempotency_conflict")

-- the transaction after the `DELETE`, over the rows that it left
unfoldable pub look_up_or_insert :
    Faults → ℕ → Key → Bytes → Response → List Row → Result Failure (Reply Response × List Row)
look_up_or_insert fails later key digest result rows =
    if fails select then err unavailable else elim (find_row key rows) [
      | some row ↦ if fails commit then err unavailable else ok (stored_reply digest row, rows)
      | none ↦
          if fails insert
          then err unavailable
          else elim (insert_row
              (record { id = key; digest = digest; response = result; created_at = later }) rows) [
                | none ↦ err unavailable
                | some rows' ↦ if fails commit then err unavailable else ok (ok result, rows')
              ]
    ]

-- what stands after the transaction, rolled back or committed
abbrev pub settle : State → Result Failure (Reply Response × List Row) → Reply Response × State
settle s (err failure) = (err failure, s)
settle s (ok (reply, rows)) = (reply, record s { idempotency = rows })

-- The part of `command` from `state()` on. `now` and `later` are what the clock says at the
-- `DELETE` and at the `INSERT`. When `BEGIN` fails, the `ROLLBACK` of the handler raises too.
unfoldable pub transact : Faults → ℕ → ℕ → Key → Bytes → Response → State → Reply Response × State
transact fails now later key digest result s =
    if fails open_ || fails begin
    then (err crashed, s)
    else if fails purge
    then (err unavailable, s)
    else settle s (
        look_up_or_insert fails later key digest result
          (purge_rows (now - retention) s.idempotency))

-- `payload.get("tenant") == tenant`
abbrev text_is : Option Bytes → Bytes → Bool
text_is none tenant = false
text_is (some text) tenant = text == tenant

-- the checks of `command` before the database: the key of the request and its digest
unfoldable pub admit : Services → Decoders → Request → Reply (Key × Bytes)
admit services decoders request = do
  scope ← or_deny (scope_of request.family) (denied 404 "not_found")
  let key = text_or_empty (get_header (codes "idempotency-key") request.headers)
  require (not (key == []) && leb (length key) 128) (denied 400 "idempotency_key_required")
  context ← identity services request.headers scope
  require (is_json request.headers) (denied 415 "content_type_denied")
  payload ← or_deny (decoders.loads request.body) (denied 400 "malformed_json")
  tenant ← elim payload [
    | not_object ↦ err (denied 400 "json_object_required")
    | object tenant ↦ ok tenant
  ]
  require (text_is tenant context.tenant) (denied 404 "tenant_not_found")
  ok (
    record { tenant = context.tenant; family = request.family; key = key },
    decoders.sha256 request.body,
  )

abbrev pub response_for : Bytes → Response
response_for digest = record { request_digest = take 16 digest }

abbrev run_admitted : Faults → ℕ → ℕ → State → Reply (Key × Bytes) → Reply Response × State
run_admitted fails now later s (err failure) = (err failure, s)
run_admitted fails now later s (ok (key, digest)) =
    transact fails now later key digest (response_for digest) s

-- `POST /v1/{family}`
unfoldable pub command :
    Services → Decoders → Faults → ℕ → ℕ → Request → State → Reply Response × State
command services decoders fails now later request s =
    run_admitted fails now later s (admit services decoders request)
