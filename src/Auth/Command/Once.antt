-- ===== src/Auth/Command/Once.antt =====
-- One answer for one idempotency key, through whatever commands come between.
use kong.Base.{
  ℕ, ◌≤◌, ◌+◌, ◌-◌, List, [], ◌∷◌, ◌||◌, none, some, ◌≡◌, inl, inr, refl, arith, Result, ok, err,
  ◌==◌, All, Bool-cases, if◌then◌else◌,
}
use kong.Base.Bytes.{Bytes, bytes_eq}
use kong.Auth.Failure.{Failure, denied, Reply}
use kong.Auth.Identity.{Services}
use kong.Auth.Store.{
  Response, Key, Row, State, find_row, insert_row, Faults, no_faults, purge, open_, begin,
}
use kong.Auth.Command.{
  Decoders, Request, retention, stored_reply, look_up_or_insert, settle, transact, admit,
  response_for, run_admitted, command,
}
use kong.Auth.Command.Rows.{same_key_iff, find_row-purge_rows, purge_rows-none}

-- The step of the transaction keeps every row that is found.
look_up_or_insert_keeps :
    (fails : Faults) (later : ℕ) (k : Key) (digest : Bytes) (result : Response) (rows : List Row)
    (key : Key) (row : Row) (reply : Reply Response) (rows' : List Row)
    → find_row key rows ≡ some row
    → look_up_or_insert fails later k digest result rows ≡ ok (reply, rows')
    → find_row key rows' ≡ some row
unfolding look_up_or_insert insert_row find_row
look_up_or_insert_keeps fails later k digest result rows key row reply rows' found h =
    ground (arith, same_key_iff k key)

settle_keeps :
    (s : State) (outcome : Result Failure (Reply Response × List Row)) (key : Key) (row : Row)
    → find_row key s.idempotency ≡ some row
    → ((reply : Reply Response) (rows' : List Row)
        → outcome ≡ ok (reply, rows')
        → find_row key rows' ≡ some row)
    → find_row key (settle s outcome).1.idempotency ≡ some row
settle_keeps s (err failure) key row found keeps = found
settle_keeps s (ok (reply, rows)) key row found keeps = keeps reply rows refl

transact_keeps :
    (fails : Faults) (now later : ℕ) (k : Key) (digest : Bytes) (result : Response) (s : State)
    (key : Key) (row : Row)
    → find_row key s.idempotency ≡ some row
    → now ≤ row.created_at + retention
    → find_row key (transact fails now later k digest result s).1.idempotency ≡ some row
unfolding transact
transact_keeps fails now later k digest result s key row found fresh =
    elim (Bool-cases (fails open_ || fails begin)) [
      | inl down ↦ rw down found
      | inr up ↦ rw up (elim (Bool-cases (fails purge)) [
        | inl down ↦ rw down found
        | inr up ↦ rw up (
            settle_keeps s _ key row found (λ reply rows' e.
              look_up_or_insert_keeps fails later k digest result _ key row reply rows'
                (find_row-purge_rows key (now - retention) s.idempotency row found (omega arith))
                e))
      ])
    ]

command_keeps :
    (services : Services) (decoders : Decoders) (fails : Faults) (now later : ℕ) (request : Request)
    (s : State) (key : Key) (row : Row)
    → find_row key s.idempotency ≡ some row
    → now ≤ row.created_at + retention
    → find_row key (command services decoders fails now later request s).1.idempotency ≡ some row
unfolding command
command_keeps services decoders fails now later request s key row found fresh =
    admitted (admit services decoders request)
  where
    admitted :
        (a : Reply (Key × Bytes))
        → find_row key (run_admitted fails now later s a).1.idempotency ≡ some row
    admitted (err failure) = found
    admitted (ok (k, digest)) =
        transact_keeps fails now later k digest (response_for digest) s key row found fresh

-- One request, with the services and the clock as it met them.
pub record Call : Type 0 where
  pub services : Services
  pub decoders : Decoders
  pub fails : Faults
  pub now : ℕ
  pub later : ℕ
  pub request : Request

-- the state after a series of commands
pub run_commands : State → List Call → State
run_commands s [] = s
run_commands s (c ∷ calls) =
    run_commands (command c.services c.decoders c.fails c.now c.later c.request s).1 calls

run_commands_keeps :
    (s : State) (calls : List Call) (key : Key) (row : Row)
    → find_row key s.idempotency ≡ some row
    → All (λ c. c.now ≤ row.created_at + retention) calls
    → find_row key (run_commands s calls).idempotency ≡ some row
unfolding run_commands
run_commands_keeps s [] key row found fresh = found
run_commands_keeps s (c ∷ calls) key row found (now, fresh) =
    run_commands_keeps (command c.services c.decoders c.fails c.now c.later c.request s).1 calls key
      row (command_keeps c.services c.decoders c.fails c.now c.later c.request s key row found now)
      fresh

-- A command that answers, for a key that has no row, leaves its row.
transact_records :
    (fails : Faults) (now later : ℕ) (key : Key) (digest : Bytes) (result answer : Response)
    (s : State)
    → find_row key s.idempotency ≡ none
    → (transact fails now later key digest result s).0 ≡ ok answer
    → (find_row key (transact fails now later key digest result s).1.idempotency
        ≡ some (record { id = key; digest = digest; response = answer; created_at = later }))
unfolding transact look_up_or_insert insert_row find_row
transact_records fails now later key digest result answer s new h =
    ground (arith, purge_rows-none key (now - retention) s.idempotency new, same_key_iff key key)

-- A command without faults, for a key that has a row in time, answers from that row.
transact_repeats :
    (now later : ℕ) (key : Key) (digest : Bytes) (result : Response) (s : State) (row : Row)
    → find_row key s.idempotency ≡ some row
    → now ≤ row.created_at + retention
    → (transact no_faults now later key digest result s).0 ≡ stored_reply digest row
unfolding transact look_up_or_insert
transact_repeats now later key digest result s row found fresh =
    rw (find_row-purge_rows key (now - retention) s.idempotency row found (omega arith)) refl

-- When a command for a new key has answered, and until its row is 30 days old, a command that is
-- admitted under the same key answers, with no faults, the same if its digest is the same, and
-- 409 if not, whatever commands came between.
pub command_once :
    (services : Services) (decoders : Decoders) (fails : Faults) (now later : ℕ) (request : Request)
    (s : State) (key : Key) (digest : Bytes) (answer : Response) (calls : List Call)
    (services' : Services) (decoders' : Decoders) (now' later' : ℕ) (request' : Request)
    (digest' : Bytes)
    → admit services decoders request ≡ ok (key, digest)
    → find_row key s.idempotency ≡ none
    → (command services decoders fails now later request s).0 ≡ ok answer
    → All (λ c. c.now ≤ later + retention) calls
    → admit services' decoders' request' ≡ ok (key, digest')
    → now' ≤ later + retention
    → (command services' decoders' no_faults now' later' request'
        (run_commands (command services decoders fails now later request s).1 calls)).0
      ≡ (if digest == digest' then ok answer else err (denied 409 "idempotency_conflict"))
unfolding command
command_once services decoders fails now later request s key digest answer calls services' decoders'
      now' later' request' digest' first new answered between again fresh =
    rw (first, again)
      (transact_repeats now' later' key digest' _ _ _
        (run_commands_keeps _ calls key _
          (transact_records fails now later key digest (response_for digest) answer s new
            (rw first at answered))
          between)
        fresh)
