-- ===== src/Auth/Command/Atomic.antt =====
-- The table under a command that fails.
use kong.Base.{
  ap, err-ne-ok, ℕ, ◌-◌, List, ◌∷◌, ◌||◌, none, ◌≡◌, ◌⊎◌, inl, inr, refl, arith, Result, ok, err,
  Bool-cases,
}
use kong.Base.Bytes.{Bytes}
use kong.Auth.Failure.{Failure, Reply}
use kong.Auth.Identity.{Services}
use kong.Auth.Store.{
  Response, Key, Row, State, purge_rows, find_row, insert_row, Faults, purge, open_, begin,
}
use kong.Auth.Command.{
  Decoders, Request, retention, look_up_or_insert, settle, transact, admit, response_for,
  run_admitted, command,
}

-- The step leaves the rows, or puts a row of a new key before them and answers with it.
look_up_or_insert_cases :
    (fails : Faults) (later : ℕ) (k : Key) (digest : Bytes) (result : Response) (rows : List Row)
    (reply : Reply Response) (rows' : List Row)
    → look_up_or_insert fails later k digest result rows ≡ ok (reply, rows')
    → (rows' ≡ rows)
      ⊎ ((find_row k rows ≡ none)
          × (reply ≡ ok result)
          × (rows'
              ≡ record { id = k; digest = digest; response = result; created_at = later } ∷ rows))
unfolding look_up_or_insert insert_row
look_up_or_insert_cases fails later k digest result rows reply rows' h = ground arith

denied_rows :
    (fails : Faults) (later : ℕ) (k : Key) (digest : Bytes) (result : Response) (rows : List Row)
    (failure : Failure) (rows' : List Row)
    → look_up_or_insert fails later k digest result rows ≡ ok (err failure, rows')
    → rows' ≡ rows
denied_rows fails later k digest result rows failure rows' h =
    elim (look_up_or_insert_cases fails later k digest result rows (err failure) rows' h) [
      | inl same ↦ same
      | inr (_, answered, _) ↦ absurd (err-ne-ok answered)
    ]

-- what a command that denies may leave of the table
abbrev pub LeftBy : ℕ → State → State → Type 0
LeftBy now s s' =
    (s' ≡ s) ⊎ (s' ≡ record s { idempotency = purge_rows (now - retention) s.idempotency })

settle_denies :
    (s : State) (rows : List Row) (outcome : Result Failure (Reply Response × List Row))
    (failure : Failure)
    → (settle s outcome).0 ≡ err failure
    → ((rows' : List Row) → outcome ≡ ok (err failure, rows') → rows' ≡ rows)
    → ((settle s outcome).1 ≡ s) ⊎ ((settle s outcome).1 ≡ record s { idempotency = rows })
settle_denies s rows (err other) failure h keeps = inl refl
settle_denies s rows (ok (reply, rows')) failure h keeps =
    inr (ap (λ l. record s { idempotency = l }) (keeps rows' (ap (λ r. ok (r, rows')) h)))

transact_denies :
    (fails : Faults) (now later : ℕ) (k : Key) (digest : Bytes) (result : Response) (s : State)
    (failure : Failure)
    → (transact fails now later k digest result s).0 ≡ err failure
    → LeftBy now s (transact fails now later k digest result s).1
unfolding transact
transact_denies fails now later k digest result s failure h =
    elim (Bool-cases (fails open_ || fails begin)) [
      | inl down ↦ rw down (inl refl)
      | inr up ↦ elim (Bool-cases (fails purge)) [
        | inl down ↦ rw (up, down) (inl refl)
        | inr fine ↦
            rw (up, fine)
              (settle_denies s _ _ failure (rw (up, fine) at h)
                (λ rows' e. denied_rows fails later k digest result _ failure rows' e))
      ]
    ]

-- A command that is denied, or fails, adds nothing: it leaves the state as it was, or without the
-- rows that are older than the retention.
pub command_denied_adds_nothing :
    (services : Services) (decoders : Decoders) (fails : Faults) (now later : ℕ) (request : Request)
    (s : State) (failure : Failure)
    → (command services decoders fails now later request s).0 ≡ err failure
    → LeftBy now s (command services decoders fails now later request s).1
unfolding command
command_denied_adds_nothing services decoders fails now later request s failure =
    admitted (admit services decoders request)
  where
    admitted :
        (a : Reply (Key × Bytes))
        → (run_admitted fails now later s a).0 ≡ err failure
        → LeftBy now s (run_admitted fails now later s a).1
    admitted (err other) h = inl refl
    admitted (ok (k, digest)) h =
        transact_denies fails now later k digest (response_for digest) s failure h
