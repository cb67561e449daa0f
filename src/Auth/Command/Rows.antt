-- ===== src/Auth/Command/Rows.antt =====
-- The rows of table `idempotency` under the statements of a command.
use kong.Base.{ℕ, ◌≤◌, List, [], ◌∷◌, true, none, some, ◌≡◌, ◌↔◌, refl, arith}
use kong.Base.Bytes.{bytes_eq, bytes_beq_iff}
use kong.Auth.Store.{Key, Row, same_key, purge_rows, find_row}

pub same_key_iff : (a b : Key) → (same_key a b ≡ true) ↔ (a ≡ b)
same_key_iff a b = ground (
  arith,
  bytes_beq_iff a.tenant b.tenant,
  bytes_beq_iff a.family b.family,
  bytes_beq_iff a.key b.key,
)

-- A row that is found stays found by a purge that does not reach its time.
pub find_row-purge_rows :
    (key : Key) (cutoff : ℕ) (rows : List Row) (row : Row)
    → find_row key rows ≡ some row
    → cutoff ≤ row.created_at
    → find_row key (purge_rows cutoff rows) ≡ some row
unfolding find_row purge_rows
find_row-purge_rows key cutoff [] row h fresh = cc
find_row-purge_rows key cutoff (r ∷ rows) row h fresh =
    ground (arith, find_row-purge_rows key cutoff rows row)

-- A purge adds no row.
pub purge_rows-none :
    (key : Key) (cutoff : ℕ) (rows : List Row)
    → find_row key rows ≡ none
    → find_row key (purge_rows cutoff rows) ≡ none
unfolding find_row purge_rows
purge_rows-none key cutoff [] h = refl
purge_rows-none key cutoff (r ∷ rows) h = ground (arith, purge_rows-none key cutoff rows)

pub find_row_id :
    (key : Key) (rows : List Row) (row : Row) → find_row key rows ≡ some row → row.id ≡ key
unfolding find_row
find_row_id key [] row h = cc
find_row_id key (r ∷ rows) row h = ground (arith, same_key_iff r.id key, find_row_id key rows row)
