-- ===== src/Standby.antt =====
-- The routes of the private standby: apply_kong_standby.py and rollback_kong_standby.py, and the
-- identity of an entity that they put into a path, `entity_id` of kong_admin_channel.py. The
-- messages leave out the values.
pub mod Apply
pub mod Rollback
pub mod Drained
mod Tests
use kong.Base.{
  ℕ, String, List, [], ◌∷◌, Bool, true, false, ◌&&◌, ◌||◌, Option, none, some, Result, ok, err,
  require, ◌>>=◌, ◌>>◌, all, length, leb, ◌==◌, nat_eq, if◌then◌else◌,
}
use kong.Base.Text.{codes, split}
use kong.Base.Json.{Json, null, bool, num, str, arr, nil, obj}
use kong.Base.Values.{get_else, is_in}
use kong.Admin.Program.{Program}

-- `TAG`
abbrev pub tag : String
tag = "codestra-kong-standby-20260820"

-- `admin_request` with a JSON payload, `confirm_unchanged`, `urlencode` of a name and the page size,
-- and `urllib.parse.quote`
pub record Admin (S : Type 0) : Type 0 where
  pub send : String → String → Option Json → Program S Json
  pub confirm_unchanged : Program S (Unit {0})
  pub urlencode : Json → String
  pub quote : String → String

-- `[0-9a-f]`, in either case
abbrev is_hex_code : ℕ → Bool
is_hex_code n = leb 48 n && leb n 57 || leb 97 n && leb n 102 || leb 65 n && leb n 70

abbrev is_group : ℕ → String → Bool
is_group n text = all is_hex_code (codes text) && length (codes text) == n

-- `ENTITY_ID.fullmatch`
abbrev pub is_entity_id : List String → Bool
is_entity_id (a ∷ b ∷ c ∷ d ∷ e ∷ []) =
    is_group 8 a && is_group 4 b && is_group 4 c && is_group 4 d && is_group 12 e
is_entity_id parts = false

unfoldable pub entity_id : Json → Result String String
entity_id (str text) =
    if is_entity_id (split 45 text) then ok text else err "invalid Kong entity identity"
entity_id value = err "invalid Kong entity identity"

-- `TAG in (row.get("tags") or [])`
unfoldable pub is_owned : Json → Result String Bool
is_owned row = get_else "tags" (arr nil) row >>= λ tags. is_in (str tag) tags
