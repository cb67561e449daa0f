-- ===== src/Reconcile/Callback.antt =====
-- reconcile_kong_callback_routes.py: what it selects and verifies. The messages leave out the
-- names. A list that is sorted raises here where a member is no text.
pub mod Select
pub mod Verify
pub mod Payloads
pub mod Run
pub mod DryRun
pub mod Staged
mod Tests
use kong.Base.{
  String, List, [], ◌∷◌, Bool, true, false, not, ◌&&◌, Result, ok, err, require, ◌>>=◌, ◌>>◌, all,
  any, elem, ◌==◌, string_eq, if◌then◌else◌,
}
use kong.Base.Json.{Json, null, str, arr, nil, obj, Fields, end}
use kong.Base.Values.{is_true, equal, get_key, get_or, get_else, item, as_text, iterate, texts}
use kong.Gateway.Checks.{Check}
use kong.Reconcile.Campaign.Manifest.{sorted, set_of}
use kong.Reconcile.Fields.{put}

-- `require_equal`
abbrev pub require_equal : Result String Json → Result String Json → Check
require_equal actual expected =
    actual >>= λ a. expected >>= λ b. require (equal a b) "Kong readback mismatch"

abbrev as_texts : List Json → Result String (List String)
as_texts [] = ok []
as_texts (value ∷ rest) = do text ← as_text value; more ← as_texts rest; ok (text ∷ more)

-- `sorted(value)`
unfoldable pub sorted_value : Json → Result String Json
sorted_value value = do members ← iterate value; names ← as_texts members; ok (texts (sorted names))

-- `set(value) == names`
unfoldable pub same_set : Json → List Json → Result String Bool
unfolding equal
same_set value names = do
  found ← set_of value
  ok (all (λ x. any (equal x) names) found && all (λ x. any (equal x) found) names)

-- the exceptions that are no `RuntimeError`
abbrev is_other_error : String → Bool
is_other_error message =
    elem message ("TypeError" ∷ "KeyError" ∷ "AttributeError" ∷ "AssertionError" ∷ [])

-- `try: check; return True`, `except RuntimeError: return False`
abbrev pub succeeds : Check → Result String Bool
succeeds (ok done) = ok true
succeeds (err message) = if is_other_error message then err message else ok false

-- `{plugin["name"]: plugin for plugin in rows}`
unfoldable pub by_name_of : List Json → Fields → Result String Fields
unfolding put
by_name_of [] found = ok found
by_name_of (plugin ∷ rows) found = do
  name ← item "name" plugin
  text ← as_text name
  by_name_of rows (put text plugin found)
