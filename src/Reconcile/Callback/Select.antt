-- ===== src/Reconcile/Callback/Select.antt =====
-- reconcile_kong_callback_routes.py: the route that is reconciled.
use kong.Base.{
  String, List, [], ◌∷◌, Bool, true, false, not, ◌&&◌, ◌||◌, Result, ok, ◌>>=◌, ◌>>◌, require,
  length, ◌==◌, nat_eq, if◌then◌else◌,
}
use kong.Base.Json.{Json, arr, nil, cons}
use kong.Base.Values.{is_true, equal, get_key, get_else, item, keep_if, all_of, texts, equals}
use kong.Reconcile.Fields.{one}
use kong.Reconcile.Campaign.Manifest.{set_of, intersects}
use kong.Reconcile.Campaign.Entities.{has, among, is_other}
use kong.Reconcile.Callback.{same_set}

-- `names.intersection(candidate.get(key) or [])`
abbrev shares : String → List Json → Json → Result String Bool
shares key names candidate = do
  value ← get_else key (arr nil) candidate
  found ← set_of value
  ok (intersects names found)

-- the test of `overlaps`
unfoldable pub overlaps_with : Json → Json → List Json → List Json → Json → Result String Bool
overlaps_with route host paths methods candidate = all_of (
    is_other route candidate
    ∷ among "hosts" host candidate
    ∷ shares "paths" paths candidate
    ∷ shares "methods" methods candidate
    ∷ [])

-- `not (candidate.get(key) or default)`
abbrev lacks : String → Json → Result String Bool
lacks key candidate = get_key key candidate >>= λ value. ok (not (is_true value))

abbrev on_http : Json → Result String Bool
on_http candidate = get_key "protocols" candidate >>= λ found.
    ok (equal found (texts ("http" ∷ [])) || equal found (texts ("https" ∷ [])))

-- the test of `exact`
unfoldable pub is_exact : Json → Json → List Json → List Json → Json → Result String Bool
is_exact expected host paths methods candidate = all_of (
    equals (get_key "hosts" candidate) (arr (cons host nil))
    ∷ (get_else "paths" (arr nil) candidate >>= λ found. same_set found paths)
    ∷ (get_else "methods" (arr nil) candidate >>= λ found. same_set found methods)
    ∷ on_http candidate
    ∷ (item "strip_path" expected >>= λ strip. equals (get_key "strip_path" candidate) strip)
    ∷ lacks "headers" candidate
    ∷ lacks "snis" candidate
    ∷ lacks "sources" candidate
    ∷ lacks "destinations" candidate
    ∷ [])

abbrev is_none : List Json → Bool
is_none [] = true
is_none (row ∷ rows) = false

-- the legacy route that is adopted, or `None`
unfoldable pub adopt_exact : List Json → List Json → Bool → Result String Json
adopt_exact overlaps exact apply = do
  require (is_none overlaps || length exact == length overlaps) "partial legacy route overlap"
  collision ← one "ambiguous legacy route" exact
  require (not (is_true collision && not apply)) "legacy callback route requires managed adoption"
  ok collision

unfoldable pub select_callback_route : List Json → Json → Json → Bool → Result String Json
select_callback_route routes expected host apply = do
  name ← item "name" expected
  same ← keep_if (has "name" name) routes
  route ← one "ambiguous route" same
  path_values ← item "paths" expected
  paths ← set_of path_values
  method_values ← item "methods" expected
  methods ← set_of method_values
  overlaps ← keep_if (overlaps_with route host paths methods) routes
  require (not (is_true route && not (is_none overlaps))) "conflicting live route"
  if is_true route then ok route else (do
    exact ← keep_if (is_exact expected host paths methods) overlaps
    adopt_exact overlaps exact apply)
