-- ===== src/Reconcile/Campaign/Entities.antt =====
-- reconcile_kong_campaign_automation.py: the service and the plugins of a route.
use kong.Base.{
  String, List, [], ◌∷◌, Bool, true, false, not, ◌&&◌, Option, none, some, Result, ok, err,
}
use kong.Base as Base
use kong.Base.Json.{Json, str, arr, nil, obj, Fields, end}
use kong.Base.Values.{
  dict, is_true, equal, or_else, get_key, get_else, item, iterate, keep_if, all_of, is_in,
}
use kong.Admin.Program.{Program, ◌>>=◌, ◌>>◌, pure, branch}
use kong.Reconcile.Client.{Library, Channel, ◌<>◌, id_text}
use kong.Reconcile.Fields.{one, one_of, require_exact_fields, require_plugin, named_form}

-- `value in (row.get(key) or [])`
abbrev pub among : String → Json → Json → Result String Bool
among key value row = Base.◌>>=◌ (get_else key (arr nil) row) (λ found. is_in value found)

-- `row.get(key) == value`
unfoldable pub has : String → Json → Json → Result String Bool
has key value row = Base.◌>>=◌ (get_key key row) (λ found. ok (equal found value))

-- `candidate.get("id") != (route or {}).get("id")`
abbrev pub is_other : Json → Json → Result String Bool
is_other route candidate =
    Base.◌>>=◌ (get_key "id" candidate)
      (λ id. Base.◌>>=◌ (get_key "id" (or_else route (obj end))) (λ own. ok (not (equal id own))))

-- the test of `collisions`
unfoldable pub competes_with : Json → Json → Json → String → Json → Result String Bool
competes_with route host path method candidate = all_of (
    is_other route candidate
    ∷ among "hosts" host candidate
    ∷ among "paths" path candidate
    ∷ among "methods" (str method) candidate
    ∷ [])

abbrev is_none : List Json → Bool
is_none [] = true
is_none (row ∷ rows) = false

-- the named route, or the one that is adopted
unfoldable pub adopt : Json → List Json → Bool → Result String Json
adopt route collisions apply =
    Base.if◌then◌else◌ (is_true route && not (is_none collisions)) (err "conflicting live route") (
      Base.if◌then◌else◌ (is_true route) (ok route) (
        Base.◌>>=◌ (one "ambiguous legacy route" collisions) (λ collision.
          Base.if◌then◌else◌ (is_true collision && not apply)
            (err "legacy route requires managed adoption") (ok collision))))

unfoldable pub select_managed_route :
    List Json → Json → Json → Json → Bool → String → Result String Json
select_managed_route routes expected_name host path apply method =
    Base.◌>>=◌ (keep_if (has "name" expected_name) routes) (λ same.
      Base.◌>>=◌ (one "ambiguous route" same) (λ route.
        Base.◌>>=◌ (keep_if (competes_with route host path method) routes)
          (λ collisions. adopt route collisions apply)))

-- `item["name"] == name and item.get("enabled")`
abbrev pub is_enabled : String → Json → Result String Bool
is_enabled name row = all_of (
    Base.◌>>=◌ (item "name" row) (λ found. ok (equal found (str name)))
    ∷ Base.◌>>=◌ (get_key "enabled" row) (λ enabled. ok (is_true enabled))
    ∷ [])

module _ {S : Type 0} (library : Library) (channel : Channel S) where
  -- `request("GET", path)`
  unfoldable pub fetch : String → Program S Json
  fetch path = channel.send "form" "GET" path none

  -- `request("GET", path)["data"]`
  unfoldable pub fetch_rows : String → Program S Json
  fetch_rows path = do answer ← fetch path; pure (item "data" answer)

  -- the rows of the collection that have the name
  unfoldable pub find_entity : String → Json → Program S Json
  find_entity collection query = do
    data_ ← fetch_rows ("/" <> collection <> "?" <> library.urlencode (dict (("name", query) ∷ [])))
    pure (one_of "ambiguous entity" data_)

  unfoldable pub ensure_entity : String → Json → Json → Bool → Program S Json
  ensure_entity collection query payload apply = do
    existing ← find_entity collection query
    branch (is_true existing)
        (do
          branch apply
              (do
                id ← pure (id_text library existing)
                answer ← channel.send "form" "PATCH" ("/" <> collection <> "/" <> id) (some payload)
                pure (ok tt))
              (pure (ok tt))
          id ← pure (id_text library existing)
          current ← fetch ("/" <> collection <> "/" <> id)
          pure (require_exact_fields current payload "entity")
          pure (ok current))
        (branch (not apply) (pure (err "missing entity")) (do
          created ← channel.send "form" "POST" ("/" <> collection) (some payload)
          id ← pure (id_text library created)
          current ← fetch ("/" <> collection <> "/" <> id)
          pure (require_exact_fields current payload "entity")
          pure (ok current)))

  -- the enabled plugin of the name
  unfoldable pub find_plugin : String → String → Program S Json
  find_plugin route_id name = do
    data_ ← fetch_rows ("/routes/" <> route_id <> "/plugins")
    rows ← pure (iterate data_)
    same ← pure (keep_if (is_enabled name) rows)
    pure (one ("ambiguous " <> name) same)

  unfoldable pub ensure_route_plugin : String → String → Fields → Bool → Program S (Unit {0})
  ensure_route_plugin route_id name config apply = do
    existing ← find_plugin route_id name
    let payload = obj (named_form name config)
    branch (is_true existing)
        (do
          branch apply
              (do
                id ← pure (id_text library existing)
                answer ← channel.send "form" "PATCH" ("/plugins/" <> id) (some payload)
                pure (ok tt))
              (pure (ok tt))
          id ← pure (id_text library existing)
          current ← fetch ("/plugins/" <> id)
          pure (require_plugin current (obj config) (name <> " plugin")))
        (branch (not apply) (pure (err ("missing route plugin: " <> name))) (do
          created ← channel.send "form" "POST" ("/routes/" <> route_id <> "/plugins") (some payload)
          pure (require_plugin created (obj config) (name <> " plugin"))))
