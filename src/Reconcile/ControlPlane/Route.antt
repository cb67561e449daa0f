-- ===== src/Reconcile/ControlPlane/Route.antt =====
-- reconcile_kong_n8n_control_plane.py: a route, first under a staged host, then under its own.
use kong.Base.{
  String, List, [], ◌∷◌, Bool, true, false, not, ◌&&◌, Option, none, some, Result, ok, err, require,
}
use kong.Base as Base
use kong.Base.Int.{pos}
use kong.Base.Json.{Json, bool, num, str, arr, cons, nil, obj, Fields, end, field}
use kong.Base.Values.{
  dict, or_else, entries, is_true, equal, get_key, get_in, get_else, item, keep_if, is_in, all_of,
}
use kong.Admin.Program.{Program, ◌>>=◌, ◌>>◌, pure, branch, for_each}
use kong.Reconcile.Client.{Library, Channel, ◌<>◌, text_of, id_text, all_rows, tell, delete}
use kong.Reconcile.Fields.{one, require_exact_fields, update}
use kong.Reconcile.ControlPlane.{expected_plugin_configs, verify_plugins, has_key}
use kong.Reconcile.ControlPlane.Entities.{matches, assert_some, enabled_plugins, ensure_plugin}

-- `value in (row.get(key) or [])`
abbrev pub lists : String → Result String Json → Json → Result String Bool
lists key value row =
    Base.◌>>=◌ value (λ v. Base.◌>>=◌ (get_else key (arr nil) row) (λ found. is_in v found))

-- the test of `collisions`
unfoldable pub collides : Json → Json → Json → Json → Result String Bool
collides spec expected route row = all_of (
    Base.◌>>=◌ (get_key "id" row)
      (λ id. Base.◌>>=◌ (get_key "id" (or_else route (obj end))) (λ own. ok (not (equal id own))))
    ∷ lists "hosts" (item "host" spec) row
    ∷ lists "paths" (item "path" expected) row
    ∷ lists "methods" (item "method" expected) row
    ∷ [])

unfoldable pub select_route : List Json → Json → Json → Result String Json
select_route rows spec expected =
    Base.◌>>=◌ (keep_if (matches "name" expected "name") rows) (λ same.
      Base.◌>>=◌ (one "ambiguous route" same) (λ route.
        Base.◌>>=◌ (keep_if (collides spec expected route) rows)
          (λ collisions. no_collision collisions route)))
  where
    no_collision : List Json → Json → Result String Json
    no_collision [] route = ok route
    no_collision (row ∷ rows) route = err "conflicting route"

abbrev listed : Json → Json
listed value = arr (cons value nil)

-- `payload`
unfoldable pub route_payload : Json → Json → Json → Result String Fields
route_payload spec service expected = Base.◌>>=◌ (item "name" expected) (λ name.
    Base.◌>>=◌ (item "id" service) (λ id. Base.◌>>=◌ (item "host" spec) (λ host.
      Base.◌>>=◌ (item "path" expected) (λ path. Base.◌>>=◌ (item "method" expected) (λ method. ok (
        dict (
          ("name", name)
          ∷ ("service.id", id)
          ∷ ("hosts[]", listed host)
          ∷ ("paths[]", listed path)
          ∷ ("methods[]", listed method)
          ∷ ("protocols[]", listed (str "http"))
          ∷ ("strip_path", str "false")
          ∷ ("preserve_host", str "false")
          ∷ ("https_redirect_status_code", num (pos 426))
          ∷ [])))))))

-- `inert_payload`
unfoldable pub inert_payload : Library → Fields → Json → Fields
inert_payload library payload name = update payload (
    dict (
      ("hosts[]", listed (str "staged.invalid"))
      ∷ ("paths[]", listed (str ("/__codestra_staged/" <> text_of library name)))
      ∷ []))

-- what the route must read back as
unfoldable pub exact_route : Json → Json → Result String Json
exact_route spec expected = Base.◌>>=◌ (item "name" expected) (λ name.
    Base.◌>>=◌ (item "host" spec) (λ host. Base.◌>>=◌ (item "path" expected) (λ path.
      Base.◌>>=◌ (item "method" expected) (λ method. ok (
        obj (
          dict (
            ("name", name)
            ∷ ("hosts", listed host)
            ∷ ("paths", listed path)
            ∷ ("methods", listed method)
            ∷ ("protocols", listed (str "http"))
            ∷ ("strip_path", bool false)
            ∷ ("preserve_host", bool false)
            ∷ ("https_redirect_status_code", num (pos 426))
            ∷ [])))))))

-- `require_exact_fields(route, {…}, expected["name"])`
abbrev pub check_route : Library → Json → Json → Json → Result String (Unit {0})
check_route library spec expected route = Base.◌>>=◌ (exact_route spec expected) (λ exact.
    Base.◌>>=◌ (item "name" expected)
      (λ name. require_exact_fields route exact (text_of library name)))

-- `route.get("service", {}).get("id") != service["id"]` raises
unfoldable pub check_binding : Json → Json → Result String (Unit {0})
check_binding route service = Base.◌>>=◌ (get_in "service" "id" route) (λ bound.
    Base.◌>>=◌ (item "id" service) (λ id. require (equal bound id) "service binding drift"))

-- the entries of `obsolete`
abbrev pub obsolete : Fields → Fields → List Json
obsolete end configs = []
obsolete (field name plugin rest) configs =
    Base.if◌then◌else◌ (has_key name configs) (obsolete rest configs)
      (plugin ∷ obsolete rest configs)

module _ {S : Type 0} (library : Library) (channel : Channel S) where
  -- the one route of this name
  unfoldable pub find_route : Json → Program S Json
  find_route expected = do
    rows ← all_rows channel "/routes?size=1000"
    same ← pure (keep_if (matches "name" expected "name") rows)
    pure (one "ambiguous route" same)

  -- `ensure_route` up to the check of the service: the route, under the staged host where it is
  -- applied, and the payload under its own host
  unfoldable pub prepare_route : Json → Json → Json → Bool → Program S (Json × Fields)
  prepare_route spec service expected apply = do
    rows ← all_rows channel "/routes?size=1000"
    before ← pure (select_route rows spec expected)
    payload ← pure (route_payload spec service expected)
    name ← pure (item "name" expected)
    branch (is_true before && apply)
        (do
          id ← pure (id_text library before)
          tell channel "PATCH" ("/routes/" <> id) (obj (inert_payload library payload name)))
        (branch (not (is_true before) && apply)
          (tell channel "POST" "/routes" (obj (inert_payload library payload name)))
          (branch (not (is_true before)) (pure (err "missing route")) (pure (ok tt))))
    route ← find_route expected
    pure (assert_some route)
    branch (not apply) (pure (check_route library spec expected route)) (pure (ok tt))
    pure (check_binding route service)
    pure (ok (route, payload))

  -- the plugins of the route with this id, the obsolete ones removed
  unfoldable pub install_plugins : Fields → Json → Bool → Program S (Unit {0})
  install_plugins configs id apply = do
    branch apply
        (do
          plugins ← enabled_plugins library channel id
          for_each (obsolete plugins configs) (λ plugin. do
            plugin_id ← pure (id_text library plugin)
            delete channel ("/plugins/" <> plugin_id)))
        (pure (ok tt))
    for_each (entries configs) (λ entry. ensure_plugin library channel id entry.0 entry.1 apply)

  -- `ensure_route` up to `verify_plugins`
  unfoldable pub stage_route : Json → Json → Json → Bool → Program S (Json × Fields)
  stage_route spec service expected apply = do
    (route, payload) ← prepare_route spec service expected apply
    configs ← pure (expected_plugin_configs library spec expected)
    id ← pure (item "id" route)
    install_plugins configs id apply
    by_name ← enabled_plugins library channel id
    pure (verify_plugins library by_name expected spec)
    pure (ok (route, payload))

  -- the rest of `ensure_route`, with `--apply`: the route under its own host
  unfoldable pub expose_route : Json → Json → Json → Fields → Program S Json
  expose_route spec expected staged payload = do
    id ← pure (id_text library staged)
    tell channel "PATCH" ("/routes/" <> id) (obj payload)
    route ← find_route expected
    pure (assert_some route)
    pure (check_route library spec expected route)
    pure (ok route)

  unfoldable pub ensure_route : Json → Json → Json → Bool → Program S Json
  ensure_route spec service expected apply = do
    (staged, payload) ← stage_route spec service expected apply
    branch apply (expose_route spec expected staged payload) (pure (ok staged))
