-- ===== src/Reconcile/Callback/Run.antt =====
-- reconcile_kong_callback_routes.py: the consumer, the service and the routes, and `main`. The
-- manifest and the document of the JWKS are arguments; what it returns are the rows of the evidence.
use kong.Base.{
  String, List, [], ◌∷◌, Bool, true, false, not, ◌&&◌, ◌||◌, Option, none, some, Result, ok, err,
  require, any,
}
use kong.Base as Base
use kong.Base.Json.{Json, str, arr, nil, obj, Fields, end, get}
use kong.Base.Values.{dict, is_true, or_null, get_key, get_or, item, item_in, iterate, keep_if}
use kong.Gateway.Checks.{Check}
use kong.Admin.Program.{Program, ◌>>=◌, ◌>>◌, pure, branch, for_each, for_all}
use kong.Reconcile.Client.{Library, Channel, ◌<>◌, id_text, request, request_json, all_rows, delete}
use kong.Reconcile.Fields.{one, one_of}
use kong.Reconcile.Key.{KeyCodecs, active_rsa_key, rsa_public_key_pem}
use kong.Reconcile.Campaign.Entities.{has}
use kong.Reconcile.Callback.{require_equal, by_name_of}
use kong.Reconcile.Callback.Select.{select_callback_route}
use kong.Reconcile.Callback.Verify.{verify_service, verify_callback_route, verify_callback_plugins}
use kong.Reconcile.Callback.Payloads.{
  callback_payload, quarantined, needs_quarantine, check_quarantine, is_deny, is_active_deny,
  deny_config, check_deny, Control, controls, control_payload, callback_evidence,
}

-- no plugin is a deny plugin that is enabled
abbrev pub none_active : String → List Json → Check
none_active message [] = ok tt
none_active message (row ∷ rows) = err message

-- `for field, value in credential_payload.items()`
unfoldable pub check_entries : Json → Fields → Check
check_entries actual end = ok tt
check_entries actual (Fields.field key value rest) =
    Base.◌>>◌ (require_equal (get_key key actual) (ok value)) (check_entries actual rest)

-- what `consumer` must read back as
unfoldable pub check_consumer : Json → Json → Check
check_consumer consumer expected =
    Base.◌>>◌ (require_equal (get_key "username" consumer) (item "username" expected))
      (require_equal (get_key "custom_id" consumer) (item "custom_id" expected))

-- the enabled plugins of these rows are those of the manifest
unfoldable pub check_live : Library → Json → Json → List Json → Check
check_live library spec expected rows =
    Base.◌>>=◌
      (keep_if (λ plugin. Base.◌>>=◌ (get_key "enabled" plugin) (λ v. ok (is_true v))) rows)
      (λ enabled.
        Base.◌>>=◌ (by_name_of enabled end)
          (λ found. verify_callback_plugins library found expected spec))

-- `main` after the document of the JWKS
pub record CallbackArguments : Type 0 where
  pub spec : Json
  pub jwks : Result String Json
  pub active_kid : String
  pub apply : Bool

module _ {S : Type 0} (library : Library) (channel : Channel S) where
  -- `singleton`
  unfoldable pub singleton : String → Json → Program S Json
  singleton resource name = do
    answer ←
        request channel "GET"
          ("/" <> resource <> "?" <> library.urlencode (dict (("name", name) ∷ []))) none
    rows ← pure (get_or "data" (arr nil) answer)
    pure (one_of "duplicate Kong entity" rows)

  -- the rows of `request("GET", path).get("data", [])`
  unfoldable pub read_rows : String → Program S (List Json)
  read_rows path = do
    answer ← request channel "GET" path none
    rows ← pure (get_or "data" (arr nil) answer)
    pure (iterate rows)

  -- change what is there, or create it
  unfoldable pub write : Json → String → String → Json → Program S Json
  write found change create payload =
      branch (is_true found)
        (do
          id ← pure (id_text library found)
          request channel "PATCH" (change <> id) (some payload))
        (request channel "POST" create (some payload))

  unfoldable pub write_json : Json → String → String → Json → Program S Json
  write_json found change create payload =
      branch (is_true found)
        (do
          id ← pure (id_text library found)
          request_json channel "PATCH" (change <> id) (some payload))
        (request_json channel "POST" create (some payload))

  -- with `--apply`, write it; without, it must be there
  unfoldable pub settle : Bool → Json → String → String → Json → Program S Json
  settle apply found change create payload =
      branch apply (write found change create payload)
        (branch (not (is_true found)) (pure (err "callback entity is absent")) (pure (ok found)))

  unfoldable pub settle_callback_consumer : Json → Bool → Program S Json
  settle_callback_consumer spec apply = do
    consumers ← all_rows channel "/consumers?size=1000"
    wanted ← pure (item "consumer" spec)
    username ← pure (item "username" wanted)
    same ← pure (keep_if (has "username" username) consumers)
    found ← pure (one "ambiguous Kong callback service consumer" same)
    consumer ← settle apply found "/consumers/" "/consumers" wanted
    pure (check_consumer consumer wanted)
    pure (ok consumer)

  unfoldable pub settle_callback_credential : Json → Json → String → Bool → Program S Json
  settle_callback_credential spec consumer public_key apply = do
    id ← pure (id_text library consumer)
    credentials ← read_rows ("/consumers/" <> id <> "/jwt")
    custom_id ← pure (item_in "consumer" "custom_id" spec)
    same ← pure (keep_if (has "key" custom_id) credentials)
    found ← pure (one "ambiguous Kong callback JWT credential" same)
    let payload =
        dict (
          ("key", custom_id) ∷ ("algorithm", str "RS256") ∷ ("rsa_public_key", str public_key) ∷ [])
    credential ←
        settle apply found ("/consumers/" <> id <> "/jwt/") ("/consumers/" <> id <> "/jwt")
          (obj payload)
    pure (check_entries credential payload)
    pure (ok credential)

  unfoldable pub settle_callback_service : Json → Bool → Program S Json
  settle_callback_service spec apply = do
    wanted ← pure (item "service" spec)
    name ← pure (item "name" wanted)
    found ← singleton "services" name
    settled ← settle apply found "/services/" "/services" wanted
    service ← singleton "services" name
    pure (verify_service service wanted)
    pure (ok service)

  -- the plugins of the route, if there is one
  unfoldable pub existing_plugins : Json → Program S (List Json)
  existing_plugins route =
      branch (not (is_true route)) (pure (ok []))
        (do id ← pure (id_text library route); read_rows ("/routes/" <> id <> "/plugins"))

  -- with `--apply`, put the route aside where that is needed; without, it must be there
  unfoldable pub put_aside : Json → Fields → Bool → Bool → Program S (Unit {0})
  put_aside route payload needed apply =
      branch apply
        (branch needed
          (do
            answer ←
                write_json route "/routes/" "/routes"
                  (obj (quarantined payload (not (is_true route))))
            pure (ok tt))
          (pure (ok tt)))
        (branch (not (is_true route)) (pure (err "callback route is absent")) (pure (ok tt)))

  -- the one deny plugin
  unfoldable pub find_deny : List Json → Program S Json
  find_deny plugins = do
    same ← pure (keep_if is_deny plugins)
    pure (one "ambiguous Kong callback deny plugin" same)

  -- the deny plugin, installed and read back
  unfoldable pub install_deny : Json → String → Program S (Unit {0})
  install_deny deny id = do
    answer ← write deny "/plugins/" ("/routes/" <> id <> "/plugins") deny_config
    plugins ← read_rows ("/routes/" <> id <> "/plugins")
    installed ← find_deny plugins
    pure (check_deny installed)

  -- a plugin of `controls`, written
  unfoldable pub write_control : Fields → String → Control → Program S (Unit {0})
  write_control by_name id (name, is_json, config) = do
    let current = or_null (get name by_name)
    let payload = obj (control_payload (name, is_json, config))
    branch is_json
        (do
          answer ← write_json current "/plugins/" ("/routes/" <> id <> "/plugins") payload
          pure (ok tt))
        (do
          answer ← write current "/plugins/" ("/routes/" <> id <> "/plugins") payload
          pure (ok tt))

  -- a plugin that is removed
  unfoldable pub remove_plugin : Json → Program S (Unit {0})
  remove_plugin plugin = do id ← pure (id_text library plugin); delete channel ("/plugins/" <> id)

  -- the route under its own host, and without a deny plugin
  unfoldable pub restore_route : Json → Json → Json → Fields → String → Program S Json
  restore_route spec service expected payload id = do
    answer ← request_json channel "PATCH" ("/routes/" <> id) (some (obj payload))
    name ← pure (item "name" expected)
    route ← singleton "routes" name
    service_id ← pure (item "id" service)
    host ← pure (item "host" spec)
    pure (verify_callback_route route expected service_id host)
    route_id ← pure (id_text library route)
    plugins ← read_rows ("/routes/" <> route_id <> "/plugins")
    stale ← pure (keep_if is_deny plugins)
    for_each stale remove_plugin
    remaining ← read_rows ("/routes/" <> route_id <> "/plugins")
    active ← pure (keep_if is_active_deny remaining)
    pure (none_active "callback deny plugin removal readback failed" active)
    pure (ok route)

  -- the route, put aside or verified, and the plugins that it has
  unfoldable pub stage_callback_route : Json → Json → Json → Bool → Program S (Json × Fields × Bool)
  stage_callback_route spec service expected apply = do
    routes ← all_rows channel "/routes?size=1000"
    host ← pure (item "host" spec)
    route ← pure (select_callback_route routes expected host apply)
    existing ← existing_plugins route
    existing_by_name ← pure (by_name_of existing end)
    needed ← pure (needs_quarantine library spec service expected route existing_by_name)
    payload ← pure (callback_payload spec service expected)
    put_aside route payload needed apply
    name ← pure (item "name" expected)
    current ← singleton "routes" name
    service_id ← pure (item "id" service)
    branch (apply && needed) (pure (check_quarantine current (not (is_true route))))
        (pure (verify_callback_route current expected service_id host))
    pure (ok (current, payload, needed))

  -- the deny plugin and the controls
  unfoldable pub install_controls : Json → Json → String → Bool → Bool → Program S (Unit {0})
  install_controls spec expected id needed apply = do
    plugins ← read_rows ("/routes/" <> id <> "/plugins")
    by_name ← pure (by_name_of plugins end)
    denies ← pure (keep_if is_deny plugins)
    deny ← pure (one "ambiguous Kong callback deny plugin" denies)
    active ← pure (keep_if is_active_deny denies)
    branch (not apply) (pure (none_active "callback route has an enabled deny plugin" active))
        (pure (ok tt))
    branch (apply && needed) (install_deny deny id) (pure (ok tt))
    wanted ← pure (controls library spec expected)
    branch apply (for_each wanted (write_control by_name id)) (pure (ok tt))

  -- the enabled plugins, read back and verified
  unfoldable pub verify_live : Json → Json → String → Program S (Unit {0})
  verify_live spec expected id = do
    after ← read_rows ("/routes/" <> id <> "/plugins")
    pure (check_live library spec expected after)

  unfoldable pub protect_route : Json → Json → String → Bool → Bool → Program S (Unit {0})
  protect_route spec expected id needed apply = do
    install_controls spec expected id needed apply
    verify_live spec expected id

  -- the route, put aside or verified, and its plugins: the route, its id, and its payload
  unfoldable pub shield_route : Json → Json → Json → Bool → Program S (Json × String × Fields)
  shield_route spec service expected apply = do
    (staged, payload, needed) ← stage_callback_route spec service expected apply
    id ← pure (id_text library staged)
    protect_route spec expected id needed apply
    pure (ok (staged, id, payload))

  -- the rest of the body of the loop, with `--apply`: the route under its own host
  unfoldable pub finish_route : Json → Json → Json → Json → Json → Fields → String → Program S Json
  finish_route spec service consumer credential expected payload id = do
    route ← restore_route spec service expected payload id
    pure (callback_evidence expected service route consumer credential)

  -- the body of the loop over the routes
  unfoldable pub ensure_callback_route : Json → Json → Json → Json → Json → Bool → Program S Json
  ensure_callback_route spec service consumer credential expected apply = do
    (staged, id, payload) ← shield_route spec service expected apply
    branch apply (finish_route spec service consumer credential expected payload id)
        (pure (callback_evidence expected service staged consumer credential))

  unfoldable pub reconcile_callback : KeyCodecs → CallbackArguments → Program S (List Json)
  reconcile_callback codecs args = do
    document ← pure args.jwks
    signing_key ← pure (active_rsa_key document args.active_kid)
    public_key ← pure (rsa_public_key_pem codecs signing_key)
    consumer ← settle_callback_consumer args.spec args.apply
    credential ← settle_callback_credential args.spec consumer public_key args.apply
    service ← settle_callback_service args.spec args.apply
    listed ← pure (item "routes" args.spec)
    routes ← pure (iterate listed)
    for_all routes (λ expected.
        ensure_callback_route args.spec service consumer credential expected args.apply)
