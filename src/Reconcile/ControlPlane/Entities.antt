-- ===== src/Reconcile/ControlPlane/Entities.antt =====
-- reconcile_kong_n8n_control_plane.py: the plugins of a route, the service and the consumer.
use kong.Base.{
  String, List, [], ◌∷◌, Bool, true, false, not, ◌&&◌, Option, none, some, Result, ok, err,
}
use kong.Base as Base
use kong.Base.Json.{Json, null, str, arr, nil, obj, Fields, get}
use kong.Base.Values.{dict, or_null, is_true, equal, get_key, get_or, item, iterate, keep_if}
use kong.Admin.Program.{Program, ◌>>=◌, ◌>>◌, pure, branch}
use kong.Reconcile.Client.{Library, Channel, ◌<>◌, text_of, id_text, request, all_rows, tell}
use kong.Reconcile.Fields.{fields_of, one, one_of, require_exact_fields, require_plugin, named_form}
use kong.Reconcile.Plugins.{enabled_rows}

-- `row.get(key) == expected[wanted]`
unfoldable pub matches : String → Json → String → Json → Result String Bool
matches key expected wanted row =
    Base.◌>>=◌ (get_key key row)
      (λ found. Base.◌>>=◌ (item wanted expected) (λ value. ok (equal found value)))

-- `{k: v}` of `urlencode`
abbrev pub named : Json → Fields
named name = dict (("name", name) ∷ [])

-- `assert value is not None`
unfoldable pub assert_some : Json → Result String (Unit {0})
assert_some null = err "AssertionError"
assert_some value = ok tt

module _ {S : Type 0} (library : Library) (channel : Channel S) where
  unfoldable pub enabled_plugins : Json → Program S Fields
  enabled_plugins route_id = do
    rows ← all_rows channel ("/routes/" <> text_of library route_id <> "/plugins?size=1000")
    pure (enabled_rows "duplicate enabled route plugins" rows)

  unfoldable pub ensure_plugin : Json → String → Json → Bool → Program S (Unit {0})
  ensure_plugin route_id name config apply = do
    plugins ← enabled_plugins route_id
    let existing = or_null (get name plugins)
    fields ← pure (fields_of config)
    let payload = obj (named_form name fields)
    branch (is_true existing && apply)
        (do id ← pure (id_text library existing); tell channel "PATCH" ("/plugins/" <> id) payload)
        (branch (not (is_true existing) && apply)
          (tell channel "POST" ("/routes/" <> text_of library route_id <> "/plugins") payload)
          (branch (not (is_true existing)) (pure (err ("missing route plugin: " <> name)))
            (pure (ok tt))))
    after ← enabled_plugins route_id
    current ← pure (item name (obj after))
    pure (require_plugin current config (name <> " plugin"))

  -- `one(request(…).get("data", []), label)` of the services of this name
  unfoldable pub find_service : Json → Program S Json
  find_service expected = do
    name ← pure (item "name" expected)
    answer ← request channel "GET" ("/services?" <> library.urlencode (named name)) none
    rows ← pure (get_or "data" (arr nil) answer)
    pure (one_of "ambiguous N8N control-plane service" rows)

  unfoldable pub ensure_service : Json → Bool → Program S Json
  ensure_service spec apply = do
    expected ← pure (item "service" spec)
    service ← find_service expected
    branch (is_true service && apply)
        (do id ← pure (id_text library service); tell channel "PATCH" ("/services/" <> id) expected)
        (branch (not (is_true service) && apply) (tell channel "POST" "/services" expected) (
          branch (not (is_true service)) (pure (err "N8N control-plane service is missing"))
            (pure (ok tt))))
    found ← find_service expected
    pure (assert_some found)
    pure (require_exact_fields found expected "N8N control-plane service")
    pure (ok found)

  -- the consumer of this name
  unfoldable pub find_consumer : Json → Program S Json
  find_consumer expected = do
    rows ← all_rows channel "/consumers?size=1000"
    same ← pure (keep_if (matches "username" expected "username") rows)
    pure (one "ambiguous N8N service consumer" same)

  -- the credential of the client
  unfoldable pub find_credential : Json → String → Program S Json
  find_credential spec id = do
    answer ← request channel "GET" ("/consumers/" <> id <> "/jwt") none
    data_ ← pure (get_or "data" (arr nil) answer)
    rows ← pure (iterate data_)
    same ← pure (keep_if (matches "key" spec "client_id") rows)
    pure (one "ambiguous N8N JWT credential" same)

  unfoldable pub ensure_consumer : Json → String → Bool → Program S Json
  ensure_consumer spec public_key apply = do
    expected ← pure (item "consumer" spec)
    before ← find_consumer expected
    branch (is_true before && apply)
        (do id ← pure (id_text library before); tell channel "PATCH" ("/consumers/" <> id) expected)
        (branch (not (is_true before) && apply) (tell channel "POST" "/consumers" expected) (
          branch (not (is_true before)) (pure (err "N8N service consumer is missing"))
            (pure (ok tt))))
    consumer ← find_consumer expected
    pure (assert_some consumer)
    pure (require_exact_fields consumer expected "N8N service consumer")
    id ← pure (id_text library consumer)
    held ← find_credential spec id
    client ← pure (item "client_id" spec)
    let payload = obj (
        dict
          (("key", client) ∷ ("algorithm", str "RS256") ∷ ("rsa_public_key", str public_key) ∷ []))
    branch (is_true held && apply)
        (do
          held_id ← pure (id_text library held)
          tell channel "PATCH" ("/consumers/" <> id <> "/jwt/" <> held_id) payload)
        (branch (not (is_true held) && apply)
          (tell channel "POST" ("/consumers/" <> id <> "/jwt") payload)
          (branch (not (is_true held)) (pure (err "N8N JWT credential is missing")) (pure (ok tt))))
    credential ← find_credential spec id
    pure (assert_some credential)
    pure (require_exact_fields credential payload "N8N JWT credential")
    pure (ok consumer)
