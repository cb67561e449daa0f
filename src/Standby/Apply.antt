-- ===== src/Standby/Apply.antt =====
-- apply_kong_standby.py. The configuration is an argument, and so is the probe of the data plane:
-- the code of the answer where it is an error, and `none` where it is none or no answer comes.
pub mod Log
pub mod Owned
use Prim.Native.String
use kong.Base.{
  ℕ, zero, suc, String, List, [], ◌∷◌, Bool, true, false, not, ◌&&◌, Option, none, some, Result, ok,
  err, require, all, elem, ◌==◌, nat_eq, string_eq, if◌then◌else◌,
}
use kong.Base as Base
use kong.Base.Int.{pos}
use kong.Base.Json.{Json, null, bool, num, str, arr, nil, cons, obj, Items, Fields, end}
use kong.Base.Values.{
  dict, texts, members, is_true, equal, get_key, get_else, item, as_text, iterate, keep_if, is_in,
}
use kong.Gateway.Checks.{Check}
use kong.Admin.Program.{Program, ◌>>=◌, ◌>>◌, pure, branch, for_each, for_all}
use kong.Reconcile.Client.{◌<>◌}
use kong.Reconcile.Campaign.Entities.{has}
use kong.Standby.{tag, Admin, entity_id, is_owned}

abbrev pub host : String
host = "kong-standby.internal.codestra.agency"

abbrev pub expected_plugins : List String
expected_plugins =
    "request-transformer" ∷ "ip-restriction" ∷ "request-size-limiting" ∷ "rate-limiting" ∷ []

abbrev is_dict : Json → Bool
is_dict (obj d) = true
is_dict _ = false

-- a list whose members are dictionaries
abbrev pub dict_rows : Json → Result String (List Json)
dict_rows (arr xs) =
    if all is_dict (members xs)
    then ok (members xs)
    else err "incomplete or invalid Kong collection"
dict_rows value = err "incomplete or invalid Kong collection"

unfoldable pub collection_rows : Json → Result String (List Json)
collection_rows (obj response) = Base.◌>>=◌ (get_key "data" (obj response)) (λ data_.
    Base.◌>>=◌ (dict_rows data_) (λ rows. Base.◌>>=◌ (get_key "next" (obj response)) (λ next.
      Base.◌>>◌ (require (not (is_true next)) "incomplete or invalid Kong collection") (ok rows))))
collection_rows response = err "invalid Kong response"

-- the names of the plugins that are enabled, which must be texts
unfoldable pub enabled_names : List Json → Result String (List String)
enabled_names [] = ok []
enabled_names (plugin ∷ rest) = Base.◌>>=◌ (get_key "enabled" plugin) (λ enabled.
    Base.◌>>=◌ (get_key "name" plugin) (λ name.
      Base.◌>>=◌ (enabled_names rest)
        (λ names. if is_true enabled then named name names else ok names)))
  where
    named : Json → List String → Result String (List String)
    named (str text) names = ok (text ∷ names)
    named value names = err "invalid plugin read-back"

unfoldable pub verify_plugin_set : List Json → Check
verify_plugin_set plugins = Base.◌>>=◌ (enabled_names plugins) (λ names.
    require (all (λ n. elem n expected_plugins) names && all (λ n. elem n names) expected_plugins)
      "plugin read-back failed")

-- `TAG not in (row.get("tags") or [])`
abbrev pub is_unowned : Json → Result String Bool
is_unowned row = Base.◌>>=◌ (is_owned row) (λ owned. ok (not owned))

-- the identity of the entity that is there, or `None`
unfoldable pub existing_identity : List Json → Result String (Option String)
existing_identity [] = ok none
existing_identity (row ∷ []) = Base.◌>>=◌ (is_owned row) (λ owned.
    Base.◌>>◌ (require owned "refusing to adopt unowned Kong entity") (
      Base.◌>>=◌ (get_key "id" row)
        (λ id. Base.◌>>=◌ (entity_id id) (λ identifier. ok (some identifier)))))
existing_identity (row ∷ second ∷ rows) = err "ambiguous Kong entity"

abbrev pub no_unowned : List Json → Check
no_unowned [] = ok tt
no_unowned (row ∷ rows) = err "refusing to replace unowned route plugin"

-- the identity of the one row, or `None`
abbrev pub matched_identity : List Json → Result String (Option String)
matched_identity [] = ok none
matched_identity (row ∷ []) =
    Base.◌>>=◌ (get_key "id" row)
      (λ id. Base.◌>>=◌ (entity_id id) (λ identifier. ok (some identifier)))
matched_identity (row ∷ second ∷ rows) = err "ambiguous managed route plugin"

-- the identity of the managed plugin of this name, or `None`
unfoldable pub managed_identity : String → List Json → Result String (Option String)
managed_identity name current = Base.◌>>=◌ (keep_if (has "name" (str name)) current) (λ same_name.
    Base.◌>>=◌ (keep_if is_unowned same_name) (λ unowned.
      Base.◌>>◌ (no_unowned unowned) (Base.◌>>=◌ (keep_if is_owned same_name) matched_identity)))

-- the payloads of a service and of its route
unfoldable pub service_payload : Json → Result String Json
service_payload item_ = Base.◌>>=◌ (item "name" item_) (λ name.
    Base.◌>>=◌ (item "connectTimeoutMs" item_) (λ connect.
      Base.◌>>=◌ (item "writeTimeoutMs" item_) (λ write.
        Base.◌>>=◌ (item "readTimeoutMs" item_) (λ read. ok (
          obj (
            dict (
              ("name", name)
              ∷ ("protocol", str "http")
              ∷ ("host", str "codestra-kong-standby-auth")
              ∷ ("port", num (pos 8080))
              ∷ ("path", null)
              ∷ ("retries", num (pos 0))
              ∷ ("connect_timeout", connect)
              ∷ ("write_timeout", write)
              ∷ ("read_timeout", read)
              ∷ ("tags", texts (tag ∷ "mock-only" ∷ "no-provider-delivery" ∷ []))
              ∷ [])))))))

unfoldable pub standby_route : Json → String → String → Result String Json
standby_route item_ route_name service_id = Base.◌>>=◌ (item "path" item_) (λ path.
    Base.◌>>=◌ (item "methods" item_) (λ methods. ok (
      obj (
        dict (
          ("name", str route_name)
          ∷ ("service", obj (dict (("id", str service_id) ∷ [])))
          ∷ ("hosts", texts (host ∷ []))
          ∷ ("paths", arr (cons path nil))
          ∷ ("methods", methods)
          ∷ ("protocols", texts ("http" ∷ "https" ∷ []))
          ∷ ("strip_path", bool false)
          ∷ ("preserve_host", bool false)
          ∷ ("tags", texts (tag ∷ "private-staging-only" ∷ []))
          ∷ [])))))

abbrev pub plugin_payload : String → Fields → Json
plugin_payload name config = obj (
    dict (
      ("name", str name)
      ∷ ("enabled", bool true)
      ∷ ("config", obj config)
      ∷ ("tags", texts (tag ∷ []))
      ∷ []))

-- `route.get("hosts") != [HOST]` or no tag raises
unfoldable pub check_isolation : Json → Result String String
check_isolation route = Base.◌>>=◌ (get_key "hosts" route) (λ hosts.
    Base.◌>>◌ (require (equal hosts (texts (host ∷ []))) "route isolation read-back failed") (
      Base.◌>>=◌ (is_owned route) (λ owned.
        Base.◌>>◌ (require owned "route isolation read-back failed")
          (Base.◌>>=◌ (get_key "id" route) entity_id))))

abbrev pub only_row : List Json → Result String Json
only_row (row ∷ []) = ok row
only_row rows = err "route read-back failed"

module _ {S : Type 0} (admin : Admin S) where
  -- the first page of what the path lists
  unfoldable pub page : String → Program S (List Json)
  page path = do response ← admin.send "GET" path none; pure (collection_rows response)

  -- change the entity with the identity, or create one
  unfoldable pub put_entity : Option String → String → String → Json → Program S Json
  put_entity none change create payload = admin.send "POST" create (some payload)
  put_entity (some identifier) change create payload =
      admin.send "PATCH" (change <> identifier) (some payload)

  unfoldable pub upsert : String → Json → Json → Program S Json
  upsert collection name payload = do
    existing ← page ("/" <> collection <> "?" <> admin.urlencode name)
    identity ← pure (existing_identity existing)
    put_entity identity ("/" <> collection <> "/") ("/" <> collection) payload

  unfoldable pub plugin : String → String → Fields → Program S (Unit {0})
  plugin route name config = do
    route_id ← pure (entity_id (str route))
    current ← page ("/routes/" <> route_id <> "/plugins?size=1000")
    identity ← pure (managed_identity name current)
    let payload = plugin_payload name config
    answer ← put_entity identity "/plugins/" ("/routes/" <> route_id <> "/plugins") payload
    pure (ok tt)

  -- the body of the first loop of `main`: the name of the route
  unfoldable pub apply_service : Json → Json → Program S String
  apply_service config item_ = do
    name ← pure (item "name" item_)
    service_fields ← pure (service_payload item_)
    service ← upsert "services" name service_fields
    found ← pure (get_key "id" service)
    service_id ← pure (entity_id found)
    base ← pure (as_text name)
    let route_name = base <> "-route"
    route_fields ← pure (standby_route item_ route_name service_id)
    route ← upsert "routes" (str route_name) route_fields
    held ← pure (get_key "id" route)
    route_id ← pure (entity_id held)
    stripped ← pure (item "trustedHeadersToStrip" config)
    plugin route_id "request-transformer"
        (dict (("remove", obj (dict (("headers", stripped) ∷ []))) ∷ []))
    plugin route_id "ip-restriction" (
        dict (
          ("allow", texts ("127.0.0.1" ∷ "172.19.0.1" ∷ []))
          ∷ ("deny", null)
          ∷ ("status", num (pos 403))
          ∷ []))
    limit ← pure (item "bodyLimitBytes" item_)
    plugin route_id "request-size-limiting" (
        dict (
          ("allowed_payload_size", limit)
          ∷ ("size_unit", str "bytes")
          ∷ ("require_content_length", bool true)
          ∷ []))
    minute ← pure (item "ratePerMinute" item_)
    plugin route_id "rate-limiting" (
        dict (
          ("minute", minute)
          ∷ ("limit_by", str "ip")
          ∷ ("policy", str "local")
          ∷ ("fault_tolerant", bool false)
          ∷ ("hide_client_headers", bool false)
          ∷ []))
    pure (ok route_name)

  -- the body of the second loop of `main`
  unfoldable pub read_back : String → Program S (Unit {0})
  read_back route_name = do
    routes ← page ("/routes?" <> admin.urlencode (str route_name))
    route ← pure (only_row routes)
    route_id ← pure (check_isolation route)
    plugins ← page ("/routes/" <> route_id <> "/plugins?size=1000")
    pure (verify_plugin_set plugins)

  -- the attempts that are left
  unfoldable pub synchronize : Program S (Option ℕ) → ℕ → Program S (Unit {0})
  synchronize probe zero = pure (ok tt)
  synchronize probe (suc attempts) =
      let again = synchronize probe attempts in
      probe >>= λ answer.
      branch (is_denied answer) (pure (ok tt))
        (branch (attempts == 0) (pure (err "Kong data-plane policy synchronization failed")) again)
    where
      is_denied : Option ℕ → Bool
      is_denied none = false
      is_denied (some status) = status == 401

  -- `main`: the names of the routes
  unfoldable pub apply_standby : Program S (Option ℕ) → Json → Program S (List String)
  apply_standby probe config = do
    services ← pure (item "services" config)
    listed ← pure (iterate services)
    applied ← for_all listed (apply_service config)
    for_each applied read_back
    synchronize probe 10
    admin.confirm_unchanged
    pure (ok applied)
