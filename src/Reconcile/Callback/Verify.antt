-- ===== src/Reconcile/Callback/Verify.antt =====
-- reconcile_kong_callback_routes.py: what must read back of the service, a route and its plugins.
use kong.Base.{
  String, List, [], ◌∷◌, Bool, true, false, Result, ok, ◌>>=◌, ◌>>◌, require, all, if◌then◌else◌,
}
use kong.Base.Int.{pos}
use kong.Base.Json.{Json, null, bool, num, str, arr, nil, cons, obj, Fields, end, get}
use kong.Base.Values.{is_true, or_null, get_key, get_else, get_in, item, item_in, texts}
use kong.Gateway.Checks.{Check}
use kong.Reconcile.Client.{Library, ◌<>◌}
use kong.Reconcile.Guard.{read_claims, read_scopes, deny_lua}
use kong.Reconcile.ControlPlane.{has_key}
use kong.Reconcile.Callback.{require_equal, sorted_value, succeeds}

abbrev same_field : Json → Json → String → Check
same_field service expected field = require_equal (get_key field service) (item field expected)

unfoldable pub verify_service : Json → Json → Check
verify_service service expected = do
  same_field service expected "name"
  same_field service expected "protocol"
  same_field service expected "host"
  same_field service expected "port"
  same_field service expected "retries"
  same_field service expected "connect_timeout"
  same_field service expected "read_timeout"
  same_field service expected "write_timeout"

-- `require_equal(route.get(field) or [], [], …)`
abbrev no_values : Json → String → Check
no_values route field = require_equal (get_else field (arr nil) route) (ok (arr nil))

unfoldable pub verify_callback_route : Json → Json → Json → Json → Check
verify_callback_route route expected service_id host = do
  require_equal (get_in "service" "id" route) (ok service_id)
  require_equal (get_key "hosts" route) (ok (arr (cons host nil)))
  require_equal (get_key "paths" route) (item "paths" expected)
  require_equal (get_else "methods" (arr nil) route >>= sorted_value)
      (item "methods" expected >>= sorted_value)
  require_equal (get_key "protocols" route) (ok (texts ("http" ∷ [])))
  require_equal (get_key "strip_path" route) (item "strip_path" expected)
  require_equal (get_key "preserve_host" route) (ok (bool true))
  require_equal (get_key "https_redirect_status_code" route) (ok (num (pos 426)))
  require_equal (get_else "headers" (obj end) route) (ok (obj end))
  no_values route "snis"
  no_values route "sources"
  no_values route "destinations"

unfoldable pub route_matches : Json → Json → Json → Json → Result String Bool
route_matches route expected service_id host =
    if is_true route
    then succeeds (verify_callback_route route expected service_id host)
    else ok false

unfoldable pub callback_guard : Library → Json → Json → Result String String
callback_guard library spec required_scope = do
  issuer ← item "issuer" spec
  audience ← item "audience" spec
  tenant ← item "tenant" spec
  campaign ← item "campaign" spec
  role ← item "requiredRole" spec
  client ← item_in "consumer" "custom_id" spec
  let quoted = library.dumps audience
  ok (
      read_claims
      <> read_scopes "scopes"
      <> "local campaigns={};for _,x in ipairs(c.campaigns or {}) do campaigns[x]=true end;"
      <> "local roles={};for _,x in ipairs((c.realm_access or {}).roles or {}) do roles[x]=true end;"
      <> "if c.iss~="
      <> library.dumps issuer
      <> " then "
      <> deny_lua "401" "invalid_issuer"
      <> " end;"
      <> "if c.azp~="
      <> library.dumps client
      <> " then "
      <> deny_lua "403" "service_identity_denied"
      <> " end;"
      <> "local a=c.aud;local aud=a=="
      <> quoted
      <> ";"
      <> "if type(a)=='table' then for _,v in ipairs(a) do if v=="
      <> quoted
      <> " then aud=true end end end;"
      <> "if not aud then "
      <> deny_lua "401" "invalid_audience"
      <> " end;"
      <> "if c.tenant_id~="
      <> library.dumps tenant
      <> " or not campaigns["
      <> library.dumps campaign
      <> "] then "
      <> deny_lua "403" "tenant_campaign_denied"
      <> " end;"
      <> "if not roles["
      <> library.dumps role
      <> "] then "
      <> deny_lua "403" "role_denied"
      <> " end;"
      <> "if not scopes["
      <> library.dumps required_scope
      <> "] then "
      <> deny_lua "403" "insufficient_scope"
      <> " end")

-- a plugin that is there and enabled
abbrev is_active : Json → Result String Bool
is_active plugin =
    if is_true plugin
    then (get_key "enabled" plugin >>= λ enabled. ok (is_true enabled))
    else ok false

unfoldable pub verify_jwt : Json → Check
verify_jwt config = do
  require_equal (get_key "header_names" config) (ok (texts ("authorization" ∷ [])))
  require_equal (get_key "uri_param_names" config) (ok (arr nil))
  require_equal (get_key "cookie_names" config) (ok (arr nil))
  require_equal (get_key "claims_to_verify" config) (ok (texts ("exp" ∷ [])))
  require_equal (get_key "key_claim_name" config) (ok (str "azp"))
  require_equal (get_key "run_on_preflight" config) (ok (bool false))
  require_equal (get_key "secret_is_base64" config) (ok (bool false))
  require_equal (get_key "anonymous" config) (ok null)

unfoldable pub verify_auth_plugins : Library → Fields → Json → Json → Check
unfolding get
verify_auth_plugins library by_name expected spec = do
  let jwt = or_null (get "jwt" by_name)
  let guard = or_null (get "post-function" by_name)
  jwt_active ← is_active jwt
  guard_active ← if jwt_active then is_active guard else ok false
  require guard_active "callback route lacks enabled JWT claim enforcement"
  config ← item "config" jwt
  verify_jwt config
  scope ← item "requiredScope" expected
  lua ← callback_guard library spec scope
  require_equal (item "config" guard >>= get_key "access") (ok (texts (lua ∷ [])))

unfoldable pub auth_matches : Library → Fields → Json → Json → Result String Bool
auth_matches library by_name expected spec =
    succeeds (verify_auth_plugins library by_name expected spec)

abbrev pub required_plugins : List String
required_plugins =
    "request-size-limiting" ∷ "rate-limiting" ∷ "correlation-id" ∷ "jwt" ∷ "post-function" ∷ []

-- `by_name[name]["config"]`
abbrev config_of : String → Fields → Result String Json
config_of name by_name = item name (obj by_name) >>= item "config"

unfoldable pub verify_callback_plugins : Library → Fields → Json → Json → Check
verify_callback_plugins library by_name expected spec = do
  require (all (λ name. has_key name by_name) required_plugins)
      "callback route lacks security plugins"
  require_equal (config_of "request-size-limiting" by_name >>= get_key "allowed_payload_size")
      (item "maxBodyMb" expected)
  rate ← config_of "rate-limiting" by_name
  require_equal (get_key "minute" rate) (item "ratePerMinute" expected)
  require_equal (get_key "policy" rate) (ok (str "redis"))
  require_equal (get_key "fault_tolerant" rate) (ok (bool false))
  require_equal (get_else "redis" (obj end) rate >>= get_key "host") (ok (str "codestra-redis"))
  require_equal (get_key "limit_by" rate) (ok (str "ip"))
  correlation ← config_of "correlation-id" by_name
  require_equal (get_key "header_name" correlation) (ok (str "X-Correlation-ID"))
  require_equal (get_key "generator" correlation) (ok (str "uuid"))
  require_equal (get_key "echo_downstream" correlation) (ok (bool true))
  verify_auth_plugins library by_name expected spec
