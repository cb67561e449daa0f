-- ===== src/Reconcile/ControlPlane.antt =====
-- reconcile_kong_n8n_control_plane.py: what it expects of the plugins of a route.
pub mod Entities
pub mod Route
pub mod Run
pub mod Approval
pub mod DryRun
pub mod Staged
mod Tests
use kong.Base.{
  String, List, [], ◌∷◌, Bool, true, false, not, ◌&&◌, ◌||◌, Option, none, some, Result, ok, err,
  require, ◌>>=◌, ◌>>◌, all, ◌==◌, string_eq, if◌then◌else◌,
}
use kong.Base.Int.{pos}
use kong.Base.Json.{Json, null, bool, num, str, arr, obj, Fields, end, field, get}
use kong.Base.Values.{dict, texts, keys, or_null, item, iterate, is_true}
use kong.Gateway.Checks.{Check}
use kong.Reconcile.Client.{Library, ◌<>◌, text_of}
use kong.Reconcile.Fields.{require_plugin}
use kong.Reconcile.Guard.{read_claims, read_scopes, deny_lua}

-- `required_headers`
abbrev header_checks : Library → List Json → String
header_checks library [] = ""
header_checks library (header ∷ headers) =
    "if not kong.request.get_header("
    <> library.dumps header
    <> ") then return kong.response.exit(400,{error='missing_required_header'}) end;"
    <> header_checks library headers

unfoldable pub claim_guard : Library → Json → Json → Result String String
claim_guard library spec route = do
  issuer ← item "issuer" spec
  audience ← item "audience" spec
  client ← item "client_id" spec
  scope ← item "scope" route
  required ← item "required_headers" route
  headers ← iterate required
  let quoted = library.dumps audience
  ok (
      read_claims
      <> read_scopes "scopes"
      <> "if c.iss~="
      <> library.dumps issuer
      <> " then "
      <> deny_lua "401" "invalid_issuer"
      <> " end;"
      <> "if c.azp~="
      <> library.dumps client
      <> " then "
      <> deny_lua "403" "service_identity_denied"
      <> " end;"
      <> "local a=c.aud;local aud=a=="
      <> quoted
      <> ";"
      <> "if type(a)=='table' then for _,v in ipairs(a) do if v=="
      <> quoted
      <> " then aud=true end end end;"
      <> "if not aud then "
      <> deny_lua "401" "invalid_audience"
      <> " end;"
      <> "if type(c.exp)~='number' or type(c.iat)~='number' or c.exp<=c.iat or c.exp-c.iat>300 "
      <> "then "
      <> deny_lua "401" "invalid_token_lifetime"
      <> " end;"
      <> "if not scopes["
      <> library.dumps scope
      <> "] then "
      <> deny_lua "403" "insufficient_scope"
      <> " end;"
      <> header_checks library headers
      <> "local requested=kong.request.get_header('X-Tenant-ID') or '';"
      <> "if requested=='' or requested=='*' then "
      <> deny_lua "403" "tenant_denied"
      <> " end;"
      <> "local tenant_ok=c.tenant_id==requested;"
      <> "if type(c.tenant_ids)=='table' then for _,v in ipairs(c.tenant_ids) do if v==requested then tenant_ok=true end end end;"
      <> "if not tenant_ok then "
      <> deny_lua "403" "tenant_denied"
      <> " end")

-- the configuration of the Redis that counts requests
abbrev pub limiter_redis : Json
limiter_redis = obj (
    dict (
      ("host", str "codestra-redis")
      ∷ ("port", num (pos 6379))
      ∷ ("database", num (pos 0))
      ∷ ("timeout", num (pos 2000))
      ∷ ("password", str "{vault://env/kong-rate-limit-redis-password}")
      ∷ []))

abbrev pub jwt_config : Json
jwt_config = obj (
    dict (
      ("key_claim_name", str "azp")
      ∷ ("claims_to_verify", texts ("exp" ∷ []))
      ∷ ("header_names", texts ("authorization" ∷ []))
      ∷ ("run_on_preflight", bool true)
      ∷ []))

abbrev pub correlation_config : Json
correlation_config = obj (
    dict (
      ("header_name", str "X-Correlation-ID")
      ∷ ("generator", str "uuid")
      ∷ ("echo_downstream", bool true)
      ∷ []))

unfoldable pub expected_plugin_configs : Library → Json → Json → Result String Fields
expected_plugin_configs library spec route = do
  guard ← claim_guard library spec route
  max_body ← item "max_body_mb" route
  rate ← item "rate_per_minute" route
  ok (
      dict (
        ("jwt", jwt_config)
        ∷ ("post-function", obj (dict (("access", texts (guard ∷ [])) ∷ [])))
        ∷ ("request-size-limiting", obj (dict (("allowed_payload_size", max_body) ∷ [])))
        ∷ (
          "rate-limiting",
          obj (
              dict (
                ("minute", rate)
                ∷ ("policy", str "redis")
                ∷ ("fault_tolerant", bool false)
                ∷ ("redis", limiter_redis)
                ∷ ("limit_by", str "consumer")
                ∷ [])),
        )
        ∷ ("correlation-id", correlation_config)
        ∷ []))

abbrev pub has_key : String → Fields → Bool
has_key key end = false
has_key key (field k value rest) = k == key || has_key key rest

-- `set(a) == set(b)` on the keys
abbrev pub same_keys : Fields → Fields → Bool
same_keys a b = all (λ k. has_key k b) (keys a) && all (λ k. has_key k a) (keys b)

-- the loop of `verify_plugins`
unfoldable pub verify_each : Library → Json → Fields → Fields → Check
verify_each library route by_name end = ok tt
verify_each library route by_name (field name config rest) = do
  route_name ← item "name" route
  plugin ← item name (obj by_name)
  require_plugin plugin config (text_of library route_name <> "." <> name)
  verify_each library route by_name rest

unfoldable pub verify_plugins : Library → Fields → Json → Json → Check
verify_plugins library by_name route spec = do
  expected ← expected_plugin_configs library spec route
  require (same_keys by_name expected) "route plugin drift"
  verify_each library route by_name expected
