-- ===== src/Gateway/Tests.antt =====
-- Sets of integrations that are accepted, and one with a collision.
use kong.Base.{
  String, List, [], ◌∷◌, true, false, none, some, ◌≡◌, ◌↔◌, refl, ok, err, ◌==◌, string_eq,
}
use kong.Gateway.Paths.{path_segments, check_parameters}
use kong.Gateway.Overlap.{Match, exact, prefix, Takes, overlaps}
use kong.Gateway.Overlap.Decides.{overlaps_iff}
use kong.Gateway.Document.{
  production, Template, public_oidc_api, open_, https, Upstream, Date, Authentication, Policies,
  Route, Document, Policy, Authority,
}
use kong.Gateway.Validate.{validate}
use kong.Gateway.Hostname.{hostname}
use kong.Gateway.Validate.PolicyChecks.{check_policy, check_upstream, policy_plugins, template_name}
use kong.Gateway.Validate.NetworkChecks.{check_network_policy}
use kong.Gateway.Validate.FieldChecks.{check_authentication}
use kong.Gateway.Validate.RouteChecks.{check_route, check_routes}
use kong.Gateway.Set.{validate_set, add_documents, add_routes, add_operations, check_collision}
use kong.Gateway.Set.Unambiguous.{IsUnambiguous, table_of, validate_set-IsUnambiguous}

abbrev policy_of : Template → Policy
policy_of template = record {
  name = template_name template;
  plugins = policy_plugins template;
  maximum_timeout_ms = 60_000;
  maximum_body_bytes = 1_048_576;
  new_production_allowed = true;
}

abbrev files : Authority
files = record {
  policy = policy_of;
  allowed_dns_names = "kong.codestra.internal" ∷ [];
  allowed_redis_hosts = "redis.codestra.internal" ∷ [];
  known_scopes = "sms.send" ∷ [];
  known_roles = "operator" ∷ [];
  is_file = λ path. path == "operations/runbooks/sms.md";
  schema_admits = λ d. true;
  policy_schema_admits = λ p. true;
  network_prefix = λ network. some 24;
}

abbrev today : Date
today = record { year = 2026; month = 1; day = 1 }

abbrev upstream : Upstream
upstream = record {
  service = "middleware";
  dns_name = "kong.codestra.internal";
  protocol = https;
  port = 8443;
  health_path = "/healthz";
  readiness_path = "/readyz";
  connect_ms = 1000;
  read_ms = 5000;
  write_ms = 5000;
  retries = 0;
  by_middleware = true;
  tls_server_name = some "kong.codestra.internal";
}

abbrev authentication : Authentication
authentication = record {
  template = public_oidc_api;
  issuer = some "https://auth.codestra.co/realms/codestra";
  audience = some "kong";
  authorized_parties = some ("portal" ∷ []);
  scopes = some ("sms.send" ∷ []);
  roles = some ("operator" ∷ []);
  tenant_claim = some "tenant";
  ca_certificate_ids = none;
  secret_ref = none;
  key_id = none;
  legacy_sunset = none;
}

abbrev policies : Policies
policies = record {
  source_allowlist = [];
  cors_origins = "https://portal.codestra.co" ∷ [];
  require_correlation_id = true;
  redis_host = "redis.codestra.internal";
  redis_password_ref = "{vault://env/redis-password}";
}

abbrev route : String → String → Match → String → Route
route id path match operation = record {
  id = id;
  path = path;
  match = match;
  methods = "POST" ∷ [];
  operation_ids = operation ∷ [];
  scopes = "sms.send" ∷ [];
  max_body_bytes = 65_536;
  rate_per_minute = 60;
}

abbrev document : String → List Route → Document
document id routes = record {
  id = id;
  environment = production;
  is_public_data = false;
  exposure = open_;
  host = "api.codestra.co";
  upstream = upstream;
  routes = routes;
  authentication = authentication;
  policies = policies;
  runbook = "operations/runbooks/sms.md";
}

abbrev sms : Document
sms = document "sms" (
    route "send" "/v1/sms/{tenant}/send" exact "sendSms"
    ∷ route "receipts" "/v1/receipts" prefix "readReceipts"
    ∷ [])

abbrev email : Document
email = document "email" (route "send" "/v1/email" prefix "sendEmail" ∷ [])

-- a parameter takes what the literal of another document takes
abbrev wide : Document
wide = document "wide" (route "any" "/v1/{channel}" prefix "sendAny" ∷ [])

accepted : validate_set files today (sms ∷ email ∷ []) ≡ ok (sms ∷ email ∷ [])
unfolding validate_set add_documents add_routes add_operations check_collision overlaps validate
    check_policy check_upstream check_network_policy check_authentication check_route check_routes
    path_segments check_parameters hostname
accepted = refl

collides : validate_set files today (sms ∷ email ∷ wide ∷ []) ≡ err "ambiguous_route_collision"
unfolding validate_set add_documents add_routes add_operations check_collision overlaps validate
    check_policy check_upstream check_network_policy check_authentication check_route check_routes
    path_segments check_parameters hostname
collides = refl

-- The routes of the two integrations are apart.
validate_set-IsUnambiguous_example : IsUnambiguous (table_of (sms ∷ email ∷ []))
validate_set-IsUnambiguous_example =
    validate_set-IsUnambiguous files today (sms ∷ email ∷ []) (sms ∷ email ∷ []) accepted

overlaps_iff_example : (overlaps prefix "/v1/{channel}" exact "/v1/sms/send" ≡ ok true) ↔ (
    (request : List String) × Takes prefix ("v1" ∷ "{channel}" ∷ []) request
    × Takes exact ("v1" ∷ "sms" ∷ "send" ∷ []) request)
unfolding path_segments check_parameters
overlaps_iff_example =
    overlaps_iff prefix exact "/v1/{channel}" "/v1/sms/send" ("v1" ∷ "{channel}" ∷ [])
      ("v1" ∷ "sms" ∷ "send" ∷ []) refl refl
