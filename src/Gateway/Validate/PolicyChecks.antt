-- ===== src/Gateway/Validate/PolicyChecks.antt =====
-- `validate`: the schema, the policy of the template, the hosts and the upstream.
use kong.Base.{
  String, List, [], ◌∷◌, Bool, true, not, ◌||◌, Option, none, some, ok, require, ◌>>=◌, ◌>>◌, leb,
  all, elem, ◌==◌, nat_eq, string_eq,
}
use kong.Base.Text.{has_char}
use kong.Base.Bytes.{bytes_eq}
use kong.Gateway.Paths.{path_segments}
use kong.Gateway.Document.{
  Environment, development, staging, production, environment_eq, is_production, Template,
  public_oidc_api, internal_service_jwt, private_mtls_api, websocket_api, signed_webhook,
  public_health, legacy_api_key, is_oidc, http, https, Upstream, Document, Authority,
}
use kong.Gateway.Hostname.{hostname}
use kong.Gateway.Checks.{Check, each, same_list, is_some, text_is}

abbrev pub template_name : Template → String
template_name public_oidc_api = "public-oidc-api"
template_name internal_service_jwt = "internal-service-jwt"
template_name private_mtls_api = "private-mtls-api"
template_name websocket_api = "websocket-api"
template_name signed_webhook = "signed-webhook"
template_name public_health = "public-health"
template_name legacy_api_key = "legacy-api-key"

-- `POLICY_PLUGINS`
abbrev pub policy_plugins : Template → List String
policy_plugins public_oidc_api = "openid-connect" ∷ "codestra-authz" ∷ []
policy_plugins internal_service_jwt = "openid-connect" ∷ "codestra-authz" ∷ "ip-restriction" ∷ []
policy_plugins private_mtls_api =
    "openid-connect" ∷ "codestra-authz" ∷ "mtls-auth" ∷ "ip-restriction" ∷ []
policy_plugins websocket_api = "openid-connect" ∷ "codestra-authz" ∷ []
policy_plugins signed_webhook = "codestra-webhook-verifier" ∷ []
policy_plugins public_health = []
policy_plugins legacy_api_key = "key-auth" ∷ []

-- `ENVIRONMENT_ISSUERS`
abbrev issuer_of : Environment → Option String
issuer_of production = some "https://auth.codestra.co/realms/codestra"
issuer_of staging = some "https://auth-staging.codestra.co/realms/codestra"
issuer_of development = none

abbrev issuer_matches : Option String → Option String → Bool
issuer_matches none issuer = true
issuer_matches (some expected) issuer = text_is issuer expected

unfoldable pub check_policy : Authority → Document → Check
check_policy files d =
    let template = d.authentication.template in
    let policy = files.policy template in
    do
      require (files.schema_admits d) "integration_schema_invalid"
      require (files.policy_schema_admits policy) "invalid_policy_authority"
      require (policy.name == template_name template) "policy_identity_mismatch"
      require (same_list policy.plugins (policy_plugins template))
          "policy_plugin_authority_mismatch"
      require
          (all (λ ms. leb ms policy.maximum_timeout_ms)
            (d.upstream.connect_ms ∷ d.upstream.read_ms ∷ d.upstream.write_ms ∷ []))
          "policy_timeout_limit"
      require (not (is_production d.environment) || policy.new_production_allowed)
          "legacy_production_forbidden"
      require
          (not (is_oidc template)
            || issuer_matches (issuer_of d.environment) d.authentication.issuer)
          "issuer_environment_mismatch"

abbrev check_tls : Upstream → Environment → Check
check_tls u environment = elim u.protocol [
  | https ↦ require (text_is u.tls_server_name u.dns_name) "upstream_sni_mismatch"
  | http ↦ do
    require (not (is_some u.tls_server_name)) "tls_name_on_plaintext_upstream"
    require (environment == development) "upstream_tls_required"
]

abbrev check_probe : String → Check
check_probe path = do
  require (not (has_char b'{' path)) "health_path_must_be_literal"
  _ ← path_segments path
  ok tt

unfoldable pub check_upstream : Authority → Document → Check
check_upstream files d = do
  each hostname (d.host ∷ d.upstream.dns_name ∷ d.policies.redis_host ∷ [])
  require (has_char b'.' d.host) "route_host_must_be_fqdn"
  require (elem d.upstream.dns_name files.allowed_dns_names) "upstream_not_registered"
  require (elem d.policies.redis_host files.allowed_redis_hosts) "redis_not_registered"
  check_tls d.upstream d.environment
  each check_probe (d.upstream.health_path ∷ d.upstream.readiness_path ∷ [])
