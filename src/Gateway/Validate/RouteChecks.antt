-- ===== src/Gateway/Validate/RouteChecks.antt =====
-- `validate`: the loop over the routes.
use kong.Base.{
  String, List, [], ◌∷◌, ◌++◌, Bool, true, false, not, ◌&&◌, ◌||◌, ok, require, ◌>>=◌, ◌>>◌, leb,
  any, length, elem, subset, ◌==◌, nat_eq, string_eq, if◌then◌else◌,
}
use kong.Base.Bytes.{bytes_eq}
use kong.Gateway.Paths.{path_segments}
use kong.Gateway.Overlap.{is_prefix}
use kong.Gateway.Document.{
  environment_eq, Template, websocket_api, public_health, is_oidc, Route, Document, Authority,
}
use kong.Gateway.Checks.{Check, same_list, list_of, is_empty_list}

abbrev is_health : Template → Bool
is_health public_health = true
is_health _ = false

abbrev is_websocket : Template → Bool
is_websocket websocket_api = true
is_websocket _ = false

abbrev check_health : Document → Route → Check
check_health d r = do
  require (not d.policies.require_correlation_id) "public_health_correlation_must_be_optional"
  require
      (subset r.methods ("GET" ∷ "HEAD" ∷ [])
        && not (is_prefix r.match)
        && elem r.path ("/healthz" ∷ "/readyz" ∷ "/version" ∷ [])
        && d.is_public_data)
      "public_health_boundary"

-- `set(route["methods"]) - {"GET", "HEAD", "OPTIONS"}`
abbrev pub writes : Route → Bool
writes r = not (subset r.methods ("GET" ∷ "HEAD" ∷ "OPTIONS" ∷ []))

-- the body of the loop over the routes, with the identities and operations that were seen
unfoldable pub check_route : Authority → Document → List String → List String → Route → Check
check_route files d seen_ids seen_operations r =
    let template = d.authentication.template in
    do
      _ ← path_segments r.path
      require (not (elem r.id seen_ids)) "duplicate_route_id"
      require (length r.methods == length r.operation_ids) "operation_method_count_mismatch"
      require (not (any (λ o. elem o r.operation_ids) seen_operations)) "duplicate_operation_id"
      require (subset r.scopes files.known_scopes) "unknown_scope"
      if is_oidc template
          then require
              (not (is_empty_list r.scopes) && subset r.scopes (list_of d.authentication.scopes))
              "route_scope_mismatch"
          else require (is_empty_list r.scopes) "scope_requires_oidc"
      require (not (writes r) || (d.upstream.retries == 0 || d.upstream.by_middleware))
          "unsafe_write_retry"
      if is_health template then check_health d r else ok tt
      require (not (is_websocket template) || same_list r.methods ("GET" ∷ []))
          "websocket_get_required"
      require (leb r.max_body_bytes (files.policy template).maximum_body_bytes) "policy_body_limit"

unfoldable pub check_routes : Authority → Document → List String → List String → List Route → Check
check_routes files d seen_ids seen_operations [] = ok tt
check_routes files d seen_ids seen_operations (r ∷ routes) =
    check_route files d seen_ids seen_operations r
    >> check_routes files d (r.id ∷ seen_ids) (r.operation_ids ++ seen_operations) routes
