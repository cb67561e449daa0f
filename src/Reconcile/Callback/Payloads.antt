-- ===== src/Reconcile/Callback/Payloads.antt =====
-- reconcile_kong_callback_routes.py: what `main` sends, and what it checks of what it reads.
use kong.Base.{
  String, List, [], ◌∷◌, Bool, true, false, not, ◌&&◌, ◌||◌, Option, none, some, Result, ok, err,
  require, if◌then◌else◌,
}
use kong.Base as Base
use kong.Base.Int.{pos}
use kong.Base.Json.{Json, null, bool, num, str, arr, nil, cons, obj, Fields, end}
use kong.Base.Values.{dict, texts, is_true, or_else, equal, equals, get_key, get_in, item, all_of}
use kong.Gateway.Checks.{Check}
use kong.Reconcile.Client.{Library}
use kong.Reconcile.Fields.{put, update}
use kong.Reconcile.Callback.{require_equal, sorted_value}
use kong.Reconcile.Callback.Verify.{route_matches, callback_guard, auth_matches}

abbrev pub staged_host : Json
staged_host = arr (cons (str "callback-route-disabled.invalid") nil)

-- `payload`
unfoldable pub callback_payload : Json → Json → Json → Result String Fields
callback_payload spec service expected = Base.◌>>=◌ (item "name" expected) (λ name.
    Base.◌>>=◌ (item "id" service) (λ id. Base.◌>>=◌ (item "host" spec) (λ host.
      Base.◌>>=◌ (item "paths" expected) (λ paths. Base.◌>>=◌ (item "methods" expected) (λ methods.
        Base.◌>>=◌ (item "strip_path" expected) (λ strip. ok (
          dict (
            ("name", name)
            ∷ ("service", obj (dict (("id", id) ∷ [])))
            ∷ ("hosts", arr (cons host nil))
            ∷ ("paths", paths)
            ∷ ("methods", methods)
            ∷ ("protocols", texts ("http" ∷ []))
            ∷ ("strip_path", strip)
            ∷ ("preserve_host", bool true)
            ∷ ("https_redirect_status_code", num (pos 426))
            ∷ ("headers", obj end)
            ∷ ("snis", arr nil)
            ∷ []))))))))

-- `quarantined`: under a host that is not served, and, for a new route, for no method but OPTIONS
unfoldable pub quarantined : Fields → Bool → Fields
unfolding put
quarantined payload is_new =
    let away = put "hosts" staged_host payload in
    if is_new then put "methods" (texts ("OPTIONS" ∷ [])) away else away

-- `needs_quarantine`
unfoldable pub needs_quarantine : Library → Json → Json → Json → Json → Fields → Result String Bool
needs_quarantine library spec service expected route by_name =
    Base.◌>>=◌ (item "name" expected) (λ name.
      Base.◌>>=◌ (get_key "name" (or_else route (obj end)))
        (λ own. Base.◌>>=◌ (as_it_is name own) (λ same. ok (not same))))
  where
    as_it_is : Json → Json → Result String Bool
    as_it_is name own = all_of (
        ok (equal own name)
        ∷ Base.◌>>=◌ (item "id" service)
            (λ id. Base.◌>>=◌ (item "host" spec) (λ host. route_matches route expected id host))
        ∷ auth_matches library by_name expected spec
        ∷ [])

-- what the quarantined route must read back as
unfoldable pub check_quarantine : Json → Bool → Check
check_quarantine route is_new = Base.◌>>◌ (require_equal (get_key "hosts" route) (ok staged_host)) (
    if is_new then require_equal (get_key "methods" route) (ok (texts ("OPTIONS" ∷ []))) else ok tt)

abbrev pub is_deny : Json → Result String Bool
is_deny plugin = equals (item "name" plugin) (str "request-termination")

-- a deny plugin that is enabled
abbrev pub is_active_deny : Json → Result String Bool
is_active_deny plugin =
    all_of (
      is_deny plugin ∷ Base.◌>>=◌ (get_key "enabled" plugin) (λ enabled. ok (is_true enabled)) ∷ [])

abbrev pub deny_config : Json
deny_config = obj (
    dict (
      ("name", str "request-termination")
      ∷ ("enabled", str "true")
      ∷ ("config.status_code", num (pos 503))
      ∷ ("config.message", str "callback route maintenance")
      ∷ []))

unfoldable pub check_deny : Json → Check
check_deny deny = Base.◌>>◌ (require_equal (get_key "enabled" deny) (ok (bool true))) (
    Base.◌>>◌ (require_equal (get_in "config" "status_code" deny) (ok (num (pos 503))))
      (require_equal (get_in "config" "message" deny) (ok (str "callback route maintenance"))))

-- a plugin of `controls`: its name, whether it is sent as JSON, and its configuration
abbrev pub Control : Type 0
Control = String × Bool × Fields

unfoldable pub controls : Library → Json → Json → Result String (List Control)
controls library spec expected = Base.◌>>=◌ (item "maxBodyMb" expected) (λ max_body.
    Base.◌>>=◌ (item "ratePerMinute" expected) (λ rate.
      Base.◌>>=◌ (item "requiredScope" expected) (λ scope.
        Base.◌>>=◌ (callback_guard library spec scope) (λ guard. ok (
          ("request-size-limiting", false, dict (("config.allowed_payload_size", max_body) ∷ []))
          ∷ (
            "rate-limiting",
            false,
            dict (
                ("config.minute", rate)
                ∷ ("config.policy", str "redis")
                ∷ ("config.limit_by", str "ip")
                ∷ ("config.fault_tolerant", bool false)
                ∷ ("config.redis.host", str "codestra-redis")
                ∷ ("config.redis.port", num (pos 6379))
                ∷ ("config.redis.database", num (pos 0))
                ∷ ("config.redis.timeout", num (pos 2000))
                ∷ ("config.redis.password", str "{vault://env/kong-rate-limit-redis-password}")
                ∷ []),
          )
          ∷ (
            "correlation-id",
            false,
            dict (
                ("config.header_name", str "X-Correlation-ID")
                ∷ ("config.generator", str "uuid")
                ∷ ("config.echo_downstream", str "true")
                ∷ []),
          )
          ∷ (
            "jwt",
            true,
            dict (
                ("header_names", texts ("authorization" ∷ []))
                ∷ ("uri_param_names", arr nil)
                ∷ ("cookie_names", arr nil)
                ∷ ("claims_to_verify", texts ("exp" ∷ []))
                ∷ ("key_claim_name", str "azp")
                ∷ ("run_on_preflight", bool false)
                ∷ ("secret_is_base64", bool false)
                ∷ ("anonymous", null)
                ∷ []),
          )
          ∷ ("post-function", true, dict (("access", texts (guard ∷ [])) ∷ []))
          ∷ [])))))

-- the payload of a control
unfoldable pub control_payload : Control → Fields
unfolding update
control_payload (name, true, config) =
    dict (("name", str name) ∷ ("enabled", bool true) ∷ ("config", obj config) ∷ [])
control_payload (name, false, config) =
    update (dict (("name", str name) ∷ ("enabled", str "true") ∷ [])) config

-- an entry of the evidence
unfoldable pub callback_evidence : Json → Json → Json → Json → Json → Result String Json
callback_evidence expected service route consumer credential =
    Base.◌>>=◌ (item "name" expected) (λ name. Base.◌>>=◌ (item "id" service) (λ service_id.
      Base.◌>>=◌ (item "id" route) (λ route_id. Base.◌>>=◌ (item "hosts" route) (λ hosts.
        Base.◌>>=◌ (item "paths" route) (λ paths.
          Base.◌>>=◌ (Base.◌>>=◌ (item "methods" route) sorted_value) (λ methods.
            Base.◌>>=◌ (item "id" consumer) (λ consumer_id.
              Base.◌>>=◌ (item "key" credential) (λ key.
                Base.◌>>=◌ (item "requiredScope" expected) (λ scope. ok (
                  obj (
                    dict (
                      ("name", name)
                      ∷ ("service_id", service_id)
                      ∷ ("route_id", route_id)
                      ∷ ("hosts", hosts)
                      ∷ ("paths", paths)
                      ∷ ("methods", methods)
                      ∷ (
                        "auth",
                        obj (
                            dict (
                              ("consumer_id", consumer_id)
                              ∷ ("jwt_key", key)
                              ∷ ("required_scope", scope)
                              ∷ ("claim_guard", str "PASS")
                              ∷ [])),
                      )
                      ∷ []))))))))))))
