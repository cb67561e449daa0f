-- ===== src/Reconcile/Campaign/Run.antt =====
-- reconcile_kong_campaign_automation.py: the consumers, the routes, and `main`. The manifest and the
-- document of the JWKS are arguments; what it returns are the rows of the evidence.
use kong.Base.{
  String, List, [], ◌∷◌, Bool, true, false, not, ◌&&◌, Option, none, some, Result, ok, err, require,
}
use kong.Base as Base
use kong.Base.Int.{pos}
use kong.Base.Json.{Json, bool, num, str, arr, nil, cons, obj, Fields}
use kong.Base.Values.{
  dict, texts, is_true, is_bool, equal, get_key, get_or, get_in, item, iterate, keep_if,
}
use kong.Gateway.Checks.{Check}
use kong.Admin.Program.{Program, ◌>>=◌, ◌>>◌, pure, branch, for_each, for_all}
use kong.Reconcile.Client.{Library, Channel, ◌<>◌, id_text}
use kong.Reconcile.Fields.{one, require_exact_fields}
use kong.Reconcile.Key.{KeyCodecs, active_rsa_key, rsa_public_key_pem}
use kong.Reconcile.Campaign.Manifest.{
  manifest_consumers, consumer_entity, authorized_parties, route_method, validate_manifest_routes,
}
use kong.Reconcile.Campaign.Guard.{campaign_guard, campaign_rate, jwt_fields, correlation_fields}
use kong.Reconcile.Campaign.Entities.{
  has, select_managed_route, fetch, fetch_rows, ensure_entity, ensure_route_plugin,
}

abbrev single : Json → Json
single value = arr (cons value nil)

-- `route_payload`
unfoldable pub campaign_payload : Json → Json → Json → String → Result String Fields
campaign_payload manifest service expected method = Base.◌>>=◌ (item "name" expected) (λ name.
    Base.◌>>=◌ (item "id" service) (λ id. Base.◌>>=◌ (item "host" manifest) (λ host.
      Base.◌>>=◌ (item "path" expected) (λ path. ok (
        dict (
          ("name", name)
          ∷ ("service.id", id)
          ∷ ("hosts[]", single host)
          ∷ ("paths[]", single path)
          ∷ ("methods[]", single (str method))
          ∷ ("protocols[]", single (str "http"))
          ∷ ("strip_path", str "false")
          ∷ ("https_redirect_status_code", num (pos 426))
          ∷ []))))))

-- what the route must read back as, and its binding to the service
unfoldable pub check_campaign_live : Json → Json → Json → String → Json → Check
check_campaign_live manifest service expected method route =
    Base.◌>>=◌ (item "name" expected) (λ name. Base.◌>>=◌ (item "host" manifest) (λ host.
      Base.◌>>=◌ (item "path" expected) (λ path.
        let exact = dict (
          ("name", name)
          ∷ ("hosts", single host)
          ∷ ("paths", single path)
          ∷ ("methods", single (str method))
          ∷ ("protocols", single (str "http"))
          ∷ ("strip_path", bool false)
          ∷ ("https_redirect_status_code", num (pos 426))
          ∷ []) in
        Base.◌>>◌ (require_exact_fields route (obj exact) "route") (
          Base.◌>>=◌ (get_in "service" "id" route) (λ bound.
            Base.◌>>=◌ (item "id" service)
              (λ id. require (equal bound id) "service binding drift"))))))

-- an entry of the evidence
unfoldable pub campaign_evidence : Json → Json → String → Json → Result String Json
campaign_evidence manifest expected method signing_key = Base.◌>>=◌ (item "path" expected) (λ path.
    Base.◌>>=◌ (get_or "path_template" path expected) (λ template.
      Base.◌>>=◌ (item "scope" expected) (λ scope.
        Base.◌>>=◌ (authorized_parties manifest scope) (λ parties.
          Base.◌>>=◌ (item "environment" manifest) (λ environment.
            Base.◌>>=◌ (item "audience" manifest) (λ audience.
              Base.◌>>=◌ (item "issuer" manifest) (λ issuer.
                Base.◌>>=◌ (get_key "kid" signing_key) (λ kid. ok (
                  obj (
                    dict (
                      ("route", path)
                      ∷ ("method", str method)
                      ∷ ("path_template", template)
                      ∷ ("scope", scope)
                      ∷ ("authorized_parties", texts parties)
                      ∷ ("environment", environment)
                      ∷ ("audience", audience)
                      ∷ ("issuer", issuer)
                      ∷ ("jwt_signature", str "RS256")
                      ∷ ("signing_kid", kid)
                      ∷ ("status", str "PASS")
                      ∷ [])))))))))))

-- `main` before the first request
unfoldable pub check_manifest : Library → Json → Bool → Check
check_manifest library manifest apply = Base.◌>>◌ (validate_manifest_routes library manifest) (
    Base.if◌then◌else◌ apply
      (Base.◌>>=◌ (get_in "safety" "reconciliation_apply" manifest) (λ allowed.
        require (not (is_bool false allowed)) "runtime apply is not authorized by this manifest"))
      (ok tt))

pub record CampaignArguments : Type 0 where
  pub manifest : Json
  pub jwks : Result String Json
  pub active_kid : String
  pub apply : Bool

module _ {S : Type 0} (library : Library) (channel : Channel S) where
  -- `credential` of the consumer
  unfoldable pub find_held : String → Json → Program S Json
  find_held id custom_id = do
    data_ ← fetch_rows library channel ("/consumers/" <> id <> "/jwt")
    rows ← pure (iterate data_)
    same ← pure (keep_if (has "key" custom_id) rows)
    pure (one "ambiguous JWT credential" same)

  -- the consumer, created, changed or as it is
  unfoldable pub settle_consumer : Json → Json → Fields → Bool → Program S Json
  settle_consumer live username identity apply = do
    rows ← pure (iterate live)
    same ← pure (keep_if (has "username" username) rows)
    consumer ← pure (one "ambiguous consumer" same)
    branch (not (is_true consumer))
        (branch (not apply) (pure (err "campaign service consumer is missing"))
          (channel.send "form" "POST" "/consumers" (some (obj identity))))
        (branch apply
          (do
            id ← pure (id_text library consumer)
            answer ← channel.send "form" "PATCH" ("/consumers/" <> id) (some (obj identity))
            fetch library channel ("/consumers/" <> id))
          (pure (ok consumer)))

  -- the credential, created, changed or as it is
  unfoldable pub settle_credential : String → Json → Json → Bool → Program S Json
  settle_credential id credential payload apply =
      branch (is_true credential && apply)
        (do
          held_id ← pure (id_text library credential)
          answer ←
              channel.send "form" "PATCH" ("/consumers/" <> id <> "/jwt/" <> held_id) (some payload)
          pure (ok credential))
        (branch (not (is_true credential) && apply)
          (channel.send "form" "POST" ("/consumers/" <> id <> "/jwt") (some payload))
          (branch (not (is_true credential)) (pure (err "campaign JWT credential is missing"))
            (pure (ok credential))))

  -- the body of the loop over the consumers
  unfoldable pub ensure_campaign_consumer : Json → Json → String → Bool → Program S (Unit {0})
  ensure_campaign_consumer live spec public_key apply = do
    identity ← pure (consumer_entity spec)
    username ← pure (item "username" spec)
    custom_id ← pure (item "custom_id" spec)
    consumer ← settle_consumer live username identity apply
    pure (require_exact_fields consumer (obj identity) "campaign service consumer")
    id ← pure (id_text library consumer)
    found ← find_held id custom_id
    let payload = obj (
        dict (
          ("key", custom_id)
          ∷ ("algorithm", str "RS256")
          ∷ ("rsa_public_key", str public_key)
          ∷ []))
    credential ← settle_credential id found payload apply
    held_id ← pure (id_text library credential)
    current ← fetch library channel ("/consumers/" <> id <> "/jwt/" <> held_id)
    pure (require_exact_fields current payload "campaign JWT credential")

  -- the route, created, changed or as it is
  unfoldable pub settle_route : Json → Json → Bool → Program S Json
  settle_route route payload apply =
      branch (is_true route && apply)
        (do
          id ← pure (id_text library route)
          channel.send "form" "PATCH" ("/routes/" <> id) (some payload))
        (branch (not (is_true route) && apply) (channel.send "form" "POST" "/routes" (some payload))
          (branch (not (is_true route)) (pure (err "missing route")) (pure (ok route))))

  -- the plugins of the route, one after the other
  unfoldable pub ensure_route_plugins : String → Json → Json → Bool → Program S (Unit {0})
  ensure_route_plugins id manifest expected apply = do
    ensure_route_plugin library channel id "jwt" jwt_fields apply
    scope ← pure (item "scope" expected)
    guard ← pure (campaign_guard library manifest scope)
    let access = dict (("access", texts (guard ∷ [])) ∷ [])
    ensure_route_plugin library channel id "post-function" access apply
    max_body ← pure (item "max_body_mb" expected)
    let limit = dict (("allowed_payload_size", max_body) ∷ [])
    ensure_route_plugin library channel id "request-size-limiting" limit apply
    minute ← pure (item "rate_per_minute" expected)
    ensure_route_plugin library channel id "rate-limiting" (campaign_rate minute) apply
    ensure_route_plugin library channel id "correlation-id" correlation_fields apply

  -- the route, under its host, as it reads back
  unfoldable pub expose_route : Json → Json → Json → Bool → Program S (Json × String)
  expose_route manifest service expected apply = do
    data_ ← fetch_rows library channel "/routes?size=1000"
    method ← pure (route_method expected)
    name ← pure (item "name" expected)
    host ← pure (item "host" manifest)
    path ← pure (item "path" expected)
    rows ← pure (iterate data_)
    found ← pure (select_managed_route rows name host path apply method)
    fields ← pure (campaign_payload manifest service expected method)
    let payload = obj fields
    route ← settle_route found payload apply
    id ← pure (id_text library route)
    current ← fetch library channel ("/routes/" <> id)
    pure (check_campaign_live manifest service expected method current)
    pure (ok (current, method))

  -- the body of the loop over the routes
  unfoldable pub ensure_campaign_route : Json → Json → Json → Json → Bool → Program S Json
  ensure_campaign_route manifest service signing_key expected apply = do
    (route, method) ← expose_route manifest service expected apply
    id ← pure (id_text library route)
    ensure_route_plugins id manifest expected apply
    pure (campaign_evidence manifest expected method signing_key)

  unfoldable pub reconcile_campaign : KeyCodecs → CampaignArguments → Program S (List Json)
  reconcile_campaign codecs args = do
    pure (check_manifest library args.manifest args.apply)
    document ← pure args.jwks
    signing_key ← pure (active_rsa_key document args.active_kid)
    public_key ← pure (rsa_public_key_pem codecs signing_key)
    wanted ← pure (item "service" args.manifest)
    name ← pure (item "name" wanted)
    service ← ensure_entity library channel "services" name wanted args.apply
    live ← fetch_rows library channel "/consumers?size=1000"
    consumers ← pure (manifest_consumers args.manifest)
    for_each consumers (λ spec. ensure_campaign_consumer live spec public_key args.apply)
    listed ← pure (item "routes" args.manifest)
    routes ← pure (iterate listed)
    for_all routes
        (λ expected. ensure_campaign_route args.manifest service signing_key expected args.apply)
