-- ===== src/Reconcile/ControlPlane/Run.antt =====
-- reconcile_kong_n8n_control_plane.py: `main`. The manifest and the document of the JWKS are
-- arguments; what it returns are the rows of the evidence.
use kong.Base.{
  String, List, [], ◌∷◌, Bool, true, false, not, ◌&&◌, ◌||◌, Option, none, some, Result, ok, err,
  require, any, ◌==◌, string_eq, if◌then◌else◌,
}
use kong.Base as Base
use kong.Base.Text.{strip_right}
use kong.Base.Json.{Json, str, obj}
use kong.Base.Values.{
  dict, equal, is_bool, get_key, get_or, get_in, item, item_in, iterate, as_text,
}
use kong.Gateway.Checks.{Check}
use kong.Admin.Program.{Program, ◌>>=◌, ◌>>◌, pure, for_all}
use kong.Reconcile.Key.{KeyCodecs, active_rsa_key, rsa_public_key_pem}
use kong.Reconcile.Client.{Library, Channel, ◌<>◌}
use kong.Reconcile.ControlPlane.Entities.{ensure_consumer, ensure_service}
use kong.Reconcile.ControlPlane.Route.{ensure_route}

-- `spec.get("issuer", "") + suffix`
abbrev issuer_url : Json → String → Result String String
issuer_url spec suffix =
    Base.◌>>=◌ (get_or "issuer" (str "") spec)
      (λ issuer. Base.◌>>=◌ (as_text issuer) (λ text. ok (text <> suffix)))

-- `spec.get(first, {}).get(second) is value`
abbrev pub flag_is : String → String → Bool → Json → Result String Bool
flag_is first second b spec = Base.◌>>=◌ (get_in first second spec) (λ value. ok (is_bool b value))

-- `if not test: raise RuntimeError(message)`
abbrev pub demand : Result String Bool → String → Check
demand test message = Base.◌>>=◌ test (λ holds. require holds message)

-- `left == right` on two values that are looked up
abbrev pub same : Result String Json → Result String Json → Result String Bool
same left right = Base.◌>>=◌ left (λ a. Base.◌>>=◌ right (λ b. ok (equal a b)))

abbrev pub both : Result String Bool → Result String Bool → Result String Bool
both left right = Base.◌>>=◌ left (λ holds. if holds then right else ok false)

-- `spec.get("status") in {"APPROVED_STAGING", "APPROVED_PRODUCTION"}`
abbrev pub is_approved : Json → Bool
is_approved status =
    equal status (str "APPROVED_STAGING") || equal status (str "APPROVED_PRODUCTION")

-- the authority for `--apply`
unfoldable pub check_approval : Json → Check
check_approval spec =
    demand
      (both (Base.◌>>=◌ (get_key "status" spec) (λ status. ok (is_approved status)))
        (flag_is "safety" "reconciliation_apply" true spec))
      "N8N control-plane authority is not approved for --apply"

-- the checks of `main` that are made with and without `--apply`
unfoldable pub check_authority : Json → String → Check
check_authority spec jwks_url =
    Base.◌>>=◌ (issuer_url spec "/.well-known/openid-configuration") (λ discovery.
      Base.◌>>=◌ (issuer_url spec "/protocol/openid-connect/certs") (λ jwks.
        Base.◌>>◌
          (demand (same (get_key "oidc_discovery" spec) (ok (str discovery)))
            "N8N OIDC discovery must match canonical Keycloak issuer")
          (Base.◌>>◌
            (demand (same (get_key "jwks_uri" spec) (ok (str jwks)))
              "N8N JWKS URI must match canonical Keycloak issuer")
            (Base.◌>>◌
              (require (strip_right b'/' jwks_url == strip_right b'/' jwks)
                "runtime JWKS URL differs from reviewed N8N authority")
              (Base.◌>>◌
                (demand (same (get_key "client_id" spec) (get_in "consumer" "custom_id" spec))
                  "N8N client identity and Kong consumer custom_id differ")
                (check_safety spec))))))
  where
    check_safety : Json → Check
    check_safety spec =
        Base.◌>>◌
          (demand
            (both
              (Base.◌>>=◌ (get_key "preserve_authorization_header" spec) (λ v. ok (is_bool true v)))
              (Base.◌>>=◌ (get_key "token_exchange" spec) (λ v. ok (is_bool false v))))
            "N8N bearer token must be preserved for Middleware revalidation")
          (Base.◌>>◌
            (demand (flag_is "safety" "middleware_revalidates_identity" true spec)
              "Middleware identity revalidation must be explicitly required")
            (demand
              (both (flag_is "safety" "oidc_required" true spec) (
                same (get_in "safety" "oidc_enforcement" spec)
                  (ok (str "jwt-rs256-plus-claim-guard"))))
              "N8N OIDC enforcement mode must be JWT RS256 plus claim guard"))

-- the checks of `main` before the first request
unfoldable pub check_spec : Json → String → Bool → Check
check_spec spec jwks_url apply =
    Base.◌>>◌ (check_authority spec jwks_url) (if apply then check_approval spec else ok tt)

-- an entry of the evidence
unfoldable pub evidence_of : Json → Json → Result String Json
evidence_of spec expected = Base.◌>>=◌ (item "path" expected) (λ path.
    Base.◌>>=◌ (item "method" expected) (λ method. Base.◌>>=◌ (item "scope" expected) (λ scope.
      Base.◌>>=◌ (item "issuer" spec) (λ issuer. Base.◌>>=◌ (item "audience" spec) (λ audience.
        Base.◌>>=◌ (item "client_id" spec) (λ client.
          Base.◌>>=◌ (item_in "safety" "middleware_revalidates_identity" spec) (λ again. ok (
            obj (
              dict (
                ("route", path)
                ∷ ("method", method)
                ∷ ("scope", scope)
                ∷ ("issuer", issuer)
                ∷ ("audience", audience)
                ∷ ("client_id", client)
                ∷ ("middleware_revalidation", again)
                ∷ ("status", str "PASS")
                ∷ []))))))))))

-- what the arguments of the command line give: the manifest, and the document of the JWKS
pub record Arguments : Type 0 where
  pub spec : Json
  pub jwks_url : String
  pub apply : Bool
  pub jwks : Result String Json
  pub active_kid : String

module _ {S : Type 0} (library : Library) (channel : Channel S) where
  unfoldable pub reconcile : KeyCodecs → Arguments → Program S (List Json)
  reconcile codecs args = do
    pure (check_spec args.spec args.jwks_url args.apply)
    document ← pure args.jwks
    signing_key ← pure (active_rsa_key document args.active_kid)
    public_key ← pure (rsa_public_key_pem codecs signing_key)
    consumer ← ensure_consumer library channel args.spec public_key args.apply
    service ← ensure_service library channel args.spec args.apply
    listed ← pure (item "routes" args.spec)
    routes ← pure (iterate listed)
    for_all routes (λ expected. do
      route ← ensure_route library channel args.spec service expected args.apply
      pure (evidence_of args.spec expected))
