-- ===== src/Gateway/Validate/FieldChecks.antt =====
-- `validate`: the fields of the authentication, and the scopes and roles.
use Prim.Native.String
use kong.Base.{
  Bool, true, false, not, ◌&&◌, ◌||◌, Option, none, some, ok, require, ◌>>◌, ltb, subset, ◌==◌,
  nat_eq, string_eq, if◌then◌else◌,
}
use kong.Base.Bytes.{bytes_eq}
use kong.Gateway.Document.{
  environment_eq, Template, private_mtls_api, signed_webhook, legacy_api_key, is_oidc, Date,
  Authentication, Document, Authority,
}
use kong.Gateway.Checks.{Check, text_is, list_of, is_empty_list}

-- the field is there exactly when the template asks for it
abbrev present_if {ℓ} : {A : Type ℓ} → Bool → Option A → Bool
present_if wanted none = not wanted
present_if wanted (some a) = wanted

abbrev is_mtls : Template → Bool
is_mtls private_mtls_api = true
is_mtls _ = false

abbrev pub is_webhook : Template → Bool
is_webhook signed_webhook = true
is_webhook _ = false

abbrev is_legacy : Template → Bool
is_legacy legacy_api_key = true
is_legacy _ = false

-- `set(auth) == fields`
abbrev has_fields : Authentication → Bool
has_fields auth =
    let template = auth.template in
    let oidc = is_oidc template in
    present_if oidc auth.issuer
    && present_if oidc auth.audience
    && present_if oidc auth.authorized_parties
    && present_if oidc auth.scopes
    && present_if oidc auth.roles
    && present_if oidc auth.tenant_claim
    && present_if (is_mtls template) auth.ca_certificate_ids
    && present_if (is_webhook template) auth.secret_ref
    && present_if (is_webhook template) auth.key_id
    && present_if (is_legacy template) auth.legacy_sunset

-- `a > b`
abbrev later_date : Date → Date → Bool
later_date a b =
    ltb b.year a.year
    || a.year == b.year && (ltb b.month a.month || a.month == b.month && ltb b.day a.day)

abbrev sunset_after : Option Date → Date → Bool
sunset_after none today = false
sunset_after (some sunset) today = later_date sunset today

abbrev check_webhook : Document → Check
check_webhook d = do
  require
      (text_is d.authentication.secret_ref
        (String.◌++◌ "{vault://env/kong-webhook-" (String.◌++◌ d.id "}")))
      "webhook_secret_reference_mismatch"
  require d.upstream.by_middleware "webhook_replay_authority_required"
  require (is_empty_list d.policies.cors_origins) "webhook_cors_forbidden"

unfoldable pub check_authentication : Authority → Date → Document → Check
check_authentication files today d =
    let auth = d.authentication in
    do
      require (has_fields auth) "authentication_fields_mismatch"
      if is_webhook auth.template then check_webhook d else ok tt
      require (not (is_legacy auth.template) || sunset_after auth.legacy_sunset today)
          "legacy_sunset_expired"
      require (subset (list_of auth.scopes) files.known_scopes) "unknown_scope"
      require (subset (list_of auth.roles) files.known_roles) "unknown_role"
