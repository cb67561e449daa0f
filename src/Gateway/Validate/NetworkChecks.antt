-- ===== src/Gateway/Validate/NetworkChecks.antt =====
-- `validate`: the source networks, the exposure and the origins for CORS.
use kong.Base.{
  code, String, Bool, true, false, not, ◌&&◌, ◌||◌, Option, none, some, ok, err, require, ◌>>◌, ltb,
  ◌==◌, nat_eq, string_eq, if◌then◌else◌,
}
use kong.Base.Bytes.{bytes_eq}
use kong.Gateway.Document.{
  environment_eq, Template, internal_service_jwt, private_mtls_api, Exposure, open_, private_,
  Document, Authority,
}
use kong.Gateway.Hostname.{hostname}
use kong.Gateway.Checks.{Check, each, is_empty_list}

abbrev check_network : Authority → String → Check
check_network files network = elim (files.network_prefix network) [
  | none ↦ err "invalid_source_network"
  | some prefixlen ↦ require (ltb 0 prefixlen) "unbounded_source_network"
]

-- `s[len(p):]` if `s.startswith(p)`
abbrev after_prefix : String → String → Option String
after_prefix String.[] s = some s
after_prefix (String.◌∷◌ c p) String.[] = none
after_prefix (String.◌∷◌ c p) (String.◌∷◌ d s) =
    let rest = after_prefix p s in if code c == code d then rest else none

-- a text without ":443" at its end
abbrev drop_port : String → String
drop_port String.[] = ""
drop_port (String.◌∷◌ c s) =
    let rest = drop_port s in if String.◌∷◌ c s == ":443" then "" else String.◌∷◌ c rest

-- The last test of the loop body leaves `"https://" + host`, with or without ":443", where the
-- host passes `hostname`; every `ValueError` of the body, `ContractError` among them, is caught.
abbrev check_origin : String → Check
check_origin origin = elim (after_prefix "https://" origin) [
  | none ↦ err "invalid_cors_origin"
  | some rest ↦ elim (hostname (drop_port rest)) [
    | ok _ ↦ ok tt
    | err _ ↦ err "invalid_cors_origin"
  ]
]

abbrev is_private : Exposure → Bool
is_private private_ = true
is_private open_ = false

abbrev wants_allowlist : Template → Bool
wants_allowlist internal_service_jwt = true
wants_allowlist private_mtls_api = true
wants_allowlist _ = false

unfoldable pub check_network_policy : Authority → Document → Check
check_network_policy files d = do
  each (check_network files) d.policies.source_allowlist
  require
      (not (is_private d.exposure || wants_allowlist d.authentication.template)
        || is_private d.exposure && not (is_empty_list d.policies.source_allowlist))
      "private_source_allowlist_required"
  each check_origin d.policies.cors_origins
