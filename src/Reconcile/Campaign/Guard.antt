-- ===== src/Reconcile/Campaign/Guard.antt =====
-- reconcile_kong_campaign_automation.py: the configuration of the plugins of a route.
use kong.Base.{String, List, [], ◌∷◌, true, false, Result, ok, ◌>>=◌}
use kong.Base.Int.{pos}
use kong.Base.Json.{Json, bool, num, str, Fields, obj}
use kong.Base.Values.{dict, texts, item}
use kong.Reconcile.Client.{Library, ◌<>◌}
use kong.Reconcile.Guard.{read_claims, read_scopes, deny_lua}
use kong.Reconcile.Campaign.Manifest.{authorized_parties}

-- `",".join(…)` of the entries of the table of parties
abbrev pub party_entries : Library → List String → String
party_entries library [] = ""
party_entries library (party ∷ []) = "[" <> library.dumps (str party) <> "]=true"
party_entries library (party ∷ second ∷ rest) =
    "[" <> library.dumps (str party) <> "]=true," <> party_entries library (second ∷ rest)

unfoldable pub campaign_guard : Library → Json → Json → Result String String
campaign_guard library manifest required_scope = do
  issuer ← item "issuer" manifest
  audience ← item "audience" manifest
  environment ← item "environment" manifest
  parties ← authorized_parties manifest required_scope
  let quoted = library.dumps audience
  ok (
      read_claims
      <> read_scopes "s"
      <> "if c.iss~="
      <> library.dumps issuer
      <> " then "
      <> deny_lua "401" "invalid_issuer"
      <> " end;"
      <> "local a=c.aud;local ok=a=="
      <> quoted
      <> ";"
      <> "if type(a)=='table' then for _,v in ipairs(a) do if v=="
      <> quoted
      <> " then ok=true end end end;"
      <> "if not ok then "
      <> deny_lua "401" "invalid_audience"
      <> " end;"
      <> "local z={"
      <> party_entries library parties
      <> "};"
      <> "if not z[c.azp] or c.environment~="
      <> library.dumps environment
      <> " then "
      <> deny_lua "403" "service_identity_denied"
      <> " end;"
      <> "if not s["
      <> library.dumps required_scope
      <> "] then "
      <> deny_lua "403" "insufficient_scope"
      <> " end")

abbrev pub campaign_redis : Fields
campaign_redis = dict (
    ("host", str "codestra-redis")
    ∷ ("port", num (pos 6379))
    ∷ ("database", num (pos 0))
    ∷ ("timeout", num (pos 2000))
    ∷ ("password", str "{vault://env/kong-rate-limit-redis-password}")
    ∷ [])

abbrev pub campaign_rate : Json → Fields
campaign_rate minute = dict (
    ("minute", minute)
    ∷ ("policy", str "redis")
    ∷ ("limit_by", str "consumer")
    ∷ ("fault_tolerant", bool false)
    ∷ ("redis", obj campaign_redis)
    ∷ [])

abbrev pub jwt_fields : Fields
jwt_fields = dict (
    ("key_claim_name", str "azp")
    ∷ ("claims_to_verify", texts ("exp" ∷ []))
    ∷ ("header_names", texts ("authorization" ∷ []))
    ∷ ("run_on_preflight", bool true)
    ∷ [])

abbrev pub correlation_fields : Fields
correlation_fields = dict (
    ("header_name", str "X-Correlation-ID")
    ∷ ("generator", str "uuid")
    ∷ ("echo_downstream", bool true)
    ∷ [])
