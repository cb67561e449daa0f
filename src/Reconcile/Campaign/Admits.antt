-- ===== src/Reconcile/Campaign/Admits.antt =====
-- The parties that the guard of a campaign route lets through.
use kong.Base.{String, List}
use kong.Base.Json.{Json}
use kong.Reconcile.Client.{Library, ◌<>◌}
use kong.Reconcile.Campaign.Guard.{party_entries}

-- a text that ends in another
pub data EndsIn (ending : String) : String → Type 0 where
  here : EndsIn ending ending
  after : (piece : String) {text : String} → EndsIn ending text → EndsIn ending (piece <> text)

-- what refuses the party, the environment and the scope of a token
abbrev pub refusals : Library → List String → Json → Json → String
refusals library parties environment required_scope =
    "local z={"
    <> party_entries library parties
    <> "};"
    <> "if not z[c.azp] or c.environment~="
    <> library.dumps environment
    <> " then "
    <> "return kong.response.exit(403,{error='service_identity_denied'})"
    <> " end;"
    <> "if not s["
    <> library.dumps required_scope
    <> "] then "
    <> "return kong.response.exit(403,{error='insufficient_scope'})"
    <> " end"
