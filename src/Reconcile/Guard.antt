-- ===== src/Reconcile/Guard.antt =====
-- The Lua that the claim guards of the reconcilers start with.
use kong.Base.{String}
use kong.Reconcile.Client.{◌<>◌}

-- the claims of the bearer token, as `c`
abbrev pub read_claims : String
read_claims =
    "local h=kong.request.get_header('authorization') or '';"
    <> "local t=h:match('[Bb]earer%s+(.+)') or '';" <> "local p=t:match('^[^.]+%.([^.]+)%.') or '';"
    <> "p=p:gsub('-','+'):gsub('_','/');p=p..string.rep('=',(4-#p%4)%4);"
    <> "local raw=ngx.decode_base64(p);local c=raw and require('cjson.safe').decode(raw) or {};"

-- the scopes of the token, in the table of this name
abbrev pub read_scopes : String → String
read_scopes table =
    "local " <> table <> "={};for x in string.gmatch(c.scope or '','%S+') do " <> table
    <> "[x]=true end;"

-- an answer of the gateway to a token that is refused
abbrev pub deny_lua : String → String → String
deny_lua status reason = "return kong.response.exit(" <> status <> ",{error='" <> reason <> "'})"
