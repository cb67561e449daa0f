-- ===== src/Auth/Identity.antt =====
-- `identity` of app.py: who calls, and whether the caller may use the scope. PyJWT and the tenant
-- registry in PostgreSQL are not part of the repository: they are the fields of `Services`.
pub mod Authentic
use kong.Base.{
  ℕ, List, [], ◌∷◌, Bool, true, false, not, ◌&&◌, ◌||◌, Option, none, some, Result, ok, err,
  require, ◌>>=◌, ◌>>◌, any, elem, ◌==◌, if◌then◌else◌,
}
use kong.Base.Int.{ℤ, le_int}
use kong.Base.Text.{codes}
use kong.Base.Bytes.{Bytes, bytes_eq, starts, drop, words}
use kong.Auth.Failure.{Failure, denied, crashed, Reply, Headers, get_header, is_some, text_or_empty}

pub record TokenHeader : Type 0 where
  pub alg : Option Bytes
  pub kid : Option Bytes

pub record Claims : Type 0 where
  pub azp : Bytes
  pub sub : Bytes
  pub iat : ℤ
  pub exp : ℤ
  pub scope : Bytes

-- a row of `oidc_tenant_registry`
pub record Tenant : Type 0 where
  pub tenant_key : Bytes
  pub status : Bytes
  pub allowed_scopes : Option (List Bytes)

pub record Services : Type 0 where
  -- `jwt.get_unverified_header`; `none` where it raises
  pub unverified_header : Bytes → Option TokenHeader
  -- `jwt.decode` with the signing key of the token, for the issuer and audience; `none` where it raises
  pub decode : Bytes → Option Claims
  -- the query for the issuer and a subject; `none` where the connection or the query raises
  pub registered : Bytes → Option (Option Tenant)

abbrev pub authorized_party : Bytes
authorized_party = codes "codestra-cert-machine"

abbrev pub trusted_headers : List Bytes
trusted_headers =
    codes "x-codestra-subject"
    ∷ codes "x-codestra-tenant"
    ∷ codes "x-codestra-roles"
    ∷ codes "x-codestra-scopes"
    ∷ codes "x-authenticated-user"
    ∷ []

pub record Context : Type 0 where
  pub subject : Bytes
  pub tenant : Bytes
  pub scope : Bytes

abbrev pub bearer : Bytes
bearer = codes "Bearer "

-- `header.get("alg") == "RS256" and header.get("kid")`
abbrev pub has_algorithm_and_kid : TokenHeader → Bool
has_algorithm_and_kid header =
    text_or_empty header.alg == codes "RS256" && not (text_or_empty header.kid == [])

abbrev pub or_deny {ℓ} : {A : Type ℓ} → Option A → Failure → Result Failure A
or_deny none failure = err failure
or_deny (some a) failure = ok a

-- the `try` block
unfoldable pub verified_claims : Services → Bytes → Reply Claims
verified_claims services token = do
  header ← or_deny (services.unverified_header token) (denied 401 "invalid_token")
  require (has_algorithm_and_kid header) (denied 401 "algorithm_or_kid_denied")
  claims ← or_deny (services.decode token) (denied 401 "invalid_token")
  require (claims.azp == authorized_party) (denied 401 "authorized_party_denied")
  require (not (le_int claims.exp claims.iat)) (denied 401 "token_lifetime_denied")
  ok claims

-- `set(row[2] or [])`
abbrev pub allowed : Option (List Bytes) → List Bytes
allowed none = []
allowed (some scopes) = scopes

-- the tests on the row
abbrev pub may_use : Bytes → Option Tenant → Option Bytes
may_use required none = none
may_use required (some row) =
    if row.status == codes "active" && elem required (allowed row.allowed_scopes)
    then some row.tenant_key
    else none

-- a header that only the gateway may set
abbrev pub is_spoofed : Headers → Bool
is_spoofed headers = any (λ name. is_some (get_header name headers)) trusted_headers

-- `request.headers.get("authorization", "")`
abbrev pub authorization : Headers → Bytes
authorization headers = text_or_empty (get_header (codes "authorization") headers)

unfoldable pub identity : Services → Headers → Bytes → Reply Context
identity services headers required = do
  require (not (is_spoofed headers)) (denied 403 "spoofed_identity_header")
  require (starts (authorization headers) bearer) (denied 401 "missing_token")
  claims ← verified_claims services (drop 7 (authorization headers))
  require (elem required (words claims.scope)) (denied 403 "scope_denied")
  row ← or_deny (services.registered claims.sub) crashed
  tenant ← or_deny (may_use required row) (denied 403 "identity_or_scope_unmapped")
  ok (record { subject = claims.sub; tenant = tenant; scope = required })
