-- ===== src/Gateway/Document.antt =====
-- An integration document of scripts/gateway_integrations.py, with the shape that its schema
-- admits, and what `validate` reads beside it.
use kong.Base.{
  ℕ, String, List, Bool, true, false, Option, ◌≡◌, ◌↔◌, arith, Comparable, nat_eq, string_eq,
}
use kong.Gateway.Overlap.{Match}

pub data Environment : Type 0 where
  development staging production : Environment

abbrev environment_beq : Environment → Environment → Bool
environment_beq development development = true
environment_beq staging staging = true
environment_beq production production = true
environment_beq _ _ = false

pub environment_beq_iff : (a b : Environment) → (environment_beq a b ≡ true) ↔ (a ≡ b)
environment_beq_iff development b = ground arith
environment_beq_iff staging b = ground arith
environment_beq_iff production b = ground arith

instance abbrev pub environment_eq : Comparable Environment
environment_eq = record { same = environment_beq; same_iff = environment_beq_iff }

abbrev pub is_production : Environment → Bool
is_production production = true
is_production _ = false

pub data Template : Type 0 where
  public_oidc_api internal_service_jwt private_mtls_api websocket_api : Template
  signed_webhook public_health legacy_api_key : Template

-- `template in OIDC`
abbrev pub is_oidc : Template → Bool
is_oidc public_oidc_api = true
is_oidc internal_service_jwt = true
is_oidc private_mtls_api = true
is_oidc websocket_api = true
is_oidc _ = false

pub data Exposure : Type 0 where
  open_ private_ : Exposure

pub data Protocol : Type 0 where
  http https : Protocol

pub record Upstream : Type 0 where
  pub service : String
  pub dns_name : String
  pub protocol : Protocol
  pub port : ℕ
  pub health_path : String
  pub readiness_path : String
  pub connect_ms : ℕ
  pub read_ms : ℕ
  pub write_ms : ℕ
  pub retries : ℕ
  -- `idempotencyAuthority == "Middleware"`
  pub by_middleware : Bool
  pub tls_server_name : Option String

pub record Date : Type 0 where
  pub year : ℕ
  pub month : ℕ
  pub day : ℕ

pub record Authentication : Type 0 where
  pub template : Template
  pub issuer : Option String
  pub audience : Option String
  pub authorized_parties : Option (List String)
  pub scopes : Option (List String)
  pub roles : Option (List String)
  pub tenant_claim : Option String
  pub ca_certificate_ids : Option (List String)
  pub secret_ref : Option String
  pub key_id : Option String
  pub legacy_sunset : Option Date

pub record Policies : Type 0 where
  pub source_allowlist : List String
  pub cors_origins : List String
  pub require_correlation_id : Bool
  pub redis_host : String
  pub redis_password_ref : String

pub record Route : Type 0 where
  pub id : String
  pub path : String
  pub match : Match
  pub methods : List String
  pub operation_ids : List String
  pub scopes : List String
  pub max_body_bytes : ℕ
  pub rate_per_minute : ℕ

pub record Document : Type 0 where
  pub id : String
  pub environment : Environment
  pub is_public_data : Bool
  pub exposure : Exposure
  pub host : String
  pub upstream : Upstream
  pub routes : List Route
  pub authentication : Authentication
  pub policies : Policies
  pub runbook : String

pub record Policy : Type 0 where
  pub name : String
  pub plugins : List String
  pub maximum_timeout_ms : ℕ
  pub maximum_body_bytes : ℕ
  pub new_production_allowed : Bool

-- The files under config/integrations and operations/runbooks, the third-party schema validator,
-- and `ipaddress.ip_network(…, strict=True).prefixlen` (`none` where it raises).
pub record Authority : Type 0 where
  pub policy : Template → Policy
  pub allowed_dns_names : List String
  pub allowed_redis_hosts : List String
  pub known_scopes : List String
  pub known_roles : List String
  pub is_file : String → Bool
  pub schema_admits : Document → Bool
  pub policy_schema_admits : Policy → Bool
  pub network_prefix : String → Option ℕ
