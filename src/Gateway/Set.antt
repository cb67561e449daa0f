-- ===== src/Gateway/Set.antt =====
-- `validate_set` of scripts/gateway_integrations.py: a set of integrations as one route table.
pub mod Unambiguous
use kong.Base.{
  ℕ, String, List, [], ◌∷◌, ◌++◌, Bool, true, false, not, ◌&&◌, ◌||◌, Option, none, some, Result,
  ok, err, require, ◌>>=◌, ◌>>◌, leb, any, elem, length, ◌==◌, nat_eq, string_eq, if◌then◌else◌,
}
use kong.Gateway.Overlap.{overlaps}
use kong.Gateway.Document.{
  Environment, environment_eq, Protocol, http, https, Upstream, Date, Route, Document, Authority,
}
use kong.Gateway.Checks.{Check, each, is_empty_list, text_is, is_some}
use kong.Gateway.Validate.{validate}

-- an entry of `routes`
pub record Entry : Type 0 where
  pub environment : Environment
  pub host : String
  pub route : Route
  pub methods : List String

abbrev same_protocol : Protocol → Protocol → Bool
same_protocol http http = true
same_protocol https https = true
same_protocol _ _ = false

abbrev same_bool : Bool → Bool → Bool
same_bool true b = b
same_bool false b = not b

abbrev same_text : Option String → Option String → Bool
same_text none o = not (is_some o)
same_text (some t) o = text_is o t

-- `canonical(a) == canonical(b)`: the canonical text of an upstream gives all its fields
abbrev same_upstream : Upstream → Upstream → Bool
same_upstream a b =
    a.service == b.service
    && a.dns_name == b.dns_name
    && same_protocol a.protocol b.protocol
    && a.port == b.port
    && a.health_path == b.health_path
    && a.readiness_path == b.readiness_path
    && a.connect_ms == b.connect_ms
    && a.read_ms == b.read_ms
    && a.write_ms == b.write_ms
    && a.retries == b.retries
    && same_bool a.by_middleware b.by_middleware
    && same_text a.tls_server_name b.tls_server_name

-- a name within an environment
pub record Scoped : Type 0 where
  pub environment : Environment
  pub name : String

abbrev pub scoped_beq : Scoped → Scoped → Bool
scoped_beq a b = a.environment == b.environment && a.name == b.name

-- `key in ids` and `op in operations`
abbrev pub known_scoped : Scoped → List Scoped → Bool
known_scoped key = any (λ k. scoped_beq k key)

-- `services`
abbrev pub bound_otherwise : Scoped → Upstream → List (Scoped × Upstream) → Bool
bound_otherwise key upstream [] = false
bound_otherwise key upstream ((k, u) ∷ services) =
    if scoped_beq k key
    then not (same_upstream u upstream)
    else bound_otherwise key upstream services

-- the loop over `route["operationIds"]`
unfoldable pub add_operations :
    Environment → List String → List Scoped → Result String (List Scoped)
add_operations environment [] operations = ok operations
add_operations environment (o ∷ os) operations = do
  let key : Scoped = record { environment = environment; name = o }
  require (not (known_scoped key operations)) "duplicate_operation_id"
  add_operations environment os (key ∷ operations)

-- `env == old_env and spec["host"] == old_host and effective & old_methods`
abbrev pub competes : Entry → Entry → Bool
competes new old =
    new.environment == old.environment
    && new.host == old.host
    && any (λ m. elem m old.methods) new.methods

-- the body of the loop over the routes that are there
unfoldable pub check_collision : Entry → Entry → Check
check_collision new old =
    if competes new old
    then (do
      both ← overlaps new.route.match new.route.path old.route.match old.route.path
      require (not both) "ambiguous_route_collision")
    else ok tt

-- `effective`
abbrev effective : Document → Route → List String
effective d r = r.methods ++ (if is_empty_list d.policies.cors_origins then [] else "OPTIONS" ∷ [])

abbrev pub entry_of : Document → Route → Entry
entry_of d r = record {
  environment = d.environment;
  host = d.host;
  route = r;
  methods = effective d r;
}

-- the loop over the routes of a document
unfoldable pub add_routes :
    Document → List Route → List Scoped → List Entry → Result String (List Scoped × List Entry)
add_routes d [] operations routes = ok (operations, routes)
add_routes d (r ∷ rs) operations routes = do
  known ← add_operations d.environment r.operation_ids operations
  each (check_collision (entry_of d r)) routes
  add_routes d rs known (routes ++ entry_of d r ∷ [])

abbrev pub id_key : Document → Scoped
id_key d = record { environment = d.environment; name = d.id }

abbrev pub service_key : Document → Scoped
service_key d = record { environment = d.environment; name = d.upstream.service }

-- the loop over the documents; the route table that it has built at the end
unfoldable pub add_documents :
    Authority
    → Date
    → List Document
    → List Scoped
    → List Scoped
    → List (Scoped × Upstream)
    → List Entry
    → Result String (List Entry)
add_documents files today [] ids operations services routes = ok routes
add_documents files today (d ∷ documents) ids operations services routes = do
  validate files today d
  require (not (known_scoped (id_key d) ids)) "duplicate_integration_id"
  require (not (bound_otherwise (service_key d) d.upstream services)) "conflicting_service_binding"
  (known, table) ← add_routes d d.routes operations routes
  add_documents files today documents (id_key d ∷ ids) known
      ((service_key d, d.upstream) ∷ services) table

unfoldable pub validate_set : Authority → Date → List Document → Result String (List Document)
validate_set files today documents = do
  require (not (is_empty_list documents) && leb (length documents) 256) "integration_count_invalid"
  _ ← add_documents files today documents [] [] [] []
  ok documents
