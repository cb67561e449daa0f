-- ===== src/Gateway/Set/Unambiguous.antt =====
-- The routes of a set that is accepted never compete for a request.
use kong.Gateway.Document.{
  Upstream, Environment, environment_eq, environment_beq_iff, Date, Route, Document, Authority,
}
use kong.Gateway.Overlap.Decides.{overlaps_lem, overlaps_parts_complete}
use mathlib.Core.List.{append_assoc, append-nil}
use kong.Base.{
  String, List, [], ◌∷◌, ◌++◌, true, not, ◌&&◌, ok, ◌≡◌, refl, sym, ◌∙◌, ap, any, elem, elem_iff,
  In, All, All-append, string_eq, eq_iff, or_right, inl, inr, >>-eq-ok, >>=-eq-ok, ok_injective,
  err-ne-ok, leb, length,
}
use kong.Gateway.Paths.{path_segments}
use kong.Gateway.Overlap.{Takes, overlaps}
use kong.Gateway.Checks.{each, is_empty_list}
use kong.Gateway.Validate.{validate}
use kong.Gateway.Set.{
  known_scoped, bound_otherwise, id_key, service_key, Entry, Scoped, competes, check_collision,
  entry_of, add_operations, add_routes, add_documents, validate_set,
}

-- A request that reaches a gateway: its environment, host, method and the segments of its path.
pub record Request : Type 0 where
  pub environment : Environment
  pub host : String
  pub method : String
  pub segments : List String

-- The entry is for this request.
pub record Serves (e : Entry) (q : Request) : Type 0 where
  pub environment : e.environment ≡ q.environment
  pub host : e.host ≡ q.host
  pub method : In q.method e.methods
  pub parts : List String
  pub readable : path_segments e.route.path ≡ ok parts
  pub taken : Takes e.route.match parts q.segments

abbrev pub Apart : Entry → Entry → Type 0
Apart e f = (q : Request) → ¬ (Serves e q × Serves f q)

any-In : (m : String) (xs ys : List String) → In m xs → In m ys → any (λ x. elem x ys) xs ≡ true
any-In m [] ys p q = elim p [ ]
any-In m (x ∷ xs) ys (inl e) q = rw (← e, (elem_iff m ys).1 q) refl
any-In m (x ∷ xs) ys (inr p) q = or_right (elem x ys) (any-In m xs ys p q)

competes_of_Serves : (e f : Entry) (q : Request) → Serves e q → Serves f q → competes e f ≡ true
competes_of_Serves e f q a b =
    rw
      (
        (environment_beq_iff e.environment f.environment).1 (a.environment ∙ sym b.environment),
        (eq_iff e.host f.host).1 (a.host ∙ sym b.host),
      )
      (any-In q.method e.methods f.methods a.method b.method)

-- A check that passes keeps the two entries apart.
check_collision_sound : (new old : Entry) → check_collision new old ≡ ok tt → Apart old new
unfolding check_collision
check_collision_sound new old h q (b, a) =
    let both =
      overlaps_parts_complete new.route.match old.route.match a.parts b.parts q.segments a.taken
        b.taken in
    let found : overlaps new.route.match new.route.path old.route.match old.route.path ≡ ok true =
      overlaps_lem _ _ _ _ a.parts b.parts a.readable b.readable ∙ ap ok both in
    err-ne-ok (rw (competes_of_Serves new old q a b, found) at h)

each_sound :
    (new : Entry) (routes : List Entry)
    → each (check_collision new) routes ≡ ok tt
    → All (λ old. Apart old new) routes
each_sound new [] h = tt
each_sound new (old ∷ routes) h =
    let (u, e, rest) = >>=-eq-ok (check_collision new old) _ h in
    (check_collision_sound new old e, each_sound new routes rest)

-- No two entries of a table serve one request.
abbrev pub IsUnambiguous : List Entry → Type 0
IsUnambiguous [] = Unit
IsUnambiguous (e ∷ es) = All (Apart e) es × IsUnambiguous es

IsUnambiguous-append :
    (routes : List Entry) (new : Entry)
    → IsUnambiguous routes
    → All (λ old. Apart old new) routes
    → IsUnambiguous (routes ++ new ∷ [])
IsUnambiguous-append [] new u a = (tt, tt)
IsUnambiguous-append (e ∷ routes) new (here, u) (apart, a) =
    (All-append (Apart e) routes (new ∷ []) here (apart, tt), IsUnambiguous-append routes new u a)

-- the entries of a document, and of a list of documents
pub entries : Document → List Route → List Entry
entries d [] = []
entries d (r ∷ rs) = entry_of d r ∷ entries d rs

pub table_of : List Document → List Entry
table_of [] = []
table_of (d ∷ documents) = entries d d.routes ++ table_of documents

add_routes_sound :
    (d : Document) (rs : List Route) (operations : List Scoped) (routes : List Entry)
    (known : List Scoped) (table : List Entry)
    → add_routes d rs operations routes ≡ ok (known, table)
    → IsUnambiguous routes
    → (table ≡ routes ++ entries d rs) × IsUnambiguous table
unfolding add_routes entries
add_routes_sound d [] operations routes known table h u =
    let same : routes ≡ table = ap (λ (t : List Scoped × List Entry). t.1) (ok_injective h) in
    (sym same ∙ sym (append-nil routes), rw (← same) u)
add_routes_sound d (r ∷ rs) operations routes known table h u =
    let (ops, _, h1) = >>=-eq-ok (add_operations d.environment r.operation_ids operations) _ h in
    let (_, checked, h2) = >>=-eq-ok (each (check_collision (entry_of d r)) routes) _ h1 in
    let (grown, fine) =
      add_routes_sound d rs ops (routes ++ entry_of d r ∷ []) known table h2
        (IsUnambiguous-append routes (entry_of d r) u (each_sound (entry_of d r) routes checked)) in
    (grown ∙ append_assoc routes (entry_of d r ∷ []) (entries d rs), fine)

add_documents_sound :
    (files : Authority) (today : Date) (documents : List Document) (ids operations : List Scoped)
    (services : List (Scoped × Upstream)) (routes table : List Entry)
    → add_documents files today documents ids operations services routes ≡ ok table
    → IsUnambiguous routes
    → (table ≡ routes ++ table_of documents) × IsUnambiguous table
unfolding add_documents table_of
add_documents_sound files today [] ids operations services routes table h u =
    let same : routes ≡ table = ok_injective h in
    (sym same ∙ sym (append-nil routes), rw (← same) u)
add_documents_sound files today (d ∷ documents) ids operations services routes table h u =
    let (_, _, h1) = >>=-eq-ok (validate files today d) _ h in
    let (_, h2) = >>-eq-ok (not (known_scoped (id_key d) ids)) "duplicate_integration_id" _ h1 in
    let (_, h3) =
      >>-eq-ok (not (bound_otherwise (service_key d) d.upstream services))
        "conflicting_service_binding" _ h2 in
    let ((known, grown), e, h4) = >>=-eq-ok (add_routes d d.routes operations routes) _ h3 in
    let (part, fine) = add_routes_sound d d.routes operations routes known grown e u in
    let (whole, done) =
      add_documents_sound files today documents (id_key d ∷ ids) known
        ((service_key d, d.upstream) ∷ services) grown table h4 fine in
    (
      whole
          ∙ ap (λ t. t ++ table_of documents) part
          ∙ append_assoc routes (entries d d.routes) (table_of documents),
      done,
    )

-- If a set of integrations is accepted, no request is served by two of its routes, of one document
-- or of two: its environment, host, method and path name at most one.
pub validate_set-IsUnambiguous :
    (files : Authority) (today : Date) (documents out : List Document)
    → validate_set files today documents ≡ ok out
    → IsUnambiguous (table_of documents)
unfolding validate_set
validate_set-IsUnambiguous files today documents out h =
    let (_, h1) =
      >>-eq-ok (not (is_empty_list documents) && leb (length documents) 256)
        "integration_count_invalid" _ h in
    let (table, e, _) = >>=-eq-ok (add_documents files today documents [] [] [] []) _ h1 in
    let (whole, fine) = add_documents_sound files today documents [] [] [] [] table e tt in
    rw whole at fine
