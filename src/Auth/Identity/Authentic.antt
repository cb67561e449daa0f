-- ===== src/Auth/Identity/Authentic.antt =====
-- What `identity` establishes about a caller that it lets through.
use kong.Base.{
  ok_injective, some_injective, none-ne-some, [], ◌∷◌, ◌++◌, Bool, true, false, not, ◌&&◌, Option,
  none, some, ok, ◌≡◌, ◌↔◌, ◌≢◌, refl, sym, ◌∙◌, arith, ap, false≢true, >>-eq-ok, >>=-eq-ok, elem,
  elem_iff, In, ◌==◌, Bool-cases, inl, inr, eq-false_of_not, and_true,
}
use kong.Base.Int.{ℤ, le_int, ◌<ℤ◌}
use kong.Base.Text.{codes}
use kong.Base.Bytes.{Bytes, bytes_eq, bytes_beq_iff, starts, starts-eq, starts-append, drop, words}
use kong.Auth.Failure.{Failure, denied, crashed, Headers, get_header, text_or_empty}
use kong.Auth.Identity.{
  TokenHeader, Claims, Tenant, Services, Context, authorized_party, bearer, has_algorithm_and_kid,
  or_deny, verified_claims, allowed, may_use, is_spoofed, authorization, identity,
}

abbrev is_nil : Bytes → Bool
is_nil [] = true
is_nil (c ∷ text) = false

pub or_deny-eq-ok :
    {A : Type 0} (o : Option A) (f : Failure) {a : A} → or_deny o f ≡ ok a → o ≡ some a
or_deny-eq-ok none f h = cc
or_deny-eq-ok (some a) f h = cc

-- a header's text that is not empty is there
text-eq_some :
    (o : Option Bytes) {text : Bytes} → text_or_empty o ≡ text → is_nil text ≡ false → o ≡ some text
text-eq_some none e n = absurd (false≢true (sym n ∙ rw (← e) refl))
text-eq_some (some t) e n = ap some e

not-eq-nil : (text : Bytes) → text ≢ [] → (text == []) ≡ false
not-eq-nil [] h = absurd (h refl)
not-eq-nil (c ∷ text) h = refl

later : (a b : ℤ) → le_int b a ≡ false → a <ℤ b
later a b h = ground arith

not_le : (a b : ℤ) → a <ℤ b → le_int b a ≡ false
not_le a b h = ground arith

-- The token was signed for this service and party, and its lifetime is not empty.
pub record IsVerified (services : Services) (token : Bytes) (claims : Claims) : Type 0 where
  pub header : TokenHeader
  pub readable : services.unverified_header token ≡ some header
  pub algorithm : header.alg ≡ some (codes "RS256")
  pub key : text_or_empty header.kid ≢ []
  pub decoded : services.decode token ≡ some claims
  pub party : claims.azp ≡ authorized_party
  pub lifetime : claims.iat <ℤ claims.exp

verified_claims_sound :
    (services : Services) (token : Bytes) (claims : Claims)
    → verified_claims services token ≡ ok claims
    → IsVerified services token claims
unfolding verified_claims
verified_claims_sound services token claims h =
    let (header, e1, h1) =
      >>=-eq-ok (or_deny (services.unverified_header token) (denied 401 "invalid_token")) _ h in
    let (a, h2) =
      >>-eq-ok (has_algorithm_and_kid header) (denied 401 "algorithm_or_kid_denied") _ h1 in
    let (c, e2, h3) =
      >>=-eq-ok (or_deny (services.decode token) (denied 401 "invalid_token")) _ h2 in
    let (b, h4) =
      >>-eq-ok (c.azp == authorized_party) (denied 401 "authorized_party_denied") _ h3 in
    let (d, h5) = >>-eq-ok (not (le_int c.exp c.iat)) (denied 401 "token_lifetime_denied") _ h4 in
    let (rs, kid) = and_true _ _ a in
    let same : c ≡ claims = ok_injective h5 in
    record {
      header = header;
      readable = or_deny-eq-ok (services.unverified_header token) _ e1;
      algorithm = text-eq_some header.alg ((bytes_beq_iff _ _).0 rs) refl;
      key = λ nil. false≢true (sym (eq-false_of_not _ kid) ∙ (bytes_beq_iff _ _).1 nil);
      decoded = rw (← same) (or_deny-eq-ok (services.decode token) _ e2);
      party = rw (← same) ((bytes_beq_iff _ _).0 b);
      lifetime = rw (← same) (later c.iat c.exp (eq-false_of_not _ d));
    }

verified_claims_complete :
    (services : Services) (token : Bytes) (claims : Claims)
    → IsVerified services token claims
    → verified_claims services token ≡ ok claims
unfolding verified_claims
verified_claims_complete services token claims v =
    let alg : (text_or_empty v.header.alg == codes "RS256") ≡ true = rw v.algorithm refl in
    let kid : (text_or_empty v.header.kid == []) ≡ false = not-eq-nil _ v.key in
    let party : (claims.azp == authorized_party) ≡ true = (bytes_beq_iff _ _).1 v.party in
    let lifetime : le_int claims.exp claims.iat ≡ false = not_le claims.iat claims.exp v.lifetime in
    rw v.readable (rw alg (rw kid (rw v.decoded (rw party (rw lifetime refl)))))

-- The caller: no header of the gateway's own is set, the bearer token is verified and carries the
-- scope, and the registry maps its subject to an active tenant that may use the scope.
pub record IsAuthentic (services : Services) (headers : Headers) (required : Bytes)
    (context : Context) : Type 0 where
  pub plain : is_spoofed headers ≡ false
  pub token : Bytes
  pub presented : get_header (codes "authorization") headers ≡ some (bearer ++ token)
  pub claims : Claims
  pub verified : IsVerified services token claims
  pub granted : In required (words claims.scope)
  pub row : Tenant
  pub mapped : services.registered claims.sub ≡ some (some row)
  pub active : row.status ≡ codes "active"
  pub permitted : In required (allowed row.allowed_scopes)
  pub named : context ≡ record { subject = claims.sub; tenant = row.tenant_key; scope = required }

may_use_sound :
    (required : Bytes) (found : Option Tenant) (tenant : Bytes)
    → may_use required found ≡ some tenant
    → (row : Tenant) × (found ≡ some row)
      × (row.status ≡ codes "active")
      × In required (allowed row.allowed_scopes)
      × (row.tenant_key ≡ tenant)
may_use_sound required none tenant h = cc
may_use_sound required (some row) tenant h =
    elim (Bool-cases (row.status == codes "active" && elem required (allowed row.allowed_scopes))) [
      | inl both ↦
          let (a, b) = and_true _ _ both in
          (row, refl, (bytes_beq_iff _ _).0 a, (elem_iff _ _).0 b, some_injective (rw both at h))
      | inr neither ↦ absurd (none-ne-some (rw neither at h))
    ]

identity_sound :
    (services : Services) (headers : Headers) (required : Bytes) (context : Context)
    → identity services headers required ≡ ok context
    → IsAuthentic services headers required context
unfolding identity
identity_sound services headers required context h =
    let (plain, h1) =
      >>-eq-ok (not (is_spoofed headers)) (denied 403 "spoofed_identity_header") _ h in
    let (start, h2) =
      >>-eq-ok (starts (authorization headers) bearer) (denied 401 "missing_token") _ h1 in
    let (claims, v, h3) =
      >>=-eq-ok (verified_claims services (drop 7 (authorization headers))) _ h2 in
    let (scoped, h4) =
      >>-eq-ok (elem required (words claims.scope)) (denied 403 "scope_denied") _ h3 in
    let (found, e1, h5) = >>=-eq-ok (or_deny (services.registered claims.sub) crashed) _ h4 in
    let (tenant, e2, h6) =
      >>=-eq-ok (or_deny (may_use required found) (denied 403 "identity_or_scope_unmapped")) _ h5 in
    let (row, is_row, active, permitted, key) =
      may_use_sound required found tenant (or_deny-eq-ok (may_use required found) _ e2) in
    record {
      plain = eq-false_of_not _ plain;
      token = drop 7 (authorization headers);
      presented = text-eq_some _ (starts-eq (authorization headers) bearer start) refl;
      claims = claims;
      verified = verified_claims_sound services _ claims v;
      granted = (elem_iff _ _).0 scoped;
      row = row;
      mapped = or_deny-eq-ok (services.registered claims.sub) _ e1 ∙ ap some is_row;
      active = active;
      permitted = permitted;
      named =
          sym (ok_injective h6)
          ∙ ap (λ t. record { subject = claims.sub; tenant = t; scope = required }) (sym key);
    }

identity_complete :
    (services : Services) (headers : Headers) (required : Bytes) (context : Context)
    → IsAuthentic services headers required context
    → identity services headers required ≡ ok context
unfolding identity
identity_complete services headers required context a =
    let auth : authorization headers ≡ bearer ++ a.token = rw a.presented refl in
    let start : starts (authorization headers) bearer ≡ true =
      rw auth (starts-append a.token bearer) in
    let rest : drop 7 (authorization headers) ≡ a.token = rw auth refl in
    let granted : elem required (words a.claims.scope) ≡ true = (elem_iff _ _).1 a.granted in
    let active : (a.row.status == codes "active") ≡ true = (bytes_beq_iff _ _).1 a.active in
    let permitted : elem required (allowed a.row.allowed_scopes) ≡ true =
      (elem_iff _ _).1 a.permitted in
    rw a.plain (
      rw start (
        rw rest (
          rw (verified_claims_complete services a.token a.claims a.verified)
            (rw granted (rw a.mapped (rw (active) (rw permitted (ap ok (sym a.named)))))))))

-- The caller is let through, with this context, exactly when it is authentic.
pub identity-eq-ok_iff :
    (services : Services) (headers : Headers) (required : Bytes) (context : Context)
    → (identity services headers required ≡ ok context)
      ↔ IsAuthentic services headers required context
identity-eq-ok_iff services headers required context = (
  identity_sound services headers required context,
  identity_complete services headers required context,
)
