-- ===== src/Admin/Channel/Identity.antt =====
-- What the record of identities of scripts/kong_admin_channel.py keeps.
use kong.Base.{String, some, ◌≡◌, ap, arith, Result, ok, err, string_eq, eq_iff}
use kong.Admin.Channel.{Codecs}
use kong.Admin.Channel.Container.{Run, Session, lookup, container_identity, record_identity}
use kong.Admin.Channel.Exchange.{lift}

pub lift-eq-ok :
    {A S : Type 0} (r : Result String A) (s : S) {a : A} {s' : S}
    → lift r s ≡ (ok a, s')
    → (r ≡ ok a) × (s ≡ s')
lift-eq-ok r s h = (ap (λ p. p.0) h, ap (λ p. p.1) h)

pub record_identity_keeps :
    {S : Type 0} (container : String) (session : Session S) (host : S)
    (verified : Result String String) (name id : String)
    → lookup name session.identified ≡ some id
    → lookup name (record_identity container session host verified).1.identified ≡ some id
unfolding record_identity lookup
record_identity_keeps container session host (err message) name id h = h
record_identity_keeps container session host (ok current) name id h =
    ground (arith, eq_iff container name, eq_iff current id)

pub record_identity_records :
    {S : Type 0} (container : String) (session : Session S) (host : S)
    (verified : Result String String) (id : String) (session' : Session S)
    → record_identity container session host verified ≡ (ok id, session')
    → lookup container session'.identified ≡ some id
unfolding record_identity lookup
record_identity_records container session host (err message) id session' h = ground arith
record_identity_records container session host (ok current) id session' h =
    ground (arith, eq_iff container container)

-- an identity that is on record is the only one that is accepted
pub record_identity_same :
    {S : Type 0} (container : String) (session : Session S) (host : S)
    (verified : Result String String) (id current : String) (session' : Session S)
    → lookup container session.identified ≡ some id
    → record_identity container session host verified ≡ (ok current, session')
    → current ≡ id
unfolding record_identity
record_identity_same container session host (err message) id current session' h e = ground arith
record_identity_same container session host (ok found) id current session' h e =
    ground (arith, eq_iff found id)

module _ {S : Type 0} (run : Run S) (codecs : Codecs) where
  pub container_identity_keeps :
      (container : String) (session : Session S) (name id : String)
      → lookup name session.identified ≡ some id
      → lookup name (container_identity run codecs container session).1.identified ≡ some id
  unfolding container_identity
  container_identity_keeps container session name id h =
      record_identity_keeps container session _ _ name id h

  pub container_identity_records :
      (container : String) (session : Session S) (id : String) (session' : Session S)
      → container_identity run codecs container session ≡ (ok id, session')
      → lookup container session'.identified ≡ some id
  unfolding container_identity
  container_identity_records container session id session' h =
      record_identity_records container session _ _ id session' h

  pub container_identity_same :
      (container : String) (session : Session S) (id current : String) (session' : Session S)
      → lookup container session.identified ≡ some id
      → container_identity run codecs container session ≡ (ok current, session')
      → current ≡ id
  unfolding container_identity
  container_identity_same container session id current session' h e =
      record_identity_same container session _ _ id current session' h e
