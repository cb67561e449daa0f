-- ===== src/Auth/Tests.antt =====
-- Runs of the handlers of app.py on small requests, and the conditions of their theorems there.
use kong.Base.{
  [], ◌∷◌, true, false, none, some, ◌≡◌, ◌↔◌, refl, ok, err, arith, ◌==◌, if◌then◌else◌,
}
use kong.Base.Int.{pos}
use kong.Base.Text.{codes}
use kong.Base.Bytes.{Bytes, bytes_eq, words}
use kong.Auth.Failure.{Headers, denied, get_header, is_json}
use kong.Auth.Identity.{Claims, Tenant, Services, Context, identity, verified_claims}
use kong.Auth.Identity.Authentic.{IsAuthentic, identity-eq-ok_iff}
use kong.Auth.Store.{Key, State, no_faults, find_row, insert_row, purge_rows, Faults, insert}
use kong.Auth.Command.{
  object, Decoders, Request, admit, command, response_for, transact, look_up_or_insert, unavailable,
}
use kong.Auth.Command.Once.{Call, run_commands, command_once}
use kong.Auth.Command.Atomic.{LeftBy, command_denied_adds_nothing}

-- a token server that knows one token, of one caller
abbrev caller : Claims
caller = record {
  azp = codes "codestra-cert-machine";
  sub = codes "machine-7";
  iat = pos 100;
  exp = pos 400;
  scope = codes "openid sms.send";
}

abbrev acme : Tenant
acme = record {
  tenant_key = codes "acme";
  status = codes "active";
  allowed_scopes = some (codes "sms.send" ∷ []);
}

abbrev services : Services
services = record {
  unverified_header =
      λ token. some (record { alg = some (codes "RS256"); kid = some (codes "k1") });
  decode = λ token. if token == codes "t0ken" then some caller else none;
  registered = λ subject. some (if subject == codes "machine-7" then some acme else none);
}

-- a body is read as an object of the tenant that it spells, and is its own digest
abbrev decoders : Decoders
decoders = record { loads = λ body. some (object (some (codes "acme"))); sha256 = λ body. body }

abbrev headers : Headers
headers =
    (codes "authorization", codes "Bearer t0ken")
    ∷ (codes "content-type", codes "application/json; charset=utf-8")
    ∷ (codes "idempotency-key", codes "order-1")
    ∷ []

abbrev sent : Bytes → Request
sent body = record { family = codes "sms"; headers = headers; body = body }

abbrev order_key : Key
order_key = record { tenant = codes "acme"; family = codes "sms"; key = codes "order-1" }

abbrev fresh_state : State
fresh_state = record { idempotency = []; webhook_replay = [] }

abbrev machine : Context
machine = record { subject = codes "machine-7"; tenant = codes "acme"; scope = codes "sms.send" }

-- another command of the caller, in between
abbrev between : Call
between = record {
  services = services;
  decoders = decoders;
  fails = no_faults;
  now = 5000;
  later = 5000;
  request = sent (codes "b");
}

abbrev full_disk : Faults
full_disk insert = true
full_disk _ = false

-- The caller of the request is authentic, and the row of its tenant says so.
identity-eq-ok_iff_example :
    (identity services headers (codes "sms.send") ≡ ok machine)
    ↔ IsAuthentic services headers (codes "sms.send") machine
identity-eq-ok_iff_example = identity-eq-ok_iff services headers (codes "sms.send") machine

identified : identity services headers (codes "sms.send") ≡ ok machine
unfolding identity verified_claims get_header words
identified = refl

-- a request that only the gateway may shape
spoofed :
    identity services ((codes "x-codestra-tenant", codes "acme") ∷ headers) (codes "sms.send")
    ≡ err (denied 403 "spoofed_identity_header")
unfolding identity get_header
spoofed = refl

sent-admitted : (body : Bytes) → admit services decoders (sent body) ≡ ok (order_key, body)
unfolding admit identity verified_claims get_header words is_json
sent-admitted body = refl

-- The second request, twenty days later and after another, repeats the first answer.
command_once_example :
    (command services decoders no_faults 2000001 2000001 (sent (codes "a")) (
      run_commands
        (command services decoders no_faults 1000 1001 (sent (codes "a")) fresh_state).1
        (between ∷ []))).0
    ≡ (if codes "a" == codes "a"
        then ok (response_for (codes "a"))
        else err (denied 409 "idempotency_conflict"))
unfolding command transact look_up_or_insert insert_row find_row purge_rows
command_once_example =
    command_once services decoders no_faults 1000 1001 (sent (codes "a")) fresh_state order_key
      (codes "a") (response_for (codes "a")) (between ∷ []) services decoders 2000001 2000001
      (sent (codes "a")) (codes "a") (sent-admitted (codes "a")) refl
      (rw (sent-admitted (codes "a")) refl) (omega arith, tt) (sent-admitted (codes "a"))
      (omega arith)

-- A database that fails at the `INSERT`: the answer is 503, and nothing is added.
command_denied_adds_nothing_example :
    LeftBy 1000 fresh_state (command services decoders full_disk 1000 1001 (sent []) fresh_state).1
unfolding command transact look_up_or_insert find_row purge_rows
command_denied_adds_nothing_example =
    command_denied_adds_nothing services decoders full_disk 1000 1001 (sent []) fresh_state
      unavailable (rw (sent-admitted []) refl)
