-- ===== src/Admin/Channel/Pinned.antt =====
-- The containers that the requests of one process run in.
use kong.Admin.Program.{and_then-eq-ok, keeps-and_then}
use kong.Base.{String, List, [], ◌∷◌, Option, some, ◌≡◌, sym, ◌∙◌, ap, ok, string_eq}
use kong.Base.Bytes.{Bytes}
use kong.Base.Json.{Fields}
use kong.Admin.Channel.{Codecs, label_of, encode_payload, Body}
use kong.Admin.Channel.Container.{Run, Session, lookup, container_identity}
use kong.Admin.Channel.Exchange.{
  Ask, check_ask, exec_argv, input, read_output, lift, exec, admin_request,
}
use kong.Admin.Channel.Identity.{
  lift-eq-ok, container_identity_keeps, container_identity_records, container_identity_same,
}

module _ {S : Type 0} (run : Run S) (codecs : Codecs) where
  admin_request_keeps :
      (ask : Ask) (session : Session S) (name id : String)
      → lookup name session.identified ≡ some id
      → lookup name (admin_request run codecs ask session).1.identified ≡ some id
  unfolding admin_request exec
  admin_request_keeps ask session name id h =
      let P : Session S → Type 0 = λ s. lookup name s.identified ≡ some id in
      keeps-and_then P (lift (check_ask codecs ask) session) _ h (λ path s0 h0.
        keeps-and_then P (container_identity run codecs ask.container s0) _
          (container_identity_keeps run codecs ask.container s0 name id h0)
          (λ identifier s1 h1.
            keeps-and_then P
              (lift
                (encode_payload codecs (label_of codecs ask.method path) ask.payload_encoding path
                  ask.payload)
                s1)
              _ h1
              (λ body s2 h2.
                keeps-and_then P
                  (exec run codecs (exec_argv identifier ask.method body path) (input body)
                    (label_of codecs ask.method path) s2)
                  _ h2
                  (λ stdout s3 h3.
                    keeps-and_then P (container_identity run codecs ask.container s3) _
                      (container_identity_keeps run codecs ask.container s3 name id h3)
                      (λ same s4 h4. h4)))))

  -- the session after a series of requests, whatever they return
  unfoldable pub run_asks : Session S → List Ask → Session S
  run_asks session [] = session
  run_asks session (ask ∷ asks) = run_asks (admin_request run codecs ask session).1 asks

  -- How a request returns: its container has an identity before it and the same one after it, the
  -- command ran inside that container, and what it wrote is a good answer.
  pub record Exchange (ask : Ask) (session : Session S) (id : String) (out : Option Fields)
      (session' : Session S) : Type 0 where
    pub path : String
    pub body : Option Body
    pub stdout : Bytes
    pub entered : Session S
    pub left : Session S
    pub checked : check_ask codecs ask ≡ ok path
    pub before : container_identity run codecs ask.container session ≡ (ok id, entered)
    pub encoded :
        encode_payload codecs
          (label_of codecs ask.method path)
          ask.payload_encoding
          path
          ask.payload
        ≡ ok body
    pub ran :
        exec run codecs
          (exec_argv id ask.method body path)
          (input body)
          (label_of codecs ask.method path)
          entered
        ≡ (ok stdout, left)
    pub after : container_identity run codecs ask.container left ≡ (ok id, session')
    pub read : read_output codecs ask.method path stdout ≡ ok out

  run_asks_keeps :
      (session : Session S) (asks : List Ask) (name id : String)
      → lookup name session.identified ≡ some id
      → lookup name (run_asks session asks).identified ≡ some id
  unfolding run_asks
  run_asks_keeps session [] name id h = h
  run_asks_keeps session (ask ∷ asks) name id h =
      run_asks_keeps (admin_request run codecs ask session).1 asks name id
        (admin_request_keeps ask session name id h)

  exec_identified :
      (argv : List String) (bytes : Bytes) (label : String) (s : Session S) (out : Bytes)
      (s' : Session S)
      → exec run codecs argv bytes label s ≡ (ok out, s')
      → s'.identified ≡ s.identified
  unfolding exec
  exec_identified argv bytes label s out s' h = sym (ap (λ p. p.1.identified) h)

  -- the steps of a request that returns, put together
  admin_request-Exchange :
      (ask : Ask) (session s0 s1 s2 s3 s4 session' : Session S) (path id again : String)
      (body : Option Body) (stdout : Bytes) (out : Option Fields)
      → (check_ask codecs ask ≡ ok path) × (session ≡ s0)
      → container_identity run codecs ask.container s0 ≡ (ok id, s1)
      → (encode_payload codecs
            (label_of codecs ask.method path)
            ask.payload_encoding
            path
            ask.payload
          ≡ ok body)
        × (s1 ≡ s2)
      → exec run codecs
          (exec_argv id ask.method body path)
          (input body)
          (label_of codecs ask.method path)
          s2
        ≡ (ok stdout, s3)
      → container_identity run codecs ask.container s3 ≡ (ok again, s4)
      → (read_output codecs ask.method path stdout ≡ ok out) × (s4 ≡ session')
      → Exchange ask session id out session'
  admin_request-Exchange ask session s0 s1 s2 s3 s4 session' path id again body stdout out
        (checked, same0) before (encoded, same1) ran after (read, same4) =
      let argv = exec_argv id ask.method body path in
      let label = label_of codecs ask.method path in
      let known : lookup ask.container s3.identified ≡ some id =
        ap (lookup ask.container) (
          exec_identified argv (input body) label s2 stdout s3 ran
          ∙ ap (λ s. s.identified) (sym same1))
        ∙ container_identity_records run codecs ask.container s0 id s1 before in
      let one = container_identity_same run codecs ask.container s3 id again s4 known after in
      record {
        path = path;
        body = body;
        stdout = stdout;
        entered = s1;
        left = s3;
        checked = checked;
        before = ap (container_identity run codecs ask.container) same0 ∙ before;
        encoded = encoded;
        ran = ap (exec run codecs argv (input body) label) same1 ∙ ran;
        after = after ∙ ap (λ s. (ok again, s)) same4 ∙ ap (λ i. (ok i, session')) one;
        read = read;
      }

  admin_request_sound :
      (ask : Ask) (session : Session S) (out : Option Fields) (session' : Session S)
      → admin_request run codecs ask session ≡ (ok out, session')
      → (id : String) × Exchange ask session id out session'
  unfolding admin_request
  admin_request_sound ask session out session' h =
      let (path, s0, e0, h0) = and_then-eq-ok (lift (check_ask codecs ask) session) _ h in
      let (id, s1, e1, h1) = and_then-eq-ok (container_identity run codecs ask.container s0) _ h0 in
      let encoding =
        encode_payload codecs (label_of codecs ask.method path) ask.payload_encoding path
          ask.payload in
      let (body, s2, e2, h2) = and_then-eq-ok (lift encoding s1) _ h1 in
      let (stdout, s3, e3, h3) =
        and_then-eq-ok
          (exec run codecs (exec_argv id ask.method body path) (input body)
            (label_of codecs ask.method path) s2)
          _ h2 in
      let (again, s4, e4, h4) =
        and_then-eq-ok (container_identity run codecs ask.container s3) _ h3 in
      (
        id,
        admin_request-Exchange ask session s0 s1 s2 s3 s4 session' path id again body stdout out
            (lift-eq-ok (check_ask codecs ask) session e0) e1 (lift-eq-ok encoding s1 e2) e3 e4
            (lift-eq-ok (read_output codecs ask.method path stdout) s4 h4),
      )

  -- Two requests to one container name that both return, with whatever requests in between, ran in
  -- one container: it was verified before and after each of them.
  pub admin_requests_one_container :
      (first again : Ask) (between : List Ask) (s s1 s2 : Session S) (out out' : Option Fields)
      → admin_request run codecs first s ≡ (ok out, s1)
      → again.container ≡ first.container
      → admin_request run codecs again (run_asks s1 between) ≡ (ok out', s2)
      → (id : String) × Exchange first s id out s1 × Exchange again (run_asks s1 between) id out' s2
  admin_requests_one_container first again between s s1 s2 out out' h same h' =
      let (id, x) = admin_request_sound first s out s1 h in
      let (id', x') = admin_request_sound again (run_asks s1 between) out' s2 h' in
      let known : lookup first.container s1.identified ≡ some id =
        container_identity_records run codecs first.container x.left id s1 x.after in
      let kept : lookup again.container (run_asks s1 between).identified ≡ some id =
        rw same (run_asks_keeps s1 between first.container id known) in
      let one : id' ≡ id =
        container_identity_same run codecs again.container (run_asks s1 between) id id' x'.entered
          kept x'.before in
      (id, x, rw one at x')
