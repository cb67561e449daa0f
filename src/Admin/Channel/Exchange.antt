-- ===== src/Admin/Channel/Exchange.antt =====
-- `admin_request` of scripts/kong_admin_channel.py: one request inside the verified container.
use Prim.Native.String
use kong.Admin.Program.{and_then}
use kong.Base.{
  ℕ, ◌*◌, ◌+◌, ◌-◌, String, List, [], ◌∷◌, ◌++◌, Bool, true, false, not, ◌&&◌, Option, none, some,
  Result, ok, err, require, ◌>>=◌, ◌>>◌, leb, all, elem, length, ◌==◌, nat_eq, string_eq,
  if◌then◌else◌,
}
use kong.Base.Bytes.{Bytes, is_digit}
use kong.Base.Json.{Json, Fields}
use kong.Admin.Channel.{
  Codecs, max_bytes, methods, validate_admin_path, label_of, encode_payload, Body, response_value,
}
use kong.Admin.Channel.Container.{Completed, Run, Session, docker, container_identity}

-- the arguments of `admin_request`
pub record Ask : Type 0 where
  pub method : String
  pub path : String
  pub payload : Option Json
  pub container : String
  pub payload_encoding : String

abbrev is_there : Option Json → Bool
is_there none = false
is_there (some payload) = true

-- the checks before the container is looked at
unfoldable pub check_ask : Codecs → Ask → Result String String
check_ask codecs ask = do
  require (elem ask.method methods) (String.◌++◌ "unsupported Kong Admin method: " ask.method)
  require (elem ask.payload_encoding ("json" ∷ "form" ∷ []))
      (String.◌++◌ "unsupported Kong Admin payload encoding: " ask.payload_encoding)
  path ← validate_admin_path codecs ask.path
  require (not (is_there ask.payload && ask.method == "GET"))
      (String.◌++◌ (label_of codecs ask.method path) ": GET must not carry a body")
  ok path

abbrev interactive : Option Body → List String
interactive none = []
interactive (some body) = "--interactive" ∷ []

abbrev data_args : Option Body → List String
data_args none = []
data_args (some body) =
    "--header" ∷ String.◌++◌ "Content-Type: " body.content_type ∷ "--data-binary" ∷ "@-" ∷ []

abbrev pub curl : String → Option Body → List String
curl method body =
    "curl"
    ∷ "--disable"
    ∷ "--noproxy"
    ∷ "*"
    ∷ "--proto"
    ∷ "=http"
    ∷ "--request"
    ∷ method
    ∷ "--silent"
    ∷ "--show-error"
    ∷ "--connect-timeout"
    ∷ "2"
    ∷ "--max-time"
    ∷ "10"
    ∷ "--max-filesize"
    ∷ "2097152"
    ∷ "--write-out"
    ∷ "\n%{http_code}"
    ∷ data_args body

-- the command line: `docker exec` in the container of this identity
abbrev pub exec_argv : String → String → Option Body → String → List String
exec_argv identifier method body path =
    docker
    ++ ("exec" ∷ [])
    ++ interactive body
    ++ identifier ∷ (curl method body ++ String.◌++◌ "http://127.0.0.1:8001" path ∷ [])

abbrev pub input : Option Body → Bytes
input none = []
input (some body) = body.bytes

-- `stdout` of a process that went well
abbrev pub output_of : String → Option Completed → Result String Bytes
output_of label none = err (String.◌++◌ label ": private channel transport failure")
output_of label (some result) =
    if result.is_success && leb (length result.stdout) max_bytes
    then ok result.stdout
    else err (String.◌++◌ label ": private channel transport failure")

-- `rpartition(b"\n")`, `none` where the separator is empty
abbrev pub last_line : Bytes → Option (Bytes × Bytes)
last_line [] = none
last_line (c ∷ rest) = elim (last_line rest) [
  | some (raw, status) ↦ some (c ∷ raw, status)
  | none ↦ if c == b'\n' then some ([], rest) else none
]

abbrev status_value : Bytes → ℕ
status_value [] = 0
status_value (c ∷ status) = (c - b'0') * hundred status + status_value status
  where
    hundred : Bytes → ℕ
    hundred [] = 1
    hundred (c ∷ status) = 10 * hundred status

-- the lines after `confirm_unchanged`
unfoldable pub read_output : Codecs → String → String → Bytes → Result String (Option Fields)
read_output codecs method path stdout = elim (last_line stdout) [
  | none ↦ err (String.◌++◌ (label_of codecs method path) ": unreadable response")
  | some (raw, status) ↦
      if all is_digit status && length status == 3
      then response_value codecs method path (status_value status) raw
      else err (String.◌++◌ (label_of codecs method path) ": unreadable response")
]

abbrev pub lift : {A S : Type 0} → Result String A → S → Result String A × S
lift r s = (r, s)

module _ {S : Type 0} (run : Run S) (codecs : Codecs) where
  -- `subprocess.run` of a command line, on the host of a session
  unfoldable pub exec : List String → Bytes → String → Session S → Result String Bytes × Session S
  exec argv bytes label session =
      let (result, host) = run argv bytes session.host in
      (output_of label result, record session { host = host })

  unfoldable pub admin_request : Ask → Session S → Result String (Option Fields) × Session S
  admin_request ask session = and_then (lift (check_ask codecs ask) session) (λ path s0.
      and_then (container_identity run codecs ask.container s0) (λ identifier s1.
        and_then
          (lift
            (encode_payload codecs (label_of codecs ask.method path) ask.payload_encoding path
              ask.payload)
            s1)
          (λ body s2.
            and_then
              (exec (exec_argv identifier ask.method body path) (input body)
                (label_of codecs ask.method path) s2)
              (λ stdout s3.
                and_then (container_identity run codecs ask.container s3)
                  (λ same s4. lift (read_output codecs ask.method path stdout) s4)))))
