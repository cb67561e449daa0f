-- ===== src/Admin/Channel/Container.antt =====
-- scripts/kong_admin_channel.py: the container that the channel enters. `subprocess.run` is the
-- parameter `run`, over the state `S` of the host; `none` is an exception that it raises.
use kong.Base.{
  ℕ, String, List, [], ◌∷◌, ◌++◌, Bool, true, false, not, ◌&&◌, ◌||◌, Option, none, some, Result,
  ok, err, require, ◌>>=◌, ◌>>◌, leb, any, all, elem, length, ◌==◌, nat_eq, string_eq,
  if◌then◌else◌,
}
use kong.Base.Int.{ℤ, pos}
use kong.Base.Text.{codes, is_empty}
use kong.Base.Bytes.{Bytes, bytes_eq, starts, is_digit}
use kong.Base.Json.{Json, null, bool, num, str, arr, obj, nil, cons, Fields, end, field, get}
use kong.Admin.Rows.{or_raise}
use kong.Admin.Channel.{Codecs, max_bytes, is_alphanumeric}

-- what `subprocess.run` returns
pub record Completed : Type 0 where
  pub is_success : Bool
  pub stdout : Bytes

abbrev pub Run : Type 0 → Type 0
Run S = List String → Bytes → S → Option Completed × S

-- `_IDENTIFIED`, and the host
pub record Session (S : Type 0) : Type 0 where
  pub identified : List (String × String)
  pub host : S

abbrev pub docker : List String
docker = "docker" ∷ "--host" ∷ "unix:///var/run/docker.sock" ∷ []

-- `INSPECT_FORMAT`
abbrev inspect_format : String
inspect_format =
    "{\"id\":{{json .Id}},\"running\":{{json .State.Running}},\"network_mode\":{{json .HostConfig.NetworkMode}},\"ports\":{{json .HostConfig.PortBindings}},\"service\":{{json (index .Config.Labels \"com.docker.compose.service\")}},\"listeners\":[{{range .Config.Env}}{{if or (eq (index (split . \"=\") 0) \"KONG_ADMIN_LISTEN\") (eq (index (split . \"=\") 0) \"KONG_ADMIN_GUI_LISTEN\")}}{{json .}},{{end}}{{end}}null]}"

abbrev pub inspect_argv : String → List String
inspect_argv container = docker ++ "inspect" ∷ "--format" ∷ inspect_format ∷ container ∷ []

abbrev is_name_code : ℕ → Bool
is_name_code c = is_alphanumeric c || elem c (codes "_.-")

-- `CONTAINER_NAME.fullmatch(container)`
abbrev matches_name : Bytes → Bool
matches_name [] = false
matches_name (c ∷ rest) = is_alphanumeric c && all is_name_code rest && leb (length rest) 127

abbrev is_hex : ℕ → Bool
is_hex c = is_digit c || leb b'a' c && leb c b'f'

-- `IDENTITY.fullmatch(identifier)`
abbrev matches_identity : String → Bool
matches_identity text = all is_hex (codes text) && length (codes text) == 64

-- the truth of a value
abbrev is_true : Json → Bool
is_true null = false
is_true (bool b) = b
is_true (num n) = not_zero n
  where
    not_zero : ℤ → Bool
    not_zero (pos ℕ.zero) = false
    not_zero _ = true
is_true (str text) = not (is_empty text)
is_true (arr nil) = false
is_true (arr (cons item items)) = true
is_true (obj end) = false
is_true (obj (field key value rest)) = true

-- `run_json` after the process
unfoldable pub json_of : Codecs → Option Completed → Result String Fields
json_of codecs none = err "kong gateway inspection failed"
json_of codecs (some result) = do
  require (result.is_success && leb (length result.stdout) max_bytes)
      "kong gateway inspection failed"
  value ← or_raise (codecs.loads result.stdout) "invalid kong gateway metadata"
  dict_of value
  where
    dict_of : Json → Result String Fields
    dict_of (obj fields) = ok fields
    dict_of _ = err "invalid kong gateway metadata"

abbrev identifier_of : Option Json → Result String String
identifier_of (some (str text)) =
    if matches_identity text then ok text else err "invalid kong gateway identity"
identifier_of _ = err "invalid kong gateway identity"

abbrev is_running : Option Json → Bool
is_running (some (bool b)) = b
is_running _ = false

abbrev is_service : Option Json → Bool
is_service (some (str text)) = text == "kong-gateway"
is_service _ = false

abbrev own_network : Option Json → Bool
own_network (some (str mode)) =
    not (mode == "host" || mode == "none" || starts (codes mode) (codes "container:"))
own_network _ = false

abbrev admin_listen : String
admin_listen = "KONG_ADMIN_LISTEN=127.0.0.1:8001"

abbrev gui_listen : String
gui_listen = "KONG_ADMIN_GUI_LISTEN=off"

-- three items, of which the last is `None`, and the texts among them are the two listeners
abbrev listens : Option Json → Bool
listens (some (arr (cons (str a) (cons (str b) (cons null nil))))) =
    a == admin_listen && b == gui_listen || a == gui_listen && b == admin_listen
listens _ = false

abbrev is_published : Fields → String → Bool
is_published ports port = elim (get port ports) [ none ↦ false | some value ↦ is_true value ]

abbrev admin_ports : List String
admin_ports = "8001/tcp" ∷ "8444/tcp" ∷ "8002/tcp" ∷ "8445/tcp" ∷ []

-- `value.get("ports") or {}` publishes no port of the Admin API
abbrev unpublished : Option Json → Bool
unpublished none = true
unpublished (some (obj ports)) = not (any (is_published ports) admin_ports)
unpublished (some value) = not (is_true value)

-- `verify_container` after the inspection
unfoldable pub check_metadata : Fields → Result String String
unfolding get
check_metadata value = do
  identifier ← identifier_of (get "id" value)
  require (is_running (get "running" value) && is_service (get "service" value))
      "selected container is not the running kong gateway"
  require (own_network (get "network_mode" value)) "kong gateway shares a network namespace"
  require (listens (get "listeners" value)) "unapproved kong admin listener configuration"
  require (unpublished (get "ports" value)) "kong admin is published on the host"
  ok identifier

unfoldable pub lookup : String → List (String × String) → Option String
lookup name [] = none
lookup name ((n, id) ∷ rest) = if n == name then some id else lookup name rest

-- `previous is not None and current != previous`
abbrev changed : Option String → String → Bool
changed none current = false
changed (some previous) current = not (current == previous)

-- the lines after the inspection: the identity is recorded, unless it has changed
unfoldable pub record_identity :
    {S : Type 0} → String → Session S → S → Result String String → Result String String × Session S
unfolding lookup
record_identity container session host (err message) = (err message, record session { host = host })
record_identity container session host (ok current) =
    if changed (lookup container session.identified) current
    then (err "kong gateway container changed during the operation", record session { host = host })
    else (
      ok current,
      record { identified = (container, current) ∷ session.identified; host = host },
    )

module _ {S : Type 0} (run : Run S) (codecs : Codecs) where
  -- `verify_container`
  unfoldable pub verify_container : String → S → Result String String × S
  verify_container container s =
      if not (matches_name (codes container))
      then (err "invalid kong gateway container name", s)
      else (let (result, s') = run (inspect_argv container) [] s in
          (json_of codecs result >>= check_metadata, s'))

  -- `container_identity`, and `confirm_unchanged`, which does the same
  unfoldable pub container_identity : String → Session S → Result String String × Session S
  container_identity container session =
      let (verified, host) = verify_container container session.host in
      record_identity container session host verified
