-- ===== src/Admin/Channel.antt =====
-- scripts/kong_admin_channel.py: what a request carries and how an answer is read. urllib.parse and
-- the encoders of the standard library are the fields of `Codecs`.
pub mod Container
pub mod Exchange
pub mod Identity
pub mod Pinned
pub mod Paths
mod Tests
use Prim.Native.String
use kong.Base.{
  ℕ, ◌*◌, ◌-◌, ◌+◌, String, List, [], ◌∷◌, ◌++◌, Bool, true, false, not, ◌&&◌, ◌||◌, Option, none,
  some, Result, ok, err, require, ◌>>=◌, ◌>>◌, ltb, leb, any, all, elem, length, ◌==◌, nat_eq,
  string_eq, if◌then◌else◌,
}
use kong.Base.Text.{codes, split, begins, doubled, is_empty}
use kong.Base.Bytes.{Bytes, is_digit, strip}
use kong.Base.Json.{Json, null, bool, num, str, arr, obj, Items, nil, cons, Fields, end, field}
use kong.Admin.Rows.{or_raise}

-- `urlsplit` by its parts, `unquote`, and the encoders; `none` where one raises
pub record Codecs : Type 0 where
  pub scheme : String → String
  pub netloc : String → String
  pub path_of : String → String
  pub fragment : String → String
  pub unquote : String → String
  pub urlencode : List (String × List Json) → Option Bytes
  pub dumps : Json → Option Bytes
  pub loads : Bytes → Option Json

abbrev pub max_bytes : ℕ
max_bytes = 2 * 1024 * 1024

abbrev between : ℕ → ℕ → ℕ → Bool
between low high c = leb low c && leb c high

abbrev pub is_alphanumeric : ℕ → Bool
is_alphanumeric c = between b'A' b'Z' c || between b'a' b'z' c || between b'0' b'9' c

abbrev is_path_code : ℕ → Bool
is_path_code c = is_alphanumeric c || elem c (codes "._~%!$&'()*+,;:@/=?-")

-- `ADMIN_PATH.fullmatch(path)`
abbrev pub matches_path : Bytes → Bool
matches_path [] = false
matches_path (c ∷ rest) = c == b'/' && all is_path_code rest && leb (length rest) 2048

abbrev pub is_control : ℕ → Bool
is_control c = ltb c 32 || c == 127

abbrev pub is_dots : String → Bool
is_dots segment = segment == "." || segment == ".."

-- `path.startswith("//")`
abbrev starts_slashes : Bytes → Bool
starts_slashes (c ∷ d ∷ rest) = c == b'/' && d == b'/'
starts_slashes _ = false

abbrev pub is_hidden : Codecs → String → Bool
is_hidden codecs path =
    not (is_empty (codecs.scheme path))
    || not (is_empty (codecs.netloc path))
    || not (is_empty (codecs.fragment path))
    || starts_slashes (codes path)

unfoldable pub validate_admin_path : Codecs → String → Result String String
validate_admin_path codecs path =
    let decoded = codecs.unquote (codecs.path_of path) in
    do
      require (matches_path (codes path)) "unsafe Kong Admin path"
      require
          (not (
            is_hidden codecs path
            || any is_dots (split b'/' decoded)
            || any is_control (codes decoded)))
          "unsafe Kong Admin path"
      ok path

abbrev pub admin_origin : String
admin_origin = "http://127.0.0.1:8001"

-- `s[len(p):]` if `s.startswith(p)`
abbrev pub after : String → String → Option String
after String.[] s = some s
after (String.◌∷◌ c p) String.[] = none
after (String.◌∷◌ c p) (String.◌∷◌ d s) =
    let rest = after p s in if kong.Base.code c == kong.Base.code d then rest else none

abbrev pub starts_text : String → String → Bool
starts_text p s = elim (after p s) [ none ↦ false | some rest ↦ true ]

unfoldable pub normalize_admin_reference : Codecs → String → Result String String
normalize_admin_reference codecs value =
    if starts_text "http://127.0.0.1:8001/" value
    then elim (after admin_origin value) [
      | none ↦ err "unsafe Kong Admin URL"
      | some rest ↦ validate_admin_path codecs rest
    ]
    else if starts_text "http://" value || starts_text "https://" value
    then err "unsafe Kong Admin URL"
    else validate_admin_path codecs value

-- `METHODS`, `SUCCESS_BY_METHOD`
abbrev pub methods : List String
methods = "GET" ∷ "POST" ∷ "PATCH" ∷ "DELETE" ∷ []

abbrev pub success_codes : String → List ℕ
success_codes method =
    if method == "POST"
    then 200 ∷ 201 ∷ []
    else if method == "DELETE"
    then 200 ∷ 204 ∷ []
    else 200 ∷ []

infixr 45 ◌<>◌
abbrev ◌<>◌ : String → String → String
a <> b = String.◌++◌ a b

abbrev pub label_of : Codecs → String → String → String
label_of codecs method path = "Kong Admin " <> method <> " " <> codecs.path_of path

abbrev dict_or : String → Json → Result String (Option Fields)
dict_or message (obj fields) = ok (some fields)
dict_or message _ = err message

-- `response_value`, whose text for a code of HTTP leaves the code out
unfoldable pub response_value : Codecs → String → String → ℕ → Bytes → Result String (Option Fields)
response_value codecs method path code raw =
    let label = label_of codecs method path in
    do
      require (elem code (success_codes method)) (label <> ": HTTP")
      require (leb (length raw) max_bytes) (label <> ": oversized response")
      if code == 204 || is_blank raw && not (method == "GET") then ok none else (do
        value ← or_raise (codecs.loads raw) (label <> ": invalid JSON response")
        dict_or (label <> ": unexpected response shape") value)
  where
    is_blank : Bytes → Bool
    is_blank raw = length (strip raw) == 0

-- the value of a form field: a list as it is, another value alone, with the tokens of a Boolean
abbrev token : Json → Json
token (bool true) = str "true"
token (bool false) = str "false"
token item = item

abbrev tokens : Items → List Json
tokens nil = []
tokens (cons item items) = token item ∷ tokens items

abbrev values_of : Json → List Json
values_of (arr items) = tokens items
values_of value = token value ∷ []

abbrev normalized : Fields → List (String × List Json)
normalized end = []
normalized (field key value rest) = (key, values_of value) ∷ normalized rest

unfoldable pub form_payload : Codecs → Fields → String → Result String Bytes
form_payload codecs payload path =
    or_raise (codecs.urlencode (normalized payload))
      ("invalid Kong Admin form payload: " <> codecs.path_of path)

-- the body of a payload in `admin_request`, with its content type
pub record Body : Type 0 where
  pub bytes : Bytes
  pub content_type : String

abbrev encode_form : Codecs → String → String → Json → Result String Body
encode_form codecs label path (obj payload) = do
  bytes ← form_payload codecs payload path
  ok (record { bytes = bytes; content_type = "application/x-www-form-urlencoded" })
encode_form codecs label path _ = err (label <> ": invalid payload")

abbrev encode_json : Codecs → String → Json → Result String Body
encode_json codecs label payload = do
  bytes ← or_raise (codecs.dumps payload) (label <> ": invalid payload")
  ok (record { bytes = bytes; content_type = "application/json" })

unfoldable pub encode_payload :
    Codecs → String → String → String → Option Json → Result String (Option Body)
encode_payload codecs label encoding path none = ok none
encode_payload codecs label encoding path (some payload) = do
  body ←
      if encoding == "form"
      then encode_form codecs label path payload
      else encode_json codecs label payload
  require (leb (length body.bytes) max_bytes) (label <> ": oversized payload")
  ok (some body)
