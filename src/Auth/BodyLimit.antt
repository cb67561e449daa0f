-- ===== src/Auth/BodyLimit.antt =====
-- body_limit.py: the ASGI middleware that reads a request's body before the application does.
-- The messages that `receive` returns are a list; where it ends, the middleware is still waiting.
pub mod Forwarding
pub mod Headers
mod Tests
use kong.Base.{
  ℕ, suc, ◌+◌, String, List, [], ◌∷◌, ◌++◌, Bool, true, false, not, ◌&&◌, ◌||◌, Option, none, some,
  ◌≡◌, refl, Result, ok, err, ltb, leb, any, all, length, ◌==◌, nat_eq, string_eq, if◌then◌else◌,
}
use kong.Base.Int.{ℤ, pos, le_int, pos_part}
use kong.Base.Text.{codes}
use kong.Base.Bytes.{
  Bytes, bytes_eq, lower, strip, is_digit, digits_value, int_of_text, max_str_digits,
}

abbrev pub default_max_body_bytes : ℕ
default_max_body_bytes = 65_536

abbrev pub max_configurable_body_bytes : ℕ
max_configurable_body_bytes = 131_072

-- `1 <= value <= MAX_CONFIGURABLE_BODY_BYTES`
abbrev in_range : ℤ → Bool
in_range value = le_int (pos 1) value && le_int value (pos max_configurable_body_bytes)

-- the environment variable, if it is set
abbrev raw_limit : Option Bytes → Option ℤ
raw_limit none = some (pos default_max_body_bytes)
raw_limit (some raw) = int_of_text raw

unfoldable pub configured_max_body_bytes : Option Bytes → Result String ℕ
configured_max_body_bytes raw = elim (raw_limit raw) [
  | none ↦ err "AUTH_MIDDLEWARE_MAX_BODY_BYTES must be an integer"
  | some value ↦
      if in_range value
      then ok (pos_part value)
      else err "AUTH_MIDDLEWARE_MAX_BODY_BYTES must be between 1 and 131072"
]

-- `RequestBodyLimitMiddleware.__init__`: the limit that the instance keeps
unfoldable pub make : ℤ → Result String ℕ
make limit = if in_range limit then ok (pos_part limit) else err "invalid request body limit"

pub data Message : Type 0 where
  disconnect : Message
  request : (body : Option Bytes) (more_body : Option Bool) → Message
  other : Message

pub record Scope : Type 0 where
  pub is_http : Bool
  pub headers : List (Bytes × Bytes)

pub data Outcome : Type 0 where
  -- the application runs on the original channel
  passed : Outcome
  -- an error response was sent: its status and its detail
  rejected : ℕ → String → Outcome
  -- an exception left the middleware
  raised : Outcome
  -- the client went away, and nothing was sent
  dropped : Outcome
  -- the application runs, and receives this body
  forwarded : Bytes → Outcome
  -- `receive` has not answered; this much is buffered
  waiting : Bytes → Outcome

-- `headers.setdefault(name.lower(), []).append(value)`
append_value : Bytes → Bytes → List (Bytes × List Bytes) → List (Bytes × List Bytes)
append_value name value [] = (name, value ∷ []) ∷ []
append_value name value ((key, values) ∷ rest) =
    if key == name
    then (key, values ++ value ∷ []) ∷ rest
    else (key, values) ∷ append_value name value rest

-- the loop over `scope["headers"]`
group : List (Bytes × List Bytes) → List (Bytes × Bytes) → List (Bytes × List Bytes)
unfolding append_value
group grouped [] = grouped
group grouped ((name, value) ∷ headers) = group (append_value (lower name) value grouped) headers

-- `headers.get(name, [])`
get_values : Bytes → List (Bytes × List Bytes) → List Bytes
get_values name [] = []
get_values name ((key, values) ∷ rest) = if key == name then values else get_values name rest

-- a coding that the middleware does not accept
abbrev pub coded : Bytes → Bool
coded value = let coding = lower (strip value) in not (coding == [] || coding == codes "identity")

abbrev pub all_digits : Bytes → Bool
all_digits [] = false
all_digits (c ∷ s) = all is_digit (c ∷ s)

-- `int(value) > limit` on a value of digits; reading more than 4300 of them raises
abbrev too_long : ℕ → Option ℕ → Option Outcome
too_long limit none = some raised
too_long limit (some declared) =
    if ltb limit declared then some (rejected 413 "payload_too_large") else none

abbrev pub declared_length : Bytes → Option ℕ
declared_length value =
    if ltb max_str_digits (length value) then none else digits_value 0 false value

-- the checks on `lengths`
abbrev check_lengths : ℕ → List Bytes → Option Outcome
check_lengths limit [] = none
check_lengths limit (value ∷ []) =
    if all_digits value
    then too_long limit (declared_length value)
    else some (rejected 400 "content_length_invalid")
check_lengths limit (value ∷ second ∷ more) = some (rejected 400 "content_length_invalid")

-- the checks before the body is read; `none` lets the request through
unfoldable pub check_headers : ℕ → List (Bytes × Bytes) → Option Outcome
unfolding group get_values digits_value
check_headers limit headers =
    let grouped = group [] headers in
    if any coded (get_values (codes "content-encoding") grouped)
    then some (rejected 415 "content_encoding_denied")
    else check_lengths limit (get_values (codes "content-length") grouped)

abbrev pub chunk_of : Option Bytes → Bytes
chunk_of none = []
chunk_of (some chunk) = chunk

abbrev pub is_more : Option Bool → Bool
is_more none = false
is_more (some more) = more

-- the loop over `receive`
unfoldable pub collect : ℕ → Bytes → List Message → Outcome
collect limit body [] = waiting body
collect limit body (disconnect ∷ messages) = dropped
collect limit body (other ∷ messages) = collect limit body messages
collect limit body (request chunk more ∷ messages) =
    let rest = collect limit (body ++ chunk_of chunk) messages in
    if ltb limit (length body + length (chunk_of chunk))
    then rejected 413 "payload_too_large"
    else if is_more more
    then rest
    else forwarded (body ++ chunk_of chunk)

abbrev enter : ℕ → List Message → Option Outcome → Outcome
enter limit messages none = collect limit [] messages
enter limit messages (some outcome) = outcome

-- `RequestBodyLimitMiddleware.__call__`
unfoldable pub call : ℕ → Scope → List Message → Outcome
call limit scope messages =
    if scope.is_http then enter limit messages (check_headers limit scope.headers) else passed

-- `replay`, with `delivered`: what the application receives, and the flag afterwards
unfoldable pub replay : Bytes → Bool → Message × Bool
replay body true = (request (some []) (some false), true)
replay body false = (request (some body) (some false), true)

-- the messages of the application's first `n` calls of `replay`
pub replays : Bytes → Bool → ℕ → List Message
unfolding replay
replays body delivered ℕ.zero = []
replays body delivered (suc n) =
    let (message, after) = replay body delivered in message ∷ replays body after n
