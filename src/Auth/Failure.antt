-- ===== src/Auth/Failure.antt =====
-- How a handler of app.py ends when it does not answer: `deny`, or an exception that nothing
-- catches (the server then answers 500).
use kong.Base.{
  ℕ, String, Option, none, some, List, [], ◌∷◌, Bool, true, false, ◌==◌, if◌then◌else◌, Result,
}
use kong.Base.Bytes.{Bytes, bytes_eq, before}
use kong.Base.Text.{codes}

pub data Failure : Type 0 where
  denied : ℕ → String → Failure
  crashed : Failure

abbrev pub Reply : Type 0 → Type 0
Reply A = Result Failure A

-- `request.headers`: the names are in lower case, and `get` takes the first.
abbrev pub Headers : Type 0
Headers = List (Bytes × Bytes)

unfoldable pub get_header : Bytes → Headers → Option Bytes
get_header name [] = none
get_header name ((n, value) ∷ rest) = if n == name then some value else get_header name rest

abbrev pub is_some {ℓ} : {A : Type ℓ} → Option A → Bool
is_some none = false
is_some (some a) = true

abbrev pub text_or_empty : Option Bytes → Bytes
text_or_empty none = []
text_or_empty (some text) = text

-- `headers.get("content-type", "").split(";", 1)[0] == "application/json"`
unfoldable pub is_json : Headers → Bool
unfolding get_header
is_json headers =
    before b';' (text_or_empty (get_header (codes "content-type") headers))
    == codes "application/json"
