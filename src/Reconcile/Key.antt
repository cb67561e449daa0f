-- ===== src/Reconcile/Key.antt =====
-- reconcile_kong_campaign_automation.py: the key that signs tokens, and its PEM. The reconcilers of
-- the n8n control plane and of the callbacks take them from there.
pub mod Reader
pub mod Decodes
use Prim.Native.String
use kong.Base.{
  ℕ, zero, suc, ◌+◌, ◌-◌, ◌*◌, ◌/◌, ◌%◌, String, List, [], ◌∷◌, ◌++◌, Bool, true, false, not,
  Option, none, some, Result, ok, err, require, ◌>>=◌, ◌>>◌, length, ltb, leb, ◌==◌, nat_eq,
  if◌then◌else◌,
}
use kong.Base.Text.{codes, is_empty}
use kong.Base.Bytes.{Bytes}
use kong.Base.Json.{Json, null, str, arr, nil}
use kong.Base.Values.{equals, get_key, get_or, item, as_text, iterate, keep_if, all_of}
use kong.Reconcile.Client.{◌<>◌}
use kong.Reconcile.Fields.{one}

-- `n.to_bytes((n.bit_length() + 7) // 8, "big")`, on fuel: no digit where `n` is 0
unfoldable pub to_bytes_from : ℕ → ℕ → Bytes
to_bytes_from zero n = []
to_bytes_from (suc fuel) zero = []
to_bytes_from (suc fuel) (suc n) = to_bytes_from fuel (suc n / 256) ++ suc n % 256 ∷ []

unfoldable pub to_bytes : ℕ → Bytes
unfolding to_bytes_from
to_bytes n = to_bytes_from n n

-- `int.from_bytes(raw, "big")`, after the bytes that came before
unfoldable pub from_bytes : ℕ → Bytes → ℕ
from_bytes n [] = n
from_bytes n (b ∷ raw) = from_bytes (n * 256 + b) raw

-- `0x80 | n` where `n` is a byte
abbrev pub high_bit : ℕ → ℕ
high_bit n = if ltb n 128 then 128 + n else n

unfoldable pub der_length : ℕ → Bytes
unfolding to_bytes
der_length n = if ltb n 128 then n ∷ [] else high_bit (length (to_bytes n)) ∷ to_bytes n

unfoldable pub der : ℕ → Bytes → Bytes
unfolding der_length
der tag value = (tag ∷ []) ++ der_length (length value) ++ value

-- `raw or b"\0"`, with a zero byte before a first byte of 0x80 or more
abbrev pub unsigned : Bytes → Bytes
unsigned [] = 0 ∷ []
unsigned (b ∷ raw) = if leb 128 b then 0 ∷ b ∷ raw else b ∷ raw

unfoldable pub der_integer : ℕ → Bytes
unfolding der to_bytes
der_integer value = der 2 (unsigned (to_bytes value))

-- `bytes.fromhex("300d06092a864886f70d0101010500")`
abbrev pub algorithm : Bytes
algorithm = 48 ∷ 13 ∷ 6 ∷ 9 ∷ 42 ∷ 134 ∷ 72 ∷ 134 ∷ 247 ∷ 13 ∷ 1 ∷ 1 ∷ 1 ∷ 5 ∷ 0 ∷ []

-- `subject`
unfoldable pub subject : ℕ → ℕ → Bytes
unfolding der der_integer
subject modulus exponent =
    let rsa_key = der 48 (der_integer modulus ++ der_integer exponent) in
    der 48 (algorithm ++ der 3 (0 ∷ rsa_key))

-- `base64.urlsafe_b64decode`, `none` where it raises, `base64.b64encode`, and `textwrap.wrap` to 64
pub record KeyCodecs : Type 0 where
  pub urlsafe_b64decode : String → Option Bytes
  pub b64encode : Bytes → String
  pub wrap : String → List String

-- `"=" * n`
abbrev pub padding : ℕ → String
padding zero = ""
padding (suc n) = "=" <> padding n

-- `decode`
unfoldable pub decode_number : KeyCodecs → Json → Result String ℕ
decode_number codecs value = do
  text ← as_text value
  let rest = length (codes text) % 4
  raw ← found (codecs.urlsafe_b64decode (text <> padding ((4 - rest) % 4)))
  ok (from_bytes 0 raw)
  where
    found : Option Bytes → Result String Bytes
    found none = err "Error"
    found (some raw) = ok raw

-- `"\n".join(…)`
abbrev pub join_lines : List String → String
join_lines [] = ""
join_lines (line ∷ []) = line
join_lines (line ∷ second ∷ rest) = line <> "\n" <> join_lines (second ∷ rest)

unfoldable pub rsa_public_key_pem : KeyCodecs → Json → Result String String
rsa_public_key_pem codecs jwk = do
  n ← item "n" jwk
  modulus ← decode_number codecs n
  e ← item "e" jwk
  exponent ← decode_number codecs e
  let lines = join_lines (codecs.wrap (codecs.b64encode (subject modulus exponent)))
  ok ("-----BEGIN PUBLIC KEY-----\n" <> lines <> "\n-----END PUBLIC KEY-----\n")

-- the test of `candidates`
unfoldable pub is_signing_key : Json → Result String Bool
is_signing_key key = all_of (
    equals (get_key "kty" key) (str "RSA")
    ∷ equals (get_key "alg" key) (str "RS256")
    ∷ equals (get_key "use" key) (str "sig")
    ∷ [])

abbrev pub only : List Json → Result String Json
only (key ∷ []) = ok key
only _ = err "Keycloak RS256 signing key is ambiguous"

-- on the document of the JWKS
unfoldable pub active_rsa_key : Json → String → Result String Json
active_rsa_key document active_kid = do
  listed ← get_or "keys" (arr nil) document
  keys ← iterate listed
  candidates ← keep_if is_signing_key keys
  chosen ←
      if is_empty active_kid
      then ok candidates
      else keep_if (λ key. equals (get_key "kid" key) (str active_kid)) candidates
  only chosen
