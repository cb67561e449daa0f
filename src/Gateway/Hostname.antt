-- ===== src/Gateway/Hostname.antt =====
-- `hostname` of scripts/gateway_integrations.py.
use Prim.Native.String.{[], ◌∷◌}
use kong.Base.{
  ℕ, ◌+◌, ◌-◌, ◌*◌, String, code, List, [], ◌∷◌, Bool, true, false, not, ◌&&◌, ◌||◌, ◌≡◌, refl,
  Result, ok, err, require, ◌>>◌, leb, all, length, ◌==◌, nat_eq,
}
use kong.Base.Text.{codes, split}

abbrev is_alnum : ℕ → Bool
is_alnum c = leb b'a' c && leb c b'z' || leb b'0' c && leb c b'9'

-- `(?:[a-z0-9-]{0,61}[a-z0-9])?`, after the first character
abbrev label_rest : String → Bool
label_rest [] = true
label_rest (c ∷ []) = is_alnum (code c)
label_rest (c ∷ d ∷ s) = (is_alnum (code c) || code c == b'-') && label_rest (d ∷ s)

unfoldable pub is_label : String → Bool
is_label [] = false
is_label (c ∷ s) = is_alnum (code c) && label_rest s && leb (length (codes s)) 62

abbrev octet_value : ℕ → String → ℕ
octet_value acc [] = acc
octet_value acc (c ∷ s) = octet_value (acc * 10 + (code c - b'0')) s

abbrev all_digits : String → Bool
all_digits s = all (λ c. leb b'0' c && leb c b'9') (codes s)

-- a part of an IPv4 address: one to three digits, no zero in front, at most 255
abbrev is_octet : String → Bool
is_octet [] = false
is_octet (c ∷ []) = all_digits (c ∷ [])
is_octet (c ∷ d ∷ s) =
    all_digits (c ∷ d ∷ s)
    && not (code c == b'0')
    && leb (length (codes s)) 1
    && leb (octet_value 0 (c ∷ d ∷ s)) 255

-- `ipaddress.ip_address(value)` does not raise, for a value of such labels: it has no colon, so
-- only an IPv4 address is read
abbrev is_address : List String → Bool
is_address parts = length parts == 4 && all is_octet parts

unfoldable pub hostname : String → Result String (Unit {0})
unfolding is_label
hostname value = do
  require (leb (length (codes value)) 253 && all is_label (split b'.' value)) "invalid_dns_name"
  require (not (is_address (split b'.' value))) "literal_address_not_allowed"

hostnames :
    (hostname "api.codestra.co" ≡ ok tt)
    × (hostname "10.0.0.1" ≡ err "literal_address_not_allowed")
    × (hostname "10.0.0.256" ≡ ok tt)
    × (hostname "-a.b" ≡ err "invalid_dns_name")
unfolding hostname
hostnames = (refl, refl, refl, refl)
