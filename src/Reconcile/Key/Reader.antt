-- ===== src/Reconcile/Key/Reader.antt =====
-- A reader of public keys, by the rules of DER.
use kong.Base.{
  ℕ, zero, suc, ◌-◌, String, [], ◌∷◌, Result, ok, err, require, ◌>>=◌, ◌>>◌, ltb, leb, ◌==◌, nat_eq,
  Bool, true, false, if◌then◌else◌,
}
use kong.Base.Bytes.{Bytes, bytes_eq}
use kong.Reconcile.Key.{from_bytes, algorithm}

-- the first `n` bytes, and what is after them
unfoldable pub split_at : ℕ → Bytes → Result String (Bytes × Bytes)
split_at zero raw = ok ([], raw)
split_at (suc n) [] = err "end of data"
split_at (suc n) (b ∷ raw) = do (first, rest) ← split_at n raw; ok (b ∷ first, rest)

-- the first digit is not zero
abbrev pub leads : Bytes → Bool
leads [] = false
leads (zero ∷ raw) = false
leads (suc b ∷ raw) = true

-- a length in the short form, or in the long form where it needs it, and what is after it
unfoldable pub read_length : Bytes → Result String (ℕ × Bytes)
unfolding split_at
read_length [] = err "end of data"
read_length (b ∷ raw) = if ltb b 128 then ok (b, raw) else (do
  (digits, rest) ← split_at (b - 128) raw
  require (leads digits) "zero first"
  require (leb 128 (from_bytes 0 digits)) "short length in the long form"
  ok (from_bytes 0 digits, rest))

-- the content of a value with this tag, and what is after the value
unfoldable pub read_value : ℕ → Bytes → Result String (Bytes × Bytes)
unfolding read_length
read_value tag [] = err "end of data"
read_value tag (b ∷ raw) = do
  require (b == tag) "other tag"
  (n, rest) ← read_length raw
  split_at n rest

abbrev pub read_end : Bytes → Result String (Unit {0})
read_end [] = ok tt
read_end (b ∷ raw) = err "more data"

-- a byte string that starts with a zero byte: no bit of it is unused
abbrev pub read_bits : Bytes → Result String Bytes
read_bits (zero ∷ raw) = ok raw
read_bits _ = err "unused bits"

-- the first byte is needed: it is not a zero before a byte whose first bit is zero
abbrev pub is_minimal : ℕ → Bytes → Bool
is_minimal zero (b ∷ raw) = leb 128 b
is_minimal _ _ = true

-- the bytes of an INTEGER, which has a sign: an integer that is not negative, in as few bytes as it
-- needs
unfoldable pub read_integer : Bytes → Result String ℕ
read_integer [] = err "no byte"
read_integer (b ∷ raw) = do
  require (ltb b 128) "negative"
  require (is_minimal b raw) "not minimal"
  ok (from_bytes 0 (b ∷ raw))

-- a modulus and an exponent
unfoldable pub read_pair : Bytes → Result String (ℕ × ℕ)
unfolding read_value read_integer
read_pair raw = do
  (pair, after_pair) ← read_value 48 raw
  read_end after_pair
  (first, after_first) ← read_value 2 pair
  modulus ← read_integer first
  (second, after_second) ← read_value 2 after_first
  exponent ← read_integer second
  read_end after_second
  ok (modulus, exponent)

-- the bit string, after the algorithm
unfoldable pub read_key : Bytes → Result String (ℕ × ℕ)
unfolding read_pair
read_key raw = do
  (bits, after_bits) ← read_value 3 raw
  read_end after_bits
  rsa_key ← read_bits bits
  read_pair rsa_key

-- the modulus and the exponent of a `SubjectPublicKeyInfo` for RSA
unfoldable pub read_subject : Bytes → Result String (ℕ × ℕ)
unfolding read_key
read_subject raw = do
  (info, after_info) ← read_value 48 raw
  read_end after_info
  (named, rest) ← split_at 15 info
  require (named == algorithm) "other algorithm"
  read_key rest
