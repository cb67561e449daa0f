-- ===== src/Reconcile/Key/Decodes.antt =====
-- What the bytes of a public key say, read back by the rules of DER.
use kong.Base.{
  ℕ, zero, suc, ◌+◌, ◌-◌, ◌*◌, ◌/◌, ◌%◌, ◌≤◌, ◌<◌, [], ◌∷◌, ◌++◌, true, false, ok, length, ltb, leb,
  ◌==◌, nat_eq, ◌≡◌, refl, sym, ap, ◌∙◌, arith, inl, inr, length-append, ◌⊎◌, Bool-cases,
}
use mathlib.Core.List.{append_assoc}
use kong.Base.Bytes.{Bytes, bytes_eq}
use kong.Reconcile.Key.Reader.{
  split_at, leads, read_length, read_value, read_integer, read_pair, read_key, read_subject,
}
use kong.Reconcile.Key.{
  to_bytes_from, to_bytes, from_bytes, der_length, der, unsigned, der_integer, algorithm, subject,
}

split_at-append : (xs ys : Bytes) → split_at (length xs) (xs ++ ys) ≡ ok (xs, ys)
unfolding split_at
split_at-append [] ys = refl
split_at-append (x ∷ xs) ys = rw (split_at-append xs ys) refl

from_bytes-append :
    (n : ℕ) (xs ys : Bytes) → from_bytes n (xs ++ ys) ≡ from_bytes (from_bytes n xs) ys
unfolding from_bytes
from_bytes-append n [] ys = refl
from_bytes-append n (x ∷ xs) ys = from_bytes-append (n * 256 + x) xs ys

from_bytes-to_bytes_from : (fuel n : ℕ) → n ≤ fuel → from_bytes 0 (to_bytes_from fuel n) ≡ n
unfolding from_bytes to_bytes_from
from_bytes-to_bytes_from zero n h = omega arith
from_bytes-to_bytes_from (suc fuel) zero h = refl
from_bytes-to_bytes_from (suc fuel) (suc n) h =
    from_bytes-append 0 (to_bytes_from fuel (suc n / 256)) (suc n % 256 ∷ [])
    ∙ ap (λ m. m * 256 + suc n % 256) (from_bytes-to_bytes_from fuel (suc n / 256) (omega arith))
    ∙ omega arith

from_bytes-to_bytes : (n : ℕ) → from_bytes 0 (to_bytes n) ≡ n
unfolding to_bytes
from_bytes-to_bytes n = from_bytes-to_bytes_from n n (omega arith)

length-snoc : (xs : Bytes) (b : ℕ) → length (xs ++ b ∷ []) ≡ suc (length xs)
length-snoc [] b = refl
length-snoc (x ∷ xs) b = ap suc (length-snoc xs b)

to_bytes_from_zero : (fuel : ℕ) → to_bytes_from fuel 0 ≡ []
unfolding to_bytes_from
to_bytes_from_zero zero = refl
to_bytes_from_zero (suc fuel) = refl

to_bytes_from-short : (fuel n : ℕ) → n < 256 → length (to_bytes_from fuel n) ≤ 1
unfolding to_bytes_from
to_bytes_from-short zero n h = omega arith
to_bytes_from-short (suc fuel) zero h = omega arith
to_bytes_from-short (suc fuel) (suc n) h =
    let none_left : (suc n / 256) ≡ 0 = omega arith in
    rw none_left (rw (to_bytes_from_zero fuel) (omega arith))

to_bytes_from-length : (fuel n : ℕ) → n < 65536 → length (to_bytes_from fuel n) ≤ 2
unfolding to_bytes_from
to_bytes_from-length zero n h = omega arith
to_bytes_from-length (suc fuel) zero h = omega arith
to_bytes_from-length (suc fuel) (suc n) h =
    let before = to_bytes_from-short fuel (suc n / 256) (omega arith) in
    omega (arith, before, length-snoc (to_bytes_from fuel (suc n / 256)) (suc n % 256))

-- a first byte that is not zero
abbrev Leads : Bytes → Type 0
Leads raw = (b : ℕ) × (rest : Bytes) × (raw ≡ suc b ∷ rest)

to_bytes_from-Leads : (fuel n : ℕ) → suc n ≤ fuel → Leads (to_bytes_from fuel (suc n))
unfolding to_bytes_from
to_bytes_from-Leads zero n h = let never : ⊥ = omega arith in absurd never
to_bytes_from-Leads (suc fuel) n h = elim (zero_or_suc (suc n / 256)) [
  | inl none_left ↦
      let (b, own) = positive (suc n % 256) (omega arith) in
      (b, [], rw none_left (rw (to_bytes_from_zero fuel, own) refl))
  | inr (m, more) ↦
      let (b, rest, e) = to_bytes_from-Leads fuel m (omega arith) in
      (b, rest ++ suc n % 256 ∷ [], rw (more, e) refl)
]
  where
    zero_or_suc : (n : ℕ) → (n ≡ 0) ⊎ ((m : ℕ) × (n ≡ suc m))
    zero_or_suc zero = inl refl
    zero_or_suc (suc n) = inr (n, refl)

    positive : (n : ℕ) → 1 ≤ n → (m : ℕ) × (n ≡ suc m)
    positive zero h = let never : ⊥ = omega arith in absurd never
    positive (suc n) h = (n, refl)

to_bytes-Leads : (n : ℕ) → 1 ≤ n → Leads (to_bytes n)
unfolding to_bytes
to_bytes-Leads zero h = let never : ⊥ = omega arith in absurd never
to_bytes-Leads (suc n) h = to_bytes_from-Leads (suc n) n (omega arith)

Leads-leads : (raw : Bytes) → Leads raw → leads raw ≡ true
Leads-leads raw (b, rest, e) = rw e refl

less_ltb : (a b : ℕ) → a < b → ltb a b ≡ true
less_ltb a b h = ground arith

not_less_ltb : (a b : ℕ) → b ≤ a → ltb a b ≡ false
not_less_ltb a b h = ground arith

-- the two forms of a length
der_length-cases :
    (n : ℕ)
    → n < 65536
    → ((n < 128) × (der_length n ≡ n ∷ []))
      ⊎ ((128 ≤ n)
          × (length (to_bytes n) ≤ 2)
          × (der_length n ≡ (128 + length (to_bytes n)) ∷ to_bytes n))
unfolding der_length to_bytes
der_length-cases n h =
    let short = to_bytes_from-length n n h in
    elim (Bool-cases (ltb n 128)) [
      | inl e ↦ inl (ground arith, rw e refl)
      | inr e ↦ inr (
        ground arith,
        short,
        rw (e, less_ltb (length (to_bytes_from n n)) 128 (omega arith)) refl,
      )
    ]

less_equal_leb : (a b : ℕ) → a ≤ b → leb a b ≡ true
less_equal_leb a b h = ground arith

minus : (n : ℕ) → 128 + n - 128 ≡ n
minus n = omega arith

read_length-der_length :
    (n : ℕ) (rest : Bytes) → n < 65536 → read_length (der_length n ++ rest) ≡ ok (n, rest)
unfolding read_length
read_length-der_length n rest h = elim (der_length-cases n h) [
  | inl (small, e) ↦ rw (e, less_ltb n 128 small) refl
  | inr (large, short, e) ↦
      let leading = Leads-leads (to_bytes n) (to_bytes-Leads n (omega arith)) in
      rw
        (e, not_less_ltb (128 + length (to_bytes n)) 128 (omega arith), minus (length (to_bytes n)))
        (rw
          (
            split_at-append (to_bytes n) rest,
            leading,
            from_bytes-to_bytes n,
            less_equal_leb 128 n large,
          )
          refl)
]

der-length :
    (tag : ℕ) (value : Bytes) → length value < 65536 → length (der tag value) ≤ length value + 4
unfolding der
der-length tag value h = elim (der_length-cases (length value) h) [
  | inl (small, e) ↦ rw e (omega arith)
  | inr (large, short, e) ↦ rw e (omega (arith, length-append (to_bytes (length value)) value))
]

read_value-step :
    (tag n : ℕ) (raw rest : Bytes)
    → read_length raw ≡ ok (n, rest)
    → read_value tag (tag ∷ raw) ≡ split_at n rest
unfolding read_value
read_value-step tag n raw rest h =
    let itself : (tag == tag) ≡ true = ground arith in rw (itself, h) refl

read_value-der :
    (tag : ℕ) (value rest : Bytes)
    → length value < 65536
    → read_value tag (der tag value ++ rest) ≡ ok (value, rest)
unfolding der
read_value-der tag value rest h =
    let after = read_length-der_length (length value) (value ++ rest) h in
    read_value-step tag (length value) ((der_length (length value) ++ value) ++ rest)
      (value ++ rest) (ap read_length (append_assoc (der_length (length value)) value rest) ∙ after)
    ∙ split_at-append value rest

length-unsigned : (raw : Bytes) → length (unsigned raw) ≤ length raw + 1
length-unsigned [] = omega arith
length-unsigned (b ∷ raw) = ground arith

der_integer-length : (n : ℕ) → length (to_bytes n) ≤ 16000 → length (der_integer n) ≤ 16005
unfolding der_integer
der_integer-length n h =
    let content = length-unsigned (to_bytes n) in
    let whole = der-length 2 (unsigned (to_bytes n)) (omega arith) in omega arith

read_value-der_integer :
    (n : ℕ) (rest : Bytes)
    → length (to_bytes n) ≤ 16000
    → read_value 2 (der_integer n ++ rest) ≡ ok (unsigned (to_bytes n), rest)
unfolding der_integer
read_value-der_integer n rest h =
    let content = length-unsigned (to_bytes n) in
    read_value-der 2 (unsigned (to_bytes n)) rest (omega arith)

read_integer-unsigned_leads :
    (b : ℕ) (raw : Bytes) → read_integer (unsigned (suc b ∷ raw)) ≡ ok (from_bytes 0 (suc b ∷ raw))
unfolding read_integer from_bytes
read_integer-unsigned_leads b raw = elim (Bool-cases (leb 128 (suc b))) [
  | inl e ↦ rw (e, e) refl
  | inr e ↦ rw (e, less_ltb (suc b) 128 (ground arith)) refl
]

read_integer-unsigned_zero : read_integer (unsigned (to_bytes 0)) ≡ ok 0
unfolding read_integer to_bytes to_bytes_from from_bytes
read_integer-unsigned_zero = refl

-- the value of an integer, read back
read_integer-unsigned : (n : ℕ) → read_integer (unsigned (to_bytes n)) ≡ ok n
read_integer-unsigned zero = read_integer-unsigned_zero
read_integer-unsigned (suc n) =
    let (b, rest, e) = to_bytes-Leads (suc n) (omega arith) in
    ap (λ raw. read_integer (unsigned raw)) e
    ∙ read_integer-unsigned_leads b rest
    ∙ ap (λ raw. ok (from_bytes 0 raw)) (sym e)
    ∙ ap ok (from_bytes-to_bytes (suc n))

append_nil : (xs : Bytes) → xs ++ [] ≡ xs
append_nil [] = refl
append_nil (x ∷ xs) = ap (x ∷◌) (append_nil xs)

read_value-der_end :
    (tag : ℕ) (value : Bytes)
    → length value < 65536
    → read_value tag (der tag value) ≡ ok (value, [])
read_value-der_end tag value h =
    ap (read_value tag) (sym (append_nil (der tag value))) ∙ read_value-der tag value [] h

read_value-der_integer_end :
    (n : ℕ)
    → length (to_bytes n) ≤ 16000
    → read_value 2 (der_integer n) ≡ ok (unsigned (to_bytes n), [])
read_value-der_integer_end n h =
    ap (read_value 2) (sym (append_nil (der_integer n))) ∙ read_value-der_integer n [] h

read_pair-eq :
    (modulus exponent : ℕ) (raw : Bytes)
    → length (to_bytes modulus) ≤ 16000
    → length (to_bytes exponent) ≤ 16000
    → read_value 48 raw ≡ ok (der_integer modulus ++ der_integer exponent, [])
    → read_pair raw ≡ ok (modulus, exponent)
unfolding read_pair
read_pair-eq modulus exponent raw h k e = rw e (
    rw (read_value-der_integer modulus (der_integer exponent) h) (
      rw (read_value-der_integer_end exponent k)
        (rw (read_integer-unsigned modulus, read_integer-unsigned exponent) refl)))

read_key-eq : (raw key : Bytes) → read_value 3 raw ≡ ok (0 ∷ key, []) → read_key raw ≡ read_pair key
unfolding read_key
read_key-eq raw key e = rw e refl

read_subject-eq :
    (raw rest : Bytes)
    → read_value 48 raw ≡ ok (algorithm ++ rest, [])
    → read_subject raw ≡ read_key rest
unfolding read_subject
read_subject-eq raw rest e = rw e refl

-- The bytes of the public key are read back, by the rules of DER (signed integers in as few bytes
-- as they need, lengths in their shortest form, no byte left over), as the modulus and the exponent
-- of the key, where neither has more than 16000 bytes.
pub read_subject-subject :
    (modulus exponent : ℕ)
    → length (to_bytes modulus) ≤ 16000
    → length (to_bytes exponent) ≤ 16000
    → read_subject (subject modulus exponent) ≡ ok (modulus, exponent)
unfolding subject
read_subject-subject modulus exponent h k =
    let l1 = der_integer-length modulus h in
    let l2 = der_integer-length exponent k in
    let pair = der_integer modulus ++ der_integer exponent in
    let l3 = length-append (der_integer modulus) (der_integer exponent) in
    let l4 = der-length 48 pair (omega arith) in
    let bits = 0 ∷ der 48 pair in
    let l5 = der-length 3 bits (omega arith) in
    let l6 = length-append algorithm (der 3 bits) in
    read_subject-eq (subject modulus exponent) (der 3 bits)
      (read_value-der_end 48 (algorithm ++ der 3 bits) (omega arith))
    ∙ read_key-eq (der 3 bits) (der 48 pair) (read_value-der_end 3 bits (omega arith))
    ∙ read_pair-eq modulus exponent (der 48 pair) h k (read_value-der_end 48 pair (omega arith))
