-- ===== src/Base/Bytes.antt =====
-- Python's `bytes`, and `str` where the code slices or parses it, as lists of code points. The
-- digits that `int` reads are those of ASCII.
use mathlib.Core.List.{reverse, append_assoc, List, [], ◌∷◌, ◌++◌, map}
use kong.Base.Tests.{nat_eq, ltb, leb, Comparable, ◌==◌, if◌then◌else◌}
use kong.Base.Lists.{length, elem}
use kong.Base.Int.{ℤ, pos, negsuc, negate}
use kong.Base.Text.{codes}
use Prim.Native.Nat.{ℕ, zero, suc, ◌+◌, ◌-◌, ◌*◌, ◌/◌, ◌%◌}
use mathlib.Core.Path.{◌≡◌, refl, sym}
use mathlib.Core.Logic.{◌↔◌}
use mathlib.Core.Bool.{Bool, true, false, ◌&&◌, ◌||◌}
use mathlib.Core.Option.{Option, none, some}
use native.Mathlib.Omega.{arith}

abbrev pub Bytes : Type 0
Bytes = List ℕ

abbrev pub bytes_beq : Bytes → Bytes → Bool
bytes_beq [] [] = true
bytes_beq [] (d ∷ t) = false
bytes_beq (c ∷ s) [] = false
bytes_beq (c ∷ s) (d ∷ t) = c == d && bytes_beq s t

pub bytes_beq_iff : (s t : Bytes) → (bytes_beq s t ≡ true) ↔ (s ≡ t)
bytes_beq_iff [] [] = ground arith
bytes_beq_iff [] (d ∷ t) = ground arith
bytes_beq_iff (c ∷ s) [] = ground arith
bytes_beq_iff (c ∷ s) (d ∷ t) = ground (arith, bytes_beq_iff s t)

instance abbrev pub bytes_eq : Comparable Bytes
bytes_eq = record { same = bytes_beq; same_iff = bytes_beq_iff }

-- `s.startswith(p)`
abbrev pub starts : Bytes → Bytes → Bool
starts s [] = true
starts [] (d ∷ p) = false
starts (c ∷ s) (d ∷ p) = c == d && starts s p

module _ {ℓ} {A : Type ℓ} where
  abbrev pub take : ℕ → List A → List A
  take zero xs = []
  take (suc n) [] = []
  take (suc n) (x ∷ xs) = x ∷ take n xs

  abbrev pub drop : ℕ → List A → List A
  drop zero xs = xs
  drop (suc n) [] = []
  drop (suc n) (x ∷ xs) = drop n xs

pub starts-append : (s p : Bytes) → starts (p ++ s) p ≡ true
starts-append s [] = refl
starts-append s (d ∷ p) = ground (arith, starts-append s p)

pub drop-append : (s p : Bytes) → drop (length p) (p ++ s) ≡ s
drop-append s [] = refl
drop-append s (d ∷ p) = drop-append s p

pub starts-eq : (s p : Bytes) → starts s p ≡ true → s ≡ p ++ drop (length p) s
starts-eq s [] h = refl
starts-eq [] (d ∷ p) h = cc
starts-eq (c ∷ s) (d ∷ p) h = ground (arith, starts-eq s p)

abbrev pub is_space : ℕ → Bool
is_space c = c == 32 || leb 9 c && leb c 13

-- what `str.split` and `int` take for white space; `bytes.strip` takes `is_space`
abbrev pub is_text_space : ℕ → Bool
is_text_space c =
    is_space c
    || leb 28 c && leb c 31
    || elem c (0x85 ∷ 0xa0 ∷ 0x1680 ∷ 0x2028 ∷ 0x2029 ∷ 0x202f ∷ 0x205f ∷ 0x3000 ∷ [])
    || leb 0x2000 c && leb c 0x200a

abbrev pub is_digit : ℕ → Bool
is_digit c = leb b'0' c && leb c b'9'

-- `s.lower()` on bytes
abbrev pub lower_byte : ℕ → ℕ
lower_byte c = if leb b'A' c && leb c b'Z' then c + 32 else c

abbrev pub lower : Bytes → Bytes
lower = map lower_byte

abbrev pub lstrip : (ℕ → Bool) → Bytes → Bytes
lstrip blank [] = []
lstrip blank (c ∷ s) = let rest = lstrip blank s in if blank c then rest else c ∷ s

abbrev pub strip_of : (ℕ → Bool) → Bytes → Bytes
strip_of blank s = reverse (lstrip blank (reverse (lstrip blank s)))

-- `bytes.strip`
abbrev pub strip : Bytes → Bytes
strip = strip_of is_space

-- what stands before the first `k`: `s.split(chr(k), 1)[0]`
abbrev pub before : ℕ → Bytes → Bytes
before k [] = []
before k (c ∷ s) = let rest = before k s in if c == k then [] else c ∷ rest

-- `s.split()`, with the word being read
abbrev close : Bytes → List Bytes → List Bytes
close [] words = words
close (c ∷ word) words = (c ∷ word) ∷ words

pub words_from : Bytes → Bytes → List Bytes
words_from word [] = close word []
words_from word (c ∷ s) =
    let next = close word (words_from [] s) in
    let longer = words_from (word ++ c ∷ []) s in if is_text_space c then next else longer

unfoldable pub words : Bytes → List Bytes
unfolding words_from
words s = words_from [] s

-- Python's default limit on the digits of an integer that it reads from text.
abbrev pub max_str_digits : ℕ
max_str_digits = 4300

-- the digits of an integer, single underscores between them allowed
unfoldable pub digits_value : ℕ → Bool → Bytes → Option ℕ
digits_value acc after_digit [] = if after_digit then some acc else none
digits_value acc after_digit (c ∷ s) =
    let more = digits_value (acc * 10 + (c - b'0')) true s in
    let gap = digits_value acc false s in
    if is_digit c then more else if c == b'_' && after_digit then gap else none

abbrev digit_count : Bytes → ℕ
digit_count [] = 0
digit_count (c ∷ s) = if is_digit c then suc (digit_count s) else digit_count s

abbrev signed_value : (ℕ → ℤ) → Bytes → Option ℤ
signed_value sign s =
    if ltb max_str_digits (digit_count s)
    then none
    else elim (digits_value 0 false s) [ none ↦ none | some n ↦ some (sign n) ]

abbrev signed_text : Bytes → Option ℤ
signed_text [] = none
signed_text (c ∷ s) =
    if c == b'+'
    then signed_value pos s
    else if c == b'-'
    then signed_value negate s
    else signed_value pos (c ∷ s)

-- `int(s, 10)`; `none` is a `ValueError`
unfoldable pub int_of_text : Bytes → Option ℤ
unfolding digits_value
int_of_text s = signed_text (strip_of is_text_space s)

-- `text.encode()`: the bytes of a code point in UTF-8 (the headers' are below 256)
abbrev pub utf8 : ℕ → Bytes
utf8 c = if ltb c 0x80 then c ∷ [] else (0xc0 + c / 64) ∷ (0x80 + c % 64) ∷ []

abbrev pub encode : Bytes → Bytes
encode [] = []
encode (c ∷ s) = utf8 c ++ encode s

pub encode-append : (s t : Bytes) → encode (s ++ t) ≡ encode s ++ encode t
encode-append [] t = refl
encode-append (c ∷ s) t = rw (encode-append s t) (sym (append_assoc (utf8 c) (encode s) (encode t)))

int_texts :
    (int_of_text (codes " -1_0 ") ≡ some (negsuc 9))
    × (int_of_text (codes "1__0") ≡ none)
    × (int_of_text (codes "+7") ≡ some (pos 7))
    × (int_of_text (codes "") ≡ none)
unfolding int_of_text negate
int_texts = (refl, refl, refl, refl)
