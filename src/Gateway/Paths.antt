-- ===== src/Gateway/Paths.antt =====
-- `path_segments` of scripts/gateway_integrations.py. The error is the code of a `ContractError`.
use Prim.Native.String.{[], ◌∷◌}
use text.Mathlib.Text.{◌==◌ as str_eq}
use kong.Base.{
  String, code, List, [], ◌∷◌, Bool, true, false, not, ◌&&◌, ◌||◌, ◌≡◌, refl, arith, Result, ok,
  err, require, Char, inl, inr, Bool-cases, ◌>>◌, ◌==◌, nat_eq, string_eq, leb, any, keep, distinct,
  if◌then◌else◌,
}
use kong.Base.Text.{
  begins, ends, doubled, has_char, split, strip_left, strip_right, Full, split-Full,
  strip_left_of_begins, strip_right_of_ends,
}

-- what the second half of `\{[a-z][a-z0-9_]*\}` matches
param_tail : String → Bool
param_tail [] = false
param_tail (c ∷ []) = code c == b'}'
param_tail (c ∷ d ∷ s) =
    (leb b'a' (code c) && leb (code c) b'z'
      || leb b'0' (code c) && leb (code c) b'9'
      || code c == b'_')
    && param_tail (d ∷ s)

-- `re.fullmatch(r"\{[a-z][a-z0-9_]*\}", part)`
is_parameter : String → Bool
unfolding param_tail
is_parameter (c ∷ d ∷ s) =
    code c == b'{' && (leb b'a' (code d) && leb (code d) b'z') && param_tail s
is_parameter s = false

-- a part with a brace
abbrev braced : String → Bool
braced part = has_char b'{' part || has_char b'}' part

-- the loop over the parts: every part with a brace is a whole parameter
unfoldable pub check_parameters : List String → Result String (Unit {0})
unfolding is_parameter
check_parameters [] = ok tt
check_parameters (part ∷ parts) =
    let rest = check_parameters parts in
    if braced part then (require (is_parameter part) "invalid_path_parameter" >> rest) else rest

abbrev dotted : String → Bool
dotted part = part == "." || part == ".."

-- `path.strip("/").split("/") if path != "/" else []`
abbrev parts_of : String → List String
parts_of path = if path == "/" then [] else split b'/' (strip_right b'/' (strip_left b'/' path))

unfoldable pub path_segments : String → Result String (List String)
path_segments path = do
  require (begins b'/' path && not (doubled b'/' path)) "invalid_route_path"
  require (path == "/" || not (ends b'/' path)) "trailing_slash_not_supported"
  let parts = parts_of path
  require (not (any dotted parts)) "invalid_route_path"
  check_parameters parts
  require (distinct (keep braced parts)) "duplicate_path_parameter"
  ok parts

orders : path_segments "/orders/{order_id}/items" ≡ ok ("orders" ∷ "{order_id}" ∷ "items" ∷ [])
unfolding path_segments check_parameters
orders = refl

bad_paths :
    (path_segments "/a//b" ≡ err "invalid_route_path")
    × (path_segments "/a/" ≡ err "trailing_slash_not_supported")
    × (path_segments "/x{y}" ≡ err "invalid_path_parameter")
    × (path_segments "/{y}/{y}" ≡ err "duplicate_path_parameter")
    × (path_segments "/" ≡ ok [])
unfolding path_segments check_parameters
bad_paths = (refl, refl, refl, refl, refl)

check_parameters_ok :
    (parts : List String) (rest : Result String (List String)) {out : List String}
    → (check_parameters parts >> rest) ≡ ok out
    → rest ≡ ok out
unfolding check_parameters
check_parameters_ok [] rest h = h
check_parameters_ok (part ∷ parts) rest h = elim (Bool-cases (braced part)) [
  | inl b ↦ elim (Bool-cases (is_parameter part)) [
    | inl p ↦ check_parameters_ok parts rest (ground arith)
    | inr p ↦ ground arith
  ]
  | inr b ↦ check_parameters_ok parts rest (ground arith)
]

strip_left_slash :
    (c : Char) (t : String)
    → (code c == b'/') ≡ true
    → begins b'/' t ≡ false
    → strip_left b'/' (c ∷ t) ≡ t
strip_left_slash c t h b = rw h (strip_left_of_begins b'/' t b)

split_body-Full :
    (c d : Char) (t : String)
    → (code c == b'/') ≡ true
    → doubled b'/' (c ∷ d ∷ t) ≡ false
    → ends b'/' (c ∷ d ∷ t) ≡ false
    → Full (split b'/' (strip_right b'/' (strip_left b'/' (c ∷ d ∷ t))))
split_body-Full c d t h two e =
    let b : begins b'/' (d ∷ t) ≡ false = ground arith in
    rw (strip_left_slash c (d ∷ t) h b)
      (rw (strip_right_of_ends b'/' (d ∷ t) e) (split-Full b'/' (d ∷ t) refl b e (ground arith)))

parts_of-Full :
    (path : String)
    → (begins b'/' path && not (doubled b'/' path)) ≡ true
    → (path == "/" || not (ends b'/' path)) ≡ true
    → Full (parts_of path)
parts_of-Full [] h e = cc
parts_of-Full (c ∷ []) h e = elim (Bool-cases (str_eq (c ∷ []) "/")) [
  | inl root ↦ rw root tt
  | inr other ↦ absurd (ground arith)
]
parts_of-Full (c ∷ d ∷ t) h e = elim (Bool-cases (str_eq (c ∷ d ∷ t) "/")) [
  | inl root ↦ rw root tt
  | inr other ↦ rw other (split_body-Full c d t (ground arith) (ground arith) (ground arith))
]

path_segments_ok :
    (path : String) (parts : List String)
    → path_segments path ≡ ok parts
    → ((begins b'/' path && not (doubled b'/' path)) ≡ true)
      × ((path == "/" || not (ends b'/' path)) ≡ true)
      × (parts_of path ≡ parts)
unfolding path_segments
path_segments_ok path parts h = ground (arith)

-- The parts of an accepted path are not empty.
pub path_segments-Full :
    (path : String) (parts : List String) → path_segments path ≡ ok parts → Full parts
path_segments-Full path parts h =
    let (a, b, e) = path_segments_ok path parts h in rw e at (parts_of-Full path a b)
