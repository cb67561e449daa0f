-- ===== src/Gateway/Overlap/Decides.antt =====
-- `_overlaps` decides whether two routes have a request in common.
use kong.Base.{
  ap, ok_injective, ◌≤◌, String, List, [], ◌∷◌, Bool, true, false, not, ◌&&◌, ◌||◌, ◌≡◌, ◌↔◌, ◌⊎◌,
  inl, inr, refl, sym, ◌∙◌, arith, ok, ◌==◌, nat_eq, string_eq, eq_iff, length, Bool-cases,
  if◌then◌else◌,
}
use kong.Gateway.Overlap.{
  overlaps, Match, exact, prefix, is_prefix, is_param, compatible, overlaps_parts, Fits, TakesRest,
  Takes,
}
use kong.Gateway.Paths.{path_segments, path_segments-Full}
use kong.Base.Text.{is_empty, Full}

-- the test of the loop over `zip`
abbrev clash : String → String → Bool
clash x y = not (x == y) && not (is_param x || is_param y)

-- Parts that fit one segment do not clash.
clash_of_Fits : (x y s : String) → Fits x s → Fits y s → clash x y ≡ false
clash_of_Fits x y s p q = elim (Bool-cases (is_param x)) [
  | inl a ↦ rw a (ground arith)
  | inr a ↦ elim (Bool-cases (is_param y)) [
    | inl b ↦ rw b (ground arith)
    | inr b ↦
        let e : x ≡ s = rw a at p in
        let f : y ≡ s = rw b at q in
        let same : (x == y) ≡ true = (eq_iff x y).1 (e ∙ sym f) in ground arith
  ]
]

-- A segment that two parts fit, if they do not clash.
abbrev common : String → String → String
common x y = if is_param x then (if is_param y then "x" else y) else x

common-Fits :
    (x y : String)
    → is_empty x ≡ false
    → is_empty y ≡ false
    → clash x y ≡ false
    → Fits x (common x y) × Fits y (common x y)
common-Fits x y p q h = elim (Bool-cases (is_param x)) [
  | inl a ↦ elim (Bool-cases (is_param y)) [
    | inl b ↦ rw (a, b) (refl, refl)
    | inr b ↦ rw (a, b) (q, refl)
  ]
  | inr a ↦ elim (Bool-cases (is_param y)) [
    | inl b ↦ rw (a, b) (refl, p)
    | inr b ↦ rw (a, b) (refl, sym ((eq_iff x y).0 (ground arith)))
  ]
]

compatible_of_Takes :
    (m n : Match) (left right request : List String)
    → Takes m left request
    → Takes n right request
    → compatible left right ≡ true
unfolding compatible
compatible_of_Takes m n [] right request p q = refl
compatible_of_Takes m n (x ∷ left) [] request p q = refl
compatible_of_Takes m n (x ∷ left) (y ∷ right) [] p q = elim p [ ]
compatible_of_Takes m n (x ∷ left) (y ∷ right) (s ∷ request) (p, ps) (q, qs) =
    rw (clash_of_Fits x y s p q) (compatible_of_Takes m n left right request ps qs)

length_of_Takes :
    (m : Match) (parts request : List String)
    → Takes m parts request
    → length parts ≤ length request
length_of_Takes m [] request p = omega arith
length_of_Takes m (x ∷ parts) [] p = elim p [ ]
length_of_Takes m (x ∷ parts) (s ∷ request) (p, ps) =
    omega (arith, length_of_Takes m parts request ps)

length_of_Takes_exact :
    (parts request : List String) → Takes exact parts request → length parts ≡ length request
length_of_Takes_exact [] [] p = refl
length_of_Takes_exact [] (s ∷ request) p = elim p [ ]
length_of_Takes_exact (x ∷ parts) [] p = elim p [ ]
length_of_Takes_exact (x ∷ parts) (s ∷ request) (p, ps) =
    omega (arith, length_of_Takes_exact parts request ps)

pub overlaps_parts_complete :
    (m n : Match) (left right request : List String)
    → Takes m left request
    → Takes n right request
    → overlaps_parts m left n right ≡ true
unfolding overlaps_parts
overlaps_parts_complete exact exact left right request p q = ground (
  arith,
  compatible_of_Takes exact exact left right request p q,
  length_of_Takes_exact left request p,
  length_of_Takes_exact right request q,
)
overlaps_parts_complete exact prefix left right request p q = ground (
  arith,
  compatible_of_Takes exact prefix left right request p q,
  length_of_Takes_exact left request p,
  length_of_Takes prefix right request q,
)
overlaps_parts_complete prefix exact left right request p q = ground (
  arith,
  compatible_of_Takes prefix exact left right request p q,
  length_of_Takes prefix left request p,
  length_of_Takes_exact right request q,
)
overlaps_parts_complete prefix prefix left right request p q =
    ground (arith, compatible_of_Takes prefix prefix left right request p q)

-- A request that both routes take, if they overlap.
shared : List String → List String → List String
shared [] [] = []
shared [] (y ∷ right) = common y y ∷ shared [] right
shared (x ∷ left) [] = common x x ∷ shared left []
shared (x ∷ left) (y ∷ right) = common x y ∷ shared left right

-- The route with the pattern `parts` takes a request that goes on to the length of `other`.
abbrev Reaches : Match → List String → List String → Type 0
Reaches m parts other = (is_prefix m ≡ true) ⊎ (length other ≤ length parts)

takes_rest :
    (m : Match) (rest : List String) → (is_prefix m ≡ true) ⊎ (length rest ≤ 0) → TakesRest m rest
takes_rest prefix rest h = tt
takes_rest exact [] h = tt
takes_rest exact (s ∷ rest) h = ground arith

self-Fits : (x : String) → is_empty x ≡ false → Fits x (common x x)
self-Fits x p = elim (Bool-cases (is_param x)) [ inl a ↦ rw a refl | inr a ↦ rw a refl ]

shared_right : (right : List String) → length (shared [] right) ≡ length right
unfolding shared
shared_right [] = refl
shared_right (y ∷ right) = omega (arith, shared_right right)

shared_left : (left : List String) → length (shared left []) ≡ length left
unfolding shared
shared_left [] = refl
shared_left (y ∷ left) = omega (arith, shared_left left)

compatible_nil : (left : List String) → compatible left [] ≡ true
unfolding compatible
compatible_nil [] = refl
compatible_nil (x ∷ left) = refl

Takes-left :
    (m : Match) (left right : List String)
    → Full left
    → Full right
    → compatible left right ≡ true
    → Reaches m left right
    → Takes m left (shared left right)
unfolding compatible shared
Takes-left m [] [] f g c r = takes_rest m [] (ground arith)
Takes-left m [] (y ∷ right) f g c r = takes_rest m _ (ground (arith, shared_right right))
Takes-left m (x ∷ left) [] (f, fs) g c r =
    (self-Fits x f, Takes-left m left [] fs tt (compatible_nil left) (ground arith))
Takes-left m (x ∷ left) (y ∷ right) (f, fs) (g, gs) c r = (
  (common-Fits x y f g (ground arith)).0,
  Takes-left m left right fs gs (ground arith) (ground arith),
)

Takes-right :
    (n : Match) (left right : List String)
    → Full left
    → Full right
    → compatible left right ≡ true
    → Reaches n right left
    → Takes n right (shared left right)
unfolding compatible shared
Takes-right n [] [] f g c r = takes_rest n [] (ground arith)
Takes-right n (x ∷ left) [] f g c r = takes_rest n _ (ground (arith, shared_left left))
Takes-right n [] (y ∷ right) f (g, gs) c r =
    (self-Fits y g, Takes-right n [] right tt gs refl (ground arith))
Takes-right n (x ∷ left) (y ∷ right) (f, fs) (g, gs) c r = (
  (common-Fits x y f g (ground arith)).1,
  Takes-right n left right fs gs (ground arith) (ground arith),
)

overlaps_parts-Reaches :
    (m n : Match) (left right : List String)
    → overlaps_parts m left n right ≡ true
    → (compatible left right ≡ true) × Reaches m left right × Reaches n right left
unfolding overlaps_parts
overlaps_parts-Reaches m n left right h = ground arith

-- Two routes whose parts are not empty overlap exactly when some request is taken by both.
pub overlaps_parts_iff :
    (m n : Match) (left right : List String)
    → Full left
    → Full right
    → (overlaps_parts m left n right ≡ true)
      ↔ ((request : List String) × Takes m left request × Takes n right request)
overlaps_parts_iff m n left right f g = (
  λ h.
      let (c, r, r') = overlaps_parts-Reaches m n left right h in
      (shared left right, Takes-left m left right f g c r, Takes-right n left right f g c r'),
  λ w. overlaps_parts_complete m n left right w.0 w.1 w.2,
)

pub overlaps_lem :
    (m n : Match) (a b : String) (left right : List String)
    → path_segments a ≡ ok left
    → path_segments b ≡ ok right
    → overlaps m a n b ≡ ok (overlaps_parts m left n right)
unfolding overlaps
overlaps_lem m n a b left right e f = rw (e, f) refl

-- Two routes whose paths are accepted overlap exactly when some request is taken by both.
pub overlaps_iff :
    (m n : Match) (a b : String) (left right : List String)
    → path_segments a ≡ ok left
    → path_segments b ≡ ok right
    → (overlaps m a n b ≡ ok true)
      ↔ ((request : List String) × Takes m left request × Takes n right request)
overlaps_iff m n a b left right e f =
    let (to, from) =
      overlaps_parts_iff m n left right (path_segments-Full a left e)
        (path_segments-Full b right f) in
    (
      λ h. to (ok_injective (sym (overlaps_lem m n a b left right e f) ∙ h)),
      λ w. overlaps_lem m n a b left right e f ∙ ap ok (from w),
    )
