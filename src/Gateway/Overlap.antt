-- ===== src/Gateway/Overlap.antt =====
-- `_overlaps` of scripts/gateway_integrations.py, and the requests that a route takes.
pub mod Decides
use kong.Base.{
  ℕ, String, List, [], ◌∷◌, Bool, true, false, not, ◌&&◌, ◌||◌, ◌≡◌, ◌≢◌, Result, ok, ◌>>=◌, ◌==◌,
  nat_eq, string_eq, ltb, length, if◌then◌else◌,
}
use kong.Base.Text.{begins, is_empty}
use kong.Gateway.Paths.{path_segments}

pub data Match : Type 0 where
  exact prefix : Match

abbrev pub is_prefix : Match → Bool
is_prefix exact = false
is_prefix prefix = true

-- a part that stands for any segment
abbrev pub is_param : String → Bool
is_param part = begins b'{' part

-- the loop over `zip(left, right)`: no pair of different literals
unfoldable pub compatible : List String → List String → Bool
compatible [] right = true
compatible (x ∷ left) [] = true
compatible (x ∷ left) (y ∷ right) =
    if not (x == y) && not (is_param x || is_param y) then false else compatible left right

unfoldable pub overlaps_parts : Match → List String → Match → List String → Bool
unfolding compatible
overlaps_parts m left n right =
    if compatible left right
    then (if length left == length right
        then true
        else is_prefix (if ltb (length left) (length right) then m else n))
    else false

unfoldable pub overlaps : Match → String → Match → String → Result String Bool
unfolding overlaps_parts
overlaps m a n b = do
  left ← path_segments a
  right ← path_segments b
  ok (overlaps_parts m left n right)

-- One segment of a request against one part: a parameter is `[^/]+`, a literal is itself.
abbrev pub FitsAs : Bool → String → String → Type 0
FitsAs true part segment = is_empty segment ≡ false
FitsAs false part segment = part ≡ segment

abbrev pub Fits : String → String → Type 0
Fits part = FitsAs (is_param part) part

-- The requests of a route, by the segments of their path: those of `/` are none, and a prefix
-- route takes whatever follows at a boundary of segments.
abbrev pub TakesRest : Match → List String → Type 0
TakesRest prefix rest = Unit
TakesRest exact [] = Unit
TakesRest exact (s ∷ rest) = ⊥

abbrev pub Takes : Match → List String → List String → Type 0
Takes m [] rest = TakesRest m rest
Takes m (p ∷ ps) [] = ⊥
Takes m (p ∷ ps) (s ∷ ss) = Fits p s × Takes m ps ss
