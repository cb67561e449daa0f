-- ===== src/Base/Text.antt =====
-- Text and bytes as the source walks them: a `String` by its characters where Python has `str`, a
-- list of numbers where it has `bytes`.
use Prim.Native.Nat.{ℕ}
use Prim.Native.Char.{Char, code}
use Prim.Native.String.{String, [], ◌∷◌}
use mathlib.Core.Path.{◌≡◌, refl}
use mathlib.Core.Bool.{Bool, true, false, ◌&&◌, ◌||◌}
use mathlib.Core.List.{List, [], ◌∷◌}
use native.Mathlib.Omega.{arith}
use mathlib.Core.Logic.{inl, inr}
use kong.Base.Tests.{Bool-cases, nat_eq, ◌==◌, if◌then◌else◌}

-- The code points of a text: its bytes, if it is ASCII.
abbrev pub codes : String → List ℕ
codes [] = []
codes (c ∷ s) = code c ∷ codes s

-- `chr(k) in s`
abbrev pub has_char : ℕ → String → Bool
has_char k [] = false
has_char k (c ∷ s) = code c == k || has_char k s

-- `s.startswith(chr(k))`
abbrev pub begins : ℕ → String → Bool
begins k [] = false
begins k (c ∷ s) = code c == k

-- `s.endswith(chr(k))`
abbrev pub ends : ℕ → String → Bool
ends k [] = false
ends k (c ∷ []) = code c == k
ends k (c ∷ d ∷ s) = ends k (d ∷ s)

-- `chr(k) + chr(k) in s`
abbrev pub doubled : ℕ → String → Bool
doubled k [] = false
doubled k (c ∷ []) = false
doubled k (c ∷ d ∷ s) = (code c == k && code d == k) || doubled k (d ∷ s)

-- `s.lstrip(chr(k))`, `s.rstrip(chr(k))`
abbrev pub strip_left : ℕ → String → String
strip_left k [] = []
strip_left k (c ∷ s) = let rest = strip_left k s in if code c == k then rest else c ∷ s

abbrev pub is_empty : String → Bool
is_empty [] = true
is_empty (c ∷ s) = false

abbrev pub strip_right : ℕ → String → String
strip_right k [] = []
strip_right k (c ∷ s) =
    let rest = strip_right k s in if code c == k && is_empty rest then [] else c ∷ rest

abbrev pub push_head : Char → List String → List String
push_head c [] = (c ∷ []) ∷ []
push_head c (part ∷ parts) = (c ∷ part) ∷ parts

-- `s.split(chr(k))`
abbrev pub split : ℕ → String → List String
split k [] = [] ∷ []
split k (c ∷ s) = let rest = split k s in if code c == k then [] ∷ rest else push_head c rest

pub strip_left_of_begins : (k : ℕ) (s : String) → begins k s ≡ false → strip_left k s ≡ s
strip_left_of_begins k [] h = refl
strip_left_of_begins k (c ∷ s) h = ground arith

pub strip_right_of_ends : (k : ℕ) (s : String) → ends k s ≡ false → strip_right k s ≡ s
strip_right_of_ends k [] h = refl
strip_right_of_ends k (c ∷ []) h = ground arith
strip_right_of_ends k (c ∷ d ∷ s) h = rw (strip_right_of_ends k (d ∷ s) h) (ground arith)

-- Splitting a text that has no separator at either end and none doubled gives no empty part.
abbrev pub Full : List String → Type 0
Full [] = Unit
Full (part ∷ parts) = (is_empty part ≡ false) × Full parts

pub push_head-Full : (c : Char) (parts : List String) → Full parts → Full (push_head c parts)
push_head-Full c [] h = (refl, tt)
push_head-Full c (part ∷ parts) (_, h) = (refl, h)

split_ne :
    (k : ℕ) (c : Char) (s : String)
    → (code c == k) ≡ false
    → split k (c ∷ s) ≡ push_head c (split k s)
split_ne k c s h = ground arith

split_eq : (k : ℕ) (c : Char) (s : String) → (code c == k) ≡ true → split k (c ∷ s) ≡ [] ∷ split k s
split_eq k c s h = ground arith

pub split-Full :
    (k : ℕ) (s : String)
    → is_empty s ≡ false
    → begins k s ≡ false
    → ends k s ≡ false
    → doubled k s ≡ false
    → Full (split k s)
split-Full k [] n b e d = cc
split-Full k (c ∷ []) n b e d = rw (split_ne k c [] b) (refl, tt)
split-Full k (c ∷ x ∷ []) n b e d =
    rw (split_ne k c (x ∷ []) b) (push_head-Full c _ (split-Full k (x ∷ []) refl e e refl))
split-Full k (c ∷ x ∷ y ∷ s) n b e d =
    rw (split_ne k c (x ∷ y ∷ s) b) (elim (Bool-cases (code x == k)) [
      | inl same ↦
          rw (split_eq k x (y ∷ s) same)
            (refl, split-Full k (y ∷ s) refl (ground arith) e (ground arith))
      | inr other ↦ push_head-Full c _ (split-Full k (x ∷ y ∷ s) refl other e (ground arith))
    ])
