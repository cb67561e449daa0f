-- ===== src/Base/Lists.antt =====
-- Lists measured and searched by native numbers and Boolean tests.
use Prim.Native.Nat.{ℕ, suc, ◌+◌}
use mathlib.Core.Path.{◌≡◌, sym, ◌∙◌}
use mathlib.Core.Logic.{◌↔◌, ◌⊎◌, inl, inr}
use mathlib.Core.Bool.{Bool, true, false, not, ◌&&◌, ◌||◌, false≢true}
use mathlib.Core.List.{List, [], ◌∷◌, ◌++◌}
use native.Mathlib.Omega.{arith}
use kong.Base.Tests.{Comparable, ◌==◌, if◌then◌else◌, and_true, or_true, or_right, eq-false_of_not}

module _ {ℓ} {A : Type ℓ} where
  abbrev pub length : List A → ℕ
  length [] = 0
  length (x ∷ xs) = suc (length xs)

  abbrev pub all : (A → Bool) → List A → Bool
  all p [] = true
  all p (x ∷ xs) = p x && all p xs

  abbrev pub any : (A → Bool) → List A → Bool
  any p [] = false
  any p (x ∷ xs) = p x || any p xs

  -- a comprehension `[x for x in xs if p(x)]`
  abbrev pub keep : (A → Bool) → List A → List A
  keep p [] = []
  keep p (x ∷ xs) = let rest = keep p xs in if p x then x ∷ rest else rest

  pub length-append : (xs ys : List A) → length (xs ++ ys) ≡ length xs + length ys
  length-append [] ys = omega arith
  length-append (x ∷ xs) ys = omega (arith, length-append xs ys)

module _ {ℓ κ} {A : Type ℓ} (P : A → Type κ) where
  abbrev pub All : List A → Type κ
  All [] = Unit
  All (x ∷ xs) = P x × All xs

  pub All-append : (xs ys : List A) → All xs → All ys → All (xs ++ ys)
  All-append [] ys h k = k
  All-append (x ∷ xs) ys (p, h) k = (p, All-append xs ys h k)

module _ {A : Type 0} where
  -- membership with the place kept, as a sum that the tactics take apart
  abbrev pub In : A → List A → Type 0
  In x [] = ⊥
  In x (y ∷ ys) = (x ≡ y) ⊎ In x ys

  pub In-append_left : (x : A) (xs ys : List A) → In x xs → In x (xs ++ ys)
  In-append_left x [] ys h = elim h [ ]
  In-append_left x (y ∷ xs) ys (inl e) = inl e
  In-append_left x (y ∷ xs) ys (inr h) = inr (In-append_left x xs ys h)

  pub In-append_right : (x : A) (xs ys : List A) → In x ys → In x (xs ++ ys)
  In-append_right x [] ys h = h
  In-append_right x (y ∷ xs) ys h = inr (In-append_right x xs ys h)

  pub In-append_cases : (x : A) (xs ys : List A) → In x (xs ++ ys) → In x xs ⊎ In x ys
  In-append_cases x [] ys h = inr h
  In-append_cases x (y ∷ xs) ys (inl e) = inl (inl e)
  In-append_cases x (y ∷ xs) ys (inr h) = elim (In-append_cases x xs ys h) [
    | inl a ↦ inl (inr a)
    | inr b ↦ inr b
  ]

  -- no value stands twice
  abbrev pub Distinct : List A → Type 0
  Distinct [] = Unit
  Distinct (x ∷ xs) = (¬ In x xs) × Distinct xs

module _ {A : Type 0} ⦃e : Comparable A⦄ where
  -- `x in xs`
  abbrev pub elem : A → List A → Bool
  elem x [] = false
  elem x (y ∷ ys) = x == y || elem x ys

  pub elem_iff : (x : A) (xs : List A) → (elem x xs ≡ true) ↔ In x xs
  elem_iff x [] = (λ h. false≢true h, λ h. absurd h)
  elem_iff x (y ∷ ys) = (
    λ h. elim (or_true _ _ h) [
      | inl p ↦ inl ((e.same_iff x y).0 p)
      | inr q ↦ inr ((elem_iff x ys).0 q)
    ],
    λ h. elim h [ inl p ↦ rw ((e.same_iff x y).1 p) | inr q ↦ or_right _ ((elem_iff x ys).1 q) ],
  )

  pub elem_no : (x : A) (xs : List A) → elem x xs ≡ false → ¬ In x xs
  elem_no x xs h m = false≢true (sym h ∙ (elem_iff x xs).1 m)

  -- `len(xs) == len(set(xs))`
  abbrev pub distinct : List A → Bool
  distinct [] = true
  distinct (x ∷ xs) = not (elem x xs) && distinct xs

  pub distinct_sound : (xs : List A) → distinct xs ≡ true → Distinct xs
  distinct_sound [] h = tt
  distinct_sound (x ∷ xs) h =
      let (a, b) = and_true _ _ h in (elem_no x xs (eq-false_of_not _ a), distinct_sound xs b)

  -- `set(xs) <= set(ys)`
  abbrev pub subset : List A → List A → Bool
  subset xs ys = all (λ x. elem x ys) xs

module _ {κ} {A : Type 0} (P : A → Type κ) where
  pub All-In : (x : A) (xs : List A) → All P xs → In x xs → P x
  All-In x [] h m = elim m [ ]
  All-In x (y ∷ xs) (p, h) (inl e) = rw e p
  All-In x (y ∷ xs) (p, h) (inr m) = All-In x xs h m

module _ {A : Type 0} (p : A → Bool) where
  pub all_sound : (xs : List A) → all p xs ≡ true → All (λ x. p x ≡ true) xs
  all_sound [] h = tt
  all_sound (x ∷ xs) h = let (a, b) = and_true _ _ h in (a, all_sound xs b)
