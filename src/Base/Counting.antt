-- ===== src/Base/Counting.antt =====
-- Lists without repetition: their length, and how they are put together.
use Prim.Native.Nat.{suc, ◌≤◌}
use mathlib.Core.Path.{◌≡◌, refl, sym, ap, ◌∙◌, subst}
use mathlib.Core.Logic.{◌≢◌, inl, inr}
use mathlib.Core.Bool.{Bool, true, false}
use mathlib.Core.List.{List, [], ◌∷◌, ◌++◌}
use native.Mathlib.Omega.{arith}
use kong.Base.Tests.{Comparable, ◌==◌, if◌then◌else◌, Bool-cases}
use kong.Base.Lists.{length, In, Distinct, In-append_cases}

module _ {A : Type 0} where
  pub Distinct-append :
      (xs ys : List A)
      → Distinct xs
      → Distinct ys
      → ((z : A) → In z xs → ¬ In z ys)
      → Distinct (xs ++ ys)
  Distinct-append [] ys d e apart = e
  Distinct-append (x ∷ xs) ys (new, d) e apart = (
    λ m. elim (In-append_cases x xs ys m) [ inl a ↦ new a | inr b ↦ apart x (inl refl) b ],
    Distinct-append xs ys d e (λ z m. apart z (inr m)),
  )

module _ {A : Type 0} ⦃c : Comparable A⦄ where
  abbrev without : A → List A → List A
  without x [] = []
  without x (y ∷ ys) = let rest = without x ys in if x == y then ys else y ∷ rest

  length-without : (x : A) (ys : List A) → In x ys → length ys ≡ suc (length (without x ys))
  length-without x [] m = absurd m
  length-without x (y ∷ ys) m = elim (Bool-cases (x == y)) [
    | inl e ↦ rw e refl
    | inr e ↦ elim m [
      | inl same ↦ absurd (differs ((c.same_iff x y).1 same) e)
      | inr later ↦ rw e (ap suc (length-without x ys later))
    ]
  ]
    where
      differs : {b : Bool} → b ≡ true → b ≢ false
      differs p q = cc

  In-without : (x z : A) (ys : List A) → In z ys → ¬ (z ≡ x) → In z (without x ys)
  In-without x z [] m other = absurd m
  In-without x z (y ∷ ys) m other = elim (Bool-cases (x == y)) [
    | inl e ↦ rw e (elim m [
      | inl same ↦ absurd (other (same ∙ sym ((c.same_iff x y).0 e)))
      | inr later ↦ later
    ])
    | inr e ↦
        rw e (elim m [ inl same ↦ inl same | inr later ↦ inr (In-without x z ys later other) ])
  ]

  -- a list without repetition is no longer than one that holds its members
  pub length_bound :
      (xs ys : List A) → Distinct xs → ((z : A) → In z xs → In z ys) → length xs ≤ length ys
  length_bound [] ys d inside = omega arith
  length_bound (x ∷ xs) ys (new, d) inside =
      let rest =
        length_bound xs (without x ys) d
          (λ z m. In-without x z ys (inside z (inr m)) (λ e. new (subst (λ v. In v xs) e m))) in
      omega (arith, rest, length-without x ys (inside x (inl refl)))
