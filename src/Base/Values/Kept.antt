-- ===== src/Base/Values/Kept.antt =====
-- What a list comprehension with a test keeps.
use mathlib.Core.Path.{◌≡◌, sym, subst, ap, ◌∙◌}
use mathlib.Core.Logic.{inl, inr}
use mathlib.Core.Bool.{Bool, true, false}
use mathlib.Core.List.{List, [], ◌∷◌}
use Prim.Native.String.{String}
use kong.Base.Tests.{if◌then◌else◌}
use kong.Base.Lists.{In}
use kong.Base.Errors.{Result, ok, >>=-eq-ok, ok_injective}
use kong.Base.Json.{Json}
use kong.Base.Values.{keep_if}

pub keep_if-In :
    (test : Json → Result String Bool) (xs ys : List Json) (y : Json)
    → keep_if test xs ≡ ok ys
    → In y ys
    → In y xs × (test y ≡ ok true)
unfolding keep_if
keep_if-In test [] ys y h m = absurd (subst (In y) (sym (ok_injective h)) m)
keep_if-In test (x ∷ xs) ys y h m =
    let (kept, e, h1) = >>=-eq-ok (test x) _ h in
    let (rest, e1, h2) = >>=-eq-ok (keep_if test xs) _ h1 in
    from kept rest e (keep_if-In test xs rest y e1) (subst (In y) (sym (ok_injective h2)) m)
  where
    from :
        (kept : Bool) (rest : List Json)
        → test x ≡ ok kept
        → (In y rest → In y xs × (test y ≡ ok true))
        → In y (if kept then x ∷ rest else rest)
        → In y (x ∷ xs) × (test y ≡ ok true)
    from true rest e later (inl same) = (inl same, ap test same ∙ e)
    from true rest e later (inr m) = let (a, b) = later m in (inr a, b)
    from false rest e later m = let (a, b) = later m in (inr a, b)

pub In-keep_if :
    (test : Json → Result String Bool) (xs ys : List Json) (y : Json)
    → keep_if test xs ≡ ok ys
    → In y xs
    → test y ≡ ok true
    → In y ys
unfolding keep_if
In-keep_if test [] ys y h m t = absurd m
In-keep_if test (x ∷ xs) ys y h m t =
    let (kept, e, h1) = >>=-eq-ok (test x) _ h in
    let (rest, e1, h2) = >>=-eq-ok (keep_if test xs) _ h1 in
    subst (In y) (ok_injective h2) (elim m [
      | inl same ↦
          subst (λ b. In y (if b then x ∷ rest else rest))
            (sym (ok_injective (sym e ∙ ap test (sym same) ∙ t))) (inl same)
      | inr later ↦ from kept rest (In-keep_if test xs rest y e1 later t)
    ])
  where
    from : (kept : Bool) (rest : List Json) → In y rest → In y (if kept then x ∷ rest else rest)
    from true rest m = inr m
    from false rest m = m
