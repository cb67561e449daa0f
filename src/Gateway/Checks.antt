-- ===== src/Gateway/Checks.antt =====
-- What the checks of scripts/gateway_integrations.py share. A check raises the code of a
-- `ContractError`, or passes.
use kong.Base.{
  String, List, [], ◌∷◌, Bool, true, false, ◌&&◌, Option, none, some, Result, ok, ◌>>◌, ◌==◌,
  nat_eq, string_eq,
}

abbrev pub Check : Type 0
Check = Result String (Unit {0})

-- `for x in xs: …`
abbrev pub each {ℓ} : {A : Type ℓ} → (A → Check) → List A → Check
each check [] = ok tt
each check (x ∷ xs) = check x >> each check xs

abbrev pub same_list : List String → List String → Bool
same_list [] [] = true
same_list (x ∷ xs) (y ∷ ys) = x == y && same_list xs ys
same_list _ _ = false

abbrev pub is_some {ℓ} : {A : Type ℓ} → Option A → Bool
is_some none = false
is_some (some a) = true

abbrev pub text_is : Option String → String → Bool
text_is none text = false
text_is (some t) text = t == text

abbrev pub list_of : Option (List String) → List String
list_of none = []
list_of (some xs) = xs

abbrev pub is_empty_list {ℓ} : {A : Type ℓ} → List A → Bool
is_empty_list [] = true
is_empty_list (x ∷ xs) = false
