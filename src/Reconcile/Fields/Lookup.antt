-- ===== src/Reconcile/Fields/Lookup.antt =====
-- What is read of a dictionary after a key was put into it, and the first characters of a path.
use Prim.Native.String.append
use Prim.Native.Char.{Char, code}
use kong.Base.{
  nat_beq_iff, String, true, false, ◌&&◌, some, ◌≡◌, inl, inr, refl, ap, ◌∙◌, eq_iff, Bool-cases,
  ◌==◌, string_eq,
}
use kong.Base.Json.{Json, Fields, end, field, get}
use kong.Base.Values.{begins_with}
use kong.Reconcile.Client.{◌<>◌}
use kong.Reconcile.Fields.{put}

pub get-put_same :
    (key : String) (value : Json) (d : Fields) → get key (put key value d) ≡ some value
unfolding get put
get-put_same key value end = rw ((eq_iff key key).1 refl) refl
get-put_same key value (field k v rest) = elim (Bool-cases (k == key)) [
  | inl e ↦ rw e (rw e refl)
  | inr e ↦ rw e (rw e (get-put_same key value rest))
]

pub get-put_other :
    (key other : String) (value : Json) (d : Fields)
    → (other == key) ≡ false
    → get key (put other value d) ≡ get key d
unfolding get put
get-put_other key other value end h = rw h refl
get-put_other key other value (field k v rest) h = elim (Bool-cases (k == other)) [
  | inl e ↦ rw e (rw (ap (λ v. v == key) ((eq_iff k other).0 e) ∙ h) refl)
  | inr e ↦ rw e (rw (get-put_other key other value rest h) refl)
]

pub begins_with_itself : (p s : String) → begins_with p (p <> s) ≡ true
begins_with_itself String.[] s = refl
begins_with_itself (String.◌∷◌ c p) s =
    ap (begins_with (String.◌∷◌ c p)) (append.cons c p s)
    ∙ ap (λ b. b && begins_with p (p <> s)) ((nat_beq_iff (code c) (code c)).1 refl)
    ∙ begins_with_itself p s

pub begins_with_plugins : (id : String) → begins_with "/routes/" ("/plugins/" <> id) ≡ false
begins_with_plugins id =
    let slash : Char = "/" in
    let letter : Char = "p" in
    ap (begins_with "/routes/") (
      append.cons slash "plugins/" id
      ∙ ap (λ t. String.◌∷◌ slash t) (append.cons letter "lugins/" id))
