-- ===== src/Admin/Program.antt =====
-- A program over Kong's Admin API, as the scripts write it: it may raise, and it may change the
-- state `S` of what it talks to.
use kong.Base.{
  String, List, [], ◌∷◌, Bool, true, false, not, Result, ok, err, ◌&&◌, ◌≡◌, refl, ap, err-ne-ok,
}

abbrev pub Program : Type 0 → Type 0 → Type 0
Program S A = S → Result String A × S

-- A step that may raise, and then one that goes on from its value and state.
abbrev pub and_then :
    {A B S : Type 0} → Result String A × S → (A → S → Result String B × S) → Result String B × S
and_then (err message, s) next = (err message, s)
and_then (ok a, s) next = next a s

infixl 5 ◌>>=◌
unfoldable pub ◌>>=◌ : {S A B : Type 0} → Program S A → (A → Program S B) → Program S B
(m >>= next) s = and_then (m s) next

infixl 5 ◌>>◌
unfoldable pub ◌>>◌ : {S B : Type 0} → Program S (Unit {0}) → Program S B → Program S B
(m >> rest) s = and_then (m s) (λ done. rest)

-- a value, or an exception, with no request
unfoldable pub pure : {S A : Type 0} → Result String A → Program S A
pure r s = (r, s)

-- `if c: … else: …`
unfoldable pub branch : {S A : Type 0} → Bool → Program S A → Program S A → Program S A
branch true this that = this
branch false this that = that

-- `for x in xs: …`
unfoldable pub for_each :
    {S A : Type 0} → List A → (A → Program S (Unit {0})) → Program S (Unit {0})
for_each [] body = pure (ok tt)
for_each (x ∷ xs) body = body x >> for_each xs body

-- `[… for x in xs]`
unfoldable pub for_all : {S A B : Type 0} → List A → (A → Program S B) → Program S (List B)
for_all [] body = pure (ok [])
for_all (x ∷ xs) body = body x >>= λ y. for_all xs body >>= λ ys. pure (ok (y ∷ ys))

-- What holds before the program holds after it, whether it returns or raises.
pub record Keeps {S A : Type 0} (P : S → Type 0) (m : Program S A) : Type 0 where
  pub after : (s : S) → P s → P (m s).1

pub keeps-and_then :
    {A B S : Type 0} (P : S → Type 0) (r : Result String A × S) (next : A → S → Result String B × S)
    → P r.1
    → ((a : A) (s : S) → P s → P (next a s).1)
    → P (and_then r next).1
keeps-and_then P (ok a, s) next p keeps = keeps a s p
keeps-and_then P (err message, s) next p keeps = p

module _ {S : Type 0} {P : S → Type 0} where
  pub Keeps->>= :
      {A B : Type 0} {m : Program S A} {next : A → Program S B}
      → Keeps P m
      → ((a : A) → Keeps P (next a))
      → Keeps P (m >>= next)
  unfolding ◌>>=◌
  Keeps->>= {m} {next} k h = record {
    after = λ s p. keeps-and_then P (m s) next (k.after s p) (λ a. (h a).after);
  }

  pub Keeps->> :
      {B : Type 0} {m : Program S (Unit {0})} {rest : Program S B}
      → Keeps P m
      → Keeps P rest
      → Keeps P (m >> rest)
  unfolding ◌>>◌
  Keeps->> {m} {rest} k h = record {
    after = λ s p. keeps-and_then P (m s) (λ done. rest) (k.after s p) (λ a. h.after);
  }

  pub Keeps-pure : {A : Type 0} (r : Result String A) → Keeps P (pure r)
  unfolding pure
  Keeps-pure r = record { after = λ s p. p }

  pub Keeps-branch :
      {A : Type 0} (c : Bool) {this that : Program S A}
      → Keeps P this
      → Keeps P that
      → Keeps P (branch c this that)
  unfolding branch
  Keeps-branch true k h = k
  Keeps-branch false k h = h

  pub Keeps-for_each :
      {A : Type 0} (xs : List A) {body : A → Program S (Unit {0})}
      → ((x : A) → Keeps P (body x))
      → Keeps P (for_each xs body)
  unfolding for_each
  Keeps-for_each [] k = Keeps-pure (ok tt)
  Keeps-for_each (x ∷ xs) k = Keeps->> (k x) (Keeps-for_each xs k)

  pub Keeps-for_all :
      {A B : Type 0} (xs : List A) {body : A → Program S B}
      → ((x : A) → Keeps P (body x))
      → Keeps P (for_all xs body)
  unfolding for_all
  Keeps-for_all [] k = Keeps-pure (ok [])
  Keeps-for_all (x ∷ xs) k =
      Keeps->>= (k x) (λ y. Keeps->>= (Keeps-for_all xs k) (λ ys. Keeps-pure (ok (y ∷ ys))))

-- What the first step returned, and the state after it, are known to the rest.
pub Keeps->>=_at :
    {A B S : Type 0} (P : S → Type 0) {m : Program S A} (next : A → Program S B)
    → Keeps P m
    → ((a : A) (s s' : S) → m s ≡ (ok a, s') → P s' → P (next a s').1)
    → Keeps P (m >>= next)
unfolding ◌>>=◌
Keeps->>=_at {A = A} {B = B} {S = S} P {m} next k h = record {
  after = λ s p. keeps_at s (m s) refl (k.after s p);
}
  where
    keeps_at : (s : S) (r : Result String A × S) → m s ≡ r → P r.1 → P (and_then r next).1
    keeps_at s (ok a, s') e q = h a s s' e q
    keeps_at s (err message, s') e q = q

-- a value that is computed with no request
pub pure->>=_at :
    {A B S : Type 0} (P : S → Type 0) (r : Result String A) (next : A → Program S B) (s : S)
    → P s
    → ((a : A) → r ≡ ok a → P (next a s).1)
    → P ((pure r >>= next) s).1
unfolding ◌>>=◌ pure
pure->>=_at P (ok a) next s p h = h a refl
pure->>=_at P (err message) next s p h = p

-- the steps that send nothing of their own
pub ruleset keeping = (Keeps->>=, Keeps->>, Keeps-pure, Keeps-branch, Keeps-for_each, Keeps-for_all)

-- a branch that is not taken, where a flag is off
pub Keeps-branch_off :
    {S A : Type 0} {P : S → Type 0} (c : Bool) (this : Program S A) {that : Program S A}
    → c ≡ false
    → Keeps P that
    → Keeps P (branch c this that)
unfolding branch
Keeps-branch_off c this e k = rw e k

-- a branch that is taken, where a flag is on
pub Keeps-branch_on :
    {S A : Type 0} {P : S → Type 0} (c : Bool) {this : Program S A} (that : Program S A)
    → c ≡ true
    → Keeps P this
    → Keeps P (branch c this that)
unfolding branch
Keeps-branch_on c that e k = rw e k

pub and_off : (c : Bool) → (c && false) ≡ false
and_off true = refl
and_off false = refl

pub off : false ≡ false
off = refl

pub on : not false ≡ true
on = refl

-- the branches of a program whose flag is off
pub ruleset skipping = (Keeps-branch_off, Keeps-branch_on, and_off, off, on)

pub and_then-eq-ok :
    {A B S : Type 0} (r : Result String A × S) (next : A → S → Result String B × S) {b : B} {s' : S}
    → and_then r next ≡ (ok b, s')
    → (a : A) × (s : S) × (r ≡ (ok a, s)) × (next a s ≡ (ok b, s'))
and_then-eq-ok (ok a, s) next h = (a, s, refl, h)
and_then-eq-ok (err message, s) next h = absurd (err-ne-ok (ap (λ p. p.0) h))

-- A chain that returns: its first step returned a value, from which the rest returned.
pub run->>=-ok :
    {S A B : Type 0} (m : Program S A) (next : A → Program S B) (s : S) {b : B} {s' : S}
    → (m >>= next) s ≡ (ok b, s')
    → (a : A) × (mid : S) × (m s ≡ (ok a, mid)) × (next a mid ≡ (ok b, s'))
unfolding ◌>>=◌
run->>=-ok m next s h = and_then-eq-ok (m s) next h

pub run->>-ok :
    {S B : Type 0} (r : Result String (Unit {0})) (rest : Program S B) (s : S) {b : B} {s' : S}
    → (pure r >> rest) s ≡ (ok b, s')
    → (r ≡ ok tt) × (rest s ≡ (ok b, s'))
unfolding ◌>>◌ pure
run->>-ok (ok done) rest s h = (refl, h)
run->>-ok (err message) rest s h = absurd (err-ne-ok (ap (λ p. p.0) h))

pub run-pure-ok :
    {S A : Type 0} (r : Result String A) (s : S) {a : A} {s' : S}
    → pure r s ≡ (ok a, s')
    → (r ≡ ok a) × (s ≡ s')
unfolding pure
run-pure-ok r s h = (ap (λ p. p.0) h, ap (λ p. p.1) h)

raised :
    {A B S : Type 0} (r : Result String A × S) (next : A → S → Result String B × S)
    {message : String}
    → r.0 ≡ err message
    → (and_then r next).1 ≡ r.1
raised (ok a, s) next h = cc
raised (err other, s) next h = refl

-- A step that raises ends the chain, in its state.
pub run->>=-err :
    {S A B : Type 0} (m : Program S A) (next : A → Program S B) (s : S) {message : String}
    → (m s).0 ≡ err message
    → ((m >>= next) s).1 ≡ (m s).1
unfolding ◌>>=◌
run->>=-err m next s h = raised (m s) next h

-- A check that refuses ends the program before its first request.
pub refused-keeps :
    {S A B : Type 0} (r : Result String A) (rest : A → Program S B) (s : S) {message : String}
    → r ≡ err message
    → ((pure r >>= rest) s).1 ≡ s
unfolding ◌>>=◌ pure
refused-keeps (ok a) rest s h = cc
refused-keeps (err other) rest s h = refl

-- a step without a value that returned
pub run->>_ok :
    {S B : Type 0} (m : Program S (Unit {0})) (rest : Program S B) (s : S) {b : B} {s' : S}
    → (m >> rest) s ≡ (ok b, s')
    → (mid : S) × (m s ≡ (ok tt, mid)) × (rest mid ≡ (ok b, s'))
unfolding ◌>>◌
run->>_ok m rest s h =
    let (done, mid, e, h1) = and_then-eq-ok (m s) (λ done. rest) h in (mid, e, h1)

-- where the first step returned, the run is that of the rest
pub run->>=_step :
    {S A B : Type 0} (m : Program S A) (next : A → Program S B) (s : S) {a : A} {mid : S}
    → m s ≡ (ok a, mid)
    → (m >>= next) s ≡ next a mid
unfolding ◌>>=◌
run->>=_step m next s e = ap (λ r. and_then r next) e
