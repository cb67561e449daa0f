-- ===== src/Base/Values.antt =====
-- What Python does with the values of `json.loads`. A dictionary's missing key and a value of the
-- wrong type raise, as the source writes them: `d[key]`, `d.get(key)`, `x in xs`.
pub mod Kept
use Prim.Native.String.{String}
use Prim.Native.Char.{code}
use Prim.Native.Nat.{ℕ, zero, suc}
use mathlib.Core.Bool.{Bool, true, false, not, ◌&&◌, ◌||◌}
use mathlib.Core.List.{List, [], ◌∷◌}
use mathlib.Core.Option.{Option, none, some}
use kong.Base.Tests.{nat_eq, string_eq, ◌==◌, if◌then◌else◌}
use kong.Base.Lists.{any}
use kong.Base.Errors.{Result, ok, err, ◌>>=◌, require}
use kong.Base.Int.{ℤ, pos, negsuc}
use kong.Base.Text.{is_empty}
use kong.Base.Json.{Json, null, bool, num, str, arr, obj, Items, nil, cons, Fields, end, field, get}

-- literals: `{k: v, …}`, `[…]`, a list of texts
abbrev pub dict : List (String × Json) → Fields
dict [] = end
dict ((key, value) ∷ rest) = field key value (dict rest)

abbrev pub list_of : List Json → Items
list_of [] = nil
list_of (x ∷ xs) = cons x (list_of xs)

abbrev pub texts : List String → Json
texts [] = arr nil
texts (t ∷ ts) = elim (texts ts) [ arr items ↦ arr (cons (str t) items) | _ ↦ null ]

abbrev pub members : Items → List Json
members nil = []
members (cons x xs) = x ∷ members xs

abbrev pub keys : Fields → List String
keys end = []
keys (field key value rest) = key ∷ keys rest

abbrev pub entries : Fields → List (String × Json)
entries end = []
entries (field key value rest) = (key, value) ∷ entries rest

abbrev is_zero : ℤ → Bool
is_zero (pos zero) = true
is_zero _ = false

-- `bool(value)`
abbrev pub is_true : Json → Bool
is_true null = false
is_true (bool b) = b
is_true (num n) = not (is_zero n)
is_true (str text) = not (is_empty text)
is_true (arr nil) = false
is_true (arr (cons item items)) = true
is_true (obj end) = false
is_true (obj (field key value rest)) = true

-- `value or default`
abbrev pub or_else : Json → Json → Json
or_else value default = if is_true value then value else default

abbrev same_int : ℤ → ℤ → Bool
same_int (pos m) (pos n) = m == n
same_int (negsuc m) (negsuc n) = m == n
same_int _ _ = false

-- the number that a Boolean is
abbrev int_of_bool : Bool → ℤ
int_of_bool true = pos 1
int_of_bool false = pos 0

abbrev same_bool : Bool → Bool → Bool
same_bool true b = b
same_bool false b = not b

abbrev size : Fields → ℕ
size end = 0
size (field key value rest) = suc (size rest)

-- `a == b`: a Boolean is a number, and the order of a dictionary does not count
unfoldable mutual
  pub equal : Json → Json → Bool
  equal null null = true
  equal (bool a) (bool b) = same_bool a b
  equal (bool a) (num n) = same_int (int_of_bool a) n
  equal (num m) (bool b) = same_int m (int_of_bool b)
  equal (num m) (num n) = same_int m n
  equal (str s) (str t) = s == t
  equal (arr xs) (arr ys) = equal_items xs ys
  equal (obj d) (obj e) = size d == size e && equal_fields d e
  equal _ _ = false

  pub equal_items : Items → Items → Bool
  equal_items nil nil = true
  equal_items (cons x xs) (cons y ys) = equal x y && equal_items xs ys
  equal_items _ _ = false

  pub equal_fields : Fields → Fields → Bool
  equal_fields end e = true
  equal_fields (field key value rest) e =
      elim (get key e) [ none ↦ false | some other ↦ equal value other ] && equal_fields rest e

abbrev pub or_null : Option Json → Json
or_null none = null
or_null (some value) = value

-- `d.get(key)`
unfoldable pub get_key : String → Json → Result String Json
unfolding get
get_key key (obj d) = ok (or_null (get key d))
get_key key _ = err "AttributeError"

-- `d.get(key, default)`
unfoldable pub get_or : String → Json → Json → Result String Json
unfolding get
get_or key default (obj d) = elim (get key d) [ none ↦ ok default | some value ↦ ok value ]
get_or key default _ = err "AttributeError"

-- `d[key]`
unfoldable pub item : String → Json → Result String Json
unfolding get
item key (obj d) = elim (get key d) [ none ↦ err "KeyError" | some value ↦ ok value ]
item key _ = err "TypeError"

-- the characters of a text
abbrev letters : String → List Json
letters String.[] = []
letters (String.◌∷◌ c s) = str (String.◌∷◌ c String.[]) ∷ letters s

-- a value that is counted and read at 0: a dictionary with an entry has no key 0
unfoldable pub sequence : Json → Result String (List Json)
sequence (arr xs) = ok (members xs)
sequence (str s) = ok (letters s)
sequence (obj end) = ok []
sequence (obj d) = err "KeyError"
sequence _ = err "TypeError"

-- `value is True`, `value is False`
abbrev pub is_bool : Bool → Json → Bool
is_bool b (bool c) = same_bool b c
is_bool b _ = false

-- a value that must be a text, as `value + text` and `text in value` need it
abbrev pub as_text : Json → Result String String
as_text (str text) = ok text
as_text _ = err "TypeError"

-- `for x in xs`
unfoldable pub iterate : Json → Result String (List Json)
iterate (arr xs) = ok (members xs)
iterate (obj d) = ok (each_key d)
  where
    each_key : Fields → List Json
    each_key end = []
    each_key (field key value rest) = str key ∷ each_key rest
iterate (str s) = ok (letters s)
iterate _ = err "TypeError"

abbrev pub begins_with : String → String → Bool
begins_with String.[] s = true
begins_with (String.◌∷◌ c p) String.[] = false
begins_with (String.◌∷◌ c p) (String.◌∷◌ d s) = code c == code d && begins_with p s

-- `p in s` on texts
unfoldable pub within : String → String → Bool
within p String.[] = is_empty p
within p (String.◌∷◌ c s) = begins_with p (String.◌∷◌ c s) || within p s

abbrev is_key : Json → Fields → Bool
is_key (str key) d = any (λ k. k == key) (keys d)
is_key _ d = false

-- `x in xs`
unfoldable pub is_in : Json → Json → Result String Bool
unfolding equal
is_in x (arr xs) = ok (any (equal x) (members xs))
is_in x (obj d) = ok (is_key x d)
is_in (str p) (str s) = ok (within p s)
is_in _ _ = err "TypeError"

-- `[x for x in xs if test(x)]`
unfoldable pub keep_if : (Json → Result String Bool) → List Json → Result String (List Json)
keep_if test [] = ok []
keep_if test (x ∷ xs) = do
  kept ← test x
  rest ← keep_if test xs
  ok (if kept then x ∷ rest else rest)

-- `if not condition: raise RuntimeError(message)` where the condition may raise
abbrev pub check : Result String Bool → String → Result String (Unit {0})
check condition message = condition >>= λ holds. require holds message

-- `a == b` on a value that is looked up
abbrev pub equals : Result String Json → Json → Result String Bool
unfolding equal
equals value expected = value >>= λ actual. ok (equal actual expected)

-- `a and b and …`, each test in turn
abbrev pub all_of : List (Result String Bool) → Result String Bool
all_of [] = ok true
all_of (test ∷ tests) = test >>= λ holds. if holds then all_of tests else ok false

-- `d.get(key) or default`
abbrev pub get_else : String → Json → Json → Result String Json
get_else key default d = get_key key d >>= λ value. ok (or_else value default)

-- `d[first][second]`, and `d.get(first, {}).get(second)`
abbrev pub item_in : String → String → Json → Result String Json
item_in first second d = item first d >>= item second

abbrev pub get_in : String → String → Json → Result String Json
get_in first second d = get_or first (obj end) d >>= get_key second
