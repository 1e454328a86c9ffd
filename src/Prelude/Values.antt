-- ===== src/Prelude/Values.antt =====
-- What `yaml.safe_load` and `json.loads` return, and Python's tests on it.
use Prim.Native.String.{String}
use mathlib.Core.Path.{◌≡◌, refl}
use mathlib.Core.Bool.{Bool, true, false, not, ◌||◌}
use native.Mathlib.Omega.{arith}
use mathlib.Core.Option.{Option, none, some}
use mathlib.Core.List.{List, [], ◌∷◌}
use personal_ai_brain.Prelude.Tests.{if◌then◌else◌, ◌==◌, is_some}
use personal_ai_brain.Prelude.Text.{str_eq}
use personal_ai_brain.Prelude.Int.{ℤ, pos}
use personal_ai_brain.Prelude.Calls.{Result, ok, err}

-- `scalar` is a float, a date or a time, by its text. A key that is no text stands by its `repr`,
-- which no lookup asks for.
mutual
  pub data Value : Type 0 where
    null : Value
    boolean : Bool → Value
    integer : ℤ → Value
    scalar : String → Value
    text : String → Value
    sequence : Values → Value
    mapping : Fields → Value

  pub data Values : Type 0 where
    nothing : Values
    item : Value → Values → Values

  pub data Fields : Type 0 where
    end : Fields
    field : String → Value → Fields → Fields

-- `value.get(key)`
abbrev pub get : String → Fields → Option Value
get k end = none
get k (field key v fs) = if str_eq key k then some v else get k fs

-- `value.get(key, default)`
abbrev pub get_or : String → Value → Fields → Value
get_or k v fs = elim (get k fs) [ none ↦ v | some x ↦ x ]

-- Lists and mappings have no hash, so that a membership test in a set raises a TypeError on them.
abbrev pub is_hashable : Value → Bool
is_hashable (sequence vs) = false
is_hashable (mapping fs) = false
is_hashable v = true

-- `not value`, for what `get` returned.
abbrev pub is_falsy : Option Value → Bool
is_falsy none = true
is_falsy (some null) = true
is_falsy (some (boolean b)) = not b
is_falsy (some (integer (pos n))) = n == 0
is_falsy (some (scalar t)) = str_eq t "0.0" || str_eq t "-0.0"
is_falsy (some (text t)) = str_eq t ""
is_falsy (some (sequence nothing)) = true
is_falsy (some (mapping end)) = true
is_falsy (some v) = false

-- `str(value)`, given what it is on numbers, lists and mappings.
abbrev pub str_of : (Value → String) → Value → String
str_of show null = "None"
str_of show (boolean true) = "True"
str_of show (boolean false) = "False"
str_of show (text t) = t
str_of show (scalar t) = t
str_of show v = show v

-- What `get` without a default returns.
abbrev pub or_null : Option Value → Value
or_null none = null
or_null (some v) = v

-- `key in value`
abbrev pub has_key : String → Fields → Bool
has_key k fs = is_some (get k fs)

-- `value == other`, for a text.
abbrev pub equals_text : Value → String → Bool
equals_text (text t) s = str_eq t s
equals_text v s = false

-- The texts of a list of texts.
unfoldable pub texts : Values → Option (List String)
texts nothing = some []
texts (item v vs) = elim v [
  | text t ↦ elim (texts vs) [ none ↦ none | some ts ↦ some (t ∷ ts) ]
  | _ ↦ none
]

abbrev pub values_of : List String → Values
values_of [] = nothing
values_of (t ∷ ts) = item (text t) (values_of ts)

pub texts-values_of : (ts : List String) → texts (values_of ts) ≡ some ts
unfolding texts
texts-values_of [] = refl
texts-values_of (t ∷ ts) = rw (texts-values_of ts) refl

module _ {E A B : Type 0} where
  infixl 5 ◌>>=◌
  abbrev pub ◌>>=◌ : Result E A → (A → Result E B) → Result E B
  ok a >>= f = f a
  err e >>= f = err e

  -- Inversion of a sequence that returns.
  pub bind_ok :
      (m : Result E A) (f : A → Result E B) (b : B)
      → (m >>= f) ≡ ok b
      → (a : A) × (m ≡ ok a) × (f a ≡ ok b)
  bind_ok (ok a) f b h = (a, refl, h)
  bind_ok (err e) f b h = absurd (ground arith)

module _ {E : Type 0} where
  -- An error unless a test holds.
  abbrev pub require : Bool → E → Result E (Unit {0})
  require true e = ok tt
  require false e = err e
