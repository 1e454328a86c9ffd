-- ===== src/Prelude/Equality.antt =====
-- Python's `==` on the values of `yaml.safe_load`.
use Prim.Native.String.{String}
use Prim.Native.Nat.{ℕ, suc}
use mathlib.Core.Bool.{Bool, true, false, not, ◌&&◌}
use personal_ai_brain.Prelude.Tests.{◌==◌}
use personal_ai_brain.Prelude.Text.{str_eq, concat}
use personal_ai_brain.Prelude.Int.{ℤ, pos, negsuc}
use personal_ai_brain.Prelude.Values.{
  Value, null, boolean, integer, scalar, text, sequence, mapping, Values, nothing, item, Fields,
  end, field, get, or_null, has_key,
}

abbrev same_truth : Bool → Bool → Bool
same_truth true b = b
same_truth false b = not b

abbrev same_number : ℤ → ℤ → Bool
same_number (pos a) (pos b) = a == b
same_number (negsuc a) (negsuc b) = a == b
same_number a b = false

-- A truth value is the number 0 or 1.
abbrev number_of : Bool → ℤ
number_of true = pos 1
number_of false = pos 0

abbrev pub count_fields : Fields → ℕ
count_fields end = 0
count_fields (field k v fs) = suc (count_fields fs)

module _ (show : Value → String) where
  -- A scalar is a float by its `repr`, which for a whole number below 10 ** 16 ends in ".0", or a
  -- date by its text; not-a-number differs from itself. Negative zero and whole floats from
  -- 10 ** 16 on, whose `repr` no integer has, are left out.
  abbrev same_scalar : String → ℤ → Bool
  same_scalar t n = str_eq t (concat (show (integer n)) ".0")

  unfoldable mutual
    pub same : Value → Value → Bool
    same null null = true
    same (boolean a) (boolean b) = same_truth a b
    same (boolean a) (integer n) = same_number (number_of a) n
    same (boolean a) (scalar t) = same_scalar t (number_of a)
    same (integer n) (boolean b) = same_number n (number_of b)
    same (integer n) (integer m) = same_number n m
    same (integer n) (scalar t) = same_scalar t n
    same (scalar t) (boolean b) = same_scalar t (number_of b)
    same (scalar t) (integer n) = same_scalar t n
    same (scalar t) (scalar u) = str_eq t u && not (str_eq t "nan")
    same (text t) (text u) = str_eq t u
    same (sequence vs) (sequence ws) = same_all vs ws
    same (mapping fs) (mapping gs) = count_fields fs == count_fields gs && same_fields fs gs
    same v w = false

    pub same_all : Values → Values → Bool
    same_all nothing nothing = true
    same_all (item v vs) (item w ws) = same v w && same_all vs ws
    same_all vs ws = false

    -- Every field of the first mapping is in the second.
    pub same_fields : Fields → Fields → Bool
    same_fields end gs = true
    same_fields (field k v fs) gs =
        (has_key k gs && same v (or_null (get k gs))) && same_fields fs gs
