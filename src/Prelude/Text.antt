-- ===== src/Prelude/Text.antt =====
-- Texts: Python's tests on `str`, and SQLite's binary order of TEXT values.
use Prim.Native.Nat.{ℕ}
use personal_ai_brain.Prelude.Lists.{any}
use personal_ai_brain.Prelude.Tests.{leb}
use Prim.Native.Char.{code}
use Prim.Native.String.{String, ◌++◌}
use mathlib.Core.Path.{◌≡◌, refl}
use mathlib.Core.Bool.{Bool, true, false, ◌&&◌, ◌||◌}
use mathlib.Core.Option.{Option, none, some}
use mathlib.Core.List.{List, [], ◌∷◌}
use text.Mathlib.Text.{◌==◌}
use text.Mathlib.TextEquality.{eq_iff}
use personal_ai_brain.Prelude.Tests.{ltb, if◌then◌else◌}
use personal_ai_brain.Prelude.Tests

abbrev pub str_eq : String → String → Bool
str_eq a b = a == b

-- A nullable column, or an optional argument, compared with a text.
abbrev pub is_text : Option String → String → Bool
is_text none s = false
is_text (some t) s = str_eq t s

-- `not value` for an optional text: absent or empty.
abbrev pub falsy : Option String → Bool
falsy none = true
falsy (some t) = str_eq t ""

-- `value or other`
abbrev pub or_else : Option String → String → String
or_else none other = other
or_else (some t) other = if str_eq t "" then other else t

-- `value in {...}`
unfoldable pub member : String → List String → Bool
member s [] = false
member s (t ∷ ts) = str_eq s t || member s ts

-- SQLite compares TEXT by its bytes, which for UTF-8 is the order of code points.
unfoldable pub text_leb : String → String → Bool
text_leb String.[] t = true
text_leb (String.◌∷◌ c s) String.[] = false
text_leb (String.◌∷◌ c s) (String.◌∷◌ d t) =
    ltb (code c) (code d) || (Tests.◌==◌ (code c) (code d) && text_leb s t)

-- The characters that Python's `str.strip` takes off.
abbrev is_space : ℕ → Bool
is_space c =
    (leb 9 c && leb c 13)
    || (leb 28 c && leb c 32)
    || (leb 8192 c && leb c 8202)
    || any (Tests.◌==◌ c) (133 ∷ 160 ∷ 5760 ∷ 8232 ∷ 8233 ∷ 8239 ∷ 8287 ∷ 12288 ∷ [])

-- `not value.strip()`
unfoldable pub is_blank : String → Bool
is_blank String.[] = true
is_blank (String.◌∷◌ c s) = is_space (code c) && is_blank s

abbrev pub concat : String → String → String
concat a b = a ++ b

-- `" ".join(value.split())` behind the first `started` characters: a run of spaces is one space
-- between two words and none at the ends.
unfoldable pub fold_from : Bool → Bool → String → String
fold_from started pending String.[] = ""
fold_from started pending (String.◌∷◌ c s) =
    let in_space = fold_from started started s in
    let in_word = fold_from true false s in
    if is_space (code c)
    then in_space
    else if pending
    then " " ++ String.◌∷◌ c in_word
    else String.◌∷◌ c in_word

pub str_eq_refl : (s : String) → str_eq s s ≡ true
str_eq_refl s = (eq_iff s s).1 refl
