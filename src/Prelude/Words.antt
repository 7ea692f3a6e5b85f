-- ===== src/Prelude/Words.antt =====
-- Go's `strings` functions that take texts apart into words.
use Prim.Native.Char.{Char, code}
use Prim.Native.String
use Prim.Native.String.{String}
use mathlib.Core.Bool.{Bool, false, ◌||◌}
use mathlib.Core.List.{List, [], ◌∷◌}
use gtv_final_submission.Prelude.Tests.{nat_beq, if◌then◌else◌, ◌==◌, string_eq}
use gtv_final_submission.Prelude.Text.{drop_text, starts_with, to_lower}

-- strings.EqualFold
abbrev pub equal_fold : String → String → Bool
equal_fold s t = to_lower s == to_lower t

-- strings.TrimPrefix
unfoldable pub trim_prefix : String → String → String
trim_prefix s prefix =
    if starts_with s prefix then drop_text (Prim.Native.String.count prefix) s else s

-- The characters of the cut set "`\"".
abbrev is_quote : Char → Bool
is_quote c = nat_beq (code c) 96 || nat_beq (code c) 34

trim_left : String → String
trim_left String.[] = String.[]
trim_left (String.◌∷◌ c s) = let rest = trim_left s in if is_quote c then rest else String.◌∷◌ c s

trim_right : String → String
trim_right String.[] = String.[]
trim_right (String.◌∷◌ c s) =
    let rest = trim_right s in
    if rest == "" then (if is_quote c then "" else String.◌∷◌ c "") else String.◌∷◌ c rest

-- strings.Trim(s, "`\"")
unfoldable pub trim_quotes : String → String
unfolding trim_left trim_right
trim_quotes s = trim_right (trim_left s)

abbrev extend_first : Char → List String → List String
extend_first c [] = String.◌∷◌ c String.[] ∷ []
extend_first c (w ∷ ws) = String.◌∷◌ c w ∷ ws

-- strings.Split by the characters of a class.
unfoldable pub split_at : (Char → Bool) → String → List String
split_at is_sep String.[] = "" ∷ []
split_at is_sep (String.◌∷◌ c s) =
    let rest = split_at is_sep s in if is_sep c then "" ∷ rest else extend_first c rest

unfoldable pub drop_empty : List String → List String
drop_empty [] = []
drop_empty (w ∷ ws) = let rest = drop_empty ws in if w == "" then rest else w ∷ rest

-- strings.FieldsFunc
abbrev pub fields_func : (Char → Bool) → String → List String
fields_func is_sep s = drop_empty (split_at is_sep s)

-- Whether a character of a class is in a text.
unfoldable pub has_char : (Char → Bool) → String → Bool
has_char p String.[] = false
has_char p (String.◌∷◌ c s) = p c || has_char p s
