-- ===== src/Prelude/Text.antt =====
-- Go's `strings`, `strconv` and `fmt` functions that the program calls, on ASCII texts: case folding
-- and white space beyond ASCII are left out. The slices `s[:i]` and `s[i+n:]` around a match at `i`
-- are what `split_first` and `split_last` return.
use Prim.Native.Char.{Char, char, code, IsScalar}
use Prim.Native.Nat.{ℕ, zero, suc, ◌+◌, ◌-◌, ◌*◌, ◌/◌, ◌%◌, ◌^◌, ◌<◌}
use Prim.Native.String.append
use Prim.Native.String.{String, [], ◌∷◌, ◌++◌}
use mathlib.Core.Bool.{Bool, true, false, ◌&&◌, ◌||◌}
use mathlib.Core.List.{List}
use mathlib.Core.Logic.{dite, inl, inr}
use mathlib.Core.Option.{Option, none, some}
use mathlib.Core.Path.{◌≡◌, refl, sym, ap, subst, ◌∙◌}
use native.Mathlib.Decide.{dec_lt}
use native.Mathlib.Omega.{arith}
unfoldable pub use text.Mathlib.Text.{starts_with}
use text.Mathlib.TextPositions.{starts_with-append}
use gtv_final_submission.Prelude.Int.{ℤ, pos, negsuc, sub_ℕ}
use gtv_final_submission.Prelude.Tests.{
  ltb, leb, nat_beq, if◌then◌else◌, ◌==◌, string_eq, text_eq, Bool-cases,
}

pub IsScalar-small : (n : ℕ) → n < 55296 → IsScalar n
IsScalar-small n h = ground arith

pub raised_small : (n : ℕ) → n < 91 → n + 32 < 55296
raised_small n h = omega arith

lower_char : Char → Char
unfolding dec_lt
lower_char (char n p) =
    dite (dec_lt n 91)
      (λ h.
        if ltb n 65 then char n p else char (n + 32) (IsScalar-small (n + 32) (raised_small n h)))
      (λ _. char n p)

-- strings.ToLower
unfoldable pub to_lower : String → String
unfolding lower_char
to_lower [] = []
to_lower (c ∷ s) = lower_char c ∷ to_lower s

-- The characters of unicode.IsSpace that are ASCII.
is_space : Char → Bool
is_space c = nat_beq (code c) 32 || (leb 9 (code c) && leb (code c) 13)

-- The blanks in front of a text dropped.
trim_left : String → String
trim_left [] = []
trim_left (c ∷ s) = let rest = trim_left s in if is_space c then rest else c ∷ s

-- The blanks at the end of a text dropped.
trim_right : String → String
trim_right [] = []
trim_right (c ∷ s) = let rest = trim_right s in if is_space c && (rest == "") then "" else c ∷ rest

-- strings.TrimSpace
unfoldable pub trim_space : String → String
unfolding trim_left trim_right is_space
trim_space s = trim_right (trim_left s)

-- s[n:]
unfoldable pub drop_text : ℕ → String → String
drop_text zero s = s
drop_text (suc n) [] = []
drop_text (suc n) (c ∷ s) = drop_text n s

-- strings.Index: the slices before and behind the first match.
unfoldable pub split_first : String → String → Option (String × String)
unfolding drop_text
split_first [] sep = if sep == "" then some ("", "") else none
split_first (c ∷ s) sep =
    let rest = split_first s sep in
    if starts_with (c ∷ s) sep
    then some ("", drop_text (Prim.Native.String.count sep) (c ∷ s))
    else elim rest [ none ↦ none | some (before, behind) ↦ some (c ∷ before, behind) ]

-- strings.LastIndex: the slices before and behind the last match.
unfoldable pub split_last : String → String → Option (String × String)
unfolding drop_text
split_last [] sep = if sep == "" then some ("", "") else none
split_last (c ∷ s) sep = elim (split_last s sep) [
  | some (before, behind) ↦ some (c ∷ before, behind)
  | none ↦
      if starts_with (c ∷ s) sep
      then some ("", drop_text (Prim.Native.String.count sep) (c ∷ s))
      else none
]

-- strings.Contains
unfoldable pub contains : String → String → Bool
contains [] sep = sep == ""
contains (c ∷ s) sep = starts_with (c ∷ s) sep || contains s sep

-- strings.HasSuffix
unfoldable pub has_suffix : String → String → Bool
has_suffix [] t = t == ""
has_suffix (c ∷ s) t = ((c ∷ s) == t) || has_suffix s t

word : String → List String → List String
word w ws = if w == "" then ws else List.◌∷◌ w ws

fields_from : String → String → List String
unfolding word is_space
fields_from w [] = word w List.[]
fields_from w (c ∷ s) =
    let closed = word w (fields_from "" s) in
    let longer = fields_from (w ++ c ∷ []) s in if is_space c then closed else longer

-- strings.Fields
unfoldable pub fields : String → List String
unfolding fields_from
fields s = fields_from "" s

digits : ℕ → String → Option ℕ
digits n [] = some n
digits n (c ∷ s) =
    let rest = digits (n * 10 + (code c - 48)) s in
    if leb 48 (code c) && leb (code c) 57 then rest else none

abbrev in_range : ℕ → (ℕ → ℤ) → Option ℕ → Option ℤ
in_range most sign none = none
in_range most sign (some n) = if leb n most then some (sign n) else none

-- strconv.Atoi: an optional sign, at least one digit, and the range of a 64-bit integer.
unfoldable pub atoi : String → Option ℤ
unfolding digits
atoi [] = none
atoi (c ∷ s) =
    if nat_beq (code c) b'-'
    then (if s == "" then none else in_range (2 ^ 63) (λ n. sub_ℕ 0 n) (digits 0 s))
    else if nat_beq (code c) b'+'
    then (if s == "" then none else in_range (2 ^ 63 - 1) pos (digits 0 s))
    else in_range (2 ^ 63 - 1) pos (digits 0 (c ∷ s))

pub digit_small : (n : ℕ) → 48 + n % 10 < 55296
digit_small n = omega arith

digit : ℕ → Char
digit n = char (48 + n % 10) (IsScalar-small (48 + n % 10) (digit_small n))

-- The fuel bounds the number of digits: `show_ℕ` gives one more than the number itself.
show_from : ℕ → ℕ → String → String
unfolding digit
show_from zero n behind = behind
show_from (suc fuel) n behind =
    let more = show_from fuel (n / 10) (digit n ∷ behind) in
    if ltb n 10 then digit n ∷ behind else more

-- The verb %d of fmt.Sprintf.
unfoldable pub show_ℕ : ℕ → String
unfolding show_from
show_ℕ n = show_from (suc n) n ""

unfoldable pub show_ℤ : ℤ → String
unfolding show_ℕ
show_ℤ (pos n) = show_ℕ n
show_ℤ (negsuc n) = "-" ++ show_ℕ (suc n)

to_lower_test : to_lower "Chan SEND [Z@{`" ≡ "chan send [z@{`"
unfolding to_lower
to_lower_test = refl

trim_space_test : trim_space "  ptr= 0x10  " ≡ "ptr= 0x10"
unfolding trim_space
trim_space_test = refl

split_first_test : split_first "out#g12#g" "#g" ≡ some ("out", "12#g")
unfolding split_first
split_first_test = refl

split_last_test : split_last "send to a to b" " to " ≡ some ("send to a", "b")
unfolding split_last
split_last_test = refl

fields_test : fields " a  bc d " ≡ List.◌∷◌ "a" (List.◌∷◌ "bc" (List.◌∷◌ "d" List.[]))
unfolding fields
fields_test = refl

atoi_test : atoi "-0120" ≡ some (negsuc 119)
unfolding atoi
atoi_test = refl

show_test : show_ℤ (negsuc 1049) ≡ "-1050"
unfolding show_ℤ
show_test = refl

-- s[:len(s)-1]
unfoldable pub drop_last : String → String
drop_last [] = []
drop_last (c ∷ []) = []
drop_last (c ∷ d ∷ s) = c ∷ drop_last (d ∷ s)

-- A text that begins with a non-empty one is not empty.
pub prefix_nonempty : (s t : String) → starts_with "" s ≡ false → ((s ++ t) == "") ≡ false
prefix_nonempty s t h = elim (Bool-cases ((s ++ t) == "")) [
  | inl e ↦
      let both =
        sym (
          subst (λ (x : String). starts_with x s ≡ true) ((text_eq (s ++ t) "").0 e)
            (starts_with-append s t))
        ∙ h in
      cc
  | inr e ↦ e
]

pub to_lower-append : (s t : String) → to_lower (s ++ t) ≡ to_lower s ++ to_lower t
unfolding to_lower
to_lower-append [] t = ap to_lower (append.nil t) ∙ sym (append.nil (to_lower t))
to_lower-append (c ∷ s) t =
    ap to_lower (append.cons c s t)
    ∙ ap (λ (u : String). lower_char c ∷ u) (to_lower-append s t)
    ∙ sym (append.cons (lower_char c) (to_lower s) (to_lower t))

-- The words at the front of a text are at the front of its lower case.
pub to_lower-starts_with :
    (s t : String) → to_lower s ≡ s → starts_with (to_lower (s ++ t)) s ≡ true
to_lower-starts_with s t h =
    subst (λ (u : String). starts_with u s ≡ true)
      (sym (to_lower-append s t ∙ ap (λ (u : String). u ++ to_lower t) h))
      (starts_with-append s (to_lower t))
