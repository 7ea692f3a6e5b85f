-- ===== src/Prelude/TextOrder.antt =====
-- Go's order of strings, by bytes: a strict weak order.
use Prim.Native.Char.{Char, code}
use text.Mathlib.TextEquality.{codes_equal}
use Prim.Native.Nat.{Ordering, compare as compare_ℕ}
use Prim.Native.String.compare
use Prim.Native.String.{String, [], ◌∷◌, compare, then}
use mathlib.Core.Path.{◌≡◌, ap, ◌∙◌, refl}
use mathlib.Core.Logic.{◌≢◌, inl, inr}
use mathlib.Core.Bool.{Bool, true, false, ◌||◌, ◌&&◌}
use native.Mathlib.Omega.{arith}
use gtv_final_submission.Prelude.Tests.{ltb, nat_beq, Bool-cases}

abbrev pub is_lt : Ordering → Bool
is_lt Ordering.lt = true
is_lt Ordering.eq = false
is_lt Ordering.gt = false

unfoldable pub text_ltb : String → String → Bool
text_ltb a b = is_lt (compare a b)

first_then :
    (o r : Ordering)
    → is_lt (then o r) ≡ (is_lt o || (elim o [ Ordering.eq ↦ is_lt r | _ ↦ false ]))
first_then Ordering.lt r = refl
first_then Ordering.eq r = refl
first_then Ordering.gt r = refl

text_ltb-cons :
    (c d : Char) (s t : String)
    → text_ltb (c ∷ s) (d ∷ t)
      ≡ (ltb (code c) (code d) || (nat_beq (code c) (code d) && text_ltb s t))
unfolding text_ltb
text_ltb-cons c d s t =
    ap is_lt (compare.cons-cons c d s t)
    ∙ first_then (compare_ℕ (code c) (code d)) (compare s t)
    ∙ ground arith

nil_least : (t : String) → text_ltb t [] ≡ false
unfolding text_ltb
nil_least [] = ap is_lt compare.nil-nil
nil_least (d ∷ t) = ap is_lt (compare.cons-nil d t)

cons_greater : (d : Char) (t : String) → text_ltb [] (d ∷ t) ≡ true
unfolding text_ltb
cons_greater d t = ap is_lt (compare.nil-cons d t)

pub text_ltb-asym : (s t : String) → text_ltb s t ≡ true → text_ltb t s ≡ false
text_ltb-asym [] t h = nil_least t
text_ltb-asym (c ∷ s) [] h = ground (arith, nil_least (c ∷ s))
text_ltb-asym (c ∷ s) (d ∷ t) h =
    ground (arith, text_ltb-cons c d s t, text_ltb-cons d c t s, text_ltb-asym s t)

-- What does not come after a text that does not come after a third one does not come after that.
pub text_ltb_trans :
    (r s t : String) → text_ltb s r ≡ false → text_ltb t s ≡ false → text_ltb t r ≡ false
text_ltb_trans [] s t h k = nil_least t
text_ltb_trans (b ∷ r) [] t h k = ground (arith, cons_greater b r)
text_ltb_trans (b ∷ r) (c ∷ s) [] h k = ground (arith, cons_greater c s)
text_ltb_trans (b ∷ r) (c ∷ s) (d ∷ t) h k = ground (
  arith,
  text_ltb-cons c b s r,
  text_ltb-cons d c t s,
  text_ltb-cons d b t r,
  text_ltb_trans r s t,
)

pub text_ltb-total : (s t : String) → text_ltb s t ≡ false → s ≢ t → text_ltb t s ≡ true
text_ltb-total [] [] h n = absurd (n refl)
text_ltb-total [] (d ∷ t) h n = ground (arith, cons_greater d t)
text_ltb-total (c ∷ s) [] h n = cons_greater c s
text_ltb-total (c ∷ s) (d ∷ t) h n = elim (Bool-cases (nat_beq (code c) (code d))) [
  | inl e ↦
      let same : c ≡ d = codes_equal c d (ground arith) in
      ground (
        arith,
        text_ltb-cons c d s t,
        text_ltb-cons d c t s,
        text_ltb-total s t (ground (arith, text_ltb-cons c d s t)) (λ u. n (λ i. same i ∷ u i)),
      )
  | inr e ↦ ground (arith, text_ltb-cons c d s t, text_ltb-cons d c t s)
]
