-- ===== src/Prelude/Members.antt =====
-- Membership in a list of values that the program compares with `==`.
use mathlib.Core.Path.{◌≡◌}
use mathlib.Core.Bool.{Bool, false, ◌||◌}
use mathlib.Core.List.{List, [], ◌∷◌, ◌++◌}
use native.Mathlib.Omega.{arith}
use gtv_final_submission.Prelude.Tests.{Eq, ◌==◌}

module _ {ℓ} {K : Type ℓ} ⦃e : Eq K⦄ where
  unfoldable pub member : K → List K → Bool
  member k [] = false
  member k (j ∷ js) = (j == k) || member k js

  pub member-append : (k : K) (xs ys : List K) → member k (xs ++ ys) ≡ (member k xs || member k ys)
  unfolding member
  member-append k [] ys = ground arith
  member-append k (x ∷ xs) ys = ground (arith, member-append k xs ys)
