-- ===== src/Prelude/Dict.antt =====
-- Go's maps as association lists with at most one entry for a key. A write to a key that is there
-- keeps its place, a new key goes to the end: a range over a map visits the keys in some order, and
-- this is the one of their first writes.
use Prim.Native.Nat.{ℕ, suc, ◌+◌}
use mathlib.Core.Path.{◌≡◌, refl, ap₂, subst}
use mathlib.Core.Logic.{inl, inr}
use mathlib.Core.Bool.{Bool, true, false}
use mathlib.Core.List.{List, [], ◌∷◌}
use mathlib.Core.Option.{Option, none, some}
use native.Mathlib.Omega.{arith}
use gtv_final_submission.Prelude.Lists.{All}
use gtv_final_submission.Prelude.Tests.{Eq, ◌==◌, if◌then◌else◌, Bool-cases}

abbrev pub Dict {ℓ κ} : Type ℓ → Type κ → Type (ℓ ⊔ κ)
Dict K V = List (K × V)

abbrev pub is_some {ℓ} : {A : Type ℓ} → Option A → Bool
is_some none = false
is_some (some a) = true

-- The value of a key that is missing is the zero value of the type.
abbrev pub or_zero {ℓ} : {A : Type ℓ} → A → Option A → A
or_zero d none = d
or_zero d (some a) = a

pub beq_refl {ℓ} : {K : Type ℓ} ⦃e : Eq K⦄ (k : K) → (k == k) ≡ true
beq_refl ⦃e⦄ k = (e.is_same_iff k k).1 refl

module _ {ℓ κ} {K : Type ℓ} {V : Type κ} ⦃e : Eq K⦄ where
  unfoldable pub lookup : K → Dict K V → Option V
  lookup k [] = none
  lookup k ((key, v) ∷ m) = let below = lookup k m in if key == k then some v else below

  unfoldable pub insert : K → V → Dict K V → Dict K V
  insert k v [] = (k, v) ∷ []
  insert k v ((key, old) ∷ m) =
      let below = insert k v m in if key == k then (k, v) ∷ m else (key, old) ∷ below

  unfoldable pub erase : K → Dict K V → Dict K V
  erase k [] = []
  erase k ((j, v) ∷ m) = let rest = erase k m in if j == k then rest else (j, v) ∷ rest

  pub lookup-insert :
      (k j : K) (v : V) (m : Dict K V)
      → lookup j (insert k v m) ≡ (if k == j then some v else lookup j m)
  unfolding lookup insert
  lookup-insert k j v [] = ground arith
  lookup-insert k j v ((key, old) ∷ m) =
      ground
        (arith, lookup-insert k j v m, e.is_same_iff key k, e.is_same_iff key j, e.is_same_iff k j)

  pub lookup-erase :
      (k j : K) (m : Dict K V) → lookup j (erase k m) ≡ (if k == j then none else lookup j m)
  unfolding lookup erase
  lookup-erase k j [] = ground arith
  lookup-erase k j ((i, v) ∷ m) =
      ground (arith, e.is_same_iff k j, e.is_same_iff i k, e.is_same_iff i j, lookup-erase k j m)

  pub lookup-insert_self : (k : K) (v : V) (m : Dict K V) → lookup k (insert k v m) ≡ some v
  lookup-insert_self k v m = rw (lookup-insert k k v m, beq_refl k)

  pub lookup-erase_self : (k : K) (m : Dict K V) → lookup k (erase k m) ≡ none
  lookup-erase_self k m = rw (lookup-erase k k m, beq_refl k)

module _ {ℓ κ} {K : Type ℓ} {V : Type κ} ⦃e : Eq K⦄ where
  -- What holds of every entry of a dictionary holds of an entry that is found.
  pub lookup-All {ι} :
      (P : K × V → Type ι) (k : K) (m : Dict K V) {v : V} → All P m → lookup k m ≡ some v → P (k, v)
  unfolding lookup
  lookup-All P k [] a h = cc
  lookup-All P k ((j, w) ∷ m) {v} (p, a) h = elim (Bool-cases (j == k)) [
    | inl hit ↦
        subst P (ap₂ (λ (x : K) (y : V). (x, y)) ((e.is_same_iff j k).0 hit) (ground arith)) p
    | inr miss ↦ lookup-All P k m a (ground arith)
  ]

abbrev pub weight {κ} : {V : Type κ} → (V → ℕ) → Option V → ℕ
weight f none = 0
weight f (some v) = f v

module _ {ℓ κ} {K : Type ℓ} {V : Type κ} where
  -- How many entries pass a test.
  abbrev pub count_entries : (K × V → Bool) → Dict K V → ℕ
  count_entries p [] = 0
  count_entries p (kv ∷ m) = if p kv then suc (count_entries p m) else count_entries p m

  -- A sum over the values of a dictionary.
  abbrev pub total : (V → ℕ) → Dict K V → ℕ
  total f [] = 0
  total f ((k, v) ∷ m) = f v + total f m

module _ {ℓ κ} {K : Type ℓ} {V : Type κ} ⦃e : Eq K⦄ where
  -- A write replaces the value that was there.
  pub total-insert :
      (f : V → ℕ) (k : K) (v : V) (m : Dict K V)
      → total f (insert k v m) + weight f (lookup k m) ≡ total f m + f v
  unfolding lookup insert
  total-insert f k v [] = omega arith
  total-insert f k v ((j, w) ∷ m) = ground (arith, total-insert f k v m)

abbrev pub keys {ℓ κ} : {K : Type ℓ} {V : Type κ} → Dict K V → List K
keys [] = []
keys ((k, v) ∷ m) = k ∷ keys m
