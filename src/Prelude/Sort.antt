-- ===== src/Prelude/Sort.antt =====
-- Go's sort.Slice and sort.SliceStable, and the values of a map sorted by their keys.
use mathlib.Core.Path.{◌≡◌, refl, ap, ap₂, ◌∙◌, sym, subst}
use mathlib.Core.Logic.{◌≢◌, inl, inr}
use mathlib.Core.Bool.{Bool, true, false, ◌||◌}
use mathlib.Core.Option.{some}
use mathlib.Core.List.{List, [], ◌∷◌, map}
use native.Mathlib.Omega.{arith}
use gtv_final_submission.Prelude.Tests.{Eq, ◌==◌, if◌then◌else◌, Bool-cases}
use gtv_final_submission.Prelude.Members.{member}
use gtv_final_submission.Prelude.Dict.{Dict, insert, keys, lookup}

module _ {ℓ} {A : Type ℓ} (less : A → A → Bool) where
  -- A value goes in front of those that are not less.
  unfoldable pub place_by : A → List A → List A
  place_by x [] = x ∷ []
  place_by x (y ∷ ys) = let below = place_by x ys in if less y x then y ∷ below else x ∷ y ∷ ys

  unfoldable pub sort_by : List A → List A
  sort_by [] = []
  sort_by (x ∷ xs) = place_by x (sort_by xs)

abbrev pub values {ℓ κ} : {K : Type ℓ} {V : Type κ} → Dict K V → List V
values [] = []
values ((k, v) ∷ m) = v ∷ values m

-- Of two keys that differ, one is less.
abbrev pub IsTotal {κ} : {K : Type κ} → (K → K → Bool) → Type κ
IsTotal {K} lt = (a b : K) → lt a b ≡ false → a ≢ b → lt b a ≡ true

abbrev pub IsDistinct {κ} : {K : Type κ} ⦃e : Eq K⦄ → List K → Type 0
IsDistinct [] = Unit
IsDistinct (k ∷ ks) = (member k ks ≡ false) × IsDistinct ks

module _ {ℓ κ} {A : Type ℓ} {K : Type κ} ⦃e : Eq K⦄ (key : A → K) (lt : K → K → Bool) where
  abbrev pub IsAscending : List A → Type 0
  IsAscending [] = Unit
  IsAscending (x ∷ []) = Unit
  IsAscending (x ∷ y ∷ ys) = (lt (key x) (key y) ≡ true) × IsAscending (y ∷ ys)

  abbrev less_key : A → A → Bool
  less_key x y = lt (key x) (key y)

  either_head :
      (b : Bool) (y x z : A) (l below : List A)
      → less_key y x ≡ true
      → less_key y z ≡ true
      → IsAscending (if b then z ∷ below else x ∷ z ∷ l)
      → IsAscending (y ∷ (if b then z ∷ below else x ∷ z ∷ l))
  either_head true y x z l below f g h = (g, h)
  either_head false y x z l below f g h = (f, h)

  after_head :
      (y x z : A) (l : List A)
      → less_key y x ≡ true
      → less_key y z ≡ true
      → IsAscending (place_by less_key x (z ∷ l))
      → IsAscending (y ∷ place_by less_key x (z ∷ l))
  unfolding place_by
  after_head y x z l f g h = either_head (less_key z x) y x z l (place_by less_key x l) f g h

  place_by-member :
      (k : K) (x : A) (l : List A)
      → member k (map key (place_by less_key x l)) ≡ ((key x == k) || member k (map key l))
  unfolding place_by member
  place_by-member k x [] = refl
  place_by-member k x (y ∷ l) = elim (Bool-cases (less_key y x)) [
    | inl f ↦ rw (f, place_by) (ground (arith, place_by-member k x l))
    | inr f ↦ rw (f, place_by) refl
  ]

  pub sort_by-member :
      (k : K) (l : List A) → member k (map key (sort_by less_key l)) ≡ member k (map key l)
  unfolding sort_by member
  sort_by-member k [] = refl
  sort_by-member k (x ∷ l) =
      place_by-member k x (sort_by less_key l)
      ∙ ap (λ (b : Bool). (key x == k) || b) (sort_by-member k l)

  apart : (a b : K) (ks : List K) → member a (b ∷ ks) ≡ false → (b ≢ a) × (member a ks ≡ false)
  unfolding member
  apart a b ks h = ((λ (same : b ≡ a). ground (arith, e.is_same_iff b a)), ground arith)

  place_by-IsAscending :
      IsTotal lt
      → (x : A) (l : List A) → member (key x) (map key l) ≡ false
      → IsAscending l
      → IsAscending (place_by less_key x l)
  unfolding place_by
  place_by-IsAscending total x [] h s = tt
  place_by-IsAscending total x (y ∷ []) h s = elim (Bool-cases (less_key y x)) [
    | inl f ↦ rw (f, place_by) (f, tt)
    | inr f ↦ rw (f, place_by) (total (key y) (key x) f (apart (key x) (key y) [] h).0, tt)
  ]
  place_by-IsAscending total x (y ∷ z ∷ l) h s =
      let far = apart (key x) (key y) (map key (z ∷ l)) h in
      elim (Bool-cases (less_key y x)) [
        | inl f ↦
            rw (f, place_by)
              (after_head y x z l f s.0 (place_by-IsAscending total x (z ∷ l) far.1 s.1))
        | inr f ↦ rw (f, place_by) (total (key y) (key x) f far.0, s)
      ]

  pub sort_by-IsAscending :
      IsTotal lt → (l : List A) → IsDistinct (map key l) → IsAscending (sort_by less_key l)
  unfolding sort_by
  sort_by-IsAscending total [] d = tt
  sort_by-IsAscending total (x ∷ l) (h, d) =
      place_by-IsAscending total x (sort_by less_key l) (sort_by-member (key x) l ∙ h)
        (sort_by-IsAscending total l d)

module _ {ℓ κ} {V : Type ℓ} {K : Type κ} ⦃e : Eq K⦄ where
  pub insert-member :
      (k j : K) (v : V) (m : Dict K V)
      → member j (keys (insert k v m)) ≡ ((k == j) || member j (keys m))
  unfolding insert member
  insert-member k j v [] = refl
  insert-member k j v ((i, w) ∷ m) = elim (Bool-cases (i == k)) [
    | inl f ↦
        rw (f, insert) (ground (arith, e.is_same_iff i k, e.is_same_iff i j, e.is_same_iff k j))
    | inr f ↦ rw (f, insert) (ground (arith, insert-member k j v m))
  ]

  pub insert-IsDistinct :
      (k : K) (v : V) (m : Dict K V) → IsDistinct (keys m) → IsDistinct (keys (insert k v m))
  unfolding insert
  insert-IsDistinct k v [] d = (unfold member in refl, tt)
  insert-IsDistinct k v ((i, w) ∷ m) (h, d) = elim (Bool-cases (i == k)) [
    | inl f ↦
        rw (f, insert) (subst (λ (x : K). member x (keys m) ≡ false) ((e.is_same_iff i k).0 f) h, d)
    | inr f ↦
        rw (f, insert)
          (
            ground (arith, insert-member k i v m, e.is_same_iff i k, e.is_same_iff k i),
            insert-IsDistinct k v m d,
          )
  ]

  -- Every value names its key.
  abbrev pub IsKeyed : (V → K) → Dict K V → Type κ
  IsKeyed key [] = Unit
  IsKeyed key ((k, v) ∷ m) = (key v ≡ k) × IsKeyed key m

  pub insert-IsKeyed :
      (key : V → K) (k : K) (v : V) (m : Dict K V)
      → key v ≡ k
      → IsKeyed key m
      → IsKeyed key (insert k v m)
  unfolding insert
  insert-IsKeyed key k v [] h a = (h, tt)
  insert-IsKeyed key k v ((i, w) ∷ m) h (p, a) = elim (Bool-cases (i == k)) [
    | inl f ↦ rw (f, insert) (h, a)
    | inr f ↦ rw (f, insert) (p, insert-IsKeyed key k v m h a)
  ]

  pub map-values : (key : V → K) (m : Dict K V) → IsKeyed key m → map key (values m) ≡ keys m
  map-values key [] a = refl
  map-values key ((k, v) ∷ m) (p, a) = ap₂ (λ (x : K) (y : List K). x ∷ y) p (map-values key m a)

  pub lookup-IsKeyed :
      (key : V → K) (k : K) (m : Dict K V) (v : V) → IsKeyed key m → lookup k m ≡ some v → key v ≡ k
  unfolding lookup
  lookup-IsKeyed key k [] v a h = cc
  lookup-IsKeyed key k ((j, w) ∷ m) v (p, a) h = elim (Bool-cases (j == k)) [
    | inl hit ↦ let same : w ≡ v = ground arith in sym (ap key same) ∙ p ∙ (e.is_same_iff j k).0 hit
    | inr miss ↦ lookup-IsKeyed key k m v a (ground arith)
  ]

  -- What the maps of entities are at every point.
  pub record IsRoster (key : V → K) (m : Dict K V) : Type κ where
    pub is_keyed : IsKeyed key m
    pub is_distinct : IsDistinct (keys m)

  pub insert-IsRoster :
      (key : V → K) (k : K) (v : V) (m : Dict K V)
      → key v ≡ k
      → IsRoster key m
      → IsRoster key (insert k v m)
  insert-IsRoster key k v m h r = record {
    is_keyed = insert-IsKeyed key k v m h r.is_keyed;
    is_distinct = insert-IsDistinct k v m r.is_distinct;
  }

  -- The values of such a map, sorted by their keys.
  pub sort_by-IsRoster :
      (key : V → K) (lt : K → K → Bool) (m : Dict K V)
      → IsTotal lt
      → IsRoster key m
      → IsAscending key lt (sort_by (λ x y. lt (key x) (key y)) (values m))
        × ((k : K)
            → member k (map key (sort_by (λ x y. lt (key x) (key y)) (values m)))
              ≡ member k (keys m))
  sort_by-IsRoster key lt m total r =
      let same = map-values key m r.is_keyed in
      (
        sort_by-IsAscending key lt total (values m) (subst IsDistinct (sym same) r.is_distinct),
        λ k. sort_by-member key lt k (values m) ∙ ap (member k) same,
      )
