-- ===== src/Prelude/Order.antt =====
-- `Array.prototype.sort` by a number: the stable sort.
use Prim.Native.Nat.{ℕ, ◌≤◌}
use mathlib.Core.Path.{◌≡◌, refl}
use mathlib.Core.Logic.{inl, inr}
use mathlib.Core.Bool.{Bool, false, ◌||◌}
use mathlib.Core.List.{List, [], ◌∷◌, map}
use native.Mathlib.Omega.{arith}
use wos_sfc.Prelude.Tests.{Eq, if◌then◌else◌, leb, leb→le, Bool-cases}
use wos_sfc.Prelude.Lists.{All, All-filter, filter}
use wos_sfc.Prelude.Keys.{contains, Distinct}

module _ {ℓ} {A : Type ℓ} (rank : A → ℕ) where
  -- Puts `a` before the elements that do not rank lower.
  unfoldable pub place : A → List A → List A
  place a [] = a ∷ []
  place a (x ∷ xs) = if leb (rank a) (rank x) then a ∷ x ∷ xs else x ∷ place a xs

  unfoldable pub sort : List A → List A
  unfolding place
  sort [] = []
  sort (x ∷ xs) = place x (sort xs)

  abbrev pub IsSorted : List A → Type 0
  IsSorted [] = Unit
  IsSorted (x ∷ xs) = All (λ y. rank x ≤ rank y) xs × IsSorted xs

  All-ranks_mono :
      (m n : ℕ) (xs : List A) → m ≤ n → All (λ y. n ≤ rank y) xs → All (λ y. m ≤ rank y) xs
  All-ranks_mono m n [] h a = tt
  All-ranks_mono m n (x ∷ xs) h (p, a) = (omega arith, All-ranks_mono m n xs h a)

  pub All-place {κ} : (P : A → Type κ) (a : A) (xs : List A) → P a → All P xs → All P (place a xs)
  unfolding place
  All-place P a [] pa h = (pa, tt)
  All-place P a (x ∷ xs) pa (px, h) = elim (Bool-cases (leb (rank a) (rank x))) [
    | inl low ↦ rw low (pa, (px, h))
    | inr high ↦ rw high (px, All-place P a xs pa h)
  ]

  pub All-sort {κ} : (P : A → Type κ) (xs : List A) → All P xs → All P (sort xs)
  unfolding sort
  All-sort P [] h = tt
  All-sort P (x ∷ xs) (px, h) = All-place P x (sort xs) px (All-sort P xs h)

  place-IsSorted : (a : A) (xs : List A) → IsSorted xs → IsSorted (place a xs)
  unfolding place
  place-IsSorted a [] s = (tt, tt)
  place-IsSorted a (x ∷ xs) (low, s) = elim (Bool-cases (leb (rank a) (rank x))) [
    | inl le ↦
        rw le ((leb→le _ _ le, All-ranks_mono (rank a) (rank x) xs (leb→le _ _ le) low), (low, s))
    | inr gt ↦
        rw gt (All-place (λ y. rank x ≤ rank y) a xs (ground arith) low, place-IsSorted a xs s)
  ]

  pub sort-IsSorted : (xs : List A) → IsSorted (sort xs)
  unfolding sort
  sort-IsSorted [] = tt
  sort-IsSorted (x ∷ xs) = place-IsSorted x (sort xs) (sort-IsSorted xs)

  -- What is sorted stays as it is.
  pub sort_sorted : (xs : List A) → IsSorted xs → sort xs ≡ xs
  unfolding sort
  sort_sorted [] s = refl
  sort_sorted (x ∷ []) s = refl
  sort_sorted (x ∷ y ∷ xs) ((h, _), s) = rw (sort_sorted (y ∷ xs) s) (ground arith)

  place_first : (a : A) (xs : List A) → All (λ y. rank a ≤ rank y) xs → place a xs ≡ a ∷ xs
  unfolding place
  place_first a [] h = refl
  place_first a (x ∷ xs) h = ground arith

  filter-place :
      (p : A → Bool) (a : A) (xs : List A)
      → IsSorted xs
      → filter p (place a xs) ≡ (if p a then place a (filter p xs) else filter p xs)
  unfolding place
  filter-place p a [] s = refl
  filter-place p a (x ∷ xs) (low, s) = elim (Bool-cases (leb (rank a) (rank x))) [
    | inl le ↦ ground (
      arith,
      place_first a (filter p xs) (
          All-filter (λ y. rank a ≤ rank y) p xs
            (All-ranks_mono (rank a) (rank x) xs (leb→le _ _ le) low)),
    )
    | inr gt ↦ ground (arith, filter-place p a xs s)
  ]

  -- Sorting commutes with dropping elements: it is stable.
  pub filter-sort : (p : A → Bool) (xs : List A) → filter p (sort xs) ≡ sort (filter p xs)
  unfolding sort
  filter-sort p [] = refl
  filter-sort p (x ∷ xs) =
      ground (arith, filter-place p x (sort xs) (sort-IsSorted xs), filter-sort p xs)

module _ {ℓ κ} {A : Type ℓ} {K : Type κ} ⦃e : Eq K⦄ (rank : A → ℕ) (key : A → K) where
  contains-place :
      (k : K) (a : A) (xs : List A)
      → contains k (map key (place rank a xs)) ≡ (e.beq k (key a) || contains k (map key xs))
  unfolding place contains
  contains-place k a [] = refl
  contains-place k a (x ∷ xs) = ground (arith, contains-place k a xs)

  pub contains-sort :
      (k : K) (xs : List A) → contains k (map key (sort rank xs)) ≡ contains k (map key xs)
  unfolding sort contains
  contains-sort k [] = refl
  contains-sort k (x ∷ xs) = ground (arith, contains-place k x (sort rank xs), contains-sort k xs)

  place-Distinct :
      (a : A) (xs : List A)
      → contains (key a) (map key xs) ≡ false
      → Distinct (map key xs)
      → Distinct (map key (place rank a xs))
  unfolding place contains
  place-Distinct a [] h d = (refl, tt)
  place-Distinct a (x ∷ xs) h (fresh, d) = ground (
    arith,
    contains-place (key x) a xs,
    place-Distinct a xs,
    e.beq_iff (key x) (key a),
    e.beq_iff (key a) (key x),
  )

  pub sort-Distinct : (xs : List A) → Distinct (map key xs) → Distinct (map key (sort rank xs))
  unfolding sort
  sort-Distinct [] d = tt
  sort-Distinct (x ∷ xs) (fresh, d) =
      place-Distinct x (sort rank xs) (rw (contains-sort (key x) xs) fresh) (sort-Distinct xs d)

module _ {ℓ} {A : Type ℓ} (rank : A → ℕ) where
  pub filter-IsSorted :
      (p : A → Bool) (xs : List A) → IsSorted rank xs → IsSorted rank (filter p xs)
  filter-IsSorted p [] s = tt
  filter-IsSorted p (x ∷ xs) (low, s) = elim (Bool-cases (p x)) [
    | inl px ↦ rw px (All-filter (λ y. rank x ≤ rank y) p xs low, filter-IsSorted p xs s)
    | inr px ↦ rw px (filter-IsSorted p xs s)
  ]
