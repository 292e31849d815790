-- ===== src/Prelude/Keys.antt =====
-- Finite sets kept as lists of keys (`Set`, and records whose values are all `true`).
use mathlib.Core.Path.{◌≡◌, refl}
use mathlib.Core.Logic.{inl, inr}
use mathlib.Core.Bool.{Bool, false, not, ◌&&◌, ◌||◌}
use mathlib.Core.List.{List, [], ◌∷◌, ◌++◌}
use native.Mathlib.Omega.{arith}
use wos_sfc.Prelude.Tests.{Eq, if◌then◌else◌, Bool-cases}
use wos_sfc.Prelude.Lists.{filter}

module _ {ℓ} {K : Type ℓ} ⦃e : Eq K⦄ where
  unfoldable pub contains : K → List K → Bool
  contains k [] = false
  contains k (x ∷ xs) = e.beq k x || contains k xs

  -- `set.add(k)`
  unfoldable pub add : K → List K → List K
  add k xs = if contains k xs then xs else xs ++ k ∷ []

  -- `set.delete(k)`
  unfoldable pub delete : K → List K → List K
  delete k xs = filter (λ x. not (e.beq k x)) xs

  -- No key occurs twice.
  abbrev pub Distinct : List K → Type 0
  Distinct [] = Unit
  Distinct (x ∷ xs) = (contains x xs ≡ false) × Distinct xs

  pub contains-append :
      (k : K) (xs ys : List K) → contains k (xs ++ ys) ≡ (contains k xs || contains k ys)
  unfolding contains
  contains-append k [] ys = refl
  contains-append k (x ∷ xs) ys = ground (arith, contains-append k xs ys)

  pub contains-filter :
      (p : K → Bool) (k : K) (xs : List K) → contains k (filter p xs) ≡ (p k && contains k xs)
  unfolding contains
  contains-filter p k [] = ground arith
  contains-filter p k (x ∷ xs) = ground (arith, e.beq_iff k x, contains-filter p k xs)

  pub contains-delete :
      (k j : K) (xs : List K) → contains k (delete j xs) ≡ (not (e.beq j k) && contains k xs)
  unfolding delete
  contains-delete k j xs = contains-filter (λ x. not (e.beq j x)) k xs

  pub contains-add : (k j : K) (xs : List K) → contains k (add j xs) ≡ (e.beq k j || contains k xs)
  unfolding add contains
  contains-add k j xs = ground (arith, contains-append k xs (j ∷ []), e.beq_iff k j)

  pub Distinct-append :
      (xs : List K) (k : K) → Distinct xs → contains k xs ≡ false → Distinct (xs ++ k ∷ [])
  unfolding contains
  Distinct-append [] k d h = (refl, tt)
  Distinct-append (x ∷ xs) k (fresh, d) h = (
    ground (arith, contains-append x xs (k ∷ []), e.beq_iff k x, e.beq_iff x k),
    Distinct-append xs k d (ground arith),
  )

  pub Distinct-add : (k : K) (xs : List K) → Distinct xs → Distinct (add k xs)
  unfolding add
  Distinct-add k xs d = elim (Bool-cases (contains k xs)) [
    | inl old ↦ rw old d
    | inr new ↦ rw new (Distinct-append xs k d new)
  ]

  pub Distinct-filter : (p : K → Bool) (xs : List K) → Distinct xs → Distinct (filter p xs)
  Distinct-filter p [] d = tt
  Distinct-filter p (x ∷ xs) (fresh, d) =
      ground (arith, contains-filter p x xs, Distinct-filter p xs d)
