-- ===== src/Prelude/Index.antt =====
-- Dictionaries that hold each value under a key of its own (`new Map(xs.map(x => [key(x), x]))`).
use mathlib.Core.Path.{◌≡◌, refl, sym, ap, subst}
use mathlib.Core.Logic.{inl, inr}
use mathlib.Core.Bool.{false}
use mathlib.Core.Option.{Option, none, some}
use mathlib.Core.List.{List, [], ◌∷◌, ◌++◌, map}
use native.Mathlib.Omega.{arith}
use wos_sfc.Prelude.Tests.{Eq, if◌then◌else◌, Bool-cases}
use wos_sfc.Prelude.Keys.{contains, Distinct}
use wos_sfc.Prelude.Dict.{Dict, lookup, insert, keys}

module _ {ℓ κ} {V : Type ℓ} {K : Type κ} ⦃e : Eq K⦄ (key : V → K) where
  abbrev pub pairs : List V → Dict K V
  pairs = map (λ (x : V). (key x, x))

  -- The value with the key becomes the new one.
  abbrev pub replace : K → (V → V) → List V → List V
  replace k f = map (λ (x : V). if e.beq k (key x) then f x else x)

  pub keys-pairs : (xs : List V) → keys (pairs xs) ≡ map key xs
  keys-pairs [] = refl
  keys-pairs (x ∷ xs) = ap (◌∷◌ (key x)) (keys-pairs xs)

  values-pairs : (xs : List V) → map (λ (entry : K × V). entry.1) (pairs xs) ≡ xs
  values-pairs [] = refl
  values-pairs (x ∷ xs) = ap (◌∷◌ x) (values-pairs xs)

  pub replace_absent :
      (k : K) (f : V → V) (xs : List V) → contains k (map key xs) ≡ false → replace k f xs ≡ xs
  unfolding contains
  replace_absent k f [] h = refl
  replace_absent k f (x ∷ xs) h = ground (arith, replace_absent k f xs)

  values-insert_at :
      (k : K) (f : Option V → V) (o : Option V) (xs : List V)
      → Distinct (map key xs)
      → lookup k (pairs xs) ≡ o
      → map (λ (entry : K × V). entry.1) (insert k (f o) (pairs xs))
        ≡ (if contains k (map key xs) then replace k (λ x. f (some x)) xs else xs ++ f none ∷ [])
  unfolding contains insert lookup
  values-insert_at k f o [] d found = rw (← found)
  values-insert_at k f o (x ∷ xs) (fresh, d) found = elim (Bool-cases (e.beq k (key x))) [
    | inl same ↦ ground (
      arith,
      e.beq_iff k (key x),
      found,
      replace_absent k (λ y. f (some y)) xs
          (subst (λ j. contains j (map key xs) ≡ false) (sym ((e.beq_iff k (key x)).0 same)) fresh),
      values-pairs xs,
    )
    | inr other ↦ ground (arith, values-insert_at k f o xs d)
  ]

  pub values-insert :
      (k : K) (f : Option V → V) (xs : List V)
      → Distinct (map key xs)
      → map (λ (entry : K × V). entry.1) (insert k (f (lookup k (pairs xs))) (pairs xs))
        ≡ (if contains k (map key xs) then replace k (λ x. f (some x)) xs else xs ++ f none ∷ [])
  values-insert k f xs d = values-insert_at k f _ xs d refl
