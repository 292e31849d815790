-- ===== src/Prelude/Dict.antt =====
-- Dictionaries as association lists in insertion order: `Map`, and objects used as one. Assigning
-- to a key that is there keeps its place.
use wos_sfc.Prelude.Tests.{Eq, if◌then◌else◌, Bool-cases}
use wos_sfc.Prelude.Lists.{All}
use wos_sfc.Prelude.Keys.{contains, Distinct}
use mathlib.Core.Logic.{inl, inr}
use mathlib.Core.Path.{◌≡◌, refl, sym, ap, subst, ◌∙◌}
use mathlib.Core.Bool.{Bool, false, not, ◌||◌}
use mathlib.Core.Option.{Option, none, some}
use mathlib.Core.List.{List, [], ◌∷◌, ◌++◌, map}
use native.Mathlib.Omega.{arith}

abbrev pub Dict {ℓ κ} : Type ℓ → Type κ → Type (ℓ ⊔ κ)
Dict K V = List (K × V)

module _ {ℓ κ} {K : Type ℓ} {V : Type κ} ⦃e : Eq K⦄ where
  unfoldable pub lookup : K → Dict K V → Option V
  lookup k [] = none
  lookup k ((j, v) ∷ d) = if e.beq k j then some v else lookup k d

  unfoldable pub insert : K → V → Dict K V → Dict K V
  insert k v [] = (k, v) ∷ []
  insert k v ((j, w) ∷ d) = if e.beq k j then (k, v) ∷ d else (j, w) ∷ insert k v d

  -- Keeps the entries whose key passes the test.
  unfoldable pub keep : (K → Bool) → Dict K V → Dict K V
  keep p [] = []
  keep p ((j, w) ∷ d) = if p j then (j, w) ∷ keep p d else keep p d

  -- `delete record[k]`, `map.delete(k)`
  unfoldable pub remove : K → Dict K V → Dict K V
  unfolding keep
  remove k = keep (λ j. not (e.beq k j))

  abbrev pub keys : Dict K V → List K
  keys = map (λ (entry : K × V). entry.0)

  pub lookup-insert :
      (k j : K) (v : V) (d : Dict K V)
      → lookup j (insert k v d) ≡ (if e.beq j k then some v else lookup j d)
  unfolding lookup insert
  lookup-insert k j v [] = refl
  lookup-insert k j v ((i, w) ∷ d) =
      ground
        (arith, e.beq_iff k j, e.beq_iff j k, e.beq_iff k i, e.beq_iff j i, lookup-insert k j v d)

  pub lookup-keep :
      (p : K → Bool) (k : K) (d : Dict K V)
      → lookup k (keep p d) ≡ (if p k then lookup k d else none)
  unfolding lookup keep
  lookup-keep p k [] = ground arith
  lookup-keep p k ((i, w) ∷ d) = ground (arith, e.beq_iff k i, lookup-keep p k d)

  pub lookup-remove :
      (k j : K) (d : Dict K V) → lookup j (remove k d) ≡ (if e.beq k j then none else lookup j d)
  unfolding remove
  lookup-remove k j d = ground (arith, lookup-keep (λ i. not (e.beq k i)) j d)

  pub remove_absent : (k : K) (d : Dict K V) → lookup k d ≡ none → remove k d ≡ d
  unfolding lookup remove keep
  remove_absent k [] h = refl
  remove_absent k ((i, w) ∷ d) h = elim (Bool-cases (e.beq k i)) [
    | inl same ↦ absurd (cc (rw same at h))
    | inr other ↦ rw other (ap (λ rest. (i, w) ∷ rest) (remove_absent k d (rw other at h)))
  ]

  pub contains-keys-insert :
      (k j : K) (v : V) (d : Dict K V)
      → contains k (keys (insert j v d)) ≡ (e.beq k j || contains k (keys d))
  unfolding insert contains
  contains-keys-insert k j v [] = refl
  contains-keys-insert k j v ((i, w) ∷ d) =
      ground (arith, e.beq_iff k j, e.beq_iff j i, e.beq_iff k i, contains-keys-insert k j v d)

  pub insert-Distinct :
      (k : K) (v : V) (d : Dict K V) → Distinct (keys d) → Distinct (keys (insert k v d))
  unfolding insert contains
  insert-Distinct k v [] h = (refl, tt)
  insert-Distinct k v ((i, w) ∷ d) (fresh, h) = elim (Bool-cases (e.beq k i)) [
    | inl same ↦
        rw same (subst (λ x. contains x (keys d) ≡ false) (sym ((e.beq_iff k i).0 same)) fresh, h)
    | inr other ↦ rw other (
      contains-keys-insert i k v d ∙ ground (arith, e.beq_iff k i, e.beq_iff i k),
      insert-Distinct k v d h,
    )
  ]

  pub All-insert {μ} :
      (P : K × V → Type μ) (k : K) (v : V) (d : Dict K V)
      → P (k, v)
      → All P d
      → All P (insert k v d)
  unfolding insert
  All-insert P k v [] p h = (p, tt)
  All-insert P k v ((i, w) ∷ d) p (q, h) = elim (Bool-cases (e.beq k i)) [
    | inl same ↦ rw same (p, h)
    | inr other ↦ rw other (q, All-insert P k v d p h)
  ]

  pub All-lookup {μ} :
      (P : K × V → Type μ) (k : K) (d : Dict K V) {v : V} → All P d → lookup k d ≡ some v → P (k, v)
  unfolding lookup
  All-lookup P k [] h found = absurd (cc)
  All-lookup P k ((i, w) ∷ d) (q, h) found = elim (Bool-cases (e.beq k i)) [
    | inl same ↦ subst P (cc ((e.beq_iff k i).0 same, rw same at found)) q
    | inr other ↦ All-lookup P k d h (rw other at found)
  ]

  pub insert_fresh :
      (k : K) (v : V) (d : Dict K V) → contains k (keys d) ≡ false → insert k v d ≡ d ++ (k, v) ∷ []
  unfolding insert contains
  insert_fresh k v [] h = refl
  insert_fresh k v ((i, w) ∷ d) h = ground (arith, insert_fresh k v d)
