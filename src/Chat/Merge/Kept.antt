-- ===== src/Chat/Merge/Kept.antt =====
-- Keeping the last elements of two kinds by their keys.
use wos_sfc.Prelude.{
  ℕ, zero, suc, ◌≡◌, refl, sym, ap, subst, ◌∙◌, Bool, true, false, not, ◌||◌, List, [], ◌∷◌, map,
  arith, inl, inr, Bool-cases, Eq, filter, drop, filter_comm, All, contains, Distinct,
}

module _ {ℓ} {A : Type ℓ} where
  pub All-zip {κ μ ν} :
      (P : A → Type κ) (Q : A → Type μ) (R : A → Type ν) (xs : List A)
      → ((x : A) → P x → Q x → R x)
      → All P xs
      → All Q xs
      → All R xs
  All-zip P Q R [] f h k = tt
  All-zip P Q R (x ∷ xs) f (p, h) (q, k) = (f x p q, All-zip P Q R xs f h k)

  pub All-every {κ} : (P : A → Type κ) (xs : List A) → ((x : A) → P x) → All P xs
  All-every P [] f = tt
  All-every P (x ∷ xs) f = (f x, All-every P xs f)

  pub All-imp {κ μ} :
      (P : A → Type κ) (Q : A → Type μ) (xs : List A) → ((x : A) → P x → Q x) → All P xs → All Q xs
  All-imp P Q [] f h = tt
  All-imp P Q (x ∷ xs) f (p, h) = (f x p, All-imp P Q xs f h)

  filter-cons_true :
      (q : A → Bool) (x : A) (xs : List A) → q x ≡ true → filter q (x ∷ xs) ≡ x ∷ filter q xs
  filter-cons_true q x xs h = rw h

  filter-cons_false :
      (q : A → Bool) (x : A) (xs : List A) → q x ≡ false → filter q (x ∷ xs) ≡ filter q xs
  filter-cons_false q x xs h = rw h

module _ {ℓ κ} {A : Type ℓ} {K : Type κ} ⦃e : Eq K⦄ (key : A → K) where
  contains-drop :
      (k : K) (n : ℕ) (xs : List A)
      → contains k (map key xs) ≡ false
      → contains k (map key (drop n xs)) ≡ false
  unfolding contains
  contains-drop k zero xs h = h
  contains-drop k (suc n) [] h = h
  contains-drop k (suc n) (x ∷ xs) h = contains-drop k n xs (ground arith)

  contains-filter-false :
      (k : K) (p : A → Bool) (xs : List A)
      → contains k (map key xs) ≡ false
      → contains k (map key (filter p xs)) ≡ false
  unfolding contains
  contains-filter-false k p [] h = h
  contains-filter-false k p (x ∷ xs) h = ground (arith, contains-filter-false k p xs)

  -- No element has a key that the list lacks.
  pub All-ne_of_contains :
      (k : K) (xs : List A)
      → contains k (map key xs) ≡ false
      → All (λ m. e.beq (key m) k ≡ false) xs
  unfolding contains
  All-ne_of_contains k [] h = tt
  All-ne_of_contains k (x ∷ xs) h = (
    ground (arith, e.beq_iff k (key x), e.beq_iff (key x) k),
    All-ne_of_contains k xs (ground arith),
  )

  filter-All : (q : A → Bool) (ys : List A) → All (λ m. q m ≡ true) ys → filter q ys ≡ ys
  filter-All q [] h = refl
  filter-All q (y ∷ ys) (p, h) = rw (p, filter-All q ys h)

  All-self : (ys : List A) → All (λ m. contains (key m) (map key ys) ≡ true) ys
  unfolding contains
  All-self [] = tt
  All-self (y ∷ ys) = (
    ground (arith, e.beq_iff (key y) (key y)),
    All-imp (λ m. contains (key m) (map key ys) ≡ true)
        (λ m. contains (key m) (map key (y ∷ ys)) ≡ true) ys (λ m h. ground arith) (All-self ys),
  )

  -- Filtering by the keys of the last elements gives the last elements.
  filter-drop :
      (q : A → Bool) (n : ℕ) (ys : List A)
      → Distinct (map key ys)
      → All (λ m. q m ≡ contains (key m) (map key (drop n ys))) ys
      → filter q ys ≡ drop n ys
  filter-drop q zero ys d h = filter-All q ys (
      All-zip (λ m. q m ≡ contains (key m) (map key ys)) (λ m. contains (key m) (map key ys) ≡ true)
        (λ m. q m ≡ true) ys (λ m a b. a ∙ b) h (All-self ys))
  filter-drop q (suc n) [] d h = refl
  filter-drop q (suc n) (y ∷ ys) (fresh, d) (hy, h) =
      rw (hy, contains-drop (key y) n ys fresh) (filter-drop q n ys d h)

  pub filter-Distinct :
      (p : A → Bool) (xs : List A) → Distinct (map key xs) → Distinct (map key (filter p xs))
  filter-Distinct p [] d = tt
  filter-Distinct p (x ∷ xs) (fresh, d) =
      ground (arith, contains-filter-false (key x) p xs fresh, filter-Distinct p xs d)

  -- With distinct keys an element of one kind shares its key with none of the other.
  All-other :
      (p q : A → Bool) (xs : List A)
      → ((x : A) → q x ≡ not (p x))
      → Distinct (map key xs)
      → All (λ m. contains (key m) (map key (filter q xs)) ≡ false) (filter p xs)
  unfolding contains
  All-other p q [] opposite d = tt
  All-other p q (x ∷ xs) opposite (fresh, d) = elim (Bool-cases (p x)) [
    | inl px ↦
        subst (λ ks. All (λ m. contains (key m) (map key ks) ≡ false) (filter p (x ∷ xs)))
          (sym (filter-cons_false q x xs (opposite x ∙ ap not px)))
          (rw px (contains-filter-false (key x) q xs fresh, All-other p q xs opposite d))
    | inr px ↦
        subst (λ ks. All (λ m. contains (key m) (map key ks) ≡ false) (filter p (x ∷ xs)))
          (sym (filter-cons_true q x xs (opposite x ∙ ap not px)))
          (rw px (
            All-zip (λ m. e.beq (key m) (key x) ≡ false)
              (λ m. contains (key m) (map key (filter q xs)) ≡ false)
              (λ m. contains (key m) (map key (x ∷ filter q xs)) ≡ false) (filter p xs)
              (λ m a b. ground arith)
              (All-ne_of_contains (key x) (filter p xs) (contains-filter-false (key x) p xs fresh))
              (All-other p q xs opposite d)))
  ]

  -- Kept are exactly the last elements of the first kind: those of the other add nothing.
  pub filter-kept :
      (p q : A → Bool) (i j : ℕ) (kept : A → Bool) (xs : List A)
      → ((x : A) → q x ≡ not (p x))
      → ((x : A)
          → kept x ≡ (
              contains (key x) (map key (drop i (filter p xs)))
              || contains (key x) (map key (drop j (filter q xs)))))
      → Distinct (map key xs)
      → filter p (filter kept xs) ≡ drop i (filter p xs)
  filter-kept p q i j kept xs opposite spec d =
      filter_comm p kept xs
      ∙ filter-drop kept i (filter p xs) (filter-Distinct p xs d) (
          All-imp (λ m. contains (key m) (map key (filter q xs)) ≡ false)
            (λ m. kept m ≡ contains (key m) (map key (drop i (filter p xs)))) (filter p xs)
            (λ m h. ground (arith, spec m, contains-drop (key m) j (filter q xs) h))
            (All-other p q xs opposite d))
