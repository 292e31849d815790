-- ===== src/Prelude/IntOrder.antt =====
-- `Array.prototype.sort` of signed numbers by their difference, and `Math.min` of two.
use Prim.Native.Nat.{suc, ◌+◌}
use mathlib.Core.Path.{◌≡◌, refl, ◌∙◌}
use mathlib.Core.Logic.{inl, inr}
use mathlib.Core.Bool.{Bool}
use mathlib.Core.List.{List, [], ◌∷◌}
use native.Mathlib.Omega.{arith}
use wos_sfc.Prelude.Tests.{if◌then◌else◌, leb, leb→le, Bool-cases}
use wos_sfc.Prelude.Lists.{All, filter, length}
use wos_sfc.Prelude.Int.{ℤ, pos_part, neg_part, ◌≤ℤ◌}

abbrev pub leb_ℤ : ℤ → ℤ → Bool
leb_ℤ a b = leb (pos_part a + neg_part b) (pos_part b + neg_part a)

abbrev pub min_ℤ : ℤ → ℤ → ℤ
min_ℤ a b = if leb_ℤ a b then a else b

pub min_ℤ-le : (a b : ℤ) → min_ℤ a b ≤ℤ b
min_ℤ-le a b = ground arith

pub le-min_ℤ : (a b c : ℤ) → c ≤ℤ a → c ≤ℤ b → c ≤ℤ min_ℤ a b
le-min_ℤ a b c left right = ground arith

-- Puts `a` before the numbers that are not lower.
unfoldable pub place_ℤ : ℤ → List ℤ → List ℤ
place_ℤ a [] = a ∷ []
place_ℤ a (x ∷ xs) = if leb_ℤ a x then a ∷ x ∷ xs else x ∷ place_ℤ a xs

unfoldable pub sort_ℤ : List ℤ → List ℤ
unfolding place_ℤ
sort_ℤ [] = []
sort_ℤ (x ∷ xs) = place_ℤ x (sort_ℤ xs)

abbrev pub IsSortedInt : List ℤ → Type 0
IsSortedInt [] = Unit
IsSortedInt (x ∷ xs) = All (λ y. x ≤ℤ y) xs × IsSortedInt xs

All-above : (m n : ℤ) (xs : List ℤ) → m ≤ℤ n → All (λ y. n ≤ℤ y) xs → All (λ y. m ≤ℤ y) xs
All-above m n [] h a = tt
All-above m n (x ∷ xs) h (p, a) = (omega (arith, h, p), All-above m n xs h a)

All-place_ℤ : (P : ℤ → Type 0) (a : ℤ) (xs : List ℤ) → P a → All P xs → All P (place_ℤ a xs)
unfolding place_ℤ
All-place_ℤ P a [] pa h = (pa, tt)
All-place_ℤ P a (x ∷ xs) pa (px, h) = elim (Bool-cases (leb_ℤ a x)) [
  | inl low ↦ rw low (pa, (px, h))
  | inr high ↦ rw high (px, All-place_ℤ P a xs pa h)
]

pub All-sort_ℤ : (P : ℤ → Type 0) (xs : List ℤ) → All P xs → All P (sort_ℤ xs)
unfolding sort_ℤ
All-sort_ℤ P [] h = tt
All-sort_ℤ P (x ∷ xs) (px, h) = All-place_ℤ P x (sort_ℤ xs) px (All-sort_ℤ P xs h)

place_ℤ-IsSortedInt : (a : ℤ) (xs : List ℤ) → IsSortedInt xs → IsSortedInt (place_ℤ a xs)
unfolding place_ℤ
place_ℤ-IsSortedInt a [] s = (tt, tt)
place_ℤ-IsSortedInt a (x ∷ xs) (low, s) = elim (Bool-cases (leb_ℤ a x)) [
  | inl le ↦ rw le ((leb→le _ _ le, All-above a x xs (leb→le _ _ le) low), (low, s))
  | inr gt ↦
      rw gt (All-place_ℤ (λ y. x ≤ℤ y) a xs (ground (arith, gt)) low, place_ℤ-IsSortedInt a xs s)
]

pub sort_ℤ-IsSortedInt : (xs : List ℤ) → IsSortedInt (sort_ℤ xs)
unfolding sort_ℤ
sort_ℤ-IsSortedInt [] = tt
sort_ℤ-IsSortedInt (x ∷ xs) = place_ℤ-IsSortedInt x (sort_ℤ xs) (sort_ℤ-IsSortedInt xs)

length-place_ℤ : (x : ℤ) (xs : List ℤ) → length (place_ℤ x xs) ≡ suc (length xs)
unfolding place_ℤ
length-place_ℤ x [] = refl
length-place_ℤ x (y ∷ ys) = ground (arith, length-place_ℤ x ys)

pub length-sort_ℤ : (xs : List ℤ) → length (sort_ℤ xs) ≡ length xs
unfolding sort_ℤ
length-sort_ℤ [] = refl
length-sort_ℤ (x ∷ xs) = omega (arith, length-place_ℤ x (sort_ℤ xs), length-sort_ℤ xs)

count-place_ℤ :
    (p : ℤ → Bool) (x : ℤ) (xs : List ℤ)
    → length (filter p (place_ℤ x xs)) ≡ length (filter p (x ∷ xs))
unfolding place_ℤ
count-place_ℤ p x [] = refl
count-place_ℤ p x (y ∷ ys) = ground (arith, count-place_ℤ p x ys)

-- As many numbers pass a test as before the sort.
pub count-sort_ℤ :
    (p : ℤ → Bool) (xs : List ℤ) → length (filter p (sort_ℤ xs)) ≡ length (filter p xs)
unfolding sort_ℤ
count-sort_ℤ p [] = refl
count-sort_ℤ p (x ∷ xs) = count-place_ℤ p x (sort_ℤ xs) ∙ ground (arith, count-sort_ℤ p xs)
