-- ===== src/Audio/Plans/Laws.antt =====
-- The counted seconds of a rally keep away from the captains.
use wos_sfc.Prelude.{
  ℕ, zero, suc, ◌+◌, ◌*◌, ◌/◌, ◌≤◌, ◌<◌, ◌≡◌, ◌⊎◌, inl, inr, false, ◌||◌, List, [], ◌∷◌, map, arith,
  leb, eqb, All, Bool-cases, or-eq-false, contains, nat_eq,
}
use wos_sfc.Audio.Player.Laws.{All-weaken}
use wos_sfc.Audio.Plans.{FireOffset, second_of, last_second, counted_from, counted_seconds}

-- Half a second and more between a captain and a counted second.
abbrev pub IsApart : ℕ → FireOffset → Type 0
IsApart t f = (f.offset_ms + 500 < t * 1000) ⊎ (t * 1000 + 500 ≤ f.offset_ms)

contains-IsApart :
    (t : ℕ) (offsets : List FireOffset)
    → contains t (map second_of offsets) ≡ false
    → All (IsApart t) offsets
unfolding contains
contains-IsApart t [] h = tt
contains-IsApart t (f ∷ offsets) h =
    let (here, rest) = or-eq-false (eqb t (second_of f)) (contains t (map second_of offsets)) h in
    (apart here, contains-IsApart t offsets rest)
  where
    apart : eqb t ((f.offset_ms + 500) / 1000) ≡ false → IsApart t f
    apart h = ground arith

counted_from-IsApart :
    (offsets : List FireOffset) (t left : ℕ)
    → All
        (λ (s : ℕ). (3 < s) × (s < t + left) × All (IsApart s) offsets)
        (counted_from offsets t left)
unfolding counted_from
counted_from-IsApart offsets t zero = tt
counted_from-IsApart offsets t (suc left) =
    let rest =
      All-weaken (λ (s : ℕ). (3 < s) × (s < t + 1 + left) × All (IsApart s) offsets)
        (λ (s : ℕ). (3 < s) × (s < t + suc left) × All (IsApart s) offsets)
        (counted_from offsets (t + 1) left) (λ s h. (h.0, omega (arith, h.1), h.2))
        (counted_from-IsApart offsets (t + 1) left) in
    elim (Bool-cases (leb t 3 || contains t (map second_of offsets))) [
      | inl skipped ↦ rw skipped rest
      | inr said ↦
          let (late, free) = or-eq-false (leb t 3) (contains t (map second_of offsets)) said in
          rw said ((ground (arith, late), omega arith, contains-IsApart t offsets free), rest)
    ]

-- A rally counts only seconds from the fourth to the 180th, so that no number of the count before
-- the start comes again, and only those that are at least half a second away from every captain.
pub counted_seconds-IsApart :
    (offsets : List FireOffset)
    → All (λ (s : ℕ). (3 < s) × (s ≤ 180) × All (IsApart s) offsets) (counted_seconds offsets)
unfolding counted_seconds last_second
counted_seconds-IsApart offsets =
    All-weaken (λ (s : ℕ). (3 < s) × (s < 1 + last_second offsets) × All (IsApart s) offsets)
      (λ (s : ℕ). (3 < s) × (s ≤ 180) × All (IsApart s) offsets) (counted_seconds offsets)
      (λ s h. (h.0, omega (arith, h.1), h.2)) (counted_from-IsApart offsets 1 (last_second offsets))
