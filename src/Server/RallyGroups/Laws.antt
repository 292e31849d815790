-- ===== src/Server/RallyGroups/Laws.antt =====
-- The order of the members of a group, and the schedule in which they fire.
use wos_sfc.Prelude.{
  ℕ, suc, ◌+◌, ◌*◌, ◌≤◌, ◌≡◌, refl, sym, subst, ap, ◌∙◌, Bool, false, ◌||◌, Option, List, [], ◌∷◌,
  map, length, eqb, contains, Distinct, nat_eq, All, Bool-cases, inl, inr, arith,
}
use wos_sfc.Prelude.Dict.{Dict}
use wos_sfc.Server.RallyGroups.{
  RallyMember, CaptainOffset, effective, comes_first, place_member, sort_by_march, number_from,
  sort_members_by_march_desc, march_in,
}

-- Numbered from a number on, without a gap.
abbrev pub IsNumberedFrom : ℕ → List RallyMember → Type 0
IsNumberedFrom i [] = Unit
IsNumberedFrom i (m ∷ ms) = (m.order_index ≡ i) × IsNumberedFrom (suc i) ms

number_from-IsNumberedFrom : (i : ℕ) (ms : List RallyMember) → IsNumberedFrom i (number_from i ms)
number_from-IsNumberedFrom i [] = tt
number_from-IsNumberedFrom i (m ∷ ms) = (refl, number_from-IsNumberedFrom (suc i) ms)

abbrev pub users : List RallyMember → List ℕ
users = map (λ (m : RallyMember). m.user_id)

users-number_from : (i : ℕ) (ms : List RallyMember) → users (number_from i ms) ≡ users ms
users-number_from i [] = refl
users-number_from i (m ∷ ms) = ap (◌∷◌ m.user_id) (users-number_from (suc i) ms)

module _ (march_of : ℕ → Option ℕ) where
  -- No member marches longer than one before it.
  abbrev pub IsSlowestFirst : List RallyMember → Type 0
  IsSlowestFirst [] = Unit
  IsSlowestFirst (m ∷ ms) =
      All (λ (n : RallyMember). effective march_of n ≤ effective march_of m) ms × IsSlowestFirst ms

  All-place_member {κ} :
      (P : RallyMember → Type κ) (a : RallyMember) (ms : List RallyMember)
      → P a
      → All P ms
      → All P (place_member march_of a ms)
  unfolding place_member
  All-place_member P a [] p h = (p, tt)
  All-place_member P a (m ∷ ms) p (q, h) = elim (Bool-cases (comes_first march_of a m)) [
    | inl front ↦ rw front (p, (q, h))
    | inr behind ↦ rw behind (q, All-place_member P a ms p h)
  ]

  slower-All :
      (x y : ℕ) (ms : List RallyMember)
      → x ≤ y
      → All (λ (n : RallyMember). effective march_of n ≤ x) ms
      → All (λ (n : RallyMember). effective march_of n ≤ y) ms
  slower-All x y [] le h = tt
  slower-All x y (m ∷ ms) le (p, h) = (omega (arith, le, p), slower-All x y ms le h)

  place_member-IsSlowestFirst :
      (a : RallyMember) (ms : List RallyMember)
      → IsSlowestFirst ms
      → IsSlowestFirst (place_member march_of a ms)
  unfolding place_member
  place_member-IsSlowestFirst a [] s = (tt, tt)
  place_member-IsSlowestFirst a (m ∷ ms) (slow, s) = elim (Bool-cases (comes_first march_of a m)) [
    | inl front ↦ rw front (
      (
        ground (arith, front),
        slower-All (effective march_of m) (effective march_of a) ms (ground (arith, front)) slow,
      ),
      (slow, s),
    )
    | inr behind ↦ rw behind (
      All-place_member (λ (n : RallyMember). effective march_of n ≤ effective march_of m) a ms
          (ground (arith, behind)) slow,
      place_member-IsSlowestFirst a ms s,
    )
  ]

  sort_by_march-IsSlowestFirst :
      (ms : List RallyMember) → IsSlowestFirst (sort_by_march march_of ms)
  unfolding sort_by_march
  sort_by_march-IsSlowestFirst [] = tt
  sort_by_march-IsSlowestFirst (m ∷ ms) =
      place_member-IsSlowestFirst m (sort_by_march march_of ms) (sort_by_march-IsSlowestFirst ms)

  -- A number has no influence on how long a member marches.
  All-number_from :
      (i x : ℕ) (ms : List RallyMember)
      → All (λ (n : RallyMember). effective march_of n ≤ x) ms
      → All (λ (n : RallyMember). effective march_of n ≤ x) (number_from i ms)
  All-number_from i x [] h = tt
  All-number_from i x (m ∷ ms) (p, h) = (p, All-number_from (suc i) x ms h)

  number_from-IsSlowestFirst :
      (i : ℕ) (ms : List RallyMember) → IsSlowestFirst ms → IsSlowestFirst (number_from i ms)
  number_from-IsSlowestFirst i [] s = tt
  number_from-IsSlowestFirst i (m ∷ ms) (slow, s) = (
    All-number_from (suc i) (effective march_of m) ms slow,
    number_from-IsSlowestFirst (suc i) ms s,
  )

  contains-place_member :
      (u : ℕ) (a : RallyMember) (ms : List RallyMember)
      → contains u (users (place_member march_of a ms)) ≡ (eqb u a.user_id || contains u (users ms))
  unfolding place_member contains
  contains-place_member u a [] = refl
  contains-place_member u a (m ∷ ms) = elim (Bool-cases (comes_first march_of a m)) [
    | inl front ↦ rw front refl
    | inr behind ↦ rw behind (ground (arith, contains-place_member u a ms))
  ]

  contains-sort_by_march :
      (u : ℕ) (ms : List RallyMember)
      → contains u (users (sort_by_march march_of ms)) ≡ contains u (users ms)
  unfolding sort_by_march contains
  contains-sort_by_march u [] = refl
  contains-sort_by_march u (m ∷ ms) =
      contains-place_member u m (sort_by_march march_of ms)
      ∙ ap (λ (b : Bool). eqb u m.user_id || b) (contains-sort_by_march u ms)

  place_member-Distinct :
      (a : RallyMember) (ms : List RallyMember)
      → contains a.user_id (users ms) ≡ false
      → Distinct (users ms)
      → Distinct (users (place_member march_of a ms))
  unfolding place_member contains
  place_member-Distinct a [] fresh d = (refl, tt)
  place_member-Distinct a (m ∷ ms) fresh (new, d) = elim (Bool-cases (comes_first march_of a m)) [
    | inl front ↦ rw front (fresh, (new, d))
    | inr behind ↦ rw behind (
      contains-place_member m.user_id a ms ∙ ground (arith, fresh, new),
      place_member-Distinct a ms (ground (arith, fresh)) d,
    )
  ]

  sort_by_march-Distinct :
      (ms : List RallyMember) → Distinct (users ms) → Distinct (users (sort_by_march march_of ms))
  unfolding sort_by_march
  sort_by_march-Distinct [] d = tt
  sort_by_march-Distinct (m ∷ ms) (fresh, d) =
      place_member-Distinct m (sort_by_march march_of ms)
        (contains-sort_by_march m.user_id ms ∙ fresh) (sort_by_march-Distinct ms d)

  length-place_member :
      (a : RallyMember) (ms : List RallyMember)
      → length (place_member march_of a ms) ≡ suc (length ms)
  unfolding place_member
  length-place_member a [] = refl
  length-place_member a (m ∷ ms) = elim (Bool-cases (comes_first march_of a m)) [
    | inl front ↦ rw front refl
    | inr behind ↦ rw behind (omega (arith, length-place_member a ms))
  ]

  length-number_from : (i : ℕ) (ms : List RallyMember) → length (number_from i ms) ≡ length ms
  length-number_from i [] = refl
  length-number_from i (m ∷ ms) = omega (arith, length-number_from (suc i) ms)

  length-sort_by_march : (ms : List RallyMember) → length (sort_by_march march_of ms) ≡ length ms
  unfolding sort_by_march
  length-sort_by_march [] = refl
  length-sort_by_march (m ∷ ms) =
      omega (arith, length-place_member m (sort_by_march march_of ms), length-sort_by_march ms)

  pub length-sorted :
      (ms : List RallyMember) → length (sort_members_by_march_desc march_of ms) ≡ length ms
  length-sorted ms = length-number_from 1 (sort_by_march march_of ms) ∙ length-sort_by_march ms

  pub sorted-IsNumberedFrom :
      (ms : List RallyMember) → IsNumberedFrom 1 (sort_members_by_march_desc march_of ms)
  sorted-IsNumberedFrom ms = number_from-IsNumberedFrom 1 (sort_by_march march_of ms)

  pub sorted-Distinct :
      (ms : List RallyMember)
      → Distinct (users ms)
      → Distinct (users (sort_members_by_march_desc march_of ms))
  sorted-Distinct ms d =
      subst Distinct (sym (users-number_from 1 (sort_by_march march_of ms)))
        (sort_by_march-Distinct ms d)

  -- An ordered group is numbered from 1 without a gap, the slowest member first, and has as many
  -- members and the same users as before.
  pub sort_members_ordered :
      (ms : List RallyMember) (u : ℕ)
      → IsNumberedFrom 1 (sort_members_by_march_desc march_of ms)
        × IsSlowestFirst (sort_members_by_march_desc march_of ms)
        × (length (sort_members_by_march_desc march_of ms) ≡ length ms)
        × (contains u (users (sort_members_by_march_desc march_of ms)) ≡ contains u (users ms))
  sort_members_ordered ms u = (
    number_from-IsNumberedFrom 1 (sort_by_march march_of ms),
    number_from-IsSlowestFirst 1 (sort_by_march march_of ms) (sort_by_march-IsSlowestFirst ms),
    length-sorted ms,
    ap (contains u) (users-number_from 1 (sort_by_march march_of ms)) ∙ contains-sort_by_march u ms,
  )

-- Whoever fires at its offset and then marches arrives at the same time.
abbrev pub IsTogether : Dict ℕ ℕ → ℕ → List CaptainOffset → Type 0
IsTogether march longest offsets =
    All (λ (f : CaptainOffset). f.offset_ms + march_in march f.user_id * 1000 ≡ longest * 1000)
      offsets
