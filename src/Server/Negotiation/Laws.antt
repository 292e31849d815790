-- ===== src/Server/Negotiation/Laws.antt =====
-- The grace is at most 1.2 seconds, and long enough for nineteen of twenty clients.
use wos_sfc.Prelude.{
  ℕ, zero, suc, ◌+◌, ◌-◌, ◌*◌, ◌≤◌, ◌<◌, ◌≡◌, refl, ap, subst, min, Bool, true, Option, some, List,
  [], ◌∷◌, map, filter, length, le→leb, get_or, All, arith,
}
use wos_sfc.Prelude.Int.{ℤ, pos, ◌+ℤ◌, ◌≤ℤ◌, int_laws}
use wos_sfc.Prelude.IntOrder.{
  leb_ℤ, min_ℤ, min_ℤ-le, le-min_ℤ, sort_ℤ, IsSortedInt, sort_ℤ-IsSortedInt, All-sort_ℤ,
  length-sort_ℤ, count-sort_ℤ,
}
use wos_sfc.Server.Negotiation.{
  ProbeOutcome, ack, timeout, invalid_ack, to_rtt, elem_at, rank_of, calc_percentile, grace,
  grace_for, negotiate_started_at, grace_percentile, fallback_rtt_ms,
}

-- What stands at a place of a list.
found : (i : ℕ) (xs : List ℤ) → i < length xs → (v : ℤ) × (elem_at i xs ≡ some v)
found i [] h = absurd (omega (arith, h))
found zero (x ∷ xs) h = (x, refl)
found (suc i) (x ∷ xs) h = found i xs (omega (arith, h))

All-elem_at :
    (P : ℤ → Type 0) (i : ℕ) (xs : List ℤ) (v : ℤ) → All P xs → elem_at i xs ≡ some v → P v
All-elem_at P i [] v a h = absurd (cc)
All-elem_at P zero (x ∷ xs) v (p, a) h = subst P (cc) p
All-elem_at P (suc i) (x ∷ xs) v (p, a) h = All-elem_at P i xs v a h

-- In a sorted list, all up to a place pass a test that what is no higher than its element passes.
sorted_count :
    (p : ℤ → Bool) (i : ℕ) (xs : List ℤ) (v : ℤ)
    → IsSortedInt xs
    → elem_at i xs ≡ some v
    → ((y : ℤ) → y ≤ℤ v → p y ≡ true)
    → i + 1 ≤ length (filter p xs)
sorted_count p i [] v s h low = absurd (cc)
sorted_count p zero (x ∷ xs) v (first, s) h low = rw (low x (here h)) (omega arith)
  where
    here : some x ≡ some v → x ≤ℤ v
    here h = subst (λ (y : ℤ). x ≤ℤ y) {x = x} (cc) (omega arith)
sorted_count p (suc i) (x ∷ xs) v (first, s) h low =
    rw (low x (All-elem_at (λ (y : ℤ). x ≤ℤ y) i xs v first h))
      (omega (arith, sorted_count p i xs v s h low))

to_rtt-IsClamped : (os : List ProbeOutcome) → All (λ (rtt : ℤ). rtt ≤ℤ pos 500) (map to_rtt os)
to_rtt-IsClamped [] = tt
to_rtt-IsClamped (ack rtt ∷ os) = (min_ℤ-le rtt (pos 500), to_rtt-IsClamped os)
to_rtt-IsClamped (timeout ∷ os) = (omega arith, to_rtt-IsClamped os)
to_rtt-IsClamped (invalid_ack ∷ os) = (omega arith, to_rtt-IsClamped os)

-- The clock was not set back while the probe was out.
abbrev pub IsForward : ProbeOutcome → Type 0
IsForward (ack rtt) = pos 0 ≤ℤ rtt
IsForward timeout = Unit
IsForward invalid_ack = Unit

to_rtt_forward :
    (os : List ProbeOutcome) → All IsForward os → All (λ (rtt : ℤ). pos 0 ≤ℤ rtt) (map to_rtt os)
to_rtt_forward [] a = tt
to_rtt_forward (ack rtt ∷ os) (p, a) =
    (le-min_ℤ rtt (pos 500) (pos 0) p (omega arith), to_rtt_forward os a)
to_rtt_forward (timeout ∷ os) (p, a) = (omega arith, to_rtt_forward os a)
to_rtt_forward (invalid_ack ∷ os) (p, a) = (omega arith, to_rtt_forward os a)

abbrev tail_index : ℕ → ℕ
tail_index n = min (n - 1) (rank_of grace_percentile n - 1)

-- The percentile of the round trips is one of them, at its place in their order.
tail_found :
    (x : ℤ) (xs : List ℤ)
    → (v : ℤ) × (elem_at (tail_index (length (sort_ℤ (x ∷ xs)))) (sort_ℤ (x ∷ xs)) ≡ some v)
      × (calc_percentile (x ∷ xs) grace_percentile ≡ v)
unfolding calc_percentile
tail_found x xs =
    let (v, is) =
      found (tail_index (length (sort_ℤ (x ∷ xs)))) (sort_ℤ (x ∷ xs))
        (omega (arith, length-sort_ℤ (x ∷ xs))) in
    (v, is, ap (λ (o : Option ℤ). get_or o (pos fallback_rtt_ms)) is)

-- What all round trips are, their percentile is.
All-tail :
    (P : ℤ → Type 0) (o : ProbeOutcome) (os : List ProbeOutcome)
    → All P (map to_rtt (o ∷ os))
    → P (calc_percentile (map to_rtt (o ∷ os)) grace_percentile)
All-tail P o os a =
    let (v, is, same_v) = tail_found (to_rtt o) (map to_rtt os) in
    rw same_v (All-elem_at P _ _ v (All-sort_ℤ P (map to_rtt (o ∷ os)) a) is)

-- The cap of 1500 ms is never reached.
grace_tail :
    (o : ProbeOutcome) (os : List ProbeOutcome)
    → grace (o ∷ os) ≡ grace_for (calc_percentile (map to_rtt (o ∷ os)) grace_percentile)
unfolding grace
grace_tail o os =
    uncapped (calc_percentile (map to_rtt (o ∷ os)) grace_percentile)
      (All-tail (λ (rtt : ℤ). rtt ≤ℤ pos 500) o os (to_rtt-IsClamped (o ∷ os)))
  where
    below_cap : (t : ℤ) → t ≤ℤ pos 500 → grace_for t ≤ℤ pos 1500
    below_cap t h = omega (int_laws, h)

    uncapped : (t : ℤ) → t ≤ℤ pos 500 → min_ℤ (grace_for t) (pos 1500) ≡ grace_for t
    uncapped t h = rw (le→leb _ _ (below_cap t h)) refl

-- Where the clock was not set back while a probe was out, a countdown starts at least 200 ms and at
-- most 1200 ms after the outcomes of the probes are there.
pub started_bounded :
    (now : ℕ) (outcomes : List ProbeOutcome)
    → All IsForward outcomes
    → (pos (now + 200) ≤ℤ negotiate_started_at now outcomes)
      × (negotiate_started_at now outcomes ≤ℤ pos (now + 1200))
unfolding grace
started_bounded now [] a = (omega int_laws, omega int_laws)
started_bounded now (o ∷ os) a =
    let tail = calc_percentile (map to_rtt (o ∷ os)) grace_percentile in
    rw (grace_tail o os) (
      after tail (All-tail (λ (rtt : ℤ). pos 0 ≤ℤ rtt) o os (to_rtt_forward (o ∷ os) a)),
      before tail (All-tail (λ (rtt : ℤ). rtt ≤ℤ pos 500) o os (to_rtt-IsClamped (o ∷ os))),
    )
  where
    after : (t : ℤ) → pos 0 ≤ℤ t → pos (now + 200) ≤ℤ (pos now +ℤ grace_for t)
    after t h = omega (int_laws, h)

    before : (t : ℤ) → t ≤ℤ pos 500 → (pos now +ℤ grace_for t) ≤ℤ pos (now + 1200)
    before t h = omega (int_laws, h)

rank_covers : (n : ℕ) → 95 * n ≤ 100 * (tail_index n + 1)
rank_covers n = omega arith

-- The clients for which the grace is twice their round trip and 200 ms more.
abbrev pub covered : List ProbeOutcome → List ℤ
covered outcomes = filter (λ rtt. leb_ℤ (grace_for rtt) (grace outcomes)) (map to_rtt outcomes)

-- At least 95 of 100 of the probed clients are given twice their round trip, as it was clamped or
-- assumed, and 200 ms more.
pub grace_covers :
    (outcomes : List ProbeOutcome) → 95 * length outcomes ≤ 100 * length (covered outcomes)
grace_covers [] = omega arith
grace_covers (o ∷ os) =
    let rtts = map to_rtt (o ∷ os) in
    let (v, is, same_v) = tail_found (to_rtt o) (map to_rtt os) in
    let p : ℤ → Bool = λ rtt. leb_ℤ (grace_for rtt) (grace (o ∷ os)) in
    let count =
      sorted_count p (tail_index (length (sort_ℤ rtts))) (sort_ℤ rtts) v (sort_ℤ-IsSortedInt rtts)
        is (λ y le. rw (grace_tail o os, same_v) (le→leb _ _ (twice y v le))) in
    omega (
      arith,
      count,
      count-sort_ℤ p rtts,
      length-sort_ℤ rtts,
      rank_covers (length rtts),
      length-map (o ∷ os),
    )
  where
    twice : (y v : ℤ) → y ≤ℤ v → grace_for y ≤ℤ grace_for v
    twice y v h = omega (int_laws, h)

    length-map : (os : List ProbeOutcome) → length (map to_rtt os) ≡ length os
    length-map [] = refl
    length-map (o ∷ os) = omega (arith, length-map os)
