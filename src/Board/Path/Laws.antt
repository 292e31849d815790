-- ===== src/Board/Path/Laws.antt =====
-- What `compactOperationPath` keeps of a path.
use wos_sfc.Prelude.{
  ℕ, zero, suc, ◌+◌, ◌≤◌, ◌≡◌, inl, inr, refl, sym, ap, ◌∙◌, subst, Bool, true, false, ◌&&◌, Option,
  none, some, List, [], ◌∷◌, arith, ltb, length, All, Bool-cases, length-append,
}
use wos_sfc.Board.Path.{
  Units, max_path_length, join, is_long, is_sampled, sample, thin, drop_penultimate, trim, slice,
  sampled_path, compact_tokens, compact_operation_path,
}

unfoldable pub first : List Units → Option Units
first [] = none
first (t ∷ ts) = some t

unfoldable pub last : List Units → Option Units
last [] = none
last (t ∷ []) = some t
last (t ∷ u ∷ ts) = last (u ∷ ts)

pub data IsThinned : List Units → List Units → Type 0 where
  done : IsThinned [] []
  kept : {t : Units} {ts us : List Units} → IsThinned us ts → IsThinned (t ∷ us) (t ∷ ts)
  left_out : {t : Units} {ts us : List Units} → IsThinned us ts → IsThinned us (t ∷ ts)

IsThinned-refl : (ts : List Units) → IsThinned ts ts
IsThinned-refl [] = done
IsThinned-refl (t ∷ ts) = kept (IsThinned-refl ts)

IsThinned-trans : {ss us ts : List Units} → IsThinned ss us → IsThinned us ts → IsThinned ss ts
IsThinned-trans p done = p
IsThinned-trans (kept p) (kept q) = kept (IsThinned-trans p q)
IsThinned-trans (left_out p) (kept q) = left_out (IsThinned-trans p q)
IsThinned-trans p (left_out q) = left_out (IsThinned-trans p q)

-- Part of a path, with its two ends.
pub record IsPart (us ts : List Units) : Type 0 where
  pub thinned : IsThinned us ts
  pub begins : first us ≡ first ts
  pub ends : last us ≡ last ts

IsPart-refl : (ts : List Units) → IsPart ts ts
IsPart-refl ts = record { thinned = IsThinned-refl ts; begins = refl; ends = refl }

last_some : (u : Units) (us : List Units) → (x : Units) × (last (u ∷ us) ≡ some x)
unfolding last
last_some u [] = (u, refl)
last_some u (v ∷ us) = last_some v us

last_cons :
    (t u : Units) (rest us : List Units)
    → last rest ≡ last (u ∷ us)
    → last (t ∷ rest) ≡ last (u ∷ us)
unfolding last
last_cons t u [] us e = let (x, s) = last_some u us in cc
last_cons t u (r ∷ rest) us e = e

sample-IsThinned : (count step i : ℕ) (ts : List Units) → IsThinned (sample count step i ts) ts
unfolding sample
sample-IsThinned count step i [] = done
sample-IsThinned count step i (t ∷ ts) = elim (Bool-cases (is_sampled count step i)) [
  | inl hit ↦ rw hit (kept (sample-IsThinned count step (i + 1) ts))
  | inr miss ↦ rw miss (left_out (sample-IsThinned count step (i + 1) ts))
]

last-sample :
    (count step i : ℕ) (ts : List Units)
    → i + length ts ≡ count
    → last (sample count step i ts) ≡ last ts
unfolding sample last
last-sample count step i [] e = refl
last-sample count step i (t ∷ []) e = ground arith
last-sample count step i (t ∷ u ∷ ts) e =
    let ends = last-sample count step (i + 1) (u ∷ ts) (omega (arith, e)) in
    elim (Bool-cases (is_sampled count step i)) [
      | inl hit ↦ rw hit (last_cons t u (sample count step (i + 1) (u ∷ ts)) ts ends)
      | inr miss ↦ rw miss ends
    ]

sample-IsPart : (step : ℕ) (ts : List Units) → IsPart (sample (length ts) step 0 ts) ts
unfolding sample first
sample-IsPart step [] = IsPart-refl []
sample-IsPart step (t ∷ ts) = record {
  thinned = sample-IsThinned (length (t ∷ ts)) step 0 (t ∷ ts);
  begins = refl;
  ends = last-sample (length (t ∷ ts)) step 0 (t ∷ ts) (omega arith);
}

thin-IsPart :
    (fuel step : ℕ) (tokens sampled : List Units)
    → IsPart sampled tokens
    → IsPart (thin fuel step tokens sampled).1 tokens
unfolding thin
thin-IsPart zero step tokens sampled p = p
thin-IsPart (suc fuel) step tokens sampled p =
    elim (Bool-cases (is_long sampled && ltb step (length tokens))) [
      | inl more ↦ rw more (
          thin-IsPart fuel (step + 1) tokens (sample (length tokens) (step + 1) 0 tokens)
            (sample-IsPart (step + 1) tokens))
      | inr over ↦ rw over p
    ]

drop_penultimate-IsThinned : (ts : List Units) → IsThinned (drop_penultimate ts) ts
unfolding drop_penultimate
drop_penultimate-IsThinned [] = done
drop_penultimate-IsThinned (t ∷ []) = kept done
drop_penultimate-IsThinned (t ∷ u ∷ []) = left_out (kept done)
drop_penultimate-IsThinned (t ∷ u ∷ v ∷ ts) = kept (drop_penultimate-IsThinned (u ∷ v ∷ ts))

last-drop_penultimate : (ts : List Units) → last (drop_penultimate ts) ≡ last ts
unfolding drop_penultimate last
last-drop_penultimate [] = refl
last-drop_penultimate (t ∷ []) = refl
last-drop_penultimate (t ∷ u ∷ []) = refl
last-drop_penultimate (t ∷ u ∷ v ∷ ts) =
    last_cons t v (drop_penultimate (u ∷ v ∷ ts)) ts (last-drop_penultimate (u ∷ v ∷ ts))

length-drop_penultimate :
    (t u : Units) (ts : List Units) → length (drop_penultimate (t ∷ u ∷ ts)) ≡ suc (length ts)
unfolding drop_penultimate
length-drop_penultimate t u [] = refl
length-drop_penultimate t u (v ∷ ts) = ap suc (length-drop_penultimate u v ts)

drop_penultimate-IsPart :
    (us ts : List Units) → ltb 2 (length us) ≡ true → IsPart us ts → IsPart (drop_penultimate us) ts
unfolding drop_penultimate first
drop_penultimate-IsPart [] ts h p = p
drop_penultimate-IsPart (t ∷ []) ts h p = p
drop_penultimate-IsPart (t ∷ u ∷ []) ts h p = ground arith
drop_penultimate-IsPart (t ∷ u ∷ v ∷ us) ts h p = record {
  thinned = IsThinned-trans (drop_penultimate-IsThinned (t ∷ u ∷ v ∷ us)) p.thinned;
  begins = p.begins;
  ends = last-drop_penultimate (t ∷ u ∷ v ∷ us) ∙ p.ends;
}

and-true : (a b : Bool) → (a && b) ≡ true → b ≡ true
and-true a b h = ground arith

trim-IsPart : (fuel : ℕ) (us ts : List Units) → IsPart us ts → IsPart (trim fuel us) ts
unfolding trim
trim-IsPart zero us ts p = p
trim-IsPart (suc fuel) us ts p = elim (Bool-cases (is_long us && ltb 2 (length us))) [
  | inl more ↦ rw more (
      trim-IsPart fuel (drop_penultimate us) ts
        (drop_penultimate-IsPart us ts (and-true (is_long us) (ltb 2 (length us)) more) p))
  | inr over ↦ rw over p
]

-- With a turn for each step of the path the second loop comes to its end.
trim_settles :
    (fuel : ℕ) (us : List Units)
    → length us ≤ fuel
    → (is_long (trim fuel us) && ltb 2 (length (trim fuel us))) ≡ false
unfolding trim drop_penultimate
trim_settles zero us h = ground arith
trim_settles (suc fuel) [] h = ground arith
trim_settles (suc fuel) (t ∷ []) h = ground arith
trim_settles (suc fuel) (t ∷ u ∷ us) h =
    elim (Bool-cases (is_long (t ∷ u ∷ us) && ltb 2 (length (t ∷ u ∷ us)))) [
      | inl more ↦ rw more (
          trim_settles fuel (drop_penultimate (t ∷ u ∷ us))
            (omega (arith, length-drop_penultimate t u us)))
      | inr over ↦ rw over over
    ]

-- With a turn for each step of the path the first loop comes to its end: the sample is short
-- enough, or the step is as large as the path is long.
pub thin_settles :
    (fuel step : ℕ) (tokens sampled : List Units)
    → length tokens ≤ fuel + step
    → (is_long (thin fuel step tokens sampled).1
        && ltb (thin fuel step tokens sampled).0 (length tokens))
      ≡ false
unfolding thin
thin_settles zero step tokens sampled h = ground arith
thin_settles (suc fuel) step tokens sampled h =
    elim (Bool-cases (is_long sampled && ltb step (length tokens))) [
      | inl more ↦ rw more (
          thin_settles fuel (step + 1) tokens (sample (length tokens) (step + 1) 0 tokens)
            (omega (arith, h)))
      | inr over ↦ rw over over
    ]

All-IsThinned : (P : Units → Type 0) {us ts : List Units} → IsThinned us ts → All P ts → All P us
All-IsThinned P done a = tt
All-IsThinned P (kept q) (p, a) = (p, All-IsThinned P q a)
All-IsThinned P (left_out q) (p, a) = All-IsThinned P q a

slice_all : (n : ℕ) (text : Units) → length text ≤ n → slice n text ≡ text
unfolding slice
slice_all zero [] h = refl
slice_all zero (c ∷ text) h = ground arith
slice_all (suc n) [] h = refl
slice_all (suc n) (c ∷ text) h = ap (λ rest. c ∷ rest) (slice_all n text (omega (arith, h)))

abbrev pub IsShort : Units → Type 0
IsShort t = length t ≤ 255

join_short :
    (us : List Units)
    → All IsShort us
    → (is_long us && ltb 2 (length us)) ≡ false
    → length (join us) ≤ max_path_length
unfolding join
join_short [] a h = omega arith
join_short (t ∷ []) (p, a) h = omega (arith, p)
join_short (t ∷ u ∷ []) (p, (q, a)) h = omega (arith, p, q, length-append t (32 ∷ u))
join_short (t ∷ u ∷ v ∷ us) a h = ground arith

compact_tokens_whole :
    (ts : List Units)
    → All IsShort ts
    → (us : List Units) × IsPart us ts
      × (compact_tokens ts ≡ join us)
      × (length (compact_tokens ts) ≤ max_path_length)
unfolding sampled_path join
compact_tokens_whole [] a = ([], IsPart-refl [], refl, omega arith)
compact_tokens_whole (t ∷ ts) a =
    let sampled = (thin (length (t ∷ ts)) 1 (t ∷ ts) (t ∷ ts)).1 in
    let us = trim (length sampled) sampled in
    let part =
      trim-IsPart (length sampled) sampled (t ∷ ts)
        (thin-IsPart (length (t ∷ ts)) 1 (t ∷ ts) (t ∷ ts) (IsPart-refl (t ∷ ts))) in
    let fits =
      join_short us (All-IsThinned IsShort part.thinned a)
        (trim_settles (length sampled) sampled (omega arith)) in
    let whole = slice_all max_path_length (join us) fits in
    (us, part, whole, subst (λ (x : Units). length x ≤ max_path_length) (sym whole) fits)

-- A path whose steps have at most 255 units each comes out with at most 512 units, and is made of
-- whole steps: those of the path in their order, some left out, the first and the last kept.
pub compact_whole :
    (match_all : Units → List Units) (path : Units)
    → All IsShort (match_all path)
    → (us : List Units) × IsPart us (match_all path)
      × (compact_operation_path match_all path ≡ join us)
      × (length (compact_operation_path match_all path) ≤ max_path_length)
unfolding compact_operation_path
compact_whole match_all path short = compact_tokens_whole (match_all path) short
