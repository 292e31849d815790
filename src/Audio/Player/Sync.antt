-- ===== src/Audio/Player/Sync.antt =====
-- When the sources that a schedule starts are heard, on the server's clock.
use wos_sfc.Prelude.{
  ℕ, ◌+◌, ◌<◌, ◌≤◌, ◌≡◌, ◌⊎◌, inl, inr, refl, ap, ◌∙◌, max, Bool, true, false, not, ◌||◌, ◌&&◌,
  none, some, List, [], ◌∷◌, map, arith, if◌then◌else◌, Eq, contains, ltb, eqb, Bool-cases,
}
use wos_sfc.Prelude.Int.{ℤ, pos, negsuc, pos_part, ◌+ℤ◌, ◌-ℤ◌, ltb_ℤ, eq_of_parts, int_laws}
use wos_sfc.Audio.Player.{
  Context, is_running, output_latency, max_output_latency, Slot, Source, Player, Plan, log_slot,
  start_source, schedule_play, schedule_all, anchor_of, place,
}

-- `late` is the latency of the device, as the context reports it: as its output latency or, where it
-- has none, as its base latency.
abbrev pub Reports : ℕ → Context → Type 0
Reports late c =
    ((c.output_latency ≡ some (pos late)) × (0 < late))
    ⊎ ((c.output_latency ≡ none) × (c.base_latency ≡ some (pos late)))

reported :
    (late : ℕ) (c : Context) → Reports late c → late ≤ max_output_latency → output_latency c ≡ late
unfolding output_latency
reported late c (inl (output, positive)) le = rw output (ground arith)
reported late c (inr (none_out, base)) le = rw (none_out, base) (ground arith)

abbrev pub max_ℤ : ℤ → ℤ → ℤ
max_ℤ a b = if ltb_ℤ a b then b else a

-- The time on the server's clock, with the player's offset, at which a source is heard that starts
-- at `start` on the context's clock: this clock runs as the wall's does, and a device of the latency
-- `late` is that much behind it.
unfoldable pub heard_at : {K P : Type 0} → ℕ → Plan K P → P → Player K P → ℕ → ℤ
heard_at late plan params p start =
    pos p.wall +ℤ plan.time_offset params +ℤ (pos start -ℤ pos p.context.current_time) +ℤ pos late

-- The keys of the sources and when they are heard.
abbrev pub heard_sources :
    {K P : Type 0} → ℕ → Plan K P → P → Player K P → List (Source K) → List (K × ℤ)
heard_sources {K} late plan params p =
    map {B = K × ℤ} (λ (s : Source K). (s.slot.key, heard_at late plan params p s.start))

module _ {K : Type 0} ⦃e : Eq K⦄ where
  -- The reference, on the server's clock alone. What starts at once is heard at `now`; a slot is due
  -- at its time after the start, and is heard then or, up to 200 ms late, at once, if its buffer is
  -- there. The latest comes first.
  abbrev pub expect : ℤ → List K → ℤ → K → List (K × ℤ) → List (K × ℤ)
  expect now loaded due key before =
      if contains key loaded && not (ltb_ℤ (due +ℤ pos 200) now)
      then (key, max_ℤ due now) ∷ before
      else before

  unfoldable pub expected_all : ℤ → List K → ℕ → List (K × ℤ) → List (K × ℤ) → List (K × ℤ)
  expected_all now loaded started_at [] before = before
  expected_all now loaded started_at ((key, after) ∷ slots) before =
      expected_all now loaded started_at slots
        (expect now loaded (pos started_at +ℤ after) key before)

ltb_cong : (a b c d : ℕ) → a + d ≡ c + b → ltb a b ≡ ltb c d
ltb_cong a b c d h = ground arith

max_late : (at : ℤ) (t : ℕ) → ltb_ℤ at (pos t) ≡ true → max (pos_part at) t ≡ t
max_late (pos n) t h = ground arith
max_late (negsuc n) t h = ground arith

max_due : (at : ℤ) (t : ℕ) → ltb_ℤ at (pos t) ≡ false → pos (max (pos_part at) t) ≡ at
max_due (pos n) t h = ap pos (ground arith)
max_due (negsuc n) t h = ground arith

module _ {K P : Type 0} ⦃e : Eq K⦄ (plan : Plan K P) (params : P) (p : Player K P) (late : ℕ) where
  -- What starts at once is heard at this time.
  abbrev pub at_once : ℤ
  at_once = pos p.wall +ℤ plan.time_offset params +ℤ pos late

  abbrev due_at : ℤ → ℤ
  due_at after = pos (plan.started_at params) +ℤ after

  abbrev slot_at : ℤ → ℤ
  slot_at after = anchor_of plan params p +ℤ after

  is_late-shift :
      (after : ℤ)
      → output_latency p.context ≡ late
      → ltb_ℤ (slot_at after +ℤ pos 200) (pos p.context.current_time)
        ≡ ltb_ℤ (due_at after +ℤ pos 200) at_once
  is_late-shift after l = ltb_cong _ _ _ _ (omega int_laws)

  is_past-shift :
      (after : ℤ)
      → output_latency p.context ≡ late
      → ltb_ℤ (slot_at after) (pos p.context.current_time) ≡ ltb_ℤ (due_at after) at_once
  is_past-shift after l = ltb_cong _ _ _ _ (omega int_laws)

  heard_at-start :
      (after : ℤ)
      → output_latency p.context ≡ late
      → heard_at late plan params p (max (pos_part (slot_at after)) p.context.current_time)
        ≡ max_ℤ (due_at after) at_once
  unfolding heard_at
  heard_at-start after l = elim (Bool-cases (ltb_ℤ (due_at after) at_once)) [
    | inl past ↦
        rw (past, max_late (slot_at after) p.context.current_time (is_past-shift after l ∙ past))
          (eq_of_parts _ _ (omega int_laws))
    | inr ahead ↦
        rw (ahead, max_due (slot_at after) p.context.current_time (is_past-shift after l ∙ ahead))
          (eq_of_parts _ _ (omega int_laws))
  ]

  -- In the loop over the slots the clock, the buffers and the number of the schedule stay.
  record IsPlacing (id : ℕ) (before : List (K × ℤ)) (q : Player K P) : Type 0 where
    context : q.context ≡ p.context
    loaded : q.loaded ≡ p.loaded
    latest : q.latest_schedule_id ≡ id
    sources : heard_sources late plan params p q.active_sources ≡ before

  start_source-IsPlacing :
      (id : ℕ) (before : List (K × ℤ)) (key : K) (after : ℤ) (q : Player K P)
      → output_latency p.context ≡ late
      → IsPlacing id before q
      → IsPlacing id
          (if not (ltb_ℤ (due_at after +ℤ pos 200) at_once)
            then (key, max_ℤ (due_at after) at_once) ∷ before
            else before)
          (start_source (record { key = key; at = slot_at after; schedule = id }) q)
  unfolding start_source
  start_source-IsPlacing id before key after q l v =
      elim (Bool-cases (ltb_ℤ (due_at after +ℤ pos 200) at_once)) [
        | inl late_slot ↦ rw (skipped true late_slot, late_slot) v
        | inr in_time ↦
            rw (skipped false in_time, in_time)
              (record {
                context = v.context;
                loaded = v.loaded;
                latest = v.latest;
                sources =
                    ap
                      (λ rest.
                        (
                          key,
                          heard_at late plan params p
                              (max (pos_part (slot_at after)) q.context.current_time),
                        )
                        ∷ rest)
                      v.sources
                    ∙ rw (v.context, heard_at-start after l) refl;
              })
      ]
    where
      current : not (eqb id q.latest_schedule_id) ≡ false
      current = ground (arith, v.latest)

      skipped :
          (b : Bool)
          → ltb_ℤ (due_at after +ℤ pos 200) at_once ≡ b
          → (not (eqb id q.latest_schedule_id)
              || ltb_ℤ (slot_at after +ℤ pos 200) (pos q.context.current_time))
            ≡ b
      skipped b same = rw (current, v.context) (is_late-shift after l ∙ same)

  log_slot-IsPlacing :
      (id : ℕ) (before : List (K × ℤ)) (slot : Slot K) (q : Player K P)
      → IsPlacing id before q
      → IsPlacing id before (log_slot slot q)
  log_slot-IsPlacing id before slot q v = record {
    context = v.context;
    loaded = v.loaded;
    latest = v.latest;
    sources = v.sources;
  }

  schedule_play-IsPlacing :
      (id : ℕ) (before : List (K × ℤ)) (key : K) (after : ℤ) (q : Player K P)
      → output_latency p.context ≡ late
      → IsPlacing id before q
      → IsPlacing id
          (expect at_once p.loaded (due_at after) key before)
          (schedule_play (record { key = key; at = slot_at after; schedule = id }) q)
  unfolding schedule_play
  schedule_play-IsPlacing id before key after q l v = elim (Bool-cases (contains key p.loaded)) [
    | inl there ↦
        rw (ap (contains key) v.loaded ∙ there, there)
          (start_source-IsPlacing id before key after (log_slot slot_of q) l
            (log_slot-IsPlacing id before slot_of q v))
    | inr missing ↦
        rw (ap (contains key) v.loaded ∙ missing, missing)
          (record {
            context = v.context;
            loaded = v.loaded;
            latest = v.latest;
            sources = v.sources;
          })
  ]
    where
      slot_of : Slot K
      slot_of = record { key = key; at = slot_at after; schedule = id }

  schedule_all-IsPlacing :
      (id : ℕ) (slots : List (K × ℤ)) (before : List (K × ℤ)) (q : Player K P)
      → output_latency p.context ≡ late
      → IsPlacing id before q
      → IsPlacing id
          (expected_all at_once p.loaded (plan.started_at params) slots before)
          (schedule_all (anchor_of plan params p) id slots q)
  unfolding schedule_all expected_all
  schedule_all-IsPlacing id [] before q l v = v
  schedule_all-IsPlacing id ((key, after) ∷ slots) before q l v =
      schedule_all-IsPlacing id slots (expect at_once p.loaded (due_at after) key before)
        (schedule_play (record { key = key; at = slot_at after; schedule = id }) q) l
        (schedule_play-IsPlacing id before key after q l v)

  -- Where the context runs and reports the latency of the device, of 500 ms at most, the sources
  -- that the latest schedule adds to those there were are of its plan's slots that have their buffer
  -- and are at most 200 ms late, the latency counted, and each is heard at the server's time for its
  -- slot, or at once if that is past.
  pub place_heard :
      (id : ℕ)
      → is_running p.context.state ≡ true
      → Reports late p.context
      → late ≤ max_output_latency
      → p.latest_schedule_id ≡ id
      → heard_sources late plan params p (place plan params id p).active_sources
        ≡ expected_all at_once p.loaded
            (plan.started_at params)
            (plan.slots params)
            (heard_sources late plan params p p.active_sources)
  unfolding place
  place_heard id runs reports le latest =
      ap
        (λ (b : Bool).
          heard_sources late plan params p
            (if b
              then schedule_all (anchor_of plan params p) id (plan.slots params) p
              else p).active_sources)
        runs
      ∙ (schedule_all-IsPlacing id (plan.slots params)
          (heard_sources late plan params p p.active_sources) p (reported late p.context reports le)
          (record { context = refl; loaded = refl; latest = latest; sources = refl })).sources
