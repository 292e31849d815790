-- ===== src/Audio/Player/Timing.antt =====
-- What the player starts is of the latest schedule and in time.
use wos_sfc.Prelude.{
  ℕ, ◌+◌, ◌≤◌, ◌≡◌, refl, sym, subst, ◌∙◌, ap, max, Bool, true, false, not, ◌||◌, Option, none,
  some, List, [], ◌∷◌, eqb, eqb_iff, arith, if◌then◌else◌, Eq, nat_eq, contains, add, All,
  All-append, All-filter, Bool-cases, inl, inr, or-eq-false,
}
use wos_sfc.Prelude.Dict.{lookup, All-insert}
use wos_sfc.Prelude.Int.{ℤ, pos, pos_part, ◌+ℤ◌, ◌≤ℤ◌, ltb_ℤ, +ℤ_parts}
use wos_sfc.Audio.Player.Laws.{All-weaken, All-remove}
use wos_sfc.Audio.Player.{
  Context, new_player, is_running, is_clock_stopped, Slot, Source, Stage, warming, resuming, Player,
  Plan, AudioEvent, scheduled, stopped, awaited, loaded_buffer, failed_buffer, changed, ended,
  elapsed, start_source, log_slot, wait_for, schedule_play, stop, schedule_all, start_waiting,
  others, buffer_loaded, anchor_of, place, prepare, begin, resume, finish, go_on_latest, go_on_with,
  go_on, begin_pending, state_changed, respond, respond_all,
}

-- A source starts at its slot's time, or up to 200 ms later.
abbrev pub IsTimely : {K : Type 0} → Source K → Type 0
IsTimely s = (s.slot.at ≤ℤ pos s.start) × (pos s.start ≤ℤ (s.slot.at +ℤ pos 200))

start-IsTimely :
    (at : ℤ) (now : ℕ)
    → ltb_ℤ (at +ℤ pos 200) (pos now) ≡ false
    → (at ≤ℤ pos (max (pos_part at) now)) × (pos (max (pos_part at) now) ≤ℤ (at +ℤ pos 200))
start-IsTimely at now h =
    (ground (arith, +ℤ_parts at (pos 200)), ground (arith, +ℤ_parts at (pos 200)))

module _ {K P : Type 0} where
  record IsInTime (n : ℕ) (p : Player K P) : Type 0 where
    latest : p.latest_schedule_id ≡ n
    waits : All (λ (slot : Slot K). slot.schedule ≤ n) p.waiting
    goes_on : All (λ (w : ℕ × (Stage × P)). w.0 ≤ n) p.under_way
    sources : All (λ (s : Source K). (s.slot.schedule ≡ n) × IsTimely s) p.active_sources

  IsInTime-if :
      (n : ℕ) (b : Bool) (p q : Player K P)
      → IsInTime n p
      → IsInTime n q
      → IsInTime n (if b then p else q)
  IsInTime-if n true p q v w = v
  IsInTime-if n false p q v w = w

module _ {K P : Type 0} ⦃e : Eq K⦄ where
  start_source-IsInTime :
      (n : ℕ) (slot : Slot K) (p : Player K P) → IsInTime n p → IsInTime n (start_source slot p)
  unfolding start_source
  start_source-IsInTime n slot p v =
      elim (Bool-cases (
        not (eqb slot.schedule p.latest_schedule_id)
        || ltb_ℤ (slot.at +ℤ pos 200) (pos p.context.current_time))) [
          | inl skipped ↦ rw skipped v
          | inr due ↦
              let (current, fresh) =
                or-eq-false (not (eqb slot.schedule p.latest_schedule_id))
                  (ltb_ℤ (slot.at +ℤ pos 200) (pos p.context.current_time)) due in
              rw due (record {
                latest = v.latest;
                waits = v.waits;
                goes_on = v.goes_on;
                sources = (
                  (
                    ground (arith, eqb_iff slot.schedule p.latest_schedule_id, v.latest),
                    start-IsTimely slot.at p.context.current_time fresh,
                  ),
                  v.sources,
                );
              })
        ]

  schedule_play-IsInTime :
      (n : ℕ) (slot : Slot K) (p : Player K P)
      → slot.schedule ≤ n
      → IsInTime n p
      → IsInTime n (schedule_play slot p)
  unfolding schedule_play
  schedule_play-IsInTime n slot p h v =
      IsInTime-if n (contains slot.key p.loaded) (start_source slot (log_slot slot p))
        (wait_for slot (log_slot slot p))
        (start_source-IsInTime n slot (log_slot slot p)
          (record { latest = v.latest; waits = v.waits; goes_on = v.goes_on; sources = v.sources }))
        (record {
          latest = v.latest;
          waits = All-append (λ (s : Slot K). s.schedule ≤ n) p.waiting (slot ∷ []) v.waits (h, tt);
          goes_on = v.goes_on;
          sources = v.sources;
        })

  schedule_all-IsInTime :
      (n : ℕ) (anchor : ℤ) (slots : List (K × ℤ)) (p : Player K P)
      → IsInTime n p
      → IsInTime n (schedule_all anchor n slots p)
  unfolding schedule_all
  schedule_all-IsInTime n anchor [] p v = v
  schedule_all-IsInTime n anchor ((key, after) ∷ slots) p v =
      let slot : Slot K = record { key = key; at = anchor +ℤ after; schedule = n } in
      schedule_all-IsInTime n anchor slots (schedule_play slot p)
        (schedule_play-IsInTime n slot p (omega arith) v)

  start_waiting-IsInTime :
      (n : ℕ) (key : K) (slots : List (Slot K)) (p : Player K P)
      → IsInTime n p
      → IsInTime n (start_waiting key slots p)
  unfolding start_waiting
  start_waiting-IsInTime n key [] p v = v
  start_waiting-IsInTime n key (slot ∷ slots) p v =
      start_waiting-IsInTime n key slots (if e.beq key slot.key then start_source slot p else p) (
        IsInTime-if n (e.beq key slot.key) (start_source slot p) p
          (start_source-IsInTime n slot p v) v)

  module _ (plan : Plan K P) where
    place-IsInTime :
        (params : P) (n : ℕ) (p : Player K P) → IsInTime n p → IsInTime n (place plan params n p)
    unfolding place
    place-IsInTime params n p v =
        IsInTime-if n (is_running p.context.state)
          (schedule_all (anchor_of plan params p) n (plan.slots params) p) p
          (schedule_all-IsInTime n (anchor_of plan params p) (plan.slots params) p v) v

    abbrev AnyInTime : Player K P → Type 0
    AnyInTime p = (n : ℕ) × IsInTime n p

    stop-IsInTime : (n : ℕ) (p : Player K P) → IsInTime n p → IsInTime (n + 1) (stop p)
    unfolding stop
    stop-IsInTime n p v = record {
      latest = ap (λ (k : ℕ). k + 1) v.latest;
      waits =
          All-weaken (λ (s : Slot K). s.schedule ≤ n) (λ (s : Slot K). s.schedule ≤ n + 1) p.waiting
            (λ s h. omega (arith, h)) v.waits;
      goes_on =
          All-weaken (λ (w : ℕ × (Stage × P)). w.0 ≤ n) (λ (w : ℕ × (Stage × P)). w.0 ≤ n + 1)
            p.under_way (λ w h. omega (arith, h)) v.goes_on;
      sources = tt;
    }

    -- A stopped player has no sources, so the next schedule may take the next number.
    prepare-IsInTime :
        (params : P) (n : ℕ) (p : Player K P)
        → p.active_sources ≡ []
        → IsInTime n p
        → IsInTime (n + 1) (prepare plan params p)
    prepare-IsInTime params n p silent v = record {
      latest = ap (λ (k : ℕ). k + 1) v.latest;
      waits =
          All-weaken (λ (s : Slot K). s.schedule ≤ n) (λ (s : Slot K). s.schedule ≤ n + 1) p.waiting
            (λ s h. omega (arith, h)) v.waits;
      goes_on =
          All-insert (λ (w : ℕ × (Stage × P)). w.0 ≤ n + 1) (p.latest_schedule_id + 1)
            (warming, params) p.under_way (omega (arith, v.latest))
            (All-weaken (λ (w : ℕ × (Stage × P)). w.0 ≤ n) (λ (w : ℕ × (Stage × P)). w.0 ≤ n + 1)
              p.under_way (λ w h. omega (arith, h)) v.goes_on);
      sources =
          subst (All (λ (s : Source K). (s.slot.schedule ≡ n + 1) × IsTimely s)) (sym silent) tt;
    }

    begin-InTime : (params : P) (p : Player K P) → AnyInTime p → AnyInTime (begin plan params p)
    unfolding begin stop
    begin-InTime params p (n, v) = elim (Bool-cases (plan.is_playable params)) [
      | inl plays ↦
          rw plays (n + 1 + 1, prepare-IsInTime params (n + 1) (stop p) refl (stop-IsInTime n p v))
      | inr refused ↦ rw refused (n, v)
    ]

    finish-IsInTime : (n id : ℕ) (p : Player K P) → IsInTime n p → IsInTime n (finish plan id p)
    finish-IsInTime n id p v = record {
      latest = v.latest;
      waits = v.waits;
      goes_on = All-remove (λ (w : ℕ × (Stage × P)). w.0 ≤ n) id p.under_way v.goes_on;
      sources = v.sources;
    }

    go_on_latest-IsInTime :
        (n : ℕ) (stage : Stage) (params : P) (p : Player K P)
        → IsInTime n p
        → IsInTime n (go_on_latest plan n stage params p)
    go_on_latest-IsInTime n warming params p v =
        IsInTime-if n (is_clock_stopped p.context) (resume plan n params p)
          (place plan params n (finish plan n p))
          (record {
            latest = v.latest;
            waits = v.waits;
            goes_on =
                All-insert (λ (w : ℕ × (Stage × P)). w.0 ≤ n) n (resuming, params) p.under_way
                  (omega arith) v.goes_on;
            sources = v.sources;
          })
          (place-IsInTime params n (finish plan n p) (finish-IsInTime n n p v))
    go_on_latest-IsInTime n resuming params p v =
        place-IsInTime params n (finish plan n p) (finish-IsInTime n n p v)

    go_on_with-IsInTime :
        (n id : ℕ) (found : Option (Stage × P)) (p : Player K P)
        → IsInTime n p
        → IsInTime n (go_on_with plan id found p)
    go_on_with-IsInTime n id none p v = v
    go_on_with-IsInTime n id (some (stage, params)) p v =
        elim (Bool-cases (eqb id p.latest_schedule_id)) [
          | inl current ↦ rw current (
              subst (λ (k : ℕ). IsInTime n (go_on_latest plan k stage params p))
                (sym ((eqb_iff id p.latest_schedule_id).0 current ∙ v.latest))
                (go_on_latest-IsInTime n stage params p v))
          | inr old ↦ rw old (finish-IsInTime n id p v)
        ]

    begin_pending-InTime :
        (pending : Option P) (p : Player K P)
        → AnyInTime p
        → AnyInTime (begin_pending plan pending p)
    begin_pending-InTime none p v = v
    begin_pending-InTime (some params) p v = begin-InTime params p v

    respond-InTime :
        (event : AudioEvent K P) (p : Player K P) → AnyInTime p → AnyInTime (respond plan event p)
    unfolding respond go_on buffer_loaded state_changed
    respond-InTime (scheduled params) p v = begin-InTime params p v
    respond-InTime stopped p (n, v) = (n + 1, stop-IsInTime n p v)
    respond-InTime (awaited id) p (n, v) = (n, go_on_with-IsInTime n id (lookup id p.under_way) p v)
    respond-InTime (loaded_buffer key) p (n, v) = (
      n,
      start_waiting-IsInTime n key p.waiting
          (record p { loaded = add key p.loaded; waiting = others key p.waiting })
          (record {
            latest = v.latest;
            waits = All-filter (λ (s : Slot K). s.schedule ≤ n) _ p.waiting v.waits;
            goes_on = v.goes_on;
            sources = v.sources;
          }),
    )
    respond-InTime (failed_buffer key) p (n, v) = (
      n,
      record {
        latest = v.latest;
        waits = All-filter (λ (s : Slot K). s.schedule ≤ n) _ p.waiting v.waits;
        goes_on = v.goes_on;
        sources = v.sources;
      },
    )
    respond-InTime (changed state) p (n, v) =
        let q : Player K P = record p { context = record p.context { state = state } } in
        let w : IsInTime n q = record {
          latest = v.latest;
          waits = v.waits;
          goes_on = v.goes_on;
          sources = v.sources;
        } in
        elim (Bool-cases (is_running state)) [
          | inl runs ↦ rw runs (begin_pending-InTime p.pending_schedule q (n, w))
          | inr rests ↦ rw rests (n, w)
        ]
    respond-InTime (ended handle) p (n, v) = (
      n,
      record {
        latest = v.latest;
        waits = v.waits;
        goes_on = v.goes_on;
        sources =
            All-filter (λ (s : Source K). (s.slot.schedule ≡ n) × IsTimely s) _ p.active_sources
              v.sources;
      },
    )
    respond-InTime (elapsed wall audio) p (n, v) =
        (n, record { latest = v.latest; waits = v.waits; goes_on = v.goes_on; sources = v.sources })

    respond_all-InTime :
        (events : List (AudioEvent K P)) (p : Player K P)
        → AnyInTime p
        → AnyInTime (respond_all plan events p)
    unfolding respond_all
    respond_all-InTime [] p v = v
    respond_all-InTime (event ∷ events) p v =
        respond_all-InTime events (respond plan event p) (respond-InTime event p v)

    -- Whatever happens, and however late the buffers come: the sources that are set or playing are
    -- all of the latest schedule, and each starts at its slot's time or at most 200 ms after it.
    pub respond_all-IsTimely :
        (context : Context) (wall : ℕ) (events : List (AudioEvent K P))
        → let p = respond_all plan events (new_player context wall) in
          All
            (λ (s : Source K). (s.slot.schedule ≡ p.latest_schedule_id) × IsTimely s)
            p.active_sources
    respond_all-IsTimely context wall events =
        let (n, v) =
          respond_all-InTime events (new_player context wall)
            (0, record { latest = refl; waits = tt; goes_on = tt; sources = tt }) in
        subst
          (λ (k : ℕ).
            All (λ (s : Source K). (s.slot.schedule ≡ k) × IsTimely s)
              (respond_all plan events (new_player context wall)).active_sources)
          (sym v.latest) v.sources

    -- The player's numbers after any run: what waits or is under way is of no later schedule.
    pub respond_all-numbers :
        (context : Context) (wall : ℕ) (events : List (AudioEvent K P))
        → let p = respond_all plan events (new_player context wall) in
          All (λ (slot : Slot K). slot.schedule ≤ p.latest_schedule_id) p.waiting
          × All (λ (w : ℕ × (Stage × P)). w.0 ≤ p.latest_schedule_id) p.under_way
    respond_all-numbers context wall events =
        let (n, v) =
          respond_all-InTime events (new_player context wall)
            (0, record { latest = refl; waits = tt; goes_on = tt; sources = tt }) in
        let p = respond_all plan events (new_player context wall) in
        (
          subst (λ (k : ℕ). All (λ (slot : Slot K). slot.schedule ≤ k) p.waiting) (sym v.latest)
              v.waits,
          subst (λ (k : ℕ). All (λ (w : ℕ × (Stage × P)). w.0 ≤ k) p.under_way) (sym v.latest)
              v.goes_on,
        )
