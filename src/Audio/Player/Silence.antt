-- ===== src/Audio/Player/Silence.antt =====
-- A player that was stopped starts nothing of what was under way.
use wos_sfc.Prelude.{
  ℕ, ◌+◌, ◌≤◌, ◌<◌, ◌≡◌, refl, ap, Bool, true, false, not, Option, none, some, List, [], ◌∷◌,
  filter, eqb, eqb_iff, arith, if◌then◌else◌, Eq, nat_eq, add, All, All-filter, Bool-cases, inl,
  inr,
}
use wos_sfc.Prelude.Dict.{lookup, All-lookup}
use wos_sfc.Audio.Player.Timing.{respond_all-numbers}
use wos_sfc.Audio.Player.Laws.{All-weaken, All-remove}
use wos_sfc.Audio.Player.{
  Context, new_player, is_running, Slot, Stage, Player, Plan, AudioEvent, scheduled, stopped,
  awaited, loaded_buffer, failed_buffer, changed, ended, elapsed, start_source, stop, start_waiting,
  others, buffer_loaded, go_on_with, go_on, begin_pending, state_changed, respond, respond_all,
}

module _ {K P : Type 0} where
  -- What is left of a schedule that was stopped is all of an older number.
  record IsQuiet (p : Player K P) : Type 0 where
    none_pending : p.pending_schedule ≡ none
    none_active : p.active_sources ≡ []
    old_waiting : All (λ (slot : Slot K). slot.schedule < p.latest_schedule_id) p.waiting
    old_under_way : All (λ (w : ℕ × (Stage × P)). w.0 < p.latest_schedule_id) p.under_way

  IsQuiet-if : (b : Bool) (p q : Player K P) → IsQuiet p → IsQuiet q → IsQuiet (if b then p else q)
  IsQuiet-if true p q v w = v
  IsQuiet-if false p q v w = w

-- Anything but a new schedule.
abbrev pub IsNoStart : {K P : Type 0} → AudioEvent K P → Type 0
IsNoStart (scheduled _) = ⊥
IsNoStart _ = Unit

module _ {K P : Type 0} ⦃e : Eq K⦄ where
  start_source_old :
      (slot : Slot K) (p : Player K P)
      → slot.schedule < p.latest_schedule_id
      → start_source slot p ≡ p
  unfolding start_source
  start_source_old slot p h = ground (arith, eqb_iff slot.schedule p.latest_schedule_id)

  start_waiting-IsQuiet :
      (key : K) (slots : List (Slot K)) (p : Player K P)
      → All (λ (s : Slot K). s.schedule < p.latest_schedule_id) slots
      → IsQuiet p
      → IsQuiet (start_waiting key slots p)
  unfolding start_waiting
  start_waiting-IsQuiet key [] p h v = v
  start_waiting-IsQuiet key (slot ∷ slots) p (old, h) v = elim (Bool-cases (e.beq key slot.key)) [
    | inl same ↦ rw (same, start_source_old slot p old) (start_waiting-IsQuiet key slots p h v)
    | inr other ↦ rw other (start_waiting-IsQuiet key slots p h v)
  ]

  module _ (plan : Plan K P) where
    stop-IsQuiet :
        (p : Player K P)
        → All (λ (slot : Slot K). slot.schedule ≤ p.latest_schedule_id) p.waiting
        → All (λ (w : ℕ × (Stage × P)). w.0 ≤ p.latest_schedule_id) p.under_way
        → IsQuiet (stop p)
    unfolding stop
    stop-IsQuiet p waits goes_on = record {
      none_pending = refl;
      none_active = refl;
      old_waiting =
          All-weaken (λ (s : Slot K). s.schedule ≤ p.latest_schedule_id)
            (λ (s : Slot K). s.schedule < p.latest_schedule_id + 1) p.waiting
            (λ s h. omega (arith, h)) waits;
      old_under_way =
          All-weaken (λ (w : ℕ × (Stage × P)). w.0 ≤ p.latest_schedule_id)
            (λ (w : ℕ × (Stage × P)). w.0 < p.latest_schedule_id + 1) p.under_way
            (λ w h. omega (arith, h)) goes_on;
    }

    restop-IsQuiet : (p : Player K P) → IsQuiet p → IsQuiet (stop p)
    restop-IsQuiet p v =
        stop-IsQuiet p
          (All-weaken (λ (s : Slot K). s.schedule < p.latest_schedule_id)
            (λ (s : Slot K). s.schedule ≤ p.latest_schedule_id) p.waiting (λ s h. omega (arith, h))
            v.old_waiting)
          (All-weaken (λ (w : ℕ × (Stage × P)). w.0 < p.latest_schedule_id)
            (λ (w : ℕ × (Stage × P)). w.0 ≤ p.latest_schedule_id) p.under_way
            (λ w h. omega (arith, h)) v.old_under_way)

    go_on_with-IsQuiet :
        (id : ℕ) (found : Option (Stage × P)) (p : Player K P)
        → lookup id p.under_way ≡ found
        → IsQuiet p
        → IsQuiet (go_on_with plan id found p)
    go_on_with-IsQuiet id none p is v = v
    go_on_with-IsQuiet id (some (stage, params)) p is v =
        let old : id < p.latest_schedule_id =
          All-lookup (λ (w : ℕ × (Stage × P)). w.0 < p.latest_schedule_id) id p.under_way
            v.old_under_way is in
        let different : eqb id p.latest_schedule_id ≡ false = ground (arith, old) in
        rw different (record {
          none_pending = v.none_pending;
          none_active = v.none_active;
          old_waiting = v.old_waiting;
          old_under_way =
              All-remove (λ (w : ℕ × (Stage × P)). w.0 < p.latest_schedule_id) id p.under_way
                v.old_under_way;
        })

    begin_pending-IsQuiet :
        (pending : Option P) (p : Player K P)
        → pending ≡ none
        → IsQuiet p
        → IsQuiet (begin_pending plan pending p)
    begin_pending-IsQuiet none p is v = v
    begin_pending-IsQuiet (some params) p is v = cc

    respond-IsQuiet :
        (event : AudioEvent K P) (p : Player K P)
        → IsNoStart event
        → IsQuiet p
        → IsQuiet (respond plan event p)
    unfolding respond go_on buffer_loaded state_changed
    respond-IsQuiet (scheduled params) p h v = elim h [ ]
    respond-IsQuiet stopped p h v = restop-IsQuiet p v
    respond-IsQuiet (awaited id) p h v = go_on_with-IsQuiet id (lookup id p.under_way) p refl v
    respond-IsQuiet (loaded_buffer key) p h v =
        start_waiting-IsQuiet key p.waiting
          (record p { loaded = add key p.loaded; waiting = others key p.waiting }) v.old_waiting
          (record {
            none_pending = v.none_pending;
            none_active = v.none_active;
            old_waiting =
                All-filter (λ (s : Slot K). s.schedule < p.latest_schedule_id) _ p.waiting
                  v.old_waiting;
            old_under_way = v.old_under_way;
          })
    respond-IsQuiet (failed_buffer key) p h v = record {
      none_pending = v.none_pending;
      none_active = v.none_active;
      old_waiting =
          All-filter (λ (s : Slot K). s.schedule < p.latest_schedule_id) _ p.waiting v.old_waiting;
      old_under_way = v.old_under_way;
    }
    respond-IsQuiet (changed state) p h v =
        let q : Player K P = record p { context = record p.context { state = state } } in
        let w : IsQuiet q = record {
          none_pending = v.none_pending;
          none_active = v.none_active;
          old_waiting = v.old_waiting;
          old_under_way = v.old_under_way;
        } in
        IsQuiet-if (is_running state) (begin_pending plan p.pending_schedule q) q
          (begin_pending-IsQuiet p.pending_schedule q v.none_pending w) w
    respond-IsQuiet (ended handle) p h v = record {
      none_pending = v.none_pending;
      none_active = ap (filter (λ s. not (eqb handle s.handle))) v.none_active;
      old_waiting = v.old_waiting;
      old_under_way = v.old_under_way;
    }
    respond-IsQuiet (elapsed wall audio) p h v = record {
      none_pending = v.none_pending;
      none_active = v.none_active;
      old_waiting = v.old_waiting;
      old_under_way = v.old_under_way;
    }

    respond_all-IsQuiet :
        (events : List (AudioEvent K P)) (p : Player K P)
        → All IsNoStart events
        → IsQuiet p
        → IsQuiet (respond_all plan events p)
    unfolding respond_all
    respond_all-IsQuiet [] p h v = v
    respond_all-IsQuiet (event ∷ events) p (h, hs) v =
        respond_all-IsQuiet events (respond plan event p) hs (respond-IsQuiet event p h v)

    -- After `stop`, at any point of any run, no source is set or playing until something is
    -- scheduled anew: late buffers, awaits that end and a context that resumes bring nothing back.
    pub stopped_silent :
        (context : Context) (wall : ℕ) (events later : List (AudioEvent K P))
        → All IsNoStart later
        → let p =
            respond_all plan later (stop (respond_all plan events (new_player context wall))) in
          (p.active_sources ≡ []) × (p.pending_schedule ≡ none)
    stopped_silent context wall events later h =
        let p = respond_all plan events (new_player context wall) in
        let (waits, goes_on) = respond_all-numbers plan context wall events in
        let v = respond_all-IsQuiet later (stop p) h (stop-IsQuiet p waits goes_on) in
        (v.none_active, v.none_pending)
