-- ===== src/Audio/Player.antt =====
-- The Web Audio player that countdownPlayer.js and rallyGroupPlayer.js
-- (web/src/components/Battle) each contain: the context, the decoded buffers, the sources that are
-- set to start, the number of the latest schedule and the schedules that are under way. Times are
-- whole milliseconds. `K` are the keys of the buffers, a language with a voice, and `P` the
-- parameters of a schedule.
pub mod Laws
pub mod Timing
pub mod Silence
pub mod Sync
use wos_sfc.Prelude.{
  ℕ, ◌+◌, min, max, Bool, true, false, not, ◌||◌, Option, none, some, List, [], ◌∷◌, ◌++◌, filter,
  eqb, leb, if◌then◌else◌, Eq, contains, add, nat_eq,
}
use wos_sfc.Prelude.Dict.{Dict, lookup, insert, remove}
use wos_sfc.Prelude.Int.{ℤ, pos, pos_part, ◌+ℤ◌, ◌-ℤ◌, ltb_ℤ}

pub data ContextState : Type 0 where
  running suspended interrupted closed : ContextState

-- The audio context with its clock; a latency that is no finite number is `none`.
pub record Context : Type 0 where
  pub state : ContextState
  pub current_time : ℕ
  pub output_latency : Option ℤ
  pub base_latency : Option ℤ

abbrev pub max_output_latency : ℕ
max_output_latency = 500

abbrev pub pick : Option ℤ → ℕ
pick none = 0
pick (some latency) = pos_part latency

unfoldable pub output_latency : Context → ℕ
output_latency c =
    min (if eqb (pick c.output_latency) 0 then pick c.base_latency else pick c.output_latency)
      max_output_latency

abbrev pub stopped_in : ContextState → Bool
stopped_in running = false
stopped_in suspended = true
stopped_in interrupted = true
stopped_in closed = false

unfoldable pub is_clock_stopped : Context → Bool
is_clock_stopped c = stopped_in c.state

abbrev pub is_running : ContextState → Bool
is_running running = true
is_running _ = false

-- What is to be played, when on the context's clock, and for which schedule.
pub record Slot (K : Type 0) : Type 0 where
  pub key : K
  pub at : ℤ
  pub schedule : ℕ

-- A source: its slot, and the time that was given to `start`.
pub record Source (K : Type 0) : Type 0 where
  pub slot : Slot K
  pub start : ℕ
  pub handle : ℕ

-- What a schedule under way waits for: the buffer of its first slot, or the context to resume.
pub data Stage : Type 0 where
  warming resuming : Stage

pub record Player (K P : Type 0) : Type 0 where
  pub context : Context
  -- `Date.now()`
  pub wall : ℕ
  pub loaded : List K
  -- The slots that wait for their buffer.
  pub waiting : List (Slot K)
  pub active_sources : List (Source K)
  pub next_handle : ℕ
  pub latest_schedule_id : ℕ
  pub pending_schedule : Option P
  pub under_way : Dict ℕ (Stage × P)
  pub schedule_log : List (Slot K)

-- What the player needs of a schedule's parameters: the guards, the start on the server's clock,
-- the offset of that clock, and the slots with their times after the start.
pub record Plan (K P : Type 0) : Type 0 where
  pub is_playable : P → Bool
  pub started_at : P → ℕ
  pub time_offset : P → ℤ
  pub slots : P → List (K × ℤ)

-- The slots that wait for other buffers.
abbrev pub others : {K : Type 0} ⦃e : Eq K⦄ → K → List (Slot K) → List (Slot K)
others ⦃e⦄ key slots = filter (λ slot. not (e.beq key slot.key)) slots

pub data AudioEvent (K P : Type 0) : Type 0 where
  scheduled : P → AudioEvent K P
  stopped : AudioEvent K P
  -- An await of a schedule is over: its buffer or the context is there, or the time is up.
  awaited : ℕ → AudioEvent K P
  loaded_buffer failed_buffer : K → AudioEvent K P
  changed : ContextState → AudioEvent K P
  ended : ℕ → AudioEvent K P
  -- The wall's clock goes on, and the context's if it runs.
  elapsed : ℕ → ℕ → AudioEvent K P

-- The module's variables before the first call, with a context.
abbrev pub new_player : {K P : Type 0} → Context → ℕ → Player K P
new_player context wall = record {
  context = context;
  wall = wall;
  loaded = [];
  waiting = [];
  active_sources = [];
  next_handle = 0;
  latest_schedule_id = 0;
  pending_schedule = none;
  under_way = [];
  schedule_log = [];
}

module _ {K P : Type 0} ⦃e : Eq K⦄ where
  abbrev pub start_at : Slot K → Player K P → Player K P
  start_at slot p = record p {
    active_sources =
        record {
          slot = slot;
          start = max (pos_part slot.at) p.context.current_time;
          handle = p.next_handle;
        }
        ∷ p.active_sources;
    next_handle = p.next_handle + 1;
  }

  -- `startSource` with a buffer: not for an older schedule, and not more than 200 ms late.
  unfoldable pub start_source : Slot K → Player K P → Player K P
  start_source slot p =
      if not (eqb slot.schedule p.latest_schedule_id)
        || ltb_ℤ (slot.at +ℤ pos 200) (pos p.context.current_time)
      then p
      else start_at slot p

  abbrev pub log_slot : Slot K → Player K P → Player K P
  log_slot slot p = record p { schedule_log = p.schedule_log ++ slot ∷ [] }

  abbrev pub wait_for : Slot K → Player K P → Player K P
  wait_for slot p = record p { waiting = p.waiting ++ slot ∷ [] }

  unfoldable pub schedule_play : Slot K → Player K P → Player K P
  unfolding start_source
  schedule_play slot p =
      if contains slot.key p.loaded
      then start_source slot (log_slot slot p)
      else wait_for slot (log_slot slot p)

  -- `stopCountdownAudio`, `stopRallyCountdown`
  unfoldable pub stop : Player K P → Player K P
  stop p = record p {
    latest_schedule_id = p.latest_schedule_id + 1;
    pending_schedule = none;
    active_sources = [];
  }

  -- The loops over the slots, from the anchor.
  unfoldable pub schedule_all : ℤ → ℕ → List (K × ℤ) → Player K P → Player K P
  unfolding schedule_play
  schedule_all anchor id [] p = p
  schedule_all anchor id ((key, after) ∷ slots) p =
      schedule_all anchor id slots
        (schedule_play (record { key = key; at = anchor +ℤ after; schedule = id }) p)

  -- A buffer is there: the slots that wait for it start, in their order.
  unfoldable pub start_waiting : K → List (Slot K) → Player K P → Player K P
  unfolding start_source
  start_waiting key [] p = p
  start_waiting key (slot ∷ slots) p =
      start_waiting key slots (if e.beq key slot.key then start_source slot p else p)

  abbrev pub settle_waiting : K → Player K P → Player K P
  settle_waiting key p = record p { waiting = others key p.waiting }

  unfoldable pub buffer_loaded : K → Player K P → Player K P
  unfolding start_waiting
  buffer_loaded key p =
      start_waiting key p.waiting
        (record p { loaded = add key p.loaded; waiting = others key p.waiting })

  module _ (plan : Plan K P) where
    -- The context's time at the start of the schedule, less the latency.
    abbrev pub anchor_of : P → Player K P → ℤ
    anchor_of params p =
        pos p.context.current_time
        +ℤ (pos (plan.started_at params) -ℤ (pos p.wall +ℤ plan.time_offset params))
        -ℤ pos (output_latency p.context)

    unfoldable pub place : P → ℕ → Player K P → Player K P
    unfolding schedule_all
    place params id p =
        if is_running p.context.state
        then schedule_all (anchor_of params p) id (plan.slots params) p
        else p

    abbrev pub prepare : P → Player K P → Player K P
    prepare params p = record p {
      latest_schedule_id = p.latest_schedule_id + 1;
      pending_schedule = some params;
      under_way = insert (p.latest_schedule_id + 1) (warming, params) p.under_way;
      schedule_log = [];
    }

    -- `scheduleCountdown`, `scheduleRallyCountdown` up to the first await.
    unfoldable pub begin : P → Player K P → Player K P
    unfolding stop
    begin params p = if plan.is_playable params then prepare params (stop p) else p

    abbrev pub resume : ℕ → P → Player K P → Player K P
    resume id params p = record p { under_way = insert id (resuming, params) p.under_way }

    abbrev pub finish : ℕ → Player K P → Player K P
    finish id p = record p { under_way = remove id p.under_way }

    -- What follows an await, once the number is that of the latest schedule.
    abbrev pub go_on_latest : ℕ → Stage → P → Player K P → Player K P
    go_on_latest id warming params p =
        if is_clock_stopped p.context then resume id params p else place params id (finish id p)
    go_on_latest id resuming params p = place params id (finish id p)

    abbrev pub go_on_with : ℕ → Option (Stage × P) → Player K P → Player K P
    go_on_with id none p = p
    go_on_with id (some (stage, params)) p =
        if eqb id p.latest_schedule_id then go_on_latest id stage params p else finish id p

    unfoldable pub go_on : ℕ → Player K P → Player K P
    unfolding place is_clock_stopped
    go_on id p = go_on_with id (lookup id p.under_way) p

    abbrev pub begin_pending : Option P → Player K P → Player K P
    begin_pending none p = p
    begin_pending (some params) p = begin params p

    -- The listener of `statechange`.
    unfoldable pub state_changed : ContextState → Player K P → Player K P
    unfolding begin
    state_changed state p =
        let q = record p { context = record p.context { state = state } } in
        if is_running state then begin_pending p.pending_schedule q else q

    unfoldable pub respond : AudioEvent K P → Player K P → Player K P
    unfolding begin stop go_on buffer_loaded state_changed
    respond (scheduled params) p = begin params p
    respond stopped p = stop p
    respond (awaited id) p = go_on id p
    respond (loaded_buffer key) p = buffer_loaded key p
    respond (failed_buffer key) p = settle_waiting key p
    respond (changed state) p = state_changed state p
    respond (ended handle) p = record p {
      active_sources = filter (λ s. not (eqb handle s.handle)) p.active_sources;
    }
    respond (elapsed wall audio) p = record p {
      wall = p.wall + wall;
      context = record p.context {
        current_time = p.context.current_time + (if is_running p.context.state then audio else 0);
      };
    }

    unfoldable pub respond_all : List (AudioEvent K P) → Player K P → Player K P
    respond_all [] p = p
    respond_all (event ∷ events) p = respond_all events (respond event p)
