-- ===== src/Server/Countdown/Runs.antt =====
-- Runs of the countdown: the lock excludes rallies, and its timer ends a countdown, but not early.
use wos_sfc.Prelude.{
  ℕ, ◌≤◌, ◌<◌, ◌≡◌, refl, ap, ◌∙◌, Bool, true, false, Option, none, some, List, [], ◌∷◌, ltb, leb,
  max, Bool-cases, inl, inr, arith, All, le→leb,
}
use wos_sfc.Server.BusyLock.Laws.{try_acquire_free, fire_due, fire_early}
use wos_sfc.Server.BusyLock.{countdown, BusyLock, free_lock, release_timer, try_acquire, fire}
use wos_sfc.Server.Countdown.{
  Countdown, idle, AutoRelease, countdown_expire, rally_idle, Realtime, Answer, release_at,
  countdown_remaining_ms, handle_countdown_auto_expire, RealtimeEvent, start, resumed, failed,
  stop_asked, timer_due, rally_start, rally_move, rally_end, respond_realtime, run_realtime,
  new_realtime, call_release, released,
}
use wos_sfc.Server.Countdown.Laws.{
  fair_part, IsHeld, start-IsHeld, rally_start-IsHeld, rally_move-IsHeld, rally_end-IsHeld,
  stop_asked-IsHeld, expire-IsHeld, take_at-AreFair, resume_start-IsHeld,
}

-- A negotiation that throws; those of `ReadyNegotiationService` do not.
abbrev pub is_failure : RealtimeEvent → Bool
is_failure (failed _) = true
is_failure _ = false

abbrev pub IsSmooth : RealtimeEvent → Type 0
IsSmooth e = is_failure e ≡ false

-- The timer of a countdown calls nothing but its end.
fire_countdown :
    (now : ℕ) (r : Realtime) (callback : Option AutoRelease)
    → IsHeld r
    → r.current.active ≡ true
    → fire now r.lock ≡ some callback
    → callback ≡ some countdown_expire
fire_countdown now r callback h active fired =
    let (due, set) = h.timed.0 (h.held active) in
    elim (Bool-cases (leb due now)) [
      | inl time ↦ cc (fired, fire_due due now countdown_expire r.lock set time)
      | inr early ↦ absurd (cc (fired, fire_early due now countdown_expire r.lock set early))
    ]

released-IsHeld :
    (now : ℕ) (callback : Option AutoRelease) (r : Realtime)
    → IsHeld r
    → fire now r.lock ≡ some callback
    → IsHeld (released now callback (record r { lock = free_lock })).next
released-IsHeld now (some countdown_expire) r h fired =
    expire-IsHeld now (record r { lock = free_lock }) refl h.fair h.all_fair
released-IsHeld now (some (rally_idle group)) r h fired = record {
  held = λ active. absurd (cc (fire_countdown now r (some (rally_idle group)) h active fired));
  fair = h.fair;
  timed = (λ is. absurd (cc), λ free. refl);
  all_fair = h.all_fair;
}
released-IsHeld now none r h fired = record {
  held = λ active. absurd (cc (fire_countdown now r none h active fired));
  fair = h.fair;
  timed = (λ is. absurd (cc), λ free. refl);
  all_fair = h.all_fair;
}

call_release-IsHeld :
    (now : ℕ) (r : Realtime) → IsHeld r → IsHeld (call_release now (fire now r.lock) r).next
call_release-IsHeld now r h = called (fire now r.lock) refl
  where
    called :
        (fired : Option (Option AutoRelease))
        → fire now r.lock ≡ fired
        → IsHeld (call_release now fired r).next
    called none is = h
    called (some callback) is = released-IsHeld now callback r h is

respond_realtime-IsHeld :
    (e : RealtimeEvent) (r : Realtime) → IsSmooth e → IsHeld r → IsHeld (respond_realtime e r).next
unfolding respond_realtime
respond_realtime-IsHeld (start client connected role now total) r smooth h =
    start-IsHeld client connected role now total r h
respond_realtime-IsHeld (resumed n now started_at) r smooth h =
    resume_start-IsHeld now started_at _ r (take_at-AreFair n r.negotiating h.all_fair) h
respond_realtime-IsHeld (failed n) r smooth h = absurd (cc)
respond_realtime-IsHeld (stop_asked connected role) r smooth h =
    stop_asked-IsHeld connected role r h
respond_realtime-IsHeld (timer_due now) r smooth h = call_release-IsHeld now r h
respond_realtime-IsHeld (rally_start group ms now) r smooth h = rally_start-IsHeld group ms now r h
respond_realtime-IsHeld (rally_move group ms now) r smooth h = rally_move-IsHeld group ms now r h
respond_realtime-IsHeld (rally_end group) r smooth h = rally_end-IsHeld group r h

run_from :
    (es : List RealtimeEvent) (r : Realtime)
    → All IsSmooth es
    → IsHeld r
    → IsHeld (run_realtime es r)
unfolding run_realtime
run_from [] r smooth h = h
run_from (e ∷ es) r (smooth, rest) h =
    run_from es (respond_realtime e r).next rest (respond_realtime-IsHeld e r smooth h)

run_realtime-IsHeld :
    (es : List RealtimeEvent) → All IsSmooth es → IsHeld (run_realtime es new_realtime)
run_realtime-IsHeld es smooth = run_from es new_realtime smooth (record {
  held = λ active. absurd (cc);
  fair = λ active. absurd (cc);
  timed = (λ is. absurd (cc), λ free. refl);
  all_fair = tt;
})

-- In whatever order starts, negotiations, stops, the timer and rallies come, as long as no
-- negotiation throws: while a countdown is active it holds the lock, so that no rally does, and it
-- lasts from 1 to 600 seconds.
pub run_exclusive :
    (es : List RealtimeEvent)
    → All IsSmooth es
    → (run_realtime es new_realtime).current.active ≡ true
    → ((run_realtime es new_realtime).lock.holder ≡ some countdown)
      × (1 ≤ (run_realtime es new_realtime).current.total_seconds)
      × ((run_realtime es new_realtime).current.total_seconds ≤ 600)
run_exclusive es smooth active =
    let h = run_realtime-IsHeld es smooth in
    let (long, short) =
      fair_part (run_realtime es new_realtime).current.total_seconds (h.fair active) in
    (h.held active, long, short)

remaining_over :
    (now : ℕ) (c : Countdown) → release_at c ≤ now → ltb 0 (countdown_remaining_ms now c) ≡ false
remaining_over now c over = ground (arith, over)

expire_over :
    (now : ℕ) (r : Realtime)
    → release_at r.current ≤ now
    → ((handle_countdown_auto_expire now r).next.current ≡ idle)
      × ((handle_countdown_auto_expire now r).next.lock ≡ r.lock)
unfolding handle_countdown_auto_expire
expire_over now r over = rw (remaining_over now r.current over) (refl, refl)

timer-released :
    (now due : ℕ) (r : Realtime)
    → r.lock.timer ≡ some (due, some countdown_expire)
    → due ≤ now
    → respond_realtime (timer_due now) r
      ≡ handle_countdown_auto_expire now (record r { lock = free_lock })
unfolding respond_realtime
timer-released now due r set time =
    ap (λ fired. call_release now fired r)
      (fire_due due now countdown_expire r.lock set (le→leb due now time))

-- As long as no negotiation throws: while a countdown is active the lock has a timer, and when this
-- comes due, a second after the end of the countdown or later, the countdown is over and the lock is
-- free.
pub run_ends :
    (es : List RealtimeEvent) (now : ℕ)
    → All IsSmooth es
    → (run_realtime es new_realtime).current.active ≡ true
    → release_at (run_realtime es new_realtime).current ≤ now
    → (due : ℕ) × ((run_realtime es new_realtime).lock.timer ≡ some (due, some countdown_expire))
      × ((respond_realtime (timer_due (max due now)) (run_realtime es new_realtime)).next.current
          ≡ idle)
      × ((respond_realtime (timer_due (max due now)) (run_realtime es new_realtime)).next.lock
          ≡ free_lock)
run_ends es now smooth active over =
    let r = run_realtime es new_realtime in
    let h = run_realtime-IsHeld es smooth in
    let (due, set) = h.timed.0 (h.held active) in
    let step = timer-released (max due now) due r set (omega arith) in
    let (done, free) =
      expire_over (max due now) (record r { lock = free_lock }) (omega (arith, over)) in
    (
      due,
      set,
      ap (λ (a : Answer). a.next.current) step ∙ done,
      ap (λ (a : Answer). a.next.lock) step ∙ free,
    )

remaining_more :
    (now : ℕ) (c : Countdown)
    → c.active ≡ true
    → 0 < c.started_at
    → 1 ≤ c.total_seconds
    → now < release_at c
    → ltb 0 (countdown_remaining_ms now c) ≡ true
remaining_more now c active begun long before = ground (arith, active, begun, long, before)

-- Nothing changes but who the timer is for, and nothing is sent.
abbrev pub GoesOn : Realtime → Answer → Type 0
GoesOn r a =
    (a.next.current ≡ r.current) × (a.next.lock.holder ≡ some countdown) × (a.messages ≡ [])

expire_early :
    (now : ℕ) (r : Realtime)
    → r.lock ≡ free_lock
    → ltb 0 (countdown_remaining_ms now r.current) ≡ true
    → GoesOn r (handle_countdown_auto_expire now r)
unfolding handle_countdown_auto_expire
expire_early now r free more = rw (more, taken free) (refl, refl, refl)
  where
    taken :
        r.lock ≡ free_lock
        → try_acquire countdown
            (some (countdown_remaining_ms now r.current))
            (some countdown_expire)
            now
            r.lock
          ≡ (
            record {
              holder = some countdown;
              timer =
                  release_timer now
                    (some (countdown_remaining_ms now r.current))
                    (some countdown_expire)
                    r.lock.timer;
            },
            true,
          )
    taken free =
        try_acquire_free countdown (some (countdown_remaining_ms now r.current))
          (some countdown_expire) now r.lock (ap (λ (l : BusyLock AutoRelease). l.holder) free)

-- As long as no negotiation throws: when the timer of the lock comes before a second after the end
-- of an active countdown, which began after time 0, the countdown goes on, holds the lock, and nothing
-- is sent to anyone.
pub run_not_early :
    (es : List RealtimeEvent) (now : ℕ)
    → All IsSmooth es
    → (run_realtime es new_realtime).current.active ≡ true
    → 0 < (run_realtime es new_realtime).current.started_at
    → now < release_at (run_realtime es new_realtime).current
    → GoesOn
        (run_realtime es new_realtime)
        (respond_realtime (timer_due now) (run_realtime es new_realtime))
unfolding respond_realtime
run_not_early es now smooth active begun before =
    let r = run_realtime es new_realtime in
    let h = run_realtime-IsHeld es smooth in
    let (due, set) = h.timed.0 (h.held active) in
    let (long, _) = fair_part r.current.total_seconds (h.fair active) in
    elim (Bool-cases (leb due now)) [
      | inl time ↦ rw (fire_due due now countdown_expire r.lock set time) (
          expire_early now (record r { lock = free_lock }) refl
            (remaining_more now r.current active begun long before))
      | inr early ↦
          rw (fire_early due now countdown_expire r.lock set early) (refl, h.held active, refl)
    ]
