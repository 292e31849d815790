-- ===== src/Server/StartExamples.antt =====
-- A countdown at work: starts, a stop, a rally, the timer of the lock, and the probes before a start.
use wos_sfc.Prelude.{
  ℕ, ◌+◌, ◌*◌, ◌≤◌, ◌≡◌, refl, true, none, some, List, [], ◌∷◌, length, max, arith,
}
use wos_sfc.Prelude.Dict.{lookup, insert}
use wos_sfc.Server.Window.{consume, prune}
use wos_sfc.Prelude.Int.{pos, ◌≤ℤ◌}
use wos_sfc.Server.SocketLimit.{check}
use wos_sfc.Server.BusyLock.{countdown, free_lock, try_acquire, reschedule, release}
use wos_sfc.Server.Countdown.{
  idle, countdown_expire, Realtime, RealtimeEvent, start, resumed, failed, stop_asked, timer_due,
  rally_start, respond_realtime, run_realtime, new_realtime, release_at, handle_countdown_start,
  negotiated, negotiation_failed, handle_countdown_stop,
}
use wos_sfc.Server.Countdown.Runs.{GoesOn, run_exclusive, run_ends, run_not_early}
use wos_sfc.Server.Negotiation.{ProbeOutcome, ack, timeout, invalid_ack, negotiate_started_at}
use wos_sfc.Server.Negotiation.Laws.{covered, grace_covers, started_bounded}

-- An administrator starts ten seconds, which begin at 1300, and a rally tries to start.
abbrev one_countdown : List RealtimeEvent
one_countdown =
    start "a" true (some "admin") 100 (some 10)
    ∷ resumed 0 500 1300
    ∷ rally_start "g" 60000 600
    ∷ []

abbrev after_one : Realtime
after_one = run_realtime one_countdown new_realtime

one_active : after_one.current.active ≡ true
unfolding run_realtime respond_realtime handle_countdown_start negotiated try_acquire reschedule
    check consume prune lookup insert
one_active = refl

one_begins : after_one.current.started_at ≡ 1300
unfolding run_realtime respond_realtime handle_countdown_start negotiated try_acquire reschedule
    check consume prune lookup insert
one_begins = refl

one_end : release_at after_one.current ≡ 12300
unfolding run_realtime respond_realtime handle_countdown_start negotiated try_acquire reschedule
    check consume prune lookup insert
one_end = refl

run_exclusive_example :
    (after_one.lock.holder ≡ some countdown)
    × (1 ≤ after_one.current.total_seconds)
    × (after_one.current.total_seconds ≤ 600)
run_exclusive_example = run_exclusive one_countdown (refl, (refl, (refl, tt))) one_active

run_ends_example :
    (due : ℕ) × (after_one.lock.timer ≡ some (due, some countdown_expire))
    × ((respond_realtime (timer_due (max due 12300)) after_one).next.current ≡ idle)
    × ((respond_realtime (timer_due (max due 12300)) after_one).next.lock ≡ free_lock)
run_ends_example =
    run_ends one_countdown 12300 (refl, (refl, (refl, tt))) one_active (omega (arith, one_end))

run_not_early_example : GoesOn after_one (respond_realtime (timer_due 12299) after_one)
run_not_early_example =
    run_not_early one_countdown 12299 (refl, (refl, (refl, tt))) one_active
      (omega (arith, one_begins)) (omega (arith, one_end))

-- A start of ten seconds is stopped while it is negotiated, and one of twenty begins.
abbrev stopped_start : List RealtimeEvent
stopped_start =
    start "a" true (some "admin") 100 (some 10)
    ∷ stop_asked true (some "admin")
    ∷ start "b" true (some "admin") 200 (some 20)
    ∷ []

-- The start that was stopped becomes the countdown, since the lock is held by the other start.
stopped_start_runs :
    (run_realtime
      (resumed 0 300 900 ∷ [])
      (run_realtime stopped_start new_realtime)).current.total_seconds
    ≡ 10
unfolding run_realtime respond_realtime handle_countdown_start handle_countdown_stop negotiated
    try_acquire reschedule release check consume prune lookup insert
stopped_start_runs = refl

-- And if its negotiation throws, the lock of the other countdown is let go.
failed_start_frees :
    (run_realtime
      (resumed 1 300 900 ∷ failed 0 ∷ [])
      (run_realtime stopped_start new_realtime)).lock.holder
    ≡ none
unfolding run_realtime respond_realtime handle_countdown_start handle_countdown_stop negotiated
    negotiation_failed try_acquire reschedule release check consume prune lookup insert
failed_start_frees = refl

abbrev outcomes : List ProbeOutcome
outcomes = ack (pos 40) ∷ timeout ∷ invalid_ack ∷ ack (pos 900) ∷ []

grace_covers_example : 95 * length outcomes ≤ 100 * length (covered outcomes)
grace_covers_example = grace_covers outcomes

started_bounded_example :
    (pos (1000 + 200) ≤ℤ negotiate_started_at 1000 outcomes)
    × (negotiate_started_at 1000 outcomes ≤ℤ pos (1000 + 1200))
started_bounded_example = started_bounded 1000 outcomes (omega arith, (tt, (tt, (omega arith, tt))))
