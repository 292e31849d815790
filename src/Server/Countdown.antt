-- ===== src/Server/Countdown.antt =====
-- The countdown of `RealtimeGateway` (server/src/realtime/realtime.gateway.ts) and the lock that it
-- shares with the rallies.
pub mod Laws
pub mod Runs
use wos_sfc.Prelude.{
  ℕ, zero, suc, ◌+◌, ◌-◌, ◌*◌, String, Bool, true, false, not, ◌&&◌, ◌||◌, Option, none, some, List,
  [], ◌∷◌, ◌++◌, ltb, leb, eqb, is_some, if◌then◌else◌, string_eq, ◌==◌,
}
use wos_sfc.Server.SocketLimit.{Buckets, check}
use wos_sfc.Server.BusyLock.{
  LockHolder, countdown, rally, BusyLock, free_lock, is_held_by, try_acquire, reschedule, release,
  fire,
}

abbrev pub countdown_auto_release_grace_ms : ℕ
countdown_auto_release_grace_ms = 1000

pub record Countdown : Type 0 where
  pub active : Bool
  pub started_at : ℕ
  pub total_seconds : ℕ

abbrev pub idle : Countdown
idle = record { active = false; started_at = 0; total_seconds = 0 }

-- What a timer of the lock calls: `handleCountdownAutoExpire`, or `handleAutoIdle` of a rally group.
pub data AutoRelease : Type 0 where
  countdown_expire : AutoRelease
  rally_idle : String → AutoRelease

pub data CountdownMessage : Type 0 where
  countdown_state : Countdown → CountdownMessage
  busy_state : Option LockHolder → CountdownMessage

pub data CountdownAck : Type 0 where
  started : CountdownAck
  denied : CountdownAck
  invalid_total : CountdownAck
  rate_limit : CountdownAck
  busy : Option LockHolder → CountdownAck

-- `negotiating` holds, in the order of their requests, the totals of the starts that await
-- `negotiateStartedAt`; `limits` is what `WsRateLimitService` keeps.
pub record Realtime : Type 0 where
  pub lock : BusyLock AutoRelease
  pub current : Countdown
  pub negotiating : List ℕ
  pub limits : Buckets

pub record Answer : Type 0 where
  pub next : Realtime
  pub messages : List CountdownMessage
  pub ack : Option CountdownAck

abbrev pub answer_with : Realtime → CountdownAck → Answer
answer_with r ack = record { next = r; messages = []; ack = some ack }

-- The role of the user that was found, if one was.
abbrev pub may_control : Option String → Bool
may_control none = false
may_control (some role) = role == "admin" || role == "developer"

abbrev pub is_valid_total : ℕ → Bool
is_valid_total total = leb 1 total && leb total 600

-- The end of a countdown and a second more.
abbrev pub release_at : Countdown → ℕ
release_at c = c.started_at + c.total_seconds * 1000 + countdown_auto_release_grace_ms

abbrev pub await_negotiation : ℕ → Realtime → BusyLock AutoRelease × Bool → Answer
await_negotiation total r (lock, acquired) =
    if acquired
    then record {
      next = record r { lock = lock; negotiating = r.negotiating ++ total ∷ [] };
      messages = [];
      ack = none;
    }
    else answer_with r (busy r.lock.holder)

abbrev pub acquire_start : ℕ → ℕ → Realtime → Answer
acquire_start now total r = await_negotiation total r (
    try_acquire countdown (some (total * 1000 + countdown_auto_release_grace_ms))
      (some countdown_expire) now r.lock)

abbrev pub limit_start : ℕ → ℕ → Realtime → Buckets × Bool → Answer
limit_start now total r (limits, allowed) =
    let counted = record r { limits = limits } in
    if allowed then acquire_start now total counted else answer_with counted rate_limit

-- `none` is what is no whole number.
abbrev pub check_total : String → ℕ → Option ℕ → Realtime → Answer
check_total client now none r = answer_with r invalid_total
check_total client now (some total) r =
    if is_valid_total total
    then limit_start now total r (check client "countdown:start" 5 60000 now r.limits)
    else answer_with r invalid_total

-- `handleCountdownStart` up to the negotiation, for a client that is still connected or not, with the
-- role of its user.
unfoldable pub handle_countdown_start :
    String → Bool → Option String → ℕ → Option ℕ → Realtime → Answer
handle_countdown_start client connected role now total r =
    if not connected || not (may_control role)
    then answer_with r denied
    else check_total client now total r

-- The start with the number is taken out of those that await.
abbrev pub cons_rest : ℕ → Option (ℕ × List ℕ) → Option (ℕ × List ℕ)
cons_rest t none = none
cons_rest t (some (total, rest)) = some (total, t ∷ rest)

abbrev pub take_at : ℕ → List ℕ → Option (ℕ × List ℕ)
take_at n [] = none
take_at zero (t ∷ ts) = some (t, ts)
take_at (suc n) (t ∷ ts) = cons_rest t (take_at n ts)

abbrev pub hold_until_end : ℕ → Countdown → Realtime → BusyLock AutoRelease × Bool
hold_until_end now c r =
    reschedule countdown (release_at c - now) (some countdown_expire) now r.lock

abbrev pub begin_countdown : ℕ → Countdown → Realtime → Answer
begin_countdown now c r = record {
  next = record r { lock = (hold_until_end now c r).0; current = c };
  messages = countdown_state c ∷ busy_state (hold_until_end now c r).0.holder ∷ [];
  ack = some started;
}

-- The rest of `handleCountdownStart`, at the time `now`, with the time that was negotiated.
unfoldable pub negotiated : ℕ → ℕ → ℕ → Realtime → Answer
negotiated now started_at total r =
    if is_held_by countdown r.lock.holder
    then begin_countdown now
        (record { active = true; started_at = started_at; total_seconds = total }) r
    else answer_with r (busy r.lock.holder)

-- What is left of it when the negotiation throws.
unfoldable pub negotiation_failed : Realtime → Answer
negotiation_failed r = record {
  next = record r { lock = release countdown r.lock };
  messages = busy_state none ∷ [];
  ack = none;
}

abbrev pub is_of_other : Option LockHolder → Bool
is_of_other none = false
is_of_other (some countdown) = false
is_of_other (some (rally _)) = true

unfoldable pub handle_countdown_stop : Bool → Option String → Realtime → Answer
handle_countdown_stop connected role r =
    if not connected || not (may_control role) || is_of_other r.lock.holder
    then answer_with r denied
    else record {
      next = record r { lock = release countdown r.lock; current = idle };
      messages = countdown_state idle ∷ busy_state none ∷ [];
      ack = some started;
    }

-- 0 where the countdown is over or none is active.
abbrev pub countdown_remaining_ms : ℕ → Countdown → ℕ
countdown_remaining_ms now c =
    if not c.active || eqb c.started_at 0 || eqb c.total_seconds 0 then 0 else release_at c - now

abbrev pub expire_unless : Realtime → BusyLock AutoRelease × Bool → Answer
expire_unless r (lock, acquired) =
    if acquired
    then record { next = record r { lock = lock }; messages = []; ack = none }
    else record {
      next = record r { current = idle };
      messages = countdown_state idle ∷ busy_state r.lock.holder ∷ [];
      ack = none;
    }

-- The callback, which finds the lock free.
unfoldable pub handle_countdown_auto_expire : ℕ → Realtime → Answer
handle_countdown_auto_expire now r =
    let remaining = countdown_remaining_ms now r.current in
    expire_unless r (
      if ltb 0 remaining
      then try_acquire countdown (some remaining) (some countdown_expire) now r.lock
      else (r.lock, false))

abbrev pub quiet : Realtime → Answer
quiet r = record { next = r; messages = []; ack = none }

abbrev pub released : ℕ → Option AutoRelease → Realtime → Answer
released now (some countdown_expire) r = handle_countdown_auto_expire now r
released now (some (rally_idle _)) r = quiet r
released now none r = quiet r

abbrev pub call_release : ℕ → Option (Option AutoRelease) → Realtime → Answer
call_release now none r = quiet r
call_release now (some callback) r = released now callback (record r { lock = free_lock })

-- Requests, negotiations that end or throw (by the number of the start), the timer of the lock, and
-- what rallies do to the lock.
pub data RealtimeEvent : Type 0 where
  start : String → Bool → Option String → ℕ → Option ℕ → RealtimeEvent
  resumed : ℕ → ℕ → ℕ → RealtimeEvent
  failed : ℕ → RealtimeEvent
  stop_asked : Bool → Option String → RealtimeEvent
  timer_due : ℕ → RealtimeEvent
  rally_start : String → ℕ → ℕ → RealtimeEvent
  rally_move : String → ℕ → ℕ → RealtimeEvent
  rally_end : String → RealtimeEvent

abbrev pub resume_start : ℕ → ℕ → Option (ℕ × List ℕ) → Realtime → Answer
resume_start now started_at none r = quiet r
resume_start now started_at (some (total, rest)) r =
    negotiated now started_at total (record r { negotiating = rest })

abbrev pub fail_start : Option (ℕ × List ℕ) → Realtime → Answer
fail_start none r = quiet r
fail_start (some (total, rest)) r = negotiation_failed (record r { negotiating = rest })

unfoldable pub respond_realtime : RealtimeEvent → Realtime → Answer
respond_realtime (start client connected role now total) r =
    handle_countdown_start client connected role now total r
respond_realtime (resumed n now started_at) r =
    resume_start now started_at (take_at n r.negotiating) r
respond_realtime (failed n) r = fail_start (take_at n r.negotiating) r
respond_realtime (stop_asked connected role) r = handle_countdown_stop connected role r
respond_realtime (timer_due now) r = call_release now (fire now r.lock) r
respond_realtime (rally_start group ms now) r = quiet (record r {
  lock = (try_acquire (rally group) (some ms) (some (rally_idle group)) now r.lock).0;
})
respond_realtime (rally_move group ms now) r =
    quiet (record r { lock = (reschedule (rally group) ms (some (rally_idle group)) now r.lock).0 })
respond_realtime (rally_end group) r = quiet (record r { lock = release (rally group) r.lock })

unfoldable pub run_realtime : List RealtimeEvent → Realtime → Realtime
run_realtime [] r = r
run_realtime (e ∷ es) r = run_realtime es (respond_realtime e r).next

abbrev pub new_realtime : Realtime
new_realtime = record { lock = free_lock; current = idle; negotiating = []; limits = [] }
