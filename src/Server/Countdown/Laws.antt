-- ===== src/Server/Countdown/Laws.antt =====
-- An active countdown holds the lock, and the lock is let go in the end.
use wos_sfc.Prelude.{
  ℕ, zero, suc, ◌+◌, ◌-◌, ◌*◌, ◌≤◌, ◌≡◌, refl, ap, ◌∙◌, String, Bool, true, false, not, ◌||◌,
  Option, none, some, List, [], ◌∷◌, ltb, string_eq, Bool-cases, inl, inr, arith, All, All-append,
  ltb→lt,
}
use wos_sfc.Server.SocketLimit.{Buckets, check}
use wos_sfc.Server.BusyLock.Laws.{
  IsTimed, try_acquire-IsTimed, reschedule-IsTimed, holder-reschedule, release-IsTimed,
  countdown_kept, held_by→holder, try_acquire_free, holder-try_acquire, set_timer,
}
use wos_sfc.Server.BusyLock.{countdown, rally, BusyLock, free_lock, is_held_by, try_acquire}
use wos_sfc.Server.Countdown.{
  Countdown, AutoRelease, countdown_expire, rally_idle, Realtime, is_valid_total, release_at,
  handle_countdown_start, take_at, negotiated, handle_countdown_stop, countdown_remaining_ms,
  handle_countdown_auto_expire, rally_start, rally_move, rally_end, respond_realtime, is_of_other,
  may_control, check_total, cons_rest, resume_start, countdown_auto_release_grace_ms, limit_start,
  acquire_start, await_negotiation,
}

abbrev pub IsFair : ℕ → Type 0
IsFair total = is_valid_total total ≡ true

pub record IsHeld (r : Realtime) : Type 0 where
  -- An active countdown holds the lock, and lasts from 1 to 600 seconds.
  pub held : r.current.active ≡ true → r.lock.holder ≡ some countdown
  pub fair : r.current.active ≡ true → IsFair r.current.total_seconds
  pub timed : IsTimed countdown_expire r.lock
  pub all_fair : All IsFair r.negotiating

pub fair_part : (total : ℕ) → IsFair total → (1 ≤ total) × (total ≤ 600)
fair_part total h = (ground (arith, h), ground (arith, h))

await-IsHeld :
    (total : ℕ) (r : Realtime) (p : BusyLock AutoRelease × Bool)
    → IsFair total
    → IsTimed countdown_expire p.0
    → (p.1 ≡ true → p.0.holder ≡ some countdown)
    → IsHeld r
    → IsHeld (await_negotiation total r p).next
await-IsHeld total r (lock, true) fair timed own h = record {
  held = λ active. own refl;
  fair = h.fair;
  timed = timed;
  all_fair = All-append IsFair r.negotiating (total ∷ []) h.all_fair (fair, tt);
}
await-IsHeld total r (lock, false) fair timed own h = h

acquire_start-IsHeld :
    (now total : ℕ) (r : Realtime)
    → IsFair total
    → IsHeld r
    → IsHeld (acquire_start now total r).next
acquire_start-IsHeld now total r fair h =
    let ms = total * 1000 + countdown_auto_release_grace_ms in
    await-IsHeld total r (try_acquire countdown (some ms) (some countdown_expire) now r.lock) fair
      (try_acquire-IsTimed countdown_expire countdown ms now countdown_expire r.lock
        (λ own. (omega arith, refl)) h.timed)
      (holder-try_acquire countdown (some ms) (some countdown_expire) now r.lock) h

limit_start-IsHeld :
    (now total : ℕ) (r : Realtime) (p : Buckets × Bool)
    → IsFair total
    → IsHeld r
    → IsHeld (limit_start now total r p).next
limit_start-IsHeld now total r (limits, true) fair h =
    acquire_start-IsHeld now total (record r { limits = limits }) fair
      (record { held = h.held; fair = h.fair; timed = h.timed; all_fair = h.all_fair })
limit_start-IsHeld now total r (limits, false) fair h = record {
  held = h.held;
  fair = h.fair;
  timed = h.timed;
  all_fair = h.all_fair;
}

check_total-IsHeld :
    (client : String) (now : ℕ) (total : Option ℕ) (r : Realtime)
    → IsHeld r
    → IsHeld (check_total client now total r).next
check_total-IsHeld client now none r h = h
check_total-IsHeld client now (some total) r h = elim (Bool-cases (is_valid_total total)) [
  | inl fair ↦
      rw fair (
        limit_start-IsHeld now total r (check client "countdown:start" 5 60000 now r.limits) fair h)
  | inr bad ↦ rw bad h
]

pub start-IsHeld :
    (client : String) (connected : Bool) (role : Option String) (now : ℕ) (total : Option ℕ)
    (r : Realtime)
    → IsHeld r
    → IsHeld (handle_countdown_start client connected role now total r).next
unfolding handle_countdown_start
start-IsHeld client connected role now total r h =
    elim (Bool-cases (not connected || not (may_control role))) [
      | inl kept ↦ rw kept h
      | inr may ↦ rw may (check_total-IsHeld client now total r h)
    ]

pub rally_start-IsHeld :
    (group : String) (ms now : ℕ) (r : Realtime)
    → IsHeld r
    → IsHeld (respond_realtime (rally_start group ms now) r).next
unfolding respond_realtime
rally_start-IsHeld group ms now r h = record {
  held = λ active.
      (countdown_kept group (some ms) (some (rally_idle group)) now r.lock (h.held active)).0;
  fair = h.fair;
  timed =
      try_acquire-IsTimed countdown_expire (rally group) ms now (rally_idle group) r.lock
        (λ is. absurd (cc)) h.timed;
  all_fair = h.all_fair;
}

pub rally_move-IsHeld :
    (group : String) (ms now : ℕ) (r : Realtime)
    → IsHeld r
    → IsHeld (respond_realtime (rally_move group ms now) r).next
unfolding respond_realtime
rally_move-IsHeld group ms now r h = record {
  held = λ active.
      holder-reschedule (rally group) ms now (some (rally_idle group)) r.lock ∙ h.held active;
  fair = h.fair;
  timed =
      reschedule-IsTimed countdown_expire (rally group) ms now (rally_idle group) r.lock
        (λ is. absurd (cc)) h.timed;
  all_fair = h.all_fair;
}

pub rally_end-IsHeld :
    (group : String) (r : Realtime) → IsHeld r → IsHeld (respond_realtime (rally_end group) r).next
unfolding respond_realtime
rally_end-IsHeld group r h = record {
  held = λ active. (countdown_kept group none none 0 r.lock (h.held active)).1;
  fair = h.fair;
  timed = release-IsTimed countdown_expire (rally group) r.lock h.timed;
  all_fair = h.all_fair;
}

pub stop_asked-IsHeld :
    (connected : Bool) (role : Option String) (r : Realtime)
    → IsHeld r
    → IsHeld (handle_countdown_stop connected role r).next
unfolding handle_countdown_stop
stop_asked-IsHeld connected role r h =
    elim (Bool-cases (not connected || not (may_control role) || is_of_other r.lock.holder)) [
      | inl kept ↦ rw kept h
      | inr may ↦ rw may (record {
        held = λ active. absurd (cc);
        fair = λ active. absurd (cc);
        timed = release-IsTimed countdown_expire countdown r.lock h.timed;
        all_fair = h.all_fair;
      })
    ]

negotiated-IsHeld :
    (now started_at total : ℕ) (r : Realtime)
    → IsFair total
    → IsHeld r
    → IsHeld (negotiated now started_at total r).next
unfolding negotiated
negotiated-IsHeld now started_at total r fair h =
    elim (Bool-cases (is_held_by countdown r.lock.holder)) [
      | inl own ↦
          let c : Countdown = record {
            active = true;
            started_at = started_at;
            total_seconds = total;
          } in
          rw own (record {
            held = λ active.
                holder-reschedule countdown (release_at c - now) now (some countdown_expire) r.lock
                ∙ held_by→holder countdown r.lock.holder own;
            fair = λ active. fair;
            timed =
                reschedule-IsTimed countdown_expire countdown (release_at c - now) now
                  countdown_expire r.lock (λ is. refl) h.timed;
            all_fair = h.all_fair;
          })
      | inr other ↦ rw other h
    ]

-- The callback finds the lock free.
pub expire-IsHeld :
    (now : ℕ) (r : Realtime)
    → r.lock ≡ free_lock
    → (r.current.active ≡ true → IsFair r.current.total_seconds)
    → All IsFair r.negotiating
    → IsHeld (handle_countdown_auto_expire now r).next
unfolding handle_countdown_auto_expire
expire-IsHeld now r free fair all_fair =
    let remaining = countdown_remaining_ms now r.current in
    elim (Bool-cases (ltb 0 remaining)) [
      | inl more ↦
          let own =
            try_acquire_free countdown (some remaining) (some countdown_expire) now r.lock
              (ap (λ (l : BusyLock AutoRelease). l.holder) free) in
          rw (more, own)
            (record {
              held = λ active. refl;
              fair = fair;
              timed = (
                λ is. (
                  now + remaining,
                  set_timer remaining now countdown_expire r.lock.timer (ltb→lt 0 remaining more),
                ),
                λ none_held. absurd (cc),
              );
              all_fair = all_fair;
            })
      | inr over ↦ rw over (record {
        held = λ active. absurd (cc);
        fair = λ active. absurd (cc);
        timed = (
          λ is. absurd (cc (free, is)),
          λ none_held. ap (λ (l : BusyLock AutoRelease). l.timer) free,
        );
        all_fair = all_fair;
      })
    ]

abbrev AreFair : Option (ℕ × List ℕ) → Type 0
AreFair none = Unit
AreFair (some (total, rest)) = IsFair total × All IsFair rest

cons_rest-AreFair :
    (t : ℕ) (o : Option (ℕ × List ℕ)) → IsFair t → AreFair o → AreFair (cons_rest t o)
cons_rest-AreFair t none fair a = tt
cons_rest-AreFair t (some (total, rest)) fair (first, a) = (first, (fair, a))

pub take_at-AreFair : (n : ℕ) (ts : List ℕ) → All IsFair ts → AreFair (take_at n ts)
take_at-AreFair n [] a = tt
take_at-AreFair zero (t ∷ ts) (fair, a) = (fair, a)
take_at-AreFair (suc n) (t ∷ ts) (fair, a) =
    cons_rest-AreFair t (take_at n ts) fair (take_at-AreFair n ts a)

pub resume_start-IsHeld :
    (now started_at : ℕ) (o : Option (ℕ × List ℕ)) (r : Realtime)
    → AreFair o
    → IsHeld r
    → IsHeld (resume_start now started_at o r).next
resume_start-IsHeld now started_at none r a h = h
resume_start-IsHeld now started_at (some (total, rest)) r (fair, a) h =
    negotiated-IsHeld now started_at total (record r { negotiating = rest }) fair
      (record { held = h.held; fair = h.fair; timed = h.timed; all_fair = a })
