-- ===== src/Server/BusyLock.antt =====
-- `BusyLockService` (server/src/realtime/busy-lock.service.ts): the one lock that a countdown or a
-- rally holds while its voices play. A callback of the timer is a value of any type.
pub mod Laws
use wos_sfc.Prelude.{
  ℕ, ◌+◌, String, Bool, true, false, not, ◌||◌, Option, none, some, ltb, leb, eqb, is_some,
  if◌then◌else◌, string_eq, ◌==◌,
}

pub data LockHolder : Type 0 where
  countdown : LockHolder
  rally : String → LockHolder

-- The timer is when it is due, and its callback.
pub record BusyLock (C : Type 0) : Type 0 where
  pub holder : Option LockHolder
  pub timer : Option (ℕ × Option C)

abbrev pub free_lock : {C : Type 0} → BusyLock C
free_lock = record { holder = none; timer = none }

abbrev pub matches : LockHolder → LockHolder → Bool
matches countdown countdown = true
matches (rally a) (rally b) = a == b
matches _ _ = false

abbrev pub is_held_by : LockHolder → Option LockHolder → Bool
is_held_by h none = false
is_held_by h (some held) = matches held h

module _ {C : Type 0} where
  -- `none` and 0 set no timer, and leave the one there is.
  abbrev pub release_timer : ℕ → Option ℕ → Option C → Option (ℕ × Option C) → Option (ℕ × Option C)
  release_timer now none on_release timer = timer
  release_timer now (some ms) on_release timer =
      if ltb 0 ms then some (now + ms, on_release) else timer

  unfoldable pub try_acquire : LockHolder → Option ℕ → Option C → ℕ → BusyLock C → BusyLock C × Bool
  try_acquire h ms on_release now lock =
      if is_some lock.holder
      then (lock, false)
      else (record { holder = some h; timer = release_timer now ms on_release lock.timer }, true)

  -- A duration that is not above 0 is 0 here.
  unfoldable pub reschedule : LockHolder → ℕ → Option C → ℕ → BusyLock C → BusyLock C × Bool
  reschedule h ms on_release now lock =
      if not (is_held_by h lock.holder) || leb ms 0
      then (lock, false)
      else (record lock { timer = some (now + ms, on_release) }, true)

  unfoldable pub release : LockHolder → BusyLock C → BusyLock C
  release h lock = if is_held_by h lock.holder then record { holder = none; timer = none } else lock

  abbrev pub due_now : ℕ → Option (ℕ × Option C) → Option (Option C)
  due_now now none = none
  due_now now (some (due, callback)) = if leb due now then some callback else none

  -- The timer at a time: none while it is not due, and else its callback, with the lock let go.
  abbrev pub fire : ℕ → BusyLock C → Option (Option C)
  fire now lock = due_now now lock.timer
