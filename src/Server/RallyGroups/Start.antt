-- ===== src/Server/RallyGroups/Start.antt =====
-- The calls of the rally groups that go on after an await (server/src/rally-groups/
-- rally-groups.service.ts): the start and the stop of a group's countdown, which share the lock of
-- the countdowns, the change of a member's march, and the new order after a change of a user's. What
-- such a call does after an await is a work under way; a query with what follows it at once is a
-- step.
use wos_sfc.Prelude.{
  ℕ, ◌+◌, ◌*◌, String, Bool, not, ◌&&◌, Option, none, some, List, if◌then◌else◌, string_eq, nat_eq,
}
use wos_sfc.Prelude.Dict.{Dict, insert}
use wos_sfc.Server.BusyLock.{rally, BusyLock, is_held_by, try_acquire, release}
use wos_sfc.Server.Countdown.{AutoRelease, rally_idle}
use wos_sfc.Server.RallyGroups.{
  RallyGroup, CaptainOffset, Groups, Result, ok, threw, member_not_found, group_not_found,
  countdown_running, lock_busy, find_row, group_of, update_group, effective_map,
  compute_fire_schedule, reorder, target_ids, set_running, countdown_lead_ms,
  rally_auto_idle_grace_seconds,
}

-- The time of the start on the server's clock, and when each captain fires.
pub record CountdownPayload : Type 0 where
  pub started_at_server_ms : ℕ
  pub fire_offsets : List CaptainOffset

-- What a call does next: a start reads the ordered group, writes it as running for its longest
-- march, and reads it again; an override is written to a member of a group; groups are ordered; and
-- a stopped group is written as idle.
pub data RallyWork : Type 0 where
  read_start : String → RallyWork
  write_start : String → ℕ → CountdownPayload → RallyWork
  answer_start : String → CountdownPayload → RallyWork
  write_override : String → String → Option ℕ → RallyWork
  order_groups : List String → RallyWork
  write_idle : String → RallyWork

pub record Rallies : Type 0 where
  pub groups : Groups
  pub lock : BusyLock AutoRelease
  pub works : Dict ℕ RallyWork
  pub next_work : ℕ

abbrev pub with_groups : Rallies → Groups → Rallies
with_groups r groups = record r { groups = groups }

abbrev pub begin_work : RallyWork → Rallies → Rallies
begin_work w r = record r { works = insert r.next_work w r.works; next_work = r.next_work + 1 }

-- What a step leaves, and what the start answers once it is over.
abbrev pub Started : Type 0
Started = Rallies × Option (Result CountdownPayload)

abbrev pub release_after_ms : ℕ → ℕ
release_after_ms longest = countdown_lead_ms + longest * 1000 + rally_auto_idle_grace_seconds * 1000

abbrev pub set_started :
    String → ℕ → ℕ × List CaptainOffset → Rallies → BusyLock AutoRelease × Bool → Started
set_started id now (longest, offsets) r (lock, acquired) =
    if acquired
    then (
      begin_work
          (write_start id longest
            (record { started_at_server_ms = now + countdown_lead_ms; fire_offsets = offsets }))
          (record r { lock = lock }),
      none,
    )
    else (r, some (threw (lock_busy r.lock.holder)))

-- The catch of the start.
abbrev pub start_failed : String → Rallies → Rallies
start_failed id r = record r { lock = release (rally id) r.lock }

abbrev pub start_written : String → ℕ → CountdownPayload → Rallies → Rallies
start_written id longest payload r =
    begin_work (answer_start id payload)
      (with_groups r (update_group id (set_running payload.started_at_server_ms longest) r.groups))

abbrev pub start_answered : String → CountdownPayload → Option RallyGroup → Rallies → Started
start_answered id payload none r = (start_failed id r, some (threw group_not_found))
start_answered id payload (some g) r = (r, some (ok payload))

module _ (march_of : ℕ → Option ℕ) where
  -- The group is ordered even when the lock is taken.
  unfoldable pub start_countdown : String → Rallies → Rallies
  start_countdown id r =
      begin_work (read_start id) (with_groups r (update_group id (reorder march_of) r.groups))

  -- The schedule and the lock, once the group is read.
  abbrev pub start_found : String → ℕ → Option RallyGroup → Rallies → Started
  start_found id now none r = (r, some (threw group_not_found))
  start_found id now (some g) r =
      let schedule = compute_fire_schedule (effective_map march_of g.members) g.members in
      set_started id now schedule r (
        try_acquire (rally id) (some (release_after_ms schedule.0)) (some (rally_idle id)) now
          r.lock)

abbrev pub stop_found : String → Option RallyGroup → Rallies → Result Rallies
stop_found id none r = threw group_not_found
stop_found id (some g) r =
    if not (is_held_by (rally id) r.lock.holder) && not g.is_running
    then ok r
    else ok (begin_work (write_idle id) (record r { lock = release (rally id) r.lock }))

unfoldable pub stop_countdown : String → Rallies → Result Rallies
stop_countdown id r = stop_found id (find_row id r.groups) r

abbrev pub override_found : String → Option ℕ → Option RallyGroup → Rallies → Result Rallies
override_found id seconds none r = threw member_not_found
override_found id seconds (some g) r =
    if g.is_running
    then threw countdown_running
    else ok (begin_work (write_override g.id id seconds) r)

unfoldable pub update_march_override : String → Option ℕ → Rallies → Result Rallies
update_march_override id seconds r = override_found id seconds (group_of id r.groups) r

unfoldable pub reorder_all_for_user : ℕ → Rallies → Rallies
reorder_all_for_user user r = begin_work (order_groups (target_ids user r.groups)) r
