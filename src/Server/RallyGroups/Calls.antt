-- ===== src/Server/RallyGroups/Calls.antt =====
-- Runs of the service of the rally groups (server/src/rally-groups/rally-groups.service.ts): its
-- calls, the steps of the calls under way and their failures, and the timer of the lock, in any order.
use wos_sfc.Prelude.{ℕ, String, Bool, Option, none, some, List, [], ◌∷◌, string_eq, nat_eq}
use wos_sfc.Prelude.Dict.{lookup, remove}
use wos_sfc.Server.BusyLock.{free_lock, fire}
use wos_sfc.Server.Countdown.{AutoRelease, countdown_expire, rally_idle}
use wos_sfc.Server.RallyGroups.{
  Groups, Result, ok, threw, find_row, update_group, set_override, set_idle, reorder_all, create,
  remove_group, add_member, remove_member, on_module_init, handle_auto_idle,
}
use wos_sfc.Server.RallyGroups.Start.{
  RallyWork, read_start, write_start, answer_start, write_override, order_groups, write_idle,
  Rallies, Started, with_groups, begin_work, start_failed, start_written, start_answered,
  start_countdown, start_found, stop_countdown, update_march_override, reorder_all_for_user,
}

-- The timer of the lock is due at a time: the lock is free, and a rally's group is written as idle.
-- What the end of a countdown does besides is not about the groups.
abbrev pub lock_fired : Option (Option AutoRelease) → Rallies → Rallies
lock_fired none r = r
lock_fired (some none) r = record r { lock = free_lock }
lock_fired (some (some countdown_expire)) r = record r { lock = free_lock }
lock_fired (some (some (rally_idle id))) r = record r {
  groups = handle_auto_idle id r.groups;
  lock = free_lock;
}

-- The calls of the service, each with what the users' marches are then; the next step of a call
-- under way, at a time, or a failure of its query; the timer of the lock; and a restart.
pub data RallyCall : Type 0 where
  created : String → ℕ → Bool → RallyCall
  removed : String → RallyCall
  member_added : String → String → ℕ → RallyCall
  member_removed : String → String → RallyCall
  overridden : String → Option ℕ → RallyCall
  marches_changed : ℕ → RallyCall
  countdown_started countdown_stopped : String → RallyCall
  went_on : ℕ → ℕ → RallyCall
  query_failed : ℕ → RallyCall
  lock_due : ℕ → RallyCall
  restarted : RallyCall

abbrev pub or_same : Groups → Result Groups → Groups
or_same groups (ok next) = next
or_same groups (threw why) = groups

abbrev pub or_same_all : Rallies → Result Rallies → Rallies
or_same_all r (ok next) = next
or_same_all r (threw why) = r

-- What is under way and whom the lock has is gone with the process.
abbrev pub restart_service : Rallies → Rallies
restart_service r = record r { groups = on_module_init r.groups; lock = free_lock; works = [] }

abbrev pub fail_work : Option RallyWork → Rallies → Rallies
fail_work (some (write_start id longest payload)) r = start_failed id r
fail_work (some (answer_start id payload)) r = start_failed id r
fail_work _ r = r

abbrev pub end_work : ℕ → Rallies → Rallies
end_work i r = record r { works = remove i r.works }

module _ (march_of : ℕ → Option ℕ) where
  unfoldable pub proceed : ℕ → RallyWork → Rallies → Started
  proceed now (read_start id) r = start_found march_of id now (find_row id r.groups) r
  proceed now (write_start id longest payload) r = (start_written id longest payload r, none)
  proceed now (answer_start id payload) r = start_answered id payload (find_row id r.groups) r
  proceed now (write_override group id seconds) r = (
    begin_work (order_groups (group ∷ []))
        (with_groups r (update_group group (set_override id seconds) r.groups)),
    none,
  )
  proceed now (order_groups ids) r = (with_groups r (reorder_all march_of ids r.groups), none)
  proceed now (write_idle id) r = (with_groups r (update_group id set_idle r.groups), none)

  abbrev pub proceed_found : ℕ → Option RallyWork → Rallies → Rallies
  proceed_found now none r = r
  proceed_found now (some w) r = (proceed now w r).0

  unfoldable pub call : RallyCall → Rallies → Rallies
  unfolding proceed
  call (created id user all_hear) r =
      with_groups r (or_same r.groups (create id user all_hear r.groups))
  call (removed id) r = with_groups r (or_same r.groups (remove_group id r.groups))
  call (member_added group id user) r =
      with_groups r (or_same r.groups (add_member march_of group id user r.groups))
  call (member_removed group id) r =
      with_groups r (or_same r.groups (remove_member march_of group id r.groups))
  call (overridden id seconds) r = or_same_all r (update_march_override id seconds r)
  call (marches_changed user) r = reorder_all_for_user user r
  call (countdown_started id) r = start_countdown march_of id r
  call (countdown_stopped id) r = or_same_all r (stop_countdown id r)
  call (went_on i now) r = proceed_found now (lookup i r.works) (end_work i r)
  call (query_failed i) r = fail_work (lookup i r.works) (end_work i r)
  call (lock_due now) r = lock_fired (fire now r.lock) r
  call restarted r = restart_service r

-- Calls with the marches that the users have at each.
unfoldable pub call_all : List ((ℕ → Option ℕ) × RallyCall) → Rallies → Rallies
call_all [] r = r
call_all ((march_of, c) ∷ cs) r = call_all cs (call march_of c r)
