-- ===== src/Server/RallyExamples.antt =====
-- Rally groups at work: two groups, of which the first gets two members and then goes.
use wos_sfc.Prelude.{
  ℕ, nat_eq, string_eq, ◌*◌, ◌≡◌, refl, true, false, Option, none, some, List, [], ◌∷◌, map, length,
  contains,
}
use wos_sfc.Prelude.Dict.{Dict, lookup, insert, remove}
use wos_sfc.Server.BusyLock.{free_lock, try_acquire, release}
use wos_sfc.Server.RallyGroups.{
  RallyMember, RallyGroup, reorder_all, sort_by_march, place_member, sort_members_by_march_desc,
  compute_fire_schedule, create, add_member, remove_group,
}
use wos_sfc.Server.RallyGroups.Laws.{IsNumberedFrom, IsSlowestFirst, users, sort_members_ordered}
use wos_sfc.Server.RallyGroups.Start.{
  Rallies, start_countdown, stop_countdown, update_march_override,
}
use wos_sfc.Server.RallyGroups.Calls.{
  RallyCall, created, removed, member_added, overridden, countdown_started, countdown_stopped,
  went_on, query_failed, proceed, call, call_all,
}

-- A user's march is ten times its number.
abbrev tenfold : ℕ → Option ℕ
tenfold u = some (u * 10)

abbrev two_members : List RallyMember
two_members =
    record { id = "one"; user_id = 3; order_index = 1; march_seconds_override = none }
    ∷ record { id = "two"; user_id = 7; order_index = 2; march_seconds_override = none }
    ∷ []

sort_members_ordered_example :
    IsNumberedFrom 1 (sort_members_by_march_desc tenfold two_members)
    × IsSlowestFirst tenfold (sort_members_by_march_desc tenfold two_members)
    × (length (sort_members_by_march_desc tenfold two_members) ≡ 2)
    × (contains 7 (users (sort_members_by_march_desc tenfold two_members))
        ≡ contains 7 (users two_members))
sort_members_ordered_example = sort_members_ordered tenfold two_members 7

slowest_is_first : users (sort_members_by_march_desc tenfold two_members) ≡ 7 ∷ 3 ∷ []
unfolding sort_by_march place_member
slowest_is_first = refl

abbrev two_marches : Dict ℕ ℕ
two_marches = (3, 30) ∷ (7, 70) ∷ []

abbrev no_groups : Rallies
no_groups = record { groups = []; lock = free_lock; works = []; next_work = 0 }

abbrev rally_calls : List ((ℕ → Option ℕ) × RallyCall)
rally_calls =
    (tenfold, created "a" 1 false)
    ∷ (tenfold, created "b" 1 true)
    ∷ (tenfold, member_added "a" "one" 3)
    ∷ (tenfold, member_added "a" "two" 7)
    ∷ (tenfold, overridden "one" (some 90))
    ∷ (tenfold, countdown_started "a")
    ∷ (tenfold, went_on 0 1000)
    ∷ (tenfold, went_on 1 1000)
    ∷ (tenfold, went_on 3 1001)
    ∷ (tenfold, query_failed 4)
    ∷ (tenfold, removed "a")
    ∷ []

one_group_left : length (call_all rally_calls no_groups).groups ≡ 1
unfolding call_all call create add_member remove_group start_countdown update_march_override proceed
    reorder_all compute_fire_schedule sort_by_march place_member try_acquire release lookup insert
    remove contains
one_group_left = refl

-- A stop comes between the lock and the write of a start: the group is written as running
-- afterwards, though the lock is free and has no timer.
abbrev stopped_start : List ((ℕ → Option ℕ) × RallyCall)
stopped_start =
    (tenfold, created "a" 1 false)
    ∷ (tenfold, countdown_started "a")
    ∷ (tenfold, went_on 0 1000)
    ∷ (tenfold, countdown_stopped "a")
    ∷ (tenfold, went_on 2 1001)
    ∷ (tenfold, went_on 1 1002)
    ∷ []

stopped_start_runs :
    let r = call_all stopped_start no_groups in
    (map (λ (g : RallyGroup). g.is_running) r.groups ≡ true ∷ []) × (r.lock ≡ free_lock)
unfolding call_all call create start_countdown stop_countdown proceed compute_fire_schedule
    sort_by_march try_acquire release lookup insert remove
stopped_start_runs = (refl, refl)
