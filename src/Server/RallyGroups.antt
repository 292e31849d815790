-- ===== src/Server/RallyGroups.antt =====
-- `RallyGroupsService` (server/src/rally-groups/rally-groups.service.ts) over the rows of its tables:
-- the groups in the order of their creation, each with its members. `march_of` is the march that a
-- user has stored.
pub mod Start
pub mod Calls
pub mod Laws
pub mod Numbering
pub mod Changes
pub mod Members
pub mod Runs
use wos_sfc.Prelude.{
  ℕ, suc, ◌+◌, ◌-◌, ◌*◌, max, String, Bool, true, false, not, ◌&&◌, ◌||◌, Option, none, some, List,
  [], ◌∷◌, ◌++◌, map, filter, length, ltb, leb, eqb, contains, is_some, get_or, if◌then◌else◌,
  string_eq, nat_eq, ◌==◌,
}
use wos_sfc.Prelude.Dict.{Dict, lookup, insert}
use wos_sfc.Server.BusyLock.{LockHolder, rally, BusyLock, is_held_by, try_acquire, release}
use wos_sfc.Server.Countdown.{AutoRelease, rally_idle}

abbrev pub max_group_members : ℕ
max_group_members = 10

abbrev pub max_groups : ℕ
max_groups = 6

abbrev pub countdown_lead_ms : ℕ
countdown_lead_ms = 7000

abbrev pub rally_auto_idle_grace_seconds : ℕ
rally_auto_idle_grace_seconds = 5

pub record RallyMember : Type 0 where
  pub id : String
  pub user_id : ℕ
  pub order_index : ℕ
  pub march_seconds_override : Option ℕ

-- The name of a group is made of its display order.
pub record RallyGroup : Type 0 where
  pub id : String
  pub display_order : ℕ
  pub broadcast_all : Bool
  pub created_by_id : ℕ
  pub is_running : Bool
  pub started_at_server_ms : Option ℕ
  pub max_march_seconds : Option ℕ
  pub members : List RallyMember

pub record CaptainOffset : Type 0 where
  pub order_index : ℕ
  pub user_id : ℕ
  pub offset_ms : ℕ

module _ (march_of : ℕ → Option ℕ) where
  abbrev pub effective : RallyMember → ℕ
  effective m = get_or m.march_seconds_override (get_or (march_of m.user_id) 0)

  -- The slower first, and of two equals the one that was first.
  abbrev pub comes_first : RallyMember → RallyMember → Bool
  comes_first a b =
      ltb (effective b) (effective a)
      || (eqb (effective a) (effective b) && leb a.order_index b.order_index)

  unfoldable pub place_member : RallyMember → List RallyMember → List RallyMember
  place_member a [] = a ∷ []
  place_member a (m ∷ ms) = if comes_first a m then a ∷ m ∷ ms else m ∷ place_member a ms

  unfoldable pub sort_by_march : List RallyMember → List RallyMember
  sort_by_march [] = []
  sort_by_march (m ∷ ms) = place_member m (sort_by_march ms)

abbrev pub number_from : ℕ → List RallyMember → List RallyMember
number_from i [] = []
number_from i (m ∷ ms) = record m { order_index = i } ∷ number_from (suc i) ms

abbrev pub sort_members_by_march_desc : (ℕ → Option ℕ) → List RallyMember → List RallyMember
sort_members_by_march_desc march_of ms = number_from 1 (sort_by_march march_of ms)

-- The marches by user.
module _ (march : Dict ℕ ℕ) where
  abbrev pub march_in : ℕ → ℕ
  march_in user = get_or (lookup user march) 0

  abbrev pub max_march : List RallyMember → ℕ
  max_march [] = 0
  max_march (m ∷ ms) = max (march_in m.user_id) (max_march ms)

  abbrev pub offsets_of : ℕ → List RallyMember → List CaptainOffset
  offsets_of longest [] = []
  offsets_of longest (m ∷ ms) =
      record {
        order_index = m.order_index;
        user_id = m.user_id;
        offset_ms = (longest - march_in m.user_id) * 1000;
      }
      ∷ offsets_of longest ms

  unfoldable pub compute_fire_schedule : List RallyMember → ℕ × List CaptainOffset
  compute_fire_schedule members = (max_march members, offsets_of (max_march members) members)

abbrev pub effective_map : (ℕ → Option ℕ) → List RallyMember → Dict ℕ ℕ
effective_map march_of [] = []
effective_map march_of (m ∷ ms) =
    insert m.user_id (effective march_of m) (effective_map march_of ms)

pub data RallyError : Type 0 where
  too_many_groups : RallyError
  group_not_found : RallyError
  group_full : RallyError
  already_member : RallyError
  member_not_found : RallyError
  countdown_running : RallyError
  lock_busy : Option LockHolder → RallyError

-- What a call leaves, or why it throws; it then leaves everything as it was.
pub data Result (A : Type 0) : Type 0 where
  ok : A → Result A
  threw : RallyError → Result A

abbrev pub Groups : Type 0
Groups = List RallyGroup

-- `create`, for a row that gets the id.
unfoldable pub create : String → ℕ → Bool → Groups → Result Groups
create id user broadcast_all groups =
    if leb max_groups (length groups)
    then threw too_many_groups
    else ok (
        groups
        ++ record {
          id = id;
          display_order = length groups + 1;
          broadcast_all = broadcast_all;
          created_by_id = user;
          is_running = false;
          started_at_server_ms = none;
          max_march_seconds = none;
          members = [];
        }
          ∷ [])

-- The groups behind the removed one move up.
abbrev pub move_up : ℕ → Groups → Groups
move_up removed [] = []
move_up removed (g ∷ gs) =
    (if ltb removed g.display_order then record g { display_order = g.display_order - 1 } else g)
    ∷ move_up removed gs

abbrev pub find_row : String → Groups → Option RallyGroup
find_row id [] = none
find_row id (g ∷ gs) = if g.id == id then some g else find_row id gs

-- The row with the id, which is a key.
abbrev pub delete_group : String → Groups → Groups
delete_group id [] = []
delete_group id (g ∷ gs) = if g.id == id then gs else g ∷ delete_group id gs

abbrev pub remove_found : String → Option RallyGroup → Groups → Result Groups
remove_found id none groups = threw group_not_found
remove_found id (some g) groups = ok (move_up g.display_order (delete_group id groups))

unfoldable pub remove_group : String → Groups → Result Groups
remove_group id groups = remove_found id (find_row id groups) groups

-- A change of the row with the id.
abbrev pub update_group : String → (RallyGroup → RallyGroup) → Groups → Groups
update_group id f [] = []
update_group id f (g ∷ gs) = if g.id == id then f g ∷ gs else g ∷ update_group id f gs

abbrev pub set_members : List RallyMember → RallyGroup → RallyGroup
set_members ms g = record g { members = ms }

abbrev pub new_member : String → ℕ → ℕ → RallyMember
new_member id user index = record {
  id = id;
  user_id = user;
  order_index = index;
  march_seconds_override = none;
}

abbrev pub has_member : String → List RallyMember → Bool
has_member id [] = false
has_member id (m ∷ ms) = m.id == id || has_member id ms

abbrev pub override_in : String → Option ℕ → List RallyMember → List RallyMember
override_in id seconds [] = []
override_in id seconds (m ∷ ms) =
    (if m.id == id then record m { march_seconds_override = seconds } else m)
    ∷ override_in id seconds ms

abbrev pub group_of : String → Groups → Option RallyGroup
group_of id [] = none
group_of id (g ∷ gs) = if has_member id g.members then some g else group_of id gs

module _ (march_of : ℕ → Option ℕ) where
  abbrev pub join_group : String → ℕ → RallyGroup → Groups → Result Groups
  join_group id user g groups =
      if leb max_group_members (length g.members)
      then threw group_full
      else (if contains user (map (λ (m : RallyMember). m.user_id) g.members)
          then threw already_member
          else ok (
              update_group g.id
                (set_members (
                  sort_members_by_march_desc march_of
                    (g.members ++ new_member id user (length g.members + 1) ∷ [])))
                groups))

  abbrev pub join_found : String → ℕ → Option RallyGroup → Groups → Result Groups
  join_found id user none groups = threw group_not_found
  join_found id user (some g) groups = join_group id user g groups

  -- `addMember`, for a row that gets the id.
  unfoldable pub add_member : String → String → ℕ → Groups → Result Groups
  add_member group id user groups = join_found id user (find_row group groups) groups

  abbrev pub leave_group : String → Option RallyGroup → Groups → Result Groups
  leave_group id none groups = threw member_not_found
  leave_group id (some g) groups =
      if has_member id g.members
      then ok (
          update_group g.id
            (set_members (
              sort_members_by_march_desc march_of
                (filter (λ (m : RallyMember). not (m.id == id)) g.members)))
            groups)
      else threw member_not_found

  unfoldable pub remove_member : String → String → Groups → Result Groups
  remove_member group id groups = leave_group id (find_row group groups) groups

  abbrev pub reorder : RallyGroup → RallyGroup
  reorder g = set_members (sort_members_by_march_desc march_of g.members) g

  -- The transaction of `reorderAllForUser`.
  unfoldable pub reorder_all : List String → Groups → Groups
  reorder_all [] groups = groups
  reorder_all (id ∷ ids) groups = reorder_all ids (update_group id reorder groups)

-- The groups that `reorderAllForUser` orders: those of the user whose countdown does not run.
abbrev pub target_ids : ℕ → Groups → List String
target_ids user [] = []
target_ids user (g ∷ gs) =
    if contains user (map (λ (m : RallyMember). m.user_id) g.members) && not g.is_running
    then g.id ∷ target_ids user gs
    else target_ids user gs

-- The update of a member's row, in its group.
abbrev pub set_override : String → Option ℕ → RallyGroup → RallyGroup
set_override id seconds g = set_members (override_in id seconds g.members) g

abbrev pub set_running : ℕ → ℕ → RallyGroup → RallyGroup
set_running started longest g = record g {
  is_running = true;
  started_at_server_ms = some started;
  max_march_seconds = some longest;
}

abbrev pub set_idle : RallyGroup → RallyGroup
set_idle g = record g { is_running = false; started_at_server_ms = none; max_march_seconds = none }

-- `onModuleInit`
abbrev pub on_module_init : Groups → Groups
on_module_init groups = map (λ (g : RallyGroup). if g.is_running then set_idle g else g) groups

-- `handleAutoIdle`
abbrev pub handle_auto_idle : String → Groups → Groups
handle_auto_idle id groups = update_group id set_idle groups
