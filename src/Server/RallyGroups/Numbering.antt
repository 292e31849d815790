-- ===== src/Server/RallyGroups/Numbering.antt =====
-- The numbers of the groups and of their members, in all runs of the calls.
use wos_sfc.Prelude.{
  ℕ, suc, ◌+◌, ◌≤◌, ◌≡◌, refl, sym, ap, ◌∙◌, String, Bool, true, false, none, some, [], ◌∷◌, ◌++◌,
  length, ltb, leb, Distinct, nat_eq, string_eq, ◌==◌, All, All-append, Bool-cases, Option-cases,
  inl, inr, arith, length-append,
}
use wos_sfc.Server.RallyGroups.{
  RallyGroup, Groups, Result, ok, threw, max_groups, create, move_up, find_row, delete_group,
  remove_group,
}
use wos_sfc.Server.RallyGroups.Laws.{IsNumberedFrom, users}

-- The display orders count from a number on, in the order of creation.
abbrev pub AreNumberedFrom : ℕ → Groups → Type 0
AreNumberedFrom i [] = Unit
AreNumberedFrom i (g ∷ gs) = (g.display_order ≡ i) × AreNumberedFrom (suc i) gs

-- At most ten members, no user twice, numbered from 1 without a gap.
pub record IsProper (g : RallyGroup) : Type 0 where
  pub few : length g.members ≤ 10
  pub distinct : Distinct (users g.members)
  pub numbered : IsNumberedFrom 1 g.members

abbrev pub IsOrdered : Groups → Type 0
IsOrdered groups = AreNumberedFrom 1 groups × (length groups ≤ 6) × All IsProper groups

pub append-AreNumberedFrom :
    (i : ℕ) (groups : Groups) (g : RallyGroup)
    → g.display_order ≡ i + length groups
    → AreNumberedFrom i groups
    → AreNumberedFrom i (groups ++ g ∷ [])
append-AreNumberedFrom i [] g last n = (omega (arith, last), tt)
append-AreNumberedFrom i (h ∷ gs) g last (first, n) =
    (first, append-AreNumberedFrom (suc i) gs g (omega (arith, last)) n)

abbrev pub OrderedResult : Result Groups → Type 0
OrderedResult (ok groups) = IsOrdered groups
OrderedResult (threw why) = Unit

pub create-OrderedResult :
    (id : String) (user : ℕ) (all_hear : Bool) (groups : Groups)
    → IsOrdered groups
    → OrderedResult (create id user all_hear groups)
unfolding create
create-OrderedResult id user all_hear groups (n, few, proper) =
    elim (Bool-cases (leb max_groups (length groups))) [
      | inl full ↦ rw full tt
      | inr room ↦ rw room (
        append-AreNumberedFrom 1 groups _ (omega arith) n,
        ground (arith, room, length-append groups (new_group ∷ [])),
        All-append IsProper groups (new_group ∷ []) proper
            (record { few = omega arith; distinct = tt; numbered = tt }, tt),
      )
    ]
  where
    new_group : RallyGroup
    new_group = record {
      id = id;
      display_order = length groups + 1;
      broadcast_all = all_hear;
      created_by_id = user;
      is_running = false;
      started_at_server_ms = none;
      max_march_seconds = none;
      members = [];
    }

move_up_all :
    (i k : ℕ) (gs : Groups) → k ≤ i → AreNumberedFrom (suc i) gs → AreNumberedFrom i (move_up k gs)
move_up_all i k [] le n = tt
move_up_all i k (g ∷ gs) le (at, n) =
    (ground (arith, at, le), move_up_all (suc i) k gs (omega (arith, le)) n)

removed-AreNumberedFrom :
    (i : ℕ) (id : String) (gs : Groups) (g : RallyGroup)
    → AreNumberedFrom i gs
    → find_row id gs ≡ some g
    → (i ≤ g.display_order) × AreNumberedFrom i (move_up g.display_order (delete_group id gs))
removed-AreNumberedFrom i id [] g n found = absurd (cc)
removed-AreNumberedFrom i id (h ∷ gs) g (at, n) found = elim (Bool-cases (h.id == id)) [
  | inl same ↦
      let order = display_of found same in
      rw same (omega (arith, order), move_up_all i g.display_order gs (omega (arith, order)) n)
  | inr other ↦
      let (later, rest) = removed-AreNumberedFrom (suc i) id gs g n (rw other at found) in
      rw other (omega (arith, later), (ground (arith, later, at), rest))
]
  where
    display_of : find_row id (h ∷ gs) ≡ some g → (h.id == id) ≡ true → g.display_order ≡ i
    display_of found same =
        ap (λ (k : RallyGroup). k.display_order) (sym (own (rw same at found))) ∙ at
      where
        own : some h ≡ some g → h ≡ g
        own is = cc

length-move_up : (k : ℕ) (gs : Groups) → length (move_up k gs) ≡ length gs
length-move_up k [] = refl
length-move_up k (g ∷ gs) = omega (arith, length-move_up k gs)

length-delete_group : (id : String) (gs : Groups) → length (delete_group id gs) ≤ length gs
length-delete_group id [] = omega arith
length-delete_group id (g ∷ gs) = ground (arith, length-delete_group id gs)

move_up-IsProper : (k : ℕ) (gs : Groups) → All IsProper gs → All IsProper (move_up k gs)
move_up-IsProper k [] a = tt
move_up-IsProper k (g ∷ gs) (p, a) = elim (Bool-cases (ltb k g.display_order)) [
  | inl behind ↦ rw behind (
    record { few = p.few; distinct = p.distinct; numbered = p.numbered },
    move_up-IsProper k gs a,
  )
  | inr before ↦ rw before (p, move_up-IsProper k gs a)
]

delete_group-IsProper :
    (id : String) (gs : Groups) → All IsProper gs → All IsProper (delete_group id gs)
delete_group-IsProper id [] a = tt
delete_group-IsProper id (g ∷ gs) (p, a) = elim (Bool-cases (g.id == id)) [
  | inl same ↦ rw same a
  | inr other ↦ rw other (p, delete_group-IsProper id gs a)
]

pub remove_group-OrderedResult :
    (id : String) (groups : Groups) → IsOrdered groups → OrderedResult (remove_group id groups)
unfolding remove_group
remove_group-OrderedResult id groups (n, few, proper) = elim (Option-cases (find_row id groups)) [
  | inl missing ↦ rw missing tt
  | inr (g, found) ↦ rw found (
    (removed-AreNumberedFrom 1 id groups g n found).1,
    omega (
      arith,
      few,
      length-move_up g.display_order (delete_group id groups),
      length-delete_group id groups,
    ),
    move_up-IsProper g.display_order (delete_group id groups)
        (delete_group-IsProper id groups proper),
  )
]
