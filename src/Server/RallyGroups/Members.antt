-- ===== src/Server/RallyGroups/Members.antt =====
-- The calls about members leave the groups numbered, and their members too.
use wos_sfc.Prelude.{
  ℕ, ◌+◌, sym, subst, String, not, Option, some, [], ◌∷◌, ◌++◌, filter, length, leb, contains,
  Distinct, nat_eq, string_eq, ◌==◌, Bool-cases, Option-cases, inl, inr, arith, length-append,
  length-filter-le,
}
use wos_sfc.Server.RallyGroups.{
  RallyMember, RallyGroup, Groups, max_group_members, find_row, set_members, new_member,
  sort_members_by_march_desc, join_group, add_member, has_member, leave_group, remove_member,
}
use wos_sfc.Server.RallyGroups.Laws.{users}
use wos_sfc.Server.RallyGroups.Numbering.{IsProper, IsOrdered, OrderedResult}
use wos_sfc.Server.RallyGroups.Changes.{
  update_group-IsOrdered, set_sorted-IsMild, find_row-IsProper, users-append, append-Distinct,
  filter-Distinct,
}

module _ (march_of : ℕ → Option ℕ) where
  pub add_member-OrderedResult :
      (group id : String) (user : ℕ) (gs : Groups)
      → IsOrdered gs
      → OrderedResult (add_member march_of group id user gs)
  unfolding add_member
  add_member-OrderedResult group id user gs o = elim (Option-cases (find_row group gs)) [
    | inl missing ↦ rw missing tt
    | inr (g, found) ↦ rw found (joined g (find_row-IsProper group gs g o.2 found))
  ]
    where
      joined : (g : RallyGroup) → IsProper g → OrderedResult (join_group march_of id user g gs)
      joined g p = elim (Bool-cases (leb max_group_members (length g.members))) [
        | inl full ↦ rw full tt
        | inr room ↦ elim (Bool-cases (contains user (users g.members))) [
          | inl twice ↦ rw (room, twice) tt
          | inr fresh ↦
              rw (room, fresh)
                (update_group-IsOrdered g.id
                  (set_members (
                    sort_members_by_march_desc march_of
                      (g.members ++ new_member id user (length g.members + 1) ∷ [])))
                  gs
                  (set_sorted-IsMild march_of
                    (g.members ++ new_member id user (length g.members + 1) ∷ [])
                    (ground (
                      arith,
                      room,
                      length-append g.members (new_member id user (length g.members + 1) ∷ []),
                    ))
                    (subst Distinct
                      (sym (users-append g.members (new_member id user (length g.members + 1))))
                      (append-Distinct (users g.members) user fresh p.distinct)))
                  o)
        ]
      ]

  pub remove_member-OrderedResult :
      (group id : String) (gs : Groups)
      → IsOrdered gs
      → OrderedResult (remove_member march_of group id gs)
  unfolding remove_member
  remove_member-OrderedResult group id gs o = elim (Option-cases (find_row group gs)) [
    | inl missing ↦ rw missing tt
    | inr (g, found) ↦ rw found (left g (find_row-IsProper group gs g o.2 found))
  ]
    where
      left : (g : RallyGroup) → IsProper g → OrderedResult (leave_group march_of id (some g) gs)
      left g p = elim (Bool-cases (has_member id g.members)) [
        | inl there ↦ rw there (
            update_group-IsOrdered g.id
              (set_members (
                sort_members_by_march_desc march_of
                  (filter (λ (m : RallyMember). not (m.id == id)) g.members)))
              gs
              (set_sorted-IsMild march_of (filter (λ (m : RallyMember). not (m.id == id)) g.members)
                (omega (
                  arith,
                  p.few,
                  length-filter-le (λ (m : RallyMember). not (m.id == id)) g.members,
                ))
                (filter-Distinct (λ (m : RallyMember). not (m.id == id)) g.members p.distinct))
              o)
        | inr missing ↦ rw missing tt
      ]
