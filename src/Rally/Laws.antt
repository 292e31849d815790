-- ===== src/Rally/Laws.antt =====
-- Each rally group is kept on its own, whatever the events say of the others.
use wos_sfc.Prelude.{
  ℕ, ◌≡◌, refl, ◌∙◌, ap, Option, none, some, List, [], ◌∷◌, arith, eqb, if◌then◌else◌, nat_eq,
}
use wos_sfc.Prelude.Dict.{lookup, lookup-insert, lookup-remove}
use wos_sfc.Rally.{
  RallyStore, RallyEvent, updated, removed, countdown_started, countdown_stopped, upsert,
  find_group, without_group, change, change_all,
}

module _ {G C : Type 0} (id_of : G → ℕ) where
  -- What the events leave of one group.
  unfoldable pub group_after : List (RallyEvent G C) → ℕ → Option G → Option G
  group_after [] id o = o
  group_after (updated group ∷ es) id o =
      group_after es id (if eqb id (id_of group) then some group else o)
  group_after (removed i ∷ es) id o = group_after es id (if eqb id i then none else o)
  group_after (_ ∷ es) id o = group_after es id o

  -- What they leave of its countdown.
  unfoldable pub countdown_after : List (RallyEvent G C) → ℕ → Option C → Option C
  countdown_after [] id o = o
  countdown_after (removed i ∷ es) id o = countdown_after es id (if eqb i id then none else o)
  countdown_after (countdown_started i payload ∷ es) id o =
      countdown_after es id (if eqb id i then some payload else o)
  countdown_after (countdown_stopped i ∷ es) id o =
      countdown_after es id (if eqb i id then none else o)
  countdown_after (updated _ ∷ es) id o = countdown_after es id o

module _ {G : Type 0} (id_of : G → ℕ) where
  find_group-upsert :
      (id : ℕ) (group : G) (groups : List G)
      → find_group id_of id (upsert id_of group groups)
        ≡ (if eqb id (id_of group) then some group else find_group id_of id groups)
  unfolding find_group upsert
  find_group-upsert id group [] = refl
  find_group-upsert id group (g ∷ groups) = ground (arith, find_group-upsert id group groups)

  find_group-without_group :
      (id i : ℕ) (groups : List G)
      → find_group id_of id (without_group id_of i groups)
        ≡ (if eqb id i then none else find_group id_of id groups)
  unfolding find_group without_group
  find_group-without_group id i [] = ground arith
  find_group-without_group id i (g ∷ groups) = ground (arith, find_group-without_group id i groups)

module _ {G C : Type 0} (id_of : G → ℕ) where
  -- After any events a group is as the last event about it left it, and so is its countdown: an
  -- update replaces it or brings it in, a removal takes both away, and events about other groups
  -- change nothing.
  pub change_all-refines :
      (es : List (RallyEvent G C)) (s : RallyStore G C) (id : ℕ)
      → let after = change_all id_of es s in
        (find_group id_of id after.rally_groups
          ≡ group_after id_of es id (find_group id_of id s.rally_groups))
        × (lookup id after.rally_countdowns
            ≡ countdown_after id_of es id (lookup id s.rally_countdowns))
  unfolding change_all change group_after countdown_after
  change_all-refines [] s id = (refl, refl)
  change_all-refines (updated group ∷ es) s id =
      let rest = change_all-refines es (change id_of (updated group) s) id in
      (
        rest.0 ∙ ap (group_after id_of es id) (find_group-upsert id_of id group s.rally_groups),
        rest.1,
      )
  change_all-refines (removed i ∷ es) s id =
      let rest = change_all-refines es (change id_of (removed i) s) id in
      (
        rest.0 ∙ ap (group_after id_of es id) (find_group-without_group id_of id i s.rally_groups),
        rest.1 ∙ ap (countdown_after id_of es id) (lookup-remove i id s.rally_countdowns),
      )
  change_all-refines (countdown_started i payload ∷ es) s id =
      let rest = change_all-refines es (change id_of (countdown_started i payload) s) id in
      (
        rest.0,
        rest.1 ∙ ap (countdown_after id_of es id) (lookup-insert i id payload s.rally_countdowns),
      )
  change_all-refines (countdown_stopped i ∷ es) s id =
      let rest = change_all-refines es (change id_of (countdown_stopped i) s) id in
      (rest.0, rest.1 ∙ ap (countdown_after id_of es id) (lookup-remove i id s.rally_countdowns))
