-- ===== src/Rally/Examples.antt =====
-- Rally groups that are nothing but their ids, with texts as countdowns.
use wos_sfc.Prelude.{ℕ, String, ◌≡◌, none, [], ◌∷◌, nat_eq}
use wos_sfc.Prelude.Dict.{lookup}
use wos_sfc.Rally.{RallyStore, updated, removed, countdown_started, find_group, change_all}
use wos_sfc.Rally.Laws.{group_after, countdown_after, change_all-refines}

abbrev id_of : ℕ → ℕ
id_of group = group

abbrev two_groups : RallyStore ℕ String
two_groups = record { rally_groups = 1 ∷ 2 ∷ []; rally_countdowns = [] }

change_all-refines_example :
    let after =
      change_all id_of (countdown_started 2 "lead" ∷ updated 3 ∷ removed 2 ∷ []) two_groups in
    (find_group id_of 2 after.rally_groups ≡ none) × (lookup 2 after.rally_countdowns ≡ none)
unfolding group_after countdown_after
change_all-refines_example =
    change_all-refines id_of (countdown_started 2 "lead" ∷ updated 3 ∷ removed 2 ∷ []) two_groups 2
