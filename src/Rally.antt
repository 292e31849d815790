-- ===== src/Rally.antt =====
-- The rally groups of the store (web/src/store/index.js) and the socket's events that change them
-- (web/src/hooks/useSocket.js). A group is its id and whatever else it holds; a running countdown
-- is whatever the server sends.
pub mod Laws
mod Examples
use wos_sfc.Prelude.{
  ℕ, Bool, not, Option, none, some, List, [], ◌∷◌, filter, eqb, if◌then◌else◌, nat_eq,
}
use wos_sfc.Prelude.Dict.{Dict, insert, remove}

pub record RallyStore (G C : Type 0) : Type 0 where
  pub rally_groups : List G
  pub rally_countdowns : Dict ℕ C

pub data RallyEvent (G C : Type 0) : Type 0 where
  updated : G → RallyEvent G C
  removed : ℕ → RallyEvent G C
  countdown_started : ℕ → C → RallyEvent G C
  countdown_stopped : ℕ → RallyEvent G C

module _ {G : Type 0} (id_of : G → ℕ) where
  -- `upsertRallyGroup`: the first group with the id is replaced, and a new one stands at the end.
  unfoldable pub upsert : G → List G → List G
  upsert group [] = group ∷ []
  upsert group (g ∷ groups) =
      if eqb (id_of g) (id_of group) then group ∷ groups else g ∷ upsert group groups

  unfoldable pub find_group : ℕ → List G → Option G
  find_group id [] = none
  find_group id (g ∷ groups) = if eqb id (id_of g) then some g else find_group id groups

  unfoldable pub without_group : ℕ → List G → List G
  without_group id groups = filter (λ g. not (eqb id (id_of g))) groups

module _ {G C : Type 0} (id_of : G → ℕ) where
  unfoldable pub change : RallyEvent G C → RallyStore G C → RallyStore G C
  unfolding upsert without_group
  change (updated group) s = record s { rally_groups = upsert id_of group s.rally_groups }
  change (removed id) s = record {
    rally_groups = without_group id_of id s.rally_groups;
    rally_countdowns = remove id s.rally_countdowns;
  }
  change (countdown_started id payload) s = record s {
    rally_countdowns = insert id payload s.rally_countdowns;
  }
  change (countdown_stopped id) s = record s { rally_countdowns = remove id s.rally_countdowns }

  unfoldable pub change_all : List (RallyEvent G C) → RallyStore G C → RallyStore G C
  change_all [] s = s
  change_all (e ∷ es) s = change_all es (change e s)
