-- ===== src/Server/RallyGroups/Changes.antt =====
-- Each change of the groups leaves them numbered, and their members too.
use wos_sfc.Prelude.{
  ℕ, suc, ◌≤◌, ◌≡◌, refl, sym, subst, ap, ◌∙◌, String, Bool, false, Option, some, List, [], ◌∷◌,
  ◌++◌, map, filter, length, contains, contains-append, Distinct, nat_eq, string_eq, ◌==◌, All,
  Bool-cases, inl, inr, arith,
}
use wos_sfc.Server.RallyGroups.{
  RallyMember, RallyGroup, Groups, find_row, update_group, set_members, sort_members_by_march_desc,
  override_in, set_override, reorder, reorder_all, set_running, set_idle,
}
use wos_sfc.Server.RallyGroups.Laws.{
  IsNumberedFrom, users, length-sorted, sorted-IsNumberedFrom, sorted-Distinct,
}
use wos_sfc.Server.RallyGroups.Numbering.{AreNumberedFrom, IsProper, IsOrdered}

-- A change of a group that leaves its number and keeps it proper.
pub record IsMild (f : RallyGroup → RallyGroup) : Type 0 where
  pub same_order : (g : RallyGroup) → (f g).display_order ≡ g.display_order
  pub proper : (g : RallyGroup) → IsProper g → IsProper (f g)

update_group-AreNumberedFrom :
    (i : ℕ) (id : String) (f : RallyGroup → RallyGroup) (gs : Groups)
    → IsMild f
    → AreNumberedFrom i gs
    → AreNumberedFrom i (update_group id f gs)
update_group-AreNumberedFrom i id f [] mild n = tt
update_group-AreNumberedFrom i id f (g ∷ gs) mild (at, n) = elim (Bool-cases (g.id == id)) [
  | inl same ↦ rw same (mild.same_order g ∙ at, n)
  | inr other ↦ rw other (at, update_group-AreNumberedFrom (suc i) id f gs mild n)
]

length-update_group :
    (id : String) (f : RallyGroup → RallyGroup) (gs : Groups)
    → length (update_group id f gs) ≡ length gs
length-update_group id f [] = refl
length-update_group id f (g ∷ gs) = ground (arith, length-update_group id f gs)

update_group-IsProper :
    (id : String) (f : RallyGroup → RallyGroup) (gs : Groups)
    → IsMild f
    → All IsProper gs
    → All IsProper (update_group id f gs)
update_group-IsProper id f [] mild a = tt
update_group-IsProper id f (g ∷ gs) mild (p, a) = elim (Bool-cases (g.id == id)) [
  | inl same ↦ rw same (mild.proper g p, a)
  | inr other ↦ rw other (p, update_group-IsProper id f gs mild a)
]

pub update_group-IsOrdered :
    (id : String) (f : RallyGroup → RallyGroup) (gs : Groups)
    → IsMild f
    → IsOrdered gs
    → IsOrdered (update_group id f gs)
update_group-IsOrdered id f gs mild (n, few, a) = (
  update_group-AreNumberedFrom 1 id f gs mild n,
  omega (arith, few, length-update_group id f gs),
  update_group-IsProper id f gs mild a,
)

pub map-IsOrdered :
    (f : RallyGroup → RallyGroup) (gs : Groups) → IsMild f → IsOrdered gs → IsOrdered (map f gs)
map-IsOrdered f gs mild (n, few, a) =
    (numbered 1 gs n, omega (arith, few, length-map gs), proper gs a)
  where
    numbered : (i : ℕ) (gs : Groups) → AreNumberedFrom i gs → AreNumberedFrom i (map f gs)
    numbered i [] n = tt
    numbered i (g ∷ gs) (at, n) = (mild.same_order g ∙ at, numbered (suc i) gs n)

    length-map : (gs : Groups) → length (map f gs) ≡ length gs
    length-map [] = refl
    length-map (g ∷ gs) = omega (arith, length-map gs)

    proper : (gs : Groups) → All IsProper gs → All IsProper (map f gs)
    proper [] a = tt
    proper (g ∷ gs) (p, a) = (mild.proper g p, proper gs a)

pub set_idle-IsMild : IsMild set_idle
set_idle-IsMild = record {
  same_order = λ g. refl;
  proper = λ g p. record { few = p.few; distinct = p.distinct; numbered = p.numbered };
}

pub set_running-IsMild : (started longest : ℕ) → IsMild (set_running started longest)
set_running-IsMild started longest = record {
  same_order = λ g. refl;
  proper = λ g p. record { few = p.few; distinct = p.distinct; numbered = p.numbered };
}

module _ (march_of : ℕ → Option ℕ) where
  pub set_sorted-IsMild :
      (ms : List RallyMember)
      → length ms ≤ 10
      → Distinct (users ms)
      → IsMild (set_members (sort_members_by_march_desc march_of ms))
  set_sorted-IsMild ms few distinct = record {
    same_order = λ g. refl;
    proper = λ g p. record {
      few = omega (arith, few, length-sorted march_of ms);
      distinct = sorted-Distinct march_of ms distinct;
      numbered = sorted-IsNumberedFrom march_of ms;
    };
  }

  pub reorder-IsMild : IsMild (reorder march_of)
  reorder-IsMild = record {
    same_order = λ g. refl;
    proper = λ g p. (set_sorted-IsMild g.members p.few p.distinct).proper g p;
  }

  pub reorder_all-IsOrdered :
      (ids : List String) (gs : Groups) → IsOrdered gs → IsOrdered (reorder_all march_of ids gs)
  unfolding reorder_all
  reorder_all-IsOrdered [] gs o = o
  reorder_all-IsOrdered (id ∷ ids) gs o =
      reorder_all-IsOrdered ids (update_group id (reorder march_of) gs)
        (update_group-IsOrdered id (reorder march_of) gs reorder-IsMild o)

pub find_row-IsProper :
    (id : String) (gs : Groups) (g : RallyGroup)
    → All IsProper gs
    → find_row id gs ≡ some g
    → IsProper g
find_row-IsProper id [] g a found = absurd (cc)
find_row-IsProper id (h ∷ gs) g (p, a) found = elim (Bool-cases (h.id == id)) [
  | inl same ↦ subst IsProper (own (rw same at found)) p
  | inr other ↦ find_row-IsProper id gs g a (rw other at found)
]
  where
    own : some h ≡ some g → h ≡ g
    own is = cc

pub users-append :
    (ms : List RallyMember) (m : RallyMember) → users (ms ++ m ∷ []) ≡ users ms ++ m.user_id ∷ []
users-append [] m = refl
users-append (n ∷ ms) m = ap (◌∷◌ n.user_id) (users-append ms m)

pub append-Distinct :
    (us : List ℕ) (u : ℕ) → contains u us ≡ false → Distinct us → Distinct (us ++ u ∷ [])
unfolding contains
append-Distinct [] u fresh d = (refl, tt)
append-Distinct (v ∷ us) u fresh (new, d) = (
  contains-append v us (u ∷ []) ∙ ground (arith, fresh, new),
  append-Distinct us u (ground (arith, fresh)) d,
)

filter-fresh :
    (p : RallyMember → Bool) (u : ℕ) (ms : List RallyMember)
    → contains u (users ms) ≡ false
    → contains u (users (filter p ms)) ≡ false
unfolding contains
filter-fresh p u [] fresh = refl
filter-fresh p u (m ∷ ms) fresh = ground (arith, fresh, filter-fresh p u ms)

pub filter-Distinct :
    (p : RallyMember → Bool) (ms : List RallyMember)
    → Distinct (users ms)
    → Distinct (users (filter p ms))
filter-Distinct p [] d = tt
filter-Distinct p (m ∷ ms) (fresh, d) = elim (Bool-cases (p m)) [
  | inl kept ↦ rw kept (filter-fresh p m.user_id ms fresh, filter-Distinct p ms d)
  | inr dropped ↦ rw dropped (filter-Distinct p ms d)
]

users-override_in :
    (id : String) (seconds : Option ℕ) (ms : List RallyMember)
    → users (override_in id seconds ms) ≡ users ms
users-override_in id seconds [] = refl
users-override_in id seconds (m ∷ ms) = elim (Bool-cases (m.id == id)) [
  | inl same ↦ rw same (ap (◌∷◌ m.user_id) (users-override_in id seconds ms))
  | inr other ↦ rw other (ap (◌∷◌ m.user_id) (users-override_in id seconds ms))
]

length-override_in :
    (id : String) (seconds : Option ℕ) (ms : List RallyMember)
    → length (override_in id seconds ms) ≡ length ms
length-override_in id seconds [] = refl
length-override_in id seconds (m ∷ ms) = omega (arith, length-override_in id seconds ms)

override_in-IsNumberedFrom :
    (i : ℕ) (id : String) (seconds : Option ℕ) (ms : List RallyMember)
    → IsNumberedFrom i ms
    → IsNumberedFrom i (override_in id seconds ms)
override_in-IsNumberedFrom i id seconds [] n = tt
override_in-IsNumberedFrom i id seconds (m ∷ ms) (at, n) = elim (Bool-cases (m.id == id)) [
  | inl same ↦ rw same (at, override_in-IsNumberedFrom (suc i) id seconds ms n)
  | inr other ↦ rw other (at, override_in-IsNumberedFrom (suc i) id seconds ms n)
]

pub set_override-IsMild : (id : String) (seconds : Option ℕ) → IsMild (set_override id seconds)
set_override-IsMild id seconds = record {
  same_order = λ g. refl;
  proper = λ g p. record {
    few = omega (arith, p.few, length-override_in id seconds g.members);
    distinct = subst Distinct (sym (users-override_in id seconds g.members)) p.distinct;
    numbered = override_in-IsNumberedFrom 1 id seconds g.members p.numbered;
  };
}
