-- ===== src/Chat/Online/Laws.antt =====
-- What the reports of the online tracker say.
use wos_sfc.Prelude.{
  ℕ, ◌≡◌, refl, ◌∙◌, ap, ◌+◌, String, Bool, true, false, not, ◌&&◌, ◌||◌, Option, none, some, List,
  [], ◌∷◌, arith, if◌then◌else◌, string_eq, contains, add, delete, Distinct, contains-add,
  contains-delete, contains-filter, Distinct-add, Distinct-filter, Bool-cases, inl, inr, ◌==◌,
  is_some, subst, sym, get_or,
}
use text.Mathlib.TextEquality.{eq_iff}
use wos_sfc.Chat.Online.{
  OnlineEntry, nickname_of, add_nickname, add_nicknames, nickname_set, OnlineDiff, diff_sets,
  Tracker, has_any, report_changes, flush, settle_names, start_window, take_changes, update_names,
  update, new_tracker, OnlineEvent, updated, fired, passed, follow, follow_all,
}

-- Whether a name is online for a reader who knows the first list and the reports since then.
unfoldable pub is_present : List String → List OnlineDiff → String → Bool
is_present base [] x = contains x base
is_present base (r ∷ rs) x =
    contains x r.joined || (not (contains x r.left) && is_present base rs x)

Distinct-add_nicknames :
    (entries : List OnlineEntry) (out : List String)
    → Distinct out
    → Distinct (add_nicknames entries out)
unfolding add_nicknames
Distinct-add_nicknames [] out d = d
Distinct-add_nicknames (entry ∷ rest) out d =
    Distinct-add_nicknames rest (add_nickname (nickname_of entry) out) (added (nickname_of entry))
  where
    added : (o : Option String) → Distinct (add_nickname o out)
    added none = d
    added (some nick) = elim (Bool-cases (nick == "")) [
      | inl empty ↦ rw empty d
      | inr text ↦ rw text (Distinct-add nick out d)
    ]

Distinct-nickname_set : (list : Option (List OnlineEntry)) → Distinct (nickname_set list)
unfolding nickname_set
Distinct-nickname_set none = tt
Distinct-nickname_set (some entries) = Distinct-add_nicknames entries [] tt

settle_names_lem :
    (x : String) (ns side other : List String)
    → Distinct ns
    → (contains x (settle_names ns side other).0
        ≡ (contains x side || (contains x ns && not (contains x other))))
      × (contains x (settle_names ns side other).1 ≡ (contains x other && not (contains x ns)))
unfolding settle_names contains
settle_names_lem x [] side other d = (ground arith, ground arith)
settle_names_lem x (n ∷ ns) side other (fresh, d) = elim (Bool-cases (contains n other)) [
  | inl back ↦ ground (
    arith,
    settle_names_lem x ns side (delete n other) d,
    contains-delete x n other,
    eq_iff x n,
    eq_iff n x,
  )
  | inr new ↦
      ground (arith, settle_names_lem x ns (add n side) other d, contains-add x n side, eq_iff x n)
]

is_present-report_changes :
    (base joined left : List String) (reports : List OnlineDiff) (x : String)
    → is_present base (report_changes joined left reports) x
      ≡ (contains x joined || (not (contains x left) && is_present base reports x))
unfolding is_present contains
is_present-report_changes base [] [] reports x = refl
is_present-report_changes base [] (n ∷ ns) reports x = refl
is_present-report_changes base (n ∷ ns) left reports x = refl

-- What one name's membership in the sets says: `p` is what the reports say of it.
abbrev Agrees : Bool → Bool → Bool → Bool → Type 0
Agrees known joined left p =
    (known ≡ (joined || (not left && p))) × ((joined && p) ≡ false) × ((left && not p) ≡ false)

record IsExact (base : List String) (t : Tracker) : Type 0 where
  names : List String
  knows : t.known ≡ some names
  agrees :
      (x : String)
      → Agrees
          (contains x names)
          (contains x t.joined)
          (contains x t.left)
          (is_present base t.reports x)
  distinct : Distinct names
  waits : (has_any t.joined || has_any t.left) ≡ true → is_some t.timer ≡ true

Agrees-take :
    (known names joined left p joined1 left1 joined2 left2 : Bool)
    → Agrees known joined left p
    → joined1 ≡ (joined || ((not known && names) && not left))
    → left1 ≡ (left && not (not known && names))
    → left2 ≡ (left1 || ((not names && known) && not joined1))
    → joined2 ≡ (joined1 && not (not names && known))
    → Agrees names joined2 left2 p
Agrees-take known names joined left p joined1 left1 joined2 left2 a e1 e2 e3 e4 = ground arith

start_window-IsExact :
    (window : ℕ) (base : List String) (t : Tracker) (names : List String)
    → t.known ≡ some names
    → ((x : String)
        → Agrees
            (contains x names)
            (contains x t.joined)
            (contains x t.left)
            (is_present base t.reports x))
    → Distinct names
    → IsExact base (start_window window t)
start_window-IsExact window base t names k a d =
    go ((has_any t.joined || has_any t.left) && not (is_some t.timer)) refl
  where
    go :
        (b : Bool)
        → ((has_any t.joined || has_any t.left) && not (is_some t.timer)) ≡ b
        → IsExact base (
            if b
            then record t {
              timer = some t.next_handle;
              timers = record { handle = t.next_handle; due = t.now + window } ∷ t.timers;
              next_handle = t.next_handle + 1;
            }
            else t)
    go true e = record { names = names; knows = k; agrees = a; distinct = d; waits = λ w. refl }
    go false e = record {
      names = names;
      knows = k;
      agrees = a;
      distinct = d;
      waits = λ w. ground arith;
    }

take_changes-Agrees :
    (base known names : List String) (t : Tracker)
    → ((x : String)
        → Agrees
            (contains x known)
            (contains x t.joined)
            (contains x t.left)
            (is_present base t.reports x))
    → Distinct known
    → Distinct names
    → (x : String)
    → let t' = take_changes names (diff_sets known names) t in
      Agrees
        (contains x names)
        (contains x t'.joined)
        (contains x t'.left)
        (is_present base t'.reports x)
unfolding diff_sets
take_changes-Agrees base known names t a dk dn x =
    let diff = diff_sets known names in
    let (joined, left) = settle_names diff.joined t.joined t.left in
    let first =
      settle_names_lem x diff.joined t.joined t.left
        (Distinct-filter (λ nick. not (contains nick known)) names dn) in
    let second =
      settle_names_lem x diff.left left joined
        (Distinct-filter (λ nick. not (contains nick names)) known dk) in
    Agrees-take (contains x known) (contains x names) (contains x t.joined) (contains x t.left)
      (is_present base t.reports x) (contains x joined) (contains x left)
      (contains x (settle_names diff.left left joined).1)
      (contains x (settle_names diff.left left joined).0) (a x)
      (first.0
        ∙ ap (λ b. contains x t.joined || (b && not (contains x t.left)))
            (contains-filter (λ nick. not (contains nick known)) x names))
      (first.1
        ∙ ap (λ b. contains x t.left && not b)
            (contains-filter (λ nick. not (contains nick known)) x names))
      (second.0
        ∙ ap (λ b. contains x left || (b && not (contains x joined)))
            (contains-filter (λ nick. not (contains nick names)) x known))
      (second.1
        ∙ ap (λ b. contains x joined && not b)
            (contains-filter (λ nick. not (contains nick names)) x known))

update_names-IsExact :
    (window : ℕ) (base names : List String) (t : Tracker)
    → Distinct names
    → (v : IsExact base t) → IsExact base (update_names window (some v.names) names t)
update_names-IsExact window base names t d v =
    start_window-IsExact window base (take_changes names (diff_sets v.names names) t) names refl
      (take_changes-Agrees base v.names names t v.agrees v.distinct d) d

follow-IsExact :
    (window : ℕ) (base : List String) (t : Tracker) (e : OnlineEvent)
    → IsExact base t
    → IsExact base (follow window t e)
unfolding follow update flush contains
follow-IsExact window base t (updated list) v =
    subst (λ known. IsExact base (update_names window known (nickname_set list) t)) (sym v.knows)
      (update_names-IsExact window base (nickname_set list) t (Distinct-nickname_set list) v)
follow-IsExact window base t (fired h) v = record {
  names = v.names;
  knows = v.knows;
  agrees =
      λ x. ground (arith, v.agrees x, is_present-report_changes base t.joined t.left t.reports x);
  distinct = v.distinct;
  waits = λ w. ground arith;
}
follow-IsExact window base t (passed ms) v = record {
  names = v.names;
  knows = v.knows;
  agrees = v.agrees;
  distinct = v.distinct;
  waits = v.waits;
}

follow_all-IsExact :
    (window : ℕ) (base : List String) (t : Tracker) (es : List OnlineEvent)
    → IsExact base t
    → IsExact base (follow_all window t es)
unfolding follow_all
follow_all-IsExact window base t [] v = v
follow_all-IsExact window base t (e ∷ es) v =
    follow_all-IsExact window base (follow window t e) es (follow-IsExact window base t e v)

first-IsExact :
    (window now : ℕ) (first : Option (List OnlineEntry))
    → IsExact (nickname_set first) (update window first (new_tracker now))
unfolding update is_present contains
first-IsExact window now first = record {
  names = nickname_set first;
  knows = refl;
  agrees = λ x. ground arith;
  distinct = Distinct-nickname_set first;
  waits = λ w. ground arith;
}

-- Whoever knows the first list and all reports, the one that is due now included, knows who is
-- online: exactly the names of the last list, however the lists changed in between. A name that
-- waits to be reported as come was away by the reports, one that waits as gone was there, and
-- while a name waits a timer is set.
pub reports_exact :
    (window now : ℕ) (first : Option (List OnlineEntry)) (events : List OnlineEvent) (x : String)
    → let base = nickname_set first in
      let t = follow_all window (update window first (new_tracker now)) events in
      (contains x (get_or t.known []) ≡ is_present base (flush t).reports x)
      × ((contains x t.joined && is_present base t.reports x) ≡ false)
      × ((contains x t.left && not (is_present base t.reports x)) ≡ false)
      × ((has_any t.joined || has_any t.left) ≡ true → is_some t.timer ≡ true)
unfolding flush
reports_exact window now first events x =
    let base = nickname_set first in
    let t = follow_all window (update window first (new_tracker now)) events in
    let v =
      follow_all-IsExact window base (update window first (new_tracker now)) events
        (first-IsExact window now first) in
    let a = v.agrees x in
    (
      ap (λ known. contains x (get_or known [])) v.knows
          ∙ a.0
          ∙ sym (is_present-report_changes base t.joined t.left t.reports x),
      a.1,
      a.2,
      v.waits,
    )
