-- ===== src/Chat/Online.antt =====
-- The online tracker (`createOnlineTracker`, web/src/chat/systemMessages.js): the lists of who is
-- online become reports of who came and who went, and changes within a window are one report.
pub mod Laws
use wos_sfc.Prelude.{
  ℕ, ◌+◌, String, Bool, true, false, not, ◌&&◌, ◌||◌, Option, none, some, List, [], ◌∷◌, filter,
  eqb, contains, add, delete, if◌then◌else◌, string_eq, ◌==◌, is_some,
}

abbrev pub online_coalesce_ms : ℕ
online_coalesce_ms = 2000

-- An entry of a list: a nickname, or an object with its property `nickname`, `none` where that is
-- no text.
pub data OnlineEntry : Type 0 where
  name : String → OnlineEntry
  person : Option String → OnlineEntry

abbrev pub nickname_of : OnlineEntry → Option String
nickname_of (name s) = some s
nickname_of (person nickname) = nickname

abbrev pub add_nickname : Option String → List String → List String
add_nickname none out = out
add_nickname (some nick) out = if nick == "" then out else add nick out

-- The loop of `nicknameSet`, from the names so far.
unfoldable pub add_nicknames : List OnlineEntry → List String → List String
add_nicknames [] out = out
add_nicknames (entry ∷ rest) out = add_nicknames rest (add_nickname (nickname_of entry) out)

-- A value that is no array has no entries.
unfoldable pub nickname_set : Option (List OnlineEntry) → List String
unfolding add_nicknames
nickname_set none = []
nickname_set (some entries) = add_nicknames entries []

pub record OnlineDiff : Type 0 where
  pub joined : List String
  pub left : List String

-- `diffOnline` on the two sets.
unfoldable pub diff_sets : List String → List String → OnlineDiff
diff_sets before after = record {
  joined = filter (λ nick. not (contains nick before)) after;
  left = filter (λ nick. not (contains nick after)) before;
}

pub record OnlineTimer : Type 0 where
  pub handle : ℕ
  pub due : ℕ

-- The variables of a tracker, the timers that are set, the clock, and the reports of `onFlush`,
-- the last one first.
pub record Tracker : Type 0 where
  pub known : Option (List String)
  pub joined : List String
  pub left : List String
  pub timer : Option ℕ
  pub timers : List OnlineTimer
  pub next_handle : ℕ
  pub now : ℕ
  pub reports : List OnlineDiff

abbrev pub has_any : List String → Bool
has_any [] = false
has_any _ = true

abbrev pub report_changes : List String → List String → List OnlineDiff → List OnlineDiff
report_changes joined left reports =
    if has_any joined || has_any left
    then record { joined = joined; left = left } ∷ reports
    else reports

unfoldable pub flush : Tracker → Tracker
flush t = record t {
  joined = [];
  left = [];
  timer = none;
  reports = report_changes t.joined t.left t.reports;
}

-- One of the two loops of `update`: a name that waits on the other side is taken off there, and
-- any other is added on this side. The result is this side and the other.
unfoldable pub settle_names : List String → List String → List String → List String × List String
settle_names [] side other = (side, other)
settle_names (nick ∷ rest) side other =
    let back = contains nick other in
    settle_names rest (if back then side else add nick side)
      (if back then delete nick other else other)

-- `timer = schedule(flush, windowMs)` unless there is nothing to report or a timer is set.
abbrev pub start_window : ℕ → Tracker → Tracker
start_window window t =
    if (has_any t.joined || has_any t.left) && not (is_some t.timer)
    then record t {
      timer = some t.next_handle;
      timers = record { handle = t.next_handle; due = t.now + window } ∷ t.timers;
      next_handle = t.next_handle + 1;
    }
    else t

abbrev pub take_changes : List String → OnlineDiff → Tracker → Tracker
take_changes names diff t =
    let (joined, left) = settle_names diff.joined t.joined t.left in
    let (left', joined') = settle_names diff.left left joined in
    record t { known = some names; joined = joined'; left = left' }

abbrev pub update_names : ℕ → Option (List String) → List String → Tracker → Tracker
update_names window none names t = record t { known = some names }
update_names window (some known) names t =
    start_window window (take_changes names (diff_sets known names) t)

unfoldable pub update : ℕ → Option (List OnlineEntry) → Tracker → Tracker
unfolding nickname_set diff_sets settle_names
update window list t = update_names window t.known (nickname_set list) t

abbrev pub cancel_window : Option ℕ → List OnlineTimer → List OnlineTimer
cancel_window none timers = timers
cancel_window (some h) timers = filter (λ t. not (eqb h t.handle)) timers

unfoldable pub dispose : Tracker → Tracker
dispose t = record t {
  known = none;
  joined = [];
  left = [];
  timer = none;
  timers = cancel_window t.timer t.timers;
}

-- A tracker at the time `now`.
abbrev pub new_tracker : ℕ → Tracker
new_tracker now = record {
  known = none;
  joined = [];
  left = [];
  timer = none;
  timers = [];
  next_handle = 1;
  now = now;
  reports = [];
}

-- What happens to a tracker: a list comes, a timer fires, time goes on.
pub data OnlineEvent : Type 0 where
  updated : Option (List OnlineEntry) → OnlineEvent
  fired : ℕ → OnlineEvent
  passed : ℕ → OnlineEvent

unfoldable pub follow : ℕ → Tracker → OnlineEvent → Tracker
unfolding update flush
follow window t (updated list) = update window list t
follow window t (fired h) = flush (record t { timers = cancel_window (some h) t.timers })
follow window t (passed ms) = record t { now = t.now + ms }

unfoldable pub follow_all : ℕ → Tracker → List OnlineEvent → Tracker
follow_all window t [] = t
follow_all window t (e ∷ es) = follow_all window (follow window t e) es
