-- ===== src/Chat/Sync/State.antt =====
-- The state of a translation sync (`createTranslationSync`, web/src/chat/translationSync.js), and
-- the world around it: the store, the clock, the timers that are set, and what went out.
use wos_sfc.Prelude.{
  ℕ, ◌+◌, String, Bool, not, Option, none, some, List, [], ◌∷◌, filter, eqb, contains, delete,
  if◌then◌else◌, nat_eq,
}
use wos_sfc.Prelude.Dict.{Dict, lookup, remove}
use wos_sfc.Chat.Store.{ChatStore, TranslationAction, translation_act}

abbrev pub push_wait_ms : ℕ
push_wait_ms = 15000

abbrev pub history_first_batch_delay_ms : ℕ
history_first_batch_delay_ms = 1000

abbrev pub history_first_batch_count : ℕ
history_first_batch_count = 50

abbrev pub batch_max_items : ℕ
batch_max_items = 20

abbrev pub batch_max_chars : ℕ
batch_max_chars = 2000

abbrev pub batch_min_interval_ms : ℕ
batch_min_interval_ms = 1000

abbrev pub retry_delays_ms : List ℕ
retry_delays_ms = 10000 ∷ 30000 ∷ []

-- What a timer does when it fires.
pub data Callback : Type 0 where
  push_elapsed retry_elapsed : ℕ → Callback
  batch_due : Callback

pub record Timer : Type 0 where
  pub handle : ℕ
  pub due : ℕ
  pub callback : Callback

pub record Item : Type 0 where
  pub id : ℕ
  pub text : String

-- The number stands for the identity of the object `inFlight`.
pub record Request : Type 0 where
  pub number : ℕ
  pub lang : String
  pub items : List Item

pub record Sync : Type 0 where
  pub my_lang : Option String
  pub auto_translate : Bool
  pub connected : Bool
  pub disposed : Bool
  pub push_wait : Dict ℕ ℕ
  pub retry_timers : Dict ℕ ℕ
  pub attempts : Dict ℕ ℕ
  pub candidates : List ℕ
  pub candidate_set : List ℕ
  pub in_flight : Option Request
  pub batch_timer : Option ℕ
  pub batch_timer_at : ℕ
  -- `none` is -Infinity.
  pub last_request_at : Option ℕ

-- A request as the server gets it, with the time.
pub record Sent : Type 0 where
  pub request : Request
  pub at : ℕ

pub record World : Type 0 where
  pub sync : Sync
  pub store : ChatStore
  pub now : ℕ
  pub timers : List Timer
  pub next_handle : ℕ
  pub next_number : ℕ
  -- The requests and the reported languages, the last one first.
  pub sent : List Sent
  pub reported : List (Option String)

-- `S().action(...)`
abbrev pub dispatch : TranslationAction → World → World
dispatch a w = record w { store = translation_act w.store a }

-- `clearTimeout`
abbrev pub cancel : ℕ → World → World
cancel h w = record w { timers = filter (λ t. not (eqb h t.handle)) w.timers }

-- `setTimeout`; the handle is `next_handle` before the call.
abbrev pub schedule : Callback → ℕ → World → World
schedule callback ms w = record w {
  timers = record { handle = w.next_handle; due = w.now + ms; callback = callback } ∷ w.timers;
  next_handle = w.next_handle + 1;
}

abbrev pub cancel_found : Option ℕ → World → World
cancel_found none w = w
cancel_found (some h) w = cancel h w

unfoldable pub clear_wait : ℕ → World → World
clear_wait id w =
    let w' = cancel_found (lookup id w.sync.push_wait) w in
    record w' { sync = record w.sync { push_wait = remove id w.sync.push_wait } }

unfoldable pub clear_retry : ℕ → World → World
clear_retry id w =
    let w' = cancel_found (lookup id w.sync.retry_timers) w in
    record w' { sync = record w.sync { retry_timers = remove id w.sync.retry_timers } }

unfoldable pub remove_candidate : ℕ → World → World
remove_candidate id w =
    if contains id w.sync.candidate_set
    then record w {
      sync = record w.sync {
        candidate_set = delete id w.sync.candidate_set;
        candidates = filter (λ c. not (eqb c id)) w.sync.candidates;
      };
    }
    else w
