-- ===== src/Chat/Sync/Events.antt =====
-- The public functions of the translation sync and the events that reach it
-- (web/src/chat/translationSync.js).
use wos_sfc.Prelude.{
  ℕ, ◌+◌, String, Bool, true, false, not, ◌&&◌, ◌||◌, Option, none, some, List, [], ◌∷◌, filter,
  eqb, if◌then◌else◌, is_some, contains, nat_eq, string_eq,
}
use wos_sfc.Prelude.Dict.{Dict, lookup, insert, remove, keys}
use wos_sfc.Chat.Message.{Message, TextMap}
use wos_sfc.Chat.Store.{
  ChatStore, merge_chat_translations, mark_translation_pending, clear_translation_pending,
  clear_translation_failed, reset_translation_status,
}
use wos_sfc.Chat.Script.{effective_lang}
use wos_sfc.Chat.Sync.State.{
  push_wait_ms, history_first_batch_delay_ms, Callback, push_elapsed, retry_elapsed, batch_due,
  Timer, World, dispatch, schedule, clear_wait, clear_retry, remove_candidate,
}
use wos_sfc.Chat.Sync.Batch.{is_idle, has_mine, eligible_message, enqueue, scan_store, run_batch}
use wos_sfc.Chat.Sync.Retry.{Response, RequestError, schedule_reenqueue, settle, fail, answered}

unfoldable pub cancel_all : Dict ℕ ℕ → List Timer → List Timer
cancel_all [] timers = timers
cancel_all ((id, h) ∷ rest) timers = cancel_all rest (filter (λ t. not (eqb h t.handle)) timers)

unfoldable pub cancel_handle : Option ℕ → List Timer → List Timer
cancel_handle none timers = timers
cancel_handle (some h) timers = filter (λ t. not (eqb h t.handle)) timers

unfoldable pub reset_work : World → World
unfolding cancel_all cancel_handle
reset_work w = record w {
  sync = record w.sync {
    push_wait = [];
    retry_timers = [];
    attempts = [];
    batch_timer = none;
    in_flight = none;
    candidates = [];
    candidate_set = [];
  };
  timers =
      cancel_handle w.sync.batch_timer
        (cancel_all w.sync.retry_timers (cancel_all w.sync.push_wait w.timers));
}

-- `emitLanguage(autoTranslate ? myLang : null)`
abbrev pub report : World → World
report w = record w {
  reported = (if w.sync.auto_translate then w.sync.my_lang else none) ∷ w.reported;
}

abbrev pub join : String → Bool → World → World
join lang on w = record w {
  sync = record w.sync {
    my_lang = some (effective_lang lang);
    auto_translate = on;
    connected = true;
  };
}

unfoldable pub on_connect : String → Bool → World → World
unfolding reset_work
on_connect lang on w =
    if w.sync.disposed
    then w
    else scan_store history_first_batch_delay_ms
        (report (dispatch (clear_translation_pending none) (reset_work (join lang on w))))

-- The loop of `onHistory`, over the ids that wait for a push.
unfoldable pub stop_waits : List ℕ → World → World
unfolding clear_wait
stop_waits [] w = w
stop_waits (id ∷ ids) w = stop_waits ids (
    if has_mine w id
    then dispatch (clear_translation_pending (some (id ∷ []))) (clear_wait id w)
    else w)

unfoldable pub on_history : World → World
unfolding stop_waits
on_history w =
    if w.sync.disposed
    then w
    else scan_store history_first_batch_delay_ms (stop_waits (keys w.sync.push_wait) w)

abbrev pub await_push : ℕ → World → World
await_push id w =
    let marked = dispatch (mark_translation_pending (id ∷ [])) (clear_wait id w) in
    let w' = schedule (push_elapsed id) push_wait_ms marked in
    record w' {
      sync = record w'.sync { push_wait = insert id marked.next_handle w'.sync.push_wait };
    }

abbrev pub on_message_id : Option ℕ → World → World
on_message_id none w = w
on_message_id (some id) w = if is_some (eligible_message w id) then await_push id w else w

unfoldable pub on_message : Message → World → World
unfolding clear_wait
on_message m w = if is_idle w.sync then w else on_message_id m.id w

-- `translations` is `none` where the payload has no such object.
pub record Payload : Type 0 where
  pub id : Option ℕ
  pub translations : Option TextMap
  pub failed : List String

abbrev pub value_in : TextMap → String → Option String
value_in [] lang = none
value_in ((l, value) ∷ rest) lang = if string_eq.beq lang l then value else value_in rest lang

abbrev pub texts_of : Option TextMap → TextMap
texts_of none = []
texts_of (some texts) = texts

abbrev pub store_push : ℕ → TextMap → World → World
store_push id [] w = w
store_push id (e ∷ es) w = dispatch (merge_chat_translations id (some (e ∷ es))) w

abbrev pub push_arrived : ℕ → World → World
push_arrived id w =
    let w' = remove_candidate id (clear_retry id (clear_wait id w)) in
    dispatch (clear_translation_pending (some (id ∷ [])))
      (record w' { sync = record w'.sync { attempts = remove id w'.sync.attempts } })

abbrev pub push_failed : ℕ → World → World
push_failed id w =
    let w' = clear_wait id w in
    if w.sync.auto_translate then schedule_reenqueue id push_wait_ms w' else w'

abbrev pub push_empty : ℕ → World → World
push_empty id w = dispatch (clear_translation_pending (some (id ∷ []))) (clear_wait id w)

abbrev pub no_entries : TextMap → List String → Bool
no_entries [] [] = true
no_entries _ _ = false

abbrev pub push_cases : ℕ → TextMap → List String → String → Option String → World → World
push_cases id texts failed lang (some text) w = push_arrived id w
push_cases id texts failed lang none w =
    if contains lang failed
    then push_failed id w
    else if no_entries texts failed
    then push_empty id w
    else w

abbrev pub push_for : Option String → ℕ → TextMap → List String → World → World
push_for none id texts failed w = w
push_for (some lang) id texts failed w = push_cases id texts failed lang (value_in texts lang) w

abbrev pub push_in : Option ℕ → Payload → World → World
push_in none p w = w
push_in (some id) p w =
    push_for w.sync.my_lang id (texts_of p.translations) p.failed
      (store_push id (texts_of p.translations) w)

unfoldable pub on_pushed : Payload → World → World
unfolding clear_wait clear_retry remove_candidate schedule_reenqueue
on_pushed p w = if w.sync.disposed then w else push_in p.id p w

abbrev pub restart : World → World
restart w =
    let fresh = dispatch reset_translation_status (reset_work w) in
    scan_store history_first_batch_delay_ms (if fresh.sync.connected then report fresh else fresh)

abbrev pub lang_is : Option String → String → Bool
lang_is none lang = false
lang_is (some l) lang = string_eq.beq l lang

abbrev pub set_lang : String → World → World
set_lang lang w = record w { sync = record w.sync { my_lang = some (effective_lang lang) } }

abbrev pub set_auto_translate : Bool → World → World
set_auto_translate on w = record w { sync = record w.sync { auto_translate = on } }

unfoldable pub on_language_change : String → World → World
unfolding reset_work
on_language_change lang w =
    if w.sync.disposed || lang_is w.sync.my_lang (effective_lang lang)
    then w
    else restart (set_lang lang w)

abbrev pub same_bool : Bool → Bool → Bool
same_bool true b = b
same_bool false b = not b

unfoldable pub on_auto_translate_change : Bool → World → World
unfolding reset_work
on_auto_translate_change on w =
    if w.sync.disposed || same_bool on w.sync.auto_translate
    then w
    else restart (set_auto_translate on w)

unfoldable pub on_scrolled_to_older : List ℕ → World → World
on_scrolled_to_older ids w =
    if w.sync.disposed
    then w
    else enqueue
        (filter
          (λ id.
            not (is_some (lookup id w.sync.push_wait))
            && not (is_some (lookup id w.sync.retry_timers)))
          ids)
        0 w

abbrev pub forget_failures : ℕ → World → World
forget_failures id w =
    let w' = dispatch (clear_translation_failed id) w in
    record w' { sync = record w'.sync { attempts = remove id w'.sync.attempts } }

unfoldable pub retry : ℕ → World → World
unfolding clear_retry
retry id w =
    if w.sync.disposed then w else enqueue (id ∷ []) 0 (clear_retry id (forget_failures id w))

abbrev pub close : World → World
close w = record w { sync = record w.sync { disposed = true; connected = false } }

unfoldable pub dispose : World → World
unfolding reset_work
dispose w = dispatch (clear_translation_pending none) (reset_work (close w))

abbrev pub stop_waiting : ℕ → World → World
stop_waiting id w = record w { sync = record w.sync { push_wait = remove id w.sync.push_wait } }

abbrev pub stop_retrying : ℕ → World → World
stop_retrying id w = record w {
  sync = record w.sync { retry_timers = remove id w.sync.retry_timers };
}

-- A timer's callback.
unfoldable pub call_back : Callback → World → World
call_back (push_elapsed id) w = enqueue (id ∷ []) 0 (stop_waiting id w)
call_back (retry_elapsed id) w = enqueue (id ∷ []) 0 (stop_retrying id w)
call_back batch_due w = run_batch (record w { sync = record w.sync { batch_timer = none } })

pub data Event : Type 0 where
  connected : String → Bool → Event
  history : Event
  message : Message → Event
  pushed : Payload → Event
  language_changed : String → Event
  auto_translate_changed : Bool → Event
  scrolled_to_older : List ℕ → Event
  retried : ℕ → Event
  disposed : Event
  -- The answers to the request with a number.
  resolved : ℕ → Response → Event
  rejected : ℕ → RequestError → Event
  -- Time goes on; other parts of the program change the store.
  passed : ℕ → Event
  stored : ChatStore → Event

unfoldable pub handle : Event → World → World
handle (connected lang on) w = on_connect lang on w
handle history w = on_history w
handle (message m) w = on_message m w
handle (pushed p) w = on_pushed p w
handle (language_changed lang) w = on_language_change lang w
handle (auto_translate_changed on) w = on_auto_translate_change on w
handle (scrolled_to_older ids) w = on_scrolled_to_older ids w
handle (retried id) w = retry id w
handle disposed w = dispose w
handle (resolved number response) w = answered number (λ r w'. settle r.items response r.lang w') w
handle (rejected number error) w = answered number (λ r w'. fail r.items error w') w
handle (passed ms) w = record w { now = w.now + ms }
handle (stored s) w = record w { store = s }

-- `createTranslationSync` over a store.
abbrev pub init : ChatStore → ℕ → World
init store now = record {
  sync = record {
    my_lang = none;
    auto_translate = false;
    connected = false;
    disposed = false;
    push_wait = [];
    retry_timers = [];
    attempts = [];
    candidates = [];
    candidate_set = [];
    in_flight = none;
    batch_timer = none;
    batch_timer_at = 0;
    last_request_at = none;
  };
  store = store;
  now = now;
  timers = [];
  next_handle = 1;
  next_number = 0;
  sent = [];
  reported = [];
}
