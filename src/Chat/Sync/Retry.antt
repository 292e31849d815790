-- ===== src/Chat/Sync/Retry.antt =====
-- What a batch's answer does: `settle`, `fail`, `scheduleRetries` and `scheduleReenqueue`
-- (web/src/chat/translationSync.js).
use wos_sfc.Prelude.{
  ℕ, suc, ◌+◌, String, Bool, true, false, Option, none, some, List, [], ◌∷◌, map, eqb,
  if◌then◌else◌, get_or, contains, nat_eq,
}
use wos_sfc.Prelude.Dict.{Dict, lookup, insert, remove}
use wos_sfc.Chat.Message.{TextMap}
use wos_sfc.Chat.Store.{
  merge_chat_translations_bulk, clear_translation_pending, mark_translation_failed,
}
use wos_sfc.Chat.Sync.State.{
  retry_delays_ms, Item, Request, World, retry_elapsed, dispatch, schedule, clear_retry,
}
use wos_sfc.Chat.Sync.Batch.{schedule_batch}

-- `response?.translated` and `response?.failed`, empty where missing; a translation that is no text
-- is `none`.
pub record Response : Type 0 where
  pub translated : Dict ℕ (Option String)
  pub failed : List ℕ

pub record RequestError : Type 0 where
  pub status : Option ℕ
  pub retry_after_ms : Option ℕ

unfoldable pub schedule_reenqueue : ℕ → ℕ → World → World
unfolding clear_retry
schedule_reenqueue id delay w =
    let cleared = clear_retry id w in
    let w' = schedule (retry_elapsed id) delay cleared in
    record w' {
      sync = record w'.sync { retry_timers = insert id cleared.next_handle w'.sync.retry_timers };
    }

abbrev pub get_delay : List ℕ → ℕ → Option ℕ
get_delay [] n = none
get_delay (d ∷ ds) ℕ.zero = some d
get_delay (d ∷ ds) (suc n) = get_delay ds n

abbrev pub set_attempts : Dict ℕ ℕ → World → World
set_attempts attempts w = record w { sync = record w.sync { attempts = attempts } }

-- One round of the loop, with the delay that `RETRY_DELAYS_MS` has after `n` failures, if any.
abbrev pub retry_or_fail : ℕ → ℕ → Option ℕ → Option ℕ → World → World
retry_or_fail id n none override w =
    dispatch (mark_translation_failed (id ∷ [])) (set_attempts (remove id w.sync.attempts) w)
retry_or_fail id n (some delay) override w =
    schedule_reenqueue id (get_or override delay)
      (set_attempts (insert id (n + 1) w.sync.attempts) w)

abbrev pub failures : World → ℕ → ℕ
failures w id = get_or (lookup id w.sync.attempts) 0

unfoldable pub schedule_retry : ℕ → Option ℕ → World → World
unfolding schedule_reenqueue
schedule_retry id override w =
    retry_or_fail id (failures w id) (get_delay retry_delays_ms (failures w id)) override w

unfoldable pub schedule_retries : List ℕ → Option ℕ → World → World
unfolding schedule_retry
schedule_retries [] override w = w
schedule_retries (id ∷ ids) override w =
    schedule_retries ids override (schedule_retry id override w)

pub record Outcome : Type 0 where
  pub entries : List (ℕ × Option TextMap)
  pub done : List ℕ
  pub failed_ids : List ℕ

abbrev pub text_of : Option (Option String) → Option String
text_of none = none
text_of (some value) = value

abbrev pub sort_item : ℕ → String → Option String → Bool → Outcome → Outcome
sort_item id lang (some text) failed o = record o {
  entries = (id, some ((lang, some text) ∷ [])) ∷ o.entries;
  done = id ∷ o.done;
}
sort_item id lang none true o = record o { failed_ids = id ∷ o.failed_ids }
sort_item id lang none false o = record o { done = id ∷ o.done }

-- The loop of `settle`: an item that is neither translated nor failed is done without a text.
unfoldable pub outcome : List Item → Response → String → Outcome
outcome [] response lang = record { entries = []; done = []; failed_ids = [] }
outcome (item ∷ items) response lang =
    sort_item item.id lang (text_of (lookup item.id response.translated))
      (contains item.id response.failed) (outcome items response lang)

unfoldable pub forget_attempts : List ℕ → World → World
forget_attempts [] w = w
forget_attempts (id ∷ ids) w = forget_attempts ids (set_attempts (remove id w.sync.attempts) w)

abbrev pub store_entries : List (ℕ × Option TextMap) → World → World
store_entries [] w = w
store_entries (e ∷ es) w = dispatch (merge_chat_translations_bulk (e ∷ es)) w

abbrev pub finish_done : List ℕ → World → World
finish_done [] w = w
finish_done (id ∷ ids) w =
    forget_attempts (id ∷ ids) (dispatch (clear_translation_pending (some (id ∷ ids))) w)

unfoldable pub settle : List Item → Response → String → World → World
unfolding outcome forget_attempts schedule_retries
settle items response lang w =
    let o = outcome items response lang in
    schedule_retries o.failed_ids none (finish_done o.done (store_entries o.entries w))

abbrev pub is_429 : Option ℕ → Bool
is_429 none = false
is_429 (some status) = eqb status 429

-- The answer 429 brings its own delay, 10 seconds where it names none.
unfoldable pub fail : List Item → RequestError → World → World
unfolding schedule_retries
fail items error w =
    schedule_retries (map (λ (i : Item). i.id) items)
      (if is_429 error.status then some (get_or error.retry_after_ms 10000) else none) w

-- `finally`: the next batch may go.
abbrev pub finish_request : World → World
finish_request w = schedule_batch 0 (record w { sync = record w.sync { in_flight = none } })

abbrev pub answered_in : Option Request → ℕ → (Request → World → World) → World → World
answered_in none number answer w = w
answered_in (some r) number answer w =
    if eqb r.number number then finish_request (answer r w) else w

-- An answer to a request that is no longer in flight does nothing.
unfoldable pub answered : ℕ → (Request → World → World) → World → World
answered number answer w = answered_in w.sync.in_flight number answer w
