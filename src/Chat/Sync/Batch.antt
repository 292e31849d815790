-- ===== src/Chat/Sync/Batch.antt =====
-- Which messages wait for a batch request, and when one is sent: `eligible`, `enqueue`,
-- `scheduleBatch`, `takeBatch` and `runBatch` (web/src/chat/translationSync.js).
use wos_sfc.Prelude.{
  ℕ, ◌+◌, ◌-◌, max, String, Bool, true, false, not, ◌&&◌, ◌||◌, Option, none, some, List, [], ◌∷◌,
  ◌++◌, map, filter, take_last, length, leb, ltb, eqb, if◌then◌else◌, is_some, get_or, contains,
  delete, string_eq, nat_eq,
}
use wos_sfc.Chat.Message.{Message, is_system}
use wos_sfc.Chat.Translations.{translation_of}
use wos_sfc.Chat.Store.{mark_translation_pending, clear_translation_pending}
use wos_sfc.Chat.Script.{codes, Detected, detect_script, unambiguous_lang}
use wos_sfc.Chat.Sync.State.{
  batch_max_items, batch_max_chars, batch_min_interval_ms, history_first_batch_count, Item, Request,
  Sync, World, batch_due, dispatch, cancel, schedule, clear_wait,
}

abbrev pub id_is : Option ℕ → ℕ → Bool
id_is none id = false
id_is (some i) id = eqb i id

unfoldable pub find_message : List Message → ℕ → Option Message
find_message [] id = none
find_message (m ∷ ms) id = if not (is_system m) && id_is m.id id then some m else find_message ms id

abbrev pub message_by_id : World → ℕ → Option Message
message_by_id w id = find_message w.store.chat_messages id

-- A property name made of `myLang`.
abbrev pub lang_name : Option String → String
lang_name none = "null"
lang_name (some lang) = lang

unfoldable pub has_mine : World → ℕ → Bool
has_mine w id = is_some (translation_of w.store.chat_translations id (lang_name w.sync.my_lang))

abbrev pub same_lang : Option String → Option String → Bool
same_lang none none = true
same_lang (some a) (some b) = string_eq.beq a b
same_lang _ _ = false

abbrev pub is_silent : Detected → Bool
is_silent Detected.silent = true
is_silent _ = false

-- `String(message.content ?? '')`
abbrev pub content_of : Message → String
content_of m = get_or m.content ""

abbrev pub untranslated : World → Option ℕ → Bool
untranslated w none = false
untranslated w (some id) = not (has_mine w id)

unfoldable pub eligible : World → Message → Bool
unfolding has_mine
eligible w m =
    not (is_system m)
    && is_some m.id
    && not (is_silent (detect_script (codes (content_of m))))
    && not (same_lang (unambiguous_lang (codes (content_of m))) w.sync.my_lang)
    && untranslated w m.id

-- `messageById(id)`, if it is there and eligible.
abbrev pub when_eligible : World → Option Message → Option Message
when_eligible w none = none
when_eligible w (some m) = if eligible w m then some m else none

unfoldable pub eligible_message : World → ℕ → Option Message
unfolding eligible find_message
eligible_message w id = when_eligible w (message_by_id w id)

-- `text.length`: the UTF-16 units.
unfoldable pub utf16_length : List ℕ → ℕ
utf16_length [] = 0
utf16_length (c ∷ cs) = (if ltb c 0x10000 then 1 else 2) + utf16_length cs

abbrev pub text_length : String → ℕ
text_length s = utf16_length (codes s)

-- A batch that has items takes no more than 20, and no text that makes it longer than 2000.
abbrev pub is_full : List Item → ℕ → String → Bool
is_full items chars text =
    ltb 0 (length items)
    && (leb batch_max_items (length items) || ltb batch_max_chars (chars + text_length text))

abbrev pub with_candidates : List ℕ → ℕ → World → World
with_candidates rest id w = record w {
  sync = record w.sync { candidates = rest; candidate_set = delete id w.sync.candidate_set };
}

-- The loop of `takeBatch` over the candidates that are left.
unfoldable pub take_loop : List ℕ → List Item → ℕ → World → World × List Item
take_loop [] items chars w = (w, items)
take_loop (id ∷ rest) items chars w = elim (eligible_message w id) [
  | none ↦
      take_loop rest items chars
        (dispatch (clear_translation_pending (some (id ∷ []))) (with_candidates rest id w))
  | some m ↦
      let text = content_of m in
      let more =
        take_loop rest (items ++ record { id = id; text = text } ∷ []) (chars + text_length text)
          (with_candidates rest id w) in
      if is_full items chars text then (w, items) else more
]

abbrev pub take_batch : World → World × List Item
take_batch w = take_loop w.sync.candidates [] 0 w

-- `translateBatch` is called in a microtask, that is once the handler at hand is done and before
-- any other event; here it is called at once. A sync that is disposed in between aborts the signal
-- that the call is given.
abbrev pub send : String → World → List Item → World
send lang w [] = w
send lang w (item ∷ items) =
    let request : Request = record { number = w.next_number; lang = lang; items = item ∷ items } in
    record w {
      sync = record w.sync { in_flight = some request; last_request_at = some w.now };
      next_number = w.next_number + 1;
      sent = record { request = request; at = w.now } ∷ w.sent;
    }

abbrev pub run_batch_in : Option String → World → World
run_batch_in none w = w
run_batch_in (some lang) w = let (w', items) = take_batch w in send lang w' items

unfoldable pub run_batch : World → World
unfolding take_loop
run_batch w =
    if w.sync.disposed || is_some w.sync.in_flight || not w.sync.auto_translate
    then w
    else run_batch_in w.sync.my_lang w

-- `lastRequestAt + BATCH_MIN_INTERVAL_MS`; -Infinity gives no bound.
abbrev pub ready_at : Option ℕ → ℕ
ready_at none = 0
ready_at (some last) = last + batch_min_interval_ms

abbrev pub arm : ℕ → World → World
arm at w =
    let w' = schedule batch_due (at - w.now) w in
    record w' { sync = record w.sync { batch_timer = some w.next_handle; batch_timer_at = at } }

abbrev pub run_or_arm : ℕ → World → World
run_or_arm at w = if leb at w.now then run_batch w else arm at w

abbrev pub disarm : ℕ → World → World
disarm h w = let w' = cancel h w in record w' { sync = record w.sync { batch_timer = none } }

abbrev pub batch_at : ℕ → Option ℕ → World → World
batch_at at none w = run_or_arm at w
batch_at at (some h) w = if leb w.sync.batch_timer_at at then w else run_or_arm at (disarm h w)

abbrev pub is_empty : List ℕ → Bool
is_empty [] = true
is_empty _ = false

unfoldable pub schedule_batch : ℕ → World → World
unfolding run_batch
schedule_batch delay w =
    if w.sync.disposed || is_some w.sync.in_flight || is_empty w.sync.candidates
    then w
    else batch_at (max (w.now + delay) (ready_at w.sync.last_request_at)) w.sync.batch_timer w

abbrev pub requested : Option Request → List ℕ
requested none = []
requested (some r) = map (λ (i : Item). i.id) r.items

abbrev pub add_candidate : ℕ → World → World
add_candidate id w =
    let w' = clear_wait id w in
    record w' {
      sync = record w'.sync {
        candidate_set = w'.sync.candidate_set ++ id ∷ [];
        candidates = w'.sync.candidates ++ id ∷ [];
      };
    }

-- The loop of `enqueue`: the ids that became candidates are `fresh`.
unfoldable pub enqueue_loop : List ℕ → List ℕ → World → World × List ℕ
unfolding clear_wait
enqueue_loop [] fresh w = (w, fresh)
enqueue_loop (id ∷ ids) fresh w =
    let skip = enqueue_loop ids fresh w in
    let take = enqueue_loop ids (fresh ++ id ∷ []) (add_candidate id w) in
    if contains id w.sync.candidate_set
      || contains id (requested w.sync.in_flight)
      || not (is_some (eligible_message w id))
    then skip
    else take

abbrev pub announce : ℕ → World → List ℕ → World
announce delay w [] = w
announce delay w (id ∷ ids) =
    schedule_batch delay (dispatch (mark_translation_pending (id ∷ ids)) w)

-- `disposed || !autoTranslate || !myLang`
abbrev pub is_idle : Sync → Bool
is_idle s = s.disposed || not s.auto_translate || not (is_some s.my_lang)

unfoldable pub enqueue : List ℕ → ℕ → World → World
unfolding enqueue_loop schedule_batch
enqueue ids delay w =
    if is_idle w.sync
    then w
    else (let (w', fresh) = enqueue_loop ids [] w in announce delay w' fresh)

abbrev pub id_list : Option ℕ → List ℕ
id_list none = []
id_list (some id) = id ∷ []

ids_of : List Message → List ℕ
ids_of [] = []
ids_of (m ∷ ms) = id_list m.id ++ ids_of ms

unfoldable pub scan_store : ℕ → World → World
unfolding ids_of enqueue
scan_store delay w =
    if not w.sync.auto_translate || not (is_some w.sync.my_lang)
    then w
    else enqueue
        (ids_of (take_last history_first_batch_count (filter (eligible w) w.store.chat_messages)))
        delay w
