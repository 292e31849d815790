-- ===== src/Chat/Examples.antt =====
-- The chat at work: concrete messages, stores and runs of the translation sync.
use wos_sfc.Prelude.{
  get_or, List, ℕ, ◌+◌, ◌<◌, ◌≡◌, refl, ◌↔◌, String, true, false, ◌&&◌, ◌||◌, not, Option, none,
  some, [], ◌∷◌, ◌==◌, All, contains, length, take_last, if◌then◌else◌, is_some, string_eq, nat_eq,
  arith, or_else,
}
use wos_sfc.Prelude.Order.{sort}
use wos_sfc.Prelude.Dict.{lookup, remove}
use wos_sfc.Chat.Sync.Batch.{scan_store, eligible, eligible_message}
use wos_sfc.Chat.Message.{Message, get_chat_message_key, is_system}
use wos_sfc.Chat.Merge.{time_of, ordered_messages, merge_chat_messages}
use wos_sfc.Chat.Merge.Laws.{conversation, notices_of, merge-kinds}
use wos_sfc.Chat.Merge.Append.{IsValid, merge-IsValid, ordered-append, append-other_kind, update}
use wos_sfc.Chat.Translations.{
  split_entries, last_translation, merge_translation_map, translation_of, translation_of-merge,
}
use wos_sfc.Chat.Store.{
  ChatStore, empty_store, alive_ids, receive, set_chat_history, append_chat_message, run,
  translation_act, mark_translation_failed,
}
use wos_sfc.Chat.Store.Laws.{run-IsValid, receive-keeps_alive, mark_failed_moves}
use wos_sfc.Chat.Script.{Script, Detected, detect_script, script_of, unambiguous_lang}
use wos_sfc.Chat.Script.Laws.{detect_script_sure, letters, count, Only}
use wos_sfc.Chat.Sync.State.{World, Sent, batch_due, Timer}
use wos_sfc.Chat.Sync.Bounds.{IsBatch}
use wos_sfc.Chat.Sync.Pacing.{Spaced}
use wos_sfc.Chat.Sync.Events.{
  handle, connected, history, passed, stored, disposed, retried, init, call_back, on_history,
  on_connect,
}
use wos_sfc.Chat.Sync.Steps.{handled, fired, Reach, here, next, without_timer, Reach-paced}
use wos_sfc.Chat.Sync.Disposal.{disposed_silent}
use wos_sfc.Chat.Online.{
  OnlineEntry, name, person, Tracker, nickname_set, update as update_online, new_tracker,
  follow_all, updated, OnlineEvent, flush, has_any,
}
use wos_sfc.Chat.Online.Laws.{is_present, reports_exact}
use wos_sfc.Chat.Display.{
  original, translated, failed, pending, select_display, select_display-states,
}

-- A stand-in for `Date.parse` that knows three texts.
abbrev parse_stamp : String → Option ℕ
parse_stamp s =
    if s == "first"
    then some 1
    else if s == "second"
    then some 2
    else if s == "third"
    then some 3
    else none

abbrev blank : Message
blank = record {
  id = none;
  sys_id = none;
  type = none;
  created_at = none;
  nickname = none;
  content = none;
  text = none;
  kind = none;
  count = none;
  nicknames = none;
  translations = none;
}

abbrev hello : Message
hello = record blank { id = some 7; created_at = some "second"; content = some "hello" }

abbrev hello_translated : Message
hello_translated = record blank {
  id = some 7;
  translations = some (some (("ko", some "annyeong") ∷ []));
}

abbrev earlier : Message
earlier = record blank { id = some 4; created_at = some "first"; content = some "rally at nine" }

abbrev joined_notice : Message
joined_notice = record blank {
  sys_id = some "online-1";
  type = some "system";
  created_at = some "third";
  kind = some "join";
}

merge-kinds_example :
    (conversation (merge_chat_messages parse_stamp (hello ∷ []) (joined_notice ∷ earlier ∷ []))
      ≡ take_last 500
          (conversation (ordered_messages parse_stamp (hello ∷ []) (joined_notice ∷ earlier ∷ []))))
    × (notices_of (merge_chat_messages parse_stamp (hello ∷ []) (joined_notice ∷ earlier ∷ []))
        ≡ take_last 50
            (notices_of (ordered_messages parse_stamp (hello ∷ []) (joined_notice ∷ earlier ∷ []))))
merge-kinds_example =
    merge-kinds parse_stamp (hello ∷ []) (joined_notice ∷ earlier ∷ []) (refl, tt)
      (refl, (refl, tt))

merge-IsValid_example :
    IsValid parse_stamp
      (merge_chat_messages parse_stamp (hello ∷ []) (joined_notice ∷ earlier ∷ []))
merge-IsValid_example =
    merge-IsValid parse_stamp (hello ∷ []) (joined_notice ∷ earlier ∷ []) (refl, tt)
      (refl, (refl, tt))

ordered-append_example :
    ordered_messages parse_stamp (hello ∷ []) (hello_translated ∷ [])
    ≡ sort (time_of parse_stamp) (update hello_translated (hello ∷ []))
unfolding contains get_chat_message_key
ordered-append_example = ordered-append parse_stamp (hello ∷ []) hello_translated (refl, tt)

just_hello : IsValid parse_stamp (hello ∷ [])
unfolding contains is_system
just_hello = record {
  identified = (refl, tt);
  distinct = (refl, tt);
  sorted = (tt, tt);
  short = omega arith;
  few = omega arith;
}

append-other_kind_example :
    (is_system joined_notice ≡ true
      → conversation (merge_chat_messages parse_stamp (hello ∷ []) (joined_notice ∷ []))
        ≡ conversation (hello ∷ []))
    × (is_system joined_notice ≡ false
        → notices_of (merge_chat_messages parse_stamp (hello ∷ []) (joined_notice ∷ []))
          ≡ notices_of (hello ∷ []))
unfolding contains get_chat_message_key
append-other_kind_example =
    append-other_kind parse_stamp (hello ∷ []) joined_notice just_hello refl refl

abbrev hello_store : ChatStore
hello_store = record empty_store { chat_messages = hello ∷ []; chat_translation_pending = 7 ∷ [] }

run-IsValid_example :
    IsValid parse_stamp
      (run parse_stamp hello_store
        (append_chat_message hello_translated ∷ set_chat_history (earlier ∷ []) ∷ [])).chat_messages
run-IsValid_example =
    run-IsValid parse_stamp
      (append_chat_message hello_translated ∷ set_chat_history (earlier ∷ []) ∷ []) hello_store
      just_hello (refl, ((refl, tt), tt))

receive-keeps_alive_example :
    let after = receive parse_stamp hello_store (hello_translated ∷ []) in
    let alive = contains 7 (alive_ids after.chat_messages) in
    (translation_of after.chat_translations 7 "ko" ≡ (
      if alive
      then or_else (last_translation (split_entries (hello_translated ∷ [])) 7 "ko") none
      else none))
    × (contains 7 after.chat_translation_pending ≡ (alive && true))
    × (contains 7 after.chat_translation_failed ≡ (alive && false))
unfolding contains lookup
receive-keeps_alive_example =
    receive-keeps_alive parse_stamp hello_store (hello_translated ∷ []) 7 "ko"

mark_failed_moves_example :
    let after = translation_act hello_store (mark_translation_failed (7 ∷ [])) in
    (contains 7 after.chat_translation_failed ≡ (true || false))
    × (contains 7 after.chat_translation_pending ≡ (not true && true))
    × (after.chat_messages ≡ hello ∷ [])
    × (after.chat_translations ≡ [])
unfolding contains
mark_failed_moves_example = mark_failed_moves hello_store (7 ∷ []) 7

translation_of-merge_example :
    translation_of
      (merge_translation_map
        ((7, ("ko", "an") ∷ ("ja", "kon") ∷ []) ∷ [])
        ((7, some (("ko", some "annyeong") ∷ [])) ∷ []))
      7
      "ko"
    ≡ some "annyeong"
unfolding last_translation
translation_of-merge_example =
    translation_of-merge ((7, ("ko", "an") ∷ ("ja", "kon") ∷ []) ∷ [])
      ((7, some (("ko", some "annyeong") ∷ [])) ∷ []) 7 "ko"

detect_script_sure_example :
    ((detect_script (0xac00 ∷ 33 ∷ []) ≡ Detected.ko)
      ↔ Only Script.hangul (letters (0xac00 ∷ 33 ∷ [])))
    × ((detect_script (0xac00 ∷ 33 ∷ []) ≡ Detected.ru)
        ↔ Only Script.cyrillic (letters (0xac00 ∷ 33 ∷ [])))
    × ((detect_script (0xac00 ∷ 33 ∷ []) ≡ Detected.ja) ↔ (
        (0 < count Script.kana (letters (0xac00 ∷ 33 ∷ [])))
        × (count Script.kana (letters (0xac00 ∷ 33 ∷ []))
              + count Script.han (letters (0xac00 ∷ 33 ∷ []))
            ≡ length (letters (0xac00 ∷ 33 ∷ [])))))
detect_script_sure_example = detect_script_sure (0xac00 ∷ 33 ∷ [])

-- A history of one English message, for a user who reads Korean.
abbrev with_history : World
with_history =
    handle history (handle (connected "ko" true) (handle (stored hello_store) (init empty_store 0)))

abbrev a_second_later : World
a_second_later = handle (passed 1000) with_history

abbrev asked : World
asked = call_back batch_due (without_timer 1 a_second_later)

first_timer : Timer
first_timer = record { handle = 1; due = 1000; callback = batch_due }

to_asked : Reach (init empty_store 0) asked
unfolding first_timer handle on_history on_connect scan_store translation_act eligible
    eligible_message is_system detect_script script_of unambiguous_lang lookup remove contains
to_asked =
    next
      (next
        (next (next (next here (handled (stored hello_store))) (handled (connected "ko" true)))
          (handled history))
        (handled (passed 1000)))
      (fired 1 first_timer refl (omega arith))

Reach-paced_example :
    Spaced asked.sent
    × (is_some asked.sync.in_flight ≡ true → asked.sync.batch_timer ≡ none)
    × All (λ (s : Sent). IsBatch s.request.items) asked.sent
Reach-paced_example = Reach-paced empty_store 0 to_asked

disposed_silent_example :
    let after = handle (retried 7) (handle disposed asked) in
    (after.sent ≡ asked.sent) × (after.reported ≡ asked.reported)
disposed_silent_example = disposed_silent asked (next here (handled (retried 7)))

-- Two lists of who is online, the second without the reader's friend and with a guest.
abbrev first_list : Option (List OnlineEntry)
first_list = some (name "me" ∷ person (some "friend") ∷ [])

abbrev second_list : Option (List OnlineEntry)
second_list = some (name "me" ∷ name "guest" ∷ name "guest" ∷ [])

abbrev tracked : Tracker
tracked =
    follow_all 2000 (update_online 2000 first_list (new_tracker 0))
      (updated second_list ∷ OnlineEvent.fired 1 ∷ updated first_list ∷ [])

reports_exact_example :
    (contains "friend" (get_or tracked.known [])
      ≡ is_present (nickname_set first_list) (flush tracked).reports "friend")
    × ((contains "friend" tracked.joined
          && is_present (nickname_set first_list) tracked.reports "friend")
        ≡ false)
    × ((contains "friend" tracked.left
          && not (is_present (nickname_set first_list) tracked.reports "friend"))
        ≡ false)
    × ((has_any tracked.joined || has_any tracked.left) ≡ true → is_some tracked.timer ≡ true)
reports_exact_example =
    reports_exact 2000 0 first_list
      (updated second_list ∷ OnlineEvent.fired 1 ∷ updated first_list ∷ []) "friend"

select_display-states_example :
    let d = select_display (some "hello") (some (("ko", "annyeong") ∷ [])) "ko" true false true in
    ((d.state ≡ translated) ↔ ((d.text == d.original_text) ≡ false))
    × (d.original_text ≡ "hello")
    × (true ≡ false → d.state ≡ original)
    × (d.state ≡ failed → true ≡ true)
    × (d.state ≡ pending → (false ≡ true) × (true ≡ false))
select_display-states_example =
    select_display-states (some "hello") (some (("ko", "annyeong") ∷ [])) "ko" true false true
