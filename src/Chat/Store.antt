-- ===== src/Chat/Store.antt =====
-- The chat part of the store and its actions (web/src/store/index.js).
pub mod Laws
use wos_sfc.Prelude.{
  ℕ, String, Bool, Option, none, some, List, [], ◌∷◌, map, contains, filter, length, leb, nat_eq,
  ◌++◌,
}
use wos_sfc.Prelude.Dict.{Dict, keep}
use wos_sfc.Chat.Message.{Message, TextMap}
use wos_sfc.Chat.Merge.{merge_chat_messages}
use wos_sfc.Chat.Translations.{
  Translations, split_messages, split_entries, merge_translation_map, with_keys, without_keys,
}

-- `chatMessages`, `chatTranslations`, and the sets `chatTranslationPending` and
-- `chatTranslationFailed`, whose values are all `true`.
pub record ChatStore : Type 0 where
  pub chat_messages : List Message
  pub chat_translations : Translations
  pub chat_translation_pending : List ℕ
  pub chat_translation_failed : List ℕ

abbrev pub empty_store : ChatStore
empty_store = record {
  chat_messages = [];
  chat_translations = [];
  chat_translation_pending = [];
  chat_translation_failed = [];
}

abbrev ids_of : Option ℕ → List ℕ
ids_of none = []
ids_of (some id) = id ∷ []

-- The set `alive`.
unfoldable pub alive_ids : List Message → List ℕ
alive_ids [] = []
alive_ids (m ∷ ms) = ids_of m.id ++ alive_ids ms

-- `pruneTranslationState` with the messages that the state takes on.
unfoldable pub prune_translation_state : ChatStore → List Message → ChatStore
prune_translation_state s messages =
    let alive = λ (id : ℕ). contains id (alive_ids messages) in
    record {
      chat_messages = messages;
      chat_translations = keep alive s.chat_translations;
      chat_translation_pending = filter alive s.chat_translation_pending;
      chat_translation_failed = filter alive s.chat_translation_failed;
    }

-- The actions on the translations and their marks.
pub data TranslationAction : Type 0 where
  merge_chat_translations : ℕ → Option TextMap → TranslationAction
  merge_chat_translations_bulk : List (ℕ × Option TextMap) → TranslationAction
  mark_translation_pending : List ℕ → TranslationAction
  -- `none` is `null`: all of them.
  clear_translation_pending : Option (List ℕ) → TranslationAction
  mark_translation_failed : List ℕ → TranslationAction
  clear_translation_failed : ℕ → TranslationAction
  reset_translation_status prune_chat_translations : TranslationAction

unfoldable pub translation_act : ChatStore → TranslationAction → ChatStore
unfolding prune_translation_state
translation_act s (merge_chat_translations id texts) = record s {
  chat_translations = merge_translation_map s.chat_translations ((id, texts) ∷ []);
}
translation_act s (merge_chat_translations_bulk entries) = record s {
  chat_translations = merge_translation_map s.chat_translations entries;
}
translation_act s (mark_translation_pending ids) = record s {
  chat_translation_pending = with_keys s.chat_translation_pending ids;
}
translation_act s (clear_translation_pending none) = record s { chat_translation_pending = [] }
translation_act s (clear_translation_pending (some ids)) = record s {
  chat_translation_pending = without_keys s.chat_translation_pending ids;
}
translation_act s (mark_translation_failed ids) = record s {
  chat_translation_failed = with_keys s.chat_translation_failed ids;
  chat_translation_pending = without_keys s.chat_translation_pending ids;
}
translation_act s (clear_translation_failed id) = record s {
  chat_translation_failed = without_keys s.chat_translation_failed (id ∷ []);
}
translation_act s reset_translation_status = record s {
  chat_translation_pending = [];
  chat_translation_failed = [];
}
translation_act s prune_chat_translations = prune_translation_state s s.chat_messages

pub data Action : Type 0 where
  clear_user : Action
  set_chat_history : List Message → Action
  append_chat_message : Message → Action
  translations : TranslationAction → Action

module _ (date_parse : String → Option ℕ) where
  -- The common body of `setChatHistory` and `appendChatMessage`.
  unfoldable pub receive : ChatStore → List Message → ChatStore
  unfolding prune_translation_state
  receive s incoming =
      prune_translation_state
        (record s {
          chat_translations = merge_translation_map s.chat_translations (split_entries incoming);
        })
        (merge_chat_messages date_parse s.chat_messages (split_messages incoming))

  unfoldable pub act : ChatStore → Action → ChatStore
  unfolding receive translation_act
  act s clear_user = empty_store
  act s (set_chat_history messages) = receive s messages
  act s (append_chat_message m) = receive s (m ∷ [])
  act s (translations a) = translation_act s a

  unfoldable pub run : ChatStore → List Action → ChatStore
  run s [] = s
  run s (a ∷ actions) = run (act s a) actions
