-- ===== src/Chat/Store/Laws.antt =====
-- The invariant of the chat store, and what its actions do to the translations.
use wos_sfc.Prelude.{
  ℕ, String, ◌≡◌, refl, ap, sym, subst, ◌∙◌, or_else, Bool, not, ◌&&◌, ◌||◌, Option, none, some,
  List, [], ◌∷◌, arith, if◌then◌else◌, nat_eq, contains, contains-filter, All,
}
use wos_sfc.Prelude.Dict.{keep, lookup-keep}
use wos_sfc.Chat.Message.{Message, IsIdentified}
use wos_sfc.Chat.Merge.{merge_chat_messages}
use wos_sfc.Chat.Merge.Append.{IsValid, merge-IsValid}
use wos_sfc.Chat.Translations.{
  Translations, split_messages, split_entries, merge_translation_map, contains-with_keys,
  contains-without_keys, last_translation, translation_of, translation_of-merge,
}
use wos_sfc.Chat.Store.{
  ChatStore, alive_ids, receive, Action, act, run, TranslationAction, translation_act, translations,
  set_chat_history, append_chat_message, clear_user, clear_translation_pending,
  mark_translation_failed,
}

-- The messages that an action brings in are identified.
abbrev pub Brings : Action → Type 0
Brings (set_chat_history messages) = All IsIdentified messages
Brings (append_chat_message m) = IsIdentified m
Brings _ = Unit

split_messages-IsIdentified :
    (ms : List Message) → All IsIdentified ms → All IsIdentified (split_messages ms)
unfolding split_messages
split_messages-IsIdentified [] h = tt
split_messages-IsIdentified (m ∷ ms) (i, h) = (i, split_messages-IsIdentified ms h)

translation_of-keep :
    (p : ℕ → Bool) (id : ℕ) (lang : String) (t : Translations)
    → translation_of (keep p t) id lang ≡ (if p id then translation_of t id lang else none)
translation_of-keep p id lang t = ground (arith, lookup-keep p id t)

chat_messages-translation_act :
    (s : ChatStore) (a : TranslationAction) → (translation_act s a).chat_messages ≡ s.chat_messages
unfolding translation_act
chat_messages-translation_act s (clear_translation_pending none) = refl
chat_messages-translation_act s (clear_translation_pending (some ids)) = refl
chat_messages-translation_act s _ = refl

module _ (date_parse : String → Option ℕ) where
  act-IsValid :
      (s : ChatStore) (a : Action)
      → IsValid date_parse s.chat_messages
      → Brings a
      → IsValid date_parse (act date_parse s a).chat_messages
  unfolding act
  act-IsValid s clear_user v b = record {
    identified = tt;
    distinct = tt;
    sorted = tt;
    short = omega arith;
    few = omega arith;
  }
  act-IsValid s (set_chat_history messages) v b =
      merge-IsValid date_parse _ _ v.identified (split_messages-IsIdentified messages b)
  act-IsValid s (append_chat_message m) v b =
      merge-IsValid date_parse _ _ v.identified (split_messages-IsIdentified (m ∷ []) (b, tt))
  act-IsValid s (translations a) v b =
      subst (IsValid date_parse) (sym (chat_messages-translation_act s a)) v

  -- Whatever actions run, a valid stored chat stays valid, if the messages that they bring in are
  -- identified.
  pub run-IsValid :
      (actions : List Action) (s : ChatStore)
      → IsValid date_parse s.chat_messages
      → All Brings actions
      → IsValid date_parse (run date_parse s actions).chat_messages
  unfolding run
  run-IsValid [] s v b = v
  run-IsValid (a ∷ actions) s v (b, bs) =
      run-IsValid actions (act date_parse s a) (act-IsValid s a v b) bs

  -- When messages come in, what is kept of translations, pending and failed marks is that of the
  -- messages in the store, and nothing else: a message that the limit pushed out leaves nothing
  -- behind, and a stored one loses nothing and gains the texts it came with.
  pub receive-keeps_alive :
      (s : ChatStore) (incoming : List Message) (id : ℕ) (lang : String)
      → let after = receive date_parse s incoming in
        let alive = contains id (alive_ids after.chat_messages) in
        (translation_of after.chat_translations id lang ≡ (
          if alive
          then or_else
              (last_translation (split_entries incoming) id lang)
              (translation_of s.chat_translations id lang)
          else none))
        × (contains id after.chat_translation_pending
            ≡ (alive && contains id s.chat_translation_pending))
        × (contains id after.chat_translation_failed
            ≡ (alive && contains id s.chat_translation_failed))
  unfolding receive
  receive-keeps_alive s incoming id lang = (
    translation_of-keep _ id lang merged
        ∙ ap (λ (t : Option String). if contains id (alive_ids messages) then t else none)
            (translation_of-merge s.chat_translations (split_entries incoming) id lang),
    contains-filter _ id s.chat_translation_pending,
    contains-filter _ id s.chat_translation_failed,
  )
    where
      merged : Translations
      merged = merge_translation_map s.chat_translations (split_entries incoming)

      messages : List Message
      messages = merge_chat_messages date_parse s.chat_messages (split_messages incoming)

-- A failure mark takes the place of the pending mark for exactly the ids that are given; the
-- marks of the others, the messages and the translations stay.
pub mark_failed_moves :
    (s : ChatStore) (ids : List ℕ) (id : ℕ)
    → let after = translation_act s (mark_translation_failed ids) in
      (contains id after.chat_translation_failed
        ≡ (contains id ids || contains id s.chat_translation_failed))
      × (contains id after.chat_translation_pending
          ≡ (not (contains id ids) && contains id s.chat_translation_pending))
      × (after.chat_messages ≡ s.chat_messages)
      × (after.chat_translations ≡ s.chat_translations)
unfolding translation_act
mark_failed_moves s ids id = (
  contains-with_keys id s.chat_translation_failed ids,
  contains-without_keys id s.chat_translation_pending ids,
  refl,
  refl,
)
