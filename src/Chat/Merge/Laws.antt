-- ===== src/Chat/Merge/Laws.antt =====
-- The laws of `mergeChatMessages`.
use wos_sfc.Prelude.{
  ℕ, String, ◌≡◌, refl, ◌∙◌, ◌-◌, Option, none, some, List, [], ◌∷◌, map, arith, length, filter,
  take_last, All, contains, contains-append, Distinct,
}
use mathlib.Core.Bool.{or_comm}
use wos_sfc.Prelude.Dict.{Dict, lookup, insert, keys, All-insert, All-lookup, insert-Distinct}
use wos_sfc.Prelude.Order.{sort-Distinct, All-sort}
use wos_sfc.Chat.Message.{
  Message, ChatKey, get_chat_message_key, overlay, is_system, chat_key_eq, IsIdentified,
  overlay-IsIdentified, key-overlay,
}
use wos_sfc.Chat.Merge.{
  chat_message_limit, last_keys, is_conversation, chat_system_limit, index_all, merged_with,
  merge_all, values, keep_latest, time_of, ordered_messages, merge_chat_messages,
}
use wos_sfc.Chat.Merge.Kept.{filter-kept}

abbrev pub conversation : List Message → List Message
conversation = filter is_conversation

abbrev pub notices_of : List Message → List Message
notices_of = filter is_system

abbrev Entry : Type 0
Entry = ChatKey × Message

-- Each entry stands under its message's key, and no key stands twice.
abbrev Under : Entry → Type 0
Under entry = (get_chat_message_key entry.1 ≡ entry.0) × IsIdentified entry.1

abbrev IsIndex : Dict ChatKey Message → Type 0
IsIndex d = All Under d × Distinct (keys d)

insert-IsIndex :
    (k : ChatKey) (m : Message) (d : Dict ChatKey Message)
    → get_chat_message_key m ≡ k
    → IsIdentified m
    → IsIndex d
    → IsIndex (insert k m d)
insert-IsIndex k m d same i (under, distinct) =
    (All-insert Under k m d (same, i) under, insert-Distinct k m d distinct)

index_all-IsIndex :
    (ms : List Message) (d : Dict ChatKey Message)
    → IsIndex d
    → All IsIdentified ms
    → IsIndex (index_all d ms)
unfolding index_all
index_all-IsIndex [] d v h = v
index_all-IsIndex (m ∷ ms) d v (i, h) =
    index_all-IsIndex ms (insert (get_chat_message_key m) m d)
      (insert-IsIndex (get_chat_message_key m) m d refl i v) h

merged_with-IsIndex :
    (m : Message) (d : Dict ChatKey Message) (previous : Option Message)
    → lookup (get_chat_message_key m) d ≡ previous
    → IsIdentified m
    → IsIndex d
    → IsIndex (insert (get_chat_message_key m) (merged_with previous m) d)
merged_with-IsIndex m d none found i v = insert-IsIndex _ m d refl i v
merged_with-IsIndex m d (some p) found i v =
    insert-IsIndex _ (overlay p m) d
      (key-overlay p m i (All-lookup Under (get_chat_message_key m) d v.0 found).0)
      (overlay-IsIdentified p m i) v

merge_all-IsIndex :
    (ms : List Message) (d : Dict ChatKey Message)
    → IsIndex d
    → All IsIdentified ms
    → IsIndex (merge_all d ms)
unfolding merge_all
merge_all-IsIndex [] d v h = v
merge_all-IsIndex (m ∷ ms) d v (i, h) =
    merge_all-IsIndex ms
      (insert (get_chat_message_key m) (merged_with (lookup (get_chat_message_key m) d) m) d)
      (merged_with-IsIndex m d _ refl i v) h

map-key-values :
    (d : Dict ChatKey Message) → All Under d → map get_chat_message_key (values d) ≡ keys d
map-key-values [] h = refl
map-key-values ((k, m) ∷ d) ((same, _), h) = cc (map-key-values d h)

values-IsIdentified : (d : Dict ChatKey Message) → All Under d → All IsIdentified (values d)
values-IsIdentified [] h = tt
values-IsIdentified ((k, m) ∷ d) ((_, i), h) = (i, values-IsIdentified d h)

module _ (xs : List Message) (distinct : Distinct (map get_chat_message_key xs)) where
  keep_latest-conversation :
      conversation (keep_latest xs) ≡ take_last chat_message_limit (conversation xs)
  unfolding keep_latest
  keep_latest-conversation =
      filter-kept get_chat_message_key is_conversation is_system
        (length (conversation xs) - chat_message_limit) (length (notices_of xs) - chat_system_limit)
        _ xs (λ m. ground arith) (λ m. contains-append (get_chat_message_key m) _ _) distinct

  keep_latest-notices : notices_of (keep_latest xs) ≡ take_last chat_system_limit (notices_of xs)
  unfolding keep_latest
  keep_latest-notices =
      filter-kept get_chat_message_key is_system is_conversation
        (length (notices_of xs) - chat_system_limit) (length (conversation xs) - chat_message_limit)
        _ xs (λ m. refl)
        (λ m.
          contains-append (get_chat_message_key m) (last_keys chat_message_limit is_conversation xs)
            (last_keys chat_system_limit is_system xs)
          ∙ or_comm
              (contains (get_chat_message_key m) (last_keys chat_message_limit is_conversation xs))
              (contains (get_chat_message_key m) (last_keys chat_system_limit is_system xs)))
        distinct

module _ (date_parse : String → Option ℕ) where
  module _ (current incoming : List Message) (known : All IsIdentified current)
      (given : All IsIdentified incoming) where
    merged-IsIndex : IsIndex (merge_all (index_all [] current) incoming)
    merged-IsIndex =
        merge_all-IsIndex incoming _ (index_all-IsIndex current [] (tt, tt) known) given

    pub ordered-Distinct :
        Distinct (map get_chat_message_key (ordered_messages date_parse current incoming))
    unfolding ordered_messages
    ordered-Distinct =
        sort-Distinct (time_of date_parse) get_chat_message_key _
          (rw (map-key-values _ merged-IsIndex.0) merged-IsIndex.1)

    pub ordered-IsIdentified : All IsIdentified (ordered_messages date_parse current incoming)
    unfolding ordered_messages
    ordered-IsIdentified =
        All-sort (time_of date_parse) IsIdentified _ (values-IsIdentified _ merged-IsIndex.0)

    -- Of the union of two lists of identified messages in order of time the merged chat holds the last 500 messages
    -- of the conversation and the last 50 system messages: neither kind takes the other's place.
    pub merge-kinds :
        (conversation (merge_chat_messages date_parse current incoming)
          ≡ take_last 500 (conversation (ordered_messages date_parse current incoming)))
        × (notices_of (merge_chat_messages date_parse current incoming)
            ≡ take_last 50 (notices_of (ordered_messages date_parse current incoming)))
    unfolding merge_chat_messages
    merge-kinds =
        (keep_latest-conversation _ ordered-Distinct, keep_latest-notices _ ordered-Distinct)
