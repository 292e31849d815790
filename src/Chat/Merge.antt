-- ===== src/Chat/Merge.antt =====
-- `mergeChatMessages` (web/src/store/index.js).
pub mod Kept
pub mod Laws
pub mod Append
use wos_sfc.Prelude.{
  ℕ, String, Bool, not, Option, none, some, List, [], ◌∷◌, ◌++◌, map, filter, take_last, contains,
  get_or,
}
use wos_sfc.Prelude.Dict.{Dict, lookup, insert}
use wos_sfc.Prelude.Order.{sort}
use wos_sfc.Chat.Message.{
  Message, ChatKey, get_chat_message_key, overlay, is_system, text_or, chat_key_eq,
}

abbrev pub chat_message_limit : ℕ
chat_message_limit = 500

abbrev pub chat_system_limit : ℕ
chat_system_limit = 50

-- `new Map(current.map(...))`: of two messages with one key the later stays.
unfoldable pub index_all : Dict ChatKey Message → List Message → Dict ChatKey Message
index_all d [] = d
index_all d (m ∷ ms) = index_all (insert (get_chat_message_key m) m d) ms

abbrev pub merged_with : Option Message → Message → Message
merged_with none m = m
merged_with (some previous) m = overlay previous m

-- The loop over `incoming`.
unfoldable pub merge_all : Dict ChatKey Message → List Message → Dict ChatKey Message
merge_all d [] = d
merge_all d (m ∷ ms) =
    merge_all
      (insert (get_chat_message_key m) (merged_with (lookup (get_chat_message_key m) d) m) d) ms

abbrev pub values : Dict ChatKey Message → List Message
values = map (λ (entry : ChatKey × Message). entry.1)

-- The keys of the last `limit` messages of a kind.
abbrev pub last_keys : ℕ → (Message → Bool) → List Message → List ChatKey
last_keys limit kind ordered = map get_chat_message_key (take_last limit (filter kind ordered))

abbrev pub is_conversation : Message → Bool
is_conversation m = not (is_system m)

-- The two limits: only messages with a kept key stay.
unfoldable pub keep_latest : List Message → List Message
keep_latest ordered =
    let kept =
      last_keys chat_message_limit is_conversation ordered
      ++ last_keys chat_system_limit is_system ordered in
    filter (λ m. contains (get_chat_message_key m) kept) ordered

-- `date_parse` is `Date.parse`, with `none` for NaN.
module _ (date_parse : String → Option ℕ) where
  unfoldable pub time_of : Message → ℕ
  time_of m = get_or (date_parse (text_or m.created_at "")) 0

  unfoldable pub ordered_messages : List Message → List Message → List Message
  unfolding index_all merge_all time_of
  ordered_messages current incoming =
      sort time_of (values (merge_all (index_all [] current) incoming))

  unfoldable pub merge_chat_messages : List Message → List Message → List Message
  unfolding keep_latest ordered_messages
  merge_chat_messages current incoming = keep_latest (ordered_messages current incoming)
