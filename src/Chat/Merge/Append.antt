-- ===== src/Chat/Merge/Append.antt =====
-- What one message does to a chat that is in order (`appendChatMessage`).
use wos_sfc.Prelude.{
  ℕ, String, ◌≡◌, refl, sym, ◌∙◌, ap, ◌≤◌, Bool, true, false, not, Option, List, [], ◌∷◌, ◌++◌, map,
  arith, or-eq-false, take_last, if◌then◌else◌, ◌==◌, length, length-take_last, filter,
  filter-append, take_last_all, All, All-filter, contains, Distinct,
}
use wos_sfc.Prelude.Dict.{Dict, insert_fresh, keys}
use mathlib.Core.List.{append-nil, append_assoc}
use wos_sfc.Prelude.Index.{pairs, replace, values-insert}
use wos_sfc.Prelude.Order.{sort, IsSorted, sort-IsSorted, sort_sorted, filter-sort, filter-IsSorted}
use wos_sfc.Chat.Message.{
  Message, ChatKey, get_chat_message_key, overlay, is_system, chat_key_eq, IsIdentified,
}
use wos_sfc.Chat.Merge.{
  chat_message_limit, chat_system_limit, is_conversation, index_all, merged_with, keep_latest,
  time_of, ordered_messages, merge_chat_messages,
}
use wos_sfc.Chat.Merge.Kept.{filter-Distinct, All-every, All-zip, All-ne_of_contains}
use wos_sfc.Chat.Merge.Laws.{
  conversation, notices_of, merge-kinds, ordered-Distinct, ordered-IsIdentified,
}

abbrev by_key : List Message → Dict ChatKey Message
by_key = pairs get_chat_message_key

-- The stored message with the key of `m` takes its fields; the others stay.
abbrev pub update : Message → List Message → List Message
update m = replace get_chat_message_key (get_chat_message_key m) (λ x. overlay x m)

abbrev pub has : Message → List Message → Bool
has m xs = contains (get_chat_message_key m) (map get_chat_message_key xs)

-- What is new to a dictionary and to a key is new to the dictionary with that key at its end.
absent-append :
    (k j : ChatKey) (m : Message) (d : Dict ChatKey Message)
    → contains k (keys d) ≡ false
    → (k == j) ≡ false
    → contains k (keys (d ++ (j, m) ∷ [])) ≡ false
unfolding contains
absent-append k j m [] absent ne = rw ne
absent-append k j m ((i, x) ∷ d) absent ne =
    let (first, rest) = or-eq-false (k == i) (contains k (keys d)) absent in
    rw first (absent-append k j m d rest ne)

index_all-by_key :
    (ms : List Message) (d : Dict ChatKey Message)
    → All (λ m. contains (get_chat_message_key m) (keys d) ≡ false) ms
    → Distinct (map get_chat_message_key ms)
    → index_all d ms ≡ d ++ by_key ms
unfolding index_all
index_all-by_key [] d h distinct = sym (append-nil d)
index_all-by_key (m ∷ ms) d (absent, h) (fresh, distinct) =
    rw (insert_fresh (get_chat_message_key m) m d absent) (
      index_all-by_key ms (d ++ (get_chat_message_key m, m) ∷ [])
        (All-zip (λ x. contains (get_chat_message_key x) (keys d) ≡ false)
          (λ x. (get_chat_message_key x == get_chat_message_key m) ≡ false)
          (λ x.
            contains (get_chat_message_key x) (keys (d ++ (get_chat_message_key m, m) ∷ []))
            ≡ false)
          ms
          (λ x absent ne.
            absent-append (get_chat_message_key x) (get_chat_message_key m) m d absent ne)
          h (All-ne_of_contains get_chat_message_key (get_chat_message_key m) ms fresh))
        distinct
      ∙ append_assoc d _ _)

module _ (date_parse : String → Option ℕ) where
  -- What the store keeps of its chat between two actions.
  pub record IsValid (xs : List Message) : Type 0 where
    pub identified : All IsIdentified xs
    pub distinct : Distinct (map get_chat_message_key xs)
    pub sorted : IsSorted (time_of date_parse) xs
    pub short : length (conversation xs) ≤ chat_message_limit
    pub few : length (notices_of xs) ≤ chat_system_limit

  -- Merging two lists of identified messages makes a valid chat: every message identified, no key
  -- twice, in order of time, at most 500 messages of the conversation and at most 50 system
  -- messages.
  pub merge-IsValid :
      (current incoming : List Message)
      → All IsIdentified current
      → All IsIdentified incoming
      → IsValid (merge_chat_messages date_parse current incoming)
  unfolding merge_chat_messages keep_latest
  merge-IsValid current incoming known given = record {
    identified =
        All-filter IsIdentified _ _ (ordered-IsIdentified date_parse current incoming known given);
    distinct =
        filter-Distinct get_chat_message_key _ _
          (ordered-Distinct date_parse current incoming known given);
    sorted =
        filter-IsSorted (time_of date_parse) _ (ordered_messages date_parse current incoming)
          (sort-IsSorted (time_of date_parse) _);
    short = omega (
      arith,
      ap length kinds.0,
      length-take_last 500 (conversation (ordered_messages date_parse current incoming)),
    );
    few = omega (
      arith,
      ap length kinds.1,
      length-take_last 50 (notices_of (ordered_messages date_parse current incoming)),
    );
  }
    where
      kinds :
          (conversation (merge_chat_messages date_parse current incoming)
            ≡ take_last 500 (conversation (ordered_messages date_parse current incoming)))
          × (notices_of (merge_chat_messages date_parse current incoming)
              ≡ take_last 50 (notices_of (ordered_messages date_parse current incoming)))
      kinds = merge-kinds date_parse current incoming known given

  -- One message changes a chat without repeated keys in one of two ways: it gives its fields to the
  -- message with its key, or it is added; then the chat is put in order of time.
  pub ordered-append :
      (xs : List Message) (m : Message)
      → Distinct (map get_chat_message_key xs)
      → ordered_messages date_parse xs (m ∷ [])
        ≡ sort (time_of date_parse) (if has m xs then update m xs else xs ++ m ∷ [])
  unfolding ordered_messages contains
  ordered-append xs m d =
      rw
        (index_all-by_key xs []
          (All-every (λ x. contains (get_chat_message_key x) [] ≡ false) xs (λ x. refl)) d)
        (ap (sort (time_of date_parse))
          (values-insert get_chat_message_key (get_chat_message_key m) (λ o. merged_with o m) xs d))

  module _ (xs : List Message) (m : Message) (valid : IsValid xs) (i : IsIdentified m)
      (new : has m xs ≡ false) where
    kind-ordered :
        (p : Message → Bool)
        → p m ≡ false
        → filter p (ordered_messages date_parse xs (m ∷ [])) ≡ filter p xs
    kind-ordered p other =
        ap (filter p) (ordered-append xs m valid.distinct ∙ ap (sort rank) (rw new))
        ∙ filter-sort rank p (xs ++ m ∷ [])
        ∙ ap (sort rank) (filter-append p xs (m ∷ []) ∙ rw (other, append-nil (filter p xs)))
        ∙ sort_sorted rank (filter p xs) (filter-IsSorted rank p xs valid.sorted)
      where
        rank : Message → ℕ
        rank = time_of date_parse

    -- An identified message with a key that a valid chat does not have takes no room from the
    -- other kind: a system message leaves the conversation as it is, and a message of the
    -- conversation leaves the system messages as they are.
    pub append-other_kind :
        (is_system m ≡ true
          → conversation (merge_chat_messages date_parse xs (m ∷ [])) ≡ conversation xs)
        × (is_system m ≡ false
            → notices_of (merge_chat_messages date_parse xs (m ∷ [])) ≡ notices_of xs)
    append-other_kind = (
      λ system.
          kinds.0
          ∙ ap (take_last 500) (kind-ordered is_conversation (ap not system))
          ∙ take_last_all 500 (conversation xs) valid.short,
      λ said.
          kinds.1
          ∙ ap (take_last 50) (kind-ordered is_system said)
          ∙ take_last_all 50 (notices_of xs) valid.few,
    )
      where
        kinds :
            (conversation (merge_chat_messages date_parse xs (m ∷ []))
              ≡ take_last 500 (conversation (ordered_messages date_parse xs (m ∷ []))))
            × (notices_of (merge_chat_messages date_parse xs (m ∷ []))
                ≡ take_last 50 (notices_of (ordered_messages date_parse xs (m ∷ []))))
        kinds = merge-kinds date_parse xs (m ∷ []) valid.identified (i, tt)
