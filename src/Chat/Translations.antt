-- ===== src/Chat/Translations.antt =====
-- The translations that the store keeps apart from the messages: `splitTranslations`,
-- `mergeTranslationMap` and `withoutKeys` (web/src/store/index.js).
use wos_sfc.Prelude.{
  ℕ, String, ◌≡◌, refl, not, ◌&&◌, ◌||◌, Option, none, some, List, [], ◌∷◌, ◌++◌, arith,
  if◌then◌else◌, get_or, or_else, string_eq, nat_eq, filter, contains, add, contains-add,
  contains-filter, eqb_iff,
}
use wos_sfc.Prelude.Dict.{Dict, lookup, insert, lookup-insert}
use wos_sfc.Chat.Message.{Message, TextMap}

abbrev pub Texts : Type 0
Texts = Dict String String

abbrev pub Translations : Type 0
Translations = Dict ℕ Texts

-- `rest` of `const { translations, ...rest } = message`
abbrev pub without_translations : Message → Message
without_translations m = record m { translations = none }

abbrev entry_of : Option ℕ → Option (Option TextMap) → List (ℕ × Option TextMap)
entry_of (some id) (some translations) = (id, translations) ∷ []
entry_of _ _ = []

-- The messages without their translations, and the translations with the ids.
unfoldable pub split_messages : List Message → List Message
split_messages [] = []
split_messages (m ∷ ms) = without_translations m ∷ split_messages ms

unfoldable pub split_entries : List Message → List (ℕ × Option TextMap)
split_entries [] = []
split_entries (m ∷ ms) = entry_of m.id m.translations ++ split_entries ms

-- The languages whose value is a text.
unfoldable pub string_entries : TextMap → List (String × String)
string_entries [] = []
string_entries ((lang, none) ∷ map) = string_entries map
string_entries ((lang, some text) ∷ map) = (lang, text) ∷ string_entries map

-- `for (const lang of langs) merged[lang] = map[lang]`
unfoldable pub assign_all : Texts → List (String × String) → Texts
assign_all merged [] = merged
assign_all merged ((lang, text) ∷ rest) = assign_all (insert lang text merged) rest

abbrev merge_entry : ℕ → List (String × String) → Translations → Translations
merge_entry id [] next = next
merge_entry id (l ∷ ls) next = insert id (assign_all (get_or (lookup id next) []) (l ∷ ls)) next

unfoldable pub merge_translation_map : Translations → List (ℕ × Option TextMap) → Translations
unfolding string_entries assign_all
merge_translation_map next [] = next
merge_translation_map next ((id, none) ∷ entries) = merge_translation_map next entries
merge_translation_map next ((id, some map) ∷ entries) =
    merge_translation_map (merge_entry id (string_entries map) next) entries

-- The text that the store shows for a message in a language.
abbrev pub text_in : Option Texts → String → Option String
text_in none lang = none
text_in (some texts) lang = lookup lang texts

abbrev pub translation_of : Translations → ℕ → String → Option String
translation_of t id lang = text_in (lookup id t) lang

-- What the entries say last of a message in a language.
unfoldable pub last_text : List (String × String) → String → Option String
last_text [] lang = none
last_text ((l, text) ∷ rest) lang =
    or_else (last_text rest lang) (if string_eq.beq lang l then some text else none)

unfoldable pub last_translation : List (ℕ × Option TextMap) → ℕ → String → Option String
unfolding last_text string_entries
last_translation [] id lang = none
last_translation ((i, none) ∷ rest) id lang = last_translation rest id lang
last_translation ((i, some map) ∷ rest) id lang =
    or_else (last_translation rest id lang)
      (if nat_eq.beq id i then last_text (string_entries map) lang else none)

lookup-assign_all :
    (merged : Texts) (rest : List (String × String)) (lang : String)
    → lookup lang (assign_all merged rest) ≡ or_else (last_text rest lang) (lookup lang merged)
unfolding assign_all last_text
lookup-assign_all merged [] lang = refl
lookup-assign_all merged ((l, text) ∷ rest) lang =
    ground
      (arith, lookup-assign_all (insert l text merged) rest lang, lookup-insert l lang text merged)

insert_texts :
    (id i : ℕ) (ls : List (String × String)) (next : Translations) (lang : String)
    → translation_of (insert i (assign_all (get_or (lookup i next) []) ls) next) id lang
      ≡ or_else (if nat_eq.beq id i then last_text ls lang else none) (translation_of next id lang)
unfolding lookup
insert_texts id i ls next lang = ground (
  arith,
  eqb_iff id i,
  lookup-insert i id (assign_all (get_or (lookup i next) []) ls) next,
  lookup-assign_all (get_or (lookup i next) []) ls lang,
)

translation_of-merge_entry :
    (id i : ℕ) (ls : List (String × String)) (next : Translations) (lang : String)
    → translation_of (merge_entry i ls next) id lang
      ≡ or_else (if nat_eq.beq id i then last_text ls lang else none) (translation_of next id lang)
unfolding last_text
translation_of-merge_entry id i [] next lang = ground arith
translation_of-merge_entry id i (l ∷ ls) next lang = insert_texts id i (l ∷ ls) next lang

-- After a merge a message reads, in each language, what the entries say last of it, and what was
-- stored where they say nothing: no merge erases a language, and a value that is no text changes
-- nothing.
pub translation_of-merge :
    (next : Translations) (entries : List (ℕ × Option TextMap)) (id : ℕ) (lang : String)
    → translation_of (merge_translation_map next entries) id lang
      ≡ or_else (last_translation entries id lang) (translation_of next id lang)
unfolding merge_translation_map last_translation
translation_of-merge next [] id lang = refl
translation_of-merge next ((i, none) ∷ entries) id lang = translation_of-merge next entries id lang
translation_of-merge next ((i, some map) ∷ entries) id lang = ground (
  arith,
  translation_of-merge (merge_entry i (string_entries map) next) entries id lang,
  translation_of-merge_entry id i (string_entries map) next lang,
)

-- `{ ...record, ...Object.fromEntries(ids.map((id) => [id, true])) }`
unfoldable pub with_keys : List ℕ → List ℕ → List ℕ
with_keys record_ids [] = record_ids
with_keys record_ids (id ∷ ids) = with_keys (add id record_ids) ids

unfoldable pub without_keys : List ℕ → List ℕ → List ℕ
without_keys record_ids ids = filter (λ id. not (contains id ids)) record_ids

pub contains-with_keys :
    (id : ℕ) (xs ids : List ℕ)
    → contains id (with_keys xs ids) ≡ (contains id ids || contains id xs)
unfolding with_keys contains
contains-with_keys id xs [] = refl
contains-with_keys id xs (i ∷ ids) =
    ground (arith, contains-with_keys id (add i xs) ids, contains-add id i xs)

pub contains-without_keys :
    (id : ℕ) (xs ids : List ℕ)
    → contains id (without_keys xs ids) ≡ (not (contains id ids) && contains id xs)
unfolding without_keys
contains-without_keys id xs ids = contains-filter (λ i. not (contains i ids)) id xs
