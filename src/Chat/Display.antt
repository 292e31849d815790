-- ===== src/Chat/Display.antt =====
-- Which text of a message is shown (`selectDisplay`, web/src/chat/display.js).
use wos_sfc.Prelude.{
  String, ◌≡◌, ◌↔◌, refl, Bool, true, false, Option, none, some, arith, if◌then◌else◌, get_or,
  string_eq, ◌==◌,
}
use text.Mathlib.TextEquality.{eq_iff}
use wos_sfc.Prelude.Dict.{Dict, lookup}
use wos_sfc.Chat.Script.{effective_lang}

pub data DisplayState : Type 0 where
  original translated failed pending : DisplayState

pub record Display : Type 0 where
  pub state : DisplayState
  pub text : String
  pub original_text : String

abbrev pub state_without : Bool → Bool → DisplayState
state_without true _ = failed
state_without false true = pending
state_without false false = original

abbrev pub with_translation : String → Option String → Bool → Bool → Display
with_translation content none has_failed is_pending = record {
  state = state_without has_failed is_pending;
  text = content;
  original_text = content;
}
with_translation content (some text) has_failed is_pending =
    if text == content
    then record { state = original; text = content; original_text = content }
    else record { state = translated; text = text; original_text = content }

abbrev translation_in : Option (Dict String String) → String → Option String
translation_in none lang = none
translation_in (some translations) lang = lookup lang translations

-- A content that is no text is `none`, and the translations hold only texts.
unfoldable pub select_display :
    Option String → Option (Dict String String) → String → Bool → Bool → Bool → Display
select_display content translations my_lang auto_translate is_pending has_failed =
    let base = get_or content "" in
    if auto_translate
    then with_translation base (translation_in translations (effective_lang my_lang)) has_failed
        is_pending
    else record { state = original; text = base; original_text = base }

-- What a shown text says, for a message with the given content and marks.
abbrev IsSound : String → Bool → Bool → Display → Type 0
IsSound base is_pending has_failed d =
    ((d.state ≡ translated) ↔ ((d.text == d.original_text) ≡ false))
    × (d.original_text ≡ base)
    × (d.state ≡ failed → has_failed ≡ true)
    × (d.state ≡ pending → (is_pending ≡ true) × (has_failed ≡ false))

base-IsSound :
    (base : String) (is_pending has_failed : Bool)
    → IsSound base is_pending has_failed
        (record { state = original; text = base; original_text = base })
base-IsSound base is_pending has_failed = ground (arith, eq_iff base base)

with_translation-IsSound :
    (base : String) (t : Option String) (is_pending has_failed : Bool)
    → IsSound base is_pending has_failed (with_translation base t has_failed is_pending)
with_translation-IsSound base none true true = ground (arith, eq_iff base base)
with_translation-IsSound base none true false = ground (arith, eq_iff base base)
with_translation-IsSound base none false true = ground (arith, eq_iff base base)
with_translation-IsSound base none false false = ground (arith, eq_iff base base)
with_translation-IsSound base (some text) is_pending has_failed =
    ground (arith, eq_iff base base, eq_iff text base)

-- A text other than the original is shown exactly when the state is `translated`, and never
-- without automatic translation; the marks of a failure and of waiting show only then too; and the
-- original is at hand in every state.
pub select_display-states :
    (content : Option String) (translations : Option (Dict String String)) (my_lang : String)
    → (auto_translate is_pending has_failed : Bool)
    → let d = select_display content translations my_lang auto_translate is_pending has_failed in
      ((d.state ≡ translated) ↔ ((d.text == d.original_text) ≡ false))
      × (d.original_text ≡ get_or content "")
      × (auto_translate ≡ false → d.state ≡ original)
      × (d.state ≡ failed → has_failed ≡ true)
      × (d.state ≡ pending → (is_pending ≡ true) × (has_failed ≡ false))
unfolding select_display
select_display-states content translations my_lang true is_pending has_failed =
    let (shows, base, fails, waits) =
      with_translation-IsSound (get_or content "")
        (translation_in translations (effective_lang my_lang)) is_pending has_failed in
    (shows, base, (λ off. cc), fails, waits)
select_display-states content translations my_lang false is_pending has_failed =
    let (shows, base, fails, waits) = base-IsSound (get_or content "") is_pending has_failed in
    (shows, base, (λ off. refl), fails, waits)
