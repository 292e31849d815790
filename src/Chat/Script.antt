-- ===== src/Chat/Script.antt =====
-- The script of a text and the language that it is sure to be in (web/src/chat/script.js).
pub mod Laws
use Prim.Native.Char.{code}
use wos_sfc.Prelude.{
  ℕ, suc, ◌+◌, String, Bool, true, false, ◌&&◌, Option, none, some, List, [], ◌∷◌, any, leb, ltb,
  eqb, if◌then◌else◌, string_eq, ◌==◌,
}

abbrev pub supported_targets : List String
supported_targets = "ko" ∷ "en" ∷ "ja" ∷ "zh" ∷ "ru" ∷ []

-- The code points of a text, as `for (const ch of text)` goes through them.
abbrev pub codes : String → List ℕ
codes String.[] = []
codes (String.◌∷◌ c s) = code c ∷ codes s

pub data Script : Type 0 where
  hangul kana han cyrillic latin : Script

abbrev in_ranges : List (ℕ × ℕ) → ℕ → Bool
in_ranges ranges c = any (λ (r : ℕ × ℕ). leb r.0 c && leb c r.1) ranges

-- `SCRIPT_RANGES`, whose first match counts.
unfoldable pub script_of : ℕ → Option Script
script_of c =
    if in_ranges ((0x1100, 0x11ff) ∷ (0x3130, 0x318f) ∷ (0xac00, 0xd7af) ∷ []) c
    then some hangul
    else if in_ranges
        ((0x3040, 0x309f) ∷ (0x30a0, 0x30ff) ∷ (0x31f0, 0x31ff) ∷ (0xff66, 0xff9f) ∷ []) c
    then some kana
    else if in_ranges ((0x3400, 0x4dbf) ∷ (0x4e00, 0x9fff) ∷ (0xf900, 0xfaff) ∷ []) c
    then some han
    else if in_ranges ((0x400, 0x4ff) ∷ (0x500, 0x52f) ∷ []) c
    then some cyrillic
    else if in_ranges ((0x41, 0x5a) ∷ (0x61, 0x7a) ∷ (0xc0, 0x24f) ∷ []) c
    then some latin
    else none

pub record Counts : Type 0 where
  pub hangul : ℕ
  pub kana : ℕ
  pub han : ℕ
  pub cyrillic : ℕ
  pub latin : ℕ

abbrev pub bump : Option Script → Counts → Counts
bump none n = n
bump (some Script.hangul) n = record n { hangul = n.hangul + 1 }
bump (some Script.kana) n = record n { kana = n.kana + 1 }
bump (some Script.han) n = record n { han = n.han + 1 }
bump (some Script.cyrillic) n = record n { cyrillic = n.cyrillic + 1 }
bump (some Script.latin) n = record n { latin = n.latin + 1 }

abbrev pub no_counts : Counts
no_counts = record { hangul = 0; kana = 0; han = 0; cyrillic = 0; latin = 0 }

-- The loop of `countScripts`, from the counts so far.
unfoldable pub count_scripts : Counts → List ℕ → Counts
count_scripts n [] = n
count_scripts n (c ∷ cs) = count_scripts (bump (script_of c) n) cs

pub data Detected : Type 0 where
  ko ja ru han latin mixed silent : Detected

abbrev pub total : Counts → ℕ
total n = n.hangul + n.kana + n.han + n.cyrillic + n.latin

abbrev pub classify : Counts → Detected
classify n =
    if eqb (total n) 0
    then silent
    else if eqb n.hangul (total n)
    then ko
    else if eqb n.cyrillic (total n)
    then ru
    else if eqb n.latin (total n)
    then Detected.latin
    else if eqb n.han (total n)
    then Detected.han
    else if eqb (n.kana + n.han) (total n) && ltb 0 n.kana
    then ja
    else mixed

-- `'none'`, a text without letters, is `silent`.
unfoldable pub detect_script : List ℕ → Detected
unfolding count_scripts
detect_script text = classify (count_scripts no_counts text)

abbrev sure : Detected → Option String
sure ko = some "ko"
sure ja = some "ja"
sure ru = some "ru"
sure _ = none

unfoldable pub unambiguous_lang : List ℕ → Option String
unfolding detect_script
unambiguous_lang text = sure (detect_script text)

-- `other` and unknown languages become English.
unfoldable pub effective_lang : String → String
effective_lang language =
    if any (λ (l : String). l == language) supported_targets then language else "en"
