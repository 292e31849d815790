-- ===== src/Audio/Plans.antt =====
-- The two schedules of the player: the numbers of a countdown (web/src/components/Battle/
-- countdownPlayer.js) and the voices of a rally (web/src/components/Battle/rallyGroupPlayer.js).
pub mod Laws
use wos_sfc.Prelude.{
  ℕ, zero, suc, ◌+◌, ◌-◌, ◌*◌, ◌/◌, min, max, String, ◌≡◌, ◌↔◌, Bool, true, false, not, ◌&&◌, ◌||◌,
  Option, none, some, List, [], ◌∷◌, ◌++◌, map, filter, any, ltb, leb, eqb, if◌then◌else◌, Eq, ◌==◌,
  string_eq, nat_eq, contains, arith,
}
use text.Mathlib.TextEquality.{eq_iff}
use wos_sfc.Prelude.Int.{ℤ, pos, negsuc}
use wos_sfc.Audio.Player.{Plan}

-- The texts `N`, `march`, `captain_N` and `rally_start_N` after the language.
pub data Voice : Type 0 where
  number captain rally_start : ℕ → Voice
  march : Voice

pub record Key : Type 0 where
  pub lang : String
  pub voice : Voice

abbrev pub same_voice : Voice → Voice → Bool
same_voice (number a) (number b) = eqb a b
same_voice (captain a) (captain b) = eqb a b
same_voice (rally_start a) (rally_start b) = eqb a b
same_voice march march = true
same_voice _ _ = false

abbrev pub same_key : Key → Key → Bool
same_key a b = a.lang == b.lang && same_voice a.voice b.voice

pub same_voice_iff : (a b : Voice) → (same_voice a b ≡ true) ↔ (a ≡ b)
same_voice_iff (number a) (number b) = ground arith
same_voice_iff (number a) (captain b) = ground arith
same_voice_iff (number a) (rally_start b) = ground arith
same_voice_iff (number a) march = ground arith
same_voice_iff (captain a) (number b) = ground arith
same_voice_iff (captain a) (captain b) = ground arith
same_voice_iff (captain a) (rally_start b) = ground arith
same_voice_iff (captain a) march = ground arith
same_voice_iff (rally_start a) (number b) = ground arith
same_voice_iff (rally_start a) (captain b) = ground arith
same_voice_iff (rally_start a) (rally_start b) = ground arith
same_voice_iff (rally_start a) march = ground arith
same_voice_iff march (number b) = ground arith
same_voice_iff march (captain b) = ground arith
same_voice_iff march (rally_start b) = ground arith
same_voice_iff march march = ground arith

pub same_key_iff : (a b : Key) → (same_key a b ≡ true) ↔ (a ≡ b)
same_key_iff a b = ground (arith, eq_iff a.lang b.lang, same_voice_iff a.voice b.voice)

instance abbrev pub key_eq : Eq Key
key_eq = record { beq = same_key; beq_iff = same_key_iff }

-- `marchSeconds` is `none` where it is no integer.
pub record CountdownParams : Type 0 where
  pub total_seconds : ℕ
  pub started_at : ℕ
  pub time_offset : ℤ
  pub lang : String
  pub march_seconds : Option ℕ

unfoldable pub march_slot_seconds : Option ℕ → ℕ → Option ℕ
march_slot_seconds none total = none
march_slot_seconds (some march_seconds) total =
    if ltb march_seconds 1 || ltb 180 march_seconds
    then none
    else if ltb total march_seconds
    then none
    else some march_seconds

-- The numbers from `n` down to 1.
unfoldable pub number_slots : String → ℕ → ℕ → List (Key × ℤ)
number_slots lang total zero = []
number_slots lang total (suc n) =
    (record { lang = lang; voice = number (suc n) }, pos ((total - suc n) * 1000))
    ∷ number_slots lang total n

abbrev march_slots : String → ℕ → Option ℕ → List (Key × ℤ)
march_slots lang total none = []
march_slots lang total (some s) =
    (record { lang = lang; voice = march }, pos ((total - s) * 1000)) ∷ []

unfoldable pub countdown_slots : CountdownParams → List (Key × ℤ)
unfolding number_slots march_slot_seconds
countdown_slots c =
    number_slots c.lang c.total_seconds c.total_seconds
    ++ march_slots c.lang c.total_seconds (march_slot_seconds c.march_seconds c.total_seconds)

abbrev pub countdown_plan : Plan Key CountdownParams
countdown_plan = record {
  is_playable =
      λ c. not (eqb c.started_at 0 || eqb c.total_seconds 0) && not (ltb c.total_seconds 2);
  started_at = λ c. c.started_at;
  time_offset = λ c. c.time_offset;
  slots = countdown_slots;
}

pub record FireOffset : Type 0 where
  pub order_index : ℕ
  pub offset_ms : ℕ

-- `fireOffsets` is `none` where it is no array, `displayOrder` where it is missing.
pub record RallyParams : Type 0 where
  pub started_at : ℕ
  pub fire_offsets : Option (List FireOffset)
  pub time_offset : ℤ
  pub lang : String
  pub display_order : Option ℕ

abbrev pub max_offset_sec : ℕ
max_offset_sec = 180

abbrev pub safe_lang : String → String
safe_lang lang =
    if any (λ (l : String). l == lang) ("ko" ∷ "en" ∷ "ja" ∷ "zh" ∷ []) then lang else "ko"

-- `Math.round(f.offsetMs / 1000)`
abbrev pub second_of : FireOffset → ℕ
second_of f = (f.offset_ms + 500) / 1000

abbrev max_of : List ℕ → ℕ
max_of [] = 0
max_of (n ∷ ns) = max n (max_of ns)

unfoldable pub last_second : List FireOffset → ℕ
last_second offsets = min (max_of (map second_of offsets)) max_offset_sec

-- The seconds of the loop, from `t` on, `left` in all: those after the third that no captain has.
unfoldable pub counted_from : List FireOffset → ℕ → ℕ → List ℕ
counted_from offsets t zero = []
counted_from offsets t (suc left) =
    let rest = counted_from offsets (t + 1) left in
    if leb t 3 || contains t (map second_of offsets) then rest else t ∷ rest

unfoldable pub counted_seconds : List FireOffset → List ℕ
unfolding last_second counted_from
counted_seconds offsets = counted_from offsets 1 (last_second offsets)

abbrev start_slots : String → Option ℕ → List (Key × ℤ)
start_slots lang none = []
start_slots lang (some order) =
    if eqb order 0
    then []
    else (record { lang = lang; voice = rally_start order }, negsuc 5999) ∷ []

abbrev captain_slot : String → FireOffset → Key × ℤ
captain_slot lang f = (record { lang = lang; voice = captain f.order_index }, pos f.offset_ms)

abbrev counted_slot : String → ℕ → Key × ℤ
counted_slot lang t = (record { lang = lang; voice = number t }, pos (t * 1000))

abbrev offset_slots : String → Option (List FireOffset) → List (Key × ℤ)
offset_slots lang none = []
offset_slots lang (some offsets) =
    map (captain_slot lang) offsets ++ map (counted_slot lang) (counted_seconds offsets)

unfoldable pub rally_slots : RallyParams → List (Key × ℤ)
unfolding counted_seconds
rally_slots r =
    let lang = safe_lang r.lang in
    start_slots lang r.display_order
    ++ (record { lang = lang; voice = number 3 }, negsuc 2999)
      ∷ (record { lang = lang; voice = number 2 }, negsuc 1999)
      ∷ (record { lang = lang; voice = number 1 }, negsuc 999)
      ∷ offset_slots lang r.fire_offsets

abbrev is_list : Option (List FireOffset) → Bool
is_list none = false
is_list (some _) = true

abbrev pub rally_plan : Plan Key RallyParams
rally_plan = record {
  is_playable = λ r. not (eqb r.started_at 0) && is_list r.fire_offsets;
  started_at = λ r. r.started_at;
  time_offset = λ r. r.time_offset;
  slots = rally_slots;
}
