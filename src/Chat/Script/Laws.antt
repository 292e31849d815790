-- ===== src/Chat/Script/Laws.antt =====
-- When `unambiguousLang` is sure of a language.
use wos_sfc.Prelude.{ℕ, ◌+◌, ◌<◌, ◌≡◌, ◌↔◌, Option, none, some, List, [], ◌∷◌, arith, ◌++◌, length}
use wos_sfc.Chat.Script.{
  Script, script_of, Counts, bump, no_counts, count_scripts, Detected, detect_script,
}

abbrev pub letter_of : Option Script → List Script
letter_of none = []
letter_of (some s) = s ∷ []

-- The scripts of the letters of a text, in order.
unfoldable pub letters : List ℕ → List Script
letters [] = []
letters (c ∷ cs) = letter_of (script_of c) ++ letters cs

abbrev pub one_if : Script → Script → ℕ
one_if Script.hangul Script.hangul = 1
one_if Script.kana Script.kana = 1
one_if Script.han Script.han = 1
one_if Script.cyrillic Script.cyrillic = 1
one_if Script.latin Script.latin = 1
one_if _ _ = 0

abbrev pub count : Script → List Script → ℕ
count s [] = 0
count s (x ∷ xs) = one_if s x + count s xs

-- Only letters of one script.
abbrev pub Only : Script → List Script → Type 0
Only s xs = (0 < length xs) × (count s xs ≡ length xs)

-- What the counts say of the scripts that follow.
abbrev Counted : Counts → List Script → Counts → Type 0
Counted n xs m =
    (m.hangul ≡ n.hangul + count Script.hangul xs)
    × (m.kana ≡ n.kana + count Script.kana xs)
    × (m.han ≡ n.han + count Script.han xs)
    × (m.cyrillic ≡ n.cyrillic + count Script.cyrillic xs)
    × (m.latin ≡ n.latin + count Script.latin xs)

Counted-cons :
    (o : Option Script) (n m : Counts) (xs : List Script)
    → Counted (bump o n) xs m
    → Counted n (letter_of o ++ xs) m
Counted-cons none n m xs h = h
Counted-cons (some Script.hangul) n m xs h = omega arith
Counted-cons (some Script.kana) n m xs h = omega arith
Counted-cons (some Script.han) n m xs h = omega arith
Counted-cons (some Script.cyrillic) n m xs h = omega arith
Counted-cons (some Script.latin) n m xs h = omega arith

count_scripts-Counted : (n : Counts) (cs : List ℕ) → Counted n (letters cs) (count_scripts n cs)
unfolding count_scripts letters
count_scripts-Counted n [] = omega arith
count_scripts-Counted n (c ∷ cs) =
    Counted-cons (script_of c) n _ (letters cs) (count_scripts-Counted (bump (script_of c) n) cs)

count_total :
    (xs : List Script)
    → count Script.hangul xs
        + count Script.kana xs
        + count Script.han xs
        + count Script.cyrillic xs
        + count Script.latin xs
      ≡ length xs
count_total [] = omega arith
count_total (Script.hangul ∷ xs) = omega (arith, count_total xs)
count_total (Script.kana ∷ xs) = omega (arith, count_total xs)
count_total (Script.han ∷ xs) = omega (arith, count_total xs)
count_total (Script.cyrillic ∷ xs) = omega (arith, count_total xs)
count_total (Script.latin ∷ xs) = omega (arith, count_total xs)

-- The client is sure of Korean exactly for a text whose letters are all Hangul, of Russian exactly
-- where all are Cyrillic, and of Japanese exactly where all are Kana or Han and one is Kana; each
-- time there is a letter. What is no letter never counts.
pub detect_script_sure :
    (cs : List ℕ)
    → ((detect_script cs ≡ Detected.ko) ↔ Only Script.hangul (letters cs))
      × ((detect_script cs ≡ Detected.ru) ↔ Only Script.cyrillic (letters cs))
      × ((detect_script cs ≡ Detected.ja) ↔ (
          (0 < count Script.kana (letters cs))
          × (count Script.kana (letters cs) + count Script.han (letters cs) ≡ length (letters cs))))
unfolding detect_script
detect_script_sure cs = (
  (ground (arith, c, t), ground (arith, c, t)),
  (ground (arith, c, t), ground (arith, c, t)),
  (ground (arith, c, t), ground (arith, c, t)),
)
  where
    c : Counted no_counts (letters cs) (count_scripts no_counts cs)
    c = count_scripts-Counted no_counts cs

    t :
        count Script.hangul (letters cs)
          + count Script.kana (letters cs)
          + count Script.han (letters cs)
          + count Script.cyrillic (letters cs)
          + count Script.latin (letters cs)
        ≡ length (letters cs)
    t = count_total (letters cs)
