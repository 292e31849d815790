-- ===== src/Board/Path.antt =====
-- `compactOperationPath` (web/src/components/OperationBoard/operationBoardTypes.js). A text is the
-- list of its UTF-16 units. `match_all` is the match with the regular expression of the steps of a
-- path: the list of the steps that it finds.
pub mod Laws
use wos_sfc.Prelude.{
  ℕ, zero, suc, ◌+◌, ◌%◌, Bool, ◌&&◌, ◌||◌, List, [], ◌∷◌, ◌++◌, ltb, eqb, length, if◌then◌else◌,
}

abbrev pub Units : Type 0
Units = List ℕ

abbrev pub max_path_length : ℕ
max_path_length = 512

-- `tokens.join(' ')`
unfoldable pub join : List Units → Units
join [] = []
join (t ∷ []) = t
join (t ∷ u ∷ ts) = t ++ 32 ∷ join (u ∷ ts)

abbrev pub is_long : List Units → Bool
is_long sampled = ltb max_path_length (length (join sampled))

-- The test of the filter, for the step with the number `index` of `count` in all.
abbrev pub is_sampled : ℕ → ℕ → ℕ → Bool
is_sampled count step index = eqb index 0 || eqb (index + 1) count || eqb (index % step) 0

unfoldable pub sample : ℕ → ℕ → ℕ → List Units → List Units
sample count step index [] = []
sample count step index (t ∷ ts) =
    let rest = sample count step (index + 1) ts in
    if is_sampled count step index then t ∷ rest else rest

-- The first loop, on fuel; the step that it ends with stands beside the sample.
unfoldable pub thin : ℕ → ℕ → List Units → List Units → ℕ × List Units
thin zero step tokens sampled = (step, sampled)
thin (suc fuel) step tokens sampled =
    let rest = thin fuel (step + 1) tokens (sample (length tokens) (step + 1) 0 tokens) in
    if is_long sampled && ltb step (length tokens) then rest else (step, sampled)

-- `sampled.splice(sampled.length - 2, 1)`
unfoldable pub drop_penultimate : List Units → List Units
drop_penultimate [] = []
drop_penultimate (t ∷ []) = t ∷ []
drop_penultimate (t ∷ u ∷ []) = u ∷ []
drop_penultimate (t ∷ u ∷ v ∷ ts) = t ∷ drop_penultimate (u ∷ v ∷ ts)

-- The second loop, on fuel.
unfoldable pub trim : ℕ → List Units → List Units
trim zero sampled = sampled
trim (suc fuel) sampled =
    let rest = trim fuel (drop_penultimate sampled) in
    if is_long sampled && ltb 2 (length sampled) then rest else sampled

-- `text.slice(0, n)`
unfoldable pub slice : ℕ → Units → Units
slice zero text = []
slice (suc n) [] = []
slice (suc n) (c ∷ text) = c ∷ slice n text

-- Both loops, with a turn for each step of the path.
unfoldable pub sampled_path : List Units → List Units
unfolding thin trim
sampled_path tokens =
    let sampled = (thin (length tokens) 1 tokens tokens).1 in trim (length sampled) sampled

abbrev pub compact_tokens : List Units → Units
compact_tokens [] = []
compact_tokens (t ∷ ts) = slice max_path_length (join (sampled_path (t ∷ ts)))

module _ (match_all : Units → List Units) where
  unfoldable pub compact_operation_path : Units → Units
  compact_operation_path path = compact_tokens (match_all path)
