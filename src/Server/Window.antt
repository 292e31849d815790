-- ===== src/Server/Window.antt =====
-- The sliding windows of the server's limits: a list of times, the oldest first, whose old end is
-- cut off before each decision.
pub mod Laws
use wos_sfc.Prelude.{ℕ, Bool, true, false, List, [], ◌∷◌, ◌++◌, ltb, length, if◌then◌else◌}

module _ (is_fresh : ℕ → Bool) where
  -- `while (timestamps.length > 0 && ...) timestamps.shift()`
  unfoldable pub prune : List ℕ → List ℕ
  prune [] = []
  prune (t ∷ ts) = if is_fresh t then t ∷ ts else prune ts

module _ (limit : ℕ) (is_fresh : ℕ → ℕ → Bool) where
  -- One request at the time `now`: whether it is allowed, and the times that are kept.
  unfoldable pub consume : ℕ → List ℕ → List ℕ × Bool
  unfolding prune
  consume now times =
      let kept = prune (is_fresh now) times in
      if ltb (length kept) limit then (kept ++ now ∷ [], true) else (kept, false)
