-- ===== src/Audio/Player/Laws.antt =====
-- Lemmas on lists that the proofs about the player share.
use wos_sfc.Prelude.{ℕ, List, [], ◌∷◌, eqb, nat_eq, All, Bool-cases, inl, inr}
use wos_sfc.Prelude.Dict.{Dict, remove, keep}
use wos_sfc.Audio.Player.{Stage}

pub All-weaken :
    {A : Type 0} (Q R : A → Type 0) (xs : List A) → ((x : A) → Q x → R x) → All Q xs → All R xs
All-weaken Q R [] f h = tt
All-weaken Q R (x ∷ xs) f (q, h) = (f x q, All-weaken Q R xs f h)

pub All-remove :
    {P : Type 0} (Q : ℕ × (Stage × P) → Type 0) (k : ℕ) (d : Dict ℕ (Stage × P))
    → All Q d
    → All Q (remove k d)
unfolding remove keep
All-remove Q k [] h = tt
All-remove Q k ((j, w) ∷ d) (q, h) = elim (Bool-cases (eqb k j)) [
  | inl same ↦ rw same (All-remove Q k d h)
  | inr other ↦ rw other (q, All-remove Q k d h)
]
