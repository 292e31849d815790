-- ===== src/Server/Window/Laws.antt =====
-- A window that forgets what is old decides as one that remembers everything.
use wos_sfc.Prelude.{
  ℕ, ◌≤◌, ◌≡◌, refl, sym, ap, ◌∙◌, Bool, true, false, List, [], ◌∷◌, ◌++◌, filter, ltb, length,
  if◌then◌else◌, arith, All, All-append, All-filter, filter-append, Bool-cases, ltb→lt,
  length-append, length-filter-le, inl, inr,
}
use wos_sfc.Server.Window.{prune, consume}

-- The times of a request and those that came before it.
abbrev pub IsAscending : List ℕ → Type 0
IsAscending [] = Unit
IsAscending (t ∷ ts) = All (λ (s : ℕ). t ≤ s) ts × IsAscending ts

IsAscending-append :
    (ts : List ℕ) (t : ℕ) → IsAscending ts → All (λ (s : ℕ). s ≤ t) ts → IsAscending (ts ++ t ∷ [])
IsAscending-append [] t a h = (tt, tt)
IsAscending-append (s ∷ ts) t (first, a) (le, h) =
    (All-append (λ (r : ℕ). s ≤ r) ts (t ∷ []) first (le, tt), IsAscending-append ts t a h)

IsAscending-filter : (p : ℕ → Bool) (ts : List ℕ) → IsAscending ts → IsAscending (filter p ts)
IsAscending-filter p [] a = tt
IsAscending-filter p (t ∷ ts) (first, a) = elim (Bool-cases (p t)) [
  | inl kept ↦ rw kept (All-filter (λ (s : ℕ). t ≤ s) p ts first, IsAscending-filter p ts a)
  | inr dropped ↦ rw dropped (IsAscending-filter p ts a)
]

module _ (limit : ℕ) (is_fresh : ℕ → ℕ → Bool) where
  -- The reference: all allowed requests are remembered, and those in the window are counted.
  unfoldable pub count_all : ℕ → List ℕ → List ℕ × Bool
  count_all now log =
      if ltb (length (filter (is_fresh now) log)) limit
      then (log ++ now ∷ [], true)
      else (log, false)

-- A window that moves with the time: what is out of it stays out, and what is older than something
-- out of it is out of it too.
pub record IsWindow (is_fresh : ℕ → ℕ → Bool) : Type 0 where
  pub moves : (now later t : ℕ) → now ≤ later → is_fresh later t ≡ true → is_fresh now t ≡ true
  pub fresh_now : (now : ℕ) → is_fresh now now ≡ true
  pub orders : (now s t : ℕ) → s ≤ t → is_fresh now s ≡ true → is_fresh now t ≡ true

module _ (limit : ℕ) (is_fresh : ℕ → ℕ → Bool) (w : IsWindow is_fresh) where
  filter_fresh :
      (now s : ℕ) (ts : List ℕ)
      → is_fresh now s ≡ true
      → All (λ (t : ℕ). s ≤ t) ts
      → filter (is_fresh now) ts ≡ ts
  filter_fresh now s [] h a = refl
  filter_fresh now s (t ∷ ts) h (le, a) =
      rw (w.orders now s t le h) (ap (λ rest. t ∷ rest) (filter_fresh now s ts h a))

  prune-filter :
      (now : ℕ) (ts : List ℕ) → IsAscending ts → prune (is_fresh now) ts ≡ filter (is_fresh now) ts
  unfolding prune
  prune-filter now [] a = refl
  prune-filter now (t ∷ ts) (first, a) = elim (Bool-cases (is_fresh now t)) [
    | inl fresh ↦ rw fresh (ap (λ rest. t ∷ rest) (sym (filter_fresh now t ts fresh first)))
    | inr old ↦ rw old (prune-filter now ts a)
  ]

  filter_later :
      (now later : ℕ) (ts : List ℕ)
      → now ≤ later
      → filter (is_fresh later) (filter (is_fresh now) ts) ≡ filter (is_fresh later) ts
  filter_later now later [] h = refl
  filter_later now later (t ∷ ts) h =
      ground (arith, filter_later now later ts h, w.moves now later t h)

  -- The times that the window keeps are those of the whole record that are in the window.
  abbrev pub IsCut : ℕ → List ℕ → List ℕ → Type 0
  IsCut now times log =
      (times ≡ filter (is_fresh now) log) × IsAscending log × All (λ (t : ℕ). t ≤ now) log

  kept_times :
      (before now : ℕ) (times log : List ℕ)
      → before ≤ now
      → IsCut before times log
      → prune (is_fresh now) times ≡ filter (is_fresh now) log
  kept_times before now times log h (same, asc, past) =
      ap (prune (is_fresh now)) same
      ∙ prune-filter now (filter (is_fresh before) log)
          (IsAscending-filter (is_fresh before) log asc)
      ∙ filter_later before now log h

  All-later :
      (before now : ℕ) (log : List ℕ)
      → before ≤ now
      → All (λ (t : ℕ). t ≤ before) log
      → All (λ (t : ℕ). t ≤ now) log
  All-later before now [] h a = tt
  All-later before now (t ∷ log) h (le, a) = (omega (arith, h, le), All-later before now log h a)

  pub consume-IsCut :
      (before now : ℕ) (times log : List ℕ)
      → before ≤ now
      → IsCut before times log
      → ((consume limit is_fresh now times).1 ≡ (count_all limit is_fresh now log).1)
        × IsCut now (consume limit is_fresh now times).0 (count_all limit is_fresh now log).0
  unfolding consume count_all
  consume-IsCut before now times log h cut =
      let kept = kept_times before now times log h cut in
      let past = All-later before now log h cut.2 in
      elim (Bool-cases (ltb (length (filter (is_fresh now) log)) limit)) [
        | inl room ↦
            rw (kept, room)
              (
                refl,
                (
                  appended now log (w.fresh_now now),
                  IsAscending-append log now cut.1 past,
                  All-append (λ (t : ℕ). t ≤ now) log (now ∷ []) past (omega arith, tt),
                ),
              )
        | inr full ↦ rw (kept, full) (refl, (refl, cut.1, past))
      ]
    where
      appended :
          (now : ℕ) (log : List ℕ)
          → is_fresh now now ≡ true
          → filter (is_fresh now) log ++ now ∷ [] ≡ filter (is_fresh now) (log ++ now ∷ [])
      appended now log fresh = sym (filter-append (is_fresh now) log (now ∷ []) ∙ rw fresh refl)

  -- At any later time at most `limit` of the allowed requests are in the window.
  abbrev pub IsBounded : ℕ → List ℕ → Type 0
  IsBounded now log = (later : ℕ) → now ≤ later → length (filter (is_fresh later) log) ≤ limit

  length-filter_later :
      (now later : ℕ) (log : List ℕ)
      → now ≤ later
      → length (filter (is_fresh later) log) ≤ length (filter (is_fresh now) log)
  length-filter_later now later [] h = omega arith
  length-filter_later now later (t ∷ log) h =
      ground (arith, length-filter_later now later log h, w.moves now later t h)

  pub count_all-IsBounded :
      (before now : ℕ) (log : List ℕ)
      → before ≤ now
      → IsBounded before log
      → IsBounded now (count_all limit is_fresh now log).0
  unfolding count_all
  count_all-IsBounded before now log h b later le =
      elim (Bool-cases (ltb (length (filter (is_fresh now) log)) limit)) [
        | inl room ↦ rw room (
            omega (
              arith,
              ltb→lt _ _ room,
              length-filter_later now later log le,
              ap length (filter-append (is_fresh later) log (now ∷ [])),
              length-append (filter (is_fresh later) log) (filter (is_fresh later) (now ∷ [])),
              length-filter-le (is_fresh later) (now ∷ []),
            ))
        | inr full ↦ rw full (b later (omega (arith, h, le)))
      ]
