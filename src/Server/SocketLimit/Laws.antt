-- ===== src/Server/SocketLimit/Laws.antt =====
-- Each event of each socket has its own limit, and old requests are forgotten without a trace.
use wos_sfc.Prelude.{
  ℕ, ◌≤◌, ◌≡◌, refl, ap, ◌∙◌, ◌++◌, String, Bool, true, false, ◌&&◌, List, [], ◌∷◌, arith, filter,
  length, get_or, if◌then◌else◌, string_eq, Bool-cases, inl, inr,
}
use text.Mathlib.TextEquality.{eq_iff}
use wos_sfc.Prelude.Dict.{lookup, insert, lookup-insert, lookup-remove}
use wos_sfc.Server.Window.Laws.{
  count_all, IsWindow, IsCut, consume-IsCut, IsBounded, count_all-IsBounded,
}
use wos_sfc.Server.SocketLimit.{
  Bucket, Buckets, new_bucket, bucket_of, is_within, next_bucket, check, cleanup, Call, request,
  gone, check_rule, answers,
}

abbrev pub is_same : String → String → String → String → Bool
is_same socket event s e = string_eq.beq socket s && string_eq.beq event e

module _ (rule : String → ℕ × ℕ) where
  -- The reference for one event of one socket: every allowed request is remembered until the
  -- socket ends, and a request is allowed while fewer than the limit are in the window.
  unfoldable pub expected : String → String → List Call → List ℕ → List Bool
  expected socket event [] log = []
  expected socket event (request s e now ∷ calls) log =
      let (log', allowed) = count_all (rule event).0 (is_within (rule event).1) now log in
      let others = expected socket event calls log in
      let rest = expected socket event calls log' in
      if is_same socket event s e then allowed ∷ rest else others
  expected socket event (gone s ∷ calls) log =
      expected socket event calls (if string_eq.beq socket s then [] else log)

  -- The times of the requests of that event that the service allows in a run, those since the
  -- socket last ended, after the times in `log`.
  unfoldable pub allowed_times : String → String → List Call → Buckets → List ℕ → List ℕ
  allowed_times socket event [] buckets log = log
  allowed_times socket event (request s e now ∷ calls) buckets log =
      let (buckets', allowed) = check_rule rule s e now buckets in
      allowed_times socket event calls buckets'
        (if is_same socket event s e && allowed then log ++ now ∷ [] else log)
  allowed_times socket event (gone s ∷ calls) buckets log =
      allowed_times socket event calls (cleanup s buckets)
        (if string_eq.beq socket s then [] else log)

  -- The requests that the reference remembers at the end.
  unfoldable counted_times : String → String → List Call → List ℕ → List ℕ
  counted_times socket event [] log = log
  counted_times socket event (request s e now ∷ calls) log = counted_times socket event calls (
      if is_same socket event s e
      then (count_all (rule event).0 (is_within (rule event).1) now log).0
      else log)
  counted_times socket event (gone s ∷ calls) log =
      counted_times socket event calls (if string_eq.beq socket s then [] else log)

-- The clock does not go back between two requests.
abbrev pub IsInOrder : ℕ → List Call → Type 0
IsInOrder before [] = Unit
IsInOrder before (request s e now ∷ calls) = (before ≤ now) × IsInOrder now calls
IsInOrder before (gone s ∷ calls) = IsInOrder before calls

abbrev pub last_time : ℕ → List Call → ℕ
last_time before [] = before
last_time before (request s e now ∷ calls) = last_time now calls
last_time before (gone s ∷ calls) = last_time before calls

within-IsWindow : (window_ms : ℕ) → IsWindow (is_within window_ms)
within-IsWindow window_ms = record {
  moves = λ now later t h fresh. ground arith;
  fresh_now = λ now. ground arith;
  orders = λ now s t h fresh. ground arith;
}

bucket_of-insert :
    (socket event s e : String) (b : Bucket) (buckets : Buckets)
    → bucket_of socket event (insert s (insert e b (get_or (lookup s buckets) [])) buckets)
      ≡ (if is_same socket event s e then b else bucket_of socket event buckets)
bucket_of-insert socket event s e b buckets = ground (
  arith,
  lookup-insert s socket (insert e b (get_or (lookup s buckets) [])) buckets,
  lookup-insert e event b (get_or (lookup s buckets) []),
  eq_iff socket s,
)

bucket_of-cleanup :
    (socket event s : String) (buckets : Buckets)
    → bucket_of socket event (cleanup s buckets)
      ≡ (if string_eq.beq socket s then new_bucket else bucket_of socket event buckets)
unfolding cleanup lookup
bucket_of-cleanup socket event s buckets =
    ground (arith, lookup-remove s socket buckets, eq_iff socket s, eq_iff s socket)

module _ (rule : String → ℕ × ℕ) (socket event : String) where
  abbrev Kept : ℕ → Buckets → List ℕ → Type 0
  Kept before buckets log =
      IsCut (rule event).0 (is_within (rule event).1) (within-IsWindow (rule event).1) before
        (bucket_of socket event buckets).timestamps log

  abbrev Decided : List ℕ × Bool → ℕ → Buckets → Buckets × Bool → Type 0
  Decided counted now buckets checked = (checked.1 ≡ counted.1) × Kept now checked.0 counted.0

  own_bucket :
      (now : ℕ) (buckets : Buckets)
      → bucket_of socket event (check_rule rule socket event now buckets).0
        ≡ (next_bucket (rule event).0 (rule event).1 now (bucket_of socket event buckets)).0
  unfolding check
  own_bucket now buckets =
      bucket_of-insert socket event socket event
        (next_bucket (rule event).0 (rule event).1 now (bucket_of socket event buckets)).0 buckets
      ∙ rw ((eq_iff socket socket).1 refl, (eq_iff event event).1 refl) refl

  -- A request at `now` is answered as the reference answers it, and the cut follows.
  check-Kept :
      (last now : ℕ) (buckets : Buckets) (log : List ℕ)
      → last ≤ now
      → Kept last buckets log
      → Decided
          (count_all (rule event).0 (is_within (rule event).1) now log)
          now
          buckets
          (check_rule rule socket event now buckets)
  unfolding check
  check-Kept last now buckets log h kept =
      let (decided, cut) =
        consume-IsCut (rule event).0 (is_within (rule event).1) (within-IsWindow (rule event).1)
          last now (bucket_of socket event buckets).timestamps log h kept in
      (decided, (ap (λ (b : Bucket). b.timestamps) (own_bucket now buckets) ∙ cut.0, cut.1, cut.2))

  check_other :
      (s e : String) (now : ℕ) (buckets : Buckets)
      → is_same socket event s e ≡ false
      → bucket_of socket event (check_rule rule s e now buckets).0 ≡ bucket_of socket event buckets
  unfolding check
  check_other s e now buckets other =
      bucket_of-insert socket event s e
        (next_bucket (rule e).0 (rule e).1 now (bucket_of s e buckets)).0 buckets
      ∙ rw other refl

  keep :
      (last : ℕ) (buckets buckets' : Buckets) (log : List ℕ)
      → bucket_of socket event buckets' ≡ bucket_of socket event buckets
      → Kept last buckets log
      → Kept last buckets' log
  keep last buckets buckets' log same kept =
      (ap (λ (b : Bucket). b.timestamps) same ∙ kept.0, kept.1, kept.2)

  keep_cleanup :
      (last : ℕ) (s : String) (buckets : Buckets) (log : List ℕ)
      → Kept last buckets log
      → Kept last (cleanup s buckets) (if string_eq.beq socket s then [] else log)
  keep_cleanup last s buckets log kept = elim (Bool-cases (string_eq.beq socket s)) [
    | inl own ↦ rw own (ap (λ (b : Bucket). b.timestamps) (cleaned own), tt, tt)
    | inr other ↦ rw other (
        keep last buckets (cleanup s buckets) log
          (bucket_of-cleanup socket event s buckets ∙ rw other refl) kept)
  ]
    where
      cleaned :
          string_eq.beq socket s ≡ true → bucket_of socket event (cleanup s buckets) ≡ new_bucket
      cleaned own = bucket_of-cleanup socket event s buckets ∙ rw own refl

  is_same→names : (s e : String) → is_same socket event s e ≡ true → (s ≡ socket) × (e ≡ event)
  is_same→names s e same =
      (ground (arith, same, eq_iff socket s), ground (arith, same, eq_iff event e))

  is_same_own : is_same socket event socket event ≡ true
  is_same_own = rw ((eq_iff socket socket).1 refl, (eq_iff event event).1 refl) refl

  answers_from :
      (calls : List Call) (last before : ℕ) (buckets : Buckets) (log : List ℕ)
      → last ≤ before
      → Kept last buckets log
      → IsInOrder before calls
      → answers rule socket event calls buckets ≡ expected rule socket event calls log
  unfolding answers expected
  answers_from [] last before buckets log le kept order = refl
  answers_from (request s e now ∷ calls) last before buckets log le kept (h, order) =
      elim (Bool-cases (is_same socket event s e)) [
        | inl same ↦
            let (decided, kept') = check-Kept last now buckets log (omega (arith, le, h)) kept in
            rw ((is_same→names s e same).0, (is_same→names s e same).1, is_same_own, decided)
              (ap (λ rest. (count_all (rule event).0 (is_within (rule event).1) now log).1 ∷ rest)
                (answers_from calls now now (check_rule rule socket event now buckets).0
                  (count_all (rule event).0 (is_within (rule event).1) now log).0 (omega arith)
                  kept' order))
        | inr other ↦ rw other (
            answers_from calls last now (check_rule rule s e now buckets).0 log
              (omega (arith, le, h))
              (keep last buckets (check_rule rule s e now buckets).0 log
                (check_other s e now buckets other) kept)
              order)
      ]
  answers_from (gone s ∷ calls) last before buckets log le kept order =
      answers_from calls last before (cleanup s buckets)
        (if string_eq.beq socket s then [] else log) le (keep_cleanup last s buckets log kept) order

  abbrev Limited : ℕ → List ℕ → Type 0
  Limited before log =
      IsBounded (rule event).0 (is_within (rule event).1) (within-IsWindow (rule event).1) before
        log

  counted_times_from :
      (calls : List Call) (before : ℕ) (log : List ℕ)
      → Limited before log
      → IsInOrder before calls
      → Limited (last_time before calls) (counted_times rule socket event calls log)
  unfolding counted_times
  counted_times_from [] before log b order = b
  counted_times_from (request s e now ∷ calls) before log b (h, order) =
      elim (Bool-cases (is_same socket event s e)) [
        | inl same ↦ rw same (
            counted_times_from calls now
              (count_all (rule event).0 (is_within (rule event).1) now log).0
              (count_all-IsBounded (rule event).0 (is_within (rule event).1)
                (within-IsWindow (rule event).1) before now log h b)
              order)
        | inr other ↦
            rw other
              (counted_times_from calls now log (λ later le. b later (omega (arith, h, le))) order)
      ]
  counted_times_from (gone s ∷ calls) before log b order =
      elim (Bool-cases (string_eq.beq socket s)) [
        | inl own ↦ rw own (counted_times_from calls before [] (λ later le. omega arith) order)
        | inr other ↦ rw other (counted_times_from calls before log b order)
      ]

  remembered :
      (now : ℕ) (log : List ℕ)
      → (if (count_all (rule event).0 (is_within (rule event).1) now log).1
          then log ++ now ∷ []
          else log)
        ≡ (count_all (rule event).0 (is_within (rule event).1) now log).0
  unfolding count_all
  remembered now log = ground arith

  allowed-counted_times :
      (calls : List Call) (last before : ℕ) (buckets : Buckets) (log : List ℕ)
      → last ≤ before
      → Kept last buckets log
      → IsInOrder before calls
      → allowed_times rule socket event calls buckets log
        ≡ counted_times rule socket event calls log
  unfolding allowed_times counted_times
  allowed-counted_times [] last before buckets log le kept order = refl
  allowed-counted_times (request s e now ∷ calls) last before buckets log le kept (h, order) =
      elim (Bool-cases (is_same socket event s e)) [
        | inl same ↦
            let (decided, kept') = check-Kept last now buckets log (omega (arith, le, h)) kept in
            rw
              (
                (is_same→names s e same).0,
                (is_same→names s e same).1,
                is_same_own,
                decided,
                remembered now log,
              )
              (allowed-counted_times calls now now (check_rule rule socket event now buckets).0
                (count_all (rule event).0 (is_within (rule event).1) now log).0 (omega arith) kept'
                order)
        | inr other ↦ rw other (
            allowed-counted_times calls last now (check_rule rule s e now buckets).0 log
              (omega (arith, le, h))
              (keep last buckets (check_rule rule s e now buckets).0 log
                (check_other s e now buckets other) kept)
              order)
      ]
  allowed-counted_times (gone s ∷ calls) last before buckets log le kept order =
      allowed-counted_times calls last before (cleanup s buckets)
        (if string_eq.beq socket s then [] else log) le (keep_cleanup last s buckets log kept) order

module _ (rule : String → ℕ × ℕ) where
  -- Whatever sockets come, go and send with a clock that does not go back, the service answers each
  -- request for an event as if it remembered every request of that socket: it is allowed if and only
  -- if fewer than the limit of the allowed requests for that event of that socket are in the window.
  pub answers-expected :
      (socket event : String) (calls : List Call)
      → IsInOrder 0 calls
      → answers rule socket event calls [] ≡ expected rule socket event calls []
  unfolding lookup
  answers-expected socket event calls order =
      answers_from rule socket event calls 0 0 [] [] (omega arith) (refl, tt, tt) order

  -- Whatever sockets come, go and send with a clock that does not go back, at no time after the last
  -- request are more than the limit of the requests that the service allowed for one event of one
  -- socket, those since the socket last ended, in the window.
  pub allowed_times_bounded :
      (socket event : String) (calls : List Call) (later : ℕ)
      → IsInOrder 0 calls
      → last_time 0 calls ≤ later
      → length
          (filter (is_within (rule event).1 later) (allowed_times rule socket event calls [] []))
        ≤ (rule event).0
  unfolding lookup
  allowed_times_bounded socket event calls later order le =
      rw
        (allowed-counted_times rule socket event calls 0 0 [] [] (omega arith) (refl, tt, tt) order)
        (counted_times_from rule socket event calls 0 [] (λ t h. omega arith) order later le)
