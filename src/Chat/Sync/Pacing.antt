-- ===== src/Chat/Sync/Pacing.antt =====
-- Requests are paced: one at a time, and a second apart.
use wos_sfc.Prelude.{
  ℕ, ◌+◌, ◌≤◌, ◌≡◌, refl, sym, ◌∙◌, ap, subst, String, true, false, not, ◌||◌, Option, none, some,
  List, [], ◌∷◌, filter, eqb, leb, leb→le, arith, inl, inr, Bool-cases, All, is_some, or-eq-false,
}
use mathlib.Core.Bool.{false≢true}
use wos_sfc.Chat.Merge.Kept.{All-imp}
use wos_sfc.Chat.Sync.State.{Timer, Item, Sent, World}
use wos_sfc.Chat.Sync.Batch.{
  take_batch, send, run_batch, run_batch_in, ready_at, schedule_batch, batch_at, run_or_arm, arm,
  disarm, enqueue_loop, enqueue, announce, is_idle, scan_store, is_empty,
}
use wos_sfc.Chat.Sync.Bounds.{IsBatch, take_loop-IsBatch}
use wos_sfc.Chat.Sync.Frame.{Fits, Keeps, Keeps-fields, enqueue_loop-Keeps, take_loop-Keeps}

-- Each request went out at least a second after the one before it.
abbrev pub Spaced : List Sent → Type 0
Spaced [] = Unit
Spaced (s ∷ []) = Unit
Spaced (s ∷ t ∷ rest) = (t.at + 1000 ≤ s.at) × Spaced (t ∷ rest)

abbrev pub last_at : List Sent → Option ℕ
last_at [] = none
last_at (s ∷ rest) = some s.at

pub record IsPaced (w : World) : Type 0 where
  -- A batch timer is the one that the state names, and is due a second after the last request.
  pub timers : All (Fits w.sync.batch_timer (ready_at w.sync.last_request_at)) w.timers
  -- While a request is in flight no batch timer is set.
  pub single : is_some w.sync.in_flight ≡ true → w.sync.batch_timer ≡ none
  pub last : w.sync.last_request_at ≡ last_at w.sent
  pub spaced : Spaced w.sent
  pub past : ready_at w.sync.last_request_at ≤ w.now + 1000
  pub batches : All (λ (s : Sent). IsBatch s.request.items) w.sent

-- What keeps the batch timer, the request in flight and the log keeps the pace.
pub Keeps-IsPaced : {w w' : World} → Keeps w w' → IsPaced w → IsPaced w'
Keeps-IsPaced {w} {w'} k p = record {
  timers = rw (k.batch_timer, k.last) (k.timers _ _ p.timers);
  single = λ busy. k.batch_timer ∙ p.single (sym (ap is_some k.in_flight) ∙ busy);
  last = k.last ∙ p.last ∙ ap last_at (sym k.sent);
  spaced = rw k.sent p.spaced;
  past = rw (k.last, k.now) p.past;
  batches = rw k.sent p.batches;
}

-- Without a batch timer every timer fits whatever the next batch will be.
pub Fits-any :
    (b b' : Option ℕ) (r r' : ℕ) (ts : List Timer)
    → b ≡ none
    → All (Fits b r) ts
    → All (Fits b' r') ts
Fits-any b b' r r' ts free h =
    All-imp (Fits b r) (Fits b' r') ts (λ t f batch. absurd (none_ne_some (sym free ∙ (f batch).0)))
      h
  where
    none_ne_some : {n : ℕ} → none ≡ some n → ⊥
    none_ne_some e = cc

-- Without the timer that the state names no batch timer is left.
pub Fits-cancel :
    (h r r' : ℕ) (b' : Option ℕ) (ts : List Timer)
    → All (Fits (some h) r) ts
    → All (Fits b' r') (filter (λ t. not (eqb h t.handle)) ts)
Fits-cancel h r r' b' [] f = tt
Fits-cancel h r r' b' (t ∷ ts) (ft, f) = elim (Bool-cases (eqb h t.handle)) [
  | inl same ↦ rw same (Fits-cancel h r r' b' ts f)
  | inr other ↦
      rw other ((λ batch. absurd (ground (arith, (ft batch).0, other))), Fits-cancel h r r' b' ts f)
]

Spaced-cons :
    (s : Sent) (rest : List Sent) → Spaced rest → ready_at (last_at rest) ≤ s.at → Spaced (s ∷ rest)
Spaced-cons s [] h le = tt
Spaced-cons s (t ∷ rest) h le = (le, h)

send-IsPaced :
    (lang : String) (w : World) (items : List Item)
    → IsBatch items
    → IsPaced w
    → w.sync.batch_timer ≡ none
    → ready_at w.sync.last_request_at ≤ w.now
    → IsPaced (send lang w items)
send-IsPaced lang w [] b p free ready = p
send-IsPaced lang w (item ∷ items) b p free ready = record {
  timers = Fits-any _ _ _ _ w.timers free p.timers;
  single = λ busy. free;
  last = refl;
  spaced =
      Spaced-cons
        (record {
          request = record { number = w.next_number; lang = lang; items = item ∷ items };
          at = w.now;
        })
        w.sent p.spaced (rw p.last at ready);
  past = omega arith;
  batches = (b, p.batches);
}

run_batch_in-IsPaced :
    (lang : Option String) (w : World)
    → IsPaced w
    → w.sync.batch_timer ≡ none
    → ready_at w.sync.last_request_at ≤ w.now
    → IsPaced (run_batch_in lang w)
run_batch_in-IsPaced none w p free ready = p
run_batch_in-IsPaced (some lang) w p free ready =
    let k = take_loop-Keeps w.sync.candidates [] 0 w in
    send-IsPaced lang (take_batch w).0 (take_batch w).1
      (take_loop-IsBatch w.sync.candidates [] 0 w refl (omega arith, inl (omega arith)))
      (Keeps-IsPaced k p) (k.batch_timer ∙ free) (rw (k.last, k.now) ready)

pub run_batch-IsPaced :
    (w : World)
    → IsPaced w
    → w.sync.batch_timer ≡ none
    → ready_at w.sync.last_request_at ≤ w.now
    → IsPaced (run_batch w)
unfolding run_batch
run_batch-IsPaced w p free ready =
    elim (Bool-cases (w.sync.disposed || is_some w.sync.in_flight || not w.sync.auto_translate)) [
      | inl off ↦ rw off p
      | inr on ↦ rw on (run_batch_in-IsPaced w.sync.my_lang w p free ready)
    ]

arm-IsPaced :
    (at : ℕ) (w : World)
    → IsPaced w
    → w.sync.batch_timer ≡ none
    → w.sync.in_flight ≡ none
    → ready_at w.sync.last_request_at ≤ at
    → IsPaced (arm at w)
arm-IsPaced at w p free quiet ready = record {
  timers = ((λ batch. (refl, omega arith)), Fits-any _ _ _ _ w.timers free p.timers);
  single = λ busy. absurd (false≢true (sym (ap is_some quiet) ∙ busy));
  last = p.last;
  spaced = p.spaced;
  past = p.past;
  batches = p.batches;
}

run_or_arm-IsPaced :
    (at : ℕ) (w : World)
    → IsPaced w
    → w.sync.batch_timer ≡ none
    → w.sync.in_flight ≡ none
    → ready_at w.sync.last_request_at ≤ at
    → IsPaced (run_or_arm at w)
run_or_arm-IsPaced at w p free quiet ready = elim (Bool-cases (leb at w.now)) [
  | inl due ↦ rw due (run_batch-IsPaced w p free (omega (arith, leb→le at w.now due)))
  | inr later ↦ rw later (arm-IsPaced at w p free quiet ready)
]

disarm-IsPaced :
    (h : ℕ) (w : World) → IsPaced w → w.sync.batch_timer ≡ some h → IsPaced (disarm h w)
disarm-IsPaced h w p set = record {
  timers =
      Fits-cancel h _ _ none w.timers
        (subst (λ b. All (Fits b (ready_at w.sync.last_request_at)) w.timers) set p.timers);
  single = λ busy. refl;
  last = p.last;
  spaced = p.spaced;
  past = p.past;
  batches = p.batches;
}

batch_at-IsPaced :
    (at : ℕ) (b : Option ℕ) (w : World)
    → IsPaced w
    → w.sync.batch_timer ≡ b
    → w.sync.in_flight ≡ none
    → ready_at w.sync.last_request_at ≤ at
    → IsPaced (batch_at at b w)
batch_at-IsPaced at none w p set quiet ready = run_or_arm-IsPaced at w p set quiet ready
batch_at-IsPaced at (some h) w p set quiet ready =
    elim (Bool-cases (leb w.sync.batch_timer_at at)) [
      | inl earlier ↦ rw earlier p
      | inr later ↦
          rw later (run_or_arm-IsPaced at (disarm h w) (disarm-IsPaced h w p set) refl quiet ready)
    ]

quiet_of : {A : Type 0} (o : Option A) → is_some o ≡ false → o ≡ none
quiet_of none h = refl
quiet_of (some a) h = cc

pub schedule_batch-IsPaced : (delay : ℕ) (w : World) → IsPaced w → IsPaced (schedule_batch delay w)
unfolding schedule_batch
schedule_batch-IsPaced delay w p =
    elim (Bool-cases (w.sync.disposed || is_some w.sync.in_flight || is_empty w.sync.candidates)) [
      | inl off ↦ rw off p
      | inr on ↦
          let idle : is_some w.sync.in_flight ≡ false =
            (or-eq-false w.sync.disposed (is_some w.sync.in_flight)
              (or-eq-false (w.sync.disposed || is_some w.sync.in_flight)
                (is_empty w.sync.candidates) on).0).1 in
          rw on (
            batch_at-IsPaced _ w.sync.batch_timer w p refl (quiet_of w.sync.in_flight idle)
              (omega arith))
    ]

announce-IsPaced :
    (delay : ℕ) (w : World) (ids : List ℕ) → IsPaced w → IsPaced (announce delay w ids)
announce-IsPaced delay w [] p = p
announce-IsPaced delay w (id ∷ ids) p =
    schedule_batch-IsPaced delay _
      (Keeps-IsPaced (Keeps-fields w _ refl refl refl refl refl refl refl refl) p)

pub enqueue-IsPaced :
    (ids : List ℕ) (delay : ℕ) (w : World) → IsPaced w → IsPaced (enqueue ids delay w)
unfolding enqueue
enqueue-IsPaced ids delay w p = elim (Bool-cases (is_idle w.sync)) [
  | inl off ↦ rw off p
  | inr on ↦ rw on (
      announce-IsPaced delay (enqueue_loop ids [] w).0 (enqueue_loop ids [] w).1
        (Keeps-IsPaced (enqueue_loop-Keeps ids [] w) p))
]

pub scan_store-IsPaced : (delay : ℕ) (w : World) → IsPaced w → IsPaced (scan_store delay w)
unfolding scan_store
scan_store-IsPaced delay w p =
    elim (Bool-cases (not w.sync.auto_translate || not (is_some w.sync.my_lang))) [
      | inl off ↦ rw off p
      | inr on ↦ rw on (enqueue-IsPaced _ delay w p)
    ]
