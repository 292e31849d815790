-- ===== src/Chat/Sync/Frame.antt =====
-- What the helpers of the translation sync leave alone: the batch timer, the request in flight, the
-- log of requests. Most of them only move other timers.
use wos_sfc.Prelude.{
  ℕ, ◌≤◌, ◌≡◌, refl, sym, ◌∙◌, String, Bool, true, false, not, Option, none, some, List, [], ◌∷◌,
  ◌++◌, inl, inr, Bool-cases, Option-cases, if◌then◌else◌, All, All-filter, is_some, get_or, map,
  contains, nat_eq, ◌||◌,
}
use mathlib.Core.Bool.{false≢true}
use wos_sfc.Chat.Message.{TextMap}
use wos_sfc.Prelude.Dict.{lookup}
use wos_sfc.Chat.Sync.State.{
  Callback, retry_elapsed, batch_due, Timer, Item, World, cancel_found, schedule, clear_wait,
  clear_retry, remove_candidate,
}
use wos_sfc.Chat.Sync.Batch.{
  eligible_message, take_loop, enqueue_loop, is_full, with_candidates, requested, add_candidate,
  content_of,
}
use wos_sfc.Chat.Sync.Retry.{
  Response, RequestError, schedule_reenqueue, retry_or_fail, set_attempts, schedule_retry,
  schedule_retries, forget_attempts, settle, fail, store_entries, finish_done, outcome, is_429,
}

abbrev pub is_batch : Callback → Bool
is_batch batch_due = true
is_batch _ = false

-- A timer for the next batch is the one that the state names, and is due no sooner than allowed.
abbrev pub Fits : Option ℕ → ℕ → Timer → Type 0
Fits batch_timer ready t =
    is_batch t.callback ≡ true → (batch_timer ≡ some t.handle) × (ready ≤ t.due)

pub record Keeps (w w' : World) : Type 0 where
  pub disposed : w'.sync.disposed ≡ w.sync.disposed
  pub batch_timer : w'.sync.batch_timer ≡ w.sync.batch_timer
  pub in_flight : w'.sync.in_flight ≡ w.sync.in_flight
  pub last : w'.sync.last_request_at ≡ w.sync.last_request_at
  pub sent : w'.sent ≡ w.sent
  pub reported : w'.reported ≡ w.reported
  pub now : w'.now ≡ w.now
  pub timers :
      (batch_timer : Option ℕ) (ready : ℕ)
      → All (Fits batch_timer ready) w.timers
      → All (Fits batch_timer ready) w'.timers

pub Keeps-refl : (w : World) → Keeps w w
Keeps-refl w = record {
  disposed = refl;
  batch_timer = refl;
  in_flight = refl;
  last = refl;
  sent = refl;
  reported = refl;
  now = refl;
  timers = λ b r h. h;
}

pub Keeps-trans : {u v w : World} → Keeps u v → Keeps v w → Keeps u w
Keeps-trans f g = record {
  disposed = g.disposed ∙ f.disposed;
  batch_timer = g.batch_timer ∙ f.batch_timer;
  in_flight = g.in_flight ∙ f.in_flight;
  last = g.last ∙ f.last;
  sent = g.sent ∙ f.sent;
  reported = g.reported ∙ f.reported;
  now = g.now ∙ f.now;
  timers = λ b r h. g.timers b r (f.timers b r h);
}

pub Keeps-if : (b : Bool) {w u v : World} → Keeps w u → Keeps w v → Keeps w (if b then u else v)
Keeps-if true f g = f
Keeps-if false f g = g

cancel_found-Keeps : (o : Option ℕ) (w : World) → Keeps w (cancel_found o w)
cancel_found-Keeps none w = Keeps-refl w
cancel_found-Keeps (some h) w = record {
  disposed = refl;
  batch_timer = refl;
  in_flight = refl;
  last = refl;
  sent = refl;
  reported = refl;
  now = refl;
  timers = λ b r h'. All-filter (Fits b r) _ w.timers h';
}

pub clear_wait-Keeps : (id : ℕ) (w : World) → Keeps w (clear_wait id w)
unfolding clear_wait
clear_wait-Keeps id w =
    let k = cancel_found-Keeps (lookup id w.sync.push_wait) w in
    record {
      disposed = refl;
      batch_timer = refl;
      in_flight = refl;
      last = refl;
      sent = k.sent;
      reported = k.reported;
      now = k.now;
      timers = k.timers;
    }

pub clear_retry-Keeps : (id : ℕ) (w : World) → Keeps w (clear_retry id w)
unfolding clear_retry
clear_retry-Keeps id w =
    let k = cancel_found-Keeps (lookup id w.sync.retry_timers) w in
    record {
      disposed = refl;
      batch_timer = refl;
      in_flight = refl;
      last = refl;
      sent = k.sent;
      reported = k.reported;
      now = k.now;
      timers = k.timers;
    }

-- What changes only other fields of the state or the store.
pub Keeps-fields :
    (w w' : World)
    → w'.sync.disposed ≡ w.sync.disposed
    → w'.sync.batch_timer ≡ w.sync.batch_timer
    → w'.sync.in_flight ≡ w.sync.in_flight
    → w'.sync.last_request_at ≡ w.sync.last_request_at
    → w'.sent ≡ w.sent
    → w'.reported ≡ w.reported
    → w'.now ≡ w.now
    → w'.timers ≡ w.timers
    → Keeps w w'
Keeps-fields w w' d b i l s r n t = record {
  disposed = d;
  batch_timer = b;
  in_flight = i;
  last = l;
  sent = s;
  reported = r;
  now = n;
  timers = λ bt ready h. rw t h;
}

pub schedule-Keeps :
    (callback : Callback) (ms : ℕ) (w : World)
    → is_batch callback ≡ false
    → Keeps w (schedule callback ms w)
schedule-Keeps callback ms w other = record {
  disposed = refl;
  batch_timer = refl;
  in_flight = refl;
  last = refl;
  sent = refl;
  reported = refl;
  now = refl;
  timers = λ b r h. ((λ batch. absurd (false≢true (sym other ∙ batch))), h);
}

pub remove_candidate-Keeps : (id : ℕ) (w : World) → Keeps w (remove_candidate id w)
unfolding remove_candidate
remove_candidate-Keeps id w = elim (Bool-cases (contains id w.sync.candidate_set)) [
  | inl there ↦ rw there (Keeps-fields w _ refl refl refl refl refl refl refl refl)
  | inr gone ↦ rw gone (Keeps-refl w)
]

pub schedule_reenqueue-Keeps : (id delay : ℕ) (w : World) → Keeps w (schedule_reenqueue id delay w)
unfolding schedule_reenqueue
schedule_reenqueue-Keeps id delay w = Keeps-trans (clear_retry-Keeps id w) (
    Keeps-trans (schedule-Keeps (retry_elapsed id) delay (clear_retry id w) refl)
      (Keeps-fields _ _ refl refl refl refl refl refl refl refl))

retry_or_fail-Keeps :
    (id n : ℕ) (delay override : Option ℕ) (w : World)
    → Keeps w (retry_or_fail id n delay override w)
retry_or_fail-Keeps id n none override w = Keeps-fields w _ refl refl refl refl refl refl refl refl
retry_or_fail-Keeps id n (some delay) override w =
    Keeps-trans (Keeps-fields w _ refl refl refl refl refl refl refl refl)
      (schedule_reenqueue-Keeps id _ (set_attempts _ w))

schedule_retries-Keeps :
    (ids : List ℕ) (override : Option ℕ) (w : World) → Keeps w (schedule_retries ids override w)
unfolding schedule_retries schedule_retry
schedule_retries-Keeps [] override w = Keeps-refl w
schedule_retries-Keeps (id ∷ ids) override w =
    Keeps-trans (retry_or_fail-Keeps id _ _ override w)
      (schedule_retries-Keeps ids override (schedule_retry id override w))

forget_attempts-Keeps : (ids : List ℕ) (w : World) → Keeps w (forget_attempts ids w)
unfolding forget_attempts
forget_attempts-Keeps [] w = Keeps-refl w
forget_attempts-Keeps (id ∷ ids) w =
    Keeps-trans (Keeps-fields w (set_attempts _ w) refl refl refl refl refl refl refl refl)
      (forget_attempts-Keeps ids (set_attempts _ w))

store_entries-Keeps : (es : List (ℕ × Option TextMap)) (w : World) → Keeps w (store_entries es w)
store_entries-Keeps [] w = Keeps-refl w
store_entries-Keeps (e ∷ es) w = Keeps-fields w _ refl refl refl refl refl refl refl refl

finish_done-Keeps : (ids : List ℕ) (w : World) → Keeps w (finish_done ids w)
finish_done-Keeps [] w = Keeps-refl w
finish_done-Keeps (id ∷ ids) w =
    Keeps-trans (Keeps-fields w _ refl refl refl refl refl refl refl refl)
      (forget_attempts-Keeps (id ∷ ids) _)

pub settle-Keeps :
    (items : List Item) (response : Response) (lang : String) (w : World)
    → Keeps w (settle items response lang w)
unfolding settle
settle-Keeps items response lang w =
    let o = outcome items response lang in
    Keeps-trans (store_entries-Keeps o.entries w)
      (Keeps-trans (finish_done-Keeps o.done _) (schedule_retries-Keeps o.failed_ids none _))

pub fail-Keeps :
    (items : List Item) (error : RequestError) (w : World) → Keeps w (fail items error w)
unfolding fail
fail-Keeps items error w =
    schedule_retries-Keeps (map (λ (i : Item). i.id) items)
      (if is_429 error.status then some (get_or error.retry_after_ms 10000) else none) w

add_candidate-Keeps : (id : ℕ) (w : World) → Keeps w (add_candidate id w)
add_candidate-Keeps id w =
    Keeps-trans (clear_wait-Keeps id w) (Keeps-fields _ _ refl refl refl refl refl refl refl refl)

pub enqueue_loop-Keeps : (ids fresh : List ℕ) (w : World) → Keeps w (enqueue_loop ids fresh w).0
unfolding enqueue_loop
enqueue_loop-Keeps [] fresh w = Keeps-refl w
enqueue_loop-Keeps (id ∷ ids) fresh w =
    elim (Bool-cases (
      contains id w.sync.candidate_set
      || contains id (requested w.sync.in_flight)
      || not (is_some (eligible_message w id)))) [
        | inl skip ↦ rw skip (enqueue_loop-Keeps ids fresh w)
        | inr take ↦ rw take (
            Keeps-trans (add_candidate-Keeps id w)
              (enqueue_loop-Keeps ids (fresh ++ id ∷ []) (add_candidate id w)))
      ]

pub take_loop-Keeps :
    (ids : List ℕ) (items : List Item) (chars : ℕ) (w : World)
    → Keeps w (take_loop ids items chars w).0
unfolding take_loop
take_loop-Keeps [] items chars w = Keeps-refl w
take_loop-Keeps (id ∷ rest) items chars w = elim (Option-cases (eligible_message w id)) [
  | inl gone ↦
      rw (gone, take_loop)
        (Keeps-trans (Keeps-fields w _ refl refl refl refl refl refl refl refl)
          (take_loop-Keeps rest items chars _))
  | inr (m, found) ↦
      rw (found, take_loop)
        (elim (Bool-cases (is_full items chars (content_of m))) [
          | inl full ↦ rw full (Keeps-refl w)
          | inr room ↦ rw room (
              Keeps-trans (Keeps-fields w _ refl refl refl refl refl refl refl refl)
                (take_loop-Keeps rest _ _ (with_candidates rest id w)))
        ])
]
