-- ===== src/Chat/Sync/Steps.antt =====
-- Any run of the translation sync as a step relation: events come in any order, and a timer fires
-- once it is due. The pace holds throughout.
use wos_sfc.Prelude.{
  ℕ, ◌≤◌, ◌≡◌, refl, sym, ◌∙◌, ap, subst, Bool, true, false, not, ◌||◌, Option, none, some, List,
  [], ◌∷◌, filter, eqb, eqb_iff, arith, inl, inr, Bool-cases, if◌then◌else◌, All, All-filter,
  is_some, nat_eq, string_eq,
}
use wos_sfc.Prelude.Dict.{Dict, keys}
use wos_sfc.Chat.Store.{ChatStore, reset_translation_status, clear_translation_pending}
use wos_sfc.Chat.Script.{effective_lang}
use wos_sfc.Chat.Sync.State.{
  Callback, push_elapsed, retry_elapsed, batch_due, Timer, Request, World, Sent, dispatch,
  clear_retry, history_first_batch_delay_ms,
}
use wos_sfc.Chat.Sync.Batch.{is_idle, ready_at}
use wos_sfc.Chat.Sync.Retry.{answered, answered_in}
use wos_sfc.Chat.Sync.Events.{
  Event, handle, connected, history, message, pushed, language_changed, auto_translate_changed,
  scrolled_to_older, retried, disposed, resolved, rejected, passed, stored, call_back, cancel_all,
  cancel_handle, reset_work, report, on_connect, on_history, on_message, on_pushed, restart,
  on_language_change, on_auto_translate_change, on_scrolled_to_older, retry, dispose, init, join,
  set_lang, set_auto_translate, lang_is, same_bool, forget_failures, close, stop_waiting,
  stop_retrying,
}
use wos_sfc.Chat.Sync.Bounds.{IsBatch}
use wos_sfc.Chat.Sync.EventFrame.{stop_waits-Keeps, on_message_id-Keeps, push_in-Keeps}
use wos_sfc.Chat.Sync.Frame.{is_batch, Fits, Keeps, clear_retry-Keeps, settle-Keeps, fail-Keeps}
use wos_sfc.Chat.Sync.Pacing.{
  IsPaced, Spaced, last_at, Keeps-IsPaced, Fits-cancel, run_batch-IsPaced, schedule_batch-IsPaced,
  enqueue-IsPaced, scan_store-IsPaced,
}

abbrev pub without_timer : ℕ → World → World
without_timer h w = record w { timers = filter (λ t. not (eqb h t.handle)) w.timers }

abbrev pub find_timer : ℕ → List Timer → Option Timer
find_timer h [] = none
find_timer h (t ∷ ts) = if eqb h t.handle then some t else find_timer h ts

pub data Step (w : World) : World → Type 0 where
  handled : (e : Event) → Step w (handle e w)
  fired :
      (h : ℕ) (t : Timer)
      → find_timer h w.timers ≡ some t
      → t.due ≤ w.now
      → Step w (call_back t.callback (without_timer h w))

pub data Reach (v : World) : World → Type 0 where
  here : Reach v v
  next : {u w : World} → Reach v u → Step u w → Reach v w

cancel_all-Fits :
    (d : Dict ℕ ℕ) (ts : List Timer) (b : Option ℕ) (r : ℕ)
    → All (Fits b r) ts
    → All (Fits b r) (cancel_all d ts)
unfolding cancel_all
cancel_all-Fits [] ts b r f = f
cancel_all-Fits ((id, h) ∷ d) ts b r f = cancel_all-Fits d _ b r (All-filter (Fits b r) _ ts f)

cancel_handle-Fits :
    (b : Option ℕ) (ts : List Timer) (r : ℕ)
    → All (Fits b r) ts
    → All (Fits none r) (cancel_handle b ts)
unfolding cancel_handle
cancel_handle-Fits none ts r f = f
cancel_handle-Fits (some h) ts r f = Fits-cancel h r r none ts f

reset_work-IsPaced : (w : World) → IsPaced w → IsPaced (reset_work w)
unfolding reset_work
reset_work-IsPaced w p = record {
  timers = cancel_handle-Fits w.sync.batch_timer _ _ (
      cancel_all-Fits w.sync.retry_timers _ _ _
        (cancel_all-Fits w.sync.push_wait w.timers _ _ p.timers));
  single = λ busy. refl;
  last = p.last;
  spaced = p.spaced;
  past = p.past;
  batches = p.batches;
}

-- The log of requests, the timers and the clock stay, and so does the pace.
same-IsPaced :
    (w w' : World)
    → w'.sync.batch_timer ≡ w.sync.batch_timer
    → w'.sync.in_flight ≡ w.sync.in_flight
    → w'.sync.last_request_at ≡ w.sync.last_request_at
    → w'.sent ≡ w.sent
    → w'.now ≡ w.now
    → w'.timers ≡ w.timers
    → IsPaced w
    → IsPaced w'
same-IsPaced w w' b i l s n t p = record {
  timers = rw (b, l, t) p.timers;
  single = λ busy. b ∙ p.single (sym (ap is_some i) ∙ busy);
  last = l ∙ p.last ∙ ap last_at (sym s);
  spaced = rw s p.spaced;
  past = rw (l, n) p.past;
  batches = rw s p.batches;
}

report-IsPaced : (w : World) → IsPaced w → IsPaced (report w)
report-IsPaced w p = same-IsPaced w (report w) refl refl refl refl refl refl p

IsPaced-if : (b : Bool) {u v : World} → IsPaced u → IsPaced v → IsPaced (if b then u else v)
IsPaced-if true p q = p
IsPaced-if false p q = q

restart-IsPaced : (w : World) → IsPaced w → IsPaced (restart w)
restart-IsPaced w p =
    let fresh = dispatch reset_translation_status (reset_work w) in
    let q : IsPaced fresh =
      same-IsPaced (reset_work w) fresh refl refl refl refl refl refl (reset_work-IsPaced w p) in
    scan_store-IsPaced history_first_batch_delay_ms _
      (IsPaced-if fresh.sync.connected (report-IsPaced fresh q) q)

answered_in-IsPaced :
    (o : Option Request) (number : ℕ) (answer : Request → World → World) (w : World)
    → ((r : Request) → Keeps w (answer r w))
    → w.sync.in_flight ≡ o
    → IsPaced w
    → IsPaced (answered_in o number answer w)
answered_in-IsPaced none number answer w k flying p = p
answered_in-IsPaced (some r) number answer w k flying p =
    let q = Keeps-IsPaced (k r) p in
    let free : (answer r w).sync.batch_timer ≡ none =
      (k r).batch_timer ∙ p.single (ap is_some flying) in
    IsPaced-if (eqb r.number number)
      (schedule_batch-IsPaced 0 _ (record {
        timers = q.timers;
        single = λ busy. free;
        last = q.last;
        spaced = q.spaced;
        past = q.past;
        batches = q.batches;
      }))
      p

handle-IsPaced : (e : Event) (w : World) → IsPaced w → IsPaced (handle e w)
unfolding handle on_connect on_history on_message on_pushed on_language_change
    on_auto_translate_change on_scrolled_to_older retry dispose answered
handle-IsPaced (connected lang on) w p =
    let joined = reset_work (join lang on w) in
    let pending = dispatch (clear_translation_pending none) joined in
    let q : IsPaced joined =
      reset_work-IsPaced (join lang on w)
        (same-IsPaced w (join lang on w) refl refl refl refl refl refl p) in
    IsPaced-if w.sync.disposed p (
      scan_store-IsPaced history_first_batch_delay_ms (report pending)
        (report-IsPaced pending (same-IsPaced joined pending refl refl refl refl refl refl q)))
handle-IsPaced history w p = IsPaced-if w.sync.disposed p (
    scan_store-IsPaced history_first_batch_delay_ms _
      (Keeps-IsPaced (stop_waits-Keeps (keys w.sync.push_wait) w) p))
handle-IsPaced (message m) w p =
    IsPaced-if (is_idle w.sync) p (Keeps-IsPaced (on_message_id-Keeps m.id w) p)
handle-IsPaced (pushed payload) w p =
    IsPaced-if w.sync.disposed p (Keeps-IsPaced (push_in-Keeps payload.id payload w) p)
handle-IsPaced (language_changed lang) w p =
    IsPaced-if (w.sync.disposed || lang_is w.sync.my_lang (effective_lang lang)) p (
      restart-IsPaced (set_lang lang w)
        (same-IsPaced w (set_lang lang w) refl refl refl refl refl refl p))
handle-IsPaced (auto_translate_changed on) w p =
    IsPaced-if (w.sync.disposed || same_bool on w.sync.auto_translate) p (
      restart-IsPaced (set_auto_translate on w)
        (same-IsPaced w (set_auto_translate on w) refl refl refl refl refl refl p))
handle-IsPaced (scrolled_to_older ids) w p = IsPaced-if w.sync.disposed p (enqueue-IsPaced _ 0 w p)
handle-IsPaced (retried id) w p =
    let w' = forget_failures id w in
    IsPaced-if w.sync.disposed p (
      enqueue-IsPaced (id ∷ []) 0 (clear_retry id w') (
        Keeps-IsPaced (clear_retry-Keeps id w')
          (same-IsPaced w w' refl refl refl refl refl refl p)))
handle-IsPaced disposed w p =
    same-IsPaced (reset_work (close w)) _ refl refl refl refl refl refl
      (reset_work-IsPaced (close w) (same-IsPaced w (close w) refl refl refl refl refl refl p))
handle-IsPaced (resolved number response) w p =
    answered_in-IsPaced w.sync.in_flight number _ w (λ r. settle-Keeps r.items response r.lang w)
      refl p
handle-IsPaced (rejected number error) w p =
    answered_in-IsPaced w.sync.in_flight number _ w (λ r. fail-Keeps r.items error w) refl p
handle-IsPaced (passed ms) w p = record {
  timers = p.timers;
  single = p.single;
  last = p.last;
  spaced = p.spaced;
  past = omega (arith, p.past);
  batches = p.batches;
}
handle-IsPaced (stored s) w p = same-IsPaced w _ refl refl refl refl refl refl p

All-find_timer :
    (P : Timer → Type 0) (h : ℕ) (ts : List Timer) (t : Timer)
    → All P ts
    → find_timer h ts ≡ some t
    → P t × (h ≡ t.handle)
All-find_timer P h [] t f found = cc
All-find_timer P h (x ∷ ts) t (px, f) found = elim (Bool-cases (eqb h x.handle)) [
  | inl same ↦
      let x_is_t : x ≡ t = cc (rw same at found) in
      (subst P x_is_t px, (eqb_iff h x.handle).0 same ∙ ap (λ (y : Timer). y.handle) x_is_t)
  | inr other ↦ All-find_timer P h ts t f (rw other at found)
]

without_timer-IsPaced : (h : ℕ) (w : World) → IsPaced w → IsPaced (without_timer h w)
without_timer-IsPaced h w p = record {
  timers =
      All-filter (Fits w.sync.batch_timer (ready_at w.sync.last_request_at)) _ w.timers p.timers;
  single = p.single;
  last = p.last;
  spaced = p.spaced;
  past = p.past;
  batches = p.batches;
}

-- A batch timer that fires is the one that the state names, so none is left, and a second is over.
batch_fired-IsPaced :
    (h due : ℕ) (w : World)
    → IsPaced w
    → w.sync.batch_timer ≡ some h
    → ready_at w.sync.last_request_at ≤ due
    → due ≤ w.now
    → IsPaced (call_back batch_due (without_timer h w))
unfolding call_back
batch_fired-IsPaced h due w p named ready over =
    let v : World = record w {
      sync = record w.sync { batch_timer = none };
      timers = (without_timer h w).timers;
    } in
    run_batch-IsPaced v
      (record {
        timers =
            Fits-cancel h _ _ none w.timers
              (subst (λ b. All (Fits b (ready_at w.sync.last_request_at)) w.timers) named p.timers);
        single = λ busy. refl;
        last = p.last;
        spaced = p.spaced;
        past = p.past;
        batches = p.batches;
      })
      refl (omega (arith, ready, over))

fired-IsPaced :
    (c : Callback) (h : ℕ) (t : Timer) (w : World)
    → t.callback ≡ c
    → find_timer h w.timers ≡ some t
    → t.due ≤ w.now
    → IsPaced w
    → IsPaced (call_back c (without_timer h w))
unfolding call_back
fired-IsPaced (push_elapsed id) h t w is found due p =
    enqueue-IsPaced (id ∷ []) 0 (stop_waiting id (without_timer h w)) (
      same-IsPaced (without_timer h w) _ refl refl refl refl refl refl
        (without_timer-IsPaced h w p))
fired-IsPaced (retry_elapsed id) h t w is found due p =
    enqueue-IsPaced (id ∷ []) 0 (stop_retrying id (without_timer h w)) (
      same-IsPaced (without_timer h w) _ refl refl refl refl refl refl
        (without_timer-IsPaced h w p))
fired-IsPaced batch_due h t w is found due p =
    let (fits, same) =
      All-find_timer (Fits w.sync.batch_timer (ready_at w.sync.last_request_at)) h w.timers t
        p.timers found in
    let (named, ready) = fits (ap is_batch is) in
    batch_fired-IsPaced h t.due w p (named ∙ ap some (sym same)) ready due

Step-IsPaced : {v w : World} → Step v w → IsPaced v → IsPaced w
Step-IsPaced {v} (handled e) p = handle-IsPaced e v p
Step-IsPaced {v} (fired h t found due) p = fired-IsPaced t.callback h t v refl found due p

Reach-IsPaced : {v w : World} → Reach v w → IsPaced v → IsPaced w
Reach-IsPaced here p = p
Reach-IsPaced (next r s) p = Step-IsPaced s (Reach-IsPaced r p)

init-IsPaced : (store : ChatStore) (now : ℕ) → IsPaced (init store now)
init-IsPaced store now = record {
  timers = tt;
  single = λ busy. refl;
  last = refl;
  spaced = tt;
  past = omega arith;
  batches = tt;
}

-- In every run of a new sync, whatever events come and in which order: the requests go out at least
-- a second apart, language changes and reconnections included; while one is in flight no timer is
-- set for another; and each has at most 20 texts, which have at most 2000 UTF-16 units together
-- unless there is only one.
pub Reach-paced :
    (store : ChatStore) (now : ℕ) {w : World}
    → Reach (init store now) w
    → Spaced w.sent
      × (is_some w.sync.in_flight ≡ true → w.sync.batch_timer ≡ none)
      × All (λ (s : Sent). IsBatch s.request.items) w.sent
Reach-paced store now r =
    let q = Reach-IsPaced r (init-IsPaced store now) in (q.spaced, q.single, q.batches)
