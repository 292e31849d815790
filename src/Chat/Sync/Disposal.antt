-- ===== src/Chat/Sync/Disposal.antt =====
-- A disposed sync stays silent.
use wos_sfc.Prelude.{
  ℕ, ◌≡◌, refl, Bool, true, false, not, ◌||◌, Option, none, some, arith, if◌then◌else◌, is_some,
}
use wos_sfc.Chat.Sync.State.{Callback, push_elapsed, retry_elapsed, batch_due, Request, World}
use wos_sfc.Chat.Sync.Batch.{enqueue, run_batch, is_idle}
use wos_sfc.Chat.Sync.Retry.{answered, answered_in}
use wos_sfc.Chat.Sync.Events.{
  Event, handle, connected, history, message, pushed, language_changed, auto_translate_changed,
  scrolled_to_older, retried, disposed, resolved, rejected, passed, stored, call_back, on_connect,
  on_history, on_message, on_pushed, on_language_change, on_auto_translate_change,
  on_scrolled_to_older, retry, dispose,
}
use wos_sfc.Chat.Sync.Steps.{without_timer, handled, fired, Reach, here, next}

-- Since `v` nothing went out, and the sync is disposed with no request in flight.
record Silent (v w : World) : Type 0 where
  sent : w.sent ≡ v.sent
  reported : w.reported ≡ v.reported
  closed : w.sync.disposed ≡ true
  quiet : w.sync.in_flight ≡ none

Silent-if :
    (v : World) (b : Bool) (x y : World) → b ≡ true → Silent v x → Silent v (if b then x else y)
Silent-if v true x y e s = s
Silent-if v false x y e s = cc

or_left : (a b : Bool) → a ≡ true → (a || b) ≡ true
or_left a b e = ground arith

Silent-answered_in :
    (v : World) (o : Option Request) (number : ℕ) (answer : Request → World → World) (w : World)
    → o ≡ none
    → Silent v w
    → Silent v (answered_in o number answer w)
Silent-answered_in v none number answer w e s = s
Silent-answered_in v (some r) number answer w e s = cc

handle-Silent : (e : Event) (v w : World) → Silent v w → Silent v (handle e w)
unfolding handle on_connect on_history on_message on_pushed on_language_change
    on_auto_translate_change on_scrolled_to_older retry dispose answered
handle-Silent (connected lang on) v w s = Silent-if v w.sync.disposed w _ s.closed s
handle-Silent history v w s = Silent-if v w.sync.disposed w _ s.closed s
handle-Silent (message m) v w s =
    Silent-if v (is_idle w.sync) w _
      (or_left _ (not (is_some w.sync.my_lang))
        (or_left w.sync.disposed (not w.sync.auto_translate) s.closed))
      s
handle-Silent (pushed p) v w s = Silent-if v w.sync.disposed w _ s.closed s
handle-Silent (language_changed lang) v w s =
    Silent-if v _ w _ (or_left w.sync.disposed _ s.closed) s
handle-Silent (auto_translate_changed on) v w s =
    Silent-if v _ w _ (or_left w.sync.disposed _ s.closed) s
handle-Silent (scrolled_to_older ids) v w s = Silent-if v w.sync.disposed w _ s.closed s
handle-Silent (retried id) v w s = Silent-if v w.sync.disposed w _ s.closed s
handle-Silent disposed v w s = record {
  sent = s.sent;
  reported = s.reported;
  closed = refl;
  quiet = refl;
}
handle-Silent (resolved number response) v w s =
    Silent-answered_in v w.sync.in_flight number _ w s.quiet s
handle-Silent (rejected number error) v w s =
    Silent-answered_in v w.sync.in_flight number _ w s.quiet s
handle-Silent (passed ms) v w s = record {
  sent = s.sent;
  reported = s.reported;
  closed = s.closed;
  quiet = s.quiet;
}
handle-Silent (stored store) v w s = record {
  sent = s.sent;
  reported = s.reported;
  closed = s.closed;
  quiet = s.quiet;
}

call_back-Silent : (c : Callback) (v w : World) → Silent v w → Silent v (call_back c w)
unfolding call_back enqueue run_batch
call_back-Silent (push_elapsed id) v w s =
    Silent-if v (is_idle w.sync) _ _
      (or_left _ (not (is_some w.sync.my_lang))
        (or_left w.sync.disposed (not w.sync.auto_translate) s.closed))
      (record { sent = s.sent; reported = s.reported; closed = s.closed; quiet = s.quiet })
call_back-Silent (retry_elapsed id) v w s =
    Silent-if v (is_idle w.sync) _ _
      (or_left _ (not (is_some w.sync.my_lang))
        (or_left w.sync.disposed (not w.sync.auto_translate) s.closed))
      (record { sent = s.sent; reported = s.reported; closed = s.closed; quiet = s.quiet })
call_back-Silent batch_due v w s =
    Silent-if v (w.sync.disposed || is_some w.sync.in_flight || not w.sync.auto_translate) _ _
      (or_left _ (not w.sync.auto_translate)
        (or_left w.sync.disposed (is_some w.sync.in_flight) s.closed))
      (record { sent = s.sent; reported = s.reported; closed = s.closed; quiet = s.quiet })

Reach-Silent : {v u w : World} → Silent v u → Reach u w → Silent v w
Reach-Silent s here = s
Reach-Silent {v} s (next {u = x} r (handled e)) = handle-Silent e v x (Reach-Silent s r)
Reach-Silent {v} s (next {u = x} r (fired h t found due)) =
    let q = Reach-Silent s r in
    call_back-Silent t.callback v (without_timer h x)
      (record { sent = q.sent; reported = q.reported; closed = q.closed; quiet = q.quiet })

dispose-Silent : (v : World) → Silent v (handle disposed v)
unfolding handle dispose
dispose-Silent v = record { sent = refl; reported = refl; closed = refl; quiet = refl }

-- Once the sync is disposed no request goes out and no language is reported, whatever events come
-- and whatever timers fire after that.
pub disposed_silent :
    (v : World) {w : World}
    → Reach (handle disposed v) w
    → (w.sent ≡ v.sent) × (w.reported ≡ v.reported)
disposed_silent v r = let s = Reach-Silent (dispose-Silent v) r in (s.sent, s.reported)
