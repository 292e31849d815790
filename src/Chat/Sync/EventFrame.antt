-- ===== src/Chat/Sync/EventFrame.antt =====
-- What the public functions of the translation sync leave alone, beside what they request.
use wos_sfc.Prelude.{
  ℕ, refl, String, Option, none, some, List, [], ◌∷◌, inl, inr, Bool-cases, is_some, contains,
  nat_eq, string_eq,
}
use wos_sfc.Chat.Message.{TextMap}
use wos_sfc.Chat.Store.{mark_translation_pending}
use wos_sfc.Chat.Sync.State.{push_elapsed, World, dispatch, clear_wait, push_wait_ms}
use wos_sfc.Chat.Sync.Batch.{eligible_message, has_mine}
use wos_sfc.Chat.Sync.Events.{
  stop_waits, await_push, on_message_id, Payload, push_in, push_for, push_cases, push_failed,
  push_arrived, no_entries, store_push, texts_of,
}
use wos_sfc.Chat.Sync.Frame.{
  Keeps, Keeps-refl, Keeps-trans, Keeps-if, Keeps-fields, clear_wait-Keeps, clear_retry-Keeps,
  schedule-Keeps, remove_candidate-Keeps, schedule_reenqueue-Keeps,
}

pub stop_waits-Keeps : (ids : List ℕ) (w : World) → Keeps w (stop_waits ids w)
unfolding stop_waits
stop_waits-Keeps [] w = Keeps-refl w
stop_waits-Keeps (id ∷ ids) w = elim (Bool-cases (has_mine w id)) [
  | inl mine ↦ rw mine (
      Keeps-trans (clear_wait-Keeps id w) (
        Keeps-trans (Keeps-fields _ _ refl refl refl refl refl refl refl refl)
          (stop_waits-Keeps ids _)))
  | inr not_mine ↦ rw not_mine (stop_waits-Keeps ids w)
]

pub await_push-Keeps : (id : ℕ) (w : World) → Keeps w (await_push id w)
await_push-Keeps id w =
    let marked = dispatch (mark_translation_pending (id ∷ [])) (clear_wait id w) in
    Keeps-trans (clear_wait-Keeps id w) (
      Keeps-trans (Keeps-fields _ marked refl refl refl refl refl refl refl refl) (
        Keeps-trans (schedule-Keeps (push_elapsed id) push_wait_ms marked refl)
          (Keeps-fields _ _ refl refl refl refl refl refl refl refl)))

pub on_message_id-Keeps : (id : Option ℕ) (w : World) → Keeps w (on_message_id id w)
on_message_id-Keeps none w = Keeps-refl w
on_message_id-Keeps (some id) w = elim (Bool-cases (is_some (eligible_message w id))) [
  | inl ready ↦ rw ready (await_push-Keeps id w)
  | inr other ↦ rw other (Keeps-refl w)
]

pub store_push-Keeps : (id : ℕ) (texts : TextMap) (w : World) → Keeps w (store_push id texts w)
store_push-Keeps id [] w = Keeps-refl w
store_push-Keeps id (e ∷ es) w = Keeps-fields w _ refl refl refl refl refl refl refl refl

pub push_arrived-Keeps : (id : ℕ) (w : World) → Keeps w (push_arrived id w)
push_arrived-Keeps id w = Keeps-trans (clear_wait-Keeps id w) (
    Keeps-trans (clear_retry-Keeps id _) (
      Keeps-trans (remove_candidate-Keeps id _)
        (Keeps-fields _ _ refl refl refl refl refl refl refl refl)))

pub push_failed-Keeps : (id : ℕ) (w : World) → Keeps w (push_failed id w)
push_failed-Keeps id w =
    let k = clear_wait-Keeps id w in
    Keeps-if w.sync.auto_translate
      (Keeps-trans k (schedule_reenqueue-Keeps id push_wait_ms (clear_wait id w))) k

pub push_cases-Keeps :
    (id : ℕ) (texts : TextMap) (failed : List String) (lang : String) (value : Option String)
    (w : World)
    → Keeps w (push_cases id texts failed lang value w)
push_cases-Keeps id texts failed lang (some text) w = push_arrived-Keeps id w
push_cases-Keeps id texts failed lang none w = elim (Bool-cases (contains lang failed)) [
  | inl fails ↦ rw fails (push_failed-Keeps id w)
  | inr rest ↦ rw rest (elim (Bool-cases (no_entries texts failed)) [
    | inl empty ↦ rw empty (
        Keeps-trans (clear_wait-Keeps id w)
          (Keeps-fields _ _ refl refl refl refl refl refl refl refl))
    | inr other ↦ rw other (Keeps-refl w)
  ])
]

pub push_for-Keeps :
    (lang : Option String) (id : ℕ) (texts : TextMap) (failed : List String) (w : World)
    → Keeps w (push_for lang id texts failed w)
push_for-Keeps none id texts failed w = Keeps-refl w
push_for-Keeps (some lang) id texts failed w = push_cases-Keeps id texts failed lang _ w

pub push_in-Keeps : (id : Option ℕ) (p : Payload) (w : World) → Keeps w (push_in id p w)
push_in-Keeps none p w = Keeps-refl w
push_in-Keeps (some id) p w =
    Keeps-trans (store_push-Keeps id (texts_of p.translations) w)
      (push_for-Keeps w.sync.my_lang id (texts_of p.translations) p.failed _)
