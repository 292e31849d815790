-- ===== src/LiveBoard/Room/Refusals/Handlers.antt =====
-- Each handler of the board, when it refuses, does nothing.
use wos_sfc.Prelude.{
  ℕ, ◌≡◌, refl, String, Bool, true, false, not, ◌&&◌, ◌||◌, Option, none, some, List, [], length,
  leb, ltb, ◌+◌, string_eq, if◌then◌else◌, Bool-cases, Option-cases, inl, inr,
}
use wos_sfc.Prelude.Dict.{lookup}
use wos_sfc.Board.Socket.{Ack}
use wos_sfc.LiveBoard.Element.{
  OperationElement, Validated, operation_element_bytes, max_operation_elements,
  max_operation_elements_bytes,
}
use wos_sfc.LiveBoard.State.{
  Gateway, BoardMessage, OperationParticipant, OperationBackground, forbidden, invalid_element,
  is_privileged_role,
}
use wos_sfc.LiveBoard.Members.{
  Reply, accepted, declined, permit, permit_body, set_can_draw, open_chat,
}
use wos_sfc.LiveBoard.Gateway.{
  add_element, add_normalized, set_background, replace_with, replace_validated,
}

abbrev is_no : Option Bool → Bool
is_no (some false) = true
is_no _ = false

abbrev pub is_refused : Option Ack → Bool
is_refused none = false
is_refused (some ack) = is_no ack.ok

module _ {N : Type 0} where
  -- Nothing is changed and nothing is sent.
  abbrev pub IsNothing : Gateway N → Reply N → Type 0
  IsNothing g o = (o.gateway ≡ g) × (o.messages ≡ [])

  abbrev pub Refuses : Gateway N → Reply N → Type 0
  Refuses g o = is_refused o.answer ≡ true → IsNothing g o

  pub declined-Refuses : (g : Gateway N) (reason : Option String) → Refuses g (declined g reason)
  declined-Refuses g reason refused = (refl, refl)

  pub accepted-Refuses :
      (g g' : Gateway N) (ms : List (BoardMessage N)) → Refuses g (accepted g' ms)
  accepted-Refuses g g' ms refused = absurd (cc)

  pub set_can_draw-Refuses :
      (id : String) (p : OperationParticipant) (next : Bool) (g : Gateway N)
      → Refuses g (set_can_draw id p next g)
  set_can_draw-Refuses id p next g =
      elim (Bool-cases ((p.can_draw && next) || (not p.can_draw && not next))) [
        | inl same ↦ rw same (λ refused. absurd (cc))
        | inr other ↦ rw other (λ refused. absurd (cc))
      ]

  pub permit-Refuses :
      (id : String) (p : Option OperationParticipant) (can_draw : Bool) (g : Gateway N)
      → Refuses g (permit id p can_draw g)
  permit-Refuses id none can_draw g = declined-Refuses g none
  permit-Refuses id (some p) can_draw g =
      set_can_draw-Refuses id p (is_privileged_role p.user.role || can_draw) g

  pub permit_body-Refuses :
      (id : Option String) (can_draw : Option Bool) (g : Gateway N)
      → Refuses g (permit_body id can_draw g)
  permit_body-Refuses none can_draw g = declined-Refuses g none
  permit_body-Refuses (some id) none g = declined-Refuses g none
  permit_body-Refuses (some id) (some can_draw) g =
      permit-Refuses id (lookup id g.participants) can_draw g

  pub open_chat-Refuses :
      (client : String) (p : Option OperationParticipant) (opened : Option Bool) (g : Gateway N)
      → Refuses g (open_chat client p opened g)
  open_chat-Refuses client none opened g = declined-Refuses g none
  open_chat-Refuses client (some p) none g = declined-Refuses g none
  open_chat-Refuses client (some p) (some opened) g =
      elim (Bool-cases ((p.chat_open && opened) || (not p.chat_open && not opened))) [
        | inl same ↦ rw same (λ refused. absurd (cc))
        | inr other ↦ rw other (λ refused. absurd (cc))
      ]

  pub set_background-Refuses :
      (background : Option OperationBackground) (g : Gateway N)
      → Refuses g (set_background background g)
  set_background-Refuses none g = λ refused. (refl, refl)
  set_background-Refuses (some background) g = λ refused. absurd (cc)

  pub replace_with-Refuses :
      (v : Validated N) (background : Option OperationBackground) (g : Gateway N)
      → Refuses g (replace_with v background g)
  replace_with-Refuses v none g = λ refused. (refl, refl)
  replace_with-Refuses v (some background) g = λ refused. absurd (cc)

  pub replace_validated-Refuses :
      (v : Validated N) (background : Option OperationBackground) (g : Gateway N)
      → Refuses g (replace_validated v background g)
  replace_validated-Refuses v background g = elim (Option-cases v.rejection) [
    | inl ok ↦ rw ok (replace_with-Refuses v background g)
    | inr (why, bad) ↦ rw bad (λ refused. (refl, refl))
  ]

  pub add_element-Refuses :
      (json_bytes : OperationElement N → ℕ) (element : OperationElement N) (g : Gateway N)
      → Refuses g (add_element json_bytes element g)
  add_element-Refuses json_bytes element g =
      elim (Bool-cases (leb max_operation_elements (length g.elements))) [
        | inl full ↦ rw full (λ refused. (refl, refl))
        | inr free ↦
            elim (Bool-cases (
              ltb max_operation_elements_bytes
                (g.elements_bytes + operation_element_bytes json_bytes element))) [
                  | inl big ↦ rw (free, big) (λ refused. (refl, refl))
                  | inr fits ↦ rw (free, fits) (λ refused. absurd (cc))
                ]
      ]

  pub add_normalized-Refuses :
      (json_bytes : OperationElement N → ℕ) (element : Option (OperationElement N)) (g : Gateway N)
      → Refuses g (add_normalized json_bytes element g)
  add_normalized-Refuses json_bytes none g = declined-Refuses g (some invalid_element)
  add_normalized-Refuses json_bytes (some element) g = add_element-Refuses json_bytes element g

  -- A handler that asks for a right first.
  pub guarded-Refuses :
      (may : Bool) (g : Gateway N) (o : Reply N)
      → Refuses g o
      → Refuses g (if may then o else declined g (some forbidden))
  guarded-Refuses true g o h = h
  guarded-Refuses false g o h = declined-Refuses g (some forbidden)
