-- ===== src/LiveBoard/Room/Refusals.antt =====
-- What the gateway refuses, it does not do.
pub mod Handlers
use wos_sfc.Prelude.{
  ℕ, ◌≡◌, refl, ◌∙◌, String, Bool, true, false, not, ◌&&◌, ◌||◌, Option, none, some, List, [], ◌∷◌,
  ◌++◌, length, leb, ltb, ◌+◌, string_eq, ◌==◌, if◌then◌else◌, Bool-cases, Option-cases, inl, inr,
  arith,
}
use wos_sfc.Prelude.Dict.{lookup}
use wos_sfc.Board.Socket.{Ack}
use wos_sfc.Server.SocketLimit.{check}
use wos_sfc.LiveBoard.Element.{
  OperationElement, Raw, Validated, normalize_operation_element, operation_element_bytes,
  validate_operation_elements, max_operation_elements, max_operation_elements_bytes,
}
use wos_sfc.LiveBoard.State.{
  Gateway, BoardMessage, OperationParticipant, OperationBackground, RawBackground, forbidden,
  rate_limited, invalid_element, can_client_draw, can_client_manage, is_privileged_role,
  normalize_background, BoardRequest, join, permission_update, leave, chat_open, element_add,
  element_remove, clear, board_replace, background_update, event_of, rate_rule,
}
use wos_sfc.LiveBoard.Members.{
  Reply, accepted, declined, permit, permit_body, set_can_draw, set_chat_open, open_chat,
  handle_permission_update, handle_leave, handle_chat_open,
}
use wos_sfc.LiveBoard.Gateway.{
  add_element, add_normalized, remove_body, set_background, replace_with, replace_validated,
  background_or_grid, handle_element_add, handle_element_remove, handle_clear, handle_board_replace,
  handle_background_update, handle, request,
}
use wos_sfc.LiveBoard.Room.Refusals.Handlers.{
  is_refused, IsNothing, Refuses, declined-Refuses, accepted-Refuses, set_can_draw-Refuses,
  permit-Refuses, permit_body-Refuses, open_chat-Refuses, set_background-Refuses,
  replace_with-Refuses, replace_validated-Refuses, add_element-Refuses, add_normalized-Refuses,
  guarded-Refuses,
}

module _ {N : Type 0} where
  -- The right that a request asks for.
  abbrev pub may : String → BoardRequest N → Gateway N → Bool
  may client (permission_update _ _) g = can_client_manage client g
  may client (element_add _) g = can_client_draw client g
  may client (element_remove _) g = can_client_draw client g
  may client clear g = can_client_manage client g
  may client (board_replace _ _) g = can_client_manage client g
  may client (background_update _) g = can_client_manage client g
  may client _ g = true

  -- The gateway after the rate limit has counted a request.
  abbrev pub counted : String → ℕ → BoardRequest N → Gateway N → Gateway N
  counted client now r g = record g {
    rate_limit = (check client (event_of r) (rate_rule r).0 (rate_rule r).1 now g.rate_limit).0;
  }

module _ {N : Type 0} (trim : String → String) (json_bytes : OperationElement N → ℕ)
    (is_background_url : String → Bool) where
  remove_body-Refuses :
      (id : Option String) (g : Gateway N)
      → Refuses g (remove_body trim json_bytes is_background_url id g)
  remove_body-Refuses none g = declined-Refuses g none
  remove_body-Refuses (some id) g = elim (Bool-cases (trim id == "")) [
    | inl blank ↦ rw blank (λ refused. (refl, refl))
    | inr named ↦ rw named (λ refused. absurd (cc))
  ]

  handle-Refuses :
      (client : String) (r : BoardRequest N) (g : Gateway N)
      → Refuses g (handle trim json_bytes is_background_url client r g)
  unfolding handle handle_permission_update handle_leave handle_chat_open handle_element_add
      handle_element_remove handle_clear handle_board_replace handle_background_update
  handle-Refuses client join g = λ refused. absurd (cc)
  handle-Refuses client (permission_update id can_draw) g =
      guarded-Refuses (can_client_manage client g) g (permit_body id can_draw g)
        (permit_body-Refuses id can_draw g)
  handle-Refuses client leave g = λ refused. absurd (cc)
  handle-Refuses client (chat_open opened) g =
      open_chat-Refuses client (lookup client g.participants) opened g
  handle-Refuses client (element_add element) g =
      guarded-Refuses (can_client_draw client g) g
        (add_normalized json_bytes (normalize_operation_element trim json_bytes element) g)
        (add_normalized-Refuses json_bytes (normalize_operation_element trim json_bytes element) g)
  handle-Refuses client (element_remove id) g =
      guarded-Refuses (can_client_draw client g) g
        (remove_body trim json_bytes is_background_url id g) (remove_body-Refuses id g)
  handle-Refuses client clear g =
      guarded-Refuses (can_client_manage client g) g _ (λ refused. absurd (cc))
  handle-Refuses client (board_replace elements background) g =
      guarded-Refuses (can_client_manage client g) g _ (
        replace_validated-Refuses (validate_operation_elements trim json_bytes elements)
          (background_or_grid trim json_bytes is_background_url background) g)
  handle-Refuses client (background_update body) g =
      guarded-Refuses (can_client_manage client g) g _
        (set_background-Refuses (normalize_background is_background_url body) g)

  -- A request that is answered by a refusal, because of the rate limit, a missing right, a bad body or
  -- a full board, changes nothing but the record of the rate limit, and nothing is sent to anyone.
  pub request-Refuses :
      (client : String) (now : ℕ) (r : BoardRequest N) (g : Gateway N)
      → is_refused (request trim json_bytes is_background_url client now r g).answer ≡ true
      → IsNothing
          (counted client now r g)
          (request trim json_bytes is_background_url client now r g)
  unfolding request
  request-Refuses client now r g =
      elim (Bool-cases
        (check client (event_of r) (rate_rule r).0 (rate_rule r).1 now g.rate_limit).1) [
          | inl ok ↦ rw ok (handle-Refuses client r (counted client now r g))
          | inr limited ↦ rw limited (declined-Refuses (counted client now r g) (some rate_limited))
        ]

  handle-forbidden :
      (client : String) (r : BoardRequest N) (g : Gateway N)
      → may client r g ≡ false
      → is_refused (handle trim json_bytes is_background_url client r g).answer ≡ true
  unfolding handle handle_permission_update handle_element_add handle_element_remove handle_clear
      handle_board_replace handle_background_update
  handle-forbidden client join g h = absurd (cc)
  handle-forbidden client (permission_update id can_draw) g h = rw h refl
  handle-forbidden client leave g h = absurd (cc)
  handle-forbidden client (chat_open opened) g h = absurd (cc)
  handle-forbidden client (element_add element) g h = rw h refl
  handle-forbidden client (element_remove id) g h = rw h refl
  handle-forbidden client clear g h = rw h refl
  handle-forbidden client (board_replace elements background) g h = rw h refl
  handle-forbidden client (background_update body) g h = rw h refl

  may-counted :
      (client : String) (now : ℕ) (r : BoardRequest N) (g : Gateway N)
      → may client r (counted client now r g) ≡ may client r g
  may-counted client now join g = refl
  may-counted client now (permission_update id can_draw) g = refl
  may-counted client now leave g = refl
  may-counted client now (chat_open opened) g = refl
  may-counted client now (element_add element) g = refl
  may-counted client now (element_remove id) g = refl
  may-counted client now clear g = refl
  may-counted client now (board_replace elements background) g = refl
  may-counted client now (background_update body) g = refl

  request-is_refused :
      (client : String) (now : ℕ) (r : BoardRequest N) (g : Gateway N)
      → may client r g ≡ false
      → is_refused (request trim json_bytes is_background_url client now r g).answer ≡ true
  unfolding request
  request-is_refused client now r g h =
      elim (Bool-cases
        (check client (event_of r) (rate_rule r).0 (rate_rule r).1 now g.rate_limit).1) [
          | inl ok ↦
              rw ok (
                handle-forbidden client r (counted client now r g) (may-counted client now r g ∙ h))
          | inr limited ↦ rw limited refl
        ]

  -- A client without the right that a request asks for (to draw, for an element that is added or
  -- removed; to manage, for the rights of others, the background, and the whole board) changes nothing
  -- but the record of the rate limit, nothing is sent to anyone, and it is told so.
  pub request-forbidden :
      (client : String) (now : ℕ) (r : BoardRequest N) (g : Gateway N)
      → may client r g ≡ false
      → (is_refused (request trim json_bytes is_background_url client now r g).answer ≡ true)
        × IsNothing
            (counted client now r g)
            (request trim json_bytes is_background_url client now r g)
  request-forbidden client now r g h =
      let refused = request-is_refused client now r g h in
      (refused, request-Refuses client now r g refused)
