-- ===== src/LiveBoard/Gateway.antt =====
-- The handlers of `OperationBoardsGateway`
-- (server/src/operation-boards/operation-boards.gateway.ts) that change the board, and all its
-- handlers behind the rate limit.
use wos_sfc.Prelude.{
  ℕ, ◌+◌, ◌-◌, String, Bool, not, Option, none, some, List, [], ◌∷◌, ◌++◌, filter, length, ltb, leb,
  if◌then◌else◌, string_eq, ◌==◌,
}
use wos_sfc.Board.Socket.{
  element_add as added, element_remove as removed, clear as cleared,
  background_update as background_updated, board_replace as board_replaced,
}
use wos_sfc.Server.SocketLimit.{check}
use wos_sfc.LiveBoard.Element.{
  OperationElement, Raw, Validated, operation_element_bytes, normalize_operation_element,
  validate_operation_elements, max_operation_elements, max_operation_elements_bytes,
}
use wos_sfc.LiveBoard.State.{
  OperationUser, OperationBackground, grid, RawBackground, Gateway, to_room, rate_limited,
  forbidden, invalid_element, invalid_background, too_many_elements, data_too_large,
  rejection_reason, can_client_draw, can_client_manage, presence_due, normalize_background,
  BoardRequest, join, permission_update, leave, chat_open, element_add, element_remove, clear,
  board_replace, background_update, event_of, rate_rule,
}
use wos_sfc.LiveBoard.Members.{
  Reply, silent, accepted, declined, Found, handle_connection, handle_disconnect, handle_join,
  handle_permission_update, handle_leave, handle_chat_open,
}

module _ {N : Type 0} (json_bytes : OperationElement N → ℕ) where
  abbrev pub add_element : OperationElement N → Gateway N → Reply N
  add_element element g =
      let bytes = operation_element_bytes json_bytes element in
      if leb max_operation_elements (length g.elements)
      then declined g (some too_many_elements)
      else (if ltb max_operation_elements_bytes (g.elements_bytes + bytes)
          then declined g (some data_too_large)
          else accepted
              (record g {
                elements = g.elements ++ element ∷ [];
                elements_bytes = g.elements_bytes + bytes;
              })
              (to_room (added element) ∷ []))

  abbrev pub add_normalized : Option (OperationElement N) → Gateway N → Reply N
  add_normalized none g = declined g (some invalid_element)
  add_normalized (some element) g = add_element element g

  -- The bytes of the elements with the id.
  abbrev pub removed_bytes : String → List (OperationElement N) → ℕ
  removed_bytes id [] = 0
  removed_bytes id (e ∷ es) =
      let rest = removed_bytes id es in
      if e.id == id then operation_element_bytes json_bytes e + rest else rest

  abbrev pub remove_element : String → Gateway N → Reply N
  remove_element id g =
      accepted
        (record g {
          elements = filter (λ (e : OperationElement N). not (e.id == id)) g.elements;
          elements_bytes = g.elements_bytes - removed_bytes id g.elements;
        })
        (to_room (removed (some id)) ∷ [])

module _ {N : Type 0} where
  unfoldable pub handle_clear : String → Gateway N → Reply N
  handle_clear client g =
      if can_client_manage client g
      then accepted (record g { elements = []; elements_bytes = 0 }) (to_room cleared ∷ [])
      else declined g (some forbidden)

  abbrev pub set_background : Option OperationBackground → Gateway N → Reply N
  set_background none g = declined g (some invalid_background)
  set_background (some background) g =
      accepted (record g { background = background })
        (to_room (background_updated (some background)) ∷ [])

  abbrev pub replace_with : Validated N → Option OperationBackground → Gateway N → Reply N
  replace_with v none g = declined g (some invalid_background)
  replace_with v (some background) g =
      accepted
        (record g { elements = v.elements; elements_bytes = v.bytes; background = background })
        (to_room (board_replaced (some v.elements) (some background)) ∷ [])

  abbrev pub replace_validated : Validated N → Option OperationBackground → Gateway N → Reply N
  replace_validated v background g = elim v.rejection [
    | some why ↦ declined g (some (rejection_reason why))
    | none ↦ replace_with v background g
  ]

-- `trim` is `String.prototype.trim`, `json_bytes` the length of an element as JSON in UTF-8, and
-- `is_background_url` the match with the pattern of a background's URL.
module _ {N : Type 0} (trim : String → String) (json_bytes : OperationElement N → ℕ)
    (is_background_url : String → Bool) where
  unfoldable pub handle_element_add : String → Raw N → Gateway N → Reply N
  handle_element_add client element g =
      if can_client_draw client g
      then add_normalized json_bytes (normalize_operation_element trim json_bytes element) g
      else declined g (some forbidden)

  abbrev pub remove_body : Option String → Gateway N → Reply N
  remove_body none g = declined g none
  remove_body (some id) g =
      if trim id == "" then declined g none else remove_element json_bytes id g

  unfoldable pub handle_element_remove : String → Option String → Gateway N → Reply N
  handle_element_remove client id g =
      if can_client_draw client g then remove_body id g else declined g (some forbidden)

  abbrev pub background_or_grid : Option (Option RawBackground) → Option OperationBackground
  background_or_grid none = some grid
  background_or_grid (some body) = normalize_background is_background_url body

  unfoldable pub handle_board_replace :
      String → Option (List (Raw N)) → Option (Option RawBackground) → Gateway N → Reply N
  handle_board_replace client elements background g =
      if can_client_manage client g
      then replace_validated (validate_operation_elements trim json_bytes elements)
          (background_or_grid background) g
      else declined g (some forbidden)

  unfoldable pub handle_background_update : String → Option RawBackground → Gateway N → Reply N
  handle_background_update client body g =
      if can_client_manage client g
      then set_background (normalize_background is_background_url body) g
      else declined g (some forbidden)

  -- A request that the rate limit lets through. What `operation:join` asks for is awaited.
  unfoldable pub handle : String → BoardRequest N → Gateway N → Reply N
  handle client join g = silent g []
  handle client (permission_update id can_draw) g = handle_permission_update client id can_draw g
  handle client leave g = handle_leave client g
  handle client (chat_open opened) g = handle_chat_open client opened g
  handle client (element_add element) g = handle_element_add client element g
  handle client (element_remove id) g = handle_element_remove client id g
  handle client clear g = handle_clear client g
  handle client (board_replace elements background) g =
      handle_board_replace client elements background g
  handle client (background_update body) g = handle_background_update client body g

  -- `checkRate`, which each handler begins with, at the time `now`.
  unfoldable pub request : String → ℕ → BoardRequest N → Gateway N → Reply N
  request client now r g =
      let (buckets, allowed) =
        check client (event_of r) (rate_rule r).0 (rate_rule r).1 now g.rate_limit in
      let g' = record g { rate_limit = buckets } in
      if allowed then handle client r g' else declined g' (some rate_limited)

-- What reaches the gateway, with what it awaited: a client arrives (still connected?, as whom?), goes,
-- asks at a time, joins (still connected?, as whom?, with the chat open?); the timer comes due.
pub data BoardAction (N : Type 0) : Type 0 where
  arrived : String → Bool → Option OperationUser → BoardAction N
  gone : String → BoardAction N
  asked : String → ℕ → BoardRequest N → BoardAction N
  joined : String → Bool → Found → Bool → BoardAction N
  timer : BoardAction N

module _ {N : Type 0} (trim : String → String) (json_bytes : OperationElement N → ℕ)
    (is_background_url : String → Bool) where
  unfoldable pub board_act : BoardAction N → Gateway N → Reply N
  board_act (arrived client connected user) g = handle_connection client connected user g
  board_act (gone client) g = handle_disconnect client g
  board_act (asked client now r) g = request trim json_bytes is_background_url client now r g
  board_act (joined client connected found opened) g = handle_join client connected found opened g
  board_act timer g = silent (presence_due g).0 (presence_due g).1
