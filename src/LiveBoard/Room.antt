-- ===== src/LiveBoard/Room.antt =====
-- The room of the operation board: what the gateway (server/src/operation-boards/operation-boards.gateway.ts)
-- sends, and what a client (web/src/components/OperationBoard/useOperationBoardSocket.js) makes of it.
pub mod Follows
pub mod Laws
pub mod Refusals
use wos_sfc.Prelude.{
  ℕ, ◌+◌, ◌-◌, String, Bool, true, false, not, ◌&&◌, ◌||◌, Option, none, some, List, [], ◌∷◌, ◌++◌,
  filter, length, ltb, leb, is_some, get_or, if◌then◌else◌, string_eq, ◌==◌,
}
use wos_sfc.Prelude.Dict.{Dict, lookup, insert, remove}
use wos_sfc.Board.Socket.{
  Ack, BoardState, BoardEvent, BoardPayload, state, element_add as added, element_remove as removed,
  clear as cleared, background_update as background_updated, board_replace as board_replaced, react,
}
use wos_sfc.Server.SocketLimit.{Buckets, check, cleanup}
use wos_sfc.LiveBoard.Element.{
  OperationElement, Raw, Validated, operation_element_bytes, normalize_operation_element,
  validate_operation_elements, max_operation_elements, max_operation_elements_bytes,
}
use wos_sfc.LiveBoard.State.{
  OperationUser, OperationParticipant, OperationBackground, grid, RawBackground, Gateway,
  BoardMessage, to_room, to_client, enter, exit, hang_up, rate_limited, forbidden, invalid_element,
  invalid_background, too_many_elements, data_too_large, rejection_reason, is_privileged_role,
  can_draw_now, get_participants, can_client_draw, can_client_manage, broadcast_presence,
  presence_due, normalize_background, BoardRequest, join, permission_update, leave, chat_open,
  element_add, element_remove, clear, board_replace, background_update, event_of, rate_rule,
}
use wos_sfc.LiveBoard.Members.{Reply}
use wos_sfc.LiveBoard.Gateway.{BoardAction, board_act}

-- A client and the room: what it is sent while it is in the room reaches its handlers.
pub record Seat (N : Type 0) : Type 0 where
  pub inside : Bool
  pub board : BoardState (OperationElement N) OperationBackground

abbrev pub id_of : {N : Type 0} → OperationElement N → String
id_of e = e.id

abbrev pub hear :
    {N : Type 0} → BoardEvent (OperationElement N) OperationBackground → Seat N → Seat N
hear event c = record c { board = react id_of grid event c.board }

module _ {N : Type 0} (client : String) where
  unfoldable pub deliver : BoardMessage N → Seat N → Seat N
  deliver (to_room event) c = if c.inside then hear event c else c
  deliver (to_client id event) c = if id == client then hear event c else c
  deliver (enter id) c = if id == client then record c { inside = true } else c
  deliver (exit id) c = if id == client then record c { inside = false } else c
  deliver (hang_up id) c = c

  unfoldable pub deliver_all : List (BoardMessage N) → Seat N → Seat N
  deliver_all [] c = c
  deliver_all (m ∷ ms) c = deliver_all ms (deliver m c)

module _ {N : Type 0} (trim : String → String) (json_bytes : OperationElement N → ℕ)
    (is_background_url : String → Bool) (client : String) where
  -- The gateway and a client after some actions.
  unfoldable pub run : List (BoardAction N) → Gateway N × Seat N → Gateway N × Seat N
  run [] (g, c) = (g, c)
  run (a ∷ actions) (g, c) =
      let o = board_act trim json_bytes is_background_url a g in
      run actions (o.gateway, deliver_all client o.messages c)

abbrev pub new_gateway : {N : Type 0} → String → Gateway N
new_gateway session = record {
  connected_users = [];
  participants = [];
  elements = [];
  elements_bytes = 0;
  background = grid;
  presence_pending = false;
  session_id = session;
  rate_limit = [];
}
