-- ===== src/LiveBoard/Members.antt =====
-- The participants of the operation board, as `OperationBoardsGateway`
-- (server/src/operation-boards/operation-boards.gateway.ts) keeps them. Each handler returns what it
-- leaves, what it sends, and its answer.
use wos_sfc.Prelude.{
  String, Bool, true, false, not, ◌&&◌, ◌||◌, Option, none, some, List, [], ◌∷◌, is_some,
  if◌then◌else◌, string_eq,
}
use wos_sfc.Prelude.Dict.{lookup, insert, remove}
use wos_sfc.Board.Socket.{Ack, BoardPayload, state}
use wos_sfc.Server.SocketLimit.{cleanup}
use wos_sfc.LiveBoard.Element.{OperationElement}
use wos_sfc.LiveBoard.State.{
  OperationUser, OperationParticipant, OperationBackground, Gateway, BoardMessage, to_client, enter,
  exit, hang_up, forbidden, is_privileged_role, can_draw_now, get_participants, can_client_manage,
  broadcast_presence,
}

pub record Reply (N : Type 0) : Type 0 where
  pub gateway : Gateway N
  pub messages : List (BoardMessage N)
  pub answer : Option Ack

module _ {N : Type 0} where
  abbrev pub silent : Gateway N → List (BoardMessage N) → Reply N
  silent g messages = record { gateway = g; messages = messages; answer = none }

  abbrev pub accepted : Gateway N → List (BoardMessage N) → Reply N
  accepted g messages = record {
    gateway = g;
    messages = messages;
    answer = some (record { ok = some true; reason = none });
  }

  abbrev pub declined : Gateway N → Option String → Reply N
  declined g reason = record {
    gateway = g;
    messages = [];
    answer = some (record { ok = some false; reason = reason });
  }

  unfoldable pub handle_connection : String → Bool → Option OperationUser → Gateway N → Reply N
  handle_connection client false user g = silent g []
  handle_connection client true none g = silent g (hang_up client ∷ [])
  handle_connection client true (some user) g =
      silent (record g { connected_users = insert client user g.connected_users }) []

  unfoldable pub handle_disconnect : String → Gateway N → Reply N
  handle_disconnect client g =
      let left = record g {
        connected_users = remove client g.connected_users;
        participants = remove client g.participants;
        rate_limit = cleanup client g.rate_limit;
      } in
      silent (if is_some (lookup client g.participants) then broadcast_presence left else left) []

-- The user of a client that joins: known when it asked, or what the lookup found in the end.
pub data Found : Type 0 where
  existing : OperationUser → Found
  resolved : Option OperationUser → Found

abbrev pub user_found : Found → Option OperationUser
user_found (existing user) = some user
user_found (resolved user) = user

abbrev pub participant_for : String → OperationUser → Bool → OperationParticipant
participant_for client user opened = record {
  user = user;
  participant_id = client;
  can_draw = is_privileged_role user.role;
  chat_open = opened;
}

module _ {N : Type 0} where
  -- `ensureUser` for a client that is still connected.
  abbrev pub remember : String → Found → Gateway N → Gateway N
  remember client (existing user) g = g
  remember client (resolved none) g = g
  remember client (resolved (some user)) g = record g {
    connected_users = insert client user g.connected_users;
  }

  abbrev pub board_payload :
      OperationParticipant → Gateway N → BoardPayload (OperationElement N) OperationBackground
  board_payload p g = record {
    session_id = some g.session_id;
    elements = some g.elements;
    background = some g.background;
    participants = some (get_participants g.participants);
    can_draw = can_draw_now p;
  }

  abbrev pub enter_with : String → OperationParticipant → Gateway N → Reply N
  enter_with client p g =
      accepted (broadcast_presence g)
        (enter client ∷ to_client client (state (board_payload p g)) ∷ [])

  abbrev pub enlist : String → OperationParticipant → Gateway N → Reply N
  enlist client p g =
      enter_with client p (record g { participants = insert client p g.participants })

  abbrev pub join_user : String → Option OperationUser → Bool → Gateway N → Reply N
  join_user client none opened g = record (declined g none) { messages = hang_up client ∷ [] }
  join_user client (some user) opened g = enlist client (participant_for client user opened) g

  -- The rest of `handleJoin`, once the user is there.
  unfoldable pub handle_join : String → Bool → Found → Bool → Gateway N → Reply N
  handle_join client false found opened g = declined g none
  handle_join client true found opened g =
      join_user client (user_found found) opened (remember client found g)

  abbrev pub set_can_draw : String → OperationParticipant → Bool → Gateway N → Reply N
  set_can_draw id p next g =
      if (p.can_draw && next) || (not p.can_draw && not next)
      then accepted g []
      else accepted
          (broadcast_presence
            (record g { participants = insert id (record p { can_draw = next }) g.participants }))
          []

  abbrev pub permit : String → Option OperationParticipant → Bool → Gateway N → Reply N
  permit id none can_draw g = declined g none
  permit id (some p) can_draw g = set_can_draw id p (is_privileged_role p.user.role || can_draw) g

  abbrev pub permit_body : Option String → Option Bool → Gateway N → Reply N
  permit_body (some id) (some can_draw) g = permit id (lookup id g.participants) can_draw g
  permit_body _ _ g = declined g none

  unfoldable pub handle_permission_update :
      String → Option String → Option Bool → Gateway N → Reply N
  handle_permission_update client id can_draw g =
      if can_client_manage client g then permit_body id can_draw g else declined g (some forbidden)

  unfoldable pub handle_leave : String → Gateway N → Reply N
  handle_leave client g =
      let left = record g { participants = remove client g.participants } in
      accepted (if is_some (lookup client g.participants) then broadcast_presence left else left)
        (exit client ∷ [])

  abbrev pub set_chat_open : String → OperationParticipant → Bool → Gateway N → Reply N
  set_chat_open client p opened g =
      if (p.chat_open && opened) || (not p.chat_open && not opened)
      then accepted g []
      else accepted
          (broadcast_presence (record g {
            participants = insert client (record p { chat_open = opened }) g.participants;
          }))
          []

  abbrev pub open_chat : String → Option OperationParticipant → Option Bool → Gateway N → Reply N
  open_chat client (some p) (some opened) g = set_chat_open client p opened g
  open_chat client _ _ g = declined g none

  unfoldable pub handle_chat_open : String → Option Bool → Gateway N → Reply N
  handle_chat_open client opened g = open_chat client (lookup client g.participants) opened g
