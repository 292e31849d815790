-- ===== src/Board/Socket.antt =====
-- The state that `useOperationBoardSocket`
-- (web/src/components/OperationBoard/useOperationBoardSocket.js) keeps of the live board, and its
-- handlers of the socket's events. An element is its id and whatever else it holds.
pub mod Laws
use wos_sfc.Prelude.{
  ℕ, String, Bool, true, false, not, ◌||◌, Option, none, some, List, [], ◌∷◌, ◌++◌, filter,
  take_last, get_or, if◌then◌else◌, string_eq, ◌==◌, is_some,
}

abbrev pub max_elements : ℕ
max_elements = 500

pub record Participant : Type 0 where
  pub participant_id : String
  pub nickname : String
  pub alliance : String
  pub role : String
  pub can_draw : Bool
  pub chat_open : Bool

-- `{ ok, reason }`; an answer without a reason has `none`.
pub record Ack : Type 0 where
  pub ok : Option Bool
  pub reason : Option String

-- The payload of `operation:state`; a property that is missing, null or no array is `none`.
pub record BoardPayload (E B : Type 0) : Type 0 where
  pub session_id : Option String
  pub elements : Option (List E)
  pub background : Option B
  pub participants : Option (List Participant)
  pub can_draw : Bool

pub record BoardState (E B : Type 0) : Type 0 where
  pub elements : List E
  pub background : B
  pub participants : List Participant
  pub can_draw : Bool
  pub connected : Bool
  pub last_error : String
  pub session_reset : Bool
  pub socket_id : Option String
  pub session_id : Option String

-- The socket's events, the answers to what the client sent, and `clearError`.
pub data BoardEvent (E B : Type 0) : Type 0 where
  connect : Option String → BoardEvent E B
  disconnect : BoardEvent E B
  state : BoardPayload E B → BoardEvent E B
  presence : Option (List Participant) → BoardEvent E B
  element_add : E → BoardEvent E B
  -- `none` is a body without an id.
  element_remove : Option String → BoardEvent E B
  clear : BoardEvent E B
  background_update : Option B → BoardEvent E B
  board_replace : Option (List E) → Option B → BoardEvent E B
  acknowledged : Option Ack → BoardEvent E B
  clear_error : BoardEvent E B

-- `state.sessionId || null`
abbrev pub non_empty : Option String → Option String
non_empty none = none
non_empty (some s) = if s == "" then none else some s

-- Both sessions are known and differ.
abbrev pub is_restart : Option String → Option String → Bool
is_restart (some s) (some t) = not (t == s)
is_restart _ _ = false

abbrev is_own : Option String → Participant → Bool
is_own none p = false
is_own (some id) p = p.participant_id == id

abbrev pub own_can_draw : Option String → List Participant → Bool → Bool
own_can_draw socket_id [] before = before
own_can_draw socket_id (p ∷ ps) before =
    if is_own socket_id p then p.can_draw else own_can_draw socket_id ps before

abbrev pub rejection : String
rejection = "작전판 요청이 거부되었습니다."

abbrev reason_of : Option String → String
reason_of none = rejection
reason_of (some s) = if s == "" then rejection else s

abbrev error_after : Option Bool → Option String → String → String
error_after (some false) reason before = reason_of reason
error_after (some true) reason before = ""
error_after none reason before = before

-- `handleAck`
abbrev pub handle_ack : Option Ack → String → String
handle_ack none before = before
handle_ack (some ack) before = error_after ack.ok ack.reason before

module _ {E B : Type 0} (id_of : E → String) (empty_background : B) where
  abbrev pub is_element : Option String → E → Bool
  is_element none element = false
  is_element (some id) element = id_of element == id

  unfoldable pub handle_state : BoardPayload E B → BoardState E B → BoardState E B
  handle_state payload b = record b {
    session_reset = b.session_reset || is_restart b.session_id (non_empty payload.session_id);
    session_id = non_empty payload.session_id;
    elements = get_or payload.elements [];
    background = get_or payload.background empty_background;
    participants = get_or payload.participants [];
    can_draw = payload.can_draw;
  }

  unfoldable pub react : BoardEvent E B → BoardState E B → BoardState E B
  unfolding handle_state
  react (connect id) b = record b { connected = true; socket_id = non_empty id }
  react disconnect b = record b { connected = false }
  react (state payload) b = handle_state payload b
  react (presence next) b = record b {
    participants = get_or next [];
    can_draw = own_can_draw b.socket_id (get_or next []) b.can_draw;
  }
  react (element_add element) b = record b {
    elements = take_last max_elements (b.elements ++ element ∷ []);
  }
  react (element_remove id) b = record b {
    elements = filter (λ element. not (is_element id element)) b.elements;
  }
  react clear b = record b { elements = [] }
  react (background_update next) b = record b { background = get_or next empty_background }
  react (board_replace elements background) b = record b {
    elements = get_or elements [];
    background = get_or background empty_background;
  }
  react (acknowledged ack) b = record b { last_error = handle_ack ack b.last_error }
  react clear_error b = record b { last_error = "" }

  unfoldable pub react_all : List (BoardEvent E B) → BoardState E B → BoardState E B
  react_all [] b = b
  react_all (e ∷ es) b = react_all es (react e b)
