-- ===== src/LiveBoard/State.antt =====
-- What `OperationBoardsGateway` (server/src/operation-boards/operation-boards.gateway.ts) keeps, and
-- what it asks of its participants.
use wos_sfc.Prelude.{
  ℕ, String, Bool, true, false, ◌||◌, Option, none, some, List, [], ◌∷◌, map, if◌then◌else◌,
  string_eq, ◌==◌,
}
use wos_sfc.Prelude.Dict.{Dict, lookup}
use wos_sfc.Board.Socket.{Participant, BoardEvent, presence}
use wos_sfc.Server.SocketLimit.{Buckets}
use wos_sfc.LiveBoard.Element.{OperationElement, Raw, Rejection, invalid, too_many, too_large}

pub record OperationUser : Type 0 where
  pub nickname : String
  pub alliance : String
  pub role : String

pub record OperationParticipant : Type 0 where
  pub user : OperationUser
  pub participant_id : String
  pub can_draw : Bool
  pub chat_open : Bool

-- A grid has no picture.
pub data OperationBackground : Type 0 where
  grid : OperationBackground
  image : String → OperationBackground

-- The body of a background: its type and its picture, where they are texts.
pub record RawBackground : Type 0 where
  pub type : Option String
  pub image_url : Option String

-- `presence_pending` is that `presenceTimer` is set, `rate_limit` what `WsRateLimitService` keeps.
pub record Gateway (N : Type 0) : Type 0 where
  pub connected_users : Dict String OperationUser
  pub participants : Dict String OperationParticipant
  pub elements : List (OperationElement N)
  pub elements_bytes : ℕ
  pub background : OperationBackground
  pub presence_pending : Bool
  pub session_id : String
  pub rate_limit : Buckets

-- What the gateway sends, to the room or to one client; a client that it puts into the room or takes
-- out of it; and a connection that it ends.
pub data BoardMessage (N : Type 0) : Type 0 where
  to_room : BoardEvent (OperationElement N) OperationBackground → BoardMessage N
  to_client : String → BoardEvent (OperationElement N) OperationBackground → BoardMessage N
  enter : String → BoardMessage N
  exit : String → BoardMessage N
  hang_up : String → BoardMessage N

abbrev pub rate_limited : String
rate_limited = "작전판 요청이 너무 잦습니다. 잠시 후 다시 시도해주세요."

abbrev pub forbidden : String
forbidden = "작전판을 바꿀 권한이 없습니다."

abbrev pub invalid_element : String
invalid_element = "작전판 요소 형식이 올바르지 않습니다."

abbrev pub invalid_background : String
invalid_background = "작전판 배경 형식이 올바르지 않습니다."

abbrev pub too_many_elements : String
too_many_elements = "작전판 요소는 최대 500개까지만 유지됩니다. 저장 후 지우기를 해주세요."

abbrev pub data_too_large : String
data_too_large = "작전판 데이터가 상한(250KB)을 넘었습니다. 저장 후 지우기를 해주세요."

abbrev pub rejection_reason : Rejection → String
rejection_reason too_many = too_many_elements
rejection_reason too_large = data_too_large
rejection_reason invalid = invalid_element

abbrev pub is_privileged_role : String → Bool
is_privileged_role role = role == "admin" || role == "developer"

abbrev pub can_draw_now : OperationParticipant → Bool
can_draw_now p = is_privileged_role p.user.role || p.can_draw

abbrev may_draw : Option OperationParticipant → Bool
may_draw none = false
may_draw (some p) = can_draw_now p

abbrev may_manage : Option OperationParticipant → Bool
may_manage none = false
may_manage (some p) = is_privileged_role p.user.role

-- What a participant is to the clients: all that is kept of it, and whether it may draw now.
abbrev pub seen : String × OperationParticipant → Participant
seen (_, p) = record {
  participant_id = p.participant_id;
  nickname = p.user.nickname;
  alliance = p.user.alliance;
  role = p.user.role;
  can_draw = can_draw_now p;
  chat_open = p.chat_open;
}

abbrev pub get_participants : Dict String OperationParticipant → List Participant
get_participants = map seen

module _ {N : Type 0} where
  abbrev pub can_client_draw : String → Gateway N → Bool
  can_client_draw client g = may_draw (lookup client g.participants)

  abbrev pub can_client_manage : String → Gateway N → Bool
  can_client_manage client g = may_manage (lookup client g.participants)

  -- A broadcast of the participants is planned, unless one is.
  abbrev pub broadcast_presence : Gateway N → Gateway N
  broadcast_presence g = if g.presence_pending then g else record g { presence_pending = true }

  -- `setTimeout` came due.
  abbrev pub presence_due : Gateway N → Gateway N × List (BoardMessage N)
  presence_due g =
      if g.presence_pending
      then (
        record g { presence_pending = false },
        to_room (presence (some (get_participants g.participants))) ∷ [],
      )
      else (g, [])

  -- `onModuleDestroy`
  abbrev pub on_module_destroy : Gateway N → Gateway N
  on_module_destroy g = if g.presence_pending then record g { presence_pending = false } else g

  abbrev pub live_background_image_url : Gateway N → Option String
  live_background_image_url g = url_of g.background
    where
      url_of : OperationBackground → Option String
      url_of grid = none
      url_of (image url) = some url

  abbrev pub is_live_background_image : String → Gateway N → Bool
  is_live_background_image url g = is_image g.background
    where
      is_image : OperationBackground → Bool
      is_image grid = false
      is_image (image shown) = shown == url

-- `is_background_url` is the match with `OPERATION_BOARD_BACKGROUND_URL_PATTERN`.
module _ (is_background_url : String → Bool) where
  abbrev image_of : Option String → Option OperationBackground
  image_of none = none
  image_of (some url) = if is_background_url url then some (image url) else none

  abbrev background_of : Option String → Option String → Option OperationBackground
  background_of none url = none
  background_of (some type) url =
      if type == "grid" then some grid else (if type == "image" then image_of url else none)

  -- `none` is what is no object.
  abbrev pub normalize_background : Option RawBackground → Option OperationBackground
  normalize_background none = none
  normalize_background (some body) = background_of body.type body.image_url

-- The events that a client sends; a property of the body that has another type is `none`.
pub data BoardRequest (N : Type 0) : Type 0 where
  -- `operation:join`, up to the point where the user is awaited.
  join : BoardRequest N
  permission_update : Option String → Option Bool → BoardRequest N
  leave : BoardRequest N
  chat_open : Option Bool → BoardRequest N
  element_add : Raw N → BoardRequest N
  element_remove : Option String → BoardRequest N
  clear : BoardRequest N
  -- The elements are none when they are no list, and [] when they are missing; the background is
  -- none when it is missing.
  board_replace : Option (List (Raw N)) → Option (Option RawBackground) → BoardRequest N
  background_update : Option RawBackground → BoardRequest N

-- `RATE_RULES`
abbrev pub event_of : {N : Type 0} → BoardRequest N → String
event_of join = "operation:join"
event_of leave = "operation:leave"
event_of (chat_open _) = "operation:chat-open"
event_of (permission_update _ _) = "operation:permission:update"
event_of (element_add _) = "operation:element:add"
event_of (element_remove _) = "operation:element:remove"
event_of clear = "operation:clear"
event_of (background_update _) = "operation:background:update"
event_of (board_replace _ _) = "operation:board:replace"

-- The limit and the window in milliseconds.
abbrev pub rate_rule : {N : Type 0} → BoardRequest N → ℕ × ℕ
rate_rule join = (20, 60000)
rate_rule leave = (30, 60000)
rate_rule (chat_open _) = (30, 60000)
rate_rule (permission_update _ _) = (120, 60000)
rate_rule (element_add _) = (120, 10000)
rate_rule (element_remove _) = (120, 10000)
rate_rule clear = (10, 60000)
rate_rule (background_update _) = (20, 60000)
rate_rule (board_replace _ _) = (6, 60000)
