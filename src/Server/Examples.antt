-- ===== src/Server/Examples.antt =====
-- The server at work: requests of three sockets, and a board of an administrator and a guest.
use wos_sfc.Prelude.{
  ℕ, contains, string_eq, ◌≤◌, ◌≡◌, refl, String, Bool, true, false, none, some, List, [], ◌∷◌,
  length, filter, map, arith,
}
use wos_sfc.Prelude.Dict.{lookup, insert, remove, keep}
use wos_sfc.Board.Socket.{BoardState, react, handle_state}
use wos_sfc.Chat.Sync.Batch.{utf16_length}
use wos_sfc.Server.Window.{consume, prune}
use wos_sfc.Server.SocketLimit.{
  Call, request as sent, gone as ended, answers, is_within, check, cleanup,
}
use wos_sfc.Server.SocketLimit.Laws.{
  expected, allowed_times, answers-expected, allowed_times_bounded,
}
use wos_sfc.LiveBoard.Element.{
  Raw, string, number, OperationElement, normalize_operation_element, validate_operation_elements,
  required_text, sanitize_fields, is_allowed,
}
use wos_sfc.LiveBoard.Element.Laws.{raw_of, normalize_again}
use wos_sfc.LiveBoard.Element.Validation.{IsCounted, whole, validate-raw_of}
use wos_sfc.LiveBoard.State.{OperationUser, OperationBackground, grid, Gateway, element_add, clear}
use wos_sfc.LiveBoard.Members.{existing, handle_connection, handle_join}
use wos_sfc.LiveBoard.Gateway.{
  BoardAction, arrived, joined, asked, board_act, request, handle, handle_element_add, handle_clear,
}
use wos_sfc.LiveBoard.Room.{Seat, run, new_gateway, deliver, deliver_all}
use wos_sfc.LiveBoard.Room.Follows.{Matches, IsSound}
use wos_sfc.LiveBoard.Room.Laws.{outside, run-Matches, run-IsSound}
use wos_sfc.LiveBoard.Room.Refusals.{counted, request-Refuses, request-forbidden}
use wos_sfc.LiveBoard.Room.Refusals.Handlers.{is_refused, IsNothing}

-- Two requests in a second, for each event.
abbrev two_in_a_second : String → ℕ × ℕ
two_in_a_second _ = (2, 1000)

abbrev calls : List Call
calls =
    sent "a" "ping" 0
    ∷ sent "b" "ping" 10
    ∷ sent "a" "ping" 20
    ∷ sent "a" "ping" 30
    ∷ sent "a" "start" 30
    ∷ ended "b"
    ∷ sent "a" "ping" 1010
    ∷ []

answers-expected_example :
    answers two_in_a_second "a" "ping" calls [] ≡ expected two_in_a_second "a" "ping" calls []
answers-expected_example =
    answers-expected two_in_a_second "a" "ping" calls
      (omega arith, (omega arith, (omega arith, (omega arith, (omega arith, (omega arith, tt))))))

answers_run : answers two_in_a_second "a" "ping" calls [] ≡ true ∷ true ∷ false ∷ true ∷ []
unfolding answers check consume prune lookup insert remove cleanup keep
answers_run = refl

allowed_times_bounded_example :
    length (filter (is_within 1000 1010) (allowed_times two_in_a_second "a" "ping" calls [] [])) ≤ 2
allowed_times_bounded_example =
    allowed_times_bounded two_in_a_second "a" "ping" calls 1010
      (omega arith, (omega arith, (omega arith, (omega arith, (omega arith, (omega arith, tt))))))
      (omega arith)

-- A stand-in for the trim of texts that have no blanks around them.
abbrev no_blanks : String → String
no_blanks s = s

abbrev ten_bytes : OperationElement ℕ → ℕ
ten_bytes _ = 10

abbrev no_picture : String → Bool
no_picture _ = false

abbrev line : Raw ℕ
line = some (("id", string "one") ∷ ("type", string "line") ∷ ("x", number 3) ∷ [])

abbrev line_element : OperationElement ℕ
line_element = record { id = "one"; type = "line"; fields = ("x", number 3) ∷ [] }

line_normalized : normalize_operation_element no_blanks ten_bytes line ≡ some line_element
unfolding normalize_operation_element required_text sanitize_fields is_allowed lookup utf16_length
    contains
line_normalized = refl

normalize_again_example :
    normalize_operation_element no_blanks ten_bytes (raw_of line_element) ≡ some line_element
normalize_again_example =
    normalize_again no_blanks ten_bytes line line_element (λ s. refl) line_normalized

line-IsCounted : IsCounted no_blanks ten_bytes (line_element ∷ []) 11
unfolding normalize_operation_element required_text sanitize_fields is_allowed lookup utf16_length
    contains
line-IsCounted = record {
  normal = ((refl, refl, ((refl, refl), tt), refl), tt);
  counted = refl;
  bounded = omega arith;
}

validate-raw_of_example :
    validate_operation_elements no_blanks ten_bytes (some (map raw_of (line_element ∷ [])))
    ≡ whole (line_element ∷ []) 11
validate-raw_of_example =
    validate-raw_of no_blanks ten_bytes (line_element ∷ []) 11 line-IsCounted (omega arith)

abbrev admin : OperationUser
admin = record { nickname = "boss"; alliance = "SFC"; role = "admin" }

abbrev guest : OperationUser
guest = record { nickname = "guest"; alliance = "SFC"; role = "member" }

abbrev first_view : BoardState (OperationElement ℕ) OperationBackground
first_view = record {
  elements = [];
  background = grid;
  participants = [];
  can_draw = false;
  connected = true;
  last_error = "";
  session_reset = false;
  socket_id = some "g";
  session_id = none;
}

-- The administrator joins and draws, and then the guest joins.
abbrev actions : List (BoardAction ℕ)
actions =
    arrived "a" true (some admin)
    ∷ arrived "g" true (some guest)
    ∷ joined "a" true (existing admin) false
    ∷ joined "g" true (existing guest) true
    ∷ asked "a" 0 (element_add line)
    ∷ []

abbrev end_state : Gateway ℕ × Seat ℕ
end_state =
    run no_blanks ten_bytes no_picture "g" actions (new_gateway "session", outside first_view)

guest_inside : end_state.1.inside ≡ true
unfolding run board_act handle_connection handle_join deliver deliver_all request handle
    handle_element_add check consume prune lookup insert normalize_operation_element required_text
    sanitize_fields is_allowed utf16_length contains
guest_inside = refl

guest_sees : end_state.1.board.elements ≡ line_element ∷ []
unfolding run board_act handle_connection handle_join deliver deliver_all request handle
    handle_element_add check consume prune lookup insert normalize_operation_element required_text
    sanitize_fields is_allowed utf16_length contains react handle_state
guest_sees = refl

run-Matches_example : Matches end_state.1.board end_state.0
run-Matches_example =
    run-Matches no_blanks ten_bytes no_picture (λ s. refl) "g" "session" actions first_view
      guest_inside

run-IsSound_example : IsSound no_blanks ten_bytes end_state.0
run-IsSound_example =
    run-IsSound no_blanks ten_bytes no_picture (λ s. refl) "g" "session" actions first_view

request-forbidden_example :
    (is_refused (request no_blanks ten_bytes no_picture "g" 5 clear (new_gateway "session")).answer
      ≡ true)
    × IsNothing
        (counted "g" 5 clear (new_gateway "session"))
        (request no_blanks ten_bytes no_picture "g" 5 clear (new_gateway "session"))
unfolding lookup
request-forbidden_example =
    request-forbidden no_blanks ten_bytes no_picture "g" 5 clear (new_gateway "session") refl

clear_refused :
    is_refused (request no_blanks ten_bytes no_picture "g" 5 clear (new_gateway "session")).answer
    ≡ true
unfolding request handle handle_clear check consume prune lookup insert
clear_refused = refl

request-Refuses_example :
    IsNothing
      (counted "g" 5 clear (new_gateway "session"))
      (request no_blanks ten_bytes no_picture "g" 5 clear (new_gateway "session"))
request-Refuses_example =
    request-Refuses no_blanks ten_bytes no_picture "g" 5 clear (new_gateway "session") clear_refused
