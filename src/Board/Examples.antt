-- ===== src/Board/Examples.antt =====
-- The operation board at work: a path of three steps, and a run of events.
use wos_sfc.Prelude.{
  ◌≤◌, ◌≡◌, String, true, false, ◌&&◌, none, some, List, [], ◌∷◌, map, arith, length, ltb,
}
use wos_sfc.Board.Path.{Units, join, is_long, thin, compact_operation_path, max_path_length}
use wos_sfc.Board.Path.Laws.{IsPart, compact_whole, thin_settles}
use wos_sfc.Board.Socket.{
  BoardPayload, BoardState, BoardEvent, connect, state, element_add, element_remove, react_all,
  max_elements,
}
use wos_sfc.Board.Socket.Laws.{
  restarts, session_reset-react_all, elements-react_all-add, react_all-short,
}

-- A stand-in for the match with the regular expression, which finds the same three steps in any
-- text.
abbrev three_steps : Units → List Units
three_steps _ =
    (77 ∷ 32 ∷ 48 ∷ 32 ∷ 48 ∷ [])
    ∷ (76 ∷ 32 ∷ 49 ∷ 32 ∷ 48 ∷ [])
    ∷ (76 ∷ 32 ∷ 49 ∷ 32 ∷ 49 ∷ [])
    ∷ []

compact_whole_example :
    (us : List Units) × IsPart us (three_steps [])
    × (compact_operation_path three_steps [] ≡ join us)
    × (length (compact_operation_path three_steps []) ≤ max_path_length)
compact_whole_example = compact_whole three_steps [] (omega arith, (omega arith, (omega arith, tt)))

thin_settles_example :
    (is_long (thin 3 1 (three_steps []) (three_steps [])).1
      && ltb (thin 3 1 (three_steps []) (three_steps [])).0 3)
    ≡ false
thin_settles_example = thin_settles 3 1 (three_steps []) (three_steps []) (omega arith)

-- Elements that are nothing but their ids, and backgrounds that are texts.
abbrev id_of : String → String
id_of s = s

abbrev empty_board : BoardState String String
empty_board = record {
  elements = [];
  background = "grid";
  participants = [];
  can_draw = false;
  connected = false;
  last_error = "";
  session_reset = false;
  socket_id = none;
  session_id = none;
}

abbrev server_state : String → List String → BoardPayload String String
server_state session elements = record {
  session_id = some session;
  elements = some elements;
  background = none;
  participants = none;
  can_draw = true;
}

abbrev events : List (BoardEvent String String)
events =
    connect (some "socket")
    ∷ state (server_state "one" ("a" ∷ []))
    ∷ element_add "b"
    ∷ element_remove (some "a")
    ∷ state (server_state "two" [])
    ∷ []

session_reset-react_all_example : (react_all id_of "grid" events empty_board).session_reset ≡ true
unfolding restarts
session_reset-react_all_example = session_reset-react_all id_of "grid" events empty_board

elements-react_all-add_example :
    (react_all id_of "grid" (map element_add ("a" ∷ "b" ∷ [])) empty_board).elements
    ≡ "a" ∷ "b" ∷ []
elements-react_all-add_example =
    elements-react_all-add id_of "grid" ("a" ∷ "b" ∷ []) empty_board (omega arith)

react_all-short_example : length (react_all id_of "grid" events empty_board).elements ≤ max_elements
react_all-short_example =
    react_all-short id_of "grid" events empty_board
      (tt, (omega arith, (tt, (tt, (omega arith, tt))))) (omega arith)
