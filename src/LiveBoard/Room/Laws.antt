-- ===== src/LiveBoard/Room/Laws.antt =====
-- A client in the room sees the board that the server keeps.
mod Members
mod Elements
use wos_sfc.Prelude.{
  ℕ, ◌≤◌, ◌≡◌, refl, String, Bool, true, false, Option, some, none, List, [], ◌∷◌, length,
  Bool-cases, inl, inr, arith,
}
use wos_sfc.Board.Socket.{BoardState}
use wos_sfc.Server.SocketLimit.{check}
use wos_sfc.LiveBoard.Element.{
  OperationElement, max_operation_elements, max_operation_elements_bytes,
}
use wos_sfc.LiveBoard.Element.Laws.{IsTrim}
use wos_sfc.LiveBoard.Element.Validation.{IsCounted, total_bytes}
use wos_sfc.LiveBoard.State.{
  Gateway, OperationBackground, BoardRequest, join, permission_update, leave, chat_open,
  element_add, element_remove, clear, board_replace, background_update, event_of, rate_rule,
  get_participants, rate_limited,
}
use wos_sfc.LiveBoard.Members.{Reply, declined, silent}
use wos_sfc.LiveBoard.Gateway.{
  BoardAction, arrived, gone, asked, joined, timer, handle, request, board_act,
}
use wos_sfc.LiveBoard.Room.{Seat, run, deliver_all, new_gateway}
use wos_sfc.LiveBoard.Room.Follows.{Matches, Follows, Keeps, IsSound, IsGood, Keeps-IsGood}
use wos_sfc.LiveBoard.Room.Laws.Members.{
  declined-IsGood, handle_connection-IsGood, handle_disconnect-IsGood,
  handle_permission_update-IsGood, handle_leave-IsGood, handle_chat_open-IsGood, handle_join-IsGood,
  presence_due-IsGood, unchanged,
}
use wos_sfc.LiveBoard.Room.Laws.Elements.{
  handle_clear-IsGood, handle_element_add-IsGood, handle_element_remove-IsGood,
  handle_board_replace-IsGood, handle_background_update-IsGood,
}

-- A client that has not joined yet.
abbrev pub outside : {N : Type 0} → BoardState (OperationElement N) OperationBackground → Seat N
outside b = record { inside = false; board = b }

module _ {N : Type 0} (trim : String → String) (json_bytes : OperationElement N → ℕ)
    (is_background_url : String → Bool) (idem : IsTrim trim) where
  handle-IsGood :
      (client : String) (r : BoardRequest N) (g : Gateway N)
      → IsGood trim json_bytes g (handle trim json_bytes is_background_url client r g)
  unfolding handle
  handle-IsGood client join g = Keeps-IsGood trim json_bytes g g none (unchanged trim json_bytes g)
  handle-IsGood client (permission_update id can_draw) g =
      handle_permission_update-IsGood trim json_bytes client id can_draw g
  handle-IsGood client leave g = handle_leave-IsGood trim json_bytes client g
  handle-IsGood client (chat_open opened) g =
      handle_chat_open-IsGood trim json_bytes client opened g
  handle-IsGood client (element_add element) g =
      handle_element_add-IsGood trim json_bytes is_background_url client element g idem
  handle-IsGood client (element_remove id) g =
      handle_element_remove-IsGood trim json_bytes is_background_url client id g
  handle-IsGood client clear g = handle_clear-IsGood trim json_bytes client g
  handle-IsGood client (board_replace elements background) g =
      handle_board_replace-IsGood trim json_bytes is_background_url client elements background g
        idem
  handle-IsGood client (background_update body) g =
      handle_background_update-IsGood trim json_bytes is_background_url client body g

  request-IsGood :
      (client : String) (now : ℕ) (r : BoardRequest N) (g : Gateway N)
      → IsGood trim json_bytes g (request trim json_bytes is_background_url client now r g)
  unfolding request
  request-IsGood client now r g =
      let (buckets, allowed) =
        check client (event_of r) (rate_rule r).0 (rate_rule r).1 now g.rate_limit in
      elim (Bool-cases allowed) [
        | inl ok ↦ rw ok (handle-IsGood client r (record g { rate_limit = buckets }))
        | inr limited ↦ rw limited (
            declined-IsGood trim json_bytes (record g { rate_limit = buckets }) (some rate_limited))
      ]

  board_act-IsGood :
      (a : BoardAction N) (g : Gateway N)
      → IsGood trim json_bytes g (board_act trim json_bytes is_background_url a g)
  unfolding board_act
  board_act-IsGood (arrived client connected user) g =
      handle_connection-IsGood trim json_bytes client connected user g
  board_act-IsGood (gone client) g = handle_disconnect-IsGood trim json_bytes client g
  board_act-IsGood (asked client now r) g = request-IsGood client now r g
  board_act-IsGood (joined client connected found opened) g =
      handle_join-IsGood trim json_bytes client connected found opened g
  board_act-IsGood timer g = presence_due-IsGood trim json_bytes g

  run-IsGood :
      (client : String) (actions : List (BoardAction N)) (g : Gateway N) (c : Seat N)
      → IsSound trim json_bytes g
      → Follows c g
      → IsSound trim json_bytes (run trim json_bytes is_background_url client actions (g, c)).0
        × Follows
            (run trim json_bytes is_background_url client actions (g, c)).1
            (run trim json_bytes is_background_url client actions (g, c)).0
  unfolding run
  run-IsGood client [] g c s f = (s, f)
  run-IsGood client (a ∷ actions) g c s f =
      let o = board_act trim json_bytes is_background_url a g in
      let (sound, follows) = board_act-IsGood a g s in
      run-IsGood client actions o.gateway (deliver_all client o.messages c) sound
        (follows client c f)

  -- With a `trim` that leaves trimmed texts as they are: whatever clients arrive, ask, join, are
  -- refused, leave and go, a client that is in the room in the end has the elements of the server in
  -- their order, and its background; and, unless a broadcast of them is planned, its participants.
  pub run-Matches :
      (client session : String) (actions : List (BoardAction N))
      (b : BoardState (OperationElement N) OperationBackground)
      → (run trim json_bytes is_background_url client actions
          (new_gateway session, outside b)).1.inside
        ≡ true
      → Matches
          (run trim json_bytes is_background_url client actions
            (new_gateway session, outside b)).1.board
          (run trim json_bytes is_background_url client actions (new_gateway session, outside b)).0
  run-Matches client session actions b =
      (run-IsGood client actions (new_gateway session) (outside b)
        (record { normal = tt; counted = refl; bounded = omega arith }, omega arith)
        (λ inside. absurd (cc))).1

  -- With a `trim` that leaves trimmed texts as they are: after any actions of any clients, the live
  -- board holds at most 500 elements, each of which normalizing leaves as it is, and the counted bytes
  -- are those of the elements and at most 250000.
  pub run-IsSound :
      (client session : String) (actions : List (BoardAction N))
      (b : BoardState (OperationElement N) OperationBackground)
      → IsSound trim json_bytes
          (run trim json_bytes is_background_url client actions (new_gateway session, outside b)).0
  run-IsSound client session actions b =
      (run-IsGood client actions (new_gateway session) (outside b)
        (record { normal = tt; counted = refl; bounded = omega arith }, omega arith)
        (λ inside. absurd (cc))).0
