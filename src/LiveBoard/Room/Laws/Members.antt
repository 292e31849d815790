-- ===== src/LiveBoard/Room/Laws/Members.antt =====
-- The handlers of the participants leave the board as it is, and those who follow it following.
use wos_sfc.Prelude.{
  ℕ, ◌≡◌, refl, sym, ◌∙◌, String, Bool, true, false, not, ◌&&◌, ◌||◌, Option, none, some, [],
  is_some, if◌then◌else◌, string_eq, ◌==◌, inl, inr, Bool-cases, Option-cases,
}
use wos_sfc.Prelude.Dict.{lookup, insert, remove, remove_absent}
use wos_sfc.Board.Socket.{react, handle_state, state, presence}
use wos_sfc.LiveBoard.Element.{OperationElement}
use wos_sfc.LiveBoard.State.{
  Gateway, OperationUser, OperationParticipant, broadcast_presence, is_privileged_role, forbidden,
  can_client_manage, presence_due, get_participants,
}
use wos_sfc.LiveBoard.Members.{
  Reply, silent, accepted, declined, Found, existing, resolved, user_found, board_payload, remember,
  enlist, participant_for, join_user, handle_connection, handle_disconnect, handle_join, permit,
  permit_body, set_can_draw, set_chat_open, open_chat, handle_permission_update, handle_leave,
  handle_chat_open,
}
use wos_sfc.LiveBoard.Room.{hear, deliver, deliver_all}
use wos_sfc.LiveBoard.Room.Follows.{
  Keeps, Keeps-Follows, room-IsGood, Keeps-broadcast, IsGood, Keeps-IsGood, hang_up-IsGood,
  exit-IsGood, Keeps-IsSound,
}

module _ {N : Type 0} (trim : String → String) (json_bytes : OperationElement N → ℕ) where
  pub unchanged : (g : Gateway N) → Keeps g g
  unchanged g = record {
    same_elements = refl;
    same_bytes = refl;
    same_background = refl;
    planned = λ settled. (settled, refl);
  }

  pub declined-IsGood :
      (g : Gateway N) (reason : Option String) → IsGood trim json_bytes g (declined g reason)
  declined-IsGood g reason =
      Keeps-IsGood trim json_bytes g g (declined g reason).answer (unchanged g)

  pub handle_connection-IsGood :
      (client : String) (connected : Bool) (user : Option OperationUser) (g : Gateway N)
      → IsGood trim json_bytes g (handle_connection client connected user g)
  unfolding handle_connection
  handle_connection-IsGood client false user g = Keeps-IsGood trim json_bytes g g none (unchanged g)
  handle_connection-IsGood client true none g =
      hang_up-IsGood trim json_bytes g g client none (unchanged g)
  handle_connection-IsGood client true (some user) g =
      Keeps-IsGood trim json_bytes g
        (record g { connected_users = insert client user g.connected_users }) none
        (record {
          same_elements = refl;
          same_bytes = refl;
          same_background = refl;
          planned = λ settled. (settled, refl);
        })

  -- A client that goes: its participation goes too, and then a broadcast is planned.
  removed-Keeps :
      (client : String) (g g' : Gateway N)
      → g'.elements ≡ g.elements
      → g'.elements_bytes ≡ g.elements_bytes
      → g'.background ≡ g.background
      → g'.presence_pending ≡ g.presence_pending
      → g'.participants ≡ remove client g.participants
      → Keeps g (if is_some (lookup client g.participants) then broadcast_presence g' else g')
  removed-Keeps client g g' elements bytes background pending participants =
      elim (Option-cases (lookup client g.participants)) [
        | inl absent ↦ rw absent (record {
          same_elements = elements;
          same_bytes = bytes;
          same_background = background;
          planned = λ settled.
              (sym pending ∙ settled, participants ∙ remove_absent client g.participants absent);
        })
        | inr (p, present) ↦ rw present (Keeps-broadcast g g' elements bytes background)
      ]

  pub handle_disconnect-IsGood :
      (client : String) (g : Gateway N) → IsGood trim json_bytes g (handle_disconnect client g)
  unfolding handle_disconnect
  handle_disconnect-IsGood client g =
      Keeps-IsGood trim json_bytes g (handle_disconnect client g).gateway none
        (removed-Keeps client g _ refl refl refl refl refl)

  pub handle_leave-IsGood :
      (client : String) (g : Gateway N) → IsGood trim json_bytes g (handle_leave client g)
  unfolding handle_leave
  handle_leave-IsGood client g =
      exit-IsGood trim json_bytes g (handle_leave client g).gateway client
        (handle_leave client g).answer (removed-Keeps client g _ refl refl refl refl refl)

  set_can_draw-IsGood :
      (id : String) (p : OperationParticipant) (next : Bool) (g : Gateway N)
      → IsGood trim json_bytes g (set_can_draw id p next g)
  set_can_draw-IsGood id p next g =
      elim (Bool-cases ((p.can_draw && next) || (not p.can_draw && not next))) [
        | inl same ↦ rw same (Keeps-IsGood trim json_bytes g g (accepted g []).answer (unchanged g))
        | inr other ↦ rw other (
            Keeps-IsGood trim json_bytes g
              (broadcast_presence (record g {
                participants = insert id (record p { can_draw = next }) g.participants;
              }))
              (accepted g []).answer
              (Keeps-broadcast g
                (record g {
                  participants = (insert id (record p { can_draw = next }) g.participants);
                })
                refl refl refl))
      ]

  permit-IsGood :
      (id : String) (p : Option OperationParticipant) (can_draw : Bool) (g : Gateway N)
      → IsGood trim json_bytes g (permit id p can_draw g)
  permit-IsGood id none can_draw g = declined-IsGood g none
  permit-IsGood id (some p) can_draw g =
      set_can_draw-IsGood id p (is_privileged_role p.user.role || can_draw) g

  permit_body-IsGood :
      (id : Option String) (can_draw : Option Bool) (g : Gateway N)
      → IsGood trim json_bytes g (permit_body id can_draw g)
  permit_body-IsGood none can_draw g = declined-IsGood g none
  permit_body-IsGood (some id) none g = declined-IsGood g none
  permit_body-IsGood (some id) (some can_draw) g =
      permit-IsGood id (lookup id g.participants) can_draw g

  pub handle_permission_update-IsGood :
      (client : String) (id : Option String) (can_draw : Option Bool) (g : Gateway N)
      → IsGood trim json_bytes g (handle_permission_update client id can_draw g)
  unfolding handle_permission_update
  handle_permission_update-IsGood client id can_draw g =
      elim (Bool-cases (can_client_manage client g)) [
        | inl may ↦ rw may (permit_body-IsGood id can_draw g)
        | inr may_not ↦ rw may_not (declined-IsGood g (some forbidden))
      ]

  set_chat_open-IsGood :
      (client : String) (p : OperationParticipant) (opened : Bool) (g : Gateway N)
      → IsGood trim json_bytes g (set_chat_open client p opened g)
  set_chat_open-IsGood client p opened g =
      elim (Bool-cases ((p.chat_open && opened) || (not p.chat_open && not opened))) [
        | inl same ↦ rw same (Keeps-IsGood trim json_bytes g g (accepted g []).answer (unchanged g))
        | inr other ↦ rw other (
            Keeps-IsGood trim json_bytes g
              (broadcast_presence (record g {
                participants = insert client (record p { chat_open = opened }) g.participants;
              }))
              (accepted g []).answer
              (Keeps-broadcast g
                (record g {
                  participants = (insert client (record p { chat_open = opened }) g.participants);
                })
                refl refl refl))
      ]

  open_chat-IsGood :
      (client : String) (p : Option OperationParticipant) (opened : Option Bool) (g : Gateway N)
      → IsGood trim json_bytes g (open_chat client p opened g)
  open_chat-IsGood client none opened g = declined-IsGood g none
  open_chat-IsGood client (some p) none g = declined-IsGood g none
  open_chat-IsGood client (some p) (some opened) g = set_chat_open-IsGood client p opened g

  pub handle_chat_open-IsGood :
      (client : String) (opened : Option Bool) (g : Gateway N)
      → IsGood trim json_bytes g (handle_chat_open client opened g)
  unfolding handle_chat_open
  handle_chat_open-IsGood client opened g =
      open_chat-IsGood client (lookup client g.participants) opened g

  abbrev enlisted : String → OperationParticipant → Gateway N → Gateway N
  enlisted client p g = record g { participants = insert client p g.participants }

  enlist-IsGood :
      (client : String) (p : OperationParticipant) (g : Gateway N)
      → IsGood trim json_bytes g (enlist client p g)
  unfolding deliver deliver_all react handle_state
  enlist-IsGood client p g s = (
    Keeps-IsSound trim json_bytes g (broadcast_presence (enlisted client p g))
        (planned g refl refl refl) s,
    λ other c f. elim (Bool-cases (client == other)) [
      | inl own ↦ rw own (
          Keeps-Follows
            (record {
              inside = true;
              board = (hear (state (board_payload p (enlisted client p g))) c).board;
            })
            (enlisted client p g) (broadcast_presence (enlisted client p g))
            (planned (enlisted client p g) refl refl refl)
            (λ inside. (refl, refl, λ settled. refl)))
      | inr else_one ↦ rw else_one (
          Keeps-Follows c g (broadcast_presence (enlisted client p g)) (planned g refl refl refl) f)
    ],
  )
    where
      planned :
          (h : Gateway N)
          → g.elements ≡ h.elements
          → g.elements_bytes ≡ h.elements_bytes
          → g.background ≡ h.background
          → Keeps h (broadcast_presence (enlisted client p g))
      planned h = Keeps-broadcast h (enlisted client p g)

  join_user-IsGood :
      (client : String) (user : Option OperationUser) (opened : Bool) (g : Gateway N)
      → IsGood trim json_bytes g (join_user client user opened g)
  join_user-IsGood client none opened g =
      hang_up-IsGood trim json_bytes g g client (declined g none).answer (unchanged g)
  join_user-IsGood client (some user) opened g =
      enlist-IsGood client (participant_for client user opened) g

  -- Nothing but the known users differs.
  IsGood-remember :
      (client : String) (found : Found) (g : Gateway N) (o : Reply N)
      → IsGood trim json_bytes (remember client found g) o
      → IsGood trim json_bytes g o
  IsGood-remember client (existing user) g o h = h
  IsGood-remember client (resolved none) g o h = h
  IsGood-remember client (resolved (some user)) g o h = h

  pub handle_join-IsGood :
      (client : String) (connected : Bool) (found : Found) (opened : Bool) (g : Gateway N)
      → IsGood trim json_bytes g (handle_join client connected found opened g)
  unfolding handle_join
  handle_join-IsGood client false found opened g = declined-IsGood g none
  handle_join-IsGood client true found opened g =
      IsGood-remember client found g (handle_join client true found opened g)
        (join_user-IsGood client (user_found found) opened (remember client found g))

  due-IsGood :
      (pending : Bool) (g : Gateway N)
      → IsGood trim json_bytes
          (record g { presence_pending = pending })
          (silent
            (presence_due (record g { presence_pending = pending })).0
            (presence_due (record g { presence_pending = pending })).1)
  unfolding react
  due-IsGood false g =
      Keeps-IsGood trim json_bytes (record g { presence_pending = false })
        (record g { presence_pending = false }) none
        (unchanged (record g { presence_pending = false }))
  due-IsGood true g =
      room-IsGood trim json_bytes (record g { presence_pending = true })
        (record g { presence_pending = false }) (presence (some (get_participants g.participants)))
        none (λ s. s) (λ b s m. (m.0, m.1, λ settled. refl))

  pub presence_due-IsGood :
      (g : Gateway N) → IsGood trim json_bytes g (silent (presence_due g).0 (presence_due g).1)
  presence_due-IsGood g = due-IsGood g.presence_pending g
