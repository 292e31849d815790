-- ===== src/LiveBoard/Room/Follows.antt =====
-- What it is for a gateway to be sound, for a client to follow it, and for a handler to keep both.
use wos_sfc.Prelude.{
  ℕ, ◌≤◌, ◌≡◌, sym, ap, ◌∙◌, String, Bool, true, false, Option, [], ◌∷◌, length, if◌then◌else◌,
  string_eq, ◌==◌, inl, inr, Bool-cases,
}
use wos_sfc.Board.Socket.{Ack, BoardState, BoardEvent, react}
use wos_sfc.LiveBoard.Element.{OperationElement, max_operation_elements}
use wos_sfc.LiveBoard.Element.Validation.{IsCounted}
use wos_sfc.LiveBoard.State.{
  Gateway, OperationBackground, grid, to_room, exit, hang_up, get_participants, broadcast_presence,
}
use wos_sfc.LiveBoard.Members.{Reply}
use wos_sfc.LiveBoard.Room.{Seat, id_of, deliver, deliver_all}

module _ {N : Type 0} where
  -- The elements and the background of the gateway, and, unless a broadcast of them is planned, the
  -- participants.
  abbrev pub Matches : BoardState (OperationElement N) OperationBackground → Gateway N → Type 0
  Matches b g =
      (b.elements ≡ g.elements)
      × (b.background ≡ g.background)
      × (g.presence_pending ≡ false → b.participants ≡ get_participants g.participants)

  abbrev pub Follows : Seat N → Gateway N → Type 0
  Follows c g = c.inside ≡ true → Matches c.board g

  pub room-Follows :
      (client : String) (event : BoardEvent (OperationElement N) OperationBackground)
      (inside : Bool) (b : BoardState (OperationElement N) OperationBackground) (g g' : Gateway N)
      → (Matches b g → Matches (react id_of grid event b) g')
      → Follows (record { inside = inside; board = b }) g
      → Follows (deliver client (to_room event) (record { inside = inside; board = b })) g'
  unfolding deliver
  room-Follows client event true b g g' step f inside = step (f inside)
  room-Follows client event false b g g' step f inside = absurd (cc)

  -- The board is the same, and the participants are, or a broadcast of them is planned.
  pub record Keeps (g g' : Gateway N) : Type 0 where
    pub same_elements : g'.elements ≡ g.elements
    pub same_bytes : g'.elements_bytes ≡ g.elements_bytes
    pub same_background : g'.background ≡ g.background
    pub planned :
        g'.presence_pending ≡ false
        → (g.presence_pending ≡ false) × (g'.participants ≡ g.participants)

  pub Keeps-Follows : (c : Seat N) (g g' : Gateway N) → Keeps g g' → Follows c g → Follows c g'
  Keeps-Follows c g g' k f inside =
      let (elements, background, participants) = f inside in
      (
        elements ∙ sym k.same_elements,
        background ∙ sym k.same_background,
        λ settled.
            participants (k.planned settled).0 ∙ ap get_participants (sym (k.planned settled).1),
      )

  pub Keeps-broadcast :
      (g g' : Gateway N)
      → g'.elements ≡ g.elements
      → g'.elements_bytes ≡ g.elements_bytes
      → g'.background ≡ g.background
      → Keeps g (broadcast_presence g')
  Keeps-broadcast g g' elements bytes background = elim (Bool-cases g'.presence_pending) [
    | inl planned ↦ rw planned (record {
      same_elements = elements;
      same_bytes = bytes;
      same_background = background;
      planned = λ settled. absurd (cc);
    })
    | inr free ↦ rw free (record {
      same_elements = elements;
      same_bytes = bytes;
      same_background = background;
      planned = λ settled. absurd (cc);
    })
  ]

module _ {N : Type 0} (trim : String → String) (json_bytes : OperationElement N → ℕ) where
  -- The elements were each normalized, their bytes are counted, and both limits hold.
  abbrev pub IsSound : Gateway N → Type 0
  IsSound g =
      IsCounted trim json_bytes g.elements g.elements_bytes
      × (length g.elements ≤ max_operation_elements)

  -- A handler that leaves a sound gateway sound, and a client that followed following.
  abbrev pub IsGood : Gateway N → Reply N → Type 0
  IsGood g o =
      IsSound g
      → IsSound o.gateway
        × ((client : String) (c : Seat N)
            → Follows c g
            → Follows (deliver_all client o.messages c) o.gateway)

  pub Keeps-IsSound : (g g' : Gateway N) → Keeps g g' → IsSound g → IsSound g'
  Keeps-IsSound g g' k s = rw (k.same_elements, k.same_bytes) s

  pub room-IsGood :
      (g g' : Gateway N) (event : BoardEvent (OperationElement N) OperationBackground)
      (answer : Option Ack)
      → (IsSound g → IsSound g')
      → ((b : BoardState (OperationElement N) OperationBackground)
          → IsSound g
          → Matches b g
          → Matches (react id_of grid event b) g')
      → IsGood g (record { gateway = g'; messages = to_room event ∷ []; answer = answer })
  unfolding deliver_all
  room-IsGood g g' event answer sound step s = (
    sound s,
    λ client c f. room-Follows client event c.inside c.board g g' (λ m. step c.board s m) f,
  )

  pub Keeps-IsGood :
      (g g' : Gateway N) (answer : Option Ack)
      → Keeps g g'
      → IsGood g (record { gateway = g'; messages = []; answer = answer })
  unfolding deliver_all
  Keeps-IsGood g g' answer k s = (Keeps-IsSound g g' k s, λ client c f. Keeps-Follows c g g' k f)

  pub hang_up-IsGood :
      (g g' : Gateway N) (id : String) (answer : Option Ack)
      → Keeps g g'
      → IsGood g (record { gateway = g'; messages = hang_up id ∷ []; answer = answer })
  unfolding deliver_all deliver
  hang_up-IsGood g g' id answer k s =
      (Keeps-IsSound g g' k s, λ client c f. Keeps-Follows c g g' k f)

  pub exit-IsGood :
      (g g' : Gateway N) (id : String) (answer : Option Ack)
      → Keeps g g'
      → IsGood g (record { gateway = g'; messages = exit id ∷ []; answer = answer })
  unfolding deliver_all deliver
  exit-IsGood g g' id answer k s = (Keeps-IsSound g g' k s, λ client c f. outside client c f)
    where
      outside :
          (client : String) (c : Seat N)
          → Follows c g
          → Follows (if id == client then record c { inside = false } else c) g'
      outside client c f = elim (Bool-cases (id == client)) [
        | inl own ↦ rw own (λ inside. absurd (cc))
        | inr other ↦ rw other (Keeps-Follows c g g' k f)
      ]
