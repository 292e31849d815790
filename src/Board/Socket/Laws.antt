-- ===== src/Board/Socket/Laws.antt =====
-- The board that the socket's events leave.
use wos_sfc.Prelude.{
  ℕ, zero, suc, All, ◌+◌, ◌-◌, ◌≤◌, ◌≡◌, refl, sym, ap, ◌∙◌, String, Bool, false, not, ◌||◌, Option,
  List, [], ◌∷◌, ◌++◌, map, arith, length, drop, take_last, take_last_all, length-append,
  length-drop, length-take_last, length-filter-le, get_or, string_eq,
}
use mathlib.Core.List.{append-nil, append_assoc}
use wos_sfc.Board.Socket.{
  max_elements, BoardState, BoardEvent, connect, disconnect, state, presence, element_add,
  element_remove, clear, background_update, board_replace, acknowledged, clear_error, non_empty,
  is_restart, is_element, handle_state, react, react_all,
}

-- Whether two states that follow each other in the events are of different sessions; `session` is
-- that of the state before, and a state without a session is followed by any.
unfoldable pub restarts : {E B : Type 0} → Option String → List (BoardEvent E B) → Bool
restarts session [] = false
restarts session (state payload ∷ es) =
    is_restart session (non_empty payload.session_id) || restarts (non_empty payload.session_id) es
restarts session (_ ∷ es) = restarts session es

-- The server's lists of elements hold at most 500.
abbrev pub Brings : {E B : Type 0} → BoardEvent E B → Type 0
Brings (state payload) = length (get_or payload.elements []) ≤ max_elements
Brings (board_replace elements _) = length (get_or elements []) ≤ max_elements
Brings _ = Unit

module _ {A : Type 0} where
  drop-nil : (n : ℕ) → drop {A = A} n [] ≡ []
  drop-nil zero = refl
  drop-nil (suc n) = refl

  drop-drop : (a b : ℕ) (xs : List A) → drop a (drop b xs) ≡ drop (a + b) xs
  drop-drop a zero xs = ap (λ (j : ℕ). drop j xs) {x = a} {y = a + 0} (omega arith)
  drop-drop a (suc b) [] = drop-nil a ∙ sym (drop-nil (a + suc b))
  drop-drop a (suc b) (x ∷ xs) =
      drop-drop a b xs
      ∙ ap (λ (j : ℕ). drop j (x ∷ xs)) {x = suc (a + b)} {y = a + suc b} (omega arith)

  drop-append : (k : ℕ) (xs ys : List A) → k ≤ length xs → drop k (xs ++ ys) ≡ drop k xs ++ ys
  drop-append zero xs ys h = refl
  drop-append (suc k) [] ys h = ground arith
  drop-append (suc k) (x ∷ xs) ys h = drop-append k xs ys (omega (arith, h))

  take_last_again :
      (n : ℕ) (xs ys : List A) → take_last n (take_last n xs ++ ys) ≡ take_last n (xs ++ ys)
  take_last_again n xs ys =
      let k = length xs - n in
      ap (take_last n) (sym (drop-append k xs ys (omega arith)))
      ∙ drop-drop (length (drop k (xs ++ ys)) - n) k (xs ++ ys)
      ∙ ap (λ (j : ℕ). drop j (xs ++ ys)) {x = length (drop k (xs ++ ys)) - n + k}
          {y = length (xs ++ ys) - n} (omega (arith, length-drop k (xs ++ ys), length-append xs ys))

module _ {E B : Type 0} (id_of : E → String) (empty_background : B) where
  -- The notice of a new session is up exactly when it was or when the server restarted between two
  -- states, whatever else happens on the board.
  pub session_reset-react_all :
      (es : List (BoardEvent E B)) (b : BoardState E B)
      → (react_all id_of empty_background es b).session_reset
        ≡ (b.session_reset || restarts b.session_id es)
  unfolding react_all react restarts
  session_reset-react_all [] b = ground arith
  session_reset-react_all (connect id ∷ es) b = session_reset-react_all es _
  session_reset-react_all (disconnect ∷ es) b = session_reset-react_all es _
  session_reset-react_all (state payload ∷ es) b =
      ground (arith, session_reset-react_all es (handle_state id_of empty_background payload b))
  session_reset-react_all (presence next ∷ es) b = session_reset-react_all es _
  session_reset-react_all (element_add element ∷ es) b = session_reset-react_all es _
  session_reset-react_all (element_remove id ∷ es) b = session_reset-react_all es _
  session_reset-react_all (clear ∷ es) b = session_reset-react_all es _
  session_reset-react_all (background_update next ∷ es) b = session_reset-react_all es _
  session_reset-react_all (board_replace elements background ∷ es) b = session_reset-react_all es _
  session_reset-react_all (acknowledged ack ∷ es) b = session_reset-react_all es _
  session_reset-react_all (clear_error ∷ es) b = session_reset-react_all es _

  -- Elements that come one by one on a board of at most 500 stand behind those that are there, in
  -- the order in which they come, and the last 500 of them all are kept.
  pub elements-react_all-add :
      (xs : List E) (b : BoardState E B)
      → length b.elements ≤ max_elements
      → (react_all id_of empty_background (map element_add xs) b).elements
        ≡ take_last 500 (b.elements ++ xs)
  unfolding react_all react
  elements-react_all-add [] b h =
      sym (ap (take_last 500) (append-nil b.elements) ∙ take_last_all 500 b.elements h)
  elements-react_all-add (x ∷ xs) b h =
      elements-react_all-add xs (record b { elements = take_last 500 (b.elements ++ x ∷ []) })
        (omega (arith, length-take_last 500 (b.elements ++ x ∷ [])))
      ∙ take_last_again 500 (b.elements ++ x ∷ []) xs
      ∙ ap (take_last 500) (append_assoc b.elements (x ∷ []) xs)

  react-short :
      (e : BoardEvent E B) (b : BoardState E B)
      → Brings e
      → length b.elements ≤ max_elements
      → length (react id_of empty_background e b).elements ≤ max_elements
  unfolding react handle_state
  react-short (state payload) b given h = given
  react-short (element_add element) b given h =
      omega (arith, length-take_last 500 (b.elements ++ element ∷ []))
  react-short (element_remove id) b given h = omega (
    arith,
    h,
    length-filter-le (λ element. not (is_element id_of empty_background id element)) b.elements,
  )
  react-short clear b given h = omega arith
  react-short (board_replace elements background) b given h = given
  react-short (connect id) b given h = h
  react-short disconnect b given h = h
  react-short (presence next) b given h = h
  react-short (background_update next) b given h = h
  react-short (acknowledged ack) b given h = h
  react-short clear_error b given h = h

  -- As long as the lists that the server sends hold at most 500 elements, so does the board.
  pub react_all-short :
      (es : List (BoardEvent E B)) (b : BoardState E B)
      → All Brings es
      → length b.elements ≤ max_elements
      → length (react_all id_of empty_background es b).elements ≤ max_elements
  unfolding react_all
  react_all-short [] b given h = h
  react_all-short (e ∷ es) b (g, given) h =
      react_all-short es (react id_of empty_background e b) given (react-short e b g h)
