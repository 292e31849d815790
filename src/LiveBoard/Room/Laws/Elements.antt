-- ===== src/LiveBoard/Room/Laws/Elements.antt =====
-- The handlers that change the board keep it sound, and change it for those in the room too.
use wos_sfc.Prelude.{
  ℕ, ◌+◌, ◌-◌, ◌≤◌, ◌≡◌, refl, ap, ◌∙◌, String, Bool, false, not, Option, none, some, List, [], ◌∷◌,
  ◌++◌, filter, length, ltb, leb, All-filter, length-filter-le, length-append, take_last,
  take_last_all, string_eq, ◌==◌, inl, inr, arith, Bool-cases, Option-cases,
}
use wos_sfc.Board.Socket.{BoardEvent, react, max_elements}
use wos_sfc.LiveBoard.Element.{
  OperationElement, Raw, Validated, operation_element_bytes, normalize_operation_element,
  validate_operation_elements, max_operation_elements, max_operation_elements_bytes,
}
use wos_sfc.LiveBoard.Element.Laws.{IsTrim, IsNormal, normalize-IsNormal}
use wos_sfc.LiveBoard.Element.Validation.{
  IsCounted, IsCounted-item, total_bytes, validate-IsAccepted,
}
use wos_sfc.LiveBoard.State.{
  Gateway, OperationBackground, RawBackground, forbidden, invalid_element, invalid_background,
  too_many_elements, data_too_large, can_client_draw, can_client_manage, normalize_background,
  rejection_reason,
}
use wos_sfc.LiveBoard.Members.{accepted}
use wos_sfc.LiveBoard.Gateway.{
  add_element, removed_bytes, remove_element, remove_body, handle_element_add,
  handle_element_remove, handle_clear, set_background, replace_with, replace_validated,
  background_or_grid, handle_board_replace, handle_background_update,
}
use wos_sfc.LiveBoard.Room.Follows.{IsGood, room-IsGood}
use wos_sfc.LiveBoard.Room.Laws.Members.{declined-IsGood}

module _ {N : Type 0} (trim : String → String) (json_bytes : OperationElement N → ℕ) where
  none-IsCounted : IsCounted trim json_bytes [] 0
  none-IsCounted = record { normal = tt; counted = refl; bounded = omega arith }

  pub handle_clear-IsGood :
      (client : String) (g : Gateway N) → IsGood trim json_bytes g (handle_clear client g)
  unfolding handle_clear react
  handle_clear-IsGood client g = elim (Bool-cases (can_client_manage client g)) [
    | inl may ↦ rw may (
        room-IsGood trim json_bytes g (record g { elements = []; elements_bytes = 0 })
          BoardEvent.clear (accepted g []).answer (λ s. (none-IsCounted, omega arith))
          (λ b s m. (refl, m.1, m.2)))
    | inr may_not ↦ rw may_not (declined-IsGood trim json_bytes g (some forbidden))
  ]

  set_background-IsGood :
      (background : Option OperationBackground) (g : Gateway N)
      → IsGood trim json_bytes g (set_background background g)
  unfolding react
  set_background-IsGood none g = declined-IsGood trim json_bytes g (some invalid_background)
  set_background-IsGood (some background) g =
      room-IsGood trim json_bytes g (record g { background = background })
        (BoardEvent.background_update (some background)) (accepted g []).answer (λ s. s)
        (λ b s m. (m.0, refl, m.2))

  abbrev replaced : Validated N → OperationBackground → Gateway N → Gateway N
  replaced v background g = record g {
    elements = v.elements;
    elements_bytes = v.bytes;
    background = background;
  }

  -- What the loop accepted is counted, and the list of what is no list is refused.
  validated-IsCounted :
      (elements : Option (List (Raw N)))
      → IsTrim trim
      → (validate_operation_elements trim json_bytes elements).rejection ≡ none
      → IsCounted trim json_bytes
          (validate_operation_elements trim json_bytes elements).elements
          (validate_operation_elements trim json_bytes elements).bytes
        × (length (validate_operation_elements trim json_bytes elements).elements
            ≤ max_operation_elements)
  unfolding validate_operation_elements
  validated-IsCounted none idem ok = absurd (cc)
  validated-IsCounted (some raws) idem ok = validate-IsAccepted trim json_bytes raws idem ok

  replace_with-IsGood :
      (v : Validated N) (background : Option OperationBackground) (g : Gateway N)
      → IsCounted trim json_bytes v.elements v.bytes × (length v.elements ≤ max_operation_elements)
      → IsGood trim json_bytes g (replace_with v background g)
  unfolding react
  replace_with-IsGood v none g counted = declined-IsGood trim json_bytes g (some invalid_background)
  replace_with-IsGood v (some background) g counted =
      room-IsGood trim json_bytes g (replaced v background g)
        (BoardEvent.board_replace (some v.elements) (some background)) (accepted g []).answer
        (λ s. counted) (λ b s m. (refl, refl, m.2))

  replace_validated-IsGood :
      (v : Validated N) (background : Option OperationBackground) (g : Gateway N)
      → (v.rejection ≡ none
          → IsCounted trim json_bytes v.elements v.bytes
            × (length v.elements ≤ max_operation_elements))
      → IsGood trim json_bytes g (replace_validated v background g)
  replace_validated-IsGood v background g counted = elim (Option-cases v.rejection) [
    | inl ok ↦ rw ok (replace_with-IsGood v background g (counted ok))
    | inr (why, bad) ↦ rw bad (declined-IsGood trim json_bytes g (some (rejection_reason why)))
  ]

  room_left : (n : ℕ) → leb max_operation_elements n ≡ false → n + 1 ≤ max_operation_elements
  room_left n h = ground arith

  add_element-IsGood :
      (element : OperationElement N) (g : Gateway N)
      → IsNormal trim json_bytes element
      → IsGood trim json_bytes g (add_element json_bytes element g)
  unfolding react
  add_element-IsGood element g n =
      elim (Bool-cases (leb max_operation_elements (length g.elements))) [
        | inl full ↦ rw full (declined-IsGood trim json_bytes g (some too_many_elements))
        | inr free ↦
            elim (Bool-cases (
              ltb max_operation_elements_bytes
                (g.elements_bytes + operation_element_bytes json_bytes element))) [
                  | inl big ↦
                      rw (free, big) (declined-IsGood trim json_bytes g (some data_too_large))
                  | inr fits ↦
                      rw (free, fits)
                        (room-IsGood trim json_bytes g
                          (record g {
                            elements = g.elements ++ element ∷ [];
                            elements_bytes =
                                g.elements_bytes + operation_element_bytes json_bytes element;
                          })
                          (BoardEvent.element_add element) (accepted g []).answer
                          (λ s. (
                            IsCounted-item trim json_bytes g.elements g.elements_bytes element s.0 n
                                fits,
                            omega (
                              arith,
                              room_left (length g.elements) free,
                              length-append g.elements (element ∷ []),
                            ),
                          ))
                          (λ b s m. (
                            ap (λ es. take_last max_elements (es ++ element ∷ [])) m.0
                                ∙ take_last_all max_elements (g.elements ++ element ∷ []) (
                                    omega (
                                      arith,
                                      room_left (length g.elements) free,
                                      length-append g.elements (element ∷ []),
                                    )),
                            m.1,
                            m.2,
                          )))
                ]
      ]

  total_bytes-filter :
      (id : String) (es : List (OperationElement N))
      → total_bytes trim json_bytes (filter (λ (e : OperationElement N). not (e.id == id)) es)
          + removed_bytes json_bytes id es
        ≡ total_bytes trim json_bytes es
  total_bytes-filter id [] = omega arith
  total_bytes-filter id (e ∷ es) = elim (Bool-cases (e.id == id)) [
    | inl same ↦ rw same (omega (arith, total_bytes-filter id es))
    | inr other ↦ rw other (omega (arith, total_bytes-filter id es))
  ]

  remove_element-IsGood :
      (id : String) (g : Gateway N) → IsGood trim json_bytes g (remove_element json_bytes id g)
  unfolding react
  remove_element-IsGood id g =
      room-IsGood trim json_bytes g
        (record g {
          elements = filter (λ (e : OperationElement N). not (e.id == id)) g.elements;
          elements_bytes = g.elements_bytes - removed_bytes json_bytes id g.elements;
        })
        (BoardEvent.element_remove (some id)) (accepted g []).answer
        (λ s. (
          record {
            normal =
                All-filter (IsNormal trim json_bytes) (λ (e : OperationElement N). not (e.id == id))
                  g.elements s.0.normal;
            counted = omega (arith, s.0.counted, total_bytes-filter id g.elements);
            bounded = omega (arith, s.0.bounded);
          },
          omega (
            arith,
            s.1,
            length-filter-le (λ (e : OperationElement N). not (e.id == id)) g.elements,
          ),
        ))
        (λ b s m. (ap (filter (λ (e : OperationElement N). not (e.id == id))) m.0, m.1, m.2))

module _ {N : Type 0} (trim : String → String) (json_bytes : OperationElement N → ℕ)
    (is_background_url : String → Bool) where
  remove_body-IsGood :
      (id : Option String) (g : Gateway N)
      → IsGood trim json_bytes g (remove_body trim json_bytes is_background_url id g)
  remove_body-IsGood none g = declined-IsGood trim json_bytes g none
  remove_body-IsGood (some id) g = elim (Bool-cases (trim id == "")) [
    | inl blank ↦ rw blank (declined-IsGood trim json_bytes g none)
    | inr named ↦ rw named (remove_element-IsGood trim json_bytes id g)
  ]

  pub handle_element_remove-IsGood :
      (client : String) (id : Option String) (g : Gateway N)
      → IsGood trim json_bytes g
          (handle_element_remove trim json_bytes is_background_url client id g)
  unfolding handle_element_remove
  handle_element_remove-IsGood client id g = elim (Bool-cases (can_client_draw client g)) [
    | inl may ↦ rw may (remove_body-IsGood id g)
    | inr may_not ↦ rw may_not (declined-IsGood trim json_bytes g (some forbidden))
  ]

  pub handle_element_add-IsGood :
      (client : String) (element : Raw N) (g : Gateway N)
      → IsTrim trim
      → IsGood trim json_bytes g
          (handle_element_add trim json_bytes is_background_url client element g)
  unfolding handle_element_add
  handle_element_add-IsGood client element g idem = elim (Bool-cases (can_client_draw client g)) [
    | inl may ↦ elim (Option-cases (normalize_operation_element trim json_bytes element)) [
      | inl bad ↦ rw (may, bad) (declined-IsGood trim json_bytes g (some invalid_element))
      | inr (item, found) ↦
          rw (may, found)
            (add_element-IsGood trim json_bytes item g
              (normalize-IsNormal trim json_bytes element item idem found))
    ]
    | inr may_not ↦ rw may_not (declined-IsGood trim json_bytes g (some forbidden))
  ]

  pub handle_board_replace-IsGood :
      (client : String) (elements : Option (List (Raw N)))
      (background : Option (Option RawBackground)) (g : Gateway N)
      → IsTrim trim
      → IsGood trim json_bytes g
          (handle_board_replace trim json_bytes is_background_url client elements background g)
  unfolding handle_board_replace
  handle_board_replace-IsGood client elements background g idem =
      elim (Bool-cases (can_client_manage client g)) [
        | inl may ↦ rw may (
            replace_validated-IsGood trim json_bytes
              (validate_operation_elements trim json_bytes elements)
              (background_or_grid trim json_bytes is_background_url background) g
              (validated-IsCounted trim json_bytes elements idem))
        | inr may_not ↦ rw may_not (declined-IsGood trim json_bytes g (some forbidden))
      ]

  pub handle_background_update-IsGood :
      (client : String) (body : Option RawBackground) (g : Gateway N)
      → IsGood trim json_bytes g
          (handle_background_update trim json_bytes is_background_url client body g)
  unfolding handle_background_update
  handle_background_update-IsGood client body g = elim (Bool-cases (can_client_manage client g)) [
    | inl may ↦
        rw may
          (set_background-IsGood trim json_bytes (normalize_background is_background_url body) g)
    | inr may_not ↦ rw may_not (declined-IsGood trim json_bytes g (some forbidden))
  ]
