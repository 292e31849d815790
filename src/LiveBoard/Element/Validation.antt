-- ===== src/LiveBoard/Element/Validation.antt =====
-- A list of elements that was accepted is counted right, and is accepted again.
use wos_sfc.Prelude.{
  ℕ, ◌+◌, ◌≤◌, ◌≡◌, refl, ap, ◌∙◌, String, false, none, some, List, [], ◌∷◌, ◌++◌, map, length, ltb,
  if◌then◌else◌, string_eq, inl, inr, arith, Bool-cases, Option-cases, All, All-append,
  length-append,
}
use mathlib.Core.List.{append-nil, append_assoc}
use wos_sfc.LiveBoard.Element.{
  Raw, OperationElement, Validated, operation_element_bytes, invalid, too_large, refused,
  normalize_operation_element, validate_from, validate_operation_elements, max_operation_elements,
  max_operation_elements_bytes,
}
use wos_sfc.LiveBoard.Element.Laws.{
  raw_of, IsTrim, IsNormal, normalize-IsNormal, IsNormal-normalize,
}

abbrev pub whole : {N : Type 0} → List (OperationElement N) → ℕ → Validated N
whole elements bytes = record { elements = elements; bytes = bytes; rejection = none }

module _ {N : Type 0} (trim : String → String) (json_bytes : OperationElement N → ℕ) where
  abbrev pub total_bytes : List (OperationElement N) → ℕ
  total_bytes [] = 0
  total_bytes (e ∷ es) = operation_element_bytes json_bytes e + total_bytes es

  pub total_bytes-append :
      (xs ys : List (OperationElement N)) → total_bytes (xs ++ ys) ≡ total_bytes xs + total_bytes ys
  total_bytes-append [] ys = omega arith
  total_bytes-append (x ∷ xs) ys = omega (arith, total_bytes-append xs ys)

  -- Elements that were counted and are within the limit of their bytes.
  pub record IsCounted (elements : List (OperationElement N)) (bytes : ℕ) : Type 0 where
    pub normal : All (IsNormal trim json_bytes) elements
    pub counted : bytes ≡ total_bytes elements
    pub bounded : bytes ≤ max_operation_elements_bytes

  validate_from-none :
      (raw : Raw N) (raws : List (Raw N)) (normalized : List (OperationElement N)) (bytes : ℕ)
      → normalize_operation_element trim json_bytes raw ≡ none
      → validate_from trim json_bytes (raw ∷ raws) normalized bytes ≡ refused invalid 0
  unfolding validate_from
  validate_from-none raw raws normalized bytes bad = rw (bad, validate_from) refl

  validate_from-some :
      (raw : Raw N) (raws : List (Raw N)) (normalized : List (OperationElement N)) (bytes : ℕ)
      (item : OperationElement N)
      → normalize_operation_element trim json_bytes raw ≡ some item
      → validate_from trim json_bytes (raw ∷ raws) normalized bytes ≡ (
          let total = bytes + operation_element_bytes json_bytes item in
          if ltb max_operation_elements_bytes total
          then refused too_large total
          else validate_from trim json_bytes raws (normalized ++ item ∷ []) total)
  unfolding validate_from
  validate_from-some raw raws normalized bytes item found = rw (found, validate_from) refl

  whole_eq :
      (xs ys : List (OperationElement N)) (b c : ℕ) → xs ≡ ys → b ≡ c → whole xs b ≡ whole ys c
  whole_eq xs ys b c same equal = rw (same, equal) refl

  pub IsCounted-item :
      (normalized : List (OperationElement N)) (bytes : ℕ) (item : OperationElement N)
      → IsCounted normalized bytes
      → IsNormal trim json_bytes item
      → ltb max_operation_elements_bytes (bytes + operation_element_bytes json_bytes item) ≡ false
      → IsCounted (normalized ++ item ∷ []) (bytes + operation_element_bytes json_bytes item)
  IsCounted-item normalized bytes item c n room = record {
    normal = All-append (IsNormal trim json_bytes) normalized (item ∷ []) c.normal (n, tt);
    counted = omega (arith, c.counted, total_bytes-append normalized (item ∷ []));
    bounded = ground (arith, room);
  }

  -- What the loop returns when it refuses nothing.
  abbrev pub IsAccepted : ℕ → Validated N → Type 0
  IsAccepted count v =
      v.rejection ≡ none → IsCounted v.elements v.bytes × (length v.elements ≡ count)

  validate_from-IsAccepted :
      (raws : List (Raw N)) (normalized : List (OperationElement N)) (bytes : ℕ)
      → IsTrim trim
      → IsCounted normalized bytes
      → IsAccepted
          (length normalized + length raws)
          (validate_from trim json_bytes raws normalized bytes)
  unfolding validate_from
  validate_from-IsAccepted [] normalized bytes idem c = λ ok. (c, omega arith)
  validate_from-IsAccepted (raw ∷ raws) normalized bytes idem c =
      elim (Option-cases (normalize_operation_element trim json_bytes raw)) [
        | inl bad ↦ rw (validate_from-none raw raws normalized bytes bad) (λ ok. absurd (cc))
        | inr (item, found) ↦
            let total = bytes + operation_element_bytes json_bytes item in
            elim (Bool-cases (ltb max_operation_elements_bytes total)) [
              | inl big ↦
                  rw (validate_from-some raw raws normalized bytes item found, big)
                    (λ ok. absurd (cc))
              | inr room ↦
                  rw (validate_from-some raw raws normalized bytes item found, room)
                    (λ ok.
                      let (counted, long) =
                        validate_from-IsAccepted raws (normalized ++ item ∷ []) total idem
                          (IsCounted-item normalized bytes item c
                            (normalize-IsNormal trim json_bytes raw item idem found) room)
                          ok in
                      (counted, omega (arith, long, length-append normalized (item ∷ []))))
            ]
      ]

  validate_from-raw_of :
      (elements normalized : List (OperationElement N)) (bytes : ℕ)
      → All (IsNormal trim json_bytes) elements
      → bytes + total_bytes elements ≤ max_operation_elements_bytes
      → validate_from trim json_bytes (map raw_of elements) normalized bytes
        ≡ whole (normalized ++ elements) (bytes + total_bytes elements)
  unfolding validate_from
  validate_from-raw_of [] normalized bytes a h =
      ap (whole normalized) {x = bytes} {y = bytes + 0} (omega arith)
      ∙ rw (append-nil normalized) refl
  validate_from-raw_of (e ∷ elements) normalized bytes (n, a) h =
      validate_from-some (raw_of e) (map raw_of elements) normalized bytes e
        (IsNormal-normalize trim json_bytes e n)
      ∙ rw (room (bytes + operation_element_bytes json_bytes e) (omega (arith, h))) (
          validate_from-raw_of elements (normalized ++ e ∷ [])
            (bytes + operation_element_bytes json_bytes e) a (omega (arith, h))
          ∙ whole_eq (normalized ++ e ∷ [] ++ elements) (normalized ++ e ∷ elements) _ _
              (append_assoc normalized (e ∷ []) elements) (omega arith))
    where
      room : (b : ℕ) → b ≤ max_operation_elements_bytes → ltb max_operation_elements_bytes b ≡ false
      room b h = ground arith

  pub validate-IsAccepted :
      (raws : List (Raw N))
      → IsTrim trim
      → (validate_operation_elements trim json_bytes (some raws)).rejection ≡ none
      → IsCounted
          (validate_operation_elements trim json_bytes (some raws)).elements
          (validate_operation_elements trim json_bytes (some raws)).bytes
        × (length (validate_operation_elements trim json_bytes (some raws)).elements
            ≤ max_operation_elements)
  unfolding validate_operation_elements
  validate-IsAccepted raws idem = elim (Bool-cases (ltb max_operation_elements (length raws))) [
    | inl many ↦ rw many (λ ok. absurd (cc))
    | inr few ↦ rw few (λ ok.
        let (counted, long) = validate_from-IsAccepted raws [] 0 idem none-IsCounted ok in
        (counted, ground (arith, long, few)))
  ]
    where
      none-IsCounted : IsCounted [] 0
      none-IsCounted = record { normal = tt; counted = refl; bounded = omega arith }

  -- Elements that were accepted and counted, at most 500, are accepted and counted alike when the
  -- list of their objects comes back, as when a board is saved and loaded.
  pub validate-raw_of :
      (elements : List (OperationElement N)) (bytes : ℕ)
      → IsCounted elements bytes
      → length elements ≤ max_operation_elements
      → validate_operation_elements trim json_bytes (some (map raw_of elements))
        ≡ whole elements bytes
  unfolding validate_operation_elements
  validate-raw_of elements bytes c few =
      rw (room (length (map raw_of elements)) (omega (arith, few, length-map elements))) (
        validate_from-raw_of elements [] 0 c.normal (omega (arith, c.bounded, c.counted))
        ∙ whole_eq elements elements _ _ refl (omega (arith, c.counted)))
    where
      room : (n : ℕ) → n ≤ max_operation_elements → ltb max_operation_elements n ≡ false
      room n h = ground arith

      length-map : (es : List (OperationElement N)) → length (map (raw_of {N = N}) es) ≡ length es
      length-map [] = refl
      length-map (e ∷ es) = omega (arith, length-map es)
