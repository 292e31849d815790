-- ===== src/LiveBoard/Element/Laws.antt =====
-- What was accepted once is accepted again, unchanged.
use wos_sfc.Prelude.{
  ℕ, ◌≡◌, refl, subst, String, true, false, ◌||◌, Option, none, some, [], ◌∷◌, ltb, string_eq, ◌==◌,
  inl, inr, arith, Bool-cases, All,
}
use wos_sfc.Prelude.Dict.{Dict, lookup}
use wos_sfc.Chat.Sync.Batch.{text_length}
use wos_sfc.LiveBoard.Element.{
  Value, string, Raw, OperationElement, is_allowed, is_heading, put_field, sanitize_fields,
  required_text, normalize_required_string, is_acceptable, with_heading,
  normalize_operation_element, element_id_max_length, element_string_max_length,
}

-- The object that is sent for an element.
abbrev pub raw_of : {N : Type 0} → OperationElement N → Raw N
raw_of e = some (("id", string e.id) ∷ ("type", string e.type) ∷ e.fields)

abbrev pub IsTrim : (String → String) → Type 0
IsTrim trim = (s : String) → trim (trim s) ≡ trim s

required_text_again :
    (trim : String → String) (limit : ℕ) (s t : String)
    → IsTrim trim
    → required_text trim limit s ≡ some t
    → required_text trim limit t ≡ some t
unfolding required_text
required_text_again trim limit s t idem h =
    elim (Bool-cases (trim s == "" || ltb limit (text_length (trim s)))) [
      | inl bad ↦ absurd (cc (rw bad at h))
      | inr good ↦ ground (arith, idem s, h, good)
    ]

-- A field that the loop keeps.
abbrev IsField : {N : Type 0} → String × Value N → Type 0
IsField (key, value) = (is_heading key ≡ false) × (is_allowed key value ≡ true)

put_field-All :
    {N : Type 0} (key : String) (value : Value N) (rest : Option (Dict String (Value N)))
    (fields : Dict String (Value N))
    → IsField (key, value)
    → ((kept : Dict String (Value N)) → rest ≡ some kept → All IsField kept)
    → put_field key value rest ≡ some fields
    → All IsField fields
put_field-All key value none fields ok ih h = absurd (cc)
put_field-All key value (some kept) fields ok ih h =
    subst (All IsField) {x = (key, value) ∷ kept} (cc) (ok, ih kept refl)

sanitize_fields-All :
    {N : Type 0} (source fields : Dict String (Value N))
    → sanitize_fields source ≡ some fields
    → All IsField fields
unfolding sanitize_fields
sanitize_fields-All [] fields h = subst (All IsField) {x = []} (cc) tt
sanitize_fields-All ((key, value) ∷ source) fields h = elim (Bool-cases (is_heading key)) [
  | inl heading ↦ sanitize_fields-All source fields (rw heading at h)
  | inr field ↦ elim (Bool-cases (is_allowed key value)) [
    | inl ok ↦
        put_field-All key value (sanitize_fields source) fields (field, ok)
          (λ kept. sanitize_fields-All source kept) (rw (field, ok) at h)
    | inr bad ↦ absurd (cc (rw (field, bad) at h))
  ]
]

All-sanitize_fields :
    {N : Type 0} (fields : Dict String (Value N))
    → All IsField fields
    → sanitize_fields fields ≡ some fields
unfolding sanitize_fields
All-sanitize_fields [] a = refl
All-sanitize_fields ((key, value) ∷ fields) ((field, ok), a) =
    rw (field, ok, All-sanitize_fields fields a) refl

required_string-text :
    {N : Type 0} (trim : String → String) (value : Option (Value N)) (limit : ℕ) (t : String)
    → IsTrim trim
    → normalize_required_string trim value limit ≡ some t
    → required_text trim limit t ≡ some t
required_string-text trim none limit t idem h = absurd (cc)
required_string-text trim (some (Value.string s)) limit t idem h =
    required_text_again trim limit s t idem h
required_string-text trim (some (Value.number s)) limit t idem h = absurd (cc)
required_string-text trim (some Value.not_finite) limit t idem h = absurd (cc)
required_string-text trim (some (Value.boolean s)) limit t idem h = absurd (cc)
required_string-text trim (some Value.other) limit t idem h = absurd (cc)

module _ {N : Type 0} (trim : String → String) (json_bytes : OperationElement N → ℕ) where
  -- An element that normalizing leaves as it is.
  abbrev pub IsNormal : OperationElement N → Type 0
  IsNormal e =
      (required_text trim element_id_max_length e.id ≡ some e.id)
      × (required_text trim element_string_max_length e.type ≡ some e.type)
      × All IsField e.fields
      × (is_acceptable json_bytes e ≡ true)

  with_heading-IsNormal :
      (id type : Option String) (fields : Option (Dict String (Value N))) (e : OperationElement N)
      → ((t : String) → id ≡ some t → required_text trim element_id_max_length t ≡ some t)
      → ((t : String) → type ≡ some t → required_text trim element_string_max_length t ≡ some t)
      → ((f : Dict String (Value N)) → fields ≡ some f → All IsField f)
      → with_heading json_bytes id type fields ≡ some e
      → IsNormal e
  with_heading-IsNormal none type fields e i t f h = absurd (cc)
  with_heading-IsNormal (some id) none fields e i t f h = absurd (cc)
  with_heading-IsNormal (some id) (some type) none e i t f h = absurd (cc)
  with_heading-IsNormal (some id) (some type) (some fields) e i t f h =
      elim (Bool-cases
        (is_acceptable json_bytes (record { id = id; type = type; fields = fields }))) [
          | inl ok ↦
              subst IsNormal {x = record { id = id; type = type; fields = fields }}
                (cc (rw ok at h)) (i id refl, t type refl, f fields refl, ok)
          | inr bad ↦ absurd (cc (rw bad at h))
        ]

  pub normalize-IsNormal :
      (raw : Raw N) (e : OperationElement N)
      → IsTrim trim
      → normalize_operation_element trim json_bytes raw ≡ some e
      → IsNormal e
  unfolding normalize_operation_element
  normalize-IsNormal none e idem h = absurd (cc)
  normalize-IsNormal (some source) e idem h =
      with_heading-IsNormal
        (normalize_required_string trim (lookup "id" source) element_id_max_length)
        (normalize_required_string trim (lookup "type" source) element_string_max_length)
        (sanitize_fields source) e
        (λ t. required_string-text trim (lookup "id" source) element_id_max_length t idem)
        (λ t. required_string-text trim (lookup "type" source) element_string_max_length t idem)
        (sanitize_fields-All source) h

  pub IsNormal-normalize :
      (e : OperationElement N)
      → IsNormal e
      → normalize_operation_element trim json_bytes (raw_of e) ≡ some e
  unfolding normalize_operation_element lookup sanitize_fields
  IsNormal-normalize e (i, t, f, ok) = rw (i, t, All-sanitize_fields e.fields f, ok) refl

  -- With a `trim` that leaves trimmed texts as they are: an element that comes out of the
  -- normalization comes out of it unchanged when it is sent again.
  pub normalize_again :
      (raw : Raw N) (e : OperationElement N)
      → IsTrim trim
      → normalize_operation_element trim json_bytes raw ≡ some e
      → normalize_operation_element trim json_bytes (raw_of e) ≡ some e
  normalize_again raw e idem h = IsNormal-normalize e (normalize-IsNormal raw e idem h)
