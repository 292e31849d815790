-- ===== src/LiveBoard/Element.antt =====
-- What an element of the operation board may be
-- (server/src/operation-boards/operation-board-elements.ts). The numbers of JavaScript that are
-- finite are a type `N`; `trim` is `String.prototype.trim`, and `json_bytes` the length of
-- `JSON.stringify` of an element in UTF-8.
pub mod Laws
pub mod Validation
use wos_sfc.Prelude.{
  ℕ, ◌+◌, String, Bool, true, false, not, ◌&&◌, ◌||◌, Option, none, some, List, [], ◌∷◌, ◌++◌,
  length, ltb, leb, eqb, contains, is_some, if◌then◌else◌, string_eq, ◌==◌,
}
use wos_sfc.Prelude.Dict.{Dict, lookup}
use wos_sfc.Chat.Sync.Batch.{text_length}

abbrev pub max_operation_elements : ℕ
max_operation_elements = 500

abbrev pub max_operation_element_bytes : ℕ
max_operation_element_bytes = 4096

abbrev pub max_operation_elements_bytes : ℕ
max_operation_elements_bytes = 250000

abbrev element_id_max_length : ℕ
element_id_max_length = 80

abbrev element_text_max_length : ℕ
element_text_max_length = 300

abbrev element_color_max_length : ℕ
element_color_max_length = 32

abbrev element_string_max_length : ℕ
element_string_max_length = 512

abbrev allowed_element_types : List String
allowed_element_types = "path" ∷ "line" ∷ "arrow" ∷ "rect" ∷ "ellipse" ∷ "text" ∷ "marker" ∷ []

abbrev allowed_number_keys : List String
allowed_number_keys =
    "x" ∷ "y" ∷ "x2" ∷ "y2" ∷ "cx" ∷ "cy" ∷ "rx" ∷ "ry" ∷ "width" ∷ "height" ∷ "strokeWidth"
    ∷ "fontSize" ∷ []

abbrev allowed_string_keys : List String
allowed_string_keys = "color" ∷ "text" ∷ "marker" ∷ "d" ∷ []

abbrev allowed_boolean_keys : List String
allowed_boolean_keys = "filled" ∷ []

abbrev pub string_max_length : String → ℕ
string_max_length key =
    if key == "text"
    then element_text_max_length
    else (if key == "color" then element_color_max_length else element_string_max_length)

-- What a property may hold. `other` is null, undefined, a list or an object.
pub data Value (N : Type 0) : Type 0 where
  number : N → Value N
  not_finite : Value N
  string : String → Value N
  boolean : Bool → Value N
  other : Value N

-- The properties of an object, under distinct names; `none` is what is no object.
abbrev pub Raw : Type 0 → Type 0
Raw N = Option (Dict String (Value N))

pub record OperationElement (N : Type 0) : Type 0 where
  pub id : String
  pub type : String
  pub fields : Dict String (Value N)

pub data Rejection : Type 0 where
  invalid : Rejection
  too_many : Rejection
  too_large : Rejection

pub record Validated (N : Type 0) : Type 0 where
  pub elements : List (OperationElement N)
  pub bytes : ℕ
  pub rejection : Option Rejection

abbrev pub is_number : {N : Type 0} → Value N → Bool
is_number (number n) = true
is_number _ = false

abbrev pub is_boolean : {N : Type 0} → Value N → Bool
is_boolean (boolean b) = true
is_boolean _ = false

abbrev pub is_string_up_to : {N : Type 0} → ℕ → Value N → Bool
is_string_up_to limit (string s) = leb (text_length s) limit
is_string_up_to limit _ = false

-- What the loop over the properties asks of one that is not `id` or `type`.
unfoldable pub is_allowed : {N : Type 0} → String → Value N → Bool
is_allowed key value =
    if contains key allowed_number_keys
    then is_number value
    else (if contains key allowed_string_keys
        then is_string_up_to (string_max_length key) value
        else (if contains key allowed_boolean_keys then is_boolean value else false))

abbrev pub is_heading : String → Bool
is_heading key = key == "id" || key == "type"

abbrev pub put_field :
    {N : Type 0}
    → String
    → Value N
    → Option (Dict String (Value N))
    → Option (Dict String (Value N))
put_field key value none = none
put_field key value (some fields) = some ((key, value) ∷ fields)

-- The loop over the properties: those that it keeps, in their order, or none if one is refused.
unfoldable pub sanitize_fields :
    {N : Type 0} → Dict String (Value N) → Option (Dict String (Value N))
sanitize_fields [] = some []
sanitize_fields ((key, value) ∷ source) =
    let rest = sanitize_fields source in
    if is_heading key
    then rest
    else (if is_allowed key value then put_field key value rest else none)

abbrev pub refused : {N : Type 0} → Rejection → ℕ → Validated N
refused why bytes = record { elements = []; bytes = bytes; rejection = some why }

module _ (trim : String → String) where
  unfoldable pub required_text : ℕ → String → Option String
  required_text limit s =
      if trim s == "" || ltb limit (text_length (trim s)) then none else some (trim s)

  -- `normalizeRequiredString`
  abbrev pub normalize_required_string : {N : Type 0} → Option (Value N) → ℕ → Option String
  normalize_required_string (some (string s)) limit = required_text limit s
  normalize_required_string _ limit = none

module _ {N : Type 0} (json_bytes : OperationElement N → ℕ) where
  abbrev pub operation_element_bytes : OperationElement N → ℕ
  operation_element_bytes element = json_bytes element + 1

  -- What is left to ask of an element once its id, its type and its fields are there.
  abbrev pub is_acceptable : OperationElement N → Bool
  is_acceptable element =
      contains element.type allowed_element_types
      && not (ltb max_operation_element_bytes (operation_element_bytes element))

  abbrev pub accept : OperationElement N → Option (OperationElement N)
  accept element = if is_acceptable element then some element else none

  abbrev pub with_heading :
      Option String → Option String → Option (Dict String (Value N)) → Option (OperationElement N)
  with_heading (some id) (some type) (some fields) =
      accept (record { id = id; type = type; fields = fields })
  with_heading _ _ _ = none

module _ {N : Type 0} (trim : String → String) (json_bytes : OperationElement N → ℕ) where
  unfoldable pub normalize_operation_element : Raw N → Option (OperationElement N)
  normalize_operation_element none = none
  normalize_operation_element (some source) =
      with_heading json_bytes
        (normalize_required_string trim (lookup "id" source) element_id_max_length)
        (normalize_required_string trim (lookup "type" source) element_string_max_length)
        (sanitize_fields source)

  -- The loop of `validateOperationElements`, which has accepted `normalized` of `bytes` bytes.
  unfoldable pub validate_from : List (Raw N) → List (OperationElement N) → ℕ → Validated N
  validate_from [] normalized bytes = record {
    elements = normalized;
    bytes = bytes;
    rejection = none;
  }
  validate_from (raw ∷ raws) normalized bytes = elim (normalize_operation_element raw) [
    | none ↦ refused invalid 0
    | some item ↦
        let total = bytes + operation_element_bytes json_bytes item in
        let rest = validate_from raws (normalized ++ item ∷ []) total in
        if ltb max_operation_elements_bytes total then refused too_large total else rest
  ]

  -- `none` is what is no list.
  unfoldable pub validate_operation_elements : Option (List (Raw N)) → Validated N
  validate_operation_elements none = refused invalid 0
  validate_operation_elements (some raws) =
      if ltb max_operation_elements (length raws)
      then refused too_many 0
      else validate_from raws [] 0
