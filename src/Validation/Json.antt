-- ===== src/Validation/Json.antt =====
-- The JSON checks of backend/runtime/services/validation.py.
use allies_foundry.Base.{
  ℕ, suc, ◌*◌, String, Bool, true, false, ◌&&◌, Option, none, some, leb, if◌then◌else◌, text_eq,
  codes, length, Result, ok, err, ◌>>=◌, ◌>>◌, ensure, or_raise, validation,
}

-- A Python value, as far as the checks tell values apart: a number is an integer or a float, `other`
-- is of any type that JSON does not have, and a key is none where it is no text.
mutual
  pub data Json : Type 0 where
    null number other : Json
    boolean : Bool → Json
    text : String → Json
    array : Items → Json
    object : Members → Json

  pub data Items : Type 0 where
    end_of_items : Items
    item : Json → Items → Items

  pub data Members : Type 0 where
    end_of_members : Members
    member : Option String → Json → Members → Members

abbrev pub max_json_nesting_depth : ℕ
max_json_nesting_depth = 64

-- `type(key) is str`.
abbrev pub is_text_key : Option String → Bool
is_text_key none = false
is_text_key (some key) = true

-- `_validate_json_value`, and its two loops.
unfoldable mutual
  pub validate_json_value : ℕ → Json → Result (Unit {0})
  validate_json_value depth null = ok tt
  validate_json_value depth number = ok tt
  validate_json_value depth (boolean b) = ok tt
  validate_json_value depth (text s) = ok tt
  validate_json_value depth other = err validation
  validate_json_value depth (array items) =
      ensure (leb depth max_json_nesting_depth) validation >> validate_items (suc depth) items
  validate_json_value depth (object members) =
      ensure (leb depth max_json_nesting_depth) validation >> validate_members (suc depth) members

  pub validate_items : ℕ → Items → Result (Unit {0})
  validate_items depth end_of_items = ok tt
  validate_items depth (item v items) = validate_json_value depth v >> validate_items depth items

  pub validate_members : ℕ → Members → Result (Unit {0})
  validate_members depth end_of_members = ok tt
  validate_members depth (member key v members) =
      ensure (is_text_key key) validation
      >> (validate_json_value depth v >> validate_members depth members)

-- `json.dumps`, to the length of the canonical bytes: none where it raises.
module _ (encoded_length : Json → Option ℕ) where
  -- `canonical_json_bytes`, to their number.
  unfoldable pub canonical_json_bytes : Json → Result ℕ
  canonical_json_bytes payload = do
    ensure (elim payload [ object members ↦ true | _ ↦ false ]) validation
    validate_json_value 1 payload
    or_raise (encoded_length payload) validation

  unfoldable pub validate_object_payload : Json → ℕ → Result (Unit {0})
  unfolding canonical_json_bytes
  validate_object_payload payload max_bytes = do
    size ← canonical_json_bytes payload
    ensure (leb size max_bytes) validation

  -- `value.get(key)`, with the null for a missing key.
  unfoldable pub get : String → Members → Json
  get key end_of_members = null
  get key (member none v members) = get key members
  get key (member (some k) v members) =
      let rest = get key members in if text_eq k key then v else rest

  -- `validate_nonempty` on a value.
  unfoldable pub validate_nonempty_value : Json → ℕ → Result (Unit {0})
  validate_nonempty_value (text s) max_length =
      ensure (leb 1 (length (codes s)) && leb (length (codes s)) max_length) validation
  validate_nonempty_value v max_length = err validation

  abbrev pub validate_summary_ref : Json → Result (Unit {0})
  validate_summary_ref null = ok tt
  validate_summary_ref v = validate_nonempty_value v 255

  unfoldable pub validate_bounded_receipt : Json → Result (Unit {0})
  unfolding validate_object_payload get validate_nonempty_value
  validate_bounded_receipt (object members) = do
    validate_object_payload (object members) (8 * 1024)
    validate_nonempty_value (get "code" members) 64
    validate_summary_ref (get "summary_ref" members)
  validate_bounded_receipt v = err validation
