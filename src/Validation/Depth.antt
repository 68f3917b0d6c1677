-- ===== src/Validation/Depth.antt =====
-- What `_validate_json_value` accepts.
use allies_foundry.Base.{
  ℕ, suc, ◌+◌, ◌≡◌, refl, max, Bool, true, false, ◌&&◌, ◌||◌, leb, ◌==◌, if◌then◌else◌, arith,
  Result, ok, err, ◌>>◌, ensure, validation,
}
use allies_foundry.Validation.Json.{
  Json, null, number, other, boolean, text, array, object, Items, end_of_items, item, Members,
  end_of_members, member, is_text_key, validate_json_value, validate_items, validate_members,
  max_json_nesting_depth,
}

-- How many arrays and objects lie within each other.
unfoldable mutual
  pub nesting : Json → ℕ
  nesting (array items) = suc (items_nesting items)
  nesting (object members) = suc (members_nesting members)
  nesting _ = 0

  items_nesting : Items → ℕ
  items_nesting end_of_items = 0
  items_nesting (item v items) = max (nesting v) (items_nesting items)

  members_nesting : Members → ℕ
  members_nesting end_of_members = 0
  members_nesting (member key v members) = max (nesting v) (members_nesting members)

-- Every value is of a type of JSON and every key is a text.
unfoldable mutual
  pub is_json : Json → Bool
  is_json other = false
  is_json (array items) = is_json_items items
  is_json (object members) = is_json_members members
  is_json _ = true

  is_json_items : Items → Bool
  is_json_items end_of_items = true
  is_json_items (item v items) = is_json v && is_json_items items

  is_json_members : Members → Bool
  is_json_members end_of_members = true
  is_json_members (member key v members) = is_text_key key && is_json v && is_json_members members

-- At a depth: nothing is nested, or the innermost level is at most the limit.
abbrev pub fits : ℕ → ℕ → Bool
fits depth n = n == 0 || leb (depth + n) (suc max_json_nesting_depth)

abbrev verdict : Bool → Result (Unit {0})
verdict b = if b then ok tt else err validation

ensure-verdict : (b : Bool) → ensure b validation ≡ verdict b
ensure-verdict true = refl
ensure-verdict false = refl

>>-verdict : (a b : Bool) → (verdict a >> verdict b) ≡ verdict (a && b)
>>-verdict true b = refl
>>-verdict false b = refl

fits-suc :
    (d n : ℕ) (b : Bool)
    → (leb d max_json_nesting_depth && (b && fits (suc d) n)) ≡ (b && fits d (suc n))
fits-suc d n b = ground arith

fits-max :
    (d m n : ℕ) (a b : Bool) → ((a && fits d m) && (b && fits d n)) ≡ ((a && b) && fits d (max m n))
fits-max d m n a b = ground arith

fits_members :
    (d m n : ℕ) (k a b : Bool)
    → (k && ((a && fits d m) && (b && fits d n))) ≡ (((k && a) && b) && fits d (max m n))
fits_members d m n k a b = ground arith

mutual
  unfolding validate_json_value nesting is_json

  validate-verdict :
      (d : ℕ) (v : Json) → validate_json_value d v ≡ verdict (is_json v && fits d (nesting v))
  validate-verdict d null = refl
  validate-verdict d number = refl
  validate-verdict d (boolean b) = refl
  validate-verdict d (text s) = refl
  validate-verdict d other = refl
  validate-verdict d (array items) =
      rw
        (
          ensure-verdict (leb d max_json_nesting_depth),
          items-verdict (suc d) items,
          >>-verdict (leb d max_json_nesting_depth)
              (is_json_items items && fits (suc d) (items_nesting items)),
          fits-suc d (items_nesting items) (is_json_items items),
        )
        refl
  validate-verdict d (object members) =
      rw
        (
          ensure-verdict (leb d max_json_nesting_depth),
          members-verdict (suc d) members,
          >>-verdict (leb d max_json_nesting_depth)
              (is_json_members members && fits (suc d) (members_nesting members)),
          fits-suc d (members_nesting members) (is_json_members members),
        )
        refl

  items-verdict :
      (d : ℕ) (items : Items)
      → validate_items d items ≡ verdict (is_json_items items && fits d (items_nesting items))
  items-verdict d end_of_items = refl
  items-verdict d (item v items) =
      rw
        (
          validate-verdict d v,
          items-verdict d items,
          >>-verdict (is_json v && fits d (nesting v))
              (is_json_items items && fits d (items_nesting items)),
          fits-max d (nesting v) (items_nesting items) (is_json v) (is_json_items items),
        )
        refl

  members-verdict :
      (d : ℕ) (members : Members)
      → validate_members d members
        ≡ verdict (is_json_members members && fits d (members_nesting members))
  members-verdict d end_of_members = refl
  members-verdict d (member key v members) =
      rw
        (
          ensure-verdict (is_text_key key),
          validate-verdict d v,
          members-verdict d members,
          >>-verdict (is_json v && fits d (nesting v))
              (is_json_members members && fits d (members_nesting members)),
          >>-verdict (is_text_key key) (
              (is_json v && fits d (nesting v))
              && (is_json_members members && fits d (members_nesting members))),
          fits_members d (nesting v) (members_nesting members) (is_text_key key) (is_json v)
              (is_json_members members),
        )
        refl

-- The check of a value at a depth accepts exactly the values of the JSON types with text keys whose
-- innermost array or object lies at depth 64 at most; it refuses every other one as invalid.
pub validate_json_value-decides :
    (depth : ℕ) (v : Json)
    → validate_json_value depth v ≡ (
        if is_json v && (nesting v == 0 || leb (depth + nesting v) 65)
        then ok tt
        else err validation)
validate_json_value-decides depth v = validate-verdict depth v
