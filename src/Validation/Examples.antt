-- ===== src/Validation/Examples.antt =====
-- The depth limit on concrete values.
use allies_foundry.Base.{
  ℕ, zero, suc, ◌+◌, ◌&&◌, ◌||◌, ◌≡◌, refl, some, leb, ◌==◌, if◌then◌else◌, ok, err, validation,
}
use allies_foundry.Validation.Json.{
  Json, null, array, object, end_of_items, item, end_of_members, member, validate_json_value,
}
use allies_foundry.Validation.Depth.{nesting, is_json, validate_json_value-decides}

-- So many arrays within each other.
abbrev nested : ℕ → Json
nested zero = null
nested (suc n) = array (item (nested n) end_of_items)

abbrev payload : ℕ → Json
payload n = object (member (some "a") (nested n) end_of_members)

validate_json_value-decides_example : validate_json_value 1 (payload 64) ≡ (
    if is_json (payload 64) && (nesting (payload 64) == 0 || leb (1 + nesting (payload 64)) 65)
    then ok tt
    else err validation)
validate_json_value-decides_example = validate_json_value-decides 1 (payload 64)

-- One level less is accepted.
at_the_limit : validate_json_value 1 (payload 63) ≡ ok tt
unfolding validate_json_value
at_the_limit = refl

beyond_the_limit : validate_json_value 1 (payload 64) ≡ err validation
unfolding validate_json_value
beyond_the_limit = refl
