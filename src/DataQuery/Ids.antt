-- ===== src/DataQuery/Ids.antt =====
-- The ids that a request sends: isObjectIdString and applyCreateId of api/helpers/utils.js.
-- `object_id` is the constructor ObjectId, to the id's hex string.
use eagle_api.Prelude.{
  ◌&&◌, ◌===◌, ◌==◌, ◌||◌, Bool, Option, String, all, if◌then◌else◌, leb, length, none, not, some,
  units, ℕ,
}

-- `[0-9a-f]` of a code unit, without and with the flag `i`.
abbrev pub is_lower_hex : ℕ → Bool
is_lower_hex c = (leb 48 c && leb c 57) || (leb 97 c && leb c 102)

abbrev pub is_hex : ℕ → Bool
is_hex c = is_lower_hex c || (leb 65 c && leb c 70)

unfoldable pub is_object_id_string : String → Bool
is_object_id_string value = (length (units value) == 24) && all is_hex (units value)

-- For a hex string: `value === value.toLowerCase()`.
abbrev pub is_lowercase : String → Bool
is_lowercase value = all is_lower_hex (units value)

-- The id of the new record, none where the sent id is refused.
unfoldable pub apply_create_id : (String → String) → String → Option String → Option String
apply_create_id object_id generated none = some generated
apply_create_id object_id generated (some value) =
    if value === ""
    then some generated
    else if not (is_object_id_string value) || not (is_lowercase value)
    then none
    else some (object_id value)
