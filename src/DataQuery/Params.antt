-- ===== src/DataQuery/Params.antt =====
-- The parameters that the handlers turn into a query: getSkipLimitParameters, buildQuery,
-- sanitizeFields and getValidObjectId of api/helpers/utils.js, and the sort keys of `sortBy`. A text
-- is an object id where the parameter `is_valid` (ObjectId.isValid) says so.
use text.Mathlib.Text.{starts_with}
use Prim.Native.String.{◌∷◌ as cons}
use eagle_api.Prelude.{
  ◌*◌, ◌===◌, ◌∷◌, Bool, List, Option, String, [], filter, if◌then◌else◌, includes, min, none, some,
  suc, ℕ,
}
use eagle_api.Mongo.{Op, Query, Value, at, both}

-- An integer of a request.
pub data ℤ : Type 0 where
  pos : ℕ → ℤ
  negsuc : ℕ → ℤ

abbrev pub default_pagesize : ℕ
default_pagesize = 25

abbrev pub max_pagesize : ℕ
max_pagesize = 500

abbrev pub page_size_of : Option ℤ → ℕ
page_size_of (some (pos (suc n))) = min (suc n) max_pagesize
page_size_of _ = default_pagesize

-- `skip` and `limit`, none where no page is asked for.
unfoldable pub get_skip_limit_parameters : Option ℤ → Option ℤ → Option (ℕ × ℕ)
get_skip_limit_parameters page_size (some (pos k)) =
    some (k * page_size_of page_size, page_size_of page_size)
get_skip_limit_parameters page_size _ = none

abbrev pub skip_of : Option (ℕ × ℕ) → Option ℕ
skip_of none = none
skip_of (some p) = some p.0

abbrev pub limit_from : Option (ℕ × ℕ) → Option ℕ
limit_from none = none
limit_from (some p) = some p.1

-- A query object: its conditions by path, a later one in the place of an earlier.
abbrev pub Conditions : Type 0
Conditions = List (String × Op)

abbrev pub assign : String → Op → Conditions → Conditions
assign k o [] = (k, o) ∷ []
assign k o ((j, p) ∷ rest) =
    let later = assign k o rest in if j === k then (j, o) ∷ rest else (j, p) ∷ later

-- The query of the conditions and of a schema name, which is assigned last.
abbrev pub with_schema : String → Conditions → Query
with_schema name [] = at "_schemaName" (Op.eq (Value.str name))
with_schema name ((k, o) ∷ rest) = both (at k o) (with_schema name rest)

-- The values that `buildQuery` keeps; a single value is a list of one.
unfoldable pub build_query : (String → Bool) → String → List String → Conditions → Conditions
build_query is_valid property values query =
    assign property (Op.one_of (filter is_valid values)) query

unfoldable pub sanitize_fields : Option (List String) → List String → List String
sanitize_fields none allowed = []
sanitize_fields (some fields) allowed = filter (includes allowed) fields

-- Null, the id, or the error 400.
pub data ObjectIdParam : Type 0 where
  no_id invalid_id : ObjectIdParam
  object_id : String → ObjectIdParam

unfoldable pub get_valid_object_id : (String → Bool) → Option String → ObjectIdParam
get_valid_object_id is_valid none = no_id
get_valid_object_id is_valid (some v) =
    if v === "" then no_id else if is_valid v then object_id v else invalid_id

-- A key of `sortBy`: the first character gives the order.
abbrev pub sort_by : String → String
sort_by String.[] = ""
sort_by (cons c s) = s

abbrev pub is_descending : String → Bool
is_descending s = starts_with s "-"

abbrev pub set_key : String → Bool → List (String × Bool) → List (String × Bool)
set_key k d [] = (k, d) ∷ []
set_key k d ((j, e) ∷ keys) =
    let later = set_key k d keys in if j === k then (j, d) ∷ keys else (j, e) ∷ later

-- The sort keys of the values that `allows` lets through, from those set before.
unfoldable pub sort_keys_from :
    (String → Bool) → List String → List (String × Bool) → List (String × Bool)
sort_keys_from allows [] keys = keys
sort_keys_from allows (v ∷ values) keys =
    sort_keys_from allows values
      (if allows (sort_by v) then set_key (sort_by v) (is_descending v) keys else keys)
