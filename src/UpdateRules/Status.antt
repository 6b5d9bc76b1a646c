-- ===== src/UpdateRules/Status.antt =====
-- The state of an Update (api/helpers/updateRules.js): `status` with the `active` and `read[]` that
-- older readers use, the two tests of what the public may see, and the stages that gate Updates.
pub mod Visibility
pub mod Pipeline
use Prim.Native.String.{◌++◌ as text_append}
use text.Mathlib.Text.{starts_with}
use eagle_api.Prelude.{
  is_name, ◌&&◌, ◌++◌, ◌===◌, ◌||◌, ◌∷◌, Bool, List, Option, String, [], any, false, filter,
  if◌then◌else◌, includes, leb, none, not, some, true, ℕ,
}
use eagle_api.Mongo.{Query, at, both, either, Op, Value, Field, Row}
use eagle_api.UpdateRules.{Update, is_blank_name}

-- api/helpers/constants.js
abbrev pub secure_roles : List String
secure_roles = "sysadmin" ∷ "staff" ∷ []

abbrev pub hidden_from_public : List String
hidden_from_public = "notifiedAt" ∷ "_addedBy" ∷ "_updatedBy" ∷ "_deletedBy" ∷ []

abbrev pub is_true : Option Bool → Bool
is_true none = false
is_true (some b) = b

abbrev pub is_unset {ℓ} : {A : Type ℓ} → Option A → Bool
is_unset none = true
is_unset (some _) = false

-- The roles of `read[]`, or the secure roles where there are none.
abbrev pub base_read : Option (List String) → List String
base_read none = secure_roles
base_read (some []) = secure_roles
base_read (some (r ∷ rs)) = r ∷ rs

unfoldable pub status_of : Update → String
status_of u = elim u.status [
  | none ↦ if is_true u.active then "published" else "draft"
  | some s ↦ if is_blank_name (some s) then if is_true u.active then "published" else "draft" else s
]

-- `exports.applyStatus`: `target` is the request body, `update` the row as it will be stored.
unfoldable pub apply_status : ℕ → Bool → Update → Update → Update
unfolding status_of
apply_status now was_live target update =
    let published = status_of update === "published" in
    record target {
      status = some (status_of update);
      active = some published;
      read = some (
          filter (λ role. not (role === "public")) (base_read update.read)
          ++ (if published then "public" ∷ [] else []));
      publish_date =
          if published
            && (is_unset update.publish_date || is_unset target.publish_date && not was_live)
          then some now
          else target.publish_date;
    }

abbrev pub is_due : Option ℕ → ℕ → Bool
is_due none now = true
is_due (some d) now = leb d now

unfoldable pub is_live : Update → ℕ → Bool
is_live row now =
    (is_name row.status "published" || is_blank_name row.status && is_true row.active)
    && is_due row.publish_date now

unfoldable pub public_visible_match : ℕ → Query
public_visible_match now =
    either (both (at "status" (Op.eq (Value.str "published"))) (at "publishDate" (Op.lte now)))
      (both (at "status" (Op.eq Value.null)) (at "active" (Op.eq (Value.bool true))))

-- Whether a key of a filter or a sort is a field, or a path below it.
abbrev pub reaches : String → String → Bool
reaches key field = (field === key) || starts_with key (text_append field ".")

-- `hiddenKeys`.
unfoldable pub hidden_keys : List String → List String
hidden_keys keys = filter (λ key. any (reaches key) hidden_from_public) keys

unfoldable pub is_public_caller : List String → Bool
is_public_caller roles = not (any (includes secure_roles) roles)

-- A stage of a pipeline: a `$match`, or a `$project` that drops fields.
pub data Stage : Type 0 where
  keep : Query → Stage
  drop : List String → Stage

unfoldable pub visibility_aggr : List String → Bool → ℕ → List Stage
visibility_aggr roles include_archived now =
    if is_public_caller roles
    then keep (public_visible_match now) ∷ drop hidden_from_public ∷ []
    else if include_archived
    then []
    else keep (at "status" (Op.ne (Value.str "archived"))) ∷ []

-- `{ ...row, ...body }`: a field that the body gives replaces the row's.
unfoldable pub lay_over : Update → Update → Update
lay_over row body = record row {
  status = elim body.status [ none ↦ row.status | some s ↦ some s ];
  active = elim body.active [ none ↦ row.active | some b ↦ some b ];
  read = elim body.read [ none ↦ row.read | some r ↦ some r ];
  publish_date = elim body.publish_date [ none ↦ row.publish_date | some d ↦ some d ];
}

-- The status fields of an Update as MongoDB stores them.
unfoldable pub row_of : Update → Row
row_of u path =
    if path === "status"
    then elim u.status [ none ↦ Field.absent | some s ↦ Field.value (Value.str s) ]
    else if path === "active"
    then elim u.active [ none ↦ Field.absent | some b ↦ Field.value (Value.bool b) ]
    else if path === "publishDate"
    then elim u.publish_date [ none ↦ Field.absent | some d ↦ Field.value (Value.num d) ]
    else if path === "read"
    then elim u.read [ none ↦ Field.absent | some xs ↦ Field.list xs ]
    else Field.absent
