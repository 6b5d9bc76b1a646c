-- ===== src/DataQuery.antt =====
-- The one pipeline that most reads go through: runDataQuery of api/helpers/utils.js. A stage is a
-- constructor of `Stage`; how MongoDB runs them is the parameter `Engine` of DataQuery/Engine.
pub mod Engine
pub mod Params
pub mod Ids
use eagle_api.Prelude.{
  ◌&&◌, ◌++◌, ◌===◌, ◌||◌, ◌∷◌, Bool, List, Option, String, [], false, if◌then◌else◌, includes, map,
  none, not, some, true, zero, suc, ℕ, reverse,
}
use eagle_api.Mongo.{Query}
use eagle_api.ParentRead.{parent_read_match}

-- What `$addFields` puts at a path: another path, or the block of the project's current legislation
-- under a prefix (`legislationSwitch` of api/helpers/constants.js).
pub data Expr : Type 0 where
  ref : String → Expr
  legislation_switch : String → Expr

-- `lookup local as` joins the collection `epic` on its ids. `facet` has the skip and the limit of
-- its results, `unwrap_total` makes its count a number. `custom` is a stage that a caller hands in.
pub data Stage : Type 0 where
  match_query : Query → Stage
  lookup : String → String → Stage
  unwind : String → Stage
  add_fields : List (String × Expr) → Stage
  replace_root : String → Stage
  project : List String → Stage
  redact : List String → Stage
  sort : List (String × Bool) → Stage
  facet : Option ℕ → ℕ → Stage
  unwrap_total : Stage
  skip limit : ℕ → Stage
  custom : String → Stage

-- A sort key is with whether it is descending. `sort` is none where the caller passes null, and
-- `fields` where it passes no array.
pub record DataQuery : Type 0 where
  pub model_type : String
  pub roles : List String
  pub query : Query
  pub fields : Option (List String)
  pub sort_warm_up : Option Stage
  pub sort_keys : Option (List (String × Bool))
  pub skip_rows : Option ℕ
  pub limit_rows : Option ℕ
  pub count : Bool
  pub pre_steps : List Stage
  pub populate_proponent : Bool
  pub post_step : Option Stage
  pub populate_project : Bool
  pub gate_on_parent_read : Bool

abbrev pub max_limit : ℕ
max_limit = 1000

abbrev pub default_fields : List String
default_fields = "_id" ∷ "code" ∷ "proponent" ∷ "tags" ∷ "read" ∷ []

abbrev pub or_no_fields : Option (List String) → List String
or_no_fields none = []
or_no_fields (some fields) = fields

abbrev pub projection : DataQuery → List String
projection q = default_fields ++ or_no_fields q.fields

-- A stage that stands in the pipeline under a condition.
abbrev pub only_if : Bool → List Stage → List Stage
only_if b stages = if b then stages else []

abbrev pub optional : Option Stage → List Stage
optional none = []
optional (some s) = s ∷ []

-- `$lookup` of a reference, and the `$unwind` of what it finds.
abbrev pub populate : String → String → List Stage
populate local as_field = lookup local as_field ∷ unwind as_field ∷ []

-- The stages that shape the rows of a Project.
abbrev pub project_stages : List Stage
project_stages =
    add_fields (("default", legislation_switch "") ∷ [])
    ∷ add_fields (
        ("default.pins", ref "pins")
        ∷ ("default.pinsHistory", ref "pinsHistory")
        ∷ ("default.pinsRead", ref "pinsRead")
        ∷ ("default._id", ref "_id")
        ∷ ("default.projectCAC", ref "projectCAC")
        ∷ ("default.projectCACPublished", ref "projectCACPublished")
        ∷ ("default.cacEmail", ref "cacEmail")
        ∷ ("default.read", ref "read")
        ∷ [])
    ∷ add_fields (("default.featuredDocuments", ref "featuredDocuments") ∷ [])
    ∷ replace_root "default"
    ∷ (populate "currentPhaseName" "currentPhaseName"
        ++ (populate "CEAAInvolvement" "CEAAInvolvement" ++ populate "eacDecision" "eacDecision"))

-- A RecentActivity's comment period and project notification.
abbrev pub activity_stages : List Stage
activity_stages = populate "pcp" "pcp" ++ populate "project._id" "projectNotification"

-- The legislation block of the project that a row of another model refers to.
abbrev pub nested_project_stages : List Stage
nested_project_stages =
    add_fields (("project.default", legislation_switch "project.") ∷ [])
    ∷ add_fields (
        ("project.default.pins", ref "project.pins")
        ∷ ("project.default.pinsHistory", ref "project.pinsHistory")
        ∷ ("project.default.pinsRead", ref "project.pinsRead")
        ∷ ("project.default._id", ref "project._id")
        ∷ ("project.default.read", ref "project.read")
        ∷ [])
    ∷ []

abbrev pub is_project : DataQuery → Bool
is_project q = q.model_type === "Project"

-- Between the gate and the projection, by whether the project is populated, and whether the model is
-- Project or RecentActivity.
unfoldable pub shape_for : Bool → Bool → Bool → List Stage
shape_for populates of_project of_activity =
    only_if (populates && not of_project) (populate "project" "project")
    ++ (only_if of_project project_stages
        ++ (only_if of_activity activity_stages
            ++ (only_if (not of_project && populates) nested_project_stages
                ++ (only_if (of_project && populates) (
                      add_fields (("default.featuredDocuments", ref "featuredDocuments") ∷ []) ∷ [])
                    ++ only_if (not of_project && populates)
                        (add_fields (("project", ref "project.default") ∷ []) ∷ [])))))

abbrev pub shape_stages : DataQuery → List Stage
shape_stages q = shape_for q.populate_project (is_project q) (q.model_type === "RecentActivity")

abbrev pub has_key : String → List (String × Bool) → Bool
has_key k [] = false
has_key k ((j, _) ∷ keys) = (j === k) || has_key k keys

unfoldable pub with_id_tiebreak : List (String × Bool) → List (String × Bool)
with_id_tiebreak keys = if has_key "_id" keys then keys else keys ++ ("_id", false) ∷ []

abbrev pub limit_of : Option ℕ → ℕ
limit_of none = max_limit
limit_of (some zero) = max_limit
limit_of (some (suc n)) = suc n

abbrev pub or_zero : Option ℕ → ℕ
or_zero none = 0
or_zero (some n) = n

abbrev pub sort_stages : List String → Option (List (String × Bool)) → List Stage
sort_stages fields none = []
sort_stages fields (some []) = project fields ∷ []
sort_stages fields (some (k ∷ keys)) = sort (with_id_tiebreak (k ∷ keys)) ∷ project fields ∷ []

abbrev pub page_stages : DataQuery → List Stage
page_stages q =
    if q.count
    then facet q.skip_rows (limit_of q.limit_rows) ∷ unwrap_total ∷ []
    else skip (or_zero q.skip_rows) ∷ limit (limit_of q.limit_rows) ∷ []

-- From the redaction on.
abbrev pub end_stages : DataQuery → List Stage
end_stages q =
    redact q.roles
    ∷ (optional q.sort_warm_up ++ (sort_stages (projection q) q.sort_keys ++ page_stages q))

-- `parentReadMatch` of the ids, as stages.
abbrev pub gate_stages : List String → List Stage
gate_stages ids = elim (parent_read_match (some ids) "project") [
  | none ↦ []
  | some queries ↦ map match_query queries
]

-- Up to the redaction, without the steps of the caller.
unfoldable pub front_stages : DataQuery → List String → List Stage
front_stages q unreadable_parents =
    match_query q.query
    ∷ (gate_stages unreadable_parents
        ++ (shape_stages q
            ++ (project (projection q)
                ∷ (only_if q.populate_proponent (populate "proponent" "proponent")
                    ++ optional q.post_step))))

-- The whole pipeline: each step of the caller is put in front of those before it.
unfoldable pub aggregations : DataQuery → List String → List Stage
unfolding front_stages
aggregations q unreadable_parents =
    reverse q.pre_steps ++ (front_stages q unreadable_parents ++ end_stages q)
