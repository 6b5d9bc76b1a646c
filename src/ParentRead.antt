-- ===== src/ParentRead.antt =====
-- Which parents a caller cannot read, and the stage that drops their children:
-- api/helpers/parentRead.js. The collection `epic` is the list of its rows with their ids.
pub mod Gates
use eagle_api.Prelude.{
  ◌++◌, ◌∷◌, Bool, List, Option, String, [], filter, if◌then◌else◌, includes, map, none, some,
}
use eagle_api.Mongo.{Mongo, Op, Query, Row, at, both, either, neither, Value}

abbrev pub parent_schemas : List String
parent_schemas = "Project" ∷ "ProjectNotification" ∷ []

abbrev pub Epic : Type 0
Epic = List (String × Row)

-- `roles` is none where the caller's roles are no array.
unfoldable pub roles_with_public : Option (List String) → List String
roles_with_public none = "public" ∷ []
roles_with_public (some roles) = if includes roles "public" then roles else roles ++ "public" ∷ []

unfoldable pub unreadable_by : Option (List String) → Query
unreadable_by roles =
    both (at "read" Op.has_item) (at "read" (Op.none_of (roles_with_public roles)))

unfoldable pub unreadable_parents_query : Option (List String) → Query
unreadable_parents_query roles =
    both (at "_schemaName" (Op.one_of parent_schemas)) (unreadable_by roles)

abbrev is_period : Query
is_period = at "_schemaName" (Op.eq (Value.str "CommentPeriod"))

-- `{ _schemaName: 'CommentPeriod', $or: hidesComments(…) }`, and the same with `$nor`.
unfoldable pub unreadable_periods_query : Option (List String) → List String → Query
unreadable_periods_query roles unreadable_projects =
    both is_period (either (unreadable_by roles) (at "project" (Op.one_of unreadable_projects)))

unfoldable pub readable_periods_query : Option (List String) → List String → Query
readable_periods_query roles unreadable_projects =
    both is_period (neither (unreadable_by roles) (at "project" (Op.one_of unreadable_projects)))

-- A gate: the stages it adds, each a `$match`, or none where it throws.
abbrev pub Gate : Type 0
Gate = Option (List Query)

unfoldable pub parent_read_match : Option (List String) → String → Gate
parent_read_match none parent_field = none
parent_read_match (some []) parent_field = some []
parent_read_match (some (id ∷ ids)) parent_field =
    some (at parent_field (Op.none_of (id ∷ ids)) ∷ [])

unfoldable pub readable_period_match : Option (List String) → Gate
readable_period_match none = none
readable_period_match (some ids) = some (at "period" (Op.one_of ids) ∷ [])

module _ (mongo : Mongo) where
  unfoldable pub ids_matching : Query → Epic → List String
  ids_matching q epic = map (λ e. e.0) (filter (λ e. mongo.matches q e.1) epic)

  unfoldable pub unreadable_parent_ids : Option (List String) → Epic → List String
  unfolding ids_matching
  unreadable_parent_ids roles epic = ids_matching (unreadable_parents_query roles) epic

  unfoldable pub unreadable_period_ids : Option (List String) → Epic → List String
  unfolding ids_matching
  unreadable_period_ids roles epic =
      ids_matching (unreadable_periods_query roles (unreadable_parent_ids roles epic)) epic

  unfoldable pub readable_period_ids : Option (List String) → Epic → List String
  unfolding ids_matching
  readable_period_ids roles epic =
      ids_matching (readable_periods_query roles (unreadable_parent_ids roles epic)) epic
