-- ===== src/Examples/Parents.antt =====
-- A project that only staff may read, and its comment period.
use eagle_api.Prelude.{◌===◌, ◌≡◌, ◌∷◌, [], any, false, if◌then◌else◌, none, not, refl, some}
use eagle_api.Mongo.{Field, Row, Value}
use eagle_api.Mongo.Reference.{reference}
use eagle_api.ParentRead.{
  Epic, parent_read_match, unreadable_parent_ids, unreadable_parents_query, unreadable_by,
  roles_with_public,
}
use eagle_api.ParentRead.Gates.{hides_child, lets_through, parent_read_match-lets_through}

abbrev staff_project : Row
staff_project p =
    if p === "_schemaName"
    then Field.value (Value.str "Project")
    else if p === "read"
    then Field.list ("staff" ∷ [])
    else Field.absent

abbrev period : Row
period p =
    if p === "_schemaName"
    then Field.value (Value.str "CommentPeriod")
    else if p === "read"
    then Field.list ("public" ∷ [])
    else if p === "project"
    then Field.value (Value.str "p1")
    else Field.absent

abbrev comment : Row
comment p = if p === "period" then Field.value (Value.str "c1") else Field.absent

abbrev epic : Epic
epic = ("p1", staff_project) ∷ ("c1", period) ∷ []

hidden_period :
    lets_through reference
      (parent_read_match (some (unreadable_parent_ids reference none epic)) "project")
      period
    ≡ false
unfolding parent_read_match unreadable_parent_ids unreadable_parents_query unreadable_by
    roles_with_public
hidden_period = refl

parent_read_match-lets_through_example :
    lets_through reference
      (parent_read_match (some (unreadable_parent_ids reference none epic)) "project")
      period
    ≡ not (any (hides_child reference none (period "project")) epic)
parent_read_match-lets_through_example =
    parent_read_match-lets_through reference none epic "project" period
