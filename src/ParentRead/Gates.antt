-- ===== src/ParentRead/Gates.antt =====
-- What the gates of api/helpers/parentRead.js let through.
use eagle_api.Prelude.{
  ◌&&◌, ◌||◌, ◌≡◌, ◌∷◌, Bool, List, Option, String, [], all, any, arith, false, includes, none, not,
  refl, some, true,
}
use eagle_api.Mongo.{Field, Mongo, Query, Row, Value, equals, equals_some, is_nonempty_list}
use eagle_api.ParentRead.{
  Epic, Gate, parent_schemas, roles_with_public, unreadable_by, unreadable_parents_query,
  readable_periods_query, parent_read_match, readable_period_match, ids_matching,
  unreadable_parent_ids, readable_period_ids,
}

-- The rule of the module's comment: a `read[]` hides if it is not empty and holds neither "public"
-- nor a role of the caller.
abbrev pub hides : Option (List String) → Field → Bool
hides roles (Field.list (r ∷ rs)) = not (any (includes (r ∷ rs)) (roles_with_public roles))
hides roles _ = false

hides_lem :
    (roles : Option (List String)) (f : Field)
    → (is_nonempty_list f && not (equals_some f (roles_with_public roles))) ≡ hides roles f
hides_lem roles (Field.list []) = refl
hides_lem roles (Field.list (r ∷ rs)) = refl
hides_lem roles Field.absent = refl
hides_lem roles (Field.value v) = refl

and_true : (b : Bool) → (b && true) ≡ b
and_true b = ground arith

module _ (mongo : Mongo) where
  open mongo use {matches, matches-at, matches-both, matches-either, matches-neither}

  -- A row is kept by a gate that did not throw if every stage matches it.
  abbrev pub lets_through : Gate → Row → Bool
  lets_through none row = false
  lets_through (some stages) row = all (λ q. matches q row) stages

  abbrev pub is_parent : Row → Bool
  is_parent row = equals_some (row "_schemaName") parent_schemas

  unreadable_by_lem :
      (roles : Option (List String)) (row : Row)
      → matches (unreadable_by roles) row ≡ hides roles (row "read")
  unfolding unreadable_by
  unreadable_by_lem roles row = simp (matches-both, matches-at) (hides_lem roles (row "read"))

  -- The ids that a query finds, asked for by a field.
  equals_some-ids_matching :
      (q : Query) (f : Field) (epic : Epic)
      → equals_some f (ids_matching mongo q epic)
        ≡ any (λ e. matches q e.1 && equals f (Value.str e.0)) epic
  unfolding ids_matching
  equals_some-ids_matching q f [] = refl
  equals_some-ids_matching q f (e ∷ epic) = ground (arith, equals_some-ids_matching q f epic)

  gate_lem :
      (ids : List String) (field : String) (row : Row)
      → lets_through (parent_read_match (some ids) field) row ≡ not (equals_some (row field) ids)
  unfolding parent_read_match
  gate_lem [] field row = refl
  gate_lem (id ∷ ids) field row = rw matches-at (ground arith)

  -- The row `e` is a project or a notification that the caller cannot read, and `f` points at it.
  abbrev pub hides_child : Option (List String) → Field → String × Row → Bool
  hides_child roles f e = (is_parent e.1 && hides roles (e.1 "read")) && equals f (Value.str e.0)

  unreadable_parents_lem :
      (roles : Option (List String)) (f : Field) (epic : Epic)
      → equals_some f (unreadable_parent_ids mongo roles epic) ≡ any (hides_child roles f) epic
  unfolding unreadable_parent_ids unreadable_parents_query
  unreadable_parents_lem roles f epic =
      rw (equals_some-ids_matching _ f epic) (simp (matches-both, matches-at, unreadable_by_lem))

  -- The parent gate drops a row exactly if its parent field points at a project or notification of
  -- the collection whose `read[]` is not empty and holds neither "public" nor a role of the caller.
  -- A row whose field is absent, or whose parent is gone, passes.
  pub parent_read_match-lets_through :
      (roles : Option (List String)) (epic : Epic) (field : String) (row : Row)
      → lets_through (parent_read_match (some (unreadable_parent_ids mongo roles epic)) field) row
        ≡ not (any (hides_child roles (row field)) epic)
  parent_read_match-lets_through roles epic field row =
      rw (gate_lem (unreadable_parent_ids mongo roles epic) field row)
        (rw (unreadable_parents_lem roles (row field) epic))

  abbrev pub is_period_row : Row → Bool
  is_period_row row = equals (row "_schemaName") (Value.str "CommentPeriod")

  -- A period hides its comments on its own `read[]`, or because its project is unreadable.
  abbrev pub hides_comments : Option (List String) → Epic → Row → Bool
  hides_comments roles epic period =
      hides roles (period "read") || any (hides_child roles (period "project")) epic

  -- The strict comment gate keeps a comment exactly if its period field points at a comment period
  -- of the collection that the caller may read and whose project does not hide it.
  pub readable_period_match-lets_through :
      (roles : Option (List String)) (epic : Epic) (comment : Row)
      → lets_through (readable_period_match (some (readable_period_ids mongo roles epic))) comment
        ≡ any
            (λ e.
              (is_period_row e.1 && not (hides_comments roles epic e.1))
              && equals (comment "period") (Value.str e.0))
            epic
  unfolding readable_period_ids readable_period_match readable_periods_query
  readable_period_match-lets_through roles epic comment =
      rw (matches-at, and_true)
        (rw (equals_some-ids_matching _ (comment "period") epic) (
          simp
            (matches-both, matches-at, matches-neither, unreadable_by_lem, unreadable_parents_lem)))
