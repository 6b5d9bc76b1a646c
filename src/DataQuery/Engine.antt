-- ===== src/DataQuery/Engine.antt =====
-- How MongoDB runs a pipeline of runDataQuery (api/helpers/utils.js): the parameter `Engine`, with
-- the documented meaning of the stages that filter, project, order and count. Nothing is assumed of
-- the stages that join and reshape rows.
pub mod Reference
pub mod Readable
pub mod Pages
pub mod Orders
pub mod Paging
pub mod Plain
use mathlib.Core.List.{Permᴰ}
use mathlib.Core.Option
use eagle_api.Prelude.{
  ◌≡◌, ◌∷◌, Bool, List, Option, String, [], any, drop, false, filter, if◌then◌else◌, includes,
  length, map, none, some, take, true, ℕ,
}
use eagle_api.Mongo.{Field, Mongo, Query, Row}
use eagle_api.ParentRead.{Epic, unreadable_parent_ids}
use eagle_api.DataQuery.{
  DataQuery, Stage, aggregations, custom, facet, limit, match_query, or_zero, project, redact, skip,
  sort, unwrap_total,
}

-- What the caller gets: the rows, or one object with a count and a page of the rows.
pub data Answer : Type 0 where
  rows : List Row → Answer
  page : ℕ → List Row → Answer

abbrev pub results : Answer → List Row
results (rows xs) = xs
results (page n xs) = xs

-- `data[0].total_items`, of an answer with a count.
abbrev pub total_items : Answer → ℕ
total_items (rows xs) = 0
total_items (page n xs) = n

-- `data.length`: a page is one object.
abbrev pub data_length : Answer → ℕ
data_length (rows xs) = length xs
data_length (page n xs) = 1

-- The condition of the `$redact`: `read` is there, and one of its tags is a role.
abbrev pub shares_read : List String → Field → Bool
shares_read roles (Field.list tags) = any (includes roles) tags
shares_read roles _ = false

abbrev pub is_readable : List String → Row → Bool
is_readable roles row = shares_read roles (row "read")

-- A row with these paths alone.
abbrev pub restrict : List String → Row → Row
restrict fields row p = if includes fields p then row p else Field.absent

abbrev pub is_row_stage : Stage → Bool
is_row_stage (facet _ _) = false
is_row_stage unwrap_total = false
is_row_stage _ = true

pub record Engine (mongo : Mongo) : Type 0 where
  pub run : Stage → List Row → List Row
  pub answer : List Stage → List Row → Answer
  pub answer-nil : (xs : List Row) → answer [] xs ≡ rows xs
  pub answer-cons :
      (s : Stage) (ss : List Stage) (xs : List Row)
      → is_row_stage s ≡ true
      → answer (s ∷ ss) xs ≡ answer ss (run s xs)
  pub answer-facet :
      (n : Option ℕ) (m : ℕ) (xs : List Row)
      → answer (facet n m ∷ unwrap_total ∷ []) xs ≡ page (length xs) (take m (drop (or_zero n) xs))
  pub run-match_query :
      (q : Query) (xs : List Row) → run (match_query q) xs ≡ filter (mongo.matches q) xs
  pub run-project : (fs : List String) (xs : List Row) → run (project fs) xs ≡ map (restrict fs) xs
  pub run-redact :
      (rs : List String) (xs : List Row) → run (redact rs) xs ≡ filter (is_readable rs) xs
  pub run-sort : (ks : List (String × Bool)) (xs : List Row) → Permᴰ (run (sort ks) xs) xs
  pub run-skip : (n : ℕ) (xs : List Row) → run (skip n) xs ≡ drop n xs
  pub run-limit : (n : ℕ) (xs : List Row) → run (limit n) xs ≡ take n xs

module _ (mongo : Mongo) where
  -- The parents that the gate hides. None where their query throws: `epic` is then none.
  unfoldable pub unreadable_parents : DataQuery → Option Epic → Option (List String)
  unreadable_parents q epic =
      if q.gate_on_parent_read
      then Option.map (λ e. unreadable_parent_ids mongo (some q.roles) e) epic
      else some []

module _ {mongo : Mongo} (engine : Engine mongo) where
  unfoldable pub run_data_query : DataQuery → Option Epic → List Row → Option Answer
  run_data_query q epic xs =
      Option.map (λ ids. engine.answer (aggregations q ids) xs) (unreadable_parents mongo q epic)
