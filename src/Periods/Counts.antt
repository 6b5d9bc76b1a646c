-- ===== src/Periods/Counts.antt =====
-- The counts of protectedSummary in api/controllers/commentperiod.js.
use eagle_api.Prelude.{
  ◌&&◌, ◌≡◌, ◌∙◌, Bool, List, Option, String, ap, filter, length, map, none, refl, some, ℕ,
}
use eagle_api.Mongo.{Mongo, Row, Value, equals}
use eagle_api.ParentRead.{parent_read_match}
use eagle_api.DataQuery.{front_stages, projection, shape_for}
use eagle_api.DataQuery.Params.{ObjectIdParam, get_valid_object_id}
use eagle_api.DataQuery.Engine.{Engine, is_readable, restrict, run_data_query, unreadable_parents}
use eagle_api.DataQuery.Engine.Plain.{filter-ext, filter-filter, total_items-plain}
use eagle_api.Periods.{
  PeriodRequest, Summary, option_query, protected_summary, summary_of, total_of,
}

-- A comment of a period that has a status and that a caller may read.
abbrev pub counts_as : List String → String → Value → Row → Bool
counts_as roles status period c =
    is_readable roles c && (equals (c "eaoStatus") (Value.str status) && equals (c "period") period)

-- The counts, by the rows.
abbrev pub counted : List String → Value → List Row → Summary
counted roles period xs =
    let count : String → ℕ = λ status. length (filter (counts_as roles status period) xs) in
    record {
      pending = count "Pending";
      deferred = count "Deferred";
      published = count "Published";
      rejected = count "Rejected";
    }

module _ {mongo : Mongo} (engine : Engine mongo) where
  total_of_lem :
      (roles : List String) (status : String) (period : Value) (xs : List Row)
      → total_of engine roles status period xs ≡ length (filter (counts_as roles status period) xs)
  unfolding total_of option_query run_data_query unreadable_parents front_stages shape_for
      parent_read_match
  total_of_lem roles status period xs =
      let q = option_query roles status period in
      total_items-plain engine q xs (filter (mongo.matches q.query) xs)
        (engine.run-project (projection q) _
          ∙ ap (map (restrict (projection q))) (engine.run-match_query q.query xs))
        refl refl refl refl
      ∙ ap length (
          filter-filter (is_readable roles) (mongo.matches q.query) xs
          ∙ filter-ext _ (counts_as roles status period) xs (λ c.
            ap (λ b. is_readable roles c && b)
              (mongo.matches-both _ _ c ∙ simp (mongo.matches-at))))

  summary_of_lem :
      (roles : List String) (period : Value) (xs : List Row)
      → summary_of engine roles period xs ≡ counted roles period xs
  unfolding summary_of
  summary_of_lem roles period xs = simp (total_of_lem)

  -- protectedSummary replies for each of the four statuses how many rows have it, belong to the period
  -- and carry a role of the caller in `read`. Without a period it counts the rows whose period is null
  -- or missing, and it replies 400 exactly for an invalid id.
  pub protected_summary_lem :
      (is_valid : String → Bool) (r : PeriodRequest) (xs : List Row)
      → protected_summary engine is_valid r xs ≡ elim (get_valid_object_id is_valid r.period_id) [
        | ObjectIdParam.no_id ↦ some (counted r.roles Value.null xs)
        | ObjectIdParam.invalid_id ↦ none
        | ObjectIdParam.object_id id ↦ some (counted r.roles (Value.str id) xs)
      ]
  unfolding protected_summary
  protected_summary_lem is_valid r xs = go (get_valid_object_id is_valid r.period_id)
    where
      go :
          (param : ObjectIdParam)
          → (elim param as (λ o. Option Summary) [
            | ObjectIdParam.no_id ↦ some (summary_of engine r.roles Value.null xs)
            | ObjectIdParam.invalid_id ↦ none
            | ObjectIdParam.object_id id ↦ some (summary_of engine r.roles (Value.str id) xs)
          ])
            ≡ (elim param as (λ o. Option Summary) [
              | ObjectIdParam.no_id ↦ some (counted r.roles Value.null xs)
              | ObjectIdParam.invalid_id ↦ none
              | ObjectIdParam.object_id id ↦ some (counted r.roles (Value.str id) xs)
            ])
      go ObjectIdParam.no_id = ap some (summary_of_lem r.roles Value.null xs)
      go ObjectIdParam.invalid_id = refl
      go (ObjectIdParam.object_id id) = ap some (summary_of_lem r.roles (Value.str id) xs)
