-- ===== src/DataQuery/Engine/Pages.antt =====
-- The rows of runDataQuery (api/helpers/utils.js) and its pages.
use mathlib.Core.Option
use eagle_api.Prelude.{
  ◌≡◌, ◌∷◌, ◌∙◌, All, Bool, List, Memᴰ, Option, Option-cases, String, [], ap, false, if◌then◌else◌,
  inl, inr, none, refl, some, subst, true, ℕ, Mem-filter, Mem-take, Mem-drop,
}
use eagle_api.Mongo.{Mongo, Row}
use eagle_api.ParentRead.{Epic}
use eagle_api.DataQuery.{DataQuery, aggregations, limit_of, or_zero}
use eagle_api.DataQuery.Engine.{
  Answer, Engine, is_readable, page, results, rows, run_data_query, unreadable_parents,
}
use eagle_api.DataQuery.Engine.Readable.{
  aggregations-answer, gathered, has_row_steps, listing, ordered-is_readable, window,
}

Mem→All :
    (p : Row → Bool) (xs : List Row)
    → ((x : Row) → Memᴰ x xs → p x ≡ true)
    → All (λ x. p x ≡ true) xs
Mem→All p [] h = tt
Mem→All p (x ∷ xs) h = (h x (Memᴰ.head refl), Mem→All p xs (λ y m. h y (Memᴰ.tail m)))

results-page : (c : Bool) (n : ℕ) (xs : List Row) → results (if c then page n xs else rows xs) ≡ xs
results-page true n xs = refl
results-page false n xs = refl

-- No rows where the answer is an error.
abbrev pub answered : Option Answer → List Row
answered none = []
answered (some a) = results a

module _ {mongo : Mongo} (engine : Engine mongo) where
  pub answered-run_data_query :
      (q : DataQuery) (epic : Option Epic) (xs : List Row) (ids : List String)
      → q.sort_warm_up ≡ none
      → has_row_steps q ≡ true
      → unreadable_parents mongo q epic ≡ some ids
      → answered (run_data_query engine q epic xs) ≡ window engine q (listing engine q ids xs)
  unfolding run_data_query
  answered-run_data_query q epic xs ids w h known =
      ap (λ o. answered (Option.map (λ i. engine.answer (aggregations q i) xs) o)) known
      ∙ ap results (aggregations-answer engine q ids xs w h)
      ∙ results-page q.count _ _

  Mem-answered :
      (q : DataQuery) (epic : Option Epic) (xs : List Row) (x : Row)
      → Memᴰ x (answered (run_data_query engine q epic xs))
      → (ids : List String) × (unreadable_parents mongo q epic ≡ some ids)
  unfolding run_data_query
  Mem-answered q epic xs x m = elim (Option-cases (unreadable_parents mongo q epic)) [
    | inr found ↦ found
    | inl thrown ↦
        let run : Option (List String) → Option Answer =
          Option.map (λ i. engine.answer (aggregations q i) xs) in
        elim (subst (λ o. Memᴰ x (answered (run o))) thrown m) [ ]
  ]

  -- The rows that a query without a sort warm-up answers, whose caller adds no page of its own, all
  -- carry a role of the caller in `read`.
  pub run_data_query-readable :
      (q : DataQuery) (epic : Option Epic) (xs : List Row) (x : Row)
      → q.sort_warm_up ≡ none
      → has_row_steps q ≡ true
      → Memᴰ x (answered (run_data_query engine q epic xs))
      → is_readable q.roles x ≡ true
  run_data_query-readable q epic xs x w h m =
      let (ids, known) = Mem-answered q epic xs x m in
      let listed = listing engine q ids xs in
      ordered-is_readable engine q _ x
        (λ y n. (Mem-filter (is_readable q.roles) (gathered engine q ids xs) y n).1)
        (Mem-drop (or_zero q.skip_rows) listed x (
          Mem-take (limit_of q.limit_rows) _ x
            (subst (Memᴰ x) (answered-run_data_query q epic xs ids w h known) m)))
