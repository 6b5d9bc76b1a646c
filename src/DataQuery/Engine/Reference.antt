-- ===== src/DataQuery/Engine/Reference.antt =====
-- An engine that meets the laws, for examples: it leaves rows in their order and ignores the stages
-- that join and reshape.
use mathlib.Core.List.Permᴰ
use eagle_api.Prelude.{◌≡◌, ◌∷◌, List, [], drop, filter, length, map, refl, take, true}
use eagle_api.Mongo.{Mongo, Row}
use eagle_api.DataQuery.{Stage, facet, limit, match_query, or_zero, project, redact, skip}
use eagle_api.DataQuery.Engine.{Answer, Engine, is_readable, is_row_stage, page, restrict, rows}

module _ (mongo : Mongo) where
  abbrev pub run_stage : Stage → List Row → List Row
  run_stage (match_query q) xs = filter (mongo.matches q) xs
  run_stage (project fs) xs = map (restrict fs) xs
  run_stage (redact rs) xs = filter (is_readable rs) xs
  run_stage (skip n) xs = drop n xs
  run_stage (limit n) xs = take n xs
  run_stage _ xs = xs

  abbrev pub run_stages : List Stage → List Row → Answer
  run_stages [] xs = rows xs
  run_stages (facet n m ∷ ss) xs = page (length xs) (take m (drop (or_zero n) xs))
  run_stages (s ∷ ss) xs = run_stages ss (run_stage s xs)

  pub run_stages-cons :
      (s : Stage) (ss : List Stage) (xs : List Row)
      → is_row_stage s ≡ true
      → run_stages (s ∷ ss) xs ≡ run_stages ss (run_stage s xs)
  run_stages-cons (facet n m) ss xs h = cc
  run_stages-cons (match_query q) ss xs h = refl
  run_stages-cons _ ss xs h = refl

  abbrev pub in_order : Engine mongo
  in_order = record {
    run = run_stage;
    answer = run_stages;
    answer-nil = λ xs. refl;
    answer-cons = run_stages-cons;
    answer-facet = λ n m xs. refl;
    run-match_query = λ q xs. refl;
    run-project = λ fs xs. refl;
    run-redact = λ rs xs. refl;
    run-sort = λ ks xs. Permᴰ.refl xs;
    run-skip = λ n xs. refl;
    run-limit = λ n xs. refl;
  }
