-- ===== src/Mongo/Reference.antt =====
-- An evaluator of the query documents that meets the laws of `Mongo`, for examples.
use eagle_api.Prelude.{◌&&◌, ◌||◌, Bool, not, refl}
use eagle_api.Mongo.{Mongo, Query, Row, at, both, either, holds, neither}

abbrev pub evaluate : Query → Row → Bool
evaluate (at p o) r = holds o (r p)
evaluate (both q q') r = evaluate q r && evaluate q' r
evaluate (either q q') r = evaluate q r || evaluate q' r
evaluate (neither q q') r = not (evaluate q r || evaluate q' r)

abbrev pub reference : Mongo
reference = record {
  matches = evaluate;
  matches-at = λ p o r. refl;
  matches-both = λ q q' r. refl;
  matches-either = λ q q' r. refl;
  matches-neither = λ q q' r. refl;
}
