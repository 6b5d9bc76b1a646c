-- ===== src/Periods/Reads.antt =====
-- What publicGet of api/controllers/commentperiod.js lets the public see.
use eagle_api.Prelude.{Bool, List, String, [], filter, some}
use eagle_api.Mongo.{Mongo, Row}
use eagle_api.ParentRead.{parent_read_match}
use eagle_api.ParentRead.Gates.{lets_through}
use eagle_api.DataQuery.Engine.{Engine, results}
use eagle_api.Periods.{PeriodReply, PeriodRequest, public_query}

abbrev pub reply_rows : PeriodReply → List Row
reply_rows (PeriodReply.found a) = results a
reply_rows _ = []

module _ {mongo : Mongo} (engine : Engine mongo) (is_valid : String → Bool) where
  -- The periods that the query and the gate let through.
  abbrev candidates : PeriodRequest → List String → List Row → List Row
  candidates r ids xs =
      filter (lets_through mongo (parent_read_match (some ids) "project"))
        (filter (mongo.matches (public_query is_valid r).query) xs)
