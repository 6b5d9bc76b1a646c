-- ===== src/Lib.antt =====
-- eagle-api: a model of the public-consultation API's own logic, and what holds of it.
--
-- The program is an Express server over MongoDB. A request passes the token check, a handler reads
-- or writes documents, public reads pass gates that hide rows, and some writes are pushed to a
-- second system (DEMI) in the background. The models are shallow: a function of the source is a
-- function of the same name in snake case, a callback's error is a constructor, an awaited call of
-- an outside service is an argument or one reply of a list of replies.
--
-- Parts, and the files that model them (paths from the repository's root):
--   Auth            api/helpers/auth.js. `verify_token` is verifyToken with the JWT library as the
--                   record `Jwt`; `check_authentication` and `set_password` take the key
--                   derivation (pbkdf2) and the search for the user as functions.
--   UpdateRules     api/helpers/updateRules.js. `validate` returns the list of messages as values
--                   of `Problem`; UpdateRules/Status is the status mapping, isLive, and the query
--                   that the public reads use.
--   PushClient      api/helpers/pushClient.js. `send` runs over the list of responses of fetch and
--                   returns what happened and the pauses; PushClient/Slots is `push` with its
--                   counters and its queue, as a state machine over arrivals and releases.
--   RunLock         api/materialized_views/runLock.js. The three operations over the collection of
--                   locks, whose calls of MongoDB are the record `Locks`.
--   ParentRead      api/helpers/parentRead.js. Both gates over the stored rows, with the queries
--                   evaluated by a `Mongo`.
--   FuzzySearch     api/helpers/fuzzySearch.js. The n-grams and the search text.
--   Jobs            api/controllers/job.js. Both reads of a background job; the queue's search and
--                   the parser of object ids are functions.
--   DemiPush        api/helpers/demiPush.js. `await_mirror` sorts the pushes as they stand at the
--                   deadline; DemiPush/Rows is recordOutcome over the rows and tombstones, and
--                   DemiPush/Sweeps is api/helpers/demiPushSweep.js over both.
--   UpdateImages    api/helpers/updateImages.js with documentPublish.js, the publish and unPublish of
--                   actions.js, and the document checks of updateRules.js. A save that fails and
--                   what other Updates show at a query are arguments.
--   Posting         protectedPost of api/controllers/recentActivity.js with `check` of
--                   updateRules.js, over the models of UpdateRules and UpdateImages. What other
--                   requests do to the documents between its steps is an argument (`Others`).
--   EdgeGate        api/middleware/edgeOnly.js. Lower case is a function.
--   DataQuery       api/helpers/utils.js: runDataQuery with its parameters and the ids that a create
--                   may send. A stage is a constructor; DataQuery/Engine is the record of what MongoDB
--                   documents of the stages that filter, project, order and count, with an engine
--                   that meets it in Engine/Reference. Nothing is assumed of joins and reshaping.
--                   In Engine/Paging each page is read by an engine of its own: only the sort keys
--                   settle the order of the rows.
--   Comments        api/controllers/comment.js without the export, and the field lists of
--                   constants.js. The reads build queries for DataQuery, behind the gate of
--                   ParentRead; Comments/Creating is protectedPost over the periods' counters, and
--                   Comments/Interleaved the requests that take their numbers at the same time.
--   Periods         api/controllers/commentperiod.js; Periods/Writes has also the publish and
--                   unPublish of actions.js for a schema with `isPublished`.
--   Pins            api/controllers/pins.js. The projects with their pins, and the organizations that
--                   the pins name; the sort of MongoDB is a function.
--   Legislation     The registry of Acts of api/helpers/constants.js, keyed by property names.
--   SearchTerms     generateSearchTerms of api/helpers/utils.js over UTF-16 units.
--   Projects        The requests of api/controllers/project.js that change a project, with the save of
--                   actions.js. A handler reads the project and makes a write ready; Projects/Running
--                   lets the writes of several requests arrive in any order, Projects/Requests has
--                   the requests one after the other.
--   Revising        protectedPut and protectedDelete of api/controllers/recentActivity.js;
--                   Revising/Versions has several of them on one row, at times.
--   Documents       The handlers of api/controllers/document.js that make or change a document, with
--                   documentPublish.js; Documents/Uploads is the upload. The object storage, the virus
--                   scan, the generated names and the result of a save are arguments.
-- Mongo holds rows, values and queries, and the record of documented laws of MongoDB's matching
-- that the theorems assume; Mongo/Reference is an evaluator that satisfies them. Prelude has the
-- Boolean tests, the lists and the texts that the parts share. Examples has the tests, and each
-- theorem with hypotheses at a concrete input.
--
-- Numbers, bounds, fuel. Numbers are natural numbers; times are milliseconds, and a difference of
-- times is written so that it does not depend on subtraction stopping at 0. `send` is given as
-- many rounds as ATTEMPTS plus THROTTLE_RETRIES allow, and the theorem on its end needs no
-- more. `create_ngrams` has as fuel the square of the word's length plus three, more than the steps
-- of both of its loops. Texts are compared exactly: a collation that ignores case is not modelled.
--
-- Outside the model: the HTTP framework, Mongoose schemas, aggregation stages other than those of
-- `Engine`, object storage, mail, logs and analytics, migrations and operator scripts, and the
-- text of log lines and error messages.
-- Nor are modelled the reads of projects and documents, the search, the reports, the
-- extensions, groups and members of projects, the export of comments, and the smaller controllers.
pub mod Prelude
pub mod Mongo
pub mod UpdateRules
pub mod Auth
pub mod PushClient
pub mod RunLock
pub mod ParentRead
pub mod FuzzySearch
pub mod Jobs
pub mod DemiPush
pub mod UpdateImages
pub mod Posting
pub mod EdgeGate
pub mod DataQuery
pub mod Comments
pub mod Periods
pub mod Pins
pub mod Legislation
pub mod SearchTerms
pub mod Projects
pub mod Revising
pub mod Documents
pub mod Examples
