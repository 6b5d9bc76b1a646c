-- ===== src/Periods.antt =====
-- The reads of comment periods: publicGet, protectedHead, protectedSummary and protectedGet of
-- api/controllers/commentperiod.js. `is_valid` is ObjectId.isValid, `epic` is none where the query
-- of the parent gate throws, and `xs` are the rows of the collection. A parameter of a request that is
-- absent or falsy is none.
pub mod Reads
pub mod Counts
pub mod Writes
pub mod Requests
pub mod Flags
pub mod Runs
use eagle_api.Prelude.{
  ◌&&◌, ◌∷◌, ◌||◌, Bool, List, Option, String, [], false, if◌then◌else◌, includes, is_set, ltb, map,
  none, not, some, true, ℕ,
}
use eagle_api.Mongo.{Mongo, Op, Query, Row, Value, at, both}
use eagle_api.ParentRead.{Epic}
use eagle_api.DataQuery.{DataQuery}
use eagle_api.DataQuery.Params.{
  Conditions, ObjectIdParam, assign, build_query, get_skip_limit_parameters, get_valid_object_id,
  limit_from, sanitize_fields, skip_of, sort_keys_from, with_schema, ℤ,
}
use eagle_api.DataQuery.Engine.{Answer, Engine, data_length, run_data_query, total_items}

abbrev pub period_fields : List String
period_fields =
    "_schemaName" ∷ "addedBy" ∷ "additionalText" ∷ "ceaaAdditionalText" ∷ "ceaaInformationLabel"
    ∷ "ceaaRelatedDocuments" ∷ "classificationRoles" ∷ "classifiedPercent" ∷ "commenterRoles"
    ∷ "dateAdded" ∷ "dateCompleted" ∷ "dateCompletedEst" ∷ "dateStarted" ∷ "dateStartedEst"
    ∷ "dateUpdated" ∷ "downloadRoles" ∷ "informationLabel" ∷ "instructions" ∷ "commentTip"
    ∷ "isClassified" ∷ "isPublished" ∷ "isResolved" ∷ "isVetted" ∷ "isMet" ∷ "metURL"
    ∷ "metURLAdmin" ∷ "metBannerImageUrl" ∷ "milestone" ∷ "openHouses" ∷ "periodType" ∷ "phase"
    ∷ "phaseName" ∷ "project" ∷ "publishedPercent" ∷ "rangeOption" ∷ "rangeType"
    ∷ "relatedDocuments" ∷ "resolvedPercent" ∷ "updatedBy" ∷ "userCan" ∷ "vettedPercent"
    ∷ "vettingRoles" ∷ "read" ∷ "write" ∷ "delete" ∷ []

abbrev pub period_sort_fields : List String
period_sort_fields = "dateStarted" ∷ "dateCompleted" ∷ "author" ∷ []

abbrev pub permission_fields : List String
permission_fields = "_id" ∷ "read" ∷ "write" ∷ "delete" ∷ []

-- The parameters of the reads. `project` is one text to protectedGet.
pub record PeriodRequest : Type 0 where
  pub period_id : Option String
  pub project : Option (List String)
  pub one_project : Option String
  pub sort_values : Option (List String)
  pub page_size : Option ℤ
  pub page_num : Option ℤ
  pub wants_count : Bool
  pub fields : Option (List String)
  pub is_deleted : Option Bool
  pub roles : List String

-- `found` is the reply 200, `thrown` the reply 400 with an error, `invalid` the reply 400 with {}.
pub data PeriodReply : Type 0 where
  found : Answer → PeriodReply
  thrown invalid : PeriodReply

abbrev pub reply_of : Option Answer → PeriodReply
reply_of none = thrown
reply_of (some a) = found a

-- A query that counts the rows of a caller.
abbrev pub counting : List String → Query → DataQuery
counting roles query = record {
  model_type = "CommentPeriod";
  roles = roles;
  query = query;
  fields = some permission_fields;
  sort_warm_up = none;
  sort_keys = none;
  skip_rows = none;
  limit_rows = none;
  count = true;
  pre_steps = [];
  populate_proponent = false;
  post_step = none;
  populate_project = false;
  gate_on_parent_read = false;
}

module _ (is_valid : String → Bool) where
  abbrev pub by_id : Option String → Conditions → Conditions
  by_id none query = query
  by_id (some id) query = build_query is_valid "_id" (id ∷ []) query

  abbrev pub in_project : Option (List String) → Conditions → Conditions
  in_project none query = query
  in_project (some ids) query = build_query is_valid "project" ids query

  abbrev pub deleted_as : Option Bool → Conditions → Conditions
  deleted_as none query = query
  deleted_as (some b) query = assign "isDeleted" (Op.eq (Value.bool b)) query

  unfoldable pub public_query : PeriodRequest → DataQuery
  public_query r = record {
    model_type = "CommentPeriod";
    roles = "public" ∷ [];
    query = with_schema "CommentPeriod" (in_project r.project (by_id r.period_id []));
    fields = some (sanitize_fields r.fields period_fields);
    sort_warm_up = none;
    sort_keys = some (elim r.sort_values [
      | none ↦ []
      | some values ↦ sort_keys_from (includes period_sort_fields) values []
    ]);
    skip_rows = none;
    limit_rows = none;
    count = false;
    pre_steps = [];
    populate_proponent = false;
    post_step = none;
    populate_project = false;
    gate_on_parent_read = true;
  }

  unfoldable pub head_query : PeriodRequest → DataQuery
  head_query r = counting r.roles (
      with_schema "CommentPeriod"
        (deleted_as r.is_deleted (in_project r.project (by_id r.period_id []))))

  -- The query of protectedGet, for a project that is a valid id.
  unfoldable pub staff_query : PeriodRequest → Option String → DataQuery
  staff_query r project =
      let pages : Option (ℕ × ℕ) = get_skip_limit_parameters r.page_size r.page_num in
      record {
        model_type = "CommentPeriod";
        roles = r.roles;
        query = with_schema "CommentPeriod" (elim project [
          | none ↦ by_id r.period_id []
          | some id ↦ assign "project" (Op.eq (Value.str id)) (by_id r.period_id [])
        ]);
        fields = some (sanitize_fields r.fields period_fields);
        sort_warm_up = none;
        sort_keys = elim r.sort_values [
          | none ↦ none
          | some values ↦ some (sort_keys_from (λ k. true) values [])
        ];
        skip_rows = skip_of pages;
        limit_rows = limit_from pages;
        count = r.wants_count;
        pre_steps = [];
        populate_proponent = false;
        post_step = none;
        populate_project = false;
        gate_on_parent_read = true;
      }

-- The reply of protectedHead, with the header x-total-count.
pub data PeriodHead : Type 0 where
  ok not_found : ℕ → PeriodHead
  failed : PeriodHead

unfoldable pub head_reply : Option String → Answer → PeriodHead
head_reply period_id a =
    if not (is_set period_id) || ltb 0 (data_length a)
    then ok (total_items a)
    else not_found (total_items a)

-- The counts of protectedSummary.
pub record Summary : Type 0 where
  pub pending : ℕ
  pub deferred : ℕ
  pub published : ℕ
  pub rejected : ℕ

-- `{ eaoStatus: status, period: id }`, with null where no period is asked for.
unfoldable pub option_query : List String → String → Value → DataQuery
option_query roles status period =
    counting roles (both (at "eaoStatus" (Op.eq (Value.str status))) (at "period" (Op.eq period)))

module _ {mongo : Mongo} (engine : Engine mongo) where
  unfoldable pub total_of : List String → String → Value → List Row → ℕ
  total_of roles status period xs =
      elim (run_data_query engine (option_query roles status period) none xs) [
        | none ↦ 0
        | some a ↦ total_items a
      ]

  unfoldable pub summary_of : List String → Value → List Row → Summary
  unfolding total_of
  summary_of roles period xs = record {
    pending = total_of roles "Pending" period xs;
    deferred = total_of roles "Deferred" period xs;
    published = total_of roles "Published" period xs;
    rejected = total_of roles "Rejected" period xs;
  }

module _ {mongo : Mongo} (engine : Engine mongo) (is_valid : String → Bool) where
  unfoldable pub public_get : PeriodRequest → Option Epic → List Row → PeriodReply
  public_get r epic xs = reply_of (run_data_query engine (public_query is_valid r) epic xs)

  unfoldable pub protected_head : PeriodRequest → List Row → PeriodHead
  protected_head r xs = elim (run_data_query engine (head_query is_valid r) none xs) [
    | none ↦ failed
    | some a ↦ head_reply r.period_id a
  ]

  -- None is the reply 400.
  unfoldable pub protected_summary : PeriodRequest → List Row → Option Summary
  unfolding summary_of
  protected_summary r xs = elim (get_valid_object_id is_valid r.period_id) [
    | ObjectIdParam.no_id ↦ some (summary_of engine r.roles Value.null xs)
    | ObjectIdParam.invalid_id ↦ none
    | ObjectIdParam.object_id id ↦ some (summary_of engine r.roles (Value.str id) xs)
  ]

  unfoldable pub protected_get : PeriodRequest → Option Epic → List Row → PeriodReply
  protected_get r epic xs = elim (get_valid_object_id is_valid r.one_project) [
    | ObjectIdParam.no_id ↦ reply_of (run_data_query engine (staff_query is_valid r none) epic xs)
    | ObjectIdParam.invalid_id ↦ invalid
    | ObjectIdParam.object_id id ↦
        reply_of (run_data_query engine (staff_query is_valid r (some id)) epic xs)
  ]
