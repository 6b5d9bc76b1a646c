-- ===== src/Comments.antt =====
-- The reads of comments: publicHead, publicGet, protectedHead and protectedGet of
-- api/controllers/comment.js, with the field lists of api/helpers/constants.js. `is_valid` is
-- ObjectId.isValid. A parameter of a request that is absent or falsy is none.
pub mod Replies
pub mod Handlers
pub mod View
pub mod Public
pub mod Heads
pub mod Status
pub mod Creating
pub mod Readers
pub mod Outcomes
pub mod Counters
pub mod Numbers
pub mod Created
pub mod Interleaved
use eagle_api.Prelude.{
  ◌&&◌, ◌++◌, ◌===◌, ◌∷◌, Bool, List, Option, String, [], false, filter, if◌then◌else◌, includes,
  map, none, not, some, true, ℕ,
}
use eagle_api.Mongo.{Field, Op, Query, Row, Value, at, both, either}
use eagle_api.DataQuery.{DataQuery, Stage, match_query}
use eagle_api.DataQuery.Params.{
  Conditions, assign, build_query, get_skip_limit_parameters, limit_from, sanitize_fields, skip_of,
  sort_keys_from, with_schema, ℤ,
}

abbrev pub comment_fields : List String
comment_fields =
    "author" ∷ "comment" ∷ "commentId" ∷ "dateAdded" ∷ "datePosted" ∷ "dateUpdated" ∷ "documents"
    ∷ "eaoNotes" ∷ "eaoStatus" ∷ "submittedCAC" ∷ "isAnonymous" ∷ "location" ∷ "period"
    ∷ "proponentNotes" ∷ "proponentStatus" ∷ "publishedNotes" ∷ "rejectedNotes" ∷ "rejectedReason"
    ∷ "valuedComponents" ∷ "read" ∷ "write" ∷ "delete" ∷ []

abbrev pub comment_staff_fields : List String
comment_staff_fields =
    "eaoNotes" ∷ "eaoStatus" ∷ "proponentNotes" ∷ "rejectedNotes" ∷ "rejectedReason" ∷ []

abbrev pub comment_hidden_from_public : List String
comment_hidden_from_public = comment_staff_fields ++ "write" ∷ "delete" ∷ []

abbrev pub comment_public_fields : List String
comment_public_fields = filter (λ f. not (includes comment_hidden_from_public f)) comment_fields

abbrev pub public_roles : List String
public_roles = "public" ∷ []

abbrev pub public_sort_fields : List String
public_sort_fields = "commentId" ∷ "dateAdded" ∷ []

-- The parameters of the reads that both audiences have. `roles` are the caller's.
pub record CommentRequest : Type 0 where
  pub comment_id : Option String
  pub period : Option (List String)
  pub sort_values : Option (List String)
  pub page_size : Option ℤ
  pub page_num : Option ℤ
  pub wants_count : Bool
  pub fields : Option (List String)
  pub roles : List String

abbrev pub or_no_values : Option (List String) → List String
or_no_values none = []
or_no_values (some values) = values

-- Whether the anonymity of a comment is read only to hide its author.
unfoldable pub reads_anonymity : List String → Bool
reads_anonymity fields = includes fields "author" && not (includes fields "isAnonymous")

-- `publicCommentQuery(fields).fields`.
unfoldable pub public_comment_fields : List String → List String
unfolding reads_anonymity
public_comment_fields fields =
    if reads_anonymity fields then fields ++ "isAnonymous" ∷ [] else fields

-- `delete row[key]`.
abbrev pub without : String → Row → Row
without key row p = if p === key then Field.absent else row p

abbrev pub is_known_author : Field → Bool
is_known_author (Field.value (Value.bool b)) = not b
is_known_author _ = false

-- `publicCommentQuery(fields).redact`.
unfoldable pub redact_comment : List String → Row → Row
unfolding reads_anonymity
redact_comment fields row =
    let named : Row = if is_known_author (row "isAnonymous") then row else without "author" row in
    if reads_anonymity fields then without "isAnonymous" named else named

abbrev pub period_conditions : (String → Bool) → Option (List String) → Conditions
period_conditions is_valid none = []
period_conditions is_valid (some periods) = build_query is_valid "period" periods []

module _ (is_valid : String → Bool) where
  -- The comment of the route, or the period's comments.
  unfoldable pub public_conditions : CommentRequest → Conditions
  public_conditions r = elim r.comment_id [
    | some id ↦ build_query is_valid "_id" (id ∷ []) []
    | none ↦ period_conditions is_valid r.period
  ]

  abbrev pub public_sort_keys : CommentRequest → List (String × Bool)
  public_sort_keys r = elim r.comment_id [
    | some id ↦ []
    | none ↦ sort_keys_from (includes public_sort_fields) (or_no_values r.sort_values) []
  ]

  abbrev pub page_of : CommentRequest → Option (ℕ × ℕ)
  page_of r = elim r.comment_id [
    | some id ↦ none
    | none ↦ get_skip_limit_parameters r.page_size r.page_num
  ]

  abbrev pub sanitized : CommentRequest → List String
  sanitized r = sanitize_fields r.fields comment_public_fields

  -- The query of publicGet, with the stages of the period gate.
  unfoldable pub public_get_query : CommentRequest → List Query → DataQuery
  unfolding public_conditions public_comment_fields
  public_get_query r gate = record {
    model_type = "Comment";
    roles = public_roles;
    query = with_schema "Comment" (public_conditions r);
    fields = some (public_comment_fields (sanitized r));
    sort_warm_up = none;
    sort_keys = some (public_sort_keys r);
    skip_rows = skip_of (page_of r);
    limit_rows = limit_from (page_of r);
    count = true;
    pre_steps = map match_query gate;
    populate_proponent = false;
    post_step = none;
    populate_project = false;
    gate_on_parent_read = false;
  }

  -- The query of publicHead.
  unfoldable pub public_head_query : CommentRequest → List Query → DataQuery
  public_head_query r gate = record {
    model_type = "Comment";
    roles = public_roles;
    query = with_schema "Comment" (period_conditions is_valid r.period);
    fields = some (sanitized r);
    sort_warm_up = none;
    sort_keys = none;
    skip_rows = none;
    limit_rows = none;
    count = true;
    pre_steps = map match_query gate;
    populate_proponent = false;
    post_step = none;
    populate_project = false;
    gate_on_parent_read = false;
  }

  -- The query of protectedHead: `in_period` is its parameter `_commentPeriod`, and `deleted` its
  -- `isDeleted`.
  unfoldable pub protected_head_query :
      List String → Option String → Option (List String) → Option Bool → DataQuery
  protected_head_query scopes comment_id in_period deleted = record {
    model_type = "Comment";
    roles = scopes;
    query =
        with_schema "Comment"
          (deleted_conditions deleted (in_conditions in_period (id_conditions comment_id)));
    fields = some ("_id" ∷ "tags" ∷ []);
    sort_warm_up = none;
    sort_keys = none;
    skip_rows = none;
    limit_rows = none;
    count = true;
    pre_steps = [];
    populate_proponent = false;
    post_step = none;
    populate_project = false;
    gate_on_parent_read = false;
  }
    where
      id_conditions : Option String → Conditions
      id_conditions none = []
      id_conditions (some id) = build_query is_valid "_id" (id ∷ []) []

      in_conditions : Option (List String) → Conditions → Conditions
      in_conditions none query = query
      in_conditions (some periods) query = build_query is_valid "_commentPeriod" periods query

      deleted_conditions : Option Bool → Conditions → Conditions
      deleted_conditions none query = query
      deleted_conditions (some b) query = assign "isDeleted" (Op.eq (Value.bool b)) query
