-- ===== src/Comments/Replies.antt =====
-- What the reads of api/controllers/comment.js reply, and the queries of protectedGet.

use eagle_api.Prelude.{
  ◌++◌, ◌∷◌, ◌||◌, Bool, List, Option, String, [], false, if◌then◌else◌, is_set, ltb, none, not,
  some, true, ℕ,
}
use eagle_api.Mongo.{Field, Op, Query, Row, Value, at, both, either}
use eagle_api.DataQuery.{DataQuery}
use eagle_api.DataQuery.Params.{
  Conditions, get_skip_limit_parameters, limit_from, sanitize_fields, skip_of, sort_keys_from,
  with_schema,
}
use eagle_api.DataQuery.Engine.{total_items, data_length, Answer, page, rows}
use eagle_api.Comments.{CommentRequest, comment_fields, or_no_values}

-- The list that is sent, or the one object with the total and the list.
pub data Body : Type 0 where
  listed : List Row → Body
  counted : ℕ → List Row → Body

abbrev pub body_rows : Body → List Row
body_rows (listed xs) = xs
body_rows (counted n xs) = xs

-- `sent` has the header x-total-count, the body, and the recorded action with its object id.
pub data PublicReply : Type 0 where
  failed : PublicReply
  sent : Option ℕ → Body → Option (Option String) → PublicReply

abbrev pub reply_rows : PublicReply → List Row
reply_rows failed = []
reply_rows (sent total body audit) = body_rows body

abbrev pub audited : String → List Row → Option (Option String)
audited id [] = none
audited id (x ∷ xs) = some (some id)

-- What publicGet sends of its redacted results.
unfoldable pub public_reply : Option String → Bool → ℕ → List Row → PublicReply
public_reply (some id) wants_count total found = sent none (listed found) (audited id found)
public_reply none true total found = sent (some total) (listed found) (some none)
public_reply none false total found = sent none (counted total found) none

-- `unanswered` is a request without any reply.
pub data HeadReply : Type 0 where
  unanswered failed : HeadReply
  ok not_found : ℕ → HeadReply

unfoldable pub public_head_reply : CommentRequest → Answer → HeadReply
public_head_reply r a =
    if not (is_set r.period) || ltb 0 (data_length a)
    then HeadReply.ok (total_items a)
    else unanswered

unfoldable pub protected_head_reply : Option String → Answer → HeadReply
protected_head_reply comment_id a =
    if not (is_set comment_id) || ltb 0 (data_length a)
    then HeadReply.ok (total_items a)
    else HeadReply.not_found (total_items a)

-- The flags of protectedGet: the statuses asked for, and whether the next pending comment is.
pub record StatusFilter : Type 0 where
  pub pending : Bool
  pub published : Bool
  pub deferred : Bool
  pub rejected : Bool
  pub populate_next : Bool

abbrev pub chosen : Bool → String → List String
chosen true status = status ∷ []
chosen false status = []

abbrev pub statuses : StatusFilter → List String
statuses f =
    chosen f.pending "Pending"
    ++ (chosen f.published "Published"
        ++ (chosen f.deferred "Deferred" ++ chosen f.rejected "Rejected"))

abbrev pub has_status : String → Query
has_status status = at "eaoStatus" (Op.eq (Value.str status))

-- `$or` of the statuses.
abbrev pub any_status : String → List String → Query
any_status status [] = has_status status
any_status status (next ∷ more) = either (has_status status) (any_status next more)

unfoldable pub with_statuses : List String → Query → Query
with_statuses [] query = query
with_statuses (status ∷ more) query = both query (any_status status more)

abbrev pub equal_to : String → Option String → Conditions
equal_to key none = []
equal_to key (some v) = (key, Op.eq (Value.str v)) ∷ []

-- The query of protectedGet; `period` is its one period.
unfoldable pub protected_get_query : CommentRequest → Option String → StatusFilter → DataQuery
unfolding with_statuses
protected_get_query r period f =
    let pages : Option (ℕ × ℕ) = get_skip_limit_parameters r.page_size r.page_num in
    record {
      model_type = "Comment";
      roles = r.roles;
      query =
          with_statuses (statuses f)
            (with_schema "Comment" (equal_to "_id" r.comment_id ++ equal_to "period" period));
      fields = some (sanitize_fields r.fields comment_fields);
      sort_warm_up = none;
      sort_keys = some (sort_keys_from (λ k. true) (or_no_values r.sort_values) []);
      skip_rows = skip_of pages;
      limit_rows = limit_from pages;
      count = r.wants_count;
      pre_steps = [];
      populate_proponent = false;
      post_step = none;
      populate_project = false;
      gate_on_parent_read = false;
    }

-- A missing value is null in a query.
abbrev pub as_value : Field → Value
as_value (Field.value v) = v
as_value _ = Value.null

-- The query for the pending comments of a comment's period.
unfoldable pub next_comment_query : List String → Row → DataQuery
next_comment_query roles first = record {
  model_type = "Comment";
  roles = roles;
  query =
      both (at "_id" (Op.ne (as_value (first "_id"))))
        (both (at "period" (Op.eq (as_value (first "period")))) (has_status "Pending"));
  fields = some [];
  sort_warm_up = none;
  sort_keys = some (("commentId", false) ∷ []);
  skip_rows = some 0;
  limit_rows = some 1;
  count = true;
  pre_steps = [];
  populate_proponent = false;
  post_step = none;
  populate_project = false;
  gate_on_parent_read = false;
}

-- `data[0]`: the page object has neither an id nor a period.
abbrev pub first_of : Answer → Option Row
first_of (rows []) = none
first_of (rows (x ∷ xs)) = some x
first_of (page n xs) = some (λ p. Field.absent)

-- The headers x-pending-comment-count and x-next-comment-id, of an answer with a count.
abbrev pub next_of : Answer → ℕ × Option Field
next_of (page n (x ∷ xs)) = (n, some (x "_id"))
next_of a = (total_items a, none)

pub data StaffReply : Type 0 where
  bad_request : StaffReply
  sent : Answer → Option (ℕ × Option Field) → StaffReply

abbrev pub valid_if_set : (String → Bool) → Option String → Bool
valid_if_set is_valid none = true
valid_if_set is_valid (some id) = is_valid id
