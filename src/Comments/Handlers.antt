-- ===== src/Comments/Handlers.antt =====
-- The reads of api/controllers/comment.js. `epic` is none where the query for the parents of the
-- period gate throws, and `xs` are the rows of the Comment model.
use mathlib.Core.Option
use eagle_api.Prelude.{◌&&◌, Bool, List, Option, String, if◌then◌else◌, map, none, some}
use eagle_api.Mongo.{Mongo, Row}
use eagle_api.ParentRead.{Epic, Gate, readable_period_ids, readable_period_match}
use eagle_api.DataQuery.Engine.{total_items, Answer, Engine, results, run_data_query}
use eagle_api.Comments.{
  CommentRequest, protected_head_query, public_get_query, public_head_query, public_roles,
  redact_comment, sanitized,
}
use eagle_api.Comments.Replies.{
  PublicReply, failed, HeadReply, StatusFilter, StaffReply, bad_request, public_reply,
  public_head_reply, protected_head_reply, protected_get_query, next_comment_query, first_of,
  next_of, valid_if_set,
}

module _ {mongo : Mongo} (engine : Engine mongo) (is_valid : String → Bool) where
  unfoldable pub public_period_gate : Option Epic → Gate
  public_period_gate epic =
      readable_period_match (Option.map (readable_period_ids mongo (some public_roles)) epic)

  unfoldable pub public_get : CommentRequest → Option Epic → List Row → PublicReply
  public_get r epic xs = elim (public_period_gate epic) [
    | none ↦ failed
    | some gate ↦ elim (run_data_query engine (public_get_query is_valid r gate) none xs) [
      | none ↦ failed
      | some a ↦
          public_reply r.comment_id r.wants_count (total_items a)
            (map (redact_comment (sanitized is_valid r)) (results a))
    ]
  ]

  unfoldable pub public_head : CommentRequest → Option Epic → List Row → HeadReply
  public_head r epic xs = elim (public_period_gate epic) [
    | none ↦ HeadReply.failed
    | some gate ↦ elim (run_data_query engine (public_head_query is_valid r gate) none xs) [
      | none ↦ HeadReply.failed
      | some a ↦ public_head_reply r a
    ]
  ]

  unfoldable pub protected_head :
      List String → Option String → Option (List String) → Option Bool → List Row → HeadReply
  protected_head scopes comment_id in_period deleted xs =
      elim (run_data_query engine
        (protected_head_query is_valid scopes comment_id in_period deleted) none xs) [
          | none ↦ HeadReply.failed
          | some a ↦ protected_head_reply comment_id a
        ]

  -- The reply to the rows found, which reads the next pending comment if it is asked for.
  abbrev staff_reply : CommentRequest → StatusFilter → List Row → Answer → StaffReply
  staff_reply r f xs a =
      if f.populate_next
      then elim (first_of a) [
        | none ↦ bad_request
        | some first ↦ elim (run_data_query engine (next_comment_query r.roles first) none xs) [
          | none ↦ bad_request
          | some next ↦ StaffReply.sent a (some (next_of next))
        ]
      ]
      else StaffReply.sent a none

  unfoldable pub protected_get :
      CommentRequest → Option String → StatusFilter → List Row → StaffReply
  protected_get r period f xs =
      if valid_if_set is_valid r.comment_id && valid_if_set is_valid period
      then elim (run_data_query engine (protected_get_query r period f) none xs) [
        | none ↦ bad_request
        | some a ↦ staff_reply r f xs a
      ]
      else bad_request
