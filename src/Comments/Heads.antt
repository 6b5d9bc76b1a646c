-- ===== src/Comments/Heads.antt =====
-- The counts that the HEAD requests of api/controllers/comment.js reply.
use eagle_api.Prelude.{
  ◌≡◌, ◌∙◌, Bool, List, Option, String, [], ap, filter, length, map, none, refl, some, ℕ,
}
use eagle_api.Mongo.{Mongo, Row}
use eagle_api.ParentRead.{parent_read_match}
use eagle_api.DataQuery.{front_stages, projection, shape_for}
use eagle_api.DataQuery.Engine.{
  Engine, is_readable, page, restrict, run_data_query, unreadable_parents,
}
use eagle_api.DataQuery.Engine.Readable.{aggregations-answer}
use eagle_api.DataQuery.Engine.Plain.{length-filter-restrict}
use eagle_api.Comments.{protected_head_query}
use eagle_api.Comments.Replies.{HeadReply, protected_head_reply}
use eagle_api.Comments.Handlers.{protected_head}

module _ {mongo : Mongo} (engine : Engine mongo) where
  protected_head_reply-page :
      (comment_id : Option String) (n : ℕ) (xs : List Row)
      → protected_head_reply comment_id (page n xs) ≡ HeadReply.ok n
  unfolding protected_head_reply
  protected_head_reply-page none n xs = refl
  protected_head_reply-page (some id) n xs = refl

  -- protectedHead replies 200 to every request, also for the id of no comment, with the number of
  -- the comments that match its conditions and carry one of the route's scopes in `read`.
  pub protected_head-ok :
      (is_valid : String → Bool) (scopes : List String) (comment_id : Option String)
      (in_period : Option (List String)) (deleted : Option Bool) (xs : List Row)
      → let q = protected_head_query is_valid scopes comment_id in_period deleted in
        protected_head engine is_valid scopes comment_id in_period deleted xs
        ≡ HeadReply.ok (length (filter (is_readable scopes) (filter (mongo.matches q.query) xs)))
  unfolding protected_head protected_head_query run_data_query unreadable_parents front_stages
      shape_for parent_read_match
  protected_head-ok is_valid scopes comment_id in_period deleted xs =
      let q = protected_head_query is_valid scopes comment_id in_period deleted in
      let found : List Row = filter (mongo.matches q.query) xs in
      ap (protected_head_reply comment_id) (aggregations-answer engine q [] xs refl refl)
      ∙ protected_head_reply-page comment_id _ _
      ∙ ap (λ ys. HeadReply.ok (length (filter (is_readable scopes) ys)))
          (engine.run-project (projection q) _
            ∙ ap (map (restrict (projection q))) (engine.run-match_query q.query xs))
      ∙ ap HeadReply.ok (length-filter-restrict engine scopes (projection q) found refl)
