-- ===== src/Comments/Public.antt =====
-- What publicGet of api/controllers/comment.js lets the public see.
use eagle_api.Prelude.{
  inl, inr, ◌&&◌, ◌++◌, ◌≡◌, ◌⊎◌, ◌∙◌, ◌∷◌, Bool, List, Memᴰ, Mem-filter, Mem-unmap, Option, String,
  [], any, ap, arith, filter, false, if◌then◌else◌, includes, map, none, not, refl, some, subst,
  sym, true, ℕ,
}
use eagle_api.Mongo.{Field, Mongo, Op, Query, Row, Value, at, equals}
use eagle_api.ParentRead.{parent_read_match, Epic, readable_period_ids, readable_period_match}
use eagle_api.ParentRead.Gates.{hides_comments, is_period_row, readable_period_match-lets_through}
use eagle_api.DataQuery.{default_fields, front_stages, projection, shape_for}
use eagle_api.DataQuery.Params.{with_schema}
use eagle_api.DataQuery.Engine.{Engine, is_readable, restrict, run_data_query, unreadable_parents}
use eagle_api.DataQuery.Engine.Readable.{gathered, listing, window}
use eagle_api.DataQuery.Engine.Pages.{answered-run_data_query}
use eagle_api.DataQuery.Engine.Plain.{Mem-window, projected_lem}
use eagle_api.Comments.{
  CommentRequest, comment_public_fields, is_known_author, public_conditions, public_get_query,
  public_roles, redact_comment, sanitized,
}
use eagle_api.Comments.Replies.{public_reply, reply_rows}
use eagle_api.Comments.Handlers.{public_get, public_period_gate}
use eagle_api.Comments.View.{
  redact_comment-author, redact_comment-path, redact_comment-public, shown_fields,
}

reply_rows-public_reply :
    (comment_id : Option String) (wants_count : Bool) (total : ℕ) (found : List Row)
    → reply_rows (public_reply comment_id wants_count total found) ≡ found
unfolding public_reply
reply_rows-public_reply (some id) wants_count total found = refl
reply_rows-public_reply none true total found = refl
reply_rows-public_reply none false total found = refl

-- `shown` is what the public may see of `comment`.
abbrev pub IsPublicView : List String → Row → Row → Type 0
IsPublicView fields comment shown =
    ((p : String) → (shown p ≡ comment p) ⊎ (shown p ≡ Field.absent))
    × ((p : String)
        → includes (default_fields ++ comment_public_fields) p ≡ false
        → shown p ≡ Field.absent)
    × (shown "author" ≡ (
        if includes fields "author" && is_known_author (comment "isAnonymous")
        then comment "author"
        else Field.absent))

module _ (mongo : Mongo) where
  -- The period of a comment is one that the public may read, in a project that it may read.
  abbrev pub has_readable_period : Epic → Row → Bool
  has_readable_period epic comment =
      any
        (λ e.
          (is_period_row mongo e.1 && not (hides_comments mongo (some public_roles) epic e.1))
          && equals (comment "period") (Value.str e.0))
        epic

module _ {mongo : Mongo} (engine : Engine mongo) (is_valid : String → Bool) where
  -- The comments that pass the gate and the query.
  abbrev candidates : CommentRequest → Epic → List Row → List Row
  candidates r epic xs =
      filter (mongo.matches (with_schema "Comment" (public_conditions is_valid r))) (
        filter
          (mongo.matches
            (at "period" (Op.one_of (readable_period_ids mongo (some public_roles) epic))))
          xs)

  abbrev gate_of : Epic → List Query
  gate_of epic = at "period" (Op.one_of (readable_period_ids mongo (some public_roles) epic)) ∷ []

  gathered-public_get :
      (r : CommentRequest) (epic : Epic) (xs : List Row)
      → let q = public_get_query is_valid r (gate_of epic) in
        gathered engine q [] xs ≡ map (restrict (projection q)) (candidates r epic xs)
  unfolding public_get_query front_stages shape_for parent_read_match
  gathered-public_get r epic xs =
      let q = public_get_query is_valid r (gate_of epic) in
      engine.run-project (projection q) _
      ∙ ap (map (restrict (projection q))) (
          engine.run-match_query q.query _
          ∙ ap (filter (mongo.matches q.query)) (
              engine.run-match_query
                (at "period" (Op.one_of (readable_period_ids mongo (some public_roles) epic))) xs))

  reply_rows-public_get :
      (r : CommentRequest) (epic : Epic) (xs : List Row)
      → let q = public_get_query is_valid r (gate_of epic) in
        reply_rows (public_get engine is_valid r (some epic) xs)
        ≡ map (redact_comment (sanitized is_valid r)) (window engine q (listing engine q [] xs))
  unfolding public_get run_data_query unreadable_parents public_period_gate readable_period_match
      public_get_query
  reply_rows-public_get r epic xs =
      let q = public_get_query is_valid r (gate_of epic) in
      reply_rows-public_reply r.comment_id r.wants_count _ _
      ∙ ap (map (redact_comment (sanitized is_valid r)))
          (answered-run_data_query engine q none xs [] refl refl refl)

  -- Each comment that publicGet shows is one of the collection's whose `read` holds "public" and whose period, and
  -- the period's project, the public may read. It shows the comment's own values, of the public fields alone, and
  -- the author exactly if it was asked for and the comment is marked as not anonymous.
  pub public_get-IsPublicView :
      (r : CommentRequest) (epic : Epic) (xs : List Row) (shown : Row)
      → Memᴰ shown (reply_rows (public_get engine is_valid r (some epic) xs))
      → (comment : Row) × Memᴰ comment xs
        × (is_readable public_roles comment ≡ true)
        × (has_readable_period mongo epic comment ≡ true)
        × IsPublicView (sanitized is_valid r) comment shown
  unfolding public_get_query readable_period_match
  public_get-IsPublicView r epic xs shown m =
      let q = public_get_query is_valid r (gate_of epic) in
      let fields = sanitized is_valid r in
      let (y, found, redacted) =
        Mem-unmap (redact_comment fields) _ shown
          (subst (Memᴰ shown) (reply_rows-public_get r epic xs) m) in
      let (comment, candidate, readable, shape) =
        Mem-window engine q [] xs (candidates r epic xs) y (gathered-public_get r epic xs) found in
      let gated = Mem-filter (mongo.matches q.query) _ comment candidate in
      let (stored, matched) =
        Mem-filter
          (mongo.matches
            (at "period" (Op.one_of (readable_period_ids mongo (some public_roles) epic))))
          xs comment gated.0 in
      let seen : ((p : String) → y p ≡ restrict (shown_fields fields) comment p) =
        λ p. projected_lem (shown_fields fields) comment y p shape in
      (
        comment,
        stored,
        readable,
        sym (readable_period_match-lets_through mongo (some public_roles) epic comment)
            ∙ ground (arith, matched),
        (
          (λ p. elim (redact_comment-path fields comment y p (seen p)) [
            | inl same ↦ inl (ap (λ s. s p) redacted ∙ same)
            | inr gone ↦ inr (ap (λ s. s p) redacted ∙ gone)
          ]),
          (λ p outside.
              ap (λ s. s p) redacted ∙ redact_comment-public r.fields comment y p (seen p) outside),
          ap (λ s. s "author") redacted ∙ redact_comment-author fields comment y seen,
        ),
      )
