-- ===== src/Comments/Creating.antt =====
-- How a comment is created: protectedPost and getNextCommentIdCount of api/controllers/comment.js.
-- `is_valid` is ObjectId.isValid, `object_id` the constructor ObjectId, to the id's hex string.
use eagle_api.Prelude.{
  ◌&&◌, ◌+◌, ◌++◌, ◌===◌, ◌==◌, ◌∷◌, ◌||◌, Bool, List, Option, String, [], all, any, false,
  if◌then◌else◌, includes, is_name, leb, ltb, max, none, not, some, true, ℕ,
}
use eagle_api.DataQuery.Ids.{apply_create_id, is_object_id_string}
use eagle_api.Comments.Status.{Comment, set_permissions_from_eao_status}

abbrev pub max_comment_id : ℕ
max_comment_id = 1000000000

-- `commentId` of the body: absent or null, not a non-negative safe integer, or one.
pub data SentNumber : Type 0 where
  unsent malformed : SentNumber
  number : ℕ → SentNumber

abbrev pub is_valid_number : SentNumber → Bool
is_valid_number SentNumber.unsent = true
is_valid_number SentNumber.malformed = false
is_valid_number (SentNumber.number n) = ltb 0 n && leb n max_comment_id

pub record PostBody (Content : Type 0) : Type 0 where
  pub sent_id : Option String
  pub sent_period : Option String
  pub sent_number : SentNumber
  pub valued_components : List String
  pub documents : List String
  pub sent_status : Option String
  pub sent_date_posted : Option ℕ
  pub sent_date_updated : Option ℕ
  pub sent_content : Content

-- The counter `commentIdCount` of each period, the comments, and the ids of the other records of the
-- collection.
pub record Store (Content : Type 0) : Type 0 where
  pub periods : List (String × ℕ)
  pub comments : List (Comment Content)
  pub other_ids : List String

abbrev pub count_of : String → List (String × ℕ) → Option ℕ
count_of p [] = none
count_of p ((q, n) ∷ periods) = let later = count_of p periods in if q === p then some n else later

-- `$max` of the sent number, or `$inc` where none is sent or it is 0.
abbrev pub raise : SentNumber → ℕ → ℕ
raise (SentNumber.number n) count = if n == 0 then count + 1 else max count n
raise _ count = count + 1

unfoldable pub raised : String → SentNumber → List (String × ℕ) → List (String × ℕ)
raised p sent [] = []
raised p sent ((q, n) ∷ periods) =
    let later = raised p sent periods in
    if q === p then (q, raise sent n) ∷ periods else (q, n) ∷ later

-- `sentCommentId || periodUpdated.commentIdCount`.
abbrev pub number_from : SentNumber → ℕ → ℕ
number_from (SentNumber.number n) count = if n == 0 then count else n
number_from _ count = count

-- The number of the comment, of the counter after the update; none where no period has the id.
unfoldable pub get_next_comment_id_count :
    String → SentNumber → List (String × ℕ) → List (String × ℕ) × Option ℕ
unfolding raised
get_next_comment_id_count p sent periods = elim (count_of p periods) [
  | none ↦ (periods, none)
  | some n ↦ (raised p sent periods, some (number_from sent (raise sent n)))
]

module _ {Content : Type 0} where
  abbrev pub has_number : String → ℕ → Comment Content → Bool
  has_number p n c = c.period === p && (c.number == n)

  -- `Comment.exists` of a sent number.
  abbrev pub is_taken : String → SentNumber → List (Comment Content) → Bool
  is_taken p (SentNumber.number n) comments = any (has_number p n) comments
  is_taken p _ comments = false

  abbrev pub has_id : String → Comment Content → Bool
  has_id id c = c.id === id

pub data PostReply (Content : Type 0) : Type 0 where
  bad_request period_not_found invalid_comment_id invalid_create_id : PostReply Content
  comment_id_taken create_id_taken not_saved : PostReply Content
  created : Comment Content → PostReply Content

module _ {Content : Type 0} where
  -- The new comment, before and after its permissions.
  unfoldable pub new_comment : String → String → ℕ → PostBody Content → Comment Content
  unfolding set_permissions_from_eao_status
  new_comment id period n b = set_permissions_from_eao_status b.sent_status record {
    id = id;
    period = period;
    number = n;
    eao_status = b.sent_status;
    read = [];
    date_posted = if is_name b.sent_status "Published" then b.sent_date_posted else none;
    date_updated = b.sent_date_updated;
    content = b.sent_content;
  }

  -- The save refuses an id that a record has; it may also fail otherwise, `goes_through` being false.
  unfoldable pub save_comment :
      Bool → Comment Content → Store Content → Store Content × PostReply Content
  save_comment goes_through c s =
      if not goes_through
      then (s, PostReply.not_saved)
      else if any (has_id c.id) s.comments || includes s.other_ids c.id
      then (s, PostReply.create_id_taken)
      else (record s { comments = c ∷ s.comments }, PostReply.created c)

  -- With the number: the counter is kept as it was raised, whatever the save does.
  unfoldable pub post_numbered :
      Bool → String → String → PostBody Content → Store Content → Store Content × PostReply Content
  unfolding get_next_comment_id_count save_comment new_comment
  post_numbered goes_through id period b s =
      let next = get_next_comment_id_count period b.sent_number s.periods in
      elim next.1 [
        | none ↦ (record s { periods = next.0 }, PostReply.period_not_found)
        | some n ↦
            save_comment goes_through (new_comment id period n b) (record s { periods = next.0 })
      ]

  -- With the id that the record gets.
  unfoldable pub post_identified :
      Bool → String → String → PostBody Content → Store Content → Store Content × PostReply Content
  unfolding post_numbered
  post_identified goes_through id period b s =
      if is_taken period b.sent_number s.comments
      then (s, PostReply.comment_id_taken)
      else post_numbered goes_through id period b s

  -- `generated` is the id of a comment whose body has none.
  unfoldable pub protected_post :
      Bool
      → (String → Bool)
      → (String → String)
      → String
      → PostBody Content
      → Store Content
      → Store Content × PostReply Content
  unfolding post_identified
  protected_post goes_through is_valid object_id generated b s =
      if not (all is_valid (b.valued_components ++ b.documents))
      then (s, PostReply.bad_request)
      else elim b.sent_period [
        | none ↦ (s, PostReply.period_not_found)
        | some p ↦
            if not (is_object_id_string p)
            then (s, PostReply.period_not_found)
            else if not (is_valid_number b.sent_number)
            then (s, PostReply.invalid_comment_id)
            else elim (apply_create_id object_id generated b.sent_id) [
              | none ↦ (s, PostReply.invalid_create_id)
              | some id ↦ post_identified goes_through id (object_id p) b s
            ]
      ]
