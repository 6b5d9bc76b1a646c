-- ===== src/Periods/Writes.antt =====
-- Comment periods and how the writes of api/controllers/commentperiod.js change them, with publish
-- and unPublish of api/helpers/actions.js for a schema that has `isPublished`.
use eagle_api.Prelude.{
  ◌++◌, ◌===◌, ◌∷◌, ◌||◌, Bool, List, Option, String, [], any, false, filter, if◌then◌else◌,
  includes, none, not, some, true, ℕ,
}

-- A stored period; `content` stands for the fields that are copied as they are sent.
pub record Period (Content : Type 0) : Type 0 where
  pub id : String
  pub project : String
  pub is_published : Option Bool
  pub read : List String
  pub comment_id_count : ℕ
  pub content : Content

-- The body of a POST or a PUT. An id that is absent is none: ObjectId makes a new one of it.
pub record PeriodBody (Content : Type 0) : Type 0 where
  pub sent_id : Option String
  pub sent_project : Option String
  pub sent_milestone : Option String
  pub sent_is_published : Option Bool
  pub sent_read : Option (List String)
  pub sent_content : Content

abbrev pub is_flagged : Option Bool → Bool
is_flagged none = false
is_flagged (some b) = b

abbrev pub is_unset_or_true : Option Bool → Bool
is_unset_or_true none = true
is_unset_or_true (some b) = b

-- `thrown` is an error outside the handler's try.
pub data WriteReply : Type 0 where
  bad_request thrown create_id_taken saved : WriteReply
  updated : ℕ → WriteReply

abbrev pub makes_id : (String → Bool) → Option String → Bool
makes_id is_valid none = true
makes_id is_valid (some id) = is_valid id

abbrev pub made_id : (String → String) → String → Option String → String
made_id object_id generated none = generated
made_id object_id generated (some id) = object_id id

abbrev pub private_readers : List String
private_readers = "staff" ∷ "sysadmin" ∷ []

module _ {Content : Type 0} where
  -- The flag of the body, or by its `read`.
  unfoldable pub wants_published : PeriodBody Content → Bool
  wants_published b = elim b.sent_is_published [
    | some flag ↦ flag
    | none ↦ elim b.sent_read [ none ↦ false | some roles ↦ includes roles "public" ]
  ]

  -- `publish`, and whether it modified the record.
  unfoldable pub publish_period : Period Content → Period Content × Bool
  publish_period p =
      let is_listed : Bool = includes p.read "public" in
      (
        record p {
          is_published = some true;
          read = if is_listed then p.read else p.read ++ "public" ∷ [];
        },
        not (is_flagged p.is_published) || not is_listed,
      )

  unfoldable pub unpublish_period : Period Content → Period Content × Bool
  unpublish_period p =
      let is_listed : Bool = includes p.read "public" in
      (
        record p {
          is_published = some false;
          read = if is_listed then filter (λ role. not (role === "public")) p.read else p.read;
        },
        is_unset_or_true p.is_published || is_listed,
      )

  -- The first period with the id, changed; none where there is no such period.
  unfoldable pub change_one :
      String
      → (Period Content → Period Content)
      → List (Period Content)
      → Option (List (Period Content))
  change_one id change [] = none
  change_one id change (p ∷ ps) =
      let later = change_one id change ps in
      if p.id === id
      then some (change p ∷ ps)
      else elim later [ none ↦ none | some qs ↦ some (p ∷ qs) ]

  unfoldable pub find_one : String → List (Period Content) → Option (Period Content)
  find_one id [] = none
  find_one id (p ∷ ps) = let later = find_one id ps in if p.id === id then some p else later

  unfoldable pub new_period : String → String → PeriodBody Content → Period Content
  unfolding wants_published
  new_period id project b = record {
    id = id;
    project = project;
    is_published = some (wants_published b);
    read = if wants_published b then private_readers ++ "public" ∷ [] else private_readers;
    comment_id_count = 0;
    content = b.sent_content;
  }

  abbrev pub has_period_id : String → Period Content → Bool
  has_period_id id p = p.id === id

  unfoldable pub save_period :
      Period Content → List (Period Content) → List (Period Content) × WriteReply
  save_period p ps = if any (has_period_id p.id) ps then (ps, create_id_taken) else (p ∷ ps, saved)

  unfoldable pub put_change : PeriodBody Content → Period Content → Period Content
  unfolding wants_published
  put_change b p = record p {
    is_published = some (wants_published b);
    read = if wants_published b then "public" ∷ private_readers else private_readers;
    content = b.sent_content;
  }

  -- The first period with the id, taken out.
  unfoldable pub remove_one : String → List (Period Content) → List (Period Content)
  remove_one id [] = []
  remove_one id (p ∷ ps) = let later = remove_one id ps in if p.id === id then ps else p ∷ later

  -- The reply of an update, with how many periods matched.
  abbrev pub updated_or :
      List (Period Content) → Option (List (Period Content)) → List (Period Content) × WriteReply
  updated_or ps none = (ps, updated 0)
  updated_or ps (some qs) = (qs, updated 1)

  -- The reply of a publication: a missing period is an error.
  abbrev pub saved_or :
      List (Period Content) → Option (List (Period Content)) → List (Period Content) × WriteReply
  saved_or ps none = (ps, bad_request)
  saved_or ps (some qs) = (qs, saved)
