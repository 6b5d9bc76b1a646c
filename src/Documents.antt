-- ===== src/Documents.antt =====
-- The documents of projects and the requests that change them: protectedPostStored,
-- protectedPost, protectedPublish, protectedUnPublish, protectedPut, protectedDelete, featureDocument and
-- unfeatureDocument of api/controllers/document.js, with api/helpers/documentPublish.js and publish
-- and unPublish of api/helpers/actions.js. The collection is the list of its documents, the projects
-- are their ids. Which saves go through and what the object storage says are arguments; a parameter
-- that is missing or falsy is none.
pub mod Handlers
pub mod Uploads
pub mod Creation
pub mod Changes
pub mod Kept
pub mod Limits
pub mod Access
use eagle_api.Prelude.{
  given, or_else, ◌&&◌, ◌+◌, ◌++◌, ◌===◌, ◌∷◌, ◌||◌, Bool, List, Option, String, [], any, false,
  filter, if◌then◌else◌, includes, is_name, length, ltb, none, not, some, true, ℕ,
}

-- The fields that a PUT may set, each a value of `V`, the ids among them as texts.
pub record Fields (Content : Type 0) : Type 0 where
  pub display_name : Content
  pub milestone : Option String
  pub kind : Option String
  pub author_type : Option String
  pub phase : Option String
  pub date_uploaded : Content
  pub date_posted : Content
  pub description : Content
  pub keywords : Content
  pub legislation : Content
  pub sort_order : Content

pub record Document (Content : Type 0) : Type 0 where
  pub id : String
  pub project : String
  pub internal_url : String
  pub read : List String
  pub eao_status : Option String
  pub is_featured : Bool
  pub fields : Fields Content

-- The parameters of a PUT.
pub record DocumentEdit (Content : Type 0) : Type 0 where
  pub display_name : Option Content
  pub milestone : Option String
  pub kind : Option String
  pub author_type : Option String
  pub phase : Option String
  pub date_uploaded : Option Content
  pub date_posted : Option Content
  pub description : Option Content
  pub keywords : Option Content
  pub legislation : Option Content
  pub sort_order : Option Content
  pub sent_status : Option String

pub data DocumentReply : Type 0 where
  bad_request not_found denied limit_reached saved : DocumentReply
  conflict unreachable failed : DocumentReply

abbrev pub max_feature_docs : ℕ
max_feature_docs = 5

abbrev pub is_authorized : List String → Bool
is_authorized roles = includes roles "sysadmin" || includes roles "staff"

abbrev pub is_valid_if_given : (String → Bool) → Option String → Bool
is_valid_if_given is_valid none = true
is_valid_if_given is_valid (some id) = is_valid id

-- The readers that go with a sent status.
abbrev pub readers_of : Option String → List String → List String
readers_of status read =
    if is_name status "Published"
    then "public" ∷ "staff" ∷ "sysadmin" ∷ []
    else if is_name status "Rejected"
    then "staff" ∷ "sysadmin" ∷ []
    else read

abbrev pub DocumentStore : Type 0 → Type 0
DocumentStore Content = List (Document Content)

module _ {Content : Type 0} where
  unfoldable pub find_document : String → DocumentStore Content → Option (Document Content)
  find_document id [] = none
  find_document id (d ∷ ds) =
      let later = find_document id ds in if d.id === id then some d else later

  -- The first document with the id, changed.
  unfoldable pub change_document :
      String → (Document Content → Document Content) → DocumentStore Content → DocumentStore Content
  change_document id change [] = []
  change_document id change (d ∷ ds) =
      let later = change_document id change ds in if d.id === id then change d ∷ ds else d ∷ later

  unfoldable pub remove_document : String → DocumentStore Content → DocumentStore Content
  remove_document id [] = []
  remove_document id (d ∷ ds) =
      let later = remove_document id ds in if d.id === id then ds else d ∷ later

  abbrev pub is_public : Document Content → Bool
  is_public d = includes d.read "public"

  -- `documentPublish.publish`: the status is saved first, and then the readers.
  unfoldable pub publish_document : Bool × Bool → Document Content → Document Content × Bool
  publish_document saves d =
      let marked = record d { eao_status = some "Published" } in
      if not saves.0
      then (d, false)
      else if is_public d
      then (marked, true)
      else if saves.1
      then (record marked { read = d.read ++ "public" ∷ [] }, true)
      else (marked, false)

  unfoldable pub unpublish_document : Bool × Bool → Document Content → Document Content × Bool
  unpublish_document saves d =
      let marked = record d { eao_status = some "Rejected" } in
      if not saves.0
      then (d, false)
      else if not (is_public d)
      then (marked, true)
      else if saves.1
      then (record marked { read = filter (λ role. not (role === "public")) d.read }, true)
      else (marked, false)

  unfoldable pub edit_document : DocumentEdit Content → Document Content → Document Content
  edit_document e d =
      let f = d.fields in
      record d {
        fields = record {
          display_name = given e.display_name f.display_name;
          milestone = or_else e.milestone f.milestone;
          kind = or_else e.kind f.kind;
          author_type = or_else e.author_type f.author_type;
          phase = or_else e.phase f.phase;
          date_uploaded = given e.date_uploaded f.date_uploaded;
          date_posted = given e.date_posted f.date_posted;
          description = given e.description f.description;
          keywords = given e.keywords f.keywords;
          legislation = given e.legislation f.legislation;
          sort_order = given e.sort_order f.sort_order;
        };
        eao_status = or_else e.sent_status d.eao_status;
        read = readers_of e.sent_status d.read;
      }

  abbrev pub feature : Bool → Document Content → Document Content
  feature is_featured d = record d { is_featured = is_featured }

  -- `countDocuments({ project, isFeatured: true })`.
  unfoldable pub count_featured : String → DocumentStore Content → ℕ
  count_featured p ds = length (filter (λ d. (d.project === p) && d.is_featured) ds)
