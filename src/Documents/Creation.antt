-- ===== src/Documents/Creation.antt =====
-- A document whose file is in the bucket already (protectedPostStored of
-- api/controllers/document.js), and the requests for documents in a row.
use eagle_api.Prelude.{
  ◌&&◌, ◌===◌, ◌∷◌, ◌||◌, Bool, List, Option, String, [], any, false, if◌then◌else◌, includes, none,
  not, some,
}
use eagle_api.UpdateRules.{is_blank_name}
use eagle_api.DataQuery.Ids.{apply_create_id, is_object_id_string}
use eagle_api.Documents.{
  Document, DocumentEdit, DocumentReply, DocumentStore, Fields, bad_request, conflict, failed,
  saved, unreachable,
}
use eagle_api.Documents.Uploads.{Circumstances, UploadBody, is_bad_ref, protected_post}
use eagle_api.Documents.Handlers.{
  feature_document, protected_delete, protected_publish, protected_put, protected_unpublish,
  unfeature_document,
}

-- The body; a text that is no string is none. `refs` are `_comment` and the nullable ids as
-- optionalId leaves them.
pub record StoredBody (Content : Type 0) : Type 0 where
  pub sent_id : Option String
  pub project : Option String
  pub internal_url : Option String
  pub file_name : Option String
  pub internal_ext : Option String
  pub refs : List (Option String)
  pub fields : Fields Content

-- What the storage says of the object.
pub data Stat : Type 0 where
  there missing_object no_answer : Stat

-- What the save comes to.
pub data SaveResult : Type 0 where
  stored duplicate_key invalid lost : SaveResult

abbrev pub is_id : Option String → Bool
is_id none = false
is_id (some id) = is_object_id_string id

abbrev pub or_blank : Option String → String
or_blank none = ""
or_blank (some s) = s

module _ {Content : Type 0} where
  abbrev pub has_key : String → String → Document Content → Bool
  has_key project url d = (d.project === project) && (d.internal_url === url)

  abbrev pub is_complete : StoredBody Content → Bool
  is_complete b =
      not (is_blank_name b.internal_url)
      && not (is_blank_name b.file_name)
      && not (is_blank_name b.internal_ext)

  unfoldable pub stored_document : String → String → StoredBody Content → Document Content
  stored_document id project b = record {
    id = id;
    project = project;
    internal_url = or_blank b.internal_url;
    read = "sysadmin" ∷ "staff" ∷ [];
    eao_status = none;
    is_featured = false;
    fields = b.fields;
  }

  abbrev pub save_document :
      SaveResult → Document Content → DocumentStore Content → DocumentStore Content × DocumentReply
  save_document stored d ds = (d ∷ ds, saved)
  save_document duplicate_key d ds = (ds, conflict)
  save_document invalid d ds = (ds, bad_request)
  save_document lost d ds = (ds, failed)

  abbrev pub by_stat :
      Stat
      → SaveResult
      → Document Content
      → DocumentStore Content
      → DocumentStore Content × DocumentReply
  by_stat there result d ds = save_document result d ds
  by_stat missing_object result d ds = (ds, bad_request)
  by_stat no_answer result d ds = (ds, unreachable)

  abbrev pub identified :
      Option String
      → (String → DocumentStore Content × DocumentReply)
      → DocumentStore Content
      → DocumentStore Content × DocumentReply
  identified none act ds = (ds, bad_request)
  identified (some id) act ds = act id

  -- The project's id is cast for the queries and for the row.
  unfoldable pub protected_post_stored :
      (String → String)
      → List String
      → Stat
      → SaveResult
      → StoredBody Content
      → DocumentStore Content
      → DocumentStore Content × DocumentReply
  protected_post_stored object_id projects stat result b ds =
      identified (if is_blank_name b.sent_id then none else apply_create_id object_id "" b.sent_id)
        (λ id.
          if not (is_id b.project) || not (is_complete b) || any is_bad_ref b.refs
          then (ds, bad_request)
          else if not (includes projects (object_id (or_blank b.project)))
          then (ds, bad_request)
          else if any (has_key (object_id (or_blank b.project)) (or_blank b.internal_url)) ds
          then (ds, conflict)
          else by_stat stat result (stored_document id (object_id (or_blank b.project)) b) ds)
        ds

-- A request with what it sends; the Bools are which saves go through.
pub data DocumentRequest (Content : Type 0) : Type 0 where
  upload : Circumstances → String → UploadBody Content → DocumentRequest Content
  post_stored : Stat → SaveResult → StoredBody Content → DocumentRequest Content
  publish unpublish : Bool × Bool → String → DocumentRequest Content
  put : Bool → String → DocumentEdit Content → DocumentRequest Content
  delete feature unfeature : Bool → String → DocumentRequest Content

module _ {Content : Type 0} (is_valid : String → Bool) (object_id : String → String) where
  -- A request of a caller with these roles.
  unfoldable pub serve :
      List String
      → List String
      → DocumentRequest Content
      → DocumentStore Content
      → DocumentStore Content × DocumentReply
  serve projects roles (upload c id b) ds = protected_post object_id c id b ds
  serve projects roles (post_stored stat result b) ds =
      protected_post_stored object_id projects stat result b ds
  serve projects roles (publish saves id) ds = protected_publish is_valid roles saves id ds
  serve projects roles (unpublish saves id) ds = protected_unpublish is_valid roles saves id ds
  serve projects roles (put goes_through id e) ds =
      protected_put is_valid roles goes_through id e ds
  serve projects roles (delete file_removed id) ds =
      protected_delete is_valid roles file_removed id ds
  serve projects roles (feature goes_through id) ds =
      feature_document is_valid roles goes_through projects id ds
  serve projects roles (unfeature goes_through id) ds =
      unfeature_document is_valid roles goes_through id ds

  -- The requests one after the other, each with the projects that are stored and its caller's roles.
  unfoldable pub serve_all :
      List (List String × List String × DocumentRequest Content)
      → DocumentStore Content
      → DocumentStore Content
  unfolding serve
  serve_all [] ds = ds
  serve_all ((projects, roles, r) ∷ rs) ds = serve_all rs (serve projects roles r ds).0
