-- ===== src/Documents/Uploads.antt =====
-- The upload of a document (protectedPost of api/controllers/document.js). What uploadError of
-- api/helpers/updateImages.js says of an image, the virus scan, the path that the storage gives the
-- file and the result of the save are arguments. A storage that is mocked is left out.
use eagle_api.Prelude.{
  ◌&&◌, ◌*◌, ◌++◌, ◌∷◌, ◌||◌, Bool, List, Option, String, [], any, false, if◌then◌else◌, is_name,
  is_set, ltb, none, not, some, ℕ,
}
use eagle_api.DataQuery.Ids.{is_object_id_string}
use eagle_api.UpdateImages.{image_source}
use eagle_api.Documents.{Document, DocumentReply, DocumentStore, Fields, bad_request, failed, saved}

-- The parameters; `refs` is `_comment` and the nullable ids as optionalId leaves them. A project or a
-- status that is the empty text is `none`, as the code tests it.
pub record UploadBody (Content : Type 0) : Type 0 where
  pub project : Option String
  pub refs : List (Option String)
  pub size : ℕ
  pub source : Option String
  pub sent_status : Option String
  pub publishes : Bool
  pub fields : Fields Content

-- What the save comes to: it may report a failure after the write landed.
pub data UploadSave : Type 0 where
  stored stored_despite_error not_stored : UploadSave

-- What an upload meets: whether uploadError finds fault with the file, whether the scan passes, and
-- the path of the file, none where the storage throws.
pub record Circumstances : Type 0 where
  pub is_refused_image : Bool
  pub passes_scan : Bool
  pub path : Option String
  pub save : UploadSave

abbrev pub max_file_size : ℕ
max_file_size = 3 * 1024 * 1024 * 1024

abbrev pub is_bad_ref : Option String → Bool
is_bad_ref none = false
is_bad_ref (some id) = not (is_object_id_string id)

module _ {Content : Type 0} where
  abbrev pub is_image : UploadBody Content → Bool
  is_image b = is_name b.source image_source

  abbrev pub uploaded_readers : UploadBody Content → List String
  uploaded_readers b =
      ("sysadmin" ∷ "staff" ∷ [])
      ++ (if not (is_image b) && is_name b.sent_status "Published" then "public" ∷ [] else [])
      ++ (if not (is_image b) && b.publishes then "public" ∷ [] else [])

  unfoldable pub uploaded_document :
      String → String → String → UploadBody Content → Document Content
  uploaded_document id project path b = record {
    id = id;
    project = project;
    internal_url = path;
    read = uploaded_readers b;
    eao_status = if is_image b then none else b.sent_status;
    is_featured = false;
    fields = b.fields;
  }

  -- Where the document is not stored, its file is removed again.
  abbrev pub save_upload :
      UploadSave → Document Content → DocumentStore Content → DocumentStore Content × DocumentReply
  save_upload stored d ds = (d ∷ ds, saved)
  save_upload stored_despite_error d ds = (d ∷ ds, failed)
  save_upload not_stored d ds = (ds, failed)

  -- From the storage on; without a project there is no path to store the file at.
  abbrev pub put_file :
      (String → String)
      → UploadSave
      → String
      → UploadBody Content
      → DocumentStore Content
      → Option String
      → Option String
      → DocumentStore Content × DocumentReply
  put_file object_id save id b ds none path = (ds, failed)
  put_file object_id save id b ds (some project) none = (ds, failed)
  put_file object_id save id b ds (some project) (some path) =
      save_upload save (uploaded_document id (object_id project) path b) ds

  -- `id` is the id that Mongoose generates.
  unfoldable pub protected_post :
      (String → String)
      → Circumstances
      → String
      → UploadBody Content
      → DocumentStore Content
      → DocumentStore Content × DocumentReply
  protected_post object_id c id b ds =
      if any is_bad_ref (b.project ∷ b.refs) || ltb max_file_size b.size
      then (ds, bad_request)
      else if is_image b && (not (is_set b.project) || c.is_refused_image)
      then (ds, bad_request)
      else if not c.passes_scan
      then (ds, bad_request)
      else put_file object_id c.save id b ds b.project c.path
