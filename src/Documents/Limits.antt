-- ===== src/Documents/Limits.antt =====
-- The limit on featured documents and the keys of stored files over all requests
-- (api/controllers/document.js).
use eagle_api.Prelude.{
  ◌===◌, ◌&&◌, ltb, is_set, ◌≡◌, ◌∷◌, ◌||◌, Bool, List, Option, String, [], any, arith, false,
  if-pick, if-split, if◌then◌else◌, includes, none, not, refl, some,
}
use eagle_api.UpdateRules.{is_blank_name}
use eagle_api.DataQuery.Ids.{apply_create_id}
use eagle_api.Documents.{
  Document, DocumentReply, DocumentStore, bad_request, count_featured, edit_document, failed,
  feature, publish_document, remove_document, saved, unpublish_document,
}
use eagle_api.Documents.Handlers.{
  has_valid_ids, protected_delete, protected_publish, protected_put, protected_unpublish,
  unfeature_document,
}
use eagle_api.Documents.Creation.{
  DocumentRequest, SaveResult, Stat, StoredBody, by_stat, has_key, identified, is_complete, is_id,
  or_blank, protected_post_stored, serve, serve_all, stored_document,
}
use eagle_api.Documents.Uploads.{
  Circumstances, UploadBody, UploadSave, is_bad_ref, is_image, max_file_size, protected_post,
  put_file, uploaded_document,
}
use eagle_api.Documents.Changes.{IsOrderly, remove_document-IsOrderly}
use eagle_api.Documents.Kept.{
  Orderly, authorized-keeps, changed-IsOrderly, changed_if-IsOrderly, edit_document-keeps,
  feature_document-IsOrderly, publish_document-keeps, unpublish_document-keeps,
}

module _ {Content : Type 0} where
  stored_document-IsOrderly :
      (id project : String) (b : StoredBody Content) (ds : DocumentStore Content)
      → any (has_key project (or_blank b.internal_url)) ds ≡ false
      → IsOrderly ds
      → IsOrderly (stored_document id project b ∷ ds)
  unfolding stored_document count_featured
  stored_document-IsOrderly id project b ds fresh h = ((λ p. ground (arith, h.0 p)), (fresh, h.1))

  by_stat-IsOrderly :
      (stat : Stat) (result : SaveResult) (d : Document Content) (ds : DocumentStore Content)
      → IsOrderly ds
      → IsOrderly (d ∷ ds)
      → IsOrderly (by_stat stat result d ds).0
  by_stat-IsOrderly Stat.there SaveResult.stored d ds h k = k
  by_stat-IsOrderly Stat.there SaveResult.duplicate_key d ds h k = h
  by_stat-IsOrderly Stat.there SaveResult.invalid d ds h k = h
  by_stat-IsOrderly Stat.there SaveResult.lost d ds h k = h
  by_stat-IsOrderly Stat.missing_object result d ds h k = h
  by_stat-IsOrderly Stat.no_answer result d ds h k = h

  -- The path that the storage gives a file is one that no document points at: its name is random.
  abbrev pub IsFresh : DocumentRequest Content → DocumentStore Content → Type 0
  IsFresh (DocumentRequest.upload c id b) ds =
      (path : String) → c.path ≡ some path → any (λ d. d.internal_url === path) ds ≡ false
  IsFresh _ ds = Unit

  fresh_key :
      (project path : String) (ds : DocumentStore Content)
      → any (λ d. d.internal_url === path) ds ≡ false
      → any (has_key project path) ds ≡ false
  fresh_key project path [] h = refl
  fresh_key project path (d ∷ ds) h =
      ground (arith, h, fresh_key project path ds (ground (arith, h)))

  uploaded_document-IsOrderly :
      (id project path : String) (b : UploadBody Content) (ds : DocumentStore Content)
      → any (λ d. d.internal_url === path) ds ≡ false
      → IsOrderly ds
      → IsOrderly (uploaded_document id project path b ∷ ds)
  unfolding uploaded_document count_featured
  uploaded_document-IsOrderly id project path b ds fresh h =
      ((λ p. ground (arith, h.0 p)), (fresh_key project path ds fresh, h.1))

  put_file-IsOrderly :
      (object_id : String → String) (save : UploadSave) (id : String) (b : UploadBody Content)
      (ds : DocumentStore Content) (project path : Option String)
      → ((q : String) → path ≡ some q → any (λ d. d.internal_url === q) ds ≡ false)
      → IsOrderly ds
      → IsOrderly (put_file object_id save id b ds project path).0
  put_file-IsOrderly object_id save id b ds none path fresh h = h
  put_file-IsOrderly object_id save id b ds (some p) none fresh h = h
  put_file-IsOrderly object_id UploadSave.stored id b ds (some p) (some q) fresh h =
      uploaded_document-IsOrderly id (object_id p) q b ds (fresh q refl) h
  put_file-IsOrderly object_id UploadSave.stored_despite_error id b ds (some p) (some q) fresh h =
      uploaded_document-IsOrderly id (object_id p) q b ds (fresh q refl) h
  put_file-IsOrderly object_id UploadSave.not_stored id b ds (some p) (some q) fresh h = h

  upload-IsOrderly :
      (object_id : String → String) (c : Circumstances) (id : String) (b : UploadBody Content)
      (ds : DocumentStore Content)
      → IsFresh (DocumentRequest.upload c id b) ds
      → IsOrderly ds
      → IsOrderly (protected_post object_id c id b ds).0
  unfolding protected_post
  upload-IsOrderly object_id c id b ds fresh h =
      if-pick Orderly (any is_bad_ref (b.project ∷ b.refs) || ltb max_file_size b.size)
        {x = (ds, bad_request)} h
        (if-pick Orderly (is_image b && (not (is_set b.project) || c.is_refused_image))
          {x = (ds, bad_request)} h
          (if-pick Orderly (not c.passes_scan) {x = (ds, bad_request)} h
            (put_file-IsOrderly object_id c.save id b ds b.project c.path fresh h)))

  post-IsOrderly :
      (object_id : String → String) (projects : List String) (stat : Stat) (result : SaveResult)
      (b : StoredBody Content) (ds : DocumentStore Content)
      → IsOrderly ds
      → IsOrderly (protected_post_stored object_id projects stat result b ds).0
  unfolding protected_post_stored
  post-IsOrderly object_id projects stat result b ds h =
      with_id (if is_blank_name b.sent_id then none else apply_create_id object_id "" b.sent_id)
    where
      rest : String → DocumentStore Content × DocumentReply
      rest id =
          if not (is_id b.project) || not (is_complete b) || any is_bad_ref b.refs
          then (ds, bad_request)
          else if not (includes projects (object_id (or_blank b.project)))
          then (ds, bad_request)
          else if any (has_key (object_id (or_blank b.project)) (or_blank b.internal_url)) ds
          then (ds, DocumentReply.conflict)
          else by_stat stat result (stored_document id (object_id (or_blank b.project)) b) ds

      with_id : (o : Option String) → IsOrderly (identified o rest ds).0
      with_id none = h
      with_id (some id) =
          if-pick Orderly (not (is_id b.project) || not (is_complete b) || any is_bad_ref b.refs)
            {x = (ds, bad_request)} h
            (if-pick Orderly (not (includes projects (object_id (or_blank b.project))))
              {x = (ds, bad_request)} h
              (if-split Orderly
                (any (has_key (object_id (or_blank b.project)) (or_blank b.internal_url)) ds)
                {x = (ds, DocumentReply.conflict)} (λ taken. h)
                (λ fresh.
                  by_stat-IsOrderly stat result
                    (stored_document id (object_id (or_blank b.project)) b) ds h
                    (stored_document-IsOrderly id (object_id (or_blank b.project)) b ds fresh h))))

  module _ (is_valid : String → Bool) (object_id : String → String) where
    serve-IsOrderly :
        (projects roles : List String) (r : DocumentRequest Content) (ds : DocumentStore Content)
        → IsFresh r ds
        → IsOrderly ds
        → IsOrderly (serve is_valid object_id projects roles r ds).0
    unfolding serve protected_publish protected_unpublish protected_put protected_delete
        unfeature_document
    serve-IsOrderly projects roles (DocumentRequest.upload c id b) ds fresh h =
        upload-IsOrderly object_id c id b ds fresh h
    serve-IsOrderly projects roles (DocumentRequest.post_stored stat result b) ds fresh h =
        post-IsOrderly object_id projects stat result b ds h
    serve-IsOrderly projects roles (DocumentRequest.publish saves id) ds fresh h =
        changed-IsOrderly is_valid roles id (λ x. (publish_document saves x).0)
          (λ d. (publish_document saves d).1) ds (publish_document-keeps saves).0
          (publish_document-keeps saves).1 h
    serve-IsOrderly projects roles (DocumentRequest.unpublish saves id) ds fresh h =
        changed-IsOrderly is_valid roles id (λ x. (unpublish_document saves x).0)
          (λ d. (unpublish_document saves d).1) ds (unpublish_document-keeps saves).0
          (unpublish_document-keeps saves).1 h
    serve-IsOrderly projects roles (DocumentRequest.put goes_through id e) ds fresh h =
        if-pick Orderly (has_valid_ids is_valid roles e) {y = (ds, bad_request)}
          (changed_if-IsOrderly is_valid roles id (edit_document e) goes_through ds
            (edit_document-keeps e).0 (edit_document-keeps e).1 h)
          h
    serve-IsOrderly projects roles (DocumentRequest.delete file_removed id) ds fresh h =
        authorized-keeps is_valid roles Orderly id
          (λ d. (remove_document id ds, if file_removed then saved else failed)) ds (λ r. h)
          (λ d found a. remove_document-IsOrderly id ds h)
    serve-IsOrderly projects roles (DocumentRequest.feature goes_through id) ds fresh h =
        feature_document-IsOrderly is_valid roles goes_through projects id ds h
    serve-IsOrderly projects roles (DocumentRequest.unfeature goes_through id) ds fresh h =
        changed_if-IsOrderly is_valid roles id (feature false) goes_through ds (λ d. (refl, refl))
          (λ d e. absurd (ground (arith, e))) h

    -- The uploads' paths are fresh when they are served.
    abbrev pub AreFresh :
        List (List String × List String × DocumentRequest Content) → DocumentStore Content → Type 0
    AreFresh [] ds = Unit
    AreFresh ((projects, roles, r) ∷ rs) ds =
        IsFresh r ds × AreFresh rs (serve is_valid object_id projects roles r ds).0

    -- After any uploads and other requests for documents that follow one another, with whatever
    -- projects, roles, saves and answers of the storage: if it was so at the start and the storage
    -- gives each uploaded file a path that no document points at, then no project has more than five
    -- featured documents, and no two documents of a project point at one file.
    pub serve_all-IsOrderly :
        (rs : List (List String × List String × DocumentRequest Content))
        (ds : DocumentStore Content)
        → AreFresh rs ds
        → IsOrderly ds
        → IsOrderly (serve_all is_valid object_id rs ds)
    unfolding serve_all
    serve_all-IsOrderly [] ds fresh h = h
    serve_all-IsOrderly ((projects, roles, r) ∷ rs) ds fresh h =
        serve_all-IsOrderly rs (serve is_valid object_id projects roles r ds).0 fresh.1
          (serve-IsOrderly projects roles r ds fresh.0 h)
