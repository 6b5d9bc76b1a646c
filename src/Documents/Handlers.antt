-- ===== src/Documents/Handlers.antt =====
-- The handlers that change one document (api/controllers/document.js).
use eagle_api.Prelude.{
  ◌&&◌, Bool, List, String, false, if◌then◌else◌, includes, ltb, none, not, some, true,
}
use eagle_api.Documents.{
  Document, DocumentEdit, DocumentReply, DocumentStore, bad_request, change_document,
  count_featured, denied, edit_document, failed, feature, find_document, is_authorized,
  is_valid_if_given, limit_reached, max_feature_docs, not_found, publish_document, remove_document,
  saved, unpublish_document,
}

module _ {Content : Type 0} where
  -- The change of a document that is found for a caller who may make it.
  abbrev pub saved_if :
      String
      → (Document Content → Document Content)
      → Bool
      → DocumentStore Content
      → DocumentStore Content × DocumentReply
  saved_if id change is_saved ds =
      (change_document id change ds, if is_saved then saved else failed)

  module _ (is_valid : String → Bool) (roles : List String) where
    -- The id, the document and the caller's roles, in the order of the handlers.
    abbrev pub authorized :
        String
        → (Document Content → DocumentStore Content × DocumentReply)
        → DocumentStore Content
        → DocumentStore Content × DocumentReply
    authorized id act ds =
        if is_valid id
        then elim (find_document id ds) [
          | none ↦ (ds, not_found)
          | some d ↦ if is_authorized roles then act d else (ds, denied)
        ]
        else (ds, bad_request)

    unfoldable pub protected_publish :
        Bool × Bool → String → DocumentStore Content → DocumentStore Content × DocumentReply
    protected_publish saves id ds =
        authorized id
          (λ d. saved_if id (λ x. (publish_document saves x).0) (publish_document saves d).1 ds) ds

    unfoldable pub protected_unpublish :
        Bool × Bool → String → DocumentStore Content → DocumentStore Content × DocumentReply
    protected_unpublish saves id ds =
        authorized id
          (λ d. saved_if id (λ x. (unpublish_document saves x).0) (unpublish_document saves d).1 ds)
          ds

    abbrev pub has_valid_ids : DocumentEdit Content → Bool
    has_valid_ids e =
        is_valid_if_given is_valid e.milestone
        && is_valid_if_given is_valid e.kind
        && is_valid_if_given is_valid e.author_type
        && is_valid_if_given is_valid e.phase

    unfoldable pub protected_put :
        Bool
        → String
        → DocumentEdit Content
        → DocumentStore Content
        → DocumentStore Content × DocumentReply
    protected_put goes_through id e ds =
        if has_valid_ids e
        then authorized id
            (λ d. if goes_through then saved_if id (edit_document e) true ds else (ds, failed)) ds
        else (ds, bad_request)

    -- The document is gone also where the storage fails to remove its file.
    unfoldable pub protected_delete :
        Bool → String → DocumentStore Content → DocumentStore Content × DocumentReply
    protected_delete file_removed id ds =
        authorized id (λ d. (remove_document id ds, if file_removed then saved else failed)) ds

    unfoldable pub feature_document :
        Bool → List String → String → DocumentStore Content → DocumentStore Content × DocumentReply
    feature_document goes_through projects id ds =
        authorized id
          (λ d.
            if not (includes projects d.project)
            then (ds, not_found)
            else if not (ltb (count_featured d.project ds) max_feature_docs)
            then (ds, limit_reached)
            else if goes_through
            then saved_if id (feature true) true ds
            else (ds, failed))
          ds

    unfoldable pub unfeature_document :
        Bool → String → DocumentStore Content → DocumentStore Content × DocumentReply
    unfeature_document goes_through id ds =
        authorized id
          (λ d. if goes_through then saved_if id (feature false) true ds else (ds, failed)) ds
