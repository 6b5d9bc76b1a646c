-- ===== src/Documents/Access.antt =====
-- Who may change a document (api/controllers/document.js).
use eagle_api.Prelude.{◌≡◌, ◌≢◌, Bool, false, true}
use eagle_api.Documents.{DocumentReply, DocumentStore, saved}
use eagle_api.Documents.Creation.{DocumentRequest}

module _ {Content : Type 0} where
  -- Every request but the creation.
  abbrev pub changes_one : DocumentRequest Content → Bool
  changes_one (DocumentRequest.upload c id b) = false
  changes_one (DocumentRequest.post_stored stat result b) = false
  changes_one _ = true

  abbrev IsRefused : DocumentStore Content → DocumentStore Content × DocumentReply → Type 0
  IsRefused ds r = (r.0 ≡ ds) × (r.1 ≢ saved)
