-- ===== src/Posting.antt =====
-- The creation of an Update: protectedPost of api/controllers/recentActivity.js with `check` of
-- api/helpers/updateRules.js. The collection of documents is the model of UpdateImages; the cast of
-- a project's id (a project that is sent is one), the test of a client's `_id` and the replies of
-- Mongo are arguments. The stamps on the row (dateAdded, _addedBy, pinned, notificationName), and
-- the audit record and the DEMI push after the save are left out. What other requests do to the
-- documents between the steps is an argument, `Others`.
pub mod Checks
pub mod Guarantees
use eagle_api.Prelude.{
  ◌&&◌, ◌===◌, ◌≡◌, ◌∷◌, Bool, List, Option, String, Text, [], false, if◌then◌else◌, is_name, map,
  none, not, some, true, ℕ,
}
use eagle_api.Auth.{truthy}
use eagle_api.UpdateRules.{Image, Images, Problem, Update, list_of, not_a_list, unset, validate}
use eagle_api.UpdateRules.Status.{apply_status}
use eagle_api.UpdateImages.{
  Doc, Saves, ShownElsewhere, Shows, is_public, non_public_document_ids, publish_each, publish_for,
  awaits_publication, release,
}

-- A request body: the Update and its attachments.
pub record Body : Type 0 where
  pub update : Update
  pub attachments : List (Option String)

-- The messages of `check`: those of the fields, or the ids of documents that are not public.
pub data Checked : Type 0 where
  fine thrown : Checked
  invalid : Problem → List Problem → Checked
  hidden : String → List String → Checked

-- What `recentActivity.save()` comes to.
pub data Save : Type 0 where
  stored duplicate_key failed : Save

pub data Reply : Type 0 where
  rejected : Checked → Reply
  invalid_id images_failed id_taken not_saved : Reply
  created : Update → Reply

-- The reply, the documents as they stand at the end, and whether the second publication of the images
-- returned, true where there is none.
pub record Posted : Type 0 where
  pub reply : Reply
  pub docs : List Doc
  pub republished : Bool

-- What other requests make of the documents between the check and `publishFor`, and from there to the
-- end of the save.
pub record Others : Type 0 where
  pub before_publishing : List Doc → List Doc
  pub before_saved : List Doc → List Doc

abbrev pub document_of : Option Image → Option String
document_of none = none
document_of (some image) = image.document

abbrev pub documents_of : Images → List (Option String)
documents_of unset = []
documents_of not_a_list = []
documents_of (list_of images) = map (λ image. image.document) images

module _ (url_protocol : Text → Option Text) (object_id : String → ℕ) where
  abbrev pub project_of : Update → Option ℕ
  project_of u = elim (truthy u.project) [ none ↦ none | some p ↦ some (object_id p) ]

  unfoldable pub shows_of : Body → Shows
  shows_of b = record {
    featured_image = document_of b.update.featured_image;
    images = documents_of b.update.images;
    attachments = b.attachments;
    project = project_of b.update;
  }

  -- `check`; `docs` is none where the query of the documents throws.
  unfoldable pub check : Bool → Body → Option (List Doc) → Checked
  check check_documents b docs = elim (validate url_protocol b.update) [
    | e ∷ es ↦ invalid e es
    | [] ↦
        if check_documents && is_name b.update.status "published"
        then elim docs [
          | none ↦ thrown
          | some ds ↦ elim (non_public_document_ids (shows_of b) ds) [
            | [] ↦ fine
            | i ∷ is ↦ hidden i is
          ]
        ]
        else fine
  ]

  -- The body as `applyStatus` leaves it, without the roles that the client sent.
  unfoldable pub prepare : ℕ → Body → Body
  prepare now b =
      let bare : Update = record (b.update) { read = none } in
      record b { update = apply_status now false bare bare }

  abbrev pub refused : Reply → List Doc → Posted
  refused reply docs = record { reply = reply; docs = docs; republished = true }

  -- The save: the images of a published Update are published again, and where it fails, those that
  -- this request published are released.
  unfoldable pub save_update :
      Saves
      → Saves
      → Saves
      → ShownElsewhere
      → ShownElsewhere
      → Save
      → List String
      → Body
      → List Doc
      → Posted
  save_update again unsaves resaves first second stored ids b docs =
      let images = publish_for again unsaves resaves first second (shows_of b) docs in
      if is_name b.update.status "published"
      then record { reply = created b.update; docs = images.0; republished = images.1 }
      else record { reply = created b.update; docs = docs; republished = true }
  save_update again unsaves resaves first second duplicate_key ids b docs =
      refused id_taken (release unsaves resaves ids first second docs)
  save_update again unsaves resaves first second failed ids b docs =
      refused not_saved (release unsaves resaves ids first second docs)

  -- From the check on, with the prepared body.
  unfoldable pub post_prepared :
      Saves
      → Saves
      → Saves
      → Saves
      → ShownElsewhere
      → ShownElsewhere
      → Others
      → Bool
      → Save
      → Bool
      → Body
      → List Doc
      → Posted
  post_prepared saves again unsaves resaves first second others readable saved id_ok b docs =
      let found = others.before_publishing docs in
      let images = publish_for saves unsaves resaves first second (shows_of b) found in
      let published = (publish_each saves (awaits_publication (shows_of b)) found).published in
      elim (check true b (if readable then some docs else none)) [
        | fine ↦
            if not id_ok
            then refused invalid_id docs
            else if is_name b.update.status "published"
            then if images.1
              then save_update again unsaves resaves first second saved published b
                  (others.before_saved images.0)
              else refused images_failed images.0
            else save_update again unsaves resaves first second saved [] b
                (others.before_saved docs)
        | thrown ↦ refused (rejected thrown) docs
        | invalid e es ↦ refused (rejected (invalid e es)) docs
        | hidden i is ↦ refused (rejected (hidden i is)) docs
      ]

  unfoldable pub protected_post :
      Saves
      → Saves
      → Saves
      → Saves
      → ShownElsewhere
      → ShownElsewhere
      → Others
      → Bool
      → Save
      → Bool
      → ℕ
      → Body
      → List Doc
      → Posted
  protected_post saves again unsaves resaves first second others readable saved id_ok now b docs =
      post_prepared saves again unsaves resaves first second others readable saved id_ok
        (prepare now b) docs
