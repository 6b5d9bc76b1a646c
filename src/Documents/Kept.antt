-- ===== src/Documents/Kept.antt =====
-- The handlers that change one document keep the limit and the keys
-- (api/controllers/document.js).
use eagle_api.Prelude.{
  ◌<◌, ◌===◌, ◌≡◌, Bool, Bool-cases, List, Option, String, arith, eq_iff, if-pick, if-split,
  if◌then◌else◌, includes, inl, inr, ltb, ltb→lt, none, not, refl, some, subst, true,
}
use eagle_api.Documents.{
  Document, DocumentEdit, DocumentReply, DocumentStore, bad_request, change_document,
  count_featured, denied, edit_document, failed, feature, find_document, is_authorized,
  limit_reached, max_feature_docs, not_found, publish_document, unpublish_document,
}
use eagle_api.Documents.Handlers.{authorized, feature_document, saved_if}
use eagle_api.Documents.Changes.{
  FeaturesNone, IsKeyed-change_document, IsOrderly, KeepsKey, change_document-IsOrderly,
  count_featured-feature,
}

module _ {Content : Type 0} where
  -- The documents after a handler are orderly.
  abbrev pub Orderly : DocumentStore Content × DocumentReply → Type 0
  Orderly r = IsOrderly r.0

  pub publish_document-keeps :
      (saves : Bool × Bool)
      → KeepsKey (λ d. (publish_document {Content = Content} saves d).0)
        × FeaturesNone (λ d. (publish_document {Content = Content} saves d).0)
  unfolding publish_document
  publish_document-keeps saves = ((λ d. (ground arith, ground arith)), λ d e. ground (arith, e))

  pub unpublish_document-keeps :
      (saves : Bool × Bool)
      → KeepsKey (λ d. (unpublish_document {Content = Content} saves d).0)
        × FeaturesNone (λ d. (unpublish_document {Content = Content} saves d).0)
  unfolding unpublish_document
  unpublish_document-keeps saves = ((λ d. (ground arith, ground arith)), λ d e. ground (arith, e))

  pub edit_document-keeps :
      (e : DocumentEdit Content) → KeepsKey (edit_document e) × FeaturesNone (edit_document e)
  unfolding edit_document
  edit_document-keeps e = ((λ d. (refl, refl)), λ d h. h)

  module _ (is_valid : String → Bool) (roles : List String) where
    pub authorized-keeps :
        (P : DocumentStore Content × DocumentReply → Type 0) (id : String)
        (act : Document Content → DocumentStore Content × DocumentReply)
        (ds : DocumentStore Content)
        → ((r : DocumentReply) → P (ds, r))
        → ((d : Document Content)
            → find_document id ds ≡ some d
            → is_authorized roles ≡ true
            → P (act d))
        → P (authorized is_valid roles id act ds)
    authorized-keeps P id act ds same acts =
        if-pick P (is_valid id) {y = (ds, bad_request)} (found (find_document id ds) refl)
          (same bad_request)
      where
        found :
            (o : Option (Document Content))
            → find_document id ds ≡ o
            → P (elim o [
              | none ↦ (ds, not_found)
              | some d ↦ if is_authorized roles then act d else (ds, denied)
            ])
        found none e = same not_found
        found (some d) e =
            if-split P (is_authorized roles) {y = (ds, denied)} (λ a. acts d e a) (λ a. same denied)

    pub feature_document-IsOrderly :
        (goes_through : Bool) (projects : List String) (id : String) (ds : DocumentStore Content)
        → IsOrderly ds
        → IsOrderly (feature_document is_valid roles goes_through projects id ds).0
    unfolding feature_document
    feature_document-IsOrderly goes_through projects id ds h =
        authorized-keeps Orderly id
          (λ d.
            if not (includes projects d.project)
            then (ds, not_found)
            else if not (ltb (count_featured d.project ds) max_feature_docs)
            then (ds, limit_reached)
            else if goes_through
            then saved_if id (feature true) true ds
            else (ds, failed))
          ds (λ r. h) (λ d found a. featured d found)
      where
        below :
            (d : Document Content)
            → find_document id ds ≡ some d
            → ltb (count_featured d.project ds) max_feature_docs ≡ true
            → IsOrderly (change_document id (feature true) ds)
        below d found room = (
          λ p. elim (Bool-cases (d.project === p)) [
            | inr other ↦ ground (arith, other, h.0 p, count_featured-feature p id ds d found)
            | inl same ↦
                let room_p : count_featured p ds < 5 =
                  subst (λ (s : String). count_featured s ds < 5) ((eq_iff d.project p).0 same)
                    (ltb→lt _ _ room) in
                ground (arith, same, room_p, count_featured-feature p id ds d found)
          ],
          IsKeyed-change_document id (feature true) ds (λ x. (refl, refl)) h.1,
        )

        featured :
            (d : Document Content)
            → find_document id ds ≡ some d
            → IsOrderly
                (if not (includes projects d.project)
                  then (ds, not_found)
                  else if not (ltb (count_featured d.project ds) max_feature_docs)
                  then (ds, limit_reached)
                  else if goes_through
                  then saved_if id (feature true) true ds
                  else (ds, failed)).0
        featured d found =
            if-pick Orderly (not (includes projects d.project)) {x = (ds, not_found)} h (
              if-split Orderly (not (ltb (count_featured d.project ds) max_feature_docs))
                {x = (ds, limit_reached)} (λ full. h)
                (λ room.
                  if-pick Orderly goes_through {x = saved_if id (feature true) true ds}
                    {y = (ds, failed)} (below d found (ground (arith, room))) h))

    -- A change of one document under the checks.
    pub changed-IsOrderly :
        (id : String) (change : Document Content → Document Content)
        (is_saved : Document Content → Bool) (ds : DocumentStore Content)
        → KeepsKey change
        → FeaturesNone change
        → IsOrderly ds
        → IsOrderly (authorized is_valid roles id (λ d. saved_if id change (is_saved d) ds) ds).0
    changed-IsOrderly id change is_saved ds k f h =
        authorized-keeps Orderly id (λ d. saved_if id change (is_saved d) ds) ds (λ r. h)
          (λ d found a. change_document-IsOrderly id change ds k f h)

    pub changed_if-IsOrderly :
        (id : String) (change : Document Content → Document Content) (goes_through : Bool)
        (ds : DocumentStore Content)
        → KeepsKey change
        → FeaturesNone change
        → IsOrderly ds
        → IsOrderly
            (authorized is_valid roles id
              (λ d. if goes_through then saved_if id change true ds else (ds, failed))
              ds).0
    changed_if-IsOrderly id change goes_through ds k f h =
        authorized-keeps Orderly id
          (λ d. if goes_through then saved_if id change true ds else (ds, failed)) ds (λ r. h)
          (λ d found a.
            if-pick Orderly goes_through {x = saved_if id change true ds} {y = (ds, failed)}
              (change_document-IsOrderly id change ds k f h) h)
