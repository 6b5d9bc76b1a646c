-- ===== src/Examples/Pictures.antt =====
-- An Update with a private uploaded image and a public attachment, and the release of the image.
use eagle_api.Prelude.{◌≡◌, ◌∷◌, Memᴰ, is_name, [], false, none, refl, some, true}
use eagle_api.UpdateRules.{is_blank_name}
use eagle_api.UpdateImages.{
  Doc, ShownElsewhere, Shows, image_document_ids, is_public, is_update_image,
  non_public_document_ids, passes, passing_ids, publish, publish_each, publish_for,
  awaits_publication, shown_document_ids,
}
use eagle_api.UpdateImages.Publication.{publish_for-non_public_document_ids}
use eagle_api.UpdateImages.Release.{all_saved}

abbrev image : Doc
image = record {
  id = "i1";
  schema_name = "Document";
  document_source = some "UPDATE";
  project = some 7;
  read = "staff" ∷ [];
  is_deleted = false;
  eao_status = none;
}

abbrev report : Doc
report = record image { id = "d1"; document_source = none; read = "staff" ∷ "public" ∷ [] }

abbrev news : Shows
news = record {
  featured_image = some "i1";
  images = [];
  attachments = some "d1" ∷ [];
  project = some 7;
}

abbrev unshown : ShownElsewhere
unshown = some (λ i. false)

-- A document of another project does not pass.
other_project :
    non_public_document_ids (record news { project = some 8 }) (image ∷ report ∷ []) ≡ "i1" ∷ []
unfolding non_public_document_ids passing_ids passes shown_document_ids image_document_ids
    is_blank_name is_name
other_project = refl

publish_for-non_public_document_ids_example :
    (e : Doc) × Memᴰ e
      (publish_for all_saved all_saved all_saved unshown unshown news (image ∷ report ∷ [])).0
    × (e.id ≡ "i1")
    × (is_public e ≡ true)
unfolding non_public_document_ids passing_ids passes shown_document_ids image_document_ids
    publish_for publish_each publish awaits_publication is_update_image is_blank_name is_name
publish_for-non_public_document_ids_example =
    publish_for-non_public_document_ids all_saved all_saved all_saved unshown unshown news
      (image ∷ report ∷ []) "i1" refl refl (Memᴰ.head refl)
