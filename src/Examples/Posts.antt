-- ===== src/Examples/Posts.antt =====
-- A published Update that shows a public report.
use eagle_api.Prelude.{
  ◌≡◌, ◌∷◌, List, Memᴰ, Option, String, Text, [], false, includes, is_name, none, refl, some, true,
  units, ℕ,
}
use eagle_api.UpdateRules.{
  Update, unset, validate, is_blank_name, is_known_status, is_too_long, is_tagged, featured_errors,
  image_errors, url_errors, category_errors, is_blank,
}
use eagle_api.UpdateRules.Validity.{IsValid}
use eagle_api.UpdateRules.Status.{apply_status, status_of}
use eagle_api.UpdateImages.{
  Doc, ShownElsewhere, awaits_publication, image_document_ids, is_public, is_update_image,
  non_public_document_ids, passes, passing_ids, publish, publish_each, publish_for,
  shown_document_ids,
}
use eagle_api.UpdateImages.Release.{all_saved}
use eagle_api.Posting.{
  Body, Others, check, created, post_prepared, prepare, protected_post, save_update, shows_of,
  stored,
}
use eagle_api.Posting.Guarantees.{protected_post-created, protected_post-shown}

abbrev body : Body
body = record {
  update = record {
    status = some "published";
    active = none;
    read = some ("anyone" ∷ []);
    publish_date = none;
    short_headline = none;
    summary = none;
    featured_image = none;
    images = unset;
    engagement_url = none;
    category = some "Corporate";
    subject = some (units "News");
    project = none;
    pcp = none;
    kind = none;
  };
  attachments = some "d1" ∷ [];
}

abbrev public_report : Doc
public_report = record {
  id = "d1";
  schema_name = "Document";
  document_source = none;
  project = none;
  read = "public" ∷ [];
  is_deleted = false;
  eao_status = none;
}

abbrev https_only : Text → Option Text
https_only url = some (units "https:")

abbrev cast : String → ℕ
cast s = 0

abbrev elsewhere : ShownElsewhere
elsewhere = some (λ i. false)

-- Nobody else changes the documents.
abbrev nobody : Others
nobody = record { before_publishing = λ docs. docs; before_saved = λ docs. docs }

abbrev saved_row : Update
saved_row = (prepare https_only cast 5 body).update

-- What the test of a whole request opens.
posts : Unit {0}
unfolding protected_post post_prepared prepare check validate is_blank_name apply_status
    is_known_status is_too_long is_tagged featured_errors image_errors url_errors category_errors
    is_name non_public_document_ids shown_document_ids image_document_ids shows_of passing_ids
    passes publish_for publish_each save_update awaits_publication is_update_image publish status_of
    is_blank
posts = tt

posted :
    (protected_post https_only cast all_saved all_saved all_saved all_saved elsewhere elsewhere
      nobody true stored true 5 body
      (public_report ∷ [])).reply
    ≡ created saved_row
unfolding posts
posted = refl

republished :
    (protected_post https_only cast all_saved all_saved all_saved all_saved elsewhere elsewhere
      nobody true stored true 5 body
      (public_report ∷ [])).republished
    ≡ true
unfolding posts
republished = refl

live : saved_row.status ≡ some "published"
unfolding posts
live = refl

shows_report : Memᴰ "d1" (shown_document_ids (shows_of https_only cast body))
unfolding posts
shows_report = Memᴰ.head refl

protected_post-created_example :
    IsValid https_only saved_row
    × (saved_row.active ≡ some (is_name saved_row.status "published"))
    × (xs : List String) × (saved_row.read ≡ some xs)
    × (includes xs "public" ≡ is_name saved_row.status "published")
protected_post-created_example =
    protected_post-created https_only cast all_saved all_saved all_saved all_saved elsewhere
      elsewhere nobody true stored true 5 body (public_report ∷ []) saved_row posted

protected_post-shown_example :
    (e : Doc) × Memᴰ e
      (protected_post https_only cast all_saved all_saved all_saved all_saved elsewhere elsewhere
        nobody true stored true 5 body
        (public_report ∷ [])).docs
    × (e.id ≡ "d1")
    × (is_public e ≡ true)
protected_post-shown_example =
    protected_post-shown https_only cast all_saved all_saved all_saved all_saved elsewhere elsewhere
      nobody true stored true 5 body (public_report ∷ []) saved_row "d1"
      ((λ docs h. h), (λ docs h. h)) posted live republished shows_report
