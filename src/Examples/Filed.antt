-- ===== src/Examples/Filed.antt =====
-- A project with one document, which a caller may feature.
use eagle_api.Prelude.{
  some, some-injective, subst, any, ◌===◌, ◌≡◌, ◌∷◌, List, String, [], arith, false, none, refl,
  true, ℕ,
}
use eagle_api.Documents.{Document, DocumentStore, Fields, count_featured}
use eagle_api.Documents.Changes.{IsOrderly}
use eagle_api.Documents.Creation.{DocumentRequest, serve_all}
use eagle_api.Documents.Limits.{AreFresh, serve_all-IsOrderly}
use eagle_api.Documents.Uploads.{Circumstances, UploadBody, UploadSave}

abbrev no_fields : Fields ℕ
no_fields = record {
  display_name = 0;
  milestone = none;
  kind = none;
  author_type = none;
  phase = none;
  date_uploaded = 0;
  date_posted = 0;
  description = 0;
  keywords = 0;
  legislation = 0;
  sort_order = 0;
}

abbrev report : Document ℕ
report = record {
  id = "d1";
  project = "p1";
  internal_url = "p1/d1.pdf";
  read = "staff" ∷ [];
  eao_status = none;
  is_featured = true;
  fields = no_fields;
}

abbrev other : Document ℕ
other = record report { id = "d2"; internal_url = "p1/d2.pdf"; is_featured = false }

abbrev filed : DocumentStore ℕ
filed = report ∷ other ∷ []

abbrev sent_file : UploadBody ℕ
sent_file = record {
  project = some "5f0000000000000000000001";
  refs = [];
  size = 100;
  source = none;
  sent_status = some "Published";
  publishes = false;
  fields = no_fields;
}

abbrev circumstances : Circumstances
circumstances = record {
  is_refused_image = false;
  passes_scan = true;
  path = some "5f0000000000000000000001/x.pdf";
  save = UploadSave.stored;
}

abbrev asked : List (List String × List String × DocumentRequest ℕ)
asked =
    ("p1" ∷ [], "staff" ∷ [], DocumentRequest.upload circumstances "d3" sent_file)
    ∷ ("p1" ∷ [], "staff" ∷ [], DocumentRequest.feature true "d2")
    ∷ ("p1" ∷ [], "sysadmin" ∷ [], DocumentRequest.publish (true, true) "d1")
    ∷ []

filed-IsOrderly : IsOrderly filed
unfolding count_featured
filed-IsOrderly = ((λ p. ground arith), (refl, (refl, tt)))

asked-AreFresh : AreFresh (λ i. true) (λ i. i) asked filed
asked-AreFresh = (
  (λ p e. subst (λ q. any (λ d. d.internal_url === q) filed ≡ false) (some-injective e) refl),
  (tt, (tt, tt)),
)

serve_all-IsOrderly_example : IsOrderly (serve_all (λ i. true) (λ i. i) asked filed)
serve_all-IsOrderly_example =
    serve_all-IsOrderly (λ i. true) (λ i. i) asked filed asked-AreFresh filed-IsOrderly
