-- ===== src/Documents/Changes.antt =====
-- How the count of featured documents and the keys of their files change with one document
-- (api/controllers/document.js).
use eagle_api.Prelude.{
  ◌&&◌, ◌+◌, ◌===◌, ◌≡◌, ◌≤◌, ◌∙◌, ◌∷◌, ◌||◌, Bool, Bool-cases, String, [], any, ap, arith, false,
  filter, if-pick, if◌then◌else◌, inl, inr, length, refl, some, some-injective, subst, true,
}
use eagle_api.Documents.{
  Document, DocumentStore, change_document, count_featured, feature, find_document,
  max_feature_docs, remove_document,
}
use eagle_api.Documents.Creation.{has_key}

module _ {Content : Type 0} where
  abbrev pub IsLimited : DocumentStore Content → Type 0
  IsLimited ds = (p : String) → count_featured p ds ≤ max_feature_docs

  -- No two documents of a project point at one file.
  abbrev pub IsKeyed : DocumentStore Content → Type 0
  IsKeyed [] = Unit
  IsKeyed (d ∷ ds) = (any (has_key d.project d.internal_url) ds ≡ false) × IsKeyed ds

  abbrev pub IsOrderly : DocumentStore Content → Type 0
  IsOrderly ds = IsLimited ds × IsKeyed ds

  -- A change that keeps the project and the file.
  abbrev pub KeepsKey : (Document Content → Document Content) → Type 0
  KeepsKey change =
      (d : Document Content)
      → ((change d).project ≡ d.project) × ((change d).internal_url ≡ d.internal_url)

  -- A change that features no document.
  abbrev pub FeaturesNone : (Document Content → Document Content) → Type 0
  FeaturesNone change =
      (d : Document Content) → (change d).is_featured ≡ true → d.is_featured ≡ true

  any-change_document :
      (project url id : String) (change : Document Content → Document Content)
      (ds : DocumentStore Content)
      → KeepsKey change
      → any (has_key project url) (change_document id change ds) ≡ any (has_key project url) ds
  unfolding change_document
  any-change_document project url id change [] k = refl
  any-change_document project url id change (d ∷ ds) k =
      if-pick
        (λ (xs : DocumentStore Content).
          any (has_key project url) xs ≡ any (has_key project url) (d ∷ ds))
        (d.id === id)
        (ap
            (λ (s : String).
              ((s === project) && ((change d).internal_url === url))
              || any (has_key project url) ds)
            (k d).0
          ∙ ap
              (λ (s : String).
                ((d.project === project) && (s === url)) || any (has_key project url) ds)
              (k d).1)
        (ap (λ (b : Bool). has_key project url d || b)
          (any-change_document project url id change ds k))

  pub IsKeyed-change_document :
      (id : String) (change : Document Content → Document Content) (ds : DocumentStore Content)
      → KeepsKey change
      → IsKeyed ds
      → IsKeyed (change_document id change ds)
  unfolding change_document
  IsKeyed-change_document id change [] k h = h
  IsKeyed-change_document id change (d ∷ ds) k h =
      if-pick IsKeyed (d.id === id)
        (
          ap (λ (s : String). any (has_key s (change d).internal_url) ds) (k d).0
              ∙ ap (λ (s : String). any (has_key d.project s) ds) (k d).1
              ∙ h.0,
          h.1,
        )
        (
          any-change_document d.project d.internal_url id change ds k ∙ h.0,
          IsKeyed-change_document id change ds k h.1,
        )

  pub count_featured-change_document :
      (p id : String) (change : Document Content → Document Content) (ds : DocumentStore Content)
      → KeepsKey change
      → FeaturesNone change
      → count_featured p (change_document id change ds) ≤ count_featured p ds
  unfolding change_document count_featured
  count_featured-change_document p id change [] k f = omega arith
  count_featured-change_document p id change (d ∷ ds) k f =
      ground (arith, (k d).0, f d, count_featured-change_document p id change ds k f)

  pub count_featured-feature :
      (p id : String) (ds : DocumentStore Content) (d : Document Content)
      → find_document id ds ≡ some d
      → count_featured p (change_document id (feature true) ds)
        ≤ (if d.project === p then 1 else 0) + count_featured p ds
  unfolding change_document count_featured find_document
  count_featured-feature p id [] d e = absurd (ground (arith, e))
  count_featured-feature p id (x ∷ ds) d e = elim (Bool-cases (x.id === id)) [
    | inl here ↦
        let same : x ≡ d = some-injective (ground (arith, e, here)) in
        subst
          (λ (y : Document Content).
            length (
              filter (λ z. (z.project === p) && z.is_featured)
                (if x.id === id
                  then feature true x ∷ ds
                  else x ∷ change_document id (feature true) ds))
            ≤ (if y.project === p then 1 else 0)
              + length (filter (λ z. (z.project === p) && z.is_featured) (x ∷ ds)))
          same (rw here (ground arith))
    | inr there ↦
        rw there (ground (arith, count_featured-feature p id ds d (ground (arith, e, there))))
  ]

  any-remove_document :
      (project url id : String) (ds : DocumentStore Content)
      → any (has_key project url) ds ≡ false
      → any (has_key project url) (remove_document id ds) ≡ false
  unfolding remove_document
  any-remove_document project url id [] h = h
  any-remove_document project url id (d ∷ ds) h =
      ground (arith, h, any-remove_document project url id ds)

  count_featured-remove_document :
      (p id : String) (ds : DocumentStore Content)
      → count_featured p (remove_document id ds) ≤ count_featured p ds
  unfolding remove_document count_featured
  count_featured-remove_document p id [] = omega arith
  count_featured-remove_document p id (d ∷ ds) =
      ground (arith, count_featured-remove_document p id ds)

  IsKeyed-remove_document :
      (id : String) (ds : DocumentStore Content) → IsKeyed ds → IsKeyed (remove_document id ds)
  unfolding remove_document
  IsKeyed-remove_document id [] k = k
  IsKeyed-remove_document id (d ∷ ds) k =
      if-pick IsKeyed (d.id === id) k.1
        (any-remove_document d.project d.internal_url id ds k.0, IsKeyed-remove_document id ds k.1)

  pub remove_document-IsOrderly :
      (id : String) (ds : DocumentStore Content) → IsOrderly ds → IsOrderly (remove_document id ds)
  remove_document-IsOrderly id ds h = (
    λ p. omega (arith, h.0 p, count_featured-remove_document p id ds),
    IsKeyed-remove_document id ds h.1,
  )

  pub change_document-IsOrderly :
      (id : String) (change : Document Content → Document Content) (ds : DocumentStore Content)
      → KeepsKey change
      → FeaturesNone change
      → IsOrderly ds
      → IsOrderly (change_document id change ds)
  change_document-IsOrderly id change ds k f h = (
    λ p. omega (arith, h.0 p, count_featured-change_document p id change ds k f),
    IsKeyed-change_document id change ds k h.1,
  )
