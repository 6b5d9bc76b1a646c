-- ===== src/UpdateImages/Release.antt =====
-- What `release` (api/helpers/updateImages.js) leaves public where its queries and saves go through.
use eagle_api.Prelude.{
  ◌&&◌, ◌===◌, ◌||◌, ◌≡◌, ◌∷◌, Bool, Bool-cases, List, String, [], ap, arith, false, if◌then◌else◌,
  includes-append, includes-filter, inl, inr, map, none, not, refl, some, true, ◌∙◌, eq_refl,
}
use eagle_api.UpdateImages.{
  Doc, Saves, is_public, is_update_image, publish, release, release_doc, republish_each, unpublish,
  unpublish_each, unpublish_row,
}

abbrev pub all_saved : Saves
all_saved i = (true, true)

-- A document that `release` leaves public: it was, and it is no uploaded image among the ids, or
-- another Update shows it at the first query or at the second.
abbrev pub stays_public : List String → (String → Bool) → (String → Bool) → Doc → Bool
stays_public ids shown now_shown d =
    is_public d && (not (is_update_image ids d) || (shown d.id || now_shown d.id))

unpublished : Doc → Doc
unpublished d = unpublish_row (record d { eao_status = none })

unpublish-saved :
    (d : Doc)
    → is_public d ≡ true
    → unpublish all_saved none d ≡ record { stored = unpublished d; is_saved = true }
unfolding unpublish unpublished
unpublish-saved d h = ground (arith, h)

unpublished-is_public : (d : Doc) → is_public (unpublished d) ≡ false
unfolding unpublished
unpublished-is_public d =
    ground (arith, includes-filter (λ r. not (r === "public")) d.read "public", eq_refl "public")

unpublished-id : (d : Doc) → (unpublished d).id ≡ d.id
unfolding unpublished
unpublished-id d = refl

publish-is_public :
    (d : Doc)
    → ((publish all_saved d).is_saved ≡ true) × (is_public (publish all_saved d).stored ≡ true)
unfolding publish
publish-is_public d = elim (Bool-cases (is_public d)) [
  | inl h ↦ (ground (arith, h), ground (arith, h))
  | inr h ↦ (ground (arith, h), ground (arith, h, includes-append d.read ("public" ∷ []) "public"))
]

republish_each-is_public :
    (now_shown : String → Bool) (d : Doc) (b : Bool) (rest : List (Doc × Bool))
    → map is_public (republish_each all_saved now_shown ((d, b) ∷ rest))
      ≡ (is_public d || (b && now_shown d.id))
        ∷ map is_public (republish_each all_saved now_shown rest)
republish_each-is_public now_shown d b rest = elim (Bool-cases (b && now_shown d.id)) [
  | inl again ↦ ground (arith, again, publish-is_public d)
  | inr done ↦ ground (arith, done)
]

cons_eq : {b c : Bool} {xs ys : List Bool} → b ≡ c → xs ≡ ys → b ∷ xs ≡ c ∷ ys
cons_eq e f = rw (e, f)

released_lem :
    (ids : List String) (shown now_shown : String → Bool) (docs : List Doc)
    → map is_public
        (republish_each all_saved now_shown (unpublish_each all_saved (release_doc ids shown) docs))
      ≡ map (stays_public ids shown now_shown) docs
unfolding release_doc
released_lem ids shown now_shown [] = refl
released_lem ids shown now_shown (d ∷ ds) =
    let rest = unpublish_each all_saved (release_doc ids shown) ds in
    let attempt = unpublish all_saved none d in
    let start : Bool → List Bool = λ b. map is_public (
      republish_each all_saved now_shown
        (if b then (attempt.stored, attempt.is_saved) ∷ rest else (d, false) ∷ rest)) in
    elim (Bool-cases (release_doc ids shown d)) [
      | inr left ↦
          ap start left
          ∙ republish_each-is_public now_shown d false rest
          ∙ cons_eq (ground (arith, left)) (released_lem ids shown now_shown ds)
      | inl taken ↦
          ap start taken
          ∙ ap
              (λ a.
                map is_public (republish_each all_saved now_shown ((a.stored, a.is_saved) ∷ rest)))
              (unpublish-saved d (ground (arith, taken)))
          ∙ republish_each-is_public now_shown (unpublished d) true rest
          ∙ cons_eq
              (ground (arith, taken, unpublished-is_public d, ap now_shown (unpublished-id d)))
              (released_lem ids shown now_shown ds)
    ]

-- Where the queries answer and the saves go through, exactly those documents are public afterwards
-- that were public, and are no uploaded image among the ids, or are shown by another published
-- Update at the first query or at the second.
pub release_lem :
    (ids : List String) (shown now_shown : String → Bool) (docs : List Doc)
    → map is_public (release all_saved all_saved ids (some shown) (some now_shown) docs)
      ≡ map (stays_public ids shown now_shown) docs
unfolding release
release_lem ids shown now_shown docs = released_lem ids shown now_shown docs
