-- ===== src/UpdateRules/Validity.antt =====
-- What an Update is that `validate` of api/helpers/updateRules.js accepts.
use eagle_api.Prelude.{
  is_name, ◌++◌, ◌≡◌, ◌&&◌, ◌≤◌, ◌⊎◌, ◌↔◌, ◌∷◌, All, Bool, List, Memᴰ, Option, String, Text, [],
  arith, false, includes→Mem, Mem→includes, length, ltb, none, not, some, suc, true, ℕ,
}
use eagle_api.UpdateRules.{
  Image, Images, unset, not_a_list, list_of, Update, Label, featured, gallery, Problem, when,
  is_blank, is_blank_name, has_tag, is_too_long, is_tagged, caption_credit_errors,
  each_image_errors, image_errors, is_known_status, featured_errors, category_errors, is_http_url,
  url_errors, validate, statuses, short_headline_max, summary_max, images_max, image_caption_max,
  image_credit_max, corporate, pn_pcp_type,
}

-- A text of at most `limit` code units, or a blank one.
abbrev pub Fits : Option Text → ℕ → Type 0
Fits none limit = Unit {0}
Fits (some s) limit = (is_blank (some s) ≡ true) ⊎ (length s ≤ limit)

abbrev pub Plain : Option Text → Type 0
Plain none = Unit {0}
Plain (some s) = (is_blank (some s) ≡ true) ⊎ (has_tag s ≡ false)

abbrev pub Captioned : Image → Type 0
Captioned image = Fits image.caption image_caption_max × Fits image.credit image_credit_max

-- An image of the gallery: it names a document, has an alternative text, and fits.
abbrev pub Shown : Image → Type 0
Shown image =
    (is_blank_name image.document ≡ false) × (is_blank image.alt ≡ false) × Captioned image

abbrev pub GalleryValid : Images → Type 0
GalleryValid unset = Unit {0}
GalleryValid not_a_list = ⊥
GalleryValid (list_of images) = (length images ≤ images_max) × All Shown images

abbrev pub FeaturedValid : Option Image → Type 0
FeaturedValid none = Unit {0}
FeaturedValid (some image) =
    ((is_blank_name image.document ≡ true) ⊎ (is_blank image.alt ≡ false)) × Captioned image

abbrev pub StatusValid : Option String → Type 0
StatusValid none = Unit {0}
StatusValid (some s) = (is_blank_name (some s) ≡ true) ⊎ Memᴰ s statuses

-- A Corporate Update has a subject; any other categorised one hangs off a project, a comment
-- period or a project notification.
abbrev pub CategoryValid : Update → Type 0
CategoryValid u =
    (is_blank_name u.category ≡ true)
    ⊎ ((is_name u.category corporate ≡ true) × (is_blank u.subject ≡ false))
    ⊎ ((is_name u.category corporate ≡ false)
        × ((is_blank_name u.project ≡ false)
            ⊎ (is_blank_name u.pcp ≡ false)
            ⊎ (is_name u.kind pn_pcp_type ≡ true)))

append-eq-nil : {A : Type 0} (xs ys : List A) → (xs ++ ys ≡ []) ↔ ((xs ≡ []) × (ys ≡ []))
append-eq-nil [] ys = ground arith
append-eq-nil (x ∷ xs) ys = ground arith

too_long_iff : (o : Option Text) (n : ℕ) (p : Problem) → (when (is_too_long o n) p ≡ []) ↔ Fits o n
unfolding is_too_long
too_long_iff none n p = ground arith
too_long_iff (some s) n p = ground arith

tagged_iff : (o : Option Text) (p : Problem) → (when (is_tagged o) p ≡ []) ↔ Plain o
unfolding is_tagged
tagged_iff none p = ground arith
tagged_iff (some s) p = ground arith

-- Two groups of problems are both empty.
append_iff :
    {A P Q : Type 0} (xs ys : List A) → (xs ≡ []) ↔ P → (ys ≡ []) ↔ Q → (xs ++ ys ≡ []) ↔ (P × Q)
append_iff xs ys f g = (
  λ e. let (a, b) = (append-eq-nil xs ys).0 e in (f.0 a, g.0 b),
  λ h. (append-eq-nil xs ys).1 (f.1 h.0, g.1 h.1),
)

caption_credit_iff :
    (image : Image) (l : Label) → (caption_credit_errors image l ≡ []) ↔ Captioned image
unfolding caption_credit_errors
caption_credit_iff image l =
    append_iff _ _ (too_long_iff image.caption _ _) (too_long_iff image.credit _ _)

when-eq-nil : (b : Bool) (p : Problem) → (when b p ≡ []) ↔ (b ≡ false)
when-eq-nil b p = ground arith

each_image_iff :
    (i : ℕ) (images : List Image) → (each_image_errors i images ≡ []) ↔ All Shown images
unfolding each_image_errors
each_image_iff i [] = ground arith
each_image_iff i (image ∷ rest) =
    let all = append_iff _ _ (when-eq-nil (is_blank_name image.document) (Problem.no_document i)) (
      append_iff _ _ (when-eq-nil (is_blank image.alt) (Problem.no_alt i))
        (append_iff _ _ (caption_credit_iff image (gallery i)) (each_image_iff (suc i) rest))) in
    (
      λ e. let h = all.0 e in ((h.0, h.1.0, h.1.1.0), h.1.1.1),
      λ h. all.1 (h.0.0, (h.0.1, (h.0.2, h.1))),
    )

too_many_iff : (n : ℕ) (p : Problem) → (when (ltb images_max n) p ≡ []) ↔ (n ≤ images_max)
too_many_iff n p = ground arith

image_iff : (images : Images) → (image_errors images ≡ []) ↔ GalleryValid images
unfolding image_errors
image_iff unset = ground arith
image_iff not_a_list = ground arith
image_iff (list_of images) =
    append_iff _ _ (too_many_iff (length images) Problem.too_many_images) (each_image_iff 0 images)

featured_alt_iff :
    (a b : Bool) (p : Problem) → (when (not a && b) p ≡ []) ↔ ((a ≡ true) ⊎ (b ≡ false))
featured_alt_iff a b p = ground arith

featured_iff : (image : Option Image) → (featured_errors image ≡ []) ↔ FeaturedValid image
unfolding featured_errors
featured_iff none = ground arith
featured_iff (some image) =
    append_iff _ _
      (featured_alt_iff (is_blank_name image.document) (is_blank image.alt) Problem.no_featured_alt)
      (caption_credit_iff image featured)

status_iff :
    (o : Option String) (p : Problem)
    → (when (not (is_blank_name o) && not (is_known_status o)) p ≡ []) ↔ StatusValid o
unfolding is_known_status is_blank_name
status_iff none p = ground arith
status_iff (some s) p = ground (arith, includes→Mem statuses s, Mem→includes statuses s)

category_iff : (u : Update) → (category_errors u ≡ []) ↔ CategoryValid u
unfolding category_errors
category_iff u = ground arith

module _ (url_protocol : Text → Option Text) where
  abbrev pub UrlValid : Option Text → Type 0
  UrlValid none = Unit {0}
  UrlValid (some s) = (is_blank (some s) ≡ true) ⊎ (is_http_url url_protocol s ≡ true)

  url_iff : (o : Option Text) → (url_errors url_protocol o ≡ []) ↔ UrlValid o
  unfolding url_errors
  url_iff none = ground arith
  url_iff (some s) = ground arith

  -- An Update that may be saved.
  pub record IsValid (u : Update) : Type 0 where
    pub status : StatusValid u.status
    pub headline : Fits u.short_headline short_headline_max
    pub summary : Fits u.summary summary_max
    pub plain_headline : Plain u.short_headline
    pub plain_summary : Plain u.summary
    pub featured : FeaturedValid u.featured_image
    pub gallery : GalleryValid u.images
    pub url : UrlValid u.engagement_url
    pub category : CategoryValid u

  -- `validate` returns no message exactly for the Updates that meet every rule: a known status or
  -- none, texts within their limits and free of tags, an alternative text on every image, at most
  -- five images each with a document, an http or https URL, and what the category asks for.
  pub validate_iff : (u : Update) → (validate url_protocol u ≡ []) ↔ IsValid u
  unfolding validate
  validate_iff u =
      let all = append_iff _ _ (status_iff u.status Problem.bad_status) (
        append_iff _ _ (too_long_iff u.short_headline short_headline_max Problem.long_headline) (
          append_iff _ _ (too_long_iff u.summary summary_max Problem.long_summary) (
            append_iff _ _ (tagged_iff u.short_headline Problem.tag_in_headline) (
              append_iff _ _ (tagged_iff u.summary Problem.tag_in_summary) (
                append_iff _ _ (featured_iff u.featured_image) (
                  append_iff _ _ (image_iff u.images)
                    (append_iff _ _ (url_iff u.engagement_url) (category_iff u)))))))) in
      (
        λ e.
            let h = all.0 e in
            record {
              status = h.0;
              headline = h.1.0;
              summary = h.1.1.0;
              plain_headline = h.1.1.1.0;
              plain_summary = h.1.1.1.1.0;
              featured = h.1.1.1.1.1.0;
              gallery = h.1.1.1.1.1.1.0;
              url = h.1.1.1.1.1.1.1.0;
              category = h.1.1.1.1.1.1.1.1;
            },
        λ v. all.1 (
          v.status,
          (
            v.headline,
            (
              v.summary,
              (v.plain_headline, (v.plain_summary, (v.featured, (v.gallery, (v.url, v.category))))),
            ),
          ),
        ),
      )
