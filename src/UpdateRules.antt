-- ===== src/UpdateRules.antt =====
-- The rules for an Update: api/helpers/updateRules.js, the checks on write. Each message of the
-- source is a constructor of `Problem`. Absent, undefined and null fields are `none`; a text whose
-- length is checked is the list of its code units.
pub mod Status
pub mod Validity
use eagle_api.Prelude.{
  ◌&&◌, ◌+◌, ◌++◌, ◌<◌, ◌==◌, ◌===◌, ◌||◌, ◌∷◌, Bool, List, Option, String, Text, [], all, false,
  if◌then◌else◌, includes, is_name, is_space, length, leb, ltb, none, not, some, suc, true, units,
  ℕ, text_eq,
}

pub record Image : Type 0 where
  pub document : Option String
  pub alt : Option Text
  pub caption : Option Text
  pub credit : Option Text

-- The `images` of a request body; a null entry of the array is an image with no field.
pub data Images : Type 0 where
  unset not_a_list : Images
  list_of : List Image → Images

pub record Update : Type 0 where
  pub status : Option String
  pub active : Option Bool
  pub read : Option (List String)
  pub publish_date : Option ℕ
  pub short_headline : Option Text
  pub summary : Option Text
  pub featured_image : Option Image
  pub images : Images
  pub engagement_url : Option Text
  pub category : Option String
  pub subject : Option Text
  pub project : Option String
  pub pcp : Option String
  pub kind : Option String

pub data Label : Type 0 where
  featured : Label
  gallery : ℕ → Label

pub data Problem : Type 0 where
  bad_status long_headline long_summary tag_in_headline tag_in_summary : Problem
  no_featured_alt images_not_list too_many_images bad_url no_subject no_project : Problem
  long_caption long_credit : Label → Problem
  no_document no_alt : ℕ → Problem

abbrev pub statuses : List String
statuses = "draft" ∷ "published" ∷ "archived" ∷ []

abbrev pub short_headline_max : ℕ
short_headline_max = 70

abbrev pub summary_max : ℕ
summary_max = 280

abbrev pub images_max : ℕ
images_max = 5

abbrev pub image_caption_max : ℕ
image_caption_max = 300

abbrev pub image_credit_max : ℕ
image_credit_max = 150

abbrev pub corporate : String
corporate = "Corporate"

abbrev pub pn_pcp_type : String
pn_pcp_type = "Project Notification Public Comment Period"

unfoldable pub is_blank : Option Text → Bool
is_blank none = true
is_blank (some s) = all is_space s

unfoldable pub is_blank_name : Option String → Bool
is_blank_name none = true
is_blank_name (some s) = all is_space (units s)

-- What may stand after `<`: a letter, `/` or `!`.
abbrev pub opens_tag : ℕ → Bool
opens_tag c = leb b'a' c && leb c b'z' || leb b'A' c && leb c b'Z' || c == b'/' || c == b'!'

unfoldable pub has_tag : Text → Bool
has_tag [] = false
has_tag (c ∷ []) = false
has_tag (c ∷ d ∷ s) = c == b'<' && opens_tag d || has_tag (d ∷ s)

abbrev pub when : Bool → Problem → List Problem
when b p = if b then p ∷ [] else []

-- A text that is given and longer than the limit.
unfoldable pub is_too_long : Option Text → ℕ → Bool
unfolding is_blank
is_too_long none limit = false
is_too_long (some s) limit = not (is_blank (some s)) && ltb limit (length s)

unfoldable pub is_tagged : Option Text → Bool
unfolding is_blank has_tag
is_tagged none = false
is_tagged (some s) = not (is_blank (some s)) && has_tag s

unfoldable pub caption_credit_errors : Image → Label → List Problem
caption_credit_errors image label =
    when (is_too_long image.caption image_caption_max) (long_caption label)
    ++ when (is_too_long image.credit image_credit_max) (long_credit label)

-- The `forEach` of `imageErrors`, from index `i`.
unfoldable pub each_image_errors : ℕ → List Image → List Problem
each_image_errors i [] = []
each_image_errors i (image ∷ rest) =
    when (is_blank_name image.document) (no_document i)
    ++ (when (is_blank image.alt) (no_alt i)
        ++ (caption_credit_errors image (gallery i) ++ each_image_errors (suc i) rest))

unfoldable pub image_errors : Images → List Problem
image_errors unset = []
image_errors not_a_list = images_not_list ∷ []
image_errors (list_of images) =
    when (ltb images_max (length images)) too_many_images ++ each_image_errors 0 images

unfoldable pub is_known_status : Option String → Bool
is_known_status none = false
is_known_status (some s) = includes statuses s

unfoldable pub featured_errors : Option Image → List Problem
featured_errors none = []
featured_errors (some image) =
    when (not (is_blank_name image.document) && is_blank image.alt) no_featured_alt
    ++ caption_credit_errors image featured

unfoldable pub category_errors : Update → List Problem
category_errors u =
    if is_blank_name u.category
    then []
    else if is_name u.category corporate && is_blank u.subject
    then no_subject ∷ []
    else if not (is_name u.category corporate)
        && is_blank_name u.project
        && is_blank_name u.pcp
        && not (is_name u.kind pn_pcp_type)
    then no_project ∷ []
    else []

-- `new URL(value).protocol`, none where the constructor throws.
module _ (url_protocol : Text → Option Text) where
  unfoldable pub is_http_url : Text → Bool
  is_http_url s = elim (url_protocol s) [
    | none ↦ false
    | some p ↦ text_eq p (units "http:") || text_eq p (units "https:")
  ]

  unfoldable pub url_errors : Option Text → List Problem
  url_errors none = []
  url_errors (some s) = when (not (is_blank (some s)) && not (is_http_url s)) bad_url

  unfoldable pub validate : Update → List Problem
  validate u =
      when (not (is_blank_name u.status) && not (is_known_status u.status)) bad_status
      ++ (when (is_too_long u.short_headline short_headline_max) long_headline
          ++ (when (is_too_long u.summary summary_max) long_summary
              ++ (when (is_tagged u.short_headline) tag_in_headline
                  ++ (when (is_tagged u.summary) tag_in_summary
                      ++ (featured_errors u.featured_image
                          ++ (image_errors u.images
                              ++ (url_errors u.engagement_url ++ category_errors u)))))))
