-- ===== src/Examples/Updates.antt =====
-- Updates: a draft that goes live, and rows that the status backfill has not reached.
use eagle_api.Prelude.{
  ◌↔◌, ◌≡◌, ◌≢◌, ◌∷◌, Option, Text, [], false, is_name, none, refl, some, true, units,
}
use eagle_api.Mongo.Reference.{reference}
use eagle_api.UpdateRules.{
  Problem, Update, unset, validate, is_blank_name, is_known_status, is_too_long, is_tagged,
  featured_errors, image_errors, url_errors, category_errors,
}
use eagle_api.UpdateRules.Validity.{IsValid, validate_iff}
use eagle_api.UpdateRules.Status.{apply_status, is_live, lay_over, public_visible_match, row_of}
use eagle_api.UpdateRules.Status.Visibility.{
  Differs, apply_status-is_live, public_visible_match-is_live,
}

abbrev pub blank : Update
blank = record {
  status = none;
  active = none;
  read = none;
  publish_date = none;
  short_headline = none;
  summary = none;
  featured_image = none;
  images = unset;
  engagement_url = none;
  category = none;
  subject = none;
  project = none;
  pcp = none;
  kind = none;
}

abbrev corporate_update : Update
corporate_update = record blank {
  status = some "published";
  read = some ("sysadmin" ∷ "public" ∷ []);
  category = some "Corporate";
  summary = some (units "a <b>");
}

abbrev early : Update
early = record blank { active = some true; publish_date = some 9 }

-- The protocol of every URL is https.
abbrev pub https : Text → Option Text
https url = some (units "https:")

validate_corporate :
    validate https corporate_update ≡ Problem.tag_in_summary ∷ Problem.no_subject ∷ []
unfolding validate is_blank_name is_known_status is_too_long is_tagged featured_errors image_errors
    url_errors category_errors is_name
validate_corporate = refl

validate_iff_example : (validate https corporate_update ≡ []) ↔ IsValid https corporate_update
validate_iff_example = validate_iff https corporate_update

apply_status-is_live_example :
    let stored = lay_over corporate_update (apply_status 5 false blank corporate_update) in
    reference.matches (public_visible_match 7) (row_of stored) ≡ is_live stored 7
apply_status-is_live_example = apply_status-is_live reference 5 7 false blank corporate_update

public_visible_match-is_live_example :
    (reference.matches (public_visible_match 5) (row_of early) ≢ is_live early 5) ↔ Differs early 5
public_visible_match-is_live_example = public_visible_match-is_live reference 5 early
