-- ===== src/Examples/Edited.antt =====
-- Two PUTs that read one Update: the first to arrive is accepted, the second is refused.
use eagle_api.Prelude.{◌≡◌, ◌∷◌, List, String, [], none, refl, some, true, units, zero, ℕ, false}
use eagle_api.Prelude.{arith, is_name}
use eagle_api.UpdateRules.{
  Update, category_errors, featured_errors, has_tag, image_errors, is_blank, is_blank_name,
  is_known_status, is_tagged, is_too_long, url_errors, validate,
}
use eagle_api.UpdateRules.Status.{apply_status, lay_over, status_of}
use eagle_api.Posting.{check}
use eagle_api.UpdateRules.Validity.{IsValid, validate_iff}
use eagle_api.Examples.Updates.{blank, https}
use eagle_api.Revising.{
  PutBody, Revision, Stored, applied, begin_put, check_put, is_pin_toggle, lay_fields, merged,
  overwrite, revision, updated, write_revision,
}
use eagle_api.Revising.Versions.{Edit, Editing, archive_at, arrive, begin, edit, edits}
use eagle_api.Revising.Standing.{IsStanding, edits-IsStanding, edits-overwrite}

abbrev draft : Update
draft = record blank { status = some "draft"; active = some false; read = some ("staff" ∷ []) }

abbrev row : Stored
row = record { update = draft; attachments = []; pinned = false; version = some 4 }

abbrev headline : PutBody
headline = record {
  status = none;
  active = none;
  publish_date = none;
  short_headline = some (some (units "Dam"));
  summary = none;
  featured_image = none;
  images = none;
  engagement_url = none;
  category = none;
  subject = none;
  project = none;
  pcp = none;
  kind = none;
  attachments = none;
  pinned = none;
  loaded = some 4;
}

abbrev any_project : String → ℕ
any_project p = 0

abbrev opened : Editing
opened = record { row = row; waiting = []; clock = 4 }

abbrev first_edit : Edit
first_edit = begin (some []) true 5 headline

abbrev both_read : List Edit
both_read = first_edit ∷ first_edit ∷ []

abbrev ready_revision : Revision
ready_revision = revision https any_project 5 headline row

abbrev both_begun : Editing
both_begun = edits https any_project both_read opened

-- The row after the first write.
abbrev written_row : Stored
written_row = overwrite 6 ready_revision row

edits-overwrite_example :
    (ready_revision.existing ≡ both_begun.row)
    × ((edit https any_project (arrive zero 6) both_begun).row ≡ written_row)
    × (written_row.update ≡ updated 5 headline both_begun.row.update)
unfolding edits edit begin_put check_put check validate is_known_status is_too_long is_tagged
    featured_errors image_errors url_errors category_errors is_name is_blank_name is_blank has_tag
    updated applied merged lay_fields lay_over apply_status status_of is_pin_toggle write_revision
edits-overwrite_example =
    edits-overwrite https any_project both_read row 4 zero 6 ready_revision written_row
      (omega arith) (omega arith, (omega arith, tt)) (refl, refl)

draft-IsValid : IsValid https draft
unfolding validate is_known_status is_too_long is_tagged featured_errors image_errors url_errors
    category_errors is_name is_blank_name
draft-IsValid = (validate_iff https draft).0 refl

draft-IsStanding : IsStanding https any_project draft
unfolding is_name
draft-IsStanding = (draft-IsValid, refl, "staff" ∷ [], refl, refl)

-- The second write arrives too late, and the row is archived.
abbrev all_edits : List Edit
all_edits = first_edit ∷ first_edit ∷ arrive zero 6 ∷ arrive zero 7 ∷ archive_at 9 ∷ []

edits-IsStanding_example :
    IsStanding https any_project (edits https any_project all_edits opened).row.update
unfolding edit
edits-IsStanding_example =
    edits-IsStanding https any_project all_edits row 4 (omega arith) draft-IsStanding
      (omega arith, (omega arith, (omega arith, (omega arith, (omega arith, tt)))))
