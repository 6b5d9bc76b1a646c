-- ===== src/Revising.antt =====
-- The change and the archiving of an Update: protectedPut and protectedDelete of
-- api/controllers/recentActivity.js, with isPinToggle of api/helpers/updateRules.js. The check and
-- the documents are those of Posting and UpdateImages. A date of the body has been read to its
-- milliseconds, and a date that is 0 or missing is none. `notifiedAt`, the name of a notification and
-- who updated the row are left out, as are the audit record and the DEMI push.
pub mod Versions
pub mod Atomic
pub mod Standing
use eagle_api.Prelude.{
  given, or_else, ◌&&◌, ◌===◌, ◌==◌, ◌||◌, ◌∷◌, Bool, List, Option, String, Text, [], ◌⊎◌, inl, inr,
  all, false, filter, if◌then◌else◌, includes, is_name, none, not, some, true, ℕ,
}
use eagle_api.UpdateRules.{Image, Images, Update}
use eagle_api.UpdateRules.Status.{apply_status, is_live, is_unset, lay_over}
use eagle_api.UpdateImages.{Doc, Saves, ShownElsewhere, Shows, publish_for, shown_document_ids}
use eagle_api.Posting.{Body, Checked, check, fine, shows_of}

-- A stored Update; `version` is its dateUpdated.
pub record Stored : Type 0 where
  pub update : Update
  pub attachments : List (Option String)
  pub pinned : Bool
  pub version : Option ℕ

-- A field of a body: none where it is not sent, and some none where it is sent as null.
abbrev pub Sent : Type 0 → Type 0
Sent A = Option (Option A)

pub record PutBody : Type 0 where
  pub status : Sent String
  pub active : Option Bool
  pub publish_date : Option ℕ
  pub short_headline : Sent Text
  pub summary : Sent Text
  pub featured_image : Sent Image
  pub images : Option Images
  pub engagement_url : Sent Text
  pub category : Sent String
  pub subject : Sent Text
  pub project : Sent String
  pub pcp : Sent String
  pub kind : Sent String
  pub attachments : Option (List (Option String))
  pub pinned : Option Bool
  pub loaded : Option ℕ

abbrev pub is_true : Option Bool → Bool
is_true none = false
is_true (some b) = b

-- The fields of the body, other than those that applyStatus writes, over a row's.
unfoldable pub lay_fields : PutBody → Update → Update
lay_fields b u = record u {
  short_headline = given b.short_headline u.short_headline;
  summary = given b.summary u.summary;
  featured_image = given b.featured_image u.featured_image;
  images = given b.images u.images;
  engagement_url = given b.engagement_url u.engagement_url;
  category = given b.category u.category;
  subject = given b.subject u.subject;
  project = given b.project u.project;
  pcp = given b.pcp u.pcp;
  kind = given b.kind u.kind;
}

-- `deriveStatus`: no status is sent, and the row is not archived.
abbrev pub derives_status : PutBody → Update → Bool
derives_status b u = is_unset b.status && not (is_name u.status "archived")

-- `merged`: the row, without its status where that is derived, under the body.
unfoldable pub merged : PutBody → Update → Update
unfolding lay_fields
merged b u =
    let fields = lay_fields b u in
    record fields {
      status = given b.status (if derives_status b u then none else u.status);
      active = some (is_true b.active);
      publish_date = or_else b.publish_date u.publish_date;
    }

-- What `applyStatus` writes onto the body.
unfoldable pub applied : ℕ → PutBody → Update → Update
unfolding merged
applied now b u =
    let m = merged b u in
    apply_status now (is_live u now) (record m { publish_date = b.publish_date }) m

-- `updated`: the row as the checks see it.
unfoldable pub updated : ℕ → PutBody → Update → Update
unfolding applied
updated now b u = lay_over (merged b u) (applied now b u)

abbrev pub same_ids : List String → List String → Bool
same_ids xs ys = all (includes ys) xs && all (includes xs) ys

-- The ids of each are listed once, so that sorting and joining them compares the two as sets.
unfoldable pub is_pin_toggle : Update → Bool → Shows → Update → Bool → Shows → Bool
is_pin_toggle old old_pinned old_shows new new_pinned new_shows =
    is_name old.status "published"
    && is_name new.status "published"
    && not ((old_pinned && new_pinned) || (not old_pinned && not new_pinned))
    && same_ids (shown_document_ids old_shows) (shown_document_ids new_shows)

abbrev pub same_version : Option ℕ → Option ℕ → Bool
same_version none none = true
same_version (some v) (some w) = v == w
same_version _ _ = false

-- A PUT that has passed its checks: the row that it read, and the version that it asks for.
pub record Revision : Type 0 where
  pub existing : Stored
  pub body : PutBody
  pub applied_at : ℕ
  pub loaded : Option ℕ

-- The update of the row that matches: the body's fields, and what applyStatus wrote onto it.
unfoldable pub overwrite : ℕ → Revision → Stored → Stored
overwrite now r q = record q {
  update = lay_over (lay_fields r.body q.update) (applied r.applied_at r.body r.existing.update);
  attachments = given r.body.attachments q.attachments;
  pinned = given r.body.pinned q.pinned;
  version = some now;
}

-- `findOneAndUpdate` by the version; none where no row matches.
unfoldable pub write_revision : ℕ → Revision → Option Stored → Option Stored
unfolding overwrite
write_revision now r none = none
write_revision now r (some q) =
    if same_version q.version r.loaded then some (overwrite now r q) else none

-- protectedDelete.
unfoldable pub archive : ℕ → Stored → Stored
archive now s =
    let u = s.update in
    record s {
      update = record u {
        status = some "archived";
        active = some false;
        read = elim u.read [
          | none ↦ none
          | some roles ↦ some (filter (λ role. not (role === "public")) roles)
        ];
      };
      version = some now;
    }

pub data PutReply : Type 0 where
  missing images_failed conflict replied : PutReply
  rejected : Checked → PutReply

module _ (url_protocol : Text → Option Text) (object_id : String → ℕ) where
  abbrev pub body_of : Update → List (Option String) → Body
  body_of u attachments = record { update = u; attachments = attachments }

  -- The check of the row as it will be stored; the documents are none where their query throws.
  unfoldable pub check_put : ℕ → PutBody → Stored → Option (List Doc) → Checked
  check_put now b e docs =
      let u = updated now b e.update in
      let attachments = given b.attachments e.attachments in
      check url_protocol object_id
        (not (
          is_pin_toggle e.update e.pinned
            (shows_of url_protocol object_id (body_of e.update e.attachments)) u
            (given b.pinned e.pinned) (shows_of url_protocol object_id (body_of u attachments))))
        (body_of u attachments) docs

  abbrev pub revision : ℕ → PutBody → Stored → Revision
  revision now b e = record {
    existing = e;
    body = b;
    applied_at = now;
    loaded = or_else b.loaded e.version;
  }

  -- Up to the write. `images_published` is whether publishFor returns for an Update to publish.
  abbrev pub after_check : Bool → ℕ → PutBody → Stored → Checked → PutReply ⊎ Revision
  after_check images_published now b e fine =
      if is_name (updated now b e.update).status "published" && not images_published
      then inl images_failed
      else inr (revision now b e)
  after_check images_published now b e c = inl (rejected c)

  unfoldable pub begin_put :
      Option (List Doc) → Bool → ℕ → PutBody → Option Stored → PutReply ⊎ Revision
  unfolding check_put
  begin_put docs images_published now b none = inl missing
  begin_put docs images_published now b (some e) =
      after_check images_published now b e (check_put now b e docs)

  -- The whole handler: `later` is the row when the write arrives.
  unfoldable pub protected_put :
      Option (List Doc)
      → Bool
      → ℕ
      → ℕ
      → PutBody
      → Option Stored
      → Option Stored
      → Option Stored × PutReply
  protected_put docs images_published now stamp b found later =
      elim (begin_put docs images_published now b found) [
        | inl r ↦ (later, r)
        | inr w ↦ elim (write_revision stamp w later) [
          | none ↦ (later, conflict)
          | some q ↦ (some q, replied)
        ]
      ]

-- The row after protectedDelete, and whether there was one to archive.
unfoldable pub protected_delete : ℕ → Option Stored → Option Stored × Bool
unfolding archive
protected_delete now none = (none, false)
protected_delete now (some s) = (some (archive now s), true)
