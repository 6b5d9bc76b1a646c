-- ===== src/Revising/Versions.antt =====
-- Requests that change one Update at the same time (api/controllers/recentActivity.js): a PUT reads
-- the row and passes its checks, and its write arrives later; protectedDelete is one write.
use eagle_api.Prelude.{
  erase_idx, get_elem?, ◌<◌, ◌≤◌, ◌∷◌, ◌⊎◌, Bool, List, Option, String, Text, [], inl, inr, none,
  some, ℕ,
}
use eagle_api.UpdateImages.{Doc}
use eagle_api.Revising.{PutBody, PutReply, Revision, Stored, archive, begin_put, write_revision}

-- The row, the revisions that wait, and the last moment at which the row was written or read.
pub record Editing : Type 0 where
  pub row : Stored
  pub waiting : List Revision
  pub clock : ℕ

-- A PUT begins with what its checks find; the revision at a position arrives at a moment; the row is
-- archived at a moment.
pub data Edit : Type 0 where
  begin : Option (List Doc) → Bool → ℕ → PutBody → Edit
  arrive : ℕ → ℕ → Edit
  archive_at : ℕ → Edit

abbrev pub queued : PutReply ⊎ Revision → List Revision → List Revision
queued (inl r) ws = ws
queued (inr w) ws = w ∷ ws

abbrev pub or_kept : Stored → Option Stored → Stored
or_kept s none = s
or_kept s (some q) = q

abbrev pub arrived : ℕ → Option Revision → Stored → Stored
arrived now none s = s
arrived now (some w) s = or_kept s (write_revision now w (some s))

-- A version of no later moment.
abbrev pub IsPast : ℕ → Option ℕ → Type 0
IsPast clock none = Unit
IsPast clock (some v) = v ≤ clock

module _ (url_protocol : Text → Option Text) (object_id : String → ℕ) where
  unfoldable pub edit : Edit → Editing → Editing
  edit (begin docs images_published now b) e = record e {
    waiting =
        queued (begin_put url_protocol object_id docs images_published now b (some e.row))
          e.waiting;
  }
  edit (arrive n now) e = record {
    row = arrived now (get_elem? e.waiting n) e.row;
    waiting = erase_idx e.waiting n;
    clock = now;
  }
  edit (archive_at now) e = record e { row = archive now e.row; clock = now }

  unfoldable pub edits : List Edit → Editing → Editing
  unfolding edit
  edits [] e = e
  edits (m ∷ ms) e = edits ms (edit m e)

  -- The clock stands later at each write, and a client sends a version that it has loaded.
  abbrev pub IsTimelyEdit : Edit → Editing → Type 0
  IsTimelyEdit (begin docs images_published now b) e = IsPast e.clock b.loaded
  IsTimelyEdit (arrive n now) e = e.clock < now
  IsTimelyEdit (archive_at now) e = e.clock < now

  abbrev pub AreTimely : List Edit → Editing → Type 0
  AreTimely [] e = Unit
  AreTimely (m ∷ ms) e = IsTimelyEdit m e × AreTimely ms (edit m e)
