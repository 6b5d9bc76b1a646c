-- ===== src/Projects/Updated.antt =====
-- What a PUT leaves of a project that other requests may have changed since it was read
-- (protectedPut of api/controllers/project.js).
use eagle_api.Prelude.{◌≡◌, ◌≢◌, ◌⊎◌, Option, String, false, none, some, ℕ}
use eagle_api.Legislation.{label_of, legislation_key}
use eagle_api.Projects.{Project, ProjectBody, ProjectReply, is_guarded_off, saved, set_block}
use eagle_api.Projects.Puts.{
  Contacts, locked_keys_other_than, put_block, refuses_legislation_change, year_of, years_with,
}

module _ {Content : Type 0} (phase_name : String → Option String)
    (new_date : Content → Content) where
  -- The project after a PUT that read `p` and found `q` when it wrote.
  pub record IsUpdated (b : ProjectBody Content) (p q r : Project Content) : Type 0 where
    pub year : ℕ
    pub key : String
    pub of_year : year_of p.current b.sent_year ≡ some year
    pub of_key : legislation_key year ≡ some key
    pub is_current : r.current ≡ some key
    pub same_readers : r.read ≡ q.read
    pub same_deleted : r.is_deleted ≡ q.is_deleted
    pub same_blocks : (k : String) → k ≢ key → r.blocks k ≡ q.blocks k
    pub labelled : (r.blocks key).legislation ≡ label_of year
    pub sent_fields : (r.blocks key).copied ≡ b.sent
    pub cleared_lead : ((r.blocks key).lead).person ≡ none → ((r.blocks key).lead).name ≡ ""
    pub cleared_epd : ((r.blocks key).epd).person ≡ none → ((r.blocks key).epd).name ≡ ""
    pub not_moved : is_guarded_off (locked_keys_other_than key) q.current ≡ false
    pub allowed : refuses_legislation_change p.current b.sent_year ≡ false

  -- A PUT is saved as described, or it leaves the project as it is and says so.
  abbrev pub PutOutcome :
      ProjectBody Content
      → Option (Project Content)
      → Option (Project Content)
      → Option (Project Content) × ProjectReply
      → Type 0
  PutOutcome b found stored o =
      ((p q r : Project Content) × (found ≡ some p)
        × (stored ≡ some q)
        × (o.0 ≡ some r)
        × (o.1 ≡ saved)
        × IsUpdated b p q r)
      ⊎ ((o.0 ≡ stored) × (o.1 ≢ saved))

  module _ (b : ProjectBody Content) (ids : Contacts) (p : Project Content) where
    update_of : ℕ → String → Project Content → Project Content
    update_of year key q = record q {
      current = some key;
      years = years_with b.sent_year p.years;
      blocks = set_block key (put_block phase_name new_date b ids year (p.blocks key)) q.blocks;
    }
