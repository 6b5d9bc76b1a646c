-- ===== src/Projects/Posts.antt =====
-- The creation of a project (protectedPost of api/controllers/project.js). What Mongoose makes of a
-- body for a block, the block of an Act without a body, and whether a proponent is an object id are
-- parameters, as is what `||` puts in the place of a missing value.
use eagle_api.Prelude.{
  ◌∷◌, Bool, List, Option, String, [], false, if◌then◌else◌, none, some, true, ℕ,
}
use eagle_api.DataQuery.Ids.{apply_create_id}
use eagle_api.Legislation.{default_legislation_year, label_of, legislation_key, legislations}
use eagle_api.SearchTerms.{generate_search_terms}
use eagle_api.Projects.{
  Block, Contact, Project, ProjectBody, ProjectReply, bad_request, id_taken, saved, set_block,
  words_to_analyze,
}
use eagle_api.Projects.Puts.{Contacts, contact_ids_of, status_name}

abbrev pub default_readers : List String
default_readers = "sysadmin" ∷ "staff" ∷ []

abbrev pub or_default : Option ℕ → Option ℕ
or_default none = default_legislation_year legislations
or_default (some y) = some y

abbrev pub with_person : Option String → Contact → Contact
with_person person c = record c { person = person }

module _ {Content : Type 0} (is_valid : String → Bool) (object_id : String → String)
    (phase_name : String → Option String) (block_of : ProjectBody Content → Block Content)
    (empty_block : Block Content) (is_ref : Content → Bool) (or_null : Content → Content) where
  unfoldable pub new_block : ProjectBody Content → Contacts → ℕ → Block Content
  new_block b ids year =
      let made = block_of b in
      let copied = made.copied in
      record made {
        copied = record copied {
          proponent = (b.sent).proponent;
          ceaa_involvement = or_null (b.sent).ceaa_involvement;
          eac_decision = or_null (b.sent).eac_decision;
        };
        legislation = label_of year;
        lead = with_person ids.0 made.lead;
        epd = with_person ids.1 made.epd;
        status = status_name phase_name b.sent_phase;
        search_terms = generate_search_terms (b.sent).name words_to_analyze;
      }

  unfoldable pub new_project : ProjectBody Content → Contacts → ℕ → String → Project Content
  unfolding new_block
  new_project b ids year key = record {
    current = some key;
    years = year ∷ [];
    blocks = set_block key (new_block b ids year) (λ k. empty_block);
    read = default_readers;
    is_deleted = false;
  }

  -- The save: an id that is taken is refused.
  abbrev pub create :
      Bool → Option (Project Content) → Project Content → Option (Project Content) × ProjectReply
  create goes_through (some p) q = (some p, id_taken)
  create true none q = (some q, saved)
  create false none q = (none, bad_request)

  abbrev pub post_with :
      Bool
      → ProjectBody Content
      → Option (Project Content)
      → ℕ
      → String
      → Option Contacts
      → Option (Project Content) × ProjectReply
  post_with goes_through b stored year key none = (stored, bad_request)
  post_with goes_through b stored year key (some ids) =
      if is_ref (b.sent).proponent
      then create goes_through stored (new_project b ids year key)
      else (stored, bad_request)

  abbrev pub post_under :
      Bool
      → String
      → Option String
      → ProjectBody Content
      → Option (Project Content)
      → ℕ
      → Option String
      → Option (Project Content) × ProjectReply
  post_under goes_through generated sent_id b stored year none = (stored, bad_request)
  post_under goes_through generated sent_id b stored year (some key) =
      elim (apply_create_id object_id generated sent_id) [
        | none ↦ (stored, bad_request)
        | some id ↦ post_with goes_through b stored year key (contact_ids_of is_valid b)
      ]

  -- `stored` is the project under the id that the new one gets.
  unfoldable pub protected_post :
      Bool
      → String
      → Option String
      → ProjectBody Content
      → Option (Project Content)
      → Option (Project Content) × ProjectReply
  protected_post goes_through generated sent_id b stored = elim (or_default b.sent_year) [
    | none ↦ (stored, bad_request)
    | some year ↦ post_under goes_through generated sent_id b stored year (legislation_key year)
  ]
