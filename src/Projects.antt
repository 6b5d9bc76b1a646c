-- ===== src/Projects.antt =====
-- A project and the requests that change it: api/controllers/project.js with publish, unPublish and
-- delete of api/helpers/actions.js. The state is the project that is stored under the id of the
-- request, none where there is none. A request reads the project, and what it writes is a `Write`,
-- which may reach the store after the writes of other requests. The lists of phases and the parser
-- of object ids are functions; a date is made by `new_date`. The queries answer.
pub mod Puts
pub mod Publishing
pub mod Posts
pub mod Handlers
pub mod Running
pub mod Acts
pub mod Requests
pub mod Consistent
pub mod Updated
pub mod Agreement
use eagle_api.Prelude.{
  or_else, ◌&&◌, ◌++◌, ◌===◌, ◌==◌, ◌||◌, ◌∷◌, Bool, List, Option, String, Text, [], false, filter,
  if◌then◌else◌, includes, none, not, some, true, ℕ,
}

-- The fields of a legislation block that a PUT copies from the body; `Content` is the values of the others.
pub record Copied (Content : Type 0) : Type 0 where
  pub name : Option Text
  pub kind : Content
  pub build : Content
  pub sector : Content
  pub description : Content
  pub location : Content
  pub region : Content
  pub ea_status : Content
  pub ea_status_date : Content
  pub substantially : Content
  pub substantially_date : Content
  pub dispute : Content
  pub dispute_date : Content
  pub centroid : Content
  pub ceaa_involvement : Content
  pub ceaa_link : Content
  pub eac_decision : Content
  pub proponent : Content

-- A contact: an id and the name that is kept beside it.
pub record Contact : Type 0 where
  pub person : Option String
  pub name : String

-- `phaseHistory`: the default '', null, or the phases. A phase that is not sent is
-- none, and is stored as null, also none.
pub data PhaseHistory : Type 0 where
  unstarted null : PhaseHistory
  phases : List (Option String) → PhaseHistory

-- A body's `investment` and `notes`.
pub record Intake (Content : Type 0) : Type 0 where
  pub investment : Content
  pub notes : Content

-- The part of a project that is kept for one Act; `others` is what no request here sets.
pub record Block (Content : Type 0) : Type 0 where
  pub copied : Copied Content
  pub legislation : Option String
  pub legislation_year : Option ℕ
  pub status : String
  pub lead : Contact
  pub epd : Contact
  pub decision_date : Option Content
  pub search_terms : Option (List Text)
  pub intake : Option (Intake Content)
  pub current_phase : Option String
  pub phase_history : PhaseHistory
  pub others : Content

-- `blocks` is the blocks by their keys: each is there, with the schema's defaults at first.
pub record Project (Content : Type 0) : Type 0 where
  pub current : Option String
  pub years : List ℕ
  pub blocks : String → Block Content
  pub read : List String
  pub is_deleted : Bool

-- The body of a POST or a PUT. `sent_year` is none where it is missing, 0 or ''.
pub record ProjectBody (Content : Type 0) : Type 0 where
  pub sent : Copied Content
  pub sent_year : Option ℕ
  pub lead_id : Option String
  pub epd_id : Option String
  pub sent_phase : Option String
  pub sent_decision_date : Option Content
  pub sent_intake : Option (Intake Content)

pub data ProjectReply : Type 0 where
  bad_request not_found unknown_year id_taken failed saved : ProjectReply
  locked : List String → ProjectReply
  no_content : ℕ → ProjectReply

abbrev pub words_to_analyze : ℕ
words_to_analyze = 3

abbrev pub includes_year : List ℕ → ℕ → Bool
includes_year [] y = false
includes_year (x ∷ xs) y = x == y || includes_year xs y

-- `filter: { currentLegislationYear: { $nin: keys } }`, which a missing key passes.
abbrev pub is_guarded_off : List String → Option String → Bool
is_guarded_off guards none = false
is_guarded_off guards (some key) = includes guards key

-- What reaches the store: the update of a PUT; the saves of a publication, a withdrawal and a
-- deletion, which write the fields that they modified.
pub data Write (Content : Type 0) : Type 0 where
  update_act : List String → String → List ℕ → Block Content → Write Content
  publish_as : List String → Option String → Bool → Write Content
  set_readers : List String → Write Content
  mark_deleted : Write Content

module _ {Content : Type 0} where
  abbrev pub set_block : String → Block Content → (String → Block Content) → String → Block Content
  set_block key b blocks k = if k === key then b else blocks k

  -- The project after a write, none where its filter matches nothing.
  unfoldable pub write : Write Content → Project Content → Option (Project Content)
  write (update_act guards key years block) p =
      if is_guarded_off guards p.current
      then none
      else some
          (record p { current = some key; years = years; blocks = set_block key block p.blocks })
  write (publish_as guards key pushes) p =
      if is_guarded_off guards p.current
      then none
      else some (record p {
        current = or_else key p.current;
        read = if pushes then p.read ++ "public" ∷ [] else p.read;
      })
  write (set_readers readers) p = some (record p { read = readers })
  write mark_deleted p = some (record p { is_deleted = true })
