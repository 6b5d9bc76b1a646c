-- ===== src/Projects/Puts.antt =====
-- What a PUT of a project writes (protectedPut of api/controllers/project.js).
use eagle_api.Prelude.{
  ◌&&◌, ◌++◌, ◌===◌, ◌==◌, ◌∷◌, Bool, List, Option, String, [], false, filter, if◌then◌else◌,
  includes, is_set, none, not, some, true, ℕ,
}
use eagle_api.DataQuery.Params.{ObjectIdParam, get_valid_object_id, invalid_id, no_id, object_id}
use eagle_api.Legislation.{label_of, legislation_key, legislation_year_of, locked_keys}
use eagle_api.SearchTerms.{generate_search_terms}
use eagle_api.Projects.{
  Block, Contact, PhaseHistory, Project, ProjectBody, ProjectReply, Write, includes_year, locked,
  not_found, null, phases, unstarted, update_act, words_to_analyze,
}

abbrev pub Contacts : Type 0
Contacts = Option String × Option String

-- An id as `getValidObjectId` leaves it, none where it throws.
abbrev pub contact_id : ObjectIdParam → Option (Option String)
contact_id no_id = some none
contact_id invalid_id = none
contact_id (object_id id) = some (some id)

abbrev pub both_ids : Option (Option String) → Option (Option String) → Option Contacts
both_ids none _ = none
both_ids (some lead) none = none
both_ids (some lead) (some epd) = some (lead, epd)

-- `contactIdsOf`: the ids of the lead and of the EPD, none where one is not valid.
unfoldable pub contact_ids_of :
    {Content : Type 0} → (String → Bool) → ProjectBody Content → Option Contacts
contact_ids_of is_valid b =
    both_ids (contact_id (get_valid_object_id is_valid b.lead_id))
      (contact_id (get_valid_object_id is_valid b.epd_id))

abbrev pub is_locked : Option String → Bool
is_locked none = false
is_locked (some key) = includes locked_keys key

abbrev pub is_other_year : ℕ → Option ℕ → Bool
is_other_year y none = true
is_other_year y (some current) = not (y == current)

unfoldable pub refuses_legislation_change : Option String → Option ℕ → Bool
refuses_legislation_change current none = false
refuses_legislation_change current (some y) =
    is_locked current && is_other_year y (legislation_year_of current)

abbrev pub locked_keys_other_than : String → List String
locked_keys_other_than key = filter (λ k. not (k === key)) locked_keys

abbrev pub keys_of : Option String → List String
keys_of none = []
keys_of (some key) = key ∷ []

-- The year of the request, or the one that the project is under.
abbrev pub year_of : Option String → Option ℕ → Option ℕ
year_of current none = legislation_year_of current
year_of current (some y) = some y

-- The list that is written back: a named year is added where it is missing.
abbrev pub years_with : Option ℕ → List ℕ → List ℕ
years_with none years = years
years_with (some y) years = if includes_year years y then years else years ++ y ∷ []

-- A cleared id also clears the name.
abbrev pub set_contact : Option String → Contact → Contact
set_contact person c = record { person = person; name = if is_set person then c.name else "" }

-- Whether a stored phase, null being none, is the phase that is sent: what is not sent is no null.
abbrev pub same_phase : Option String → Option String → Bool
same_phase (some a) (some b) = a === b
same_phase _ _ = false

-- Whether a phase is the last one of a list; of no list, that is a phase that is not sent.
abbrev pub is_last_phase : List (Option String) → Option String → Bool
is_last_phase [] phase = not (is_set phase)
is_last_phase (x ∷ []) phase = same_phase x phase
is_last_phase (x ∷ y ∷ xs) phase = is_last_phase (y ∷ xs) phase

unfoldable pub add_phase : Option String → PhaseHistory → PhaseHistory
add_phase phase unstarted = phases (phase ∷ [])
add_phase phase null = null
add_phase phase (phases xs) =
    if is_last_phase xs phase then phases xs else phases (xs ++ phase ∷ [])

-- The name of the phase's list item; '' where no phase is sent, or none is found.
abbrev pub status_name : (String → Option String) → Option String → String
status_name phase_name none = ""
status_name phase_name (some id) = elim (phase_name id) [ none ↦ "" | some name ↦ name ]

-- A write that a request is ready to make, its refusal, or nothing that needs a write.
pub data Plan (Content : Type 0) : Type 0 where
  unchanged : Plan Content
  refuse : ProjectReply → Plan Content
  ready : Write Content → Plan Content

module _ {Content : Type 0} (phase_name : String → Option String)
    (new_date : Content → Content) where
  abbrev pub sent_date : Option Content → Option Content
  sent_date none = none
  sent_date (some d) = some (new_date d)

  unfoldable pub put_block : ProjectBody Content → Contacts → ℕ → Block Content → Block Content
  unfolding add_phase
  put_block b ids year block = record block {
    copied = b.sent;
    legislation = label_of year;
    legislation_year = some year;
    status = status_name phase_name b.sent_phase;
    lead = set_contact ids.0 block.lead;
    epd = set_contact ids.1 block.epd;
    decision_date = sent_date b.sent_decision_date;
    search_terms = generate_search_terms b.sent.name words_to_analyze;
    intake = b.sent_intake;
    current_phase = b.sent_phase;
    phase_history = add_phase b.sent_phase block.phase_history;
  }

  abbrev pub put_under :
      ProjectBody Content → Contacts → Project Content → ℕ → Option String → Plan Content
  put_under b ids p year none = refuse not_found
  put_under b ids p year (some key) = ready (
      update_act (locked_keys_other_than key) key (years_with b.sent_year p.years)
        (put_block b ids year (p.blocks key)))

  abbrev pub put_in : ProjectBody Content → Contacts → Project Content → Option ℕ → Plan Content
  put_in b ids p none = refuse not_found
  put_in b ids p (some year) = put_under b ids p year (legislation_key year)

  -- From the project that is read to the write.
  unfoldable pub plan_put : ProjectBody Content → Contacts → Project Content → Plan Content
  unfolding refuses_legislation_change
  plan_put b ids p =
      if refuses_legislation_change p.current b.sent_year
      then refuse (locked (keys_of p.current))
      else put_in b ids p (year_of p.current b.sent_year)
