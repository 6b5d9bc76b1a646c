-- ===== src/Examples/Acts.antt =====
-- A project under the 2018 Act that comes under the Building Canada Act, and a PUT that read it before.
use eagle_api.Prelude.{
  Memᴰ, ◌↔◌, take, false, ◌∷◌, ◌≡◌, List, Option, String, Text, [], none, refl, some, true, units,
  zero, ℕ,
}
use eagle_api.Legislation.{legislation_key}
use eagle_api.SearchTerms.{generate_search_terms}
use eagle_api.SearchTerms.Prefixes.{IsDistinct, IsTermOf, generate_search_terms_lem, words_of}
use eagle_api.Projects.{Block, Contact, Copied, PhaseHistory, Project, ProjectBody, write}
use eagle_api.Projects.Acts.{IsUnder, moves-locked_keys}
use eagle_api.Projects.Agreement.{serve_all-IsConsistent}
use eagle_api.Projects.Consistent.{IsConsistentIfStored}
use eagle_api.Projects.Puts.{Contacts, plan_put, refuses_legislation_change}
use eagle_api.Projects.Requests.{ProjectRequest, serve_all}
use eagle_api.Projects.Running.{Move, Running, move, moves}

abbrev dam_fields : Copied ℕ
dam_fields = record {
  name = some (units "Dam");
  kind = 0;
  build = 0;
  sector = 0;
  description = 0;
  location = 0;
  region = 0;
  ea_status = 0;
  ea_status_date = 0;
  substantially = 0;
  substantially_date = 0;
  dispute = 0;
  dispute_date = 0;
  centroid = 0;
  ceaa_involvement = 0;
  ceaa_link = 0;
  eac_decision = 0;
  proponent = 1;
}

abbrev nobody : Contact
nobody = record { person = none; name = "" }

abbrev plain_block : Block ℕ
plain_block = record {
  copied = dam_fields;
  legislation = some "2018 Environmental Assessment Act";
  legislation_year = some 2018;
  status = "";
  lead = nobody;
  epd = nobody;
  decision_date = none;
  search_terms = none;
  intake = none;
  current_phase = none;
  phase_history = PhaseHistory.unstarted;
  others = 0;
}

abbrev dam_project : Project ℕ
dam_project = record {
  current = some "legislation_2018";
  years = 2018 ∷ [];
  blocks = λ k. plain_block;
  read = "staff" ∷ [];
  is_deleted = false;
}

abbrev body_for : Option ℕ → ProjectBody ℕ
body_for year = record {
  sent = dam_fields;
  sent_year = year;
  lead_id = none;
  epd_id = none;
  sent_phase = none;
  sent_decision_date = none;
  sent_intake = none;
}

abbrev no_phase : String → Option String
no_phase id = none

abbrev same_date : ℕ → ℕ
same_date d = d

abbrev no_ids : Contacts
no_ids = (none, none)

-- Both PUTs read the project; the one that names 2025 writes first.
abbrev before : List (Move ℕ)
before =
    Move.put (body_for none) no_ids ∷ Move.put (body_for (some 2025)) no_ids ∷ Move.arrive zero ∷ []

abbrev start : Running ℕ
start = record { stored = some dam_project; waiting = [] }

abbrev reached : Option (Project ℕ)
reached = (moves no_phase same_date before start).stored

moves-locked_keys_example :
    IsUnder "legislation_2025"
      (moves no_phase same_date
        (Move.arrive zero ∷ Move.unpublish ∷ [])
        (moves no_phase same_date before start)).stored
unfolding moves move plan_put refuses_legislation_change legislation_key write
moves-locked_keys_example =
    moves-locked_keys no_phase same_date dam_project _ before
      (Move.arrive zero ∷ Move.unpublish ∷ []) "legislation_2025" refl refl refl

abbrev block_of : ProjectBody ℕ → Block ℕ
block_of b = plain_block

abbrev requests : List (ProjectRequest ℕ)
requests =
    ProjectRequest.post true "p1" none (body_for none)
    ∷ ProjectRequest.put "p1" (body_for (some 2018))
    ∷ ProjectRequest.publish true "p1" (some 2002)
    ∷ []

serve_all-IsConsistent_example : IsConsistentIfStored (
    serve_all
      (λ i. true)
      (λ i. i)
      no_phase
      same_date
      block_of
      plain_block
      (λ v. true)
      (λ v. v)
      requests
      none)
serve_all-IsConsistent_example =
    serve_all-IsConsistent (λ i. true) (λ i. i) no_phase same_date block_of plain_block (λ v. true)
      (λ v. v) requests none tt

generate_search_terms_lem_example :
    (terms : List Text) × (generate_search_terms (some (units "Site C dam")) 3 ≡ some terms)
    × IsDistinct terms
    × ((t : Text)
        → Memᴰ t terms
          ↔ ((word : Text) × Memᴰ word (take 3 (words_of (units "Site C dam"))) × IsTermOf t word))
generate_search_terms_lem_example = generate_search_terms_lem b'S' (units "ite C dam") 3
