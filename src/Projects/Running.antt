-- ===== src/Projects/Running.antt =====
-- Requests for one project that run at the same time (api/controllers/project.js): a request reads
-- the project and makes its write ready; the writes reach the store in any order, and one that fails
-- is dropped.
use eagle_api.Prelude.{erase_idx, get_elem?, ◌∷◌, List, Option, String, [], none, some, ℕ}
use eagle_api.Projects.{Project, ProjectBody, Write, mark_deleted, write}
use eagle_api.Projects.Puts.{Contacts, Plan, plan_put, ready, refuse, unchanged}
use eagle_api.Projects.Publishing.{plan_publish, plan_unpublish}

pub record Running (Content : Type 0) : Type 0 where
  pub stored : Option (Project Content)
  pub waiting : List (Write Content)

-- A request reads, or the write at a position reaches the store, or it is dropped.
pub data Move (Content : Type 0) : Type 0 where
  put : ProjectBody Content → Contacts → Move Content
  publish : Option ℕ → Move Content
  unpublish delete : Move Content
  arrive drop_write : ℕ → Move Content

module _ {Content : Type 0} where
  abbrev pub with_plan : Plan Content → List (Write Content) → List (Write Content)
  with_plan unchanged ws = ws
  with_plan (refuse r) ws = ws
  with_plan (ready w) ws = w ∷ ws

  abbrev pub begin_from :
      (Project Content → Plan Content)
      → Option (Project Content)
      → List (Write Content)
      → List (Write Content)
  begin_from plan none ws = ws
  begin_from plan (some p) ws = with_plan (plan p) ws

  abbrev pub begin : (Project Content → Plan Content) → Running Content → Running Content
  begin plan r = record r { waiting = begin_from plan r.stored r.waiting }

  -- A write whose filter misses leaves the project.
  abbrev pub or_same : Project Content → Option (Project Content) → Option (Project Content)
  or_same p none = some p
  or_same p (some q) = some q

  abbrev pub after_write :
      Option (Write Content) → Option (Project Content) → Option (Project Content)
  after_write none stored = stored
  after_write (some w) none = none
  after_write (some w) (some p) = or_same p (write w p)

  module _ (phase_name : String → Option String) (new_date : Content → Content) where
    unfoldable pub move : Move Content → Running Content → Running Content
    move (put b ids) r = begin (plan_put phase_name new_date b ids) r
    move (publish sent_year) r = begin (plan_publish sent_year) r
    move unpublish r = begin plan_unpublish r
    move delete r = begin (λ p. ready mark_deleted) r
    move (arrive n) r = record r {
      stored = after_write (get_elem? r.waiting n) r.stored;
      waiting = erase_idx r.waiting n;
    }
    move (drop_write n) r = record r { waiting = erase_idx r.waiting n }

    unfoldable pub moves : List (Move Content) → Running Content → Running Content
    unfolding move
    moves [] r = r
    moves (m ∷ ms) r = moves ms (move m r)
