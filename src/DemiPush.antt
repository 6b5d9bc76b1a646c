-- ===== src/DemiPush.antt =====
-- What becomes of pushes to DEMI once they settle: `awaitMirror` of api/helpers/demiPush.js. The
-- pushes stand as they do at the deadline.
pub mod Settling
pub mod Rows
pub mod Sweeps
use Prim.Native.String.{◌++◌ as text_append}
use eagle_api.Prelude.{
  or_else, ◌&&◌, ◌++◌, ◌+◌, ◌===◌, ◌||◌, ◌∷◌, Bool, List, Option, String, Text, [], all, false,
  filter, if◌then◌else◌, includes, is_name, ltb, map, none, not, some, take, true, units, ℕ,
}
use eagle_api.Auth.{truthy}

abbrev pub not_mirrored : String
not_mirrored = "not mirrored (see push-dropped line)"

-- What a push notes while it runs. `filter` is the organization whose users it pushes, `ids` the
-- users it found, `deleted_doc` the body of a hard delete.
pub record Outcome : Type 0 where
  pub reason : Option String
  pub deleted_doc : Option String
  pub read_at : Option ℕ
  pub pending : Bool
  pub org_filter : Option String
  pub ids : Option (List String)

pub record Label : Type 0 where
  pub kind : String
  pub id : String
  pub outcome : Outcome

-- How a push stands at the deadline: resolved, rejected with a message, or still pending.
pub data Settled : Type 0 where
  resolved : Bool → Settled
  rejected : String → Settled
  late : Settled

-- `label` is none for a push that has no row to flag.
pub record Push : Type 0 where
  pub label : Option Label
  pub settled : Settled

pub record Entry : Type 0 where
  pub kind : String
  pub id : String
  pub org_filter : Option String
  pub deleted_doc : Option String

pub record Landing : Type 0 where
  pub of_entry : Entry
  pub ids : Option (List String)
  pub read_at : Option ℕ

pub record Failure : Type 0 where
  pub of_entry : Entry
  pub reason : String

pub record Mirrored : Type 0 where
  pub mirrored : Bool
  pub failures : List Failure
  pub landed : List Landing

abbrev pub failure_reason : Option Label → String
failure_reason none = not_mirrored
failure_reason (some l) = elim (truthy l.outcome.reason) [ none ↦ not_mirrored | some why ↦ why ]

-- null, here none, for a push that landed in time.
unfoldable pub reason_of : Push → Option String
reason_of p = elim p.settled [
  | resolved landed ↦ if landed then none else some (failure_reason p.label)
  | rejected message ↦ some (text_append "failed: " message)
  | late ↦ some "timeout"
]

abbrev pub entry : Label → Entry
entry l = record {
  kind = l.kind;
  id = l.id;
  org_filter = l.outcome.org_filter;
  deleted_doc = l.outcome.deleted_doc;
}

unfoldable pub landing : Label → Landing
landing l =
    if not l.outcome.pending
    then record { of_entry = entry l; ids = none; read_at = none }
    else elim l.outcome.ids [
      | some ids ↦ record {
        of_entry = record { kind = l.kind; id = l.id; org_filter = none; deleted_doc = none };
        ids = some ids;
        read_at = l.outcome.read_at;
      }
      | none ↦ record { of_entry = entry l; ids = none; read_at = l.outcome.read_at }
    ]

-- The body of `results.forEach`.
unfoldable pub sort_push : Push → Mirrored → Mirrored
unfolding reason_of landing
sort_push p m = elim p.label [
  | none ↦ m
  | some l ↦ elim (reason_of p) [
    | some why ↦ record m { failures = record { of_entry = entry l; reason = why } ∷ m.failures }
    | none ↦ record m { landed = landing l ∷ m.landed }
  ]
]

abbrev pub is_landed : Push → Bool
is_landed p = elim (reason_of p) [ none ↦ true | some why ↦ false ]

abbrev pub sort_pushes : List Push → Mirrored → Mirrored
sort_pushes [] m = m
sort_pushes (p ∷ ps) m = sort_push p (sort_pushes ps m)

unfoldable pub await_mirror : List Push → Mirrored
await_mirror pushes =
    sort_pushes pushes (record { mirrored = all is_landed pushes; failures = []; landed = [] })
