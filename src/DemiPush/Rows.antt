-- ===== src/DemiPush/Rows.antt =====
-- `recordOutcome` of api/helpers/demiPush.js. Mongo holds the rows and the tombstones of failed
-- deletes by kind (the route of api/helpers/demiPushKinds.js) and id. Whether a kind's model is
-- registered and whether an id is valid are parameters.
pub mod Flags
pub mod Sweepable
use mathlib.Core.Option
use eagle_api.Prelude.{
  ◌&&◌, ◌++◌, ◌+◌, ◌===◌, ◌||◌, ◌∷◌, Bool, List, Option, String, Text, [], all, false, filter,
  if◌then◌else◌, includes, is_name, ltb, map, none, not, some, take, true, units, ℕ, is_set,
}
use eagle_api.DemiPush.{Entry, Failure, Landing, Mirrored}

abbrev pub routes : List String
routes =
    "projects" ∷ "notifications" ∷ "organizations" ∷ "groups" ∷ "documents" ∷ "commentperiods"
    ∷ "updates" ∷ "inspections" ∷ "inspection-elements" ∷ "inspection-items" ∷ "users" ∷ "comments"
    ∷ []

abbrev pub error_max_length : ℕ
error_max_length = 200

abbrev pub clock_skew_ms : ℕ
clock_skew_ms = 5000

-- A stored row, as far as the pending fields and the filter of the users look at it.
pub record Row : Type 0 where
  pub pending : Bool
  pub failed_at : Option ℕ
  pub error : Option Text
  pub org : Option String

pub record Tombstone : Type 0 where
  pub failed_at : ℕ
  pub error : Text
  pub body : String

pub record Store : Type 0 where
  pub rows : String → String → Option Row
  pub tombstones : String → String → Option Tombstone

-- `updateRows`: the rows of a kind that the filter selects.
abbrev pub update_rows : String → (String → Row → Bool) → (Row → Row) → Store → Store
update_rows kind selects change s = record s {
  rows = λ k i.
      if k === kind
      then Option.map (λ r. if selects i r then change r else r) (s.rows k i)
      else s.rows k i;
}

abbrev pub put_tombstone : String → String → Option Tombstone → Store → Store
put_tombstone kind id t s = record s {
  tombstones = λ k i. if k === kind && i === id then t else s.tombstones k i;
}

abbrev pub flag_row : ℕ → String → Row → Row
flag_row now reason r = record r {
  pending = true;
  failed_at = some now;
  error = some (take error_max_length (units reason));
}

abbrev pub unflag_row : Row → Row
unflag_row r = record r { pending = false; failed_at = none; error = none }

unfoldable pub keep_failed_delete : Failure → String → ℕ → Store → Store
keep_failed_delete f deleted_doc failed_at s =
    put_tombstone f.of_entry.kind f.of_entry.id
      (some (record {
        failed_at = failed_at;
        error = take error_max_length (units f.reason);
        body = deleted_doc;
      }))
      s

unfoldable pub clear_failed_delete : Landing → Store → Store
clear_failed_delete l s = put_tombstone l.of_entry.kind l.of_entry.id none s

-- `{ demiPushFailedAt: { $lt: readAt - CLOCK_SKEW_MS } }`, or no `demiPushFailedAt`.
abbrev pub failed_before : ℕ → Option ℕ → Bool
failed_before read_at none = true
failed_before read_at (some t) = ltb (t + clock_skew_ms) read_at

abbrev pub selects_landed : Landing → String → Bool
selects_landed l i = elim l.ids [ none ↦ i === l.of_entry.id | some ids ↦ includes ids i ]

-- The filter of a landing's update: its rows that are flagged by a failure from before its read.
abbrev pub is_covered : ℕ → Landing → String → Row → Bool
is_covered read_at l i r = selects_landed l i && r.pending && failed_before read_at r.failed_at

-- The writes that `recordOutcome` starts together.
pub data Write : Type 0 where
  mark : Failure → Write
  clear : Landing → Write
  clear_delete : Landing → Write

unfoldable pub outcome_writes : Mirrored → List Write
outcome_writes m =
    map mark m.failures
    ++ (map clear m.landed
        ++ map clear_delete (filter (λ l. is_set l.of_entry.deleted_doc) m.landed))

module _ (registered : String → Bool) (valid_id : String → Bool) where
  -- `modelFor`: whether the kind has a model that is registered.
  abbrev pub has_model : String → Bool
  has_model kind = includes routes kind && registered kind

  unfoldable pub mark_pending : Failure → ℕ → Store → Store
  mark_pending f failed_at s =
      let kind = f.of_entry.kind in
      let id = f.of_entry.id in
      elim f.of_entry.org_filter [
        | some org ↦
            if has_model kind
            then update_rows kind (λ i r. is_name r.org org) (flag_row failed_at f.reason) s
            else s
        | none ↦
            if has_model kind && valid_id id
            then if is_set (s.rows kind id)
              then update_rows kind (λ i r. i === id) (flag_row failed_at f.reason) s
              else elim f.of_entry.deleted_doc [
                | some doc ↦ keep_failed_delete f doc failed_at s
                | none ↦ s
              ]
            else s
      ]

  unfoldable pub clear_pending : Landing → Store → Store
  clear_pending l s = elim l.read_at [
    | none ↦ s
    | some read_at ↦
        if has_model l.of_entry.kind && (is_set l.ids || valid_id l.of_entry.id)
        then update_rows l.of_entry.kind (is_covered read_at l) unflag_row s
        else s
  ]

  unfoldable pub write : ℕ → Write → Store → Store
  write failed_at (mark f) s = mark_pending f failed_at s
  write failed_at (clear l) s = clear_pending l s
  write failed_at (clear_delete l) s = clear_failed_delete l s

  -- The writes in the order in which they reach Mongo, each with whether it goes through: one that
  -- throws is logged and changes nothing.
  unfoldable pub record_outcome : ℕ → List (Bool × Write) → Store → Store
  unfolding write
  record_outcome failed_at [] s = s
  record_outcome failed_at (w ∷ ws) s =
      record_outcome failed_at ws (if w.0 then write failed_at w.1 s else s)
