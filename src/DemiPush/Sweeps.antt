-- ===== src/DemiPush/Sweeps.antt =====
-- The sweep of the pushes that did not land: api/helpers/demiPushSweep.js, over awaitMirror and
-- recordOutcome of api/helpers/demiPush.js. What becomes of the push of a row, when it is recorded,
-- and which of its writes go through is an `Attempt`; the collection's ids and MongoDB's sort are
-- arguments. The pauses between the pushes are left out.
pub mod Landings
pub mod Drained
use eagle_api.Prelude.{
  ◌&&◌, ◌+◌, ◌===◌, ◌∷◌, Bool, List, Option, String, [], false, filter, if◌then◌else◌, length, map,
  none, not, some, take, true, ℕ,
}
use eagle_api.DemiPush.{Push, await_mirror}
use eagle_api.DemiPush.Rows.{Row, Store, Tombstone, Write, outcome_writes, record_outcome}

pub record Attempt : Type 0 where
  pub push : Push
  pub failed_at : ℕ
  pub goes_through : Write → Bool

pub record Counts : Type 0 where
  pub found : ℕ
  pub pushed : ℕ
  pub failed : ℕ
  pub unreadable : Bool

abbrev pub no_counts : Counts
no_counts = record { found = 0; pushed = 0; failed = 0; unreadable = false }

abbrev pub count_push : Bool → Counts → Counts
count_push mirrored c =
    if mirrored then record c { pushed = c.pushed + 1 } else record c { failed = c.failed + 1 }

-- `find({ demiPushPending: true }).sort({ demiPushFailedAt: 1 }).limit(n)`, by a sort on that key.
abbrev pub Order : Type 0
Order = (String → Option ℕ) → List String → List String

abbrev pub is_pending_row : Option Row → Bool
is_pending_row none = false
is_pending_row (some r) = r.pending

abbrev pub failure_time : Option Row → Option ℕ
failure_time none = none
failure_time (some r) = r.failed_at

unfoldable pub pending_ids : String → List String → Store → List String
pending_ids kind ids s = filter (λ i. is_pending_row (s.rows kind i)) ids

unfoldable pub find_pending : Order → ℕ → String → List String → Store → List String
unfolding pending_ids
find_pending order limit kind ids s =
    take limit (order (λ i. failure_time (s.rows kind i)) (pending_ids kind ids s))

module _ (registered : String → Bool) (valid_id : String → Bool) where
  -- `sweepPush`: the outcome of one push is recorded.
  unfoldable pub sweep_push : Attempt → Store → Store
  sweep_push a s =
      record_outcome registered valid_id a.failed_at
        (map (λ w. (a.goes_through w, w)) (outcome_writes (await_mirror (a.push ∷ [])))) s

  abbrev pub is_mirrored : Attempt → Bool
  is_mirrored a = (await_mirror (a.push ∷ [])).mirrored

  -- The loop of `sweepKind` over the rows found, one push at a time.
  unfoldable pub sweep_each : (String → Attempt) → List String → Store → Counts → Store × Counts
  sweep_each attempt [] s c = (s, c)
  sweep_each attempt (i ∷ is) s c =
      sweep_each attempt is (sweep_push (attempt i) s) (count_push (is_mirrored (attempt i)) c)

  -- `readable` is whether the query of the rows answers.
  unfoldable pub sweep_kind :
      Order → ℕ → String → List String → Bool → (String → Attempt) → Store → Store × Counts
  sweep_kind order limit kind ids readable attempt s =
      let found = find_pending order limit kind ids s in
      if readable
      then sweep_each attempt found s (record no_counts { found = length found })
      else (s, record no_counts { unreadable = true })

  -- The ids that have a tombstone, and the drain of one kind after another.
  abbrev pub tombstone_time : Option Tombstone → Option ℕ
  tombstone_time none = none
  tombstone_time (some t) = some t.failed_at

  abbrev pub is_tombstone : Option Tombstone → Bool
  is_tombstone none = false
  is_tombstone (some t) = true

  unfoldable pub find_tombstones : Order → ℕ → String → List String → Store → List String
  find_tombstones order limit kind ids s = take limit (
      order (λ i. tombstone_time (s.tombstones kind i))
        (filter (λ i. is_tombstone (s.tombstones kind i)) ids))

  unfoldable pub drain_tombstones :
      Order
      → ℕ
      → List String
      → (String → List String)
      → (String → Bool)
      → (String → String → Attempt)
      → Store
      → Counts
      → Store × Counts
  drain_tombstones order limit [] ids readable attempt s c = (s, c)
  drain_tombstones order limit (kind ∷ kinds) ids readable attempt s c =
      let found = find_tombstones order limit kind (ids kind) s in
      let swept = sweep_each (attempt kind) found s (record c { found = c.found + length found }) in
      let unread =
        drain_tombstones order limit kinds ids readable attempt s
          (record c { unreadable = true }) in
      let drained = drain_tombstones order limit kinds ids readable attempt swept.0 swept.1 in
      if readable kind then drained else unread

  -- The sweep of the kinds, parents before children.
  unfoldable pub sweep_kinds :
      Order
      → ℕ
      → List String
      → (String → List String)
      → (String → Bool)
      → (String → String → Attempt)
      → Store
      → List (String × Counts)
      → Store × List (String × Counts)
  sweep_kinds order limit [] ids readable attempt s summary = (s, summary)
  sweep_kinds order limit (kind ∷ kinds) ids readable attempt s summary =
      let swept = sweep_kind order limit kind (ids kind) (readable kind) (attempt kind) s in
      sweep_kinds order limit kinds ids readable attempt swept.0 ((kind, swept.1) ∷ summary)

  -- A kind over several sweeps, each with its attempts.
  unfoldable pub sweeps : Order → ℕ → String → List String → List (String → Attempt) → Store → Store
  unfolding sweep_kind
  sweeps order limit kind ids [] s = s
  sweeps order limit kind ids (attempt ∷ attempts) s =
      sweeps order limit kind ids attempts (sweep_kind order limit kind ids true attempt s).0
