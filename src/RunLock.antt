-- ===== src/RunLock.antt =====
-- The run lock of the materialised views: api/materialized_views/runLock.js, a document of the
-- collection `_system_locks` for each lock. The collection is the parameter `Locks`; a clock's
-- reading is its milliseconds.
pub mod Exclusion
use mathlib.Core.Option
use eagle_api.Prelude.{
  ◌&&◌, ◌*◌, ◌-◌, ◌==◌, ◌===◌, ◌≡◌, ◌⊎◌, ◌∷◌, Bool, List, Option, String, [], false, if◌then◌else◌,
  not, none, some, true, ℕ,
}
use eagle_api.Mongo.{Field, Mongo, Op, Query, Row, Value, at, both, either, is_at_most, is_present}

abbrev pub stale_ms : ℕ
stale_ms = 60 * 60 * 1000

-- `new Date(Date.now() - STALE_MS)`; the clock is past the first hour of 1970.
abbrev pub stale_threshold : ℕ → ℕ
stale_threshold now = now - stale_ms

abbrev pub Changes : Type 0
Changes = List (String × Field)

-- `$set`: each field takes its new value.
abbrev pub apply_changes : Changes → Row → Row
apply_changes [] row path = row path
apply_changes ((p, f) ∷ rest) row path = if path === p then f else apply_changes rest row path

-- The document that an upsert creates holds the id and the changes.
abbrev pub new_row : String → Row
new_row id path = if path === "_id" then Field.value (Value.str id) else Field.absent

-- The replies of `findOneAndUpdate` with `upsert` and `returnDocument: 'before'`: the old document,
-- null for an upsert, the error 11000, or any other error.
pub data Reply : Type 0 where
  before : Row → Reply
  upserted duplicate_key failed : Reply

-- One document of the collection, by its `_id`. A call either fails, and then has been carried out
-- or not, or does what MongoDB documents: an update where the filter matches the document, an
-- insert where there is none, and error 11000 where there is one that does not match.
pub record Locks (mongo : Mongo) : Type 1 where
  pub Db : Type 0
  pub find_one : Db → String → Option Row
  pub find_one_and_update : String → Query → Changes → Db → Reply × Db
  pub update_one : String → Changes → Db → Bool × Db
  pub found :
      (id : String) (q : Query) (c : Changes) (db : Db) (row : Row)
      → find_one db id ≡ some row
      → mongo.matches q row ≡ true
      → let r = find_one_and_update id q c db in
        ((r.0 ≡ before row) × (find_one r.1 id ≡ some (apply_changes c row)))
        ⊎ ((r.0 ≡ failed)
            × ((find_one r.1 id ≡ some row) ⊎ (find_one r.1 id ≡ some (apply_changes c row))))
  pub taken :
      (id : String) (q : Query) (c : Changes) (db : Db) (row : Row)
      → find_one db id ≡ some row
      → mongo.matches q row ≡ false
      → let r = find_one_and_update id q c db in
        ((r.0 ≡ duplicate_key) ⊎ (r.0 ≡ failed)) × (find_one r.1 id ≡ some row)
  pub inserted :
      (id : String) (q : Query) (c : Changes) (db : Db)
      → find_one db id ≡ none
      → let r = find_one_and_update id q c db in
        ((r.0 ≡ upserted) × (find_one r.1 id ≡ some (apply_changes c (new_row id))))
        ⊎ ((r.0 ≡ failed)
            × ((find_one r.1 id ≡ none) ⊎ (find_one r.1 id ≡ some (apply_changes c (new_row id)))))
  pub updated :
      (id : String) (c : Changes) (db : Db)
      → let r = update_one id c db in
        (find_one r.1 id ≡ Option.map (apply_changes c) (find_one db id))
        ⊎ ((r.0 ≡ false) × (find_one r.1 id ≡ find_one db id))

-- What `acquireLock` comes to: true, false, or the error that it throws on.
pub data Acquired : Type 0 where
  owned held thrown : Acquired

-- The part of the filter beside the `_id`.
unfoldable pub free_or_stale : ℕ → Query
free_or_stale now =
    either (at "running" (Op.ne (Value.bool true))) (at "startedAt" (Op.lte (stale_threshold now)))

abbrev pub claim : ℕ → String → Changes
claim now hostname =
    ("running", Field.value (Value.bool true))
    ∷ ("startedAt", Field.value (Value.num now))
    ∷ ("hostname", Field.value (Value.str hostname))
    ∷ []

abbrev pub acquired : Reply → Acquired
acquired (before row) = owned
acquired upserted = owned
acquired duplicate_key = held
acquired failed = thrown

-- The statistics of a run: `durationMs`, and the names of the views that succeeded and failed.
pub record Stats : Type 0 where
  pub duration_ms : ℕ
  pub succeeded : List String
  pub failed : List String

-- `update` of `releaseLock`, the fields of `lastRun` under their paths.
abbrev pub released : ℕ → Option Stats → Changes
released now none = ("running", Field.value (Value.bool false)) ∷ []
released now (some stats) =
    ("running", Field.value (Value.bool false))
    ∷ ("lastRun.completedAt", Field.value (Value.num now))
    ∷ ("lastRun.durationMs", Field.value (Value.num stats.duration_ms))
    ∷ ("lastRun.succeeded", Field.list stats.succeeded)
    ∷ ("lastRun.failed", Field.list stats.failed)
    ∷ []

-- JavaScript's reading of a field as a condition, and of `field <= date`; null counts as 0 there.
abbrev pub truthy : Field → Bool
truthy (Field.value (Value.bool b)) = b
truthy (Field.value (Value.num n)) = not (n == 0)
truthy (Field.value (Value.str s)) = not (s === "")
truthy (Field.value Value.null) = false
truthy Field.absent = false
truthy (Field.list xs) = true

abbrev pub is_before : Field → ℕ → Bool
is_before (Field.value Value.null) date = true
is_before f date = is_at_most f date

-- The result of `getLockInfo`, less `lastRun`, which it hands on unread.
pub record LockInfo : Type 0 where
  pub running : Bool
  pub stale : Bool
  pub started_at : Field

unfoldable pub lock_info : ℕ → Option Row → LockInfo
lock_info now none = record { running = false; stale = false; started_at = Field.absent }
lock_info now (some lock) =
    let stale = truthy (lock "running") && is_before (lock "startedAt") (stale_threshold now) in
    record {
      running = truthy (lock "running") && not stale;
      stale = stale;
      started_at = lock "startedAt";
    }

module _ (mongo : Mongo) (locks : Locks mongo) where
  open locks use {Db, find_one, find_one_and_update, update_one}

  unfoldable pub acquire_lock : String → String → ℕ → Db → Acquired × Db
  acquire_lock hostname id now db =
      let (reply, db') = find_one_and_update id (free_or_stale now) (claim now hostname) db in
      (acquired reply, db')

  -- An error of the update is logged and swallowed.
  unfoldable pub release_lock : String → ℕ → Option Stats → Db → Db
  release_lock id now stats db = (update_one id (released now stats) db).1

  unfoldable pub get_lock_info : String → ℕ → Db → LockInfo
  get_lock_info id now db = lock_info now (find_one db id)
