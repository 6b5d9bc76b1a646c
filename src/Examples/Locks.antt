-- ===== src/Examples/Locks.antt =====
-- A collection of locks in memory, whose calls never fail, and two pods that want one lock.
use mathlib.Core.Option
use eagle_api.Prelude.{
  ◌===◌, ◌≡◌, ◌≢◌, ◌⊎◌, ◌∷◌, All, Bool, Option, Option-cases, String, [], arith, eq_refl, false,
  if◌then◌else◌, inl, inr, none, refl, some, true, ℕ,
}
use eagle_api.Mongo.{Query, Row}
use eagle_api.Mongo.Reference.{evaluate, reference}
use eagle_api.RunLock.{
  Acquired, Changes, Locks, Reply, acquire_lock, apply_changes, before, claim, duplicate_key,
  failed, held, new_row, owned, release_lock, upserted,
}
use eagle_api.RunLock.Exclusion.{acquire_lock-excludes, release_lock-acquire_lock, try_all}

abbrev Docs : Type 0
Docs = String → Option Row

abbrev put : String → Row → Docs → Docs
put id row db k = if k === id then some row else db k

put_self : (id : String) (row : Row) (db : Docs) → put id row db id ≡ some row
put_self id row db = rw (eq_refl id)

abbrev upsert : String → Query → Changes → Docs → Reply × Docs
upsert id q c db = elim (db id) [
  | none ↦ (upserted, put id (apply_changes c (new_row id)) db)
  | some row ↦
      if evaluate q row then (before row, put id (apply_changes c row) db) else (duplicate_key, db)
]

abbrev update : String → Changes → Docs → Bool × Docs
update id c db = elim (db id) [
  | none ↦ (true, db)
  | some row ↦ (true, put id (apply_changes c row) db)
]

upsert_found :
    (id : String) (q : Query) (c : Changes) (db : Docs) (row : Row)
    → db id ≡ some row
    → evaluate q row ≡ true
    → let r = upsert id q c db in
      ((r.0 ≡ before row) × (r.1 id ≡ some (apply_changes c row)))
      ⊎ ((r.0 ≡ failed) × ((r.1 id ≡ some row) ⊎ (r.1 id ≡ some (apply_changes c row))))
upsert_found id q c db row e m = rw (e, upsert) (rw m (inl (refl, put_self id _ db)))

upsert_taken :
    (id : String) (q : Query) (c : Changes) (db : Docs) (row : Row)
    → db id ≡ some row
    → evaluate q row ≡ false
    → let r = upsert id q c db in ((r.0 ≡ duplicate_key) ⊎ (r.0 ≡ failed)) × (r.1 id ≡ some row)
upsert_taken id q c db row e m = rw (e, upsert) (rw m (inl refl, e))

upsert_inserted :
    (id : String) (q : Query) (c : Changes) (db : Docs)
    → db id ≡ none
    → let r = upsert id q c db in
      ((r.0 ≡ upserted) × (r.1 id ≡ some (apply_changes c (new_row id))))
      ⊎ ((r.0 ≡ failed) × ((r.1 id ≡ none) ⊎ (r.1 id ≡ some (apply_changes c (new_row id)))))
upsert_inserted id q c db e = rw (e, upsert) (inl (refl, put_self id _ db))

update_updated :
    (id : String) (c : Changes) (db : Docs)
    → let r = update id c db in
      (r.1 id ≡ Option.map (apply_changes c) (db id)) ⊎ ((r.0 ≡ false) × (r.1 id ≡ db id))
update_updated id c db = elim (Option-cases (db id)) [
  | inl e ↦ rw (e, update) (inl e)
  | inr (row, e) ↦ rw (e, update) (inl (put_self id _ db))
]

abbrev in_memory : Locks reference
in_memory = record {
  Db = Docs;
  find_one = λ db id. db id;
  find_one_and_update = upsert;
  update_one = update;
  found = upsert_found;
  taken = upsert_taken;
  inserted = upsert_inserted;
  updated = update_updated;
}

abbrev empty : Docs
empty id = none

-- The clock at the first try, and within the hour after it.
abbrev start : ℕ
start = 5000000

abbrev first : Acquired × Docs
first = acquire_lock reference in_memory "pod-a" "hot" start empty

first_owned : first.0 ≡ owned
unfolding acquire_lock
first_owned = refl

acquire_lock-excludes_example :
    All
      (λ a. a ≢ owned)
      (try_all reference in_memory "hot" (("pod-b", 6000000) ∷ ("pod-c", 8599999) ∷ []) first.1)
acquire_lock-excludes_example =
    acquire_lock-excludes reference in_memory "pod-a" "hot" start
      (("pod-b", 6000000) ∷ ("pod-c", 8599999) ∷ []) empty first_owned (omega arith)

abbrev claimed : Row
claimed = apply_changes (claim start "pod-a") (new_row "hot")

first_claimed : first.1 "hot" ≡ some claimed
unfolding acquire_lock
first_claimed = refl

release_lock-acquire_lock_example :
    (release_lock reference in_memory "hot" 6000000 none first.1 "hot" ≡ first.1 "hot")
    ⊎ ((acquire_lock reference in_memory "pod-b" "hot" 6000001
          (release_lock reference in_memory "hot" 6000000 none first.1)).0
        ≢ held)
release_lock-acquire_lock_example =
    release_lock-acquire_lock reference in_memory "pod-b" "hot" 6000000 6000001 none first.1 claimed
      first_claimed
