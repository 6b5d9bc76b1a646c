-- ===== src/RunLock/Exclusion.antt =====
-- Who owns the run lock (api/materialized_views/runLock.js).
use mathlib.Core.Option
use eagle_api.Prelude.{
  ◌+◌, ◌≡◌, ◌≢◌, ◌≤◌, ◌<◌, ◌⊎◌, ◌||◌, ◌∷◌, All, Bool, List, ◌∙◌, ap, lt→leb, Option-cases,
  Bool-cases, Option, String, [], arith, false, if◌then◌else◌, inl, inr, not, none, refl, some,
  true, ℕ,
}
use eagle_api.Mongo.{Field, Mongo, Row, Value, is_at_most, equals}
use eagle_api.RunLock.{
  stale_ms, stale_threshold, apply_changes, Reply, duplicate_key, Locks, Acquired, owned, held,
  free_or_stale, claim, acquired, Stats, released, is_before, lock_info, acquire_lock, release_lock,
  get_lock_info,
}

-- The fields of a lock document as the code writes them.
pub record IsLock (row : Row) : Type 0 where
  pub flag :
      (row "running" ≡ Field.absent) ⊎ ((b : Bool) × (row "running" ≡ Field.value (Value.bool b)))
  pub dated : row "startedAt" ≢ Field.value Value.null

is_before_lem : (f : Field) (n : ℕ) → f ≢ Field.value Value.null → is_before f n ≡ is_at_most f n
is_before_lem Field.absent n h = refl
is_before_lem (Field.list xs) n h = refl
is_before_lem (Field.value Value.null) n h = absurd (h refl)
is_before_lem (Field.value (Value.bool b)) n h = refl
is_before_lem (Field.value (Value.num m)) n h = refl
is_before_lem (Field.value (Value.str s)) n h = refl

module _ (mongo : Mongo) where
  open mongo use {matches, matches-at, matches-either}

  free_or_stale_lem :
      (now : ℕ) (row : Row)
      → matches (free_or_stale now) row ≡ (
          not (equals (row "running") (Value.bool true))
          || is_at_most (row "startedAt") (stale_threshold now))
  unfolding free_or_stale
  free_or_stale_lem now row = simp (matches-either, matches-at)

  -- The document of a lock that a process claimed at `t`.
  abbrev pub ClaimedAt : ℕ → Option Row → Type 0
  ClaimedAt t doc =
      (row : Row) × (doc ≡ some row)
      × (row "running" ≡ Field.value (Value.bool true))
      × (row "startedAt" ≡ Field.value (Value.num t))

  fresh_no_match :
      (row : Row) (t now : ℕ)
      → row "running" ≡ Field.value (Value.bool true)
      → row "startedAt" ≡ Field.value (Value.num t)
      → stale_ms ≤ now
      → now < t + stale_ms
      → matches (free_or_stale now) row ≡ false
  fresh_no_match row t now r st old fresh =
      rw (free_or_stale_lem now row, r, st) (lt→leb t (stale_threshold now) (omega arith))

  lock_info_lem :
      (now : ℕ) (row : Row)
      → IsLock row
      → (lock_info now (some row)).running ≡ not (matches (free_or_stale now) row)
  unfolding lock_info
  lock_info_lem now row l = rw (free_or_stale_lem now row) (
      rw (is_before_lem (row "startedAt") (stale_threshold now) l.dated)
        (elim l.flag [ inl e ↦ rw e | inr (b, e) ↦ rw e (ground arith) ]))

  open_lem :
      (now done : ℕ) (stats : Option Stats) (row : Row)
      → matches (free_or_stale now) (apply_changes (released done stats) row) ≡ true
  open_lem now done none row = rw free_or_stale_lem
  open_lem now done (some stats) row = rw free_or_stale_lem

  module _ (locks : Locks mongo) where
    open locks use {Db, find_one, find_one_and_update, taken, found, inserted, updated}

    not_owned : {A : Type 0} (r : Reply) → r ≡ Reply.failed → acquired r ≡ owned → A
    not_owned r e h = absurd (ground arith)

    not_owned_taken : {A : Type 0} (r : Reply) → r ≡ duplicate_key → acquired r ≡ owned → A
    not_owned_taken r e h = absurd (ground arith)

    -- The owner's claim stands in the database.
    acquire_owned :
        (host id : String) (now : ℕ) (db : Db)
        → (acquire_lock mongo locks host id now db).0 ≡ owned
        → ClaimedAt now (find_one (acquire_lock mongo locks host id now db).1 id)
    unfolding acquire_lock
    acquire_owned host id now db h = elim (Option-cases (find_one db id)) [
      | inl e ↦ elim (inserted id (free_or_stale now) (claim now host) db e) [
        | inl (_, new) ↦ (_, new, refl, refl)
        | inr (down, _) ↦ not_owned _ down h
      ]
      | inr (row, e) ↦ elim (Bool-cases (matches (free_or_stale now) row)) [
        | inl free ↦ elim (found id (free_or_stale now) (claim now host) db row e free) [
          | inl (_, new) ↦ (_, new, refl, refl)
          | inr (down, _) ↦ not_owned _ down h
        ]
        | inr busy ↦ elim (taken id (free_or_stale now) (claim now host) db row e busy).0 [
          | inl dup ↦ not_owned_taken _ dup h
          | inr down ↦ not_owned _ down h
        ]
      ]
    ]

    -- Whoever tries while the claim is fresh does not get the lock, and the claim stays.
    acquire_fresh :
        (host id : String) (t now : ℕ) (db : Db)
        → ClaimedAt t (find_one db id)
        → stale_ms ≤ now
        → now < t + stale_ms
        → let r = acquire_lock mongo locks host id now db in
          (r.0 ≢ owned) × ClaimedAt t (find_one r.1 id)
    unfolding acquire_lock
    acquire_fresh host id t now db (row, e, r, st) old fresh =
        let (reply, kept) =
          taken id (free_or_stale now) (claim now host) db row e
            (fresh_no_match row t now r st old fresh) in
        (
          elim reply [ inl dup ↦ rw dup (λ o. cc) | inr down ↦ rw down (λ o. cc) ],
          (row, kept, r, st),
        )

    -- Others that try in turn, each a host and the moment of its try.
    abbrev pub try_all : String → List (String × ℕ) → Db → List Acquired
    try_all id [] db = []
    try_all id ((host, now) ∷ tries) db =
        let r = acquire_lock mongo locks host id now db in r.0 ∷ try_all id tries r.1

    abbrev pub IsFresh : ℕ → String × ℕ → Type 0
    IsFresh t (host, now) = (stale_ms ≤ now) × (now < t + stale_ms)

    try_all_fresh :
        (id : String) (t : ℕ) (tries : List (String × ℕ)) (db : Db)
        → ClaimedAt t (find_one db id)
        → All (IsFresh t) tries
        → All (λ a. a ≢ owned) (try_all id tries db)
    try_all_fresh id t [] db c f = tt
    try_all_fresh id t ((host, now) ∷ tries) db c ((old, fresh), f) =
        let (refused, stays) = acquire_fresh host id t now db c old fresh in
        (refused, try_all_fresh id t tries (acquire_lock mongo locks host id now db).1 stays f)

    -- Mutual exclusion: once a process owns the lock, nobody that tries within the next hour gets
    -- it before it is released, however many try and in whatever order.
    pub acquire_lock-excludes :
        (host id : String) (t : ℕ) (tries : List (String × ℕ)) (db : Db)
        → (acquire_lock mongo locks host id t db).0 ≡ owned
        → All (IsFresh t) tries
        → All (λ a. a ≢ owned) (try_all id tries (acquire_lock mongo locks host id t db).1)
    acquire_lock-excludes host id t tries db own f =
        try_all_fresh id t tries _ (acquire_owned host id t db own) f

    -- A lock that is not running at `now`, or has gone stale, is not refused as held.
    acquire_free :
        (host id : String) (now : ℕ) (db : Db) (row : Row)
        → find_one db id ≡ some row
        → matches (free_or_stale now) row ≡ true
        → (acquire_lock mongo locks host id now db).0 ≢ held
    unfolding acquire_lock
    acquire_free host id now db row e free =
        elim (found id (free_or_stale now) (claim now host) db row e free) [
          | inl (old, _) ↦ rw old (λ o. cc)
          | inr (down, _) ↦ rw down (λ o. cc)
        ]

    -- `releaseLock` does not ask who owns the lock: unless its update failed and left the document
    -- as it was, the next to try is not refused as held, at whatever moment, even where the lock
    -- had been taken over and its new owner is still running.
    pub release_lock-acquire_lock :
        (host id : String) (done now : ℕ) (stats : Option Stats) (db : Db) (row : Row)
        → find_one db id ≡ some row
        → let db' = release_lock mongo locks id done stats db in
          (find_one db' id ≡ find_one db id) ⊎ ((acquire_lock mongo locks host id now db').0 ≢ held)
    unfolding release_lock
    release_lock-acquire_lock host id done now stats db row e =
        elim (updated id (released done stats) db) [
          | inr (_, same) ↦ inl same
          | inl new ↦ inr (
              acquire_free host id now _ _ (new ∙ ap (Option.map _) e)
                (open_lem now done stats row))
        ]

    -- `getLockInfo` agrees with `acquireLock`: at a moment when it shows the lock as running nobody
    -- gets the lock, and when it does not nobody is refused as held.
    pub get_lock_info-acquire_lock :
        (host id : String) (now : ℕ) (db : Db) (row : Row)
        → find_one db id ≡ some row
        → IsLock row
        → (acquire_lock mongo locks host id now db).0
          ≢ (if (get_lock_info mongo locks id now db).running then owned else held)
    unfolding get_lock_info acquire_lock
    get_lock_info-acquire_lock host id now db row e l =
        rw (e, lock_info_lem now row l)
          (elim (Bool-cases (matches (free_or_stale now) row)) [
            | inl free ↦ rw free (acquire_free host id now db row e free)
            | inr busy ↦
                rw busy (elim (taken id (free_or_stale now) (claim now host) db row e busy).0 [
                  | inl dup ↦ rw dup (λ o. cc)
                  | inr down ↦ rw down (λ o. cc)
                ])
          ])
