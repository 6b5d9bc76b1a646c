-- ===== src/DemiPush/Rows/Flags.antt =====
-- Which rows `recordOutcome` (api/helpers/demiPush.js) leaves flagged.
use eagle_api.Prelude.{
  ◌&&◌, ◌+◌, ◌===◌, ◌||◌, ◌≡◌, ◌∷◌, ◌⊎◌, Bool, List, Memᴰ, Option, String, [], false, if◌then◌else◌,
  is_name, leb, none, some, true, ℕ, is_set, arith, Bool-cases, Option-cases, inl, inr, refl,
  eq_refl, subst, sym,
}
use eagle_api.DemiPush.{Failure, Landing}
use eagle_api.DemiPush.Rows.{
  Row, Store, Write, clear, clear_delete, clear_failed_delete, clear_pending, clock_skew_ms,
  flag_row, has_model, is_covered, keep_failed_delete, mark, mark_pending, record_outcome,
  unflag_row, update_rows, write,
}

-- The row is flagged for the sweep since `t`.
abbrev pub Flagged : ℕ → String → String → Store → Type 0
Flagged t kind id s =
    (r : Row) × (s.rows kind id ≡ some r) × (r.pending ≡ true) × (r.failed_at ≡ some t)

abbrev pub Stored : String → String → Store → Type 0
Stored kind id s = (r : Row) × (s.rows kind id ≡ some r)

-- A landing that read its row by `t`, give or take the skew of the clocks.
abbrev pub is_read_by : ℕ → Option ℕ → Bool
is_read_by t none = true
is_read_by t (some read_at) = leb read_at (t + clock_skew_ms)

abbrev pub is_recent : ℕ → Write → Bool
is_recent t (clear l) = is_read_by t l.read_at
is_recent t _ = true

update_rows-row :
    (k : String) (sel : String → Row → Bool) (f : Row → Row) (s : Store) (kind id : String)
    (r : Row)
    → s.rows kind id ≡ some r
    → (update_rows k sel f s).rows kind id ≡ some (if (kind === k) && sel id r then f r else r)
update_rows-row k sel f s kind id r e = elim (Bool-cases (kind === k)) [
  | inl same ↦ ground (arith, e, same)
  | inr other ↦ ground (arith, e, other)
]

update_rows-Stored :
    (k : String) (sel : String → Row → Bool) (f : Row → Row) (s : Store) (kind id : String)
    → Stored kind id s
    → Stored kind id (update_rows k sel f s)
update_rows-Stored k sel f s kind id (r, e) = (_, update_rows-row k sel f s kind id r e)

-- A change of rows that either leaves this one or keeps its flag.
update_rows-Flagged :
    (t : ℕ) (k : String) (sel : String → Row → Bool) (f : Row → Row) (s : Store) (kind id : String)
    → ((r : Row)
        → r.pending ≡ true
        → r.failed_at ≡ some t
        → sel id r ≡ true
        → ((f r).pending ≡ true) × ((f r).failed_at ≡ some t))
    → Flagged t kind id s
    → Flagged t kind id (update_rows k sel f s)
update_rows-Flagged t k sel f s kind id keeps (r, e, p, q) =
    elim (Bool-cases ((kind === k) && sel id r)) [
      | inl hit ↦
          let (p', q') = keeps r p q (ground (arith, hit)) in
          (f r, ground (arith, update_rows-row k sel f s kind id r e, hit), p', q')
      | inr miss ↦ (r, ground (arith, update_rows-row k sel f s kind id r e, miss), p, q)
    ]

module _ (registered : String → Bool) (valid_id : String → Bool) where
  -- What a failure's write does: nothing, a flag on some rows of its kind, or a tombstone.
  mark_pending-cases :
      (f : Failure) (t : ℕ) (s : Store)
      → let marked = mark_pending registered valid_id f t s in
        (marked ≡ s)
        ⊎ (((sel : String → Row → Bool) × (marked
                ≡ update_rows f.of_entry.kind sel (flag_row t f.reason) s))
            ⊎ ((doc : String) × (marked ≡ keep_failed_delete f doc t s)))
  unfolding mark_pending
  mark_pending-cases f t s = elim (Option-cases f.of_entry.org_filter) [
    | inr (org, o) ↦ elim (Bool-cases (has_model registered valid_id f.of_entry.kind)) [
      | inl m ↦ inr (inl (λ i r. is_name r.org org, ground (arith, o, m)))
      | inr m ↦ inl (ground (arith, o, m))
    ]
    | inl o ↦
        elim (Bool-cases
          (has_model registered valid_id f.of_entry.kind && valid_id f.of_entry.id)) [
            | inr m ↦ inl (ground (arith, o, m))
            | inl m ↦ elim (Bool-cases (is_set (s.rows f.of_entry.kind f.of_entry.id))) [
              | inl r ↦ inr (inl (λ i r. i === f.of_entry.id, ground (arith, o, m, r)))
              | inr r ↦ elim (Option-cases f.of_entry.deleted_doc) [
                | inl d ↦ inl (ground (arith, o, m, r, d))
                | inr (doc, d) ↦ inr (inr (doc, ground (arith, o, m, r, d)))
              ]
            ]
          ]
  ]

  clear_pending-cases :
      (l : Landing) (s : Store)
      → let cleared = clear_pending registered valid_id l s in
        (cleared ≡ s)
        ⊎ ((read_at : ℕ) × (l.read_at ≡ some read_at)
            × (cleared ≡ update_rows l.of_entry.kind (is_covered read_at l) unflag_row s))
  unfolding clear_pending
  clear_pending-cases l s = elim (Option-cases l.read_at) [
    | inl e ↦ inl (ground (arith, e))
    | inr (read_at, e) ↦
        elim (Bool-cases (
          has_model registered valid_id l.of_entry.kind
          && (is_set l.ids || valid_id l.of_entry.id))) [
            | inl m ↦ inr (read_at, e, ground (arith, e, m))
            | inr m ↦ inl (ground (arith, e, m))
          ]
  ]

  write-Stored :
      (t : ℕ) (w : Write) (s : Store) (kind id : String)
      → Stored kind id s
      → Stored kind id (write registered valid_id t w s)
  unfolding write clear_failed_delete keep_failed_delete
  write-Stored t (clear_delete l) s kind id h = h
  write-Stored t (mark f) s kind id h = elim (mark_pending-cases f t s) [
    | inl e ↦ subst (Stored kind id) (sym e) h
    | inr (inl (sel, e)) ↦ subst (Stored kind id) (sym e) (update_rows-Stored _ sel _ s kind id h)
    | inr (inr (doc, e)) ↦ subst (Stored kind id) (sym e) h
  ]
  write-Stored t (clear l) s kind id h = elim (clear_pending-cases l s) [
    | inl e ↦ subst (Stored kind id) (sym e) h
    | inr (read_at, r, e) ↦
        subst (Stored kind id) (sym e)
          (update_rows-Stored _ (is_covered read_at l) unflag_row s kind id h)
  ]

  write-Flagged :
      (t : ℕ) (w : Write) (s : Store) (kind id : String)
      → is_recent t w ≡ true
      → Flagged t kind id s
      → Flagged t kind id (write registered valid_id t w s)
  unfolding write clear_failed_delete keep_failed_delete
  write-Flagged t (clear_delete l) s kind id recent h = h
  write-Flagged t (mark f) s kind id recent h = elim (mark_pending-cases f t s) [
    | inl e ↦ subst (Flagged t kind id) (sym e) h
    | inr (inl (sel, e)) ↦
        subst (Flagged t kind id) (sym e)
          (update_rows-Flagged t _ sel _ s kind id (λ r p q hit. (refl, refl)) h)
    | inr (inr (doc, e)) ↦ subst (Flagged t kind id) (sym e) h
  ]
  write-Flagged t (clear l) s kind id recent h = elim (clear_pending-cases l s) [
    | inl e ↦ subst (Flagged t kind id) (sym e) h
    | inr (read_at, r, e) ↦ subst (Flagged t kind id) (sym e) (
        update_rows-Flagged t _ (is_covered read_at l) unflag_row s kind id
          (λ row p q hit. absurd (ground (arith, r, p, q, hit, recent))) h)
  ]

  -- A failure that has a row flags it.
  mark-Flagged :
      (f : Failure) (t : ℕ) (s : Store)
      → f.of_entry.org_filter ≡ none
      → has_model registered valid_id f.of_entry.kind ≡ true
      → valid_id f.of_entry.id ≡ true
      → Stored f.of_entry.kind f.of_entry.id s
      → Flagged t f.of_entry.kind f.of_entry.id (write registered valid_id t (mark f) s)
  unfolding write mark_pending
  mark-Flagged f t s o m v (r, e) = (
    flag_row t f.reason r,
    ground (arith, o, m, v, e, eq_refl f.of_entry.kind, eq_refl f.of_entry.id),
    refl,
    refl,
  )

  record_outcome-keeps :
      (t : ℕ) (ws : List (Bool × Write)) (s : Store) (kind id : String)
      → ((w : Bool × Write) → Memᴰ w ws → is_recent t w.1 ≡ true)
      → Flagged t kind id s
      → Flagged t kind id (record_outcome registered valid_id t ws s)
  unfolding record_outcome
  record_outcome-keeps t [] s kind id recent h = h
  record_outcome-keeps t ((false, w) ∷ ws) s kind id recent h =
      record_outcome-keeps t ws s kind id (λ v m. recent v (Memᴰ.tail m)) h
  record_outcome-keeps t ((true, w) ∷ ws) s kind id recent h =
      record_outcome-keeps t ws _ kind id (λ v m. recent v (Memᴰ.tail m))
        (write-Flagged t w s kind id (recent (true, w) (Memᴰ.head refl)) h)

  pub record_outcome-Flagged :
      (t : ℕ) (ws : List (Bool × Write)) (s : Store) (f : Failure)
      → ((w : Bool × Write) → Memᴰ w ws → is_recent t w.1 ≡ true)
      → f.of_entry.org_filter ≡ none
      → has_model registered valid_id f.of_entry.kind ≡ true
      → valid_id f.of_entry.id ≡ true
      → Stored f.of_entry.kind f.of_entry.id s
      → Memᴰ (true, mark f) ws
      → Flagged t f.of_entry.kind f.of_entry.id (record_outcome registered valid_id t ws s)
  unfolding record_outcome
  record_outcome-Flagged t [] s f recent o m v h mem = elim mem [ ]
  record_outcome-Flagged t ((b, w) ∷ ws) s f recent o m v h (Memᴰ.head same) =
      subst
        (λ x.
          Flagged t f.of_entry.kind f.of_entry.id (record_outcome registered valid_id t (x ∷ ws) s))
        same
        (record_outcome-keeps t ws _ _ _ (λ v m. recent v (Memᴰ.tail m))
          (mark-Flagged f t s o m v h))
  record_outcome-Flagged t ((false, w) ∷ ws) s f recent o m v h (Memᴰ.tail mem) =
      record_outcome-Flagged t ws s f (λ v m. recent v (Memᴰ.tail m)) o m v h mem
  record_outcome-Flagged t ((true, w) ∷ ws) s f recent o m v h (Memᴰ.tail mem) =
      record_outcome-Flagged t ws _ f (λ v m. recent v (Memᴰ.tail m)) o m v
        (write-Stored t w s _ _ h) mem
