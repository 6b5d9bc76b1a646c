-- ===== src/DemiPush/Sweeps/Landings.antt =====
-- The rows after a pass of the sweep whose pushes land (api/helpers/demiPushSweep.js).
use eagle_api.Prelude.{
  ◌&&◌, ◌===◌, ◌≡◌, ◌≤◌, ◌∙◌, ◌∷◌, ◌||◌, Bool, List, Option, String, [], ap, arith, eq_iff,
  if◌then◌else◌, if-pick, some-injective, includes, map, none, not, refl, some, subst, sym, true, ℕ,
}
use mathlib.Core.Option
use eagle_api.DemiPush.{Push, await_mirror, landing, reason_of, resolved, sort_push}
use eagle_api.DemiPush.Rows.{
  Row, Store, Write, clear_failed_delete, clear_pending, failed_before, has_model, outcome_writes,
  record_outcome, unflag_row, write,
}
use eagle_api.DemiPush.Sweeps.{
  Attempt, Counts, count_push, is_mirrored, is_pending_row, sweep_each, sweep_push,
}

abbrev landed_push : String → String → Option String → Option String → Option String → ℕ → Push
landed_push kind i reason deleted_doc org_filter read_at = record {
  label = some (record {
    kind = kind;
    id = i;
    outcome = record {
      reason = reason;
      deleted_doc = deleted_doc;
      read_at = some read_at;
      pending = true;
      org_filter = org_filter;
      ids = none;
    };
  });
  settled = resolved true;
}

-- The push of a row lands: it was read at `t` or later, and its writes go through.
pub record IsLanding (kind : String) (t : ℕ) (i : String) (a : Attempt) : Type 0 where
  pub reason : Option String
  pub deleted_doc : Option String
  pub org_filter : Option String
  pub read_at : ℕ
  pub is_push : a.push ≡ landed_push kind i reason deleted_doc org_filter read_at
  pub read_after : t ≤ read_at
  pub is_written : (w : Write) → a.goes_through w ≡ true

-- Every failure of the kind is from before a read at `t`, give or take the skew of the clocks.
abbrev pub FailedBefore : ℕ → String → Store → Type 0
FailedBefore t kind s =
    (j : String) (r : Row) → s.rows kind j ≡ some r → failed_before t r.failed_at ≡ true

failed_before_mono :
    (t u : ℕ) (o : Option ℕ) → t ≤ u → failed_before t o ≡ true → failed_before u o ≡ true
failed_before_mono t u none h k = refl
failed_before_mono t u (some f) h k = ground (arith, h, k)

-- A row of the kind after the push of the row `i` has landed.
abbrev cleared : ℕ → String → String → Row → Row
cleared read_at i j r =
    if (j === i) && r.pending && failed_before read_at r.failed_at then unflag_row r else r

module _ (registered : String → Bool) (valid_id : String → Bool) (kind : String) (t : ℕ) where
  landed-rows :
      (i j : String) (reason deleted_doc org_filter : Option String) (read_at failed_at : ℕ)
      (goes_through : Write → Bool) (s : Store)
      → has_model registered valid_id kind ≡ true
      → valid_id i ≡ true
      → ((w : Write) → goes_through w ≡ true)
      → (record_outcome registered valid_id failed_at
            (map
              (λ w. (goes_through w, w))
              (outcome_writes
                (await_mirror (landed_push kind i reason deleted_doc org_filter read_at ∷ []))))
            s).rows
          kind j
        ≡ Option.map (cleared read_at i j) (s.rows kind j)
  unfolding record_outcome outcome_writes await_mirror sort_push landing reason_of write
      clear_pending clear_failed_delete
  landed-rows i j reason none org_filter read_at failed_at goes_through s m v w =
      rw (w _) (rw (m, v) (rw ((eq_iff kind kind).1 refl)))
  landed-rows i j reason (some doc) org_filter read_at failed_at goes_through s m v w =
      rw (w _) (rw (w _) (rw (m, v) (rw ((eq_iff kind kind).1 refl))))

  sweep_push-rows :
      (i : String) (a : Attempt) (s : Store)
      → has_model registered valid_id kind ≡ true
      → valid_id i ≡ true
      → IsLanding kind t i a
      → (u : ℕ) × (t ≤ u)
        × ((j : String)
            → (sweep_push registered valid_id a s).rows kind j
              ≡ Option.map (cleared u i j) (s.rows kind j))
  unfolding sweep_push
  sweep_push-rows i a s m v l = (
    l.read_at,
    l.read_after,
    λ j.
        ap
          (λ (p : Push).
            (record_outcome registered valid_id a.failed_at
                (map (λ w. (a.goes_through w, w)) (outcome_writes (await_mirror (p ∷ [])))) s).rows
              kind j)
          l.is_push
        ∙ landed-rows i j l.reason l.deleted_doc l.org_filter l.read_at a.failed_at a.goes_through s
            m v l.is_written,
  )

cleared-pending :
    (u : ℕ) (i j : String) (o : Option Row)
    → ((r : Row) → o ≡ some r → failed_before u r.failed_at ≡ true)
    → is_pending_row (Option.map (cleared u i j) o) ≡ (is_pending_row o && not (j === i))
cleared-pending u i j none h = refl
cleared-pending u i j (some r) h = ground (arith, h r refl)

cleared-failed_before :
    (t u : ℕ) (i j : String) (o : Option Row) (r : Row)
    → ((q : Row) → o ≡ some q → failed_before t q.failed_at ≡ true)
    → Option.map (cleared u i j) o ≡ some r
    → failed_before t r.failed_at ≡ true
cleared-failed_before t u i j none r h e = absurd (ground (arith, e))
cleared-failed_before t u i j (some q) r h e =
    subst (λ (x : Row). failed_before t x.failed_at ≡ true) (some-injective e)
      (if-pick (λ (x : Row). failed_before t x.failed_at ≡ true)
        ((j === i) && q.pending && failed_before u q.failed_at) {x = unflag_row q} {y = q} refl
        (h q refl))

left_out :
    (p : Bool) (i j : String) (is : List String)
    → ((p && not (j === i)) && not (includes is j)) ≡ (p && not (i === j || includes is j))
left_out p i j is = ground (arith, eq_iff i j, eq_iff j i)

module _ (registered : String → Bool) (valid_id : String → Bool) (kind : String) (t : ℕ) where
  -- Each push that a sweep may send lands.
  abbrev pub AllLand : (String → Attempt) → Type 0
  AllLand attempt = (i : String) → (valid_id i ≡ true) × IsLanding kind t i (attempt i)

  pub sweep_each-pending :
      (attempt : String → Attempt) (is : List String) (s : Store) (c : Counts)
      → has_model registered valid_id kind ≡ true
      → AllLand attempt
      → FailedBefore t kind s
      → FailedBefore t kind (sweep_each registered valid_id attempt is s c).0
        × ((j : String)
            → is_pending_row ((sweep_each registered valid_id attempt is s c).0.rows kind j)
              ≡ (is_pending_row (s.rows kind j) && not (includes is j)))
  unfolding sweep_each
  sweep_each-pending attempt [] s c m l f = (f, λ j. ground arith)
  sweep_each-pending attempt (i ∷ is) s c m l f =
      let (u, after, rows) =
        sweep_push-rows registered valid_id kind t i (attempt i) s m (l i).0 (l i).1 in
      let s' : Store = sweep_push registered valid_id (attempt i) s in
      let f' : FailedBefore t kind s' =
        λ j r e. cleared-failed_before t u i j (s.rows kind j) r (f j) (sym (rows j) ∙ e) in
      let (kept, rest) =
        sweep_each-pending attempt is s'
          (count_push (is_mirrored registered valid_id (attempt i)) c) m l f' in
      (
        kept,
        λ j.
            rest j
            ∙ ap (λ (o : Option Row). is_pending_row o && not (includes is j)) (rows j)
            ∙ ap (λ (b : Bool). b && not (includes is j))
                (cleared-pending u i j (s.rows kind j)
                  (λ r e. failed_before_mono t u r.failed_at after (f j r e)))
            ∙ left_out (is_pending_row (s.rows kind j)) i j is,
      )
