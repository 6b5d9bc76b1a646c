-- ===== src/DemiPush/Rows/Sweepable.antt =====
-- From `awaitMirror` to `recordOutcome` (api/helpers/demiPush.js): what the sweep finds.
use mathlib.Core.List.{Permᴰ}
use mathlib.Core.List.Permᴰ
use eagle_api.Prelude.{
  Mem-Permᴰ, Mem→all, Mem-map, Mem-unmap, ◌≡◌, Bool, List, Memᴰ, String, all, map, none, some, true,
  ℕ, arith, Bool-cases, Option-cases, inl, inr, refl, subst, sym, Mem-append, Mem-append_left, ap,
  ◌∙◌,
}
use eagle_api.DemiPush.{Failure, Label, Landing, Push, await_mirror, entry, landing, reason_of}
use eagle_api.DemiPush.Settling.{failures_lem, landed_lem}
use eagle_api.DemiPush.Rows.{
  Store, Write, clear, clear_delete, has_model, mark, outcome_writes, record_outcome,
}
use eagle_api.DemiPush.Rows.Flags.{Flagged, Stored, is_read_by, is_recent, record_outcome-Flagged}

-- The push read its row, if it did, no later than `t` and the skew.
abbrev pub is_early : ℕ → Push → Bool
is_early t p = elim p.label [ none ↦ true | some l ↦ is_read_by t l.outcome.read_at ]

-- A write that flags a row goes through.
abbrev pub keeps_marks : Bool × Write → Bool
keeps_marks (b, mark f) = b
keeps_marks (b, clear l) = true
keeps_marks (b, clear_delete l) = true

landing-is_read_by :
    (t : ℕ) (l : Label)
    → is_read_by t l.outcome.read_at ≡ true
    → is_read_by t (landing l).read_at ≡ true
unfolding landing
landing-is_read_by t l h = elim (Bool-cases l.outcome.pending) [
  | inr off ↦ ground (arith, off)
  | inl on ↦ elim (Option-cases l.outcome.ids) [
    | inl e ↦ ground (arith, on, e, h)
    | inr (ids, e) ↦ ground (arith, on, e, h)
  ]
]

-- The landings of pushes that read their rows in time.
landed-is_read_by :
    (t : ℕ) (ps : List Push) (x : Landing)
    → all (is_early t) ps ≡ true
    → Memᴰ x (await_mirror ps).landed
    → is_read_by t x.read_at ≡ true
unfolding await_mirror
landed-is_read_by t ps x early mem = elim (landed_lem ps _ x mem) [
  | inl m ↦ elim m [ ]
  | inr (p, l, m, e, same) ↦
      ap (λ y. is_read_by t y.read_at) same
      ∙ landing-is_read_by t l (ground (arith, e, Mem→all (is_early t) ps p early m))
]

outcome_writes-is_recent :
    (t : ℕ) (ps : List Push) (w : Write)
    → all (is_early t) ps ≡ true
    → Memᴰ w (outcome_writes (await_mirror ps))
    → is_recent t w ≡ true
unfolding outcome_writes
outcome_writes-is_recent t ps (mark f) early mem = refl
outcome_writes-is_recent t ps (clear_delete x) early mem = refl
outcome_writes-is_recent t ps (clear x) early mem =
    elim (Mem-append (map mark (await_mirror ps).failures) mem) [
      | inl m ↦ let (f, _, e) = Mem-unmap mark _ _ m in absurd (ground (arith, e))
      | inr m ↦ elim (Mem-append (map clear (await_mirror ps).landed) m) [
        | inl n ↦
            let (y, k, e) = Mem-unmap clear _ _ n in
            ap (is_recent t) e ∙ landed-is_read_by t ps y early k
        | inr n ↦ let (y, _, e) = Mem-unmap clear_delete _ _ n in absurd (ground (arith, e))
      ]
    ]

module _ (registered : String → Bool) (valid_id : String → Bool) where
  -- A push that did not land leaves its row flagged for the sweep with the time of the failure: in
  -- whatever order the writes of the outcome reach Mongo, and whichever clearing writes fail, if the
  -- flagging writes go through, the row is stored under a known kind and a valid id, the push is no
  -- push of an organization's users, and the pushes read their rows by then, give or take the skew.
  pub await_mirror-record_outcome :
      (t : ℕ) (ps : List Push) (ws : List (Bool × Write)) (s : Store) (p : Push) (l : Label)
      (why : String)
      → Permᴰ (map (λ w. w.1) ws) (outcome_writes (await_mirror ps))
      → all keeps_marks ws ≡ true
      → all (is_early t) ps ≡ true
      → Memᴰ p ps
      → p.label ≡ some l
      → reason_of p ≡ some why
      → l.outcome.org_filter ≡ none
      → has_model registered valid_id l.kind ≡ true
      → valid_id l.id ≡ true
      → Stored l.kind l.id s
      → Flagged t l.kind l.id (record_outcome registered valid_id t ws s)
  unfolding outcome_writes await_mirror
  await_mirror-record_outcome t ps ws s p l why perm kept early mem e r o m v h =
      let failure : Failure = record { of_entry = entry l; reason = why } in
      let started : Memᴰ (mark failure) (outcome_writes (await_mirror ps)) =
        Mem-append_left _ (Mem-map mark _ failure (failures_lem ps _ p l why mem e r)) in
      let ((b, w), k, same) =
        Mem-unmap (λ w. w.1) ws (mark failure)
          (Mem-Permᴰ (mark failure) (Permᴰ.symm perm) started) in
      let done : b ≡ true =
        ap (λ x. keeps_marks (b, x)) same ∙ Mem→all keeps_marks ws (b, w) kept k in
      record_outcome-Flagged registered valid_id t ws s failure
        (λ x n.
          outcome_writes-is_recent t ps x.1 early (Mem-Permᴰ x.1 perm (Mem-map (λ w. w.1) ws x n)))
        o m v h (subst (λ x. Memᴰ x ws) (ap (λ c. (c, w)) done ∙ ap (λ x. (true, x)) (sym same)) k)
