-- ===== src/Revising/Atomic.antt =====
-- That no edit of an Update is lost (protectedPut of api/controllers/recentActivity.js).
use eagle_api.Prelude.{
  erase_idx, get_elem?, All-erase_idx, or_else, ◌<◌, ◌≡◌, ◌≤◌, ◌∙◌, ◌∷◌, ◌⊎◌, ==_iff, if-pick, All,
  Bool, List, Option, String, Text, [], ap, arith, if-split, inl, inr, is_name, none, not, refl,
  some, subst, sym, true, ℕ, ◌&&◌,
}
use eagle_api.Posting.{Checked, fine}
use eagle_api.UpdateImages.{Doc}
use eagle_api.Revising.{
  PutBody, PutReply, Revision, Stored, after_check, archive, begin_put, check_put, images_failed,
  overwrite, revision, same_version, updated, write_revision,
}
use eagle_api.Revising.Versions.{
  AreTimely, Edit, Editing, IsPast, IsTimelyEdit, archive_at, arrive, arrived, begin, edit, edits,
  or_kept, queued,
}

pub same_version_iff : (v w : Option ℕ) → same_version v w ≡ true → v ≡ w
same_version_iff none none h = refl
same_version_iff none (some w) h = absurd (ground (arith, h))
same_version_iff (some v) none h = absurd (ground (arith, h))
same_version_iff (some v) (some w) h = ap some ((==_iff v w).0 h)

IsPast-mono : (m n : ℕ) (v : Option ℕ) → m ≤ n → IsPast m v → IsPast n v
IsPast-mono m n none h p = tt
IsPast-mono m n (some v) h p = omega arith

IsPast-loaded_or :
    (clock : ℕ) (v w : Option ℕ) → IsPast clock v → IsPast clock w → IsPast clock (or_else v w)
IsPast-loaded_or clock none w h k = k
IsPast-loaded_or clock (some v) w h k = h

-- A revision asks for a version of the past, and for the row's version only if it read that row.
abbrev pub IsCurrent : ℕ → Stored → Revision → Type 0
IsCurrent clock row w = IsPast clock w.loaded × (w.loaded ≡ row.version → w.existing ≡ row)

abbrev pub IsTracked : Editing → Type 0
IsTracked e = IsPast e.clock e.row.version × All (IsCurrent e.clock e.row) e.waiting

-- A row of a later version is asked for by nobody who waits.
All-IsCurrent_later :
    (clock now : ℕ) (row row' : Stored) (ws : List Revision)
    → clock < now
    → row'.version ≡ some now
    → All (IsCurrent clock row) ws
    → All (IsCurrent now row') ws
All-IsCurrent_later clock now row row' [] lt v h = tt
All-IsCurrent_later clock now row row' (w ∷ ws) lt v h = (
  (
    IsPast-mono clock now w.loaded (omega arith) h.0.0,
    λ e. absurd (too_late w.loaded h.0.0 (e ∙ v)),
  ),
  All-IsCurrent_later clock now row row' ws lt v h.1,
)
  where
    too_late : (o : Option ℕ) → IsPast clock o → o ≡ some now → ⊥
    too_late none p e = ground (arith, e)
    too_late (some m) p e = ground (arith, e, p, lt)

All-IsCurrent_mono :
    (clock now : ℕ) (row : Stored) (ws : List Revision)
    → clock < now
    → All (IsCurrent clock row) ws
    → All (IsCurrent now row) ws
All-IsCurrent_mono clock now row [] lt h = tt
All-IsCurrent_mono clock now row (w ∷ ws) lt h = (
  (IsPast-mono clock now w.loaded (omega arith) h.0.0, h.0.1),
  All-IsCurrent_mono clock now row ws lt h.1,
)

-- Either nothing arrives, or the row is written at the moment.
arrived-cases :
    (now : ℕ) (o : Option Revision) (s : Stored)
    → (arrived now o s ≡ s) ⊎ ((arrived now o s).version ≡ some now)
unfolding write_revision
arrived-cases now none s = inl refl
arrived-cases now (some w) s =
    if-split (λ (q : Option Stored). (or_kept s q ≡ s) ⊎ ((or_kept s q).version ≡ some now))
      (same_version s.version w.loaded) {x = some (overwrite now w s)} (λ h. inr refl)
      (λ h. inl refl)

module _ (url_protocol : Text → Option Text) (object_id : String → ℕ) where
  -- What a PUT queues.
  pub All-queued :
      (P : Revision → Type 0) (docs : Option (List Doc)) (images_published : Bool) (now : ℕ)
      (b : PutBody) (s : Stored) (ws : List Revision)
      → (check_put url_protocol object_id now b s docs ≡ fine
          → P (revision url_protocol object_id now b s))
      → All P ws
      → All P (queued (begin_put url_protocol object_id docs images_published now b (some s)) ws)
  unfolding begin_put
  All-queued P docs images_published now b s ws p h =
      checked (check_put url_protocol object_id now b s docs) refl
    where
      checked :
          (c : Checked)
          → check_put url_protocol object_id now b s docs ≡ c
          → All P (queued (after_check url_protocol object_id images_published now b s c) ws)
      checked fine e =
          if-pick (λ (r : PutReply ⊎ Revision). All P (queued r ws))
            (is_name (updated now b s.update).status "published" && not images_published)
            {x = inl images_failed} {y = inr (revision url_protocol object_id now b s)} h (p e, h)
      checked Checked.thrown e = h
      checked (Checked.invalid x xs) e = h
      checked (Checked.hidden i is) e = h

  pub edit-IsTracked :
      (m : Edit) (e : Editing)
      → IsTimelyEdit url_protocol object_id m e
      → IsTracked e
      → IsTracked (edit url_protocol object_id m e)
  unfolding edit archive
  edit-IsTracked (begin docs images_published now b) e t h = (
    h.0,
    All-queued (IsCurrent e.clock e.row) docs images_published now b e.row e.waiting
        (λ c. (IsPast-loaded_or e.clock b.loaded e.row.version t h.0, λ s. refl)) h.1,
  )
  edit-IsTracked (arrive n now) e t h =
      let rest : All (IsCurrent e.clock e.row) (erase_idx e.waiting n) =
        All-erase_idx (IsCurrent e.clock e.row) e.waiting n h.1 in
      elim (arrived-cases now (get_elem? e.waiting n) e.row) [
        | inl same ↦
            subst
              (λ (s : Stored). IsPast now s.version × All (IsCurrent now s) (erase_idx e.waiting n))
              (sym same)
              (
                IsPast-mono e.clock now e.row.version (omega (arith, t)) h.0,
                All-IsCurrent_mono e.clock now e.row (erase_idx e.waiting n) t rest,
              )
        | inr written ↦ (
          subst (IsPast now) (sym written) (omega arith),
          All-IsCurrent_later e.clock now e.row (arrived now (get_elem? e.waiting n) e.row)
              (erase_idx e.waiting n) t written rest,
        )
      ]
  edit-IsTracked (archive_at now) e t h =
      (omega arith, All-IsCurrent_later e.clock now e.row (archive now e.row) e.waiting t refl h.1)

  pub edits-IsTracked :
      (ms : List Edit) (e : Editing)
      → AreTimely url_protocol object_id ms e
      → IsTracked e
      → IsTracked (edits url_protocol object_id ms e)
  unfolding edits
  edits-IsTracked [] e t h = h
  edits-IsTracked (m ∷ ms) e t h =
      edits-IsTracked ms (edit url_protocol object_id m e) t.1 (edit-IsTracked m e t.0 h)
