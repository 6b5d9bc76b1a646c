-- ===== src/Revising/Standing.antt =====
-- What holds of an Update however its edits interleave (api/controllers/recentActivity.js).
use eagle_api.Prelude.{
  ◌∙◌, Bool-cases, some-injective, get_elem?, All-erase_idx, All-get_elem?, or_else, ◌&&◌, ◌===◌,
  ◌≡◌, ◌∷◌, ◌||◌, All, Bool, List, List-cases, Memᴰ, Option, String, Text, [], ap, arith, false,
  filter, if-split, if◌then◌else◌, includes, includes-filter, inl, inr, is_name, none, not, refl,
  some, subst, sym, true, ℕ,
}
use eagle_api.Posting.{check, fine}
use eagle_api.UpdateImages.{Doc}
use eagle_api.UpdateRules.{Update, validate}
use eagle_api.UpdateRules.Status.{apply_status, is_live, is_unset, lay_over, status_of}
use eagle_api.UpdateRules.Status.Visibility.{apply_status-agrees}
use eagle_api.UpdateRules.Validity.{IsValid, validate_iff}
use eagle_api.Revising.{
  PutBody, Revision, Stored, applied, archive, check_put, lay_fields, merged, overwrite, revision,
  same_version, updated, write_revision,
}
use eagle_api.Revising.Versions.{
  AreTimely, IsTimelyEdit, Edit, Editing, IsPast, archive_at, arrive, arrived, begin, edit, edits,
  or_kept,
}
use eagle_api.Revising.Atomic.{
  IsCurrent, All-queued, IsTracked, edit-IsTracked, edits-IsTracked, same_version_iff,
}

-- The publish date is laid over the row's in both.
laid_date :
    (published dated : Bool) (now : ℕ) (sent old : Option ℕ)
    → elim (if published && dated then some now else sent) as (λ x. Option ℕ) [
      | none ↦ old
      | some d ↦ some d
    ]
      ≡ elim (if published && dated then some now else sent) as (λ x. Option ℕ) [
        | none ↦ or_else sent old
        | some d ↦ some d
      ]
laid_date true true now sent old = refl
laid_date true false now none old = refl
laid_date true false now (some d) old = refl
laid_date false dated now none old = refl
laid_date false dated now (some d) old = refl

-- Where the row that is overwritten is the one that was read, the update is `updated`.
overwrite-updated :
    (now at : ℕ) (b : PutBody) (s : Stored) (loaded : Option ℕ)
    → (overwrite now (record { existing = s; body = b; applied_at = at; loaded = loaded }) s).update
      ≡ updated at b s.update
unfolding overwrite updated applied merged lay_over lay_fields apply_status
overwrite-updated now at b s loaded =
    let m : Update = merged b s.update in
    ap (λ (d : Option ℕ). record (lay_over m (applied at b s.update)) { publish_date = d })
      (laid_date (status_of m === "published")
        (is_unset m.publish_date || is_unset b.publish_date && not (is_live s.update at)) at
        b.publish_date s.update.publish_date)

overwrite-existing :
    (now : ℕ) (w : Revision)
    → (overwrite now w w.existing).update ≡ updated w.applied_at w.body w.existing.update
overwrite-existing now w = overwrite-updated now w.applied_at w.body w.existing w.loaded

module _ (url_protocol : Text → Option Text) (object_id : String → ℕ) where
  -- The rules of `validate`, and the agreement of status, active and read.
  abbrev pub IsStanding : Update → Type 0
  IsStanding u =
      IsValid url_protocol u
      × (u.active ≡ some (is_name u.status "published"))
      × (xs : List String) × (u.read ≡ some xs)
      × (includes xs "public" ≡ is_name u.status "published")

  abbrev IsPassed : Revision → Type 0
  IsPassed w = validate url_protocol (updated w.applied_at w.body w.existing.update) ≡ []

  check_put-fine :
      (now : ℕ) (b : PutBody) (s : Stored) (docs : Option (List Doc))
      → check_put url_protocol object_id now b s docs ≡ fine
      → IsPassed (revision url_protocol object_id now b s)
  unfolding check_put check
  check_put-fine now b s docs h =
      elim (List-cases (validate url_protocol (updated now b s.update))) [
        | inl e ↦ e
        | inr (p, ps, e) ↦ absurd (ground (arith, h, e))
      ]

  updated-IsStanding :
      (now : ℕ) (b : PutBody) (u : Update)
      → validate url_protocol (updated now b u) ≡ []
      → IsStanding (updated now b u)
  unfolding updated lay_over apply_status
  updated-IsStanding now b u h =
      let m : Update = merged b u in
      let (active, xs, read, seen) =
        apply_status-agrees now (is_live u now) (record m { publish_date = b.publish_date }) m
          "public" in
      ((validate_iff url_protocol (updated now b u)).0 h, active, xs, read, seen)

  archive-IsStanding :
      (now : ℕ) (s : Stored) → IsStanding s.update → IsStanding (archive now s).update
  unfolding archive is_name
  archive-IsStanding now s (valid, active, xs, read, seen) = (
    record {
      status = inr (Memᴰ.tail (Memᴰ.tail (Memᴰ.head refl)));
      headline = valid.headline;
      summary = valid.summary;
      plain_headline = valid.plain_headline;
      plain_summary = valid.plain_summary;
      featured = valid.featured;
      gallery = valid.gallery;
      url = valid.url;
      category = valid.category;
    },
    refl,
    filter (λ role. not (role === "public")) xs,
    ap
        (λ (o : Option (List String)). elim o as (λ x. Option (List String)) [
          | none ↦ none
          | some roles ↦ some (filter (λ role. not (role === "public")) roles)
        ])
        read,
    ground (arith, includes-filter (λ role. not (role === "public")) xs "public"),
  )

  -- What the write of a revision leaves, where a row matches its filter.
  written :
      (now : ℕ) (w : Revision) (row q : Stored)
      → write_revision now w (some row) ≡ some q
      → (same_version row.version w.loaded ≡ true) × (q ≡ overwrite now w row)
  unfolding write_revision
  written now w row q h = elim (Bool-cases (same_version row.version w.loaded)) [
    | inl same ↦ (
      same,
      sym (
          some-injective
            (sym (ap (λ (b : Bool). if b then some (overwrite now w row) else none) same) ∙ h)),
    )
    | inr other ↦ absurd (ground (arith, h, other))
  ]

  -- The revision that a state holds at a position, and the row that its write leaves at a moment.
  abbrev pub IsAccepted : ℕ → ℕ → Revision → Stored → Editing → Type 0
  IsAccepted n now w q e =
      (get_elem? e.waiting n ≡ some w) × (write_revision now w (some e.row) ≡ some q)

  -- No edit is lost: if the clock stands later at each write and no client names a version that is
  -- still to come, then however the PUTs and archivings of an Update interleave, a PUT whose write
  -- finds a row to update has read that very row; when the write arrives, the row is the one that it
  -- leaves, with the Update that the PUT's checks saw.
  pub edits-overwrite :
      (ms : List Edit) (s : Stored) (clock n now : ℕ) (w : Revision) (q : Stored)
      → IsPast clock s.version
      → let start : Editing = record { row = s; waiting = []; clock = clock } in
        AreTimely url_protocol object_id ms start
        → IsAccepted n now w q (edits url_protocol object_id ms start)
        → let e = edits url_protocol object_id ms start in
          (w.existing ≡ e.row)
          × ((edit url_protocol object_id (arrive n now) e).row ≡ q)
          × (q.update ≡ updated w.applied_at w.body e.row.update)
  unfolding edit
  edits-overwrite ms s clock n now w q past timely (here, accepted) =
      let start : Editing = record { row = s; waiting = []; clock = clock } in
      let e : Editing = edits url_protocol object_id ms start in
      let tracked : IsTracked e =
        edits-IsTracked url_protocol object_id ms start timely (past, tt) in
      let (same, left) = written now w e.row q accepted in
      let read : w.existing ≡ e.row =
        (All-get_elem? (IsCurrent e.clock e.row) e.waiting n w tracked.1 here).1
          (sym (same_version_iff e.row.version w.loaded same)) in
      (
        read,
        ap (λ (o : Option Revision). arrived now o e.row) here ∙ ap (or_kept e.row) accepted,
        ap (λ (x : Stored). x.update) left
            ∙ subst
                (λ (x : Stored). (overwrite now w x).update ≡ updated w.applied_at w.body x.update)
                read (overwrite-existing now w),
      )

  arrived-IsStanding :
      (now : ℕ) (o : Option Revision) (row : Stored)
      → IsStanding row.update
      → ((w : Revision) → o ≡ some w → IsPassed w)
      → ((w : Revision) → o ≡ some w → same_version row.version w.loaded ≡ true → w.existing ≡ row)
      → IsStanding (arrived now o row).update
  unfolding write_revision
  arrived-IsStanding now none row h passed read = h
  arrived-IsStanding now (some w) row h passed read =
      if-split (λ (q : Option Stored). IsStanding (or_kept row q).update)
        (same_version row.version w.loaded) {x = some (overwrite now w row)}
        (λ same.
          let is_row : w.existing ≡ row = read w refl same in
          subst (λ (q : Stored). IsStanding (overwrite now w q).update) is_row
            (subst IsStanding (sym (overwrite-existing now w))
              (updated-IsStanding w.applied_at w.body w.existing.update (passed w refl))))
        (λ other. h)

  -- The row stands, and every revision that waits has passed its checks.
  abbrev AllStand : Editing → Type 0
  AllStand e = IsTracked e × IsStanding e.row.update × All IsPassed e.waiting

  edit-AllStand :
      (m : Edit) (e : Editing)
      → IsTimelyEdit url_protocol object_id m e
      → AllStand e
      → AllStand (edit url_protocol object_id m e)
  unfolding edit
  edit-AllStand (begin docs images_published now b) e t (k, h, p) = (
    edit-IsTracked url_protocol object_id (begin docs images_published now b) e t k,
    h,
    All-queued url_protocol object_id IsPassed docs images_published now b e.row e.waiting
        (check_put-fine now b e.row docs) p,
  )
  edit-AllStand (arrive n now) e t (k, h, p) = (
    edit-IsTracked url_protocol object_id (arrive n now) e t k,
    arrived-IsStanding now (get_elem? e.waiting n) e.row h
        (λ w here. All-get_elem? IsPassed e.waiting n w p here)
        (λ w here same.
          (All-get_elem? (IsCurrent e.clock e.row) e.waiting n w k.1 here).1
            (sym (same_version_iff e.row.version w.loaded same))),
    All-erase_idx IsPassed e.waiting n p,
  )
  edit-AllStand (archive_at now) e t (k, h, p) = (
    edit-IsTracked url_protocol object_id (archive_at now) e t k,
    archive-IsStanding now e.row h,
    p,
  )

  edits-AllStand :
      (ms : List Edit) (e : Editing)
      → AreTimely url_protocol object_id ms e
      → AllStand e
      → AllStand (edits url_protocol object_id ms e)
  unfolding edits
  edits-AllStand [] e t h = h
  edits-AllStand (m ∷ ms) e t h =
      edits-AllStand ms (edit url_protocol object_id m e) t.1 (edit-AllStand m e t.0 h)

  -- If the clock stands later at each write and no client names a version that is still to come, then
  -- however the PUTs and archivings of an Update interleave: an Update that meets every rule of
  -- `validate`, and whose status, active and public role agree, does so afterwards.
  pub edits-IsStanding :
      (ms : List Edit) (s : Stored) (clock : ℕ)
      → IsPast clock s.version
      → IsStanding s.update
      → let start : Editing = record { row = s; waiting = []; clock = clock } in
        AreTimely url_protocol object_id ms start
        → IsStanding (edits url_protocol object_id ms start).row.update
  edits-IsStanding ms s clock past h timely =
      (edits-AllStand ms (record { row = s; waiting = []; clock = clock }) timely
        ((past, tt), h, tt)).1
