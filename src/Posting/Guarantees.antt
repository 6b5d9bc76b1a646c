-- ===== src/Posting/Guarantees.antt =====
-- What a created Update satisfies (protectedPost of api/controllers/recentActivity.js).
use eagle_api.Prelude.{
  ◌≡◌, Bool, Bool-cases, List, Memᴰ, Option, String, Text, [], arith, if◌then◌else◌, includes, inl,
  inr, is_name, is_name_iff, none, some, true, ℕ, ap, subst, sym, ◌∙◌,
}
use eagle_api.UpdateRules.{Update}
use eagle_api.UpdateRules.Validity.{IsValid, validate_iff}
use eagle_api.UpdateRules.Status.{apply_status}
use eagle_api.UpdateImages.{
  Doc, Saves, ShownElsewhere, Shows, awaits_publication, is_public, publish_each, publish_for,
  shown_document_ids,
}
use eagle_api.UpdateImages.Publication.{
  IsReady, non_public_document_ids-IsReady, publish_for-IsReady, publish_for-shown,
}
use eagle_api.Posting.{
  Body, Others, Save, check, created, fine, post_prepared, prepare, protected_post, save_update,
  shows_of, stored, duplicate_key, failed,
}
use eagle_api.Posting.Checks.{Checked-cases, check-fine, prepared-agrees, shows_of-prepare}

module _ (url_protocol : Text → Option Text) (object_id : String → ℕ) where
  module _ (saves again unsaves resaves : Saves) (first second : ShownElsewhere) where
    -- The second publication of the images.
    abbrev republication : Body → List Doc → List Doc × Bool
    republication b docs =
        publish_for again unsaves resaves first second (shows_of url_protocol object_id b) docs

    save_update-created :
        (saved : Save) (ids : List String) (b : Body) (docs : List Doc) (row : Update)
        → let p =
            save_update url_protocol object_id again unsaves resaves first second saved ids b
              docs in
          p.reply ≡ created row
          → (row ≡ b.update)
            × (is_name b.update.status "published" ≡ true
                → (p.docs ≡ (republication b docs).0) × (p.republished ≡ (republication b docs).1))
    unfolding save_update
    save_update-created stored ids b docs row h =
        elim (Bool-cases (is_name b.update.status "published")) [
          | inl live ↦ (ground (arith, live, h), λ p. (ground (arith, live), ground (arith, live)))
          | inr draft ↦ (ground (arith, draft, h), λ p. absurd (ground (arith, p, draft)))
        ]
    save_update-created duplicate_key ids b docs row h = absurd (ground (arith, h))
    save_update-created failed ids b docs row h = absurd (ground (arith, h))

    module _ (others : Others) (readable : Bool) (saved : Save) (id_ok : Bool) where
      abbrev first_publication : Body → List Doc → List Doc × Bool
      first_publication b docs =
          publish_for saves unsaves resaves first second (shows_of url_protocol object_id b)
            (others.before_publishing docs)

      post_prepared-created :
          (b : Body) (docs : List Doc) (row : Update)
          → let p =
              post_prepared url_protocol object_id saves again unsaves resaves first second others
                readable saved id_ok b docs in
            p.reply ≡ created row
            → (check url_protocol object_id true b (if readable then some docs else none) ≡ fine)
              × (row ≡ b.update)
              × (is_name b.update.status "published" ≡ true
                  → let images = first_publication b docs in
                    let last = republication b (others.before_saved images.0) in
                    (images.1 ≡ true) × (p.docs ≡ last.0) × (p.republished ≡ last.1))
      unfolding post_prepared
      post_prepared-created b docs row h =
          elim (Checked-cases
            (check url_protocol object_id true b (if readable then some docs else none))) [
              | inr (inl c) ↦ absurd (ground (arith, c, h))
              | inr (inr (inl (e, es, c))) ↦ absurd (ground (arith, c, h))
              | inr (inr (inr (i, is, c))) ↦ absurd (ground (arith, c, h))
              | inl c ↦ elim (Bool-cases id_ok) [
                | inr no_id ↦ absurd (ground (arith, c, no_id, h))
                | inl id ↦ elim (Bool-cases (is_name b.update.status "published")) [
                  | inr draft ↦ (
                    c,
                    (save_update-created saved [] b (others.before_saved docs) row
                        (ground (arith, c, id, draft, h))).0,
                    λ p. absurd (ground (arith, p, draft)),
                  )
                  | inl live ↦ elim (Bool-cases (first_publication b docs).1) [
                    | inr lost ↦ absurd (ground (arith, c, id, live, lost, h))
                    | inl done ↦
                        let (same, kept) =
                          save_update-created saved
                            (publish_each saves
                              (awaits_publication (shows_of url_protocol object_id b))
                              (others.before_publishing docs)).published
                            b (others.before_saved (first_publication b docs).0) row
                            (ground (arith, c, id, live, done, h)) in
                        (
                          c,
                          same,
                          λ p. (
                            done,
                            ground (arith, c, id, live, done, (kept p).0),
                            ground (arith, c, id, live, done, (kept p).1),
                          ),
                        )
                  ]
                ]
              ]
            ]

      -- An Update that protectedPost creates meets every rule of `validate`, is active exactly if it is published, and has
      -- the public role exactly if it is published, whatever roles the client sent.
      pub protected_post-created :
          (now : ℕ) (b : Body) (docs : List Doc) (row : Update)
          → (protected_post url_protocol object_id saves again unsaves resaves first second others
              readable saved id_ok now b docs).reply
            ≡ created row
          → IsValid url_protocol row
            × (row.active ≡ some (is_name row.status "published"))
            × (xs : List String) × (row.read ≡ some xs)
            × (includes xs "public" ≡ is_name row.status "published")
      unfolding protected_post
      protected_post-created now b docs row h =
          let (checked, same, _) =
            post_prepared-created (prepare url_protocol object_id now b) docs row h in
          let (rules, _) =
            check-fine url_protocol object_id (prepare url_protocol object_id now b) docs readable
              checked in
          let (active, xs, read, seen) = prepared-agrees url_protocol object_id now b in
          subst
            (λ u.
              IsValid url_protocol u
              × (u.active ≡ some (is_name u.status "published"))
              × (xs : List String) × (u.read ≡ some xs)
              × (includes xs "public" ≡ is_name u.status "published"))
            (sym same) ((validate_iff url_protocol _).0 rules, active, xs, read, seen)

      -- Other requests leave each shown document stored, and public or one that `publishFor` publishes.
      abbrev pub AreConsiderate : Body → Type 0
      AreConsiderate b =
          let u = shows_of url_protocol object_id b in
          ((docs : List Doc) → IsReady u docs → IsReady u (others.before_publishing docs))
          × ((docs : List Doc) → IsReady u docs → IsReady u (others.before_saved docs))

      considerate_prepared :
          (now : ℕ) (b : Body)
          → AreConsiderate b
          → AreConsiderate (prepare url_protocol object_id now b)
      unfolding shows_of prepare apply_status
      considerate_prepared now b c = c

      -- If protectedPost creates a published Update and the second publication of its images returns,
      -- every document that the body shows is stored and public afterwards, also where other requests
      -- make uploaded images of the Update private between the check and the save, so long as they
      -- leave every other document that it shows stored and public.
      pub protected_post-shown :
          (now : ℕ) (b : Body) (docs : List Doc) (row : Update) (i : String)
          → AreConsiderate b
          → let p =
              protected_post url_protocol object_id saves again unsaves resaves first second others
                readable saved id_ok now b docs in
            p.reply ≡ created row
            → row.status ≡ some "published"
            → p.republished ≡ true
            → Memᴰ i (shown_document_ids (shows_of url_protocol object_id b))
            → (e : Doc) × Memᴰ e p.docs × (e.id ≡ i) × (is_public e ≡ true)
      unfolding protected_post
      protected_post-shown now b docs row i considerate h live again_done mem =
          let b' : Body = prepare url_protocol object_id now b in
          let u : Shows = shows_of url_protocol object_id b' in
          let (checked, same, images) = post_prepared-created b' docs row h in
          let (_, shown) = check-fine url_protocol object_id b' docs readable checked in
          let on : is_name b'.update.status "published" ≡ true =
            (is_name_iff _ _).1 (ap (λ x. x.status) (sym same) ∙ live) in
          let (returned, kept, done) = images on in
          let (leave, leave_saved) : AreConsiderate b' = considerate_prepared now b considerate in
          let found : IsReady u (others.before_publishing docs) =
            leave docs (non_public_document_ids-IsReady u docs (shown on)) in
          let at_save : IsReady u (others.before_saved (first_publication b' docs).0) =
            leave_saved (first_publication b' docs).0 (
              publish_for-IsReady saves unsaves resaves first second u
                (others.before_publishing docs) found returned) in
          let (e, k, id_e, seen) =
            publish_for-shown again unsaves resaves first second u
              (others.before_saved (first_publication b' docs).0) i at_save (sym done ∙ again_done)
              (subst (λ x. Memᴰ i (shown_document_ids x))
                (sym (shows_of-prepare url_protocol object_id now b)) mem) in
          (e, subst (Memᴰ e) (sym kept) k, id_e, seen)
