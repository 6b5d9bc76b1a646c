-- ===== src/Posting/Checks.antt =====
-- What a body that passes the check has (`check` of api/helpers/updateRules.js, as protectedPost of
-- api/controllers/recentActivity.js calls it).
use eagle_api.Prelude.{
  ◌≡◌, Bool, Bool-cases, List, List-cases, Option, String, Text, [], arith, false, if◌then◌else◌,
  includes, inl, inr, is_name, none, refl, some, true, ℕ, ◌⊎◌,
}
use eagle_api.UpdateRules.{Problem, Update, validate}
use eagle_api.UpdateRules.Status.{apply_status}
use eagle_api.UpdateRules.Status.Visibility.{apply_status-agrees}
use eagle_api.UpdateImages.{Doc, non_public_document_ids}
use eagle_api.Posting.{Body, Checked, check, fine, prepare, shows_of, thrown, invalid, hidden}

pub Checked-cases :
    (c : Checked)
    → (c ≡ fine)
      ⊎ ((c ≡ Checked.thrown)
          ⊎ (((e : Problem) × (es : List Problem) × (c ≡ Checked.invalid e es))
              ⊎ ((i : String) × (is : List String) × (c ≡ Checked.hidden i is))))
Checked-cases fine = inl refl
Checked-cases thrown = inr (inl refl)
Checked-cases (invalid e es) = inr (inr (inl (e, es, refl)))
Checked-cases (hidden i is) = inr (inr (inr (i, is, refl)))

module _ (url_protocol : Text → Option Text) (object_id : String → ℕ) where
  -- A body that passes the check.
  pub check-fine :
      (b : Body) (docs : List Doc) (readable : Bool)
      → check url_protocol object_id true b (if readable then some docs else none) ≡ fine
      → (validate url_protocol b.update ≡ [])
        × (is_name b.update.status "published" ≡ true
            → non_public_document_ids (shows_of url_protocol object_id b) docs ≡ [])
  unfolding check
  check-fine b docs readable h = elim (List-cases (validate url_protocol b.update)) [
    | inr (e, es, v) ↦ absurd (ground (arith, v, h))
    | inl v ↦ (
      v,
      λ p. elim (List-cases (non_public_document_ids (shows_of url_protocol object_id b) docs)) [
        | inl n ↦ n
        | inr (i, is, n) ↦ elim (Bool-cases readable) [
          | inl r ↦ absurd (ground (arith, v, p, n, r, h))
          | inr r ↦ absurd (ground (arith, v, p, n, r, h))
        ]
      ],
    )
  ]

  -- The checks of the documents are those of the body as it was sent.
  pub shows_of-prepare :
      (now : ℕ) (b : Body)
      → shows_of url_protocol object_id (prepare url_protocol object_id now b)
        ≡ shows_of url_protocol object_id b
  unfolding shows_of prepare apply_status
  shows_of-prepare now b = refl

  pub prepared-agrees :
      (now : ℕ) (b : Body)
      → let u = (prepare url_protocol object_id now b).update in
        (u.active ≡ some (is_name u.status "published"))
        × (xs : List String) × (u.read ≡ some xs)
        × (includes xs "public" ≡ is_name u.status "published")
  unfolding prepare
  prepared-agrees now b =
      let bare : Update = record (b.update) { read = none } in
      apply_status-agrees now false bare bare "public"
