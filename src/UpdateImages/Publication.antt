-- ===== src/UpdateImages/Publication.antt =====
-- That a published Update shows only public documents, and what a release leaves public
-- (api/helpers/updateImages.js).
use eagle_api.Prelude.{
  includes-append, includes-filter, Mem→includes, Mem-unmap, Mem-filter, ◌===◌, ◌||◌, ◌≡◌, ◌∷◌,
  Bool, Bool-cases, List, Memᴰ, String, [], arith, includes, includes→Mem, inl, inr, not, refl,
  true, ap, subst, sym, ◌∙◌,
}
use eagle_api.UpdateImages.{
  Doc, Saves, ShownElsewhere, Shows, awaits_publication, is_public, is_update_image,
  non_public_document_ids, passes, passing_ids, publish, publish_each, publish_for,
  shown_document_ids,
}

-- A publication that is saved leaves its document public, under its id.
publish-saved :
    (saves : Saves) (d : Doc)
    → (publish saves d).is_saved ≡ true
    → (is_public (publish saves d).stored ≡ true) × ((publish saves d).stored.id ≡ d.id)
unfolding publish
publish-saved saves d h = elim (Bool-cases (saves d.id).0) [
  | inr lost ↦ absurd (ground (arith, lost, h))
  | inl first ↦ elim (Bool-cases (is_public d)) [
    | inl already ↦ (ground (arith, first, already), ground (arith, first, already))
    | inr hidden ↦ elim (Bool-cases (saves d.id).1) [
      | inr lost ↦ absurd (ground (arith, first, hidden, lost, h))
      | inl second ↦ (
        ground (arith, first, hidden, second, includes-append d.read ("public" ∷ []) "public"),
        ground (arith, first, hidden, second),
      )
    ]
  ]
]

-- A step of a loop that is completed: what is stored for the first document.
publish_each-step :
    (saves : Saves) (selects : Doc → Bool) (x : Doc) (ds : List Doc)
    → (publish_each saves selects (x ∷ ds)).is_complete ≡ true
    → ((publish_each saves selects ds).is_complete ≡ true)
      × (y : Doc) × ((publish_each saves selects (x ∷ ds)).docs
          ≡ y ∷ (publish_each saves selects ds).docs)
      × (y.id ≡ x.id)
      × ((is_public x || selects x) ≡ true → is_public y ≡ true)
unfolding publish_each
publish_each-step saves selects x ds h = elim (Bool-cases (selects x)) [
  | inr out ↦ (ground (arith, out, h), x, ground (arith, out), refl, λ p. ground (arith, out, p))
  | inl in_loop ↦ elim (Bool-cases (publish saves x).is_saved) [
    | inr lost ↦ absurd (ground (arith, in_loop, lost, h))
    | inl saved ↦
        let (seen, same) = publish-saved saves x saved in
        (
          ground (arith, in_loop, saved, h),
          (publish saves x).stored,
          ground (arith, in_loop, saved),
          same,
          λ p. seen,
        )
  ]
]

-- After a complete loop every document that was public or selected is there and public.
publish_each-is_public :
    (saves : Saves) (selects : Doc → Bool) (ds : List Doc) (d : Doc)
    → (publish_each saves selects ds).is_complete ≡ true
    → Memᴰ d ds
    → (is_public d || selects d) ≡ true
    → (e : Doc) × Memᴰ e (publish_each saves selects ds).docs × (e.id ≡ d.id) × (is_public e ≡ true)
publish_each-is_public saves selects [] d h m p = elim m [ ]
publish_each-is_public saves selects (x ∷ ds) d h (Memᴰ.head e) p =
    let (_, y, shape, same, seen) = publish_each-step saves selects x ds h in
    (
      y,
      subst (Memᴰ y) (sym shape) (Memᴰ.head refl),
      same ∙ ap (λ z. z.id) (sym e),
      seen (ap (λ z. is_public z || selects z) (sym e) ∙ p),
    )
publish_each-is_public saves selects (x ∷ ds) d h (Memᴰ.tail m) p =
    let (complete, y, shape, _, _) = publish_each-step saves selects x ds h in
    let (e, k, same, seen) = publish_each-is_public saves selects ds d complete m p in
    (e, subst (Memᴰ e) (sym shape) (Memᴰ.tail k), same, seen)

-- A document that a shown id passes by.
passing :
    (u : Shows) (docs : List Doc) (i : String)
    → includes (passing_ids u docs) i ≡ true
    → (d : Doc) × Memᴰ d docs
      × (d.id ≡ i)
      × ((d.schema_name === "Document") ≡ true)
      × (passes u d ≡ true)
unfolding passing_ids
passing u docs i h =
    let (d, m, e) = Mem-unmap (λ d. d.id) _ i (includes→Mem _ i h) in
    let (n, t) = Mem-filter _ docs d m in (d, n, sym e, ground (arith, t), ground (arith, t))

-- Such a document is public, or `publishFor` publishes it.
passes-awaits_publication :
    (u : Shows) (d : Doc)
    → (d.schema_name === "Document") ≡ true
    → passes u d ≡ true
    → (is_public d || awaits_publication u d) ≡ true
unfolding passes awaits_publication is_update_image
passes-awaits_publication u d s p = elim (Bool-cases (is_public d)) [
  | inl e ↦ ground (arith, e)
  | inr e ↦ ground (arith, e, s, p)
]

publish_for_complete :
    (saves unsaves resaves : Saves) (first second : ShownElsewhere) (u : Shows) (docs : List Doc)
    → (publish_for saves unsaves resaves first second u docs).1 ≡ true
    → ((publish_each saves (awaits_publication u) docs).is_complete ≡ true)
      × ((publish_for saves unsaves resaves first second u docs).0
          ≡ (publish_each saves (awaits_publication u) docs).docs)
unfolding publish_for
publish_for_complete saves unsaves resaves first second u docs r =
    elim (Bool-cases (publish_each saves (awaits_publication u) docs).is_complete) [
      | inl complete ↦ (complete, ground (arith, complete))
      | inr stopped ↦ absurd (ground (arith, stopped, r))
    ]

-- Each document that the Update shows is stored, and public or one that `publishFor` publishes.
abbrev pub IsReady : Shows → List Doc → Type 0
IsReady u docs =
    (i : String)
    → Memᴰ i (shown_document_ids u)
    → (d : Doc) × Memᴰ d docs × (d.id ≡ i) × ((is_public d || awaits_publication u d) ≡ true)

pub non_public_document_ids-IsReady :
    (u : Shows) (docs : List Doc) → non_public_document_ids u docs ≡ [] → IsReady u docs
unfolding non_public_document_ids
non_public_document_ids-IsReady u docs h i m =
    let found : includes (passing_ids u docs) i ≡ true = ground (
      arith,
      ap (λ xs. includes xs i) h,
      includes-filter (λ j. not (includes (passing_ids u docs) j)) (shown_document_ids u) i,
      Mem→includes (shown_document_ids u) i m,
    ) in
    let (d, n, same, s, p) = passing u docs i found in
    (d, n, same, passes-awaits_publication u d s p)

-- Where `publishFor` returns, every document that the Update shows is stored and public.
pub publish_for-shown :
    (saves unsaves resaves : Saves) (first second : ShownElsewhere) (u : Shows) (docs : List Doc)
    (i : String)
    → IsReady u docs
    → (publish_for saves unsaves resaves first second u docs).1 ≡ true
    → Memᴰ i (shown_document_ids u)
    → (e : Doc) × Memᴰ e (publish_for saves unsaves resaves first second u docs).0
      × (e.id ≡ i)
      × (is_public e ≡ true)
publish_for-shown saves unsaves resaves first second u docs i ready r m =
    let (d, n, same, p) = ready i m in
    let (complete, result) = publish_for_complete saves unsaves resaves first second u docs r in
    let (e, k, same_e, seen) =
      publish_each-is_public saves (awaits_publication u) docs d complete n p in
    (e, subst (Memᴰ e) (sym result) k, same_e ∙ same, seen)

pub publish_for-IsReady :
    (saves unsaves resaves : Saves) (first second : ShownElsewhere) (u : Shows) (docs : List Doc)
    → IsReady u docs
    → (publish_for saves unsaves resaves first second u docs).1 ≡ true
    → IsReady u (publish_for saves unsaves resaves first second u docs).0
publish_for-IsReady saves unsaves resaves first second u docs ready r i m =
    let (e, k, same, seen) =
      publish_for-shown saves unsaves resaves first second u docs i ready r m in
    (e, k, same, ground (arith, seen))

-- If `nonPublicDocumentIds` names none, and `publishFor` then returns, every document that the Update
-- shows is stored and public.
pub publish_for-non_public_document_ids :
    (saves unsaves resaves : Saves) (first second : ShownElsewhere) (u : Shows) (docs : List Doc)
    (i : String)
    → non_public_document_ids u docs ≡ []
    → (publish_for saves unsaves resaves first second u docs).1 ≡ true
    → Memᴰ i (shown_document_ids u)
    → (e : Doc) × Memᴰ e (publish_for saves unsaves resaves first second u docs).0
      × (e.id ≡ i)
      × (is_public e ≡ true)
publish_for-non_public_document_ids saves unsaves resaves first second u docs i h =
    publish_for-shown saves unsaves resaves first second u docs i
      (non_public_document_ids-IsReady u docs h)
