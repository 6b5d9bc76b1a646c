-- ===== src/DemiPush/Settling.antt =====
-- How `awaitMirror` (api/helpers/demiPush.js) sorts the pushes that it waited for.
use eagle_api.Prelude.{
  ◌&&◌, ◌+◌, ◌≡◌, ◌∷◌, ◌⊎◌, Bool, List, Memᴰ, String, [], all, filter, length, none, some, is_set,
  arith, Option-cases, inl, inr, refl, sym, subst, ◌∙◌, ◌==◌, ◌||◌,
}
use eagle_api.DemiPush.{
  Failure, Label, Landing, Mirrored, Push, await_mirror, entry, is_landed, landing, reason_of,
  sort_push, sort_pushes,
}

-- What one push adds.
sort_push-cases :
    (p : Push) (m : Mirrored)
    → ((p.label ≡ none) × (sort_push p m ≡ m))
      ⊎ (((l : Label) × (why : String) × (p.label ≡ some l)
            × (reason_of p ≡ some why)
            × (sort_push p m
                ≡ record m { failures = record { of_entry = entry l; reason = why } ∷ m.failures }))
          ⊎ ((l : Label) × (p.label ≡ some l)
              × (reason_of p ≡ none)
              × (sort_push p m ≡ record m { landed = landing l ∷ m.landed })))
unfolding sort_push
sort_push-cases p m = elim (Option-cases p.label) [
  | inl e ↦ inl (e, ground (arith, e))
  | inr (l, e) ↦ elim (Option-cases (reason_of p)) [
    | inl r ↦ inr (inr (l, e, r, ground (arith, e, r)))
    | inr (why, r) ↦ inr (inl (l, why, e, r, ground (arith, e, r)))
  ]
]

sort_pushes-mirrored : (ps : List Push) (m : Mirrored) → (sort_pushes ps m).mirrored ≡ m.mirrored
sort_pushes-mirrored [] m = refl
sort_pushes-mirrored (p ∷ ps) m = elim (sort_push-cases p (sort_pushes ps m)) [
  | inl (_, e) ↦ ground (arith, e, sort_pushes-mirrored ps m)
  | inr (inl (l, why, _, _, e)) ↦ ground (arith, e, sort_pushes-mirrored ps m)
  | inr (inr (l, _, _, e)) ↦ ground (arith, e, sort_pushes-mirrored ps m)
]

sort_push-failed :
    (p : Push) (m : Mirrored) (l : Label) (why : String)
    → p.label ≡ some l
    → reason_of p ≡ some why
    → sort_push p m
      ≡ record m { failures = record { of_entry = entry l; reason = why } ∷ m.failures }
unfolding sort_push
sort_push-failed p m l why e r = ground (arith, e, r)

-- A push that did not land in time is among the failures, with its reason.
pub failures_lem :
    (ps : List Push) (m : Mirrored) (p : Push) (l : Label) (why : String)
    → Memᴰ p ps
    → p.label ≡ some l
    → reason_of p ≡ some why
    → Memᴰ (record { of_entry = entry l; reason = why }) (sort_pushes ps m).failures
failures_lem [] m p l why mem e r = elim mem [ ]
failures_lem (q ∷ ps) m p l why (Memᴰ.head same) e r =
    let failure : Failure = record { of_entry = entry l; reason = why } in
    subst (λ x. Memᴰ failure (sort_push x (sort_pushes ps m)).failures) same
      (subst (λ n. Memᴰ failure n.failures) (sym (sort_push-failed p (sort_pushes ps m) l why e r))
        (Memᴰ.head {xs = (sort_pushes ps m).failures} refl))
failures_lem (q ∷ ps) m p l why (Memᴰ.tail mem) e r = elim (sort_push-cases q (sort_pushes ps m)) [
  | inl (_, f) ↦ rw f (failures_lem ps m p l why mem e r)
  | inr (inl (_, _, _, _, f)) ↦ rw f (Memᴰ.tail (failures_lem ps m p l why mem e r))
  | inr (inr (_, _, _, f)) ↦ rw f (failures_lem ps m p l why mem e r)
]

-- A landing comes of a push with a row.
pub landed_lem :
    (ps : List Push) (m : Mirrored) (x : Landing)
    → Memᴰ x (sort_pushes ps m).landed
    → Memᴰ x m.landed
      ⊎ ((p : Push) × (l : Label) × Memᴰ p ps × (p.label ≡ some l) × (x ≡ landing l))
landed_lem [] m x h = inl h
landed_lem (q ∷ ps) m x h = elim (sort_push-cases q (sort_pushes ps m)) [
  | inl (_, f) ↦ later (landed_lem ps m x (subst (λ n. Memᴰ x n.landed) f h))
  | inr (inl (_, _, _, _, f)) ↦ later (landed_lem ps m x (subst (λ n. Memᴰ x n.landed) f h))
  | inr (inr (l, e, _, f)) ↦ elim (subst (λ n. Memᴰ x n.landed) f h) [
    | Memᴰ.head same ↦ inr (q, l, Memᴰ.head refl, e, same)
    | Memᴰ.tail mem ↦ later (landed_lem ps m x mem)
  ]
]
  where
    later :
        Memᴰ x m.landed
          ⊎ ((p : Push) × (l : Label) × Memᴰ p ps × (p.label ≡ some l) × (x ≡ landing l))
        → Memᴰ x m.landed
          ⊎ ((p : Push) × (l : Label) × Memᴰ p (q ∷ ps) × (p.label ≡ some l) × (x ≡ landing l))
    later (inl h) = inl h
    later (inr (p, l, mem, e, f)) = inr (p, l, Memᴰ.tail mem, e, f)

abbrev sorted : List Push → Bool → Mirrored
sorted ps b = sort_pushes ps (record { mirrored = b; failures = []; landed = [] })

count_lem :
    (ps : List Push) (b : Bool)
    → (length (sorted ps b).failures + length (sorted ps b).landed
        ≡ length (filter (λ p. is_set p.label) ps))
      × (all is_landed ps
          ≡ (length (sorted ps b).failures == 0 && all (λ p. is_set p.label || is_landed p) ps))
count_lem [] b = (refl, refl)
count_lem (p ∷ ps) b =
    let (counts, lands) = count_lem ps b in
    elim (sort_push-cases p (sorted ps b)) [
      | inl (e, f) ↦ (ground (arith, e, f, counts), ground (arith, e, f, lands))
      | inr (inl (l, why, e, r, f)) ↦
          (ground (arith, e, f, r, counts), ground (arith, e, f, r, lands))
      | inr (inr (l, e, r, f)) ↦ (ground (arith, e, f, r, counts), ground (arith, e, f, r, lands))
    ]

-- Every push with a row becomes one failure or one landing, and `mirrored` is true exactly if there
-- is no failure and each push without a row landed in time too.
pub await_mirror_lem :
    (ps : List Push)
    → (length (await_mirror ps).failures + length (await_mirror ps).landed
        ≡ length (filter (λ p. is_set p.label) ps))
      × ((await_mirror ps).mirrored
          ≡ (length (await_mirror ps).failures == 0 && all (λ p. is_set p.label || is_landed p) ps))
unfolding await_mirror
await_mirror_lem ps =
    let (counts, lands) = count_lem ps (all is_landed ps) in
    (counts, sort_pushes-mirrored ps _ ∙ lands)
