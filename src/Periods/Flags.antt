-- ===== src/Periods/Flags.antt =====
-- The flag `isPublished` of a comment period and its `read`, under the writes of
-- api/controllers/commentperiod.js.
use eagle_api.Prelude.{
  ◌++◌, ◌===◌, ◌≡◌, ◌∙◌, ◌∷◌, All, Bool, Bool-cases, List, Option, String, [], ap, arith, false,
  filter, if◌then◌else◌, if-pick, includes, inl, inr, includes-append, includes-filter, none, not,
  refl, some, sym, true,
}
use eagle_api.DataQuery.Params.{ObjectIdParam}
use eagle_api.Periods.Writes.{
  Period, PeriodBody, WriteReply, change_one, is_flagged, new_period, updated_or, saved_or,
  publish_period, put_change, remove_one, unpublish_period, wants_published,
}

flag_choice :
    (b : Bool) (xs ys : List String)
    → includes xs "public" ≡ true
    → includes ys "public" ≡ false
    → b ≡ includes (if b then xs else ys) "public"
flag_choice true xs ys h k = sym h
flag_choice false xs ys h k = sym k

module _ {Content : Type 0} where
  -- The flag is set exactly if `read` holds "public".
  abbrev pub IsFlagged : Period Content → Type 0
  IsFlagged p = is_flagged p.is_published ≡ includes p.read "public"

  pub publish_period-IsFlagged : (p : Period Content) → IsFlagged (publish_period p).0
  unfolding publish_period
  publish_period-IsFlagged p = elim (Bool-cases (includes p.read "public")) [
    | inl listed ↦ sym (
        ap (λ b. includes (if b then p.read else p.read ++ "public" ∷ []) "public") listed ∙ listed)
    | inr unlisted ↦ sym (
        ap (λ b. includes (if b then p.read else p.read ++ "public" ∷ []) "public") unlisted
        ∙ includes-append p.read ("public" ∷ []) "public"
        ∙ ground (arith, unlisted))
  ]

  pub unpublish_period-IsFlagged : (p : Period Content) → IsFlagged (unpublish_period p).0
  unfolding unpublish_period
  unpublish_period-IsFlagged p =
      let others : List String = filter (λ role. not (role === "public")) p.read in
      elim (Bool-cases (includes p.read "public")) [
        | inl listed ↦ sym (
            ap (λ b. includes (if b then others else p.read) "public") listed
            ∙ includes-filter (λ role. not (role === "public")) p.read "public"
            ∙ ground arith)
        | inr unlisted ↦
            sym (ap (λ b. includes (if b then others else p.read) "public") unlisted ∙ unlisted)
      ]

  pub new_period-IsFlagged :
      (id project : String) (b : PeriodBody Content) → IsFlagged (new_period id project b)
  unfolding new_period
  new_period-IsFlagged id project b = flag_choice (wants_published b) _ _ refl refl

  pub put_change-IsFlagged :
      (b : PeriodBody Content) (p : Period Content) → IsFlagged (put_change b p)
  unfolding put_change
  put_change-IsFlagged b p = flag_choice (wants_published b) _ _ refl refl

  abbrev pub AllFlagged : Option (List (Period Content)) → Type 0
  AllFlagged none = Unit
  AllFlagged (some ps) = All IsFlagged ps

  consed :
      (p : Period Content) (o : Option (List (Period Content)))
      → IsFlagged p
      → AllFlagged o
      → AllFlagged (elim o [ none ↦ none | some qs ↦ some (p ∷ qs) ])
  consed p none h k = tt
  consed p (some qs) h k = (h, k)

  pub All-change_one :
      (id : String) (change : Period Content → Period Content) (ps : List (Period Content))
      → ((p : Period Content) → IsFlagged p → IsFlagged (change p))
      → All IsFlagged ps
      → AllFlagged (change_one id change ps)
  unfolding change_one
  All-change_one id change [] keep h = tt
  All-change_one id change (p ∷ ps) keep h =
      if-pick AllFlagged (p.id === id) (keep p h.0, h.1)
        (consed p (change_one id change ps) h.0 (All-change_one id change ps keep h.1))

  pub All-remove_one :
      (id : String) (ps : List (Period Content))
      → All IsFlagged ps
      → All IsFlagged (remove_one id ps)
  unfolding remove_one
  All-remove_one id [] h = tt
  All-remove_one id (p ∷ ps) h =
      if-pick (All IsFlagged) (p.id === id) h.1 (h.0, All-remove_one id ps h.1)

  abbrev pub Keeps : List (Period Content) × WriteReply → Type 0
  Keeps r = All IsFlagged r.0

  pub updated_or-Keeps :
      (ps : List (Period Content)) (o : Option (List (Period Content)))
      → All IsFlagged ps
      → AllFlagged o
      → Keeps (updated_or ps o) × Keeps (saved_or ps o)
  updated_or-Keeps ps none h k = (h, h)
  updated_or-Keeps ps (some qs) h k = (k, k)

  pub by_param :
      (param : ObjectIdParam) (absent invalid : List (Period Content) × WriteReply)
      (valid : String → List (Period Content) × WriteReply)
      → Keeps absent
      → Keeps invalid
      → ((id : String) → Keeps (valid id))
      → Keeps (elim param [
        | ObjectIdParam.no_id ↦ absent
        | ObjectIdParam.invalid_id ↦ invalid
        | ObjectIdParam.object_id id ↦ valid id
      ])
  by_param ObjectIdParam.no_id absent invalid valid h k l = h
  by_param ObjectIdParam.invalid_id absent invalid valid h k l = k
  by_param (ObjectIdParam.object_id id) absent invalid valid h k l = l id
