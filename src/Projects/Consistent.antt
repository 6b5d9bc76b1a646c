-- ===== src/Projects/Consistent.antt =====
-- That a project's Act, its list of years and the labels of its blocks agree over all requests that
-- follow one another (api/controllers/project.js).
use eagle_api.Prelude.{
  ◌++◌, ◌==◌, ◌===◌, ◌≡◌, ◌⊎◌, ◌∙◌, ◌∷◌, ◌||◌, ==_iff, Bool, List, Option, String, [], ap, arith,
  eq_iff, if-pick, if-split, if◌then◌else◌, inl, inr, is_name, none, not, refl, some,
  some-injective, sym, true, ℕ,
}
use eagle_api.Legislation.{label_of, legislation_key}
use eagle_api.Legislation.Keys.{legislation_year_of-legislation_key}
use eagle_api.Projects.{
  Block, Project, ProjectReply, Write, includes_year, is_guarded_off, mark_deleted, publish_as,
  set_block, set_readers, update_act, write,
}
use eagle_api.Projects.Handlers.{carry_out, change_found, commit, written_or}
use eagle_api.Projects.Puts.{
  Plan, locked_keys_other_than, ready, refuse, refuses_legislation_change, unchanged, years_with,
}
use eagle_api.Projects.Publishing.{
  has_content, is_listed, plan_publish, plan_unpublish, publish_under,
}

includes_year-append :
    (xs : List ℕ) (y z : ℕ) → includes_year (xs ++ y ∷ []) z ≡ (includes_year xs z || y == z)
includes_year-append [] y z = ground arith
includes_year-append (x ∷ xs) y z = ground (arith, includes_year-append xs y z)

pub includes_year-years_with :
    (xs : List ℕ) (y z : ℕ)
    → includes_year (years_with (some y) xs) z ≡ (includes_year xs z || y == z)
includes_year-years_with xs y z =
    if-split (λ (ys : List ℕ). includes_year ys z ≡ (includes_year xs z || y == z))
      (includes_year xs y)
      (λ h. ground (arith, h, ==_iff y z, ap (λ (w : ℕ). includes_year xs w) {x = y} {y = z}))
      (λ h. includes_year-append xs y z)

-- Two years with one key are one year.
legislation_key-injective :
    (y z : ℕ) (k : String) → legislation_key y ≡ some k → legislation_key z ≡ some k → y ≡ z
legislation_key-injective y z k h g = some-injective (
    sym ((legislation_year_of-legislation_key y k).0 h)
    ∙ (legislation_year_of-legislation_key z k).0 g)

-- The Act of a listed year.
abbrev pub IsListedAct : List ℕ → Option String → Type 0
IsListedAct years current =
    (year : ℕ) × (key : String) × (legislation_key year ≡ some key)
    × (current ≡ some key)
    × (includes_year years year ≡ true)

module _ {Content : Type 0} where
  -- The blocks of the listed years have the labels of their Acts.
  abbrev pub AreLabelled : List ℕ → (String → Block Content) → Type 0
  AreLabelled years blocks =
      (y : ℕ) (k : String)
      → includes_year years y ≡ true
      → legislation_key y ≡ some k
      → (blocks k).legislation ≡ label_of y

  abbrev pub IsConsistent : Project Content → Type 0
  IsConsistent p = IsListedAct p.years p.current × AreLabelled p.years p.blocks

  abbrev pub IsConsistentIfStored : Option (Project Content) → Type 0
  IsConsistentIfStored none = Unit
  IsConsistentIfStored (some p) = IsConsistent p

  pub AreLabelled-set_block :
      (years : List ℕ) (year : ℕ) (key : String) (block : Block Content)
      (blocks : String → Block Content)
      → AreLabelled years blocks
      → legislation_key year ≡ some key
      → block.legislation ≡ label_of year
      → (y : ℕ) (k : String) → (includes_year years y ≡ true) ⊎ (y ≡ year)
      → legislation_key y ≡ some k
      → (set_block key block blocks k).legislation ≡ label_of y
  AreLabelled-set_block years year key block blocks all of_key labelled y k m h =
      if-split (λ (b : Block Content). b.legislation ≡ label_of y) (k === key)
        (λ same.
          labelled
          ∙ ap label_of
              (legislation_key-injective year y key of_key (h ∙ ap some ((eq_iff k key).0 same))))
        (λ other. elim m [
          | inl listed ↦ all y k listed h
          | inr here ↦ absurd (
              ground (
                arith,
                other,
                (eq_iff k key).1 (some-injective (sym h ∙ ap legislation_key here ∙ of_key)),
              ))
        ])

  -- What a plan writes to the project that it read.
  abbrev pub IsSound : Project Content → Write Content → Type 0
  IsSound p (update_act guards key years block) =
      (year : ℕ) × (legislation_key year ≡ some key)
      × (includes_year years year ≡ true)
      × (block.legislation ≡ label_of year)
      × ((y : ℕ) → includes_year years y ≡ true → (includes_year p.years y ≡ true) ⊎ (y ≡ year))
  IsSound p (publish_as guards none pushes) = Unit
  IsSound p (publish_as guards (some key) pushes) =
      (year : ℕ) × (legislation_key year ≡ some key) × (includes_year p.years year ≡ true)
  IsSound p (set_readers readers) = Unit
  IsSound p mark_deleted = Unit

  abbrev pub IsSoundPlan : Project Content → Plan Content → Type 0
  IsSoundPlan p unchanged = Unit
  IsSoundPlan p (refuse r) = Unit
  IsSoundPlan p (ready w) = IsSound p w

  write-IsConsistent :
      (p : Project Content) (w : Write Content)
      → IsConsistent p
      → IsSound p w
      → IsConsistentIfStored (write w p)
  unfolding write
  write-IsConsistent p (update_act guards key years block) h (year, k, m, l, sub) =
      if-pick IsConsistentIfStored (is_guarded_off guards p.current) tt (
        (year, key, k, refl, m),
        λ y j listed of_key.
            AreLabelled-set_block p.years year key block p.blocks h.1 k l y j (sub y listed) of_key,
      )
  write-IsConsistent p (publish_as guards none pushes) h s =
      if-pick IsConsistentIfStored (is_guarded_off guards p.current) tt h
  write-IsConsistent p (publish_as guards (some key) pushes) h (year, k, m) =
      if-pick IsConsistentIfStored (is_guarded_off guards p.current) tt
        ((year, key, k, refl, m), h.1)
  write-IsConsistent p (set_readers readers) h s = h
  write-IsConsistent p mark_deleted h s = h

  -- A plan for the project that is stored keeps it consistent.
  carry_out-IsConsistent :
      (goes_through : Bool) (other : ProjectReply) (pl : Plan Content) (p : Project Content)
      → IsConsistent p
      → IsSoundPlan p pl
      → IsConsistentIfStored (carry_out goes_through other pl (some p)).0
  unfolding carry_out commit
  carry_out-IsConsistent goes_through other unchanged p h s = h
  carry_out-IsConsistent goes_through other (refuse r) p h s = h
  carry_out-IsConsistent goes_through other (ready w) p h s =
      if-pick (λ (o : Option (Project Content) × ProjectReply). IsConsistentIfStored o.0)
        goes_through {y = (some p, other)} (after (write w p) (write-IsConsistent p w h s)) h
    where
      after :
          (o : Option (Project Content))
          → IsConsistentIfStored o
          → IsConsistentIfStored (written_or other w p o).0
      after none k = h
      after (some q) k = k

  pub change_found-IsConsistent :
      (goes_through : Bool) (other : ProjectReply) (plan : Project Content → Plan Content)
      (stored : Option (Project Content))
      → ((p : Project Content) → IsConsistent p → IsSoundPlan p (plan p))
      → IsConsistentIfStored stored
      → IsConsistentIfStored (change_found goes_through other plan stored stored).0
  change_found-IsConsistent goes_through other plan none s h = tt
  change_found-IsConsistent goes_through other plan (some p) s h =
      carry_out-IsConsistent goes_through other (plan p) p h (s p h)

  pub plan_publish-IsSound :
      (sent_year : Option ℕ) (p : Project Content) → IsSoundPlan p (plan_publish sent_year p)
  unfolding plan_publish
  plan_publish-IsSound none p = tt
  plan_publish-IsSound (some year) p =
      if-pick (IsSoundPlan p) (refuses_legislation_change p.current (some year)) tt
        (under (legislation_key year) refl)
    where
      under :
          (o : Option String) → legislation_key year ≡ o → IsSoundPlan p (publish_under p year o)
      under none k = tt
      under (some t) k =
          if-pick (IsSoundPlan p) (is_name p.current t)
            {y = if has_content p year t
              then ready (publish_as (locked_keys_other_than t) (some t) (not (is_listed p)))
              else refuse (ProjectReply.no_content year)}
            tt
            (if-split (IsSoundPlan p) (has_content p year t) (λ c. (year, k, ground (arith, c)))
              (λ c. tt))

  pub plan_unpublish-IsSound : (p : Project Content) → IsSoundPlan p (plan_unpublish p)
  unfolding plan_unpublish
  plan_unpublish-IsSound p = if-pick (IsSoundPlan p) (is_listed p) tt tt
