-- ===== src/Projects/Acts.antt =====
-- That no request moves a project off a locked Act (api/controllers/project.js).
use eagle_api.Prelude.{
  All-erase_idx, get_elem?, ◌&&◌, ◌===◌, ◌≡◌, ◌∙◌, ◌∷◌, All, Bool, Bool-cases, List, Option, String,
  [], ap, arith, eq_iff, false, if◌then◌else◌, if-pick, includes, includes-filter, inl, inr,
  is_name, none, not, refl, some, subst, suc, sym, true, zero, ℕ,
}
use eagle_api.Legislation.{legislation_key, locked_keys}
use eagle_api.Projects.{
  Project, ProjectBody, ProjectReply, Write, is_guarded_off, mark_deleted, publish_as, set_readers,
  update_act, write,
}
use eagle_api.Projects.Handlers.{guards_of}
use eagle_api.Projects.Puts.{
  Contacts, Plan, locked_keys_other_than, plan_put, put_in, put_under, ready, refuse,
  refuses_legislation_change, unchanged, year_of,
}
use eagle_api.Projects.Publishing.{
  has_content, is_listed, plan_publish, plan_unpublish, publish_under,
}
use eagle_api.Projects.Running.{
  Move, Running, after_write, arrive, begin_from, drop_write, move, moves, or_same, put, with_plan,
}

-- Whether a write to the Act leads off another one, past its guards.
abbrev leads_off : String → List String → Option String → Bool
leads_off key guards none = false
leads_off key guards (some t) = not (t === key) && not (includes guards key)

other_locked_keys :
    (t key : String)
    → includes locked_keys key ≡ true
    → leads_off key (locked_keys_other_than t) (some t) ≡ false
other_locked_keys t key h =
    ground
      (arith, h, includes-filter (λ k. not (k === t)) locked_keys key, eq_iff key t, eq_iff t key)

-- A write to an Act whose filter does not miss.
led_to :
    (key t : String) (guards : List String) (current : Option String)
    → includes locked_keys key ≡ true
    → leads_off key guards (some t) ≡ false
    → current ≡ some key
    → is_guarded_off guards current ≡ false
    → some t ≡ some key
led_to key t guards current l g h on =
    let on_key : includes guards key ≡ false = ap (is_guarded_off guards) (sym h) ∙ on in
    ap some ((eq_iff t key).0 (ground (arith, g, on_key)))

module _ {Content : Type 0} where
  -- The Act that a write puts the project under.
  abbrev target : Write Content → Option String
  target (update_act guards key years block) = some key
  target (publish_as guards key pushes) = key
  target (set_readers readers) = none
  target mark_deleted = none

  -- A write that would move a project off a locked Act is filtered by that Act's key.
  abbrev IsGuarded : Write Content → Type 0
  IsGuarded w =
      (key : String)
      → includes locked_keys key ≡ true
      → leads_off key (guards_of w) (target w) ≡ false

  abbrev IsGuardedPlan : Plan Content → Type 0
  IsGuardedPlan unchanged = Unit
  IsGuardedPlan (refuse r) = Unit
  IsGuardedPlan (ready w) = IsGuarded w

  module _ (phase_name : String → Option String) (new_date : Content → Content) where
    plan_put-IsGuarded :
        (b : ProjectBody Content) (ids : Contacts) (p : Project Content)
        → IsGuardedPlan (plan_put phase_name new_date b ids p)
    unfolding plan_put
    plan_put-IsGuarded b ids p =
        if-pick IsGuardedPlan (refuses_legislation_change p.current b.sent_year) tt
          (from_year (year_of p.current b.sent_year))
      where
        under :
            (year : ℕ) (o : Option String)
            → IsGuardedPlan (put_under phase_name new_date b ids p year o)
        under year none = tt
        under year (some t) = other_locked_keys t

        from_year : (o : Option ℕ) → IsGuardedPlan (put_in phase_name new_date b ids p o)
        from_year none = tt
        from_year (some year) = under year (legislation_key year)

  plan_publish-IsGuarded :
      (sent_year : Option ℕ) (p : Project Content) → IsGuardedPlan (plan_publish sent_year p)
  unfolding plan_publish
  plan_publish-IsGuarded none p = λ key h. refl
  plan_publish-IsGuarded (some year) p =
      if-pick IsGuardedPlan (refuses_legislation_change p.current (some year)) tt
        (under (legislation_key year))
    where
      under : (o : Option String) → IsGuardedPlan (publish_under p year o)
      under none = tt
      under (some t) =
          if-pick IsGuardedPlan (is_name p.current t)
            {y = if has_content p year t
              then ready (publish_as (locked_keys_other_than t) (some t) (not (is_listed p)))
              else refuse (ProjectReply.no_content year)}
            (λ key h. refl) (if-pick IsGuardedPlan (has_content p year t) (other_locked_keys t) tt)

  plan_unpublish-IsGuarded : (p : Project Content) → IsGuardedPlan (plan_unpublish p)
  unfolding plan_unpublish
  plan_unpublish-IsGuarded p = if-pick IsGuardedPlan (is_listed p) (λ key h. refl) tt

  -- There is a project, and it is under the Act.
  abbrev pub IsUnder : String → Option (Project Content) → Type 0
  IsUnder key none = ⊥
  IsUnder key (some p) = p.current ≡ some key

  write-IsUnder :
      (key : String) (w : Write Content) (p : Project Content)
      → includes locked_keys key ≡ true
      → IsGuarded w
      → p.current ≡ some key
      → IsUnder key (or_same p (write w p))
  unfolding write
  write-IsUnder key (update_act guards t years block) p l g h =
      elim (Bool-cases (is_guarded_off guards p.current)) [
        | inl off ↦ rw off h
        | inr on ↦ rw on (led_to key t guards p.current l (g key l) h on)
      ]
  write-IsUnder key (publish_as guards none pushes) p l g h =
      elim (Bool-cases (is_guarded_off guards p.current)) [ inl off ↦ rw off h | inr on ↦ rw on h ]
  write-IsUnder key (publish_as guards (some t) pushes) p l g h =
      elim (Bool-cases (is_guarded_off guards p.current)) [
        | inl off ↦ rw off h
        | inr on ↦ rw on (led_to key t guards p.current l (g key l) h on)
      ]
  write-IsUnder key (set_readers readers) p l g h = h
  write-IsUnder key mark_deleted p l g h = h

  after_write-IsUnder :
      (key : String) (n : ℕ) (ws : List (Write Content)) (stored : Option (Project Content))
      → includes locked_keys key ≡ true
      → All IsGuarded ws
      → IsUnder key stored
      → IsUnder key (after_write (get_elem? ws n) stored)
  after_write-IsUnder key n [] stored l g h = h
  after_write-IsUnder key zero (w ∷ ws) none l g h = absurd h
  after_write-IsUnder key zero (w ∷ ws) (some p) l g h = write-IsUnder key w p l g.0 h
  after_write-IsUnder key (suc n) (w ∷ ws) stored l g h =
      after_write-IsUnder key n ws stored l g.1 h

  begin_from-IsGuarded :
      (plan : Project Content → Plan Content) (stored : Option (Project Content))
      (ws : List (Write Content))
      → ((p : Project Content) → IsGuardedPlan (plan p))
      → All IsGuarded ws
      → All IsGuarded (begin_from plan stored ws)
  begin_from-IsGuarded plan none ws k g = g
  begin_from-IsGuarded plan (some p) ws k g = with (plan p) (k p)
    where
      with : (pl : Plan Content) → IsGuardedPlan pl → All IsGuarded (with_plan pl ws)
      with unchanged h = g
      with (refuse r) h = g
      with (ready w) h = (h, g)

  module _ (phase_name : String → Option String) (new_date : Content → Content) where
    move-IsGuarded :
        (m : Move Content) (r : Running Content)
        → All IsGuarded r.waiting
        → All IsGuarded (move phase_name new_date m r).waiting
    unfolding move
    move-IsGuarded (put b ids) r g =
        begin_from-IsGuarded (plan_put phase_name new_date b ids) r.stored r.waiting
          (plan_put-IsGuarded phase_name new_date b ids) g
    move-IsGuarded (Move.publish sent_year) r g =
        begin_from-IsGuarded (plan_publish sent_year) r.stored r.waiting
          (plan_publish-IsGuarded sent_year) g
    move-IsGuarded Move.unpublish r g =
        begin_from-IsGuarded plan_unpublish r.stored r.waiting plan_unpublish-IsGuarded g
    move-IsGuarded Move.delete r g =
        begin_from-IsGuarded (λ p. ready mark_deleted) r.stored r.waiting (λ p key h. refl) g
    move-IsGuarded (arrive n) r g = All-erase_idx IsGuarded r.waiting n g
    move-IsGuarded (drop_write n) r g = All-erase_idx IsGuarded r.waiting n g

    moves-IsGuarded :
        (ms : List (Move Content)) (r : Running Content)
        → All IsGuarded r.waiting
        → All IsGuarded (moves phase_name new_date ms r).waiting
    unfolding moves
    moves-IsGuarded [] r g = g
    moves-IsGuarded (m ∷ ms) r g =
        moves-IsGuarded ms (move phase_name new_date m r) (move-IsGuarded m r g)

    move-IsUnder :
        (key : String) (m : Move Content) (r : Running Content)
        → includes locked_keys key ≡ true
        → All IsGuarded r.waiting
        → IsUnder key r.stored
        → IsUnder key (move phase_name new_date m r).stored
    unfolding move
    move-IsUnder key (put b ids) r l g h = h
    move-IsUnder key (Move.publish sent_year) r l g h = h
    move-IsUnder key Move.unpublish r l g h = h
    move-IsUnder key Move.delete r l g h = h
    move-IsUnder key (arrive n) r l g h = after_write-IsUnder key n r.waiting r.stored l g h
    move-IsUnder key (drop_write n) r l g h = h

    moves-IsUnder :
        (key : String) (ms : List (Move Content)) (r : Running Content)
        → includes locked_keys key ≡ true
        → All IsGuarded r.waiting
        → IsUnder key r.stored
        → IsUnder key (moves phase_name new_date ms r).stored
    unfolding moves
    moves-IsUnder key [] r l g h = h
    moves-IsUnder key (m ∷ ms) r l g h =
        moves-IsUnder key ms (move phase_name new_date m r) l (move-IsGuarded m r g)
          (move-IsUnder key m r l g h)

    -- Once a stored project is under a locked Act, it stays stored and under it, whatever requests to change,
    -- publish, withdraw or delete it follow, in whatever order their writes arrive, and also where
    -- they read the project before it came under that Act.
    pub moves-locked_keys :
        (p q : Project Content) (ms ms' : List (Move Content)) (key : String)
        → (moves phase_name new_date ms (record { stored = some p; waiting = [] })).stored ≡ some q
        → q.current ≡ some key
        → includes locked_keys key ≡ true
        → IsUnder key
            (moves phase_name new_date ms'
              (moves phase_name new_date ms (record { stored = some p; waiting = [] }))).stored
    moves-locked_keys p q ms ms' key reached under l =
        let start : Running Content = record { stored = some p; waiting = [] } in
        moves-IsUnder key ms' (moves phase_name new_date ms start) l (moves-IsGuarded ms start tt)
          (subst (IsUnder key) (sym reached) under)
