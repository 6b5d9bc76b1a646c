-- ===== src/Pins/Sets.antt =====
-- The pins of a project are a set under the writes of api/controllers/pins.js.
use eagle_api.Prelude.{
  ◌++◌, ◌===◌, ◌≡◌, ◌∙◌, ◌∷◌, ◌||◌, All, Bool, Bool-cases, List, Option, String, [], all, arith,
  eq_iff, false, filter, if◌then◌else◌, if-pick, includes, includes-append, includes-filter, inl,
  inr, map, none, not, refl, some, subst, sym, true,
}
use eagle_api.Pins.{Project, find_project, or_empty}
use eagle_api.Pins.Writes.{
  PinWrite, PinWriteReply, added, matched, not_found, refused, thrown, add_each, add_pins,
  add_to_set, change_pins_read, change_project, delete_pin, each_once, protected_add_pins,
  protected_pin_delete, protected_publish_pin, protected_unpublish_pin, publish_pins, pull,
  unpublish_pins, write_all_pins, write_pins,
}

-- No text stands in the list twice.
abbrev pub IsOnce : List String → Type 0
IsOnce [] = Unit
IsOnce (x ∷ xs) = (includes xs x ≡ false) × IsOnce xs

IsOnce-filter : (q : String → Bool) (xs : List String) → IsOnce xs → IsOnce (filter q xs)
IsOnce-filter q [] h = tt
IsOnce-filter q (x ∷ xs) h =
    if-pick IsOnce (q x) (includes-filter q xs x ∙ ground (arith, h.0), IsOnce-filter q xs h.1)
      (IsOnce-filter q xs h.1)

IsOnce-append :
    (xs : List String) (x : String) → includes xs x ≡ false → IsOnce xs → IsOnce (xs ++ x ∷ [])
IsOnce-append [] x new h = (refl, tt)
IsOnce-append (y ∷ ys) x new h = (
  includes-append ys (x ∷ []) y ∙ ground (arith, h.0, new, eq_iff x y, eq_iff y x),
  IsOnce-append ys x (ground (arith, new)) h.1,
)

IsOnce-add_to_set : (x : String) (xs : List String) → IsOnce xs → IsOnce (add_to_set x xs)
IsOnce-add_to_set x xs h = elim (Bool-cases (includes xs x)) [
  | inl there ↦ subst (λ b. IsOnce (if b then xs else xs ++ x ∷ [])) (sym there) h
  | inr new ↦
      subst (λ b. IsOnce (if b then xs else xs ++ x ∷ [])) (sym new) (IsOnce-append xs x new h)
]

IsOnce-add_each : (ps xs : List String) → IsOnce xs → IsOnce (add_each ps xs)
IsOnce-add_each [] xs h = h
IsOnce-add_each (p ∷ ps) xs h = IsOnce-add_each ps (add_to_set p xs) (IsOnce-add_to_set p xs h)

-- The pins of a project are a set.
abbrev pub IsPinSet : Project → Type 0
IsPinSet p = IsOnce (or_empty p.pins)

IsOnce-pull :
    (x : String) (o : Option (List String)) → IsOnce (or_empty o) → IsOnce (or_empty (pull x o))
IsOnce-pull x none h = h
IsOnce-pull x (some xs) h = IsOnce-filter (λ y. not (y === x)) xs h

All-change_project :
    (id : String) (change : Project → Project) (ps : List Project)
    → ((p : Project) → IsPinSet p → IsPinSet (change p))
    → All IsPinSet ps
    → All IsPinSet (change_project id change ps)
All-change_project id change [] keep h = tt
All-change_project id change (p ∷ ps) keep h =
    if-pick (All IsPinSet) (p.id === id) (keep p h.0, h.1)
      (h.0, All-change_project id change ps keep h.1)

abbrev Keeps : List Project × PinWriteReply → Type 0
Keeps r = All IsPinSet r.0

-- The outcome of a write by the project that it finds.
by_project :
    (id : String) (change : Project → Project) (ps : List Project) (missing : PinWriteReply)
    (reply : Project → PinWriteReply) (o : Option Project)
    → ((p : Project) → IsPinSet p → IsPinSet (change p))
    → All IsPinSet ps
    → Keeps (elim o [ none ↦ (ps, missing) | some p ↦ (change_project id change ps, reply p) ])
by_project id change ps missing reply none keep h = h
by_project id change ps missing reply (some p) keep h = All-change_project id change ps keep h

-- A write with a test of its ids.
tested :
    (bad : Bool) (id : String) (change : Project → Project) (ps : List Project)
    (early missing : PinWriteReply) (reply : Project → PinWriteReply)
    → ((p : Project) → IsPinSet p → IsPinSet (change p))
    → All IsPinSet ps
    → Keeps (
        if bad then (ps, early) else elim (find_project id ps) [
          | none ↦ (ps, missing)
          | some p ↦ (change_project id change ps, reply p)
        ])
tested true id change ps early missing reply keep h = h
tested false id change ps early missing reply keep h =
    by_project id change ps missing reply (find_project id ps) keep h

module _ (is_valid : String → Bool) (object_id : String → String) where
  write_pins-IsPinSet :
      (w : PinWrite) (ps : List Project)
      → All IsPinSet ps
      → All IsPinSet (write_pins is_valid object_id w ps)
  unfolding write_pins protected_add_pins protected_publish_pin protected_unpublish_pin
      protected_pin_delete change_pins_read
  write_pins-IsPinSet (PinWrite.add id pins) ps h =
      let sent : List String = each_once [] pins in
      let unique : List String = map object_id sent in
      let tried : Bool → List Project × PinWriteReply = λ bad.
        if bad
        then (ps, refused)
        else if not (all is_valid sent)
        then (ps, thrown)
        else elim (find_project (object_id id) ps) [
          | none ↦ (ps, not_found)
          | some p ↦ (
            change_project (object_id id) (add_pins unique) ps,
            added (or_empty (add_pins unique p).pins),
          )
        ] in
      elim (Bool-cases (not (is_valid id))) [
        | inl bad ↦ subst (λ b. Keeps (tried b)) (sym bad) h
        | inr fine ↦
            subst (λ b. Keeps (tried b)) (sym fine)
              (tested (not (all is_valid sent)) (object_id id) (add_pins unique) ps thrown not_found
                (λ p. added (or_empty (add_pins unique p).pins))
                (λ p k. IsOnce-add_each unique (or_empty p.pins) k) h)
      ]
  write_pins-IsPinSet (PinWrite.publish id) ps h =
      tested (not (is_valid id)) (object_id id) publish_pins ps refused not_found (λ p. matched 1)
        (λ p k. k) h
  write_pins-IsPinSet (PinWrite.unpublish id) ps h =
      tested (not (is_valid id)) (object_id id) unpublish_pins ps refused not_found (λ p. matched 1)
        (λ p k. k) h
  write_pins-IsPinSet (PinWrite.delete id pin) ps h =
      tested (not (is_valid pin) || not (is_valid id)) (object_id id) (delete_pin (object_id pin))
        ps refused (matched 0) (λ p. matched 1) (λ p k. IsOnce-pull (object_id pin) p.pins k) h

  -- If no project has a pin twice, then none has after any sequence of additions, publications,
  -- withdrawals and deletions of pins, whatever they send.
  pub write_all_pins-IsPinSet :
      (ws : List PinWrite) (ps : List Project)
      → All IsPinSet ps
      → All IsPinSet (write_all_pins is_valid object_id ws ps)
  unfolding write_all_pins
  write_all_pins-IsPinSet [] ps h = h
  write_all_pins-IsPinSet (w ∷ ws) ps h =
      write_all_pins-IsPinSet ws (write_pins is_valid object_id w ps) (write_pins-IsPinSet w ps h)
