-- ===== src/Pins/Visibility.antt =====
-- Who sees a project's pins after they are published or withdrawn in api/controllers/pins.js.
use eagle_api.Prelude.{
  ◌++◌, ◌===◌, ◌≡◌, ◌∙◌, ◌∷◌, Bool, Bool-cases, List, Option, String, [], ap, arith, eq_refl, false,
  filter, if◌then◌else◌, includes, inl, inr, includes-append, includes-filter, length, map, none,
  not, refl, some, some-injective, sym, true, ℕ,
}
use eagle_api.Pins.{
  Order, Organizations, PinReply, bad_request, get_pins_by, get_pins_in, PinRequest, Project,
  find_project, found, get_pins_of, handle_get_pins, hides_pins, no_pins, or_empty, pin_page,
  pinned, public_pin_get,
}
use eagle_api.Pins.Writes.{
  PinWriteReply, matched, not_found, refused, add_to_set, change_pins_read, change_project,
  protected_publish_pin, protected_unpublish_pin, publish_pins, pull, unpublish_pins,
}

abbrev pub total_shown : PinReply → ℕ
total_shown (found n orgs readers) = n
total_shown _ = 0

-- A change that keeps the ids is found again.
find_project-change_project :
    (id : String) (change : Project → Project) (ps : List Project) (p : Project)
    → ((q : Project) → (change q).id ≡ q.id)
    → find_project id ps ≡ some p
    → find_project id (change_project id change ps) ≡ some (change p)
find_project-change_project id change [] p keep h = absurd (ground (arith, h))
find_project-change_project id change (q ∷ ps) p keep h =
    let first : Bool → List Project =
      λ b. if b then change q ∷ ps else q ∷ change_project id change ps in
    let look : Bool → Project → Option Project → Option Project =
      λ b x rest. if b then some x else rest in
    elim (Bool-cases (q.id === id)) [
      | inl same ↦
          ap (λ b. find_project id (first b)) same
          ∙ ap (λ i. look (i === id) (change q) (find_project id ps)) (keep q)
          ∙ ap (λ b. look b (change q) (find_project id ps)) same
          ∙ ap (λ (x : Project). some (change x))
              (some-injective (sym (ap (λ b. look b q (find_project id ps)) same) ∙ h))
      | inr other ↦
          ap (λ b. find_project id (first b)) other
          ∙ ap (λ b. look b q (find_project id (change_project id change ps))) other
          ∙ find_project-change_project id change ps p keep
              (sym (ap (λ b. look b q (find_project id ps)) other) ∙ h)
    ]

includes-add_to_set : (x : String) (xs : List String) → includes (add_to_set x xs) x ≡ true
includes-add_to_set x xs = elim (Bool-cases (includes xs x)) [
  | inl there ↦ ap (λ b. includes (if b then xs else xs ++ x ∷ []) x) there ∙ there
  | inr new ↦
      ap (λ b. includes (if b then xs else xs ++ x ∷ []) x) new
      ∙ includes-append xs (x ∷ []) x
      ∙ ground (arith, eq_refl x)
]

includes-pull :
    (x : String) (xs : List String) → includes (filter (λ y. not (y === x)) xs) x ≡ false
includes-pull x xs = includes-filter (λ y. not (y === x)) xs x ∙ ground (arith, eq_refl x)

hides_pins-public :
    (readers : List String) → hides_pins "public" (some readers) ≡ not (includes readers "public")
unfolding hides_pins
hides_pins-public readers = ground arith

module _ (is_valid : String → Bool) (object_id : String → String) (order : Order) where
  -- The public's reply for a project with pins.
  public_pins :
      (r : PinRequest) (p : Project) (pin : String) (more readers : List String)
      (orgs : Organizations)
      → r.username ≡ "public"
      → p.pins ≡ some (pin ∷ more)
      → p.pins_read ≡ some readers
      → get_pins_of is_valid object_id order r p.pins p.pins_read orgs ≡ (
          if not (includes readers "public")
          then no_pins
          else pin_page object_id order r (pin ∷ more) (some readers) orgs)
  unfolding get_pins_of
  public_pins r p pin more readers orgs user pins read =
      let reply : Bool → PinReply =
        λ b. if b then no_pins else pin_page object_id order r (pin ∷ more) (some readers) orgs in
      ap (λ o. get_pins_of is_valid object_id order r o p.pins_read orgs) pins
      ∙ ap (λ o. get_pins_of is_valid object_id order r (some (pin ∷ more)) o orgs) read
      ∙ ap (λ u. reply (hides_pins u (some readers))) user
      ∙ ap reply (hides_pins-public readers)

  -- The request for a project that is found, after a change of its readers.
  get-changed :
      (change : Project → Project) (id : String) (r : PinRequest) (projects : List Project)
      (p : Project) (orgs : Organizations)
      → ((q : Project) → (change q).id ≡ q.id)
      → is_valid id ≡ true
      → r.project_id ≡ some id
      → find_project (object_id id) projects ≡ some p
      → handle_get_pins is_valid object_id order r
          (change_pins_read is_valid object_id change id projects).0
          orgs
        ≡ get_pins_of is_valid object_id order r (change p).pins (change p).pins_read orgs
  unfolding handle_get_pins get_pins_by get_pins_in change_pins_read
  get-changed change id r projects p orgs keep valid asked stored =
      let i : String = object_id id in
      let outcome : Option Project → List Project × PinWriteReply = λ o. elim o [
        | none ↦ (projects, not_found)
        | some q ↦ (change_project i change projects, matched 1)
      ] in
      let tried : Bool → List Project × PinWriteReply =
        λ v. if not v then (projects, refused) else outcome (find_project i projects) in
      let written : (tried (is_valid id)).0 ≡ change_project i change projects =
        ap (λ v. (tried v).0) valid ∙ ap (λ o. (outcome o).0) stored in
      ap (λ ps. get_pins_by is_valid object_id order r r.project_id ps orgs) written
      ∙ ap (λ o. get_pins_by is_valid object_id order r o (change_project i change projects) orgs)
          asked
      ∙ ap
          (λ v.
            if not v
            then bad_request
            else get_pins_in is_valid object_id order r
                (find_project i (change_project i change projects)) orgs)
          valid
      ∙ ap (λ o. get_pins_in is_valid object_id order r o orgs)
          (find_project-change_project i change projects p keep stored)

  -- Of a project that has pins: once they are published, the public's request is answered with the
  -- number of all organizations that are pinned, and once they are withdrawn from a stored list of
  -- readers, it is answered as if there were none.
  pub pins-visibility :
      (id : String) (r : PinRequest) (projects : List Project) (p : Project) (pin : String)
      (more : List String) (orgs : Organizations)
      → is_valid id ≡ true
      → r.project_id ≡ some id
      → find_project (object_id id) projects ≡ some p
      → p.pins ≡ some (pin ∷ more)
      → (total_shown (
            public_pin_get is_valid object_id order r
              (protected_publish_pin is_valid object_id id projects).0
              orgs)
          ≡ length (pinned (map object_id (pin ∷ more)) orgs))
        × ((readers : List String)
            → p.pins_read ≡ some readers
            → public_pin_get is_valid object_id order r
                (protected_unpublish_pin is_valid object_id id projects).0
                orgs
              ≡ no_pins)
  unfolding public_pin_get protected_publish_pin protected_unpublish_pin pin_page
  pins-visibility id r projects p pin more orgs valid asked stored pins =
      let public : PinRequest = record r { username = "public" } in
      let reply : List String → Bool → PinReply = λ rs b.
        if not b then no_pins else pin_page object_id order public (pin ∷ more) (some rs) orgs in
      let shown : List String = add_to_set "public" (or_empty p.pins_read) in
      (
        ap total_shown (
            get-changed publish_pins id public projects p orgs (λ q. refl) valid asked stored
            ∙ public_pins public (publish_pins p) pin more shown orgs refl pins refl
            ∙ ap (reply shown) (includes-add_to_set "public" (or_empty p.pins_read))),
        λ readers read.
            let left : List String = filter (λ y. not (y === "public")) readers in
            get-changed unpublish_pins id public projects p orgs (λ q. refl) valid asked stored
            ∙ public_pins public (unpublish_pins p) pin more left orgs refl pins
                (ap (pull "public") read)
            ∙ ap (reply left) (includes-pull "public" readers),
      )
