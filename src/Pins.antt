-- ===== src/Pins.antt =====
-- The pins of a project: api/controllers/pins.js. Pins are ids of organizations, as hex strings.
-- `is_valid` is ObjectId.isValid and `object_id` the constructor ObjectId; a loaded project has its
-- arrays, while one that is read plainly may lack them. `order` is the sort of MongoDB. A parameter
-- of a request that is absent or falsy is none.
pub mod Writes
pub mod Visibility
pub mod Sets
use eagle_api.Prelude.{
  ◌&&◌, ◌++◌, ◌===◌, ◌||◌, ◌∷◌, Bool, List, Option, String, [], all, drop, false, filter,
  if◌then◌else◌, includes, length, map, none, not, some, take, true, ℕ,
}
use eagle_api.Mongo.{Row}
use eagle_api.DataQuery.Params.{get_skip_limit_parameters, limit_from, skip_of, sort_keys_from, ℤ}

pub record Project : Type 0 where
  pub id : String
  pub pins : Option (List String)
  pub pins_read : Option (List String)

-- An organization with its id.
abbrev pub Organizations : Type 0
Organizations = List (String × Row)

-- `no_pins` is the reply of a project that is missing, has no pins, or hides them.
pub data PinReply : Type 0 where
  bad_request no_pins : PinReply
  found : ℕ → Organizations → List String → PinReply

pub record PinRequest : Type 0 where
  pub project_id : Option String
  pub sort_values : Option (List String)
  pub page_size : Option ℤ
  pub page_num : Option ℤ
  pub username : String

abbrev pub find_project : String → List Project → Option Project
find_project id [] = none
find_project id (p ∷ ps) = let later = find_project id ps in if p.id === id then some p else later

-- Whether the caller is kept from the pins.
unfoldable pub hides_pins : String → Option (List String) → Bool
hides_pins username none = false
hides_pins username (some readers) = not (includes readers "public") && (username === "public")

abbrev pub or_empty : Option (List String) → List String
or_empty none = []
or_empty (some xs) = xs

abbrev pub skipped {ℓ} : {A : Type ℓ} → Option ℕ → List A → List A
skipped none xs = xs
skipped (some n) xs = drop n xs

abbrev pub limited {ℓ} : {A : Type ℓ} → Option ℕ → List A → List A
limited none xs = xs
limited (some n) xs = take n xs

-- The order of the query: none where no sort is asked for.
abbrev pub Order : Type 0
Order = List (String × Bool) → Organizations → Organizations

abbrev ordered_by : Order → Option (List String) → Organizations → Organizations
ordered_by order none orgs = orgs
ordered_by order (some values) orgs = order (sort_keys_from (λ k. true) values []) orgs

abbrev pub pinned : List String → Organizations → Organizations
pinned pins orgs = filter (λ o. includes pins o.0) orgs

-- The page of the pinned organizations, with their number.
unfoldable pub pin_page :
    (String → String)
    → Order
    → PinRequest
    → List String
    → Option (List String)
    → Organizations
    → PinReply
pin_page object_id order r pins pins_read orgs =
    let pages : Option (ℕ × ℕ) = get_skip_limit_parameters r.page_size r.page_num in
    let the_pins : Organizations = pinned (map object_id pins) orgs in
    found (length the_pins)
      (limited (limit_from pages)
        (skipped (skip_of pages) (ordered_by order r.sort_values the_pins)))
      (or_empty pins_read)

module _ (is_valid : String → Bool) (object_id : String → String) (order : Order) where
  -- The reply for a project that is there, by its pins and their readers.
  unfoldable pub get_pins_of :
      PinRequest → Option (List String) → Option (List String) → Organizations → PinReply
  unfolding hides_pins pin_page
  get_pins_of r none pins_read orgs = no_pins
  get_pins_of r (some []) pins_read orgs = no_pins
  get_pins_of r (some (pin ∷ more)) pins_read orgs =
      if hides_pins r.username pins_read
      then no_pins
      else pin_page object_id order r (pin ∷ more) pins_read orgs

  unfoldable pub get_pins_in : PinRequest → Option Project → Organizations → PinReply
  unfolding get_pins_of
  get_pins_in r none orgs = no_pins
  get_pins_in r (some p) orgs = get_pins_of r p.pins p.pins_read orgs

  unfoldable pub get_pins_by : PinRequest → Option String → List Project → Organizations → PinReply
  unfolding get_pins_in
  get_pins_by r none projects orgs = bad_request
  get_pins_by r (some id) projects orgs =
      if not (is_valid id)
      then bad_request
      else get_pins_in r (find_project (object_id id) projects) orgs

  unfoldable pub handle_get_pins : PinRequest → List Project → Organizations → PinReply
  unfolding get_pins_by
  handle_get_pins r projects orgs = get_pins_by r r.project_id projects orgs

  unfoldable pub public_pin_get : PinRequest → List Project → Organizations → PinReply
  unfolding handle_get_pins
  public_pin_get r projects orgs = handle_get_pins (record r { username = "public" }) projects orgs

  unfoldable pub protected_pin_get : String → PinRequest → List Project → Organizations → PinReply
  unfolding handle_get_pins
  protected_pin_get preferred_username r projects orgs =
      handle_get_pins (record r { username = preferred_username }) projects orgs
