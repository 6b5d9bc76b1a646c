-- ===== src/Examples/Pinned.antt =====
-- A project with one pin, of an organization that is there.
use eagle_api.Prelude.{◌≡◌, ◌∷◌, Bool, List, String, [], length, map, none, refl, some, true}
use eagle_api.Mongo.{Field}
use eagle_api.Pins.{Order, Organizations, PinRequest, Project, public_pin_get, no_pins, pinned}
use eagle_api.Pins.Writes.{PinWrite, protected_publish_pin, protected_unpublish_pin}
use eagle_api.Pins.Visibility.{pins-visibility, total_shown}

abbrev any_id : String → Bool
any_id s = true

abbrev same_id : String → String
same_id s = s

abbrev as_stored : Order
as_stored keys orgs = orgs

abbrev dam : Project
dam = record { id = "p1"; pins = some ("o1" ∷ []); pins_read = some ("staff" ∷ []) }

abbrev nations : Organizations
nations = ("o1", λ p. Field.absent) ∷ ("o2", λ p. Field.absent) ∷ []

abbrev asked : PinRequest
asked = record {
  project_id = some "p1";
  sort_values = none;
  page_size = none;
  page_num = none;
  username = "anyone";
}

pins-visibility_example :
    (total_shown (
        public_pin_get any_id same_id as_stored asked
          (protected_publish_pin any_id same_id "p1" (dam ∷ [])).0
          nations)
      ≡ length (pinned (map same_id ("o1" ∷ [])) nations))
    × ((readers : List String)
        → dam.pins_read ≡ some readers
        → public_pin_get any_id same_id as_stored asked
            (protected_unpublish_pin any_id same_id "p1" (dam ∷ [])).0
            nations
          ≡ no_pins)
pins-visibility_example =
    pins-visibility any_id same_id as_stored "p1" asked (dam ∷ []) dam "o1" [] nations refl refl
      refl refl

abbrev requests : List PinWrite
requests =
    PinWrite.add "p1" ("o2" ∷ "o1" ∷ "o2" ∷ [])
    ∷ PinWrite.publish "p1"
    ∷ PinWrite.delete "p1" "o1"
    ∷ []
