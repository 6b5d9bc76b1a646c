-- ===== src/Pins/Writes.antt =====
-- The writes of a project's pins: protectedAddPins, protectedPublishPin, protectedUnPublishPin and
-- protectedPinDelete of api/controllers/pins.js.
use eagle_api.Prelude.{
  ◌++◌, ◌===◌, ◌||◌, ◌∷◌, Bool, List, Option, String, [], all, filter, if◌then◌else◌, includes, map,
  none, not, some, ℕ,
}
use eagle_api.Pins.{Project, find_project, or_empty}

-- `thrown` is an error outside the handler's try.
pub data PinWriteReply : Type 0 where
  refused not_found thrown : PinWriteReply
  added : List String → PinWriteReply
  matched : ℕ → PinWriteReply

-- `$addToSet` of one value, and with `$each`.
abbrev pub add_to_set : String → List String → List String
add_to_set x xs = if includes xs x then xs else xs ++ x ∷ []

abbrev pub add_each : List String → List String → List String
add_each [] xs = xs
add_each (p ∷ ps) xs = add_each ps (add_to_set p xs)

-- `[...new Set(…)]`.
abbrev pub each_once : List String → List String → List String
each_once seen [] = []
each_once seen (x ∷ xs) =
    let later = each_once (x ∷ seen) xs in
    let same = each_once seen xs in if includes seen x then same else x ∷ later

-- `$pull`; a missing array stays missing.
abbrev pub pull : String → Option (List String) → Option (List String)
pull x none = none
pull x (some xs) = some (filter (λ y. not (y === x)) xs)

abbrev pub change_project : String → (Project → Project) → List Project → List Project
change_project id change [] = []
change_project id change (p ∷ ps) =
    let later = change_project id change ps in if p.id === id then change p ∷ ps else p ∷ later

abbrev pub add_pins : List String → Project → Project
add_pins pins p = record p { pins = some (add_each pins (or_empty p.pins)) }

abbrev pub publish_pins : Project → Project
publish_pins p = record p { pins_read = some (add_to_set "public" (or_empty p.pins_read)) }

abbrev pub unpublish_pins : Project → Project
unpublish_pins p = record p { pins_read = pull "public" p.pins_read }

abbrev pub delete_pin : String → Project → Project
delete_pin pin p = record p { pins = pull pin p.pins }

module _ (is_valid : String → Bool) (object_id : String → String) where
  unfoldable pub protected_add_pins :
      String → List String → List Project → List Project × PinWriteReply
  protected_add_pins id pins projects =
      if not (is_valid id)
      then (projects, refused)
      else if not (all is_valid (each_once [] pins))
      then (projects, thrown)
      else elim (find_project (object_id id) projects) [
        | none ↦ (projects, not_found)
        | some p ↦ (
          change_project (object_id id) (add_pins (map object_id (each_once [] pins))) projects,
          added (or_empty (add_pins (map object_id (each_once [] pins)) p).pins),
        )
      ]

  -- Publication and its withdrawal; the project that is loaded has an array of pins.
  unfoldable pub change_pins_read :
      (Project → Project) → String → List Project → List Project × PinWriteReply
  change_pins_read change id projects =
      if not (is_valid id)
      then (projects, refused)
      else elim (find_project (object_id id) projects) [
        | none ↦ (projects, not_found)
        | some p ↦ (change_project (object_id id) change projects, matched 1)
      ]

  unfoldable pub protected_publish_pin : String → List Project → List Project × PinWriteReply
  unfolding change_pins_read
  protected_publish_pin id projects = change_pins_read publish_pins id projects

  unfoldable pub protected_unpublish_pin : String → List Project → List Project × PinWriteReply
  unfolding change_pins_read
  protected_unpublish_pin id projects = change_pins_read unpublish_pins id projects

  -- An invalid project id is an error of the update.
  unfoldable pub protected_pin_delete :
      String → String → List Project → List Project × PinWriteReply
  protected_pin_delete id pin projects =
      if not (is_valid pin) || not (is_valid id)
      then (projects, refused)
      else elim (find_project (object_id id) projects) [
        | none ↦ (projects, matched 0)
        | some p ↦ (change_project (object_id id) (delete_pin (object_id pin)) projects, matched 1)
      ]

-- A request that writes.
pub data PinWrite : Type 0 where
  add : String → List String → PinWrite
  publish unpublish : String → PinWrite
  delete : String → String → PinWrite

module _ (is_valid : String → Bool) (object_id : String → String) where
  unfoldable pub write_pins : PinWrite → List Project → List Project
  unfolding protected_add_pins protected_publish_pin protected_unpublish_pin protected_pin_delete
  write_pins (PinWrite.add id pins) projects =
      (protected_add_pins is_valid object_id id pins projects).0
  write_pins (PinWrite.publish id) projects =
      (protected_publish_pin is_valid object_id id projects).0
  write_pins (PinWrite.unpublish id) projects =
      (protected_unpublish_pin is_valid object_id id projects).0
  write_pins (PinWrite.delete id pin) projects =
      (protected_pin_delete is_valid object_id id pin projects).0

  unfoldable pub write_all_pins : List PinWrite → List Project → List Project
  unfolding write_pins
  write_all_pins [] projects = projects
  write_all_pins (w ∷ ws) projects = write_all_pins ws (write_pins w projects)
