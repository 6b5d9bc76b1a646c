-- ===== src/Examples/Pages.antt =====
-- A live Update as the public sees it.
use eagle_api.Prelude.{
  ◌↔◌, ◌≢◌, none, some, ◌===◌, ◌≡◌, ◌∷◌, ◌⊎◌, String, [], if◌then◌else◌, refl, true,
}
use eagle_api.Mongo.{Field, Row, Value}
use eagle_api.Mongo.Reference.{reference}
use eagle_api.UpdateRules.Status.{visibility_aggr}
use eagle_api.UpdateRules.Status.Pipeline.{IsStaffField, IsVisible, show, visibility_aggr-show}

abbrev live_row : Row
live_row p =
    if p === "status"
    then Field.value (Value.str "published")
    else if p === "publishDate"
    then Field.value (Value.num 3)
    else if p === "_addedBy"
    then Field.value (Value.str "ann")
    else Field.absent

visibility_aggr-show_example :
    ((show reference (visibility_aggr ("public" ∷ []) true 5) live_row ≢ none)
      ↔ IsVisible 5 live_row)
    × ((seen : Row)
        → show reference (visibility_aggr ("public" ∷ []) true 5) live_row ≡ some seen
        → (path : String)
        → (IsStaffField path × (seen path ≡ Field.absent))
          ⊎ (¬ (IsStaffField path) × (seen path ≡ live_row path)))
visibility_aggr-show_example =
    visibility_aggr-show reference ("public" ∷ []) true 5 live_row refl refl
