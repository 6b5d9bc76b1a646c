-- ===== src/Periods/Requests.antt =====
-- The requests that write comment periods: protectedPost, protectedPut, protectedDelete,
-- protectedPublish and protectedUnPublish of api/controllers/commentperiod.js. `is_valid` is
-- ObjectId.isValid and `object_id` the constructor ObjectId, to the id's hex string.
use eagle_api.Prelude.{
  ◌&&◌, ◌∷◌, ◌||◌, Bool, List, Option, String, [], if◌then◌else◌, none, not, some,
}
use eagle_api.DataQuery.Ids.{apply_create_id}
use eagle_api.DataQuery.Params.{ObjectIdParam, get_valid_object_id}
use eagle_api.Periods.Writes.{
  Period, PeriodBody, WriteReply, makes_id, made_id, publish_period, unpublish_period, change_one,
  find_one, new_period, save_period, put_change, remove_one, updated_or, saved_or, bad_request,
  thrown, saved, updated,
}

module _ {Content : Type 0} (is_valid : String → Bool) (object_id : String → String) where
  unfoldable pub protected_post :
      String
      → String
      → PeriodBody Content
      → List (Period Content)
      → List (Period Content) × WriteReply
  unfolding new_period save_period
  protected_post generated generated_project b ps =
      if not (makes_id is_valid b.sent_milestone) || not (makes_id is_valid b.sent_project)
      then (ps, thrown)
      else elim (apply_create_id object_id generated b.sent_id) [
        | none ↦ (ps, bad_request)
        | some id ↦
            save_period (new_period id (made_id object_id generated_project b.sent_project) b) ps
      ]

  unfoldable pub protected_put :
      Option String
      → PeriodBody Content
      → List (Period Content)
      → List (Period Content) × WriteReply
  unfolding put_change change_one
  protected_put period_id b ps = elim (get_valid_object_id is_valid period_id) [
    | ObjectIdParam.invalid_id ↦ (ps, bad_request)
    | ObjectIdParam.no_id ↦
        if makes_id is_valid b.sent_milestone then (ps, updated 0) else (ps, thrown)
    | ObjectIdParam.object_id id ↦
        if makes_id is_valid b.sent_milestone
        then updated_or ps (change_one (object_id id) (put_change b) ps)
        else (ps, thrown)
  ]

  unfoldable pub protected_delete :
      Option String → List (Period Content) → List (Period Content) × WriteReply
  unfolding remove_one
  protected_delete period_id ps = elim (get_valid_object_id is_valid period_id) [
    | ObjectIdParam.invalid_id ↦ (ps, bad_request)
    | ObjectIdParam.no_id ↦ (ps, saved)
    | ObjectIdParam.object_id id ↦ (remove_one (object_id id) ps, saved)
  ]

  -- Publish or unpublish; `goes_through` is whether Mongo takes the save of a modified period.
  unfoldable pub publish_with :
      (Period Content → Period Content × Bool)
      → Bool
      → Option String
      → List (Period Content)
      → List (Period Content) × WriteReply
  unfolding change_one find_one
  publish_with change goes_through period_id ps = elim (get_valid_object_id is_valid period_id) [
    | ObjectIdParam.invalid_id ↦ (ps, bad_request)
    | ObjectIdParam.no_id ↦ (ps, bad_request)
    | ObjectIdParam.object_id id ↦ elim (find_one (object_id id) ps) [
      | none ↦ (ps, bad_request)
      | some p ↦
          if (change p).1 && not goes_through
          then (ps, bad_request)
          else saved_or ps
              (change_one (object_id id) (λ q. if (change q).1 then (change q).0 else q) ps)
    ]
  ]

  abbrev pub protected_publish :
      Bool → Option String → List (Period Content) → List (Period Content) × WriteReply
  unfolding publish_with publish_period
  protected_publish goes_through period_id ps =
      publish_with publish_period goes_through period_id ps

  abbrev pub protected_unpublish :
      Bool → Option String → List (Period Content) → List (Period Content) × WriteReply
  unfolding publish_with unpublish_period
  protected_unpublish goes_through period_id ps =
      publish_with unpublish_period goes_through period_id ps

-- A request that writes, with the ids that the server makes and whether the save goes through.
pub data PeriodWrite (Content : Type 0) : Type 0 where
  post : String → String → PeriodBody Content → PeriodWrite Content
  put : Option String → PeriodBody Content → PeriodWrite Content
  delete : Option String → PeriodWrite Content
  publish unpublish : Bool → Option String → PeriodWrite Content

module _ {Content : Type 0} (is_valid : String → Bool) (object_id : String → String) where
  unfoldable pub write :
      PeriodWrite Content → List (Period Content) → List (Period Content) × WriteReply
  unfolding protected_post protected_put protected_delete protected_publish protected_unpublish
  write (PeriodWrite.post generated generated_project b) ps =
      protected_post is_valid object_id generated generated_project b ps
  write (PeriodWrite.put id b) ps = protected_put is_valid object_id id b ps
  write (PeriodWrite.delete id) ps = protected_delete is_valid object_id id ps
  write (PeriodWrite.publish goes_through id) ps =
      protected_publish is_valid object_id goes_through id ps
  write (PeriodWrite.unpublish goes_through id) ps =
      protected_unpublish is_valid object_id goes_through id ps

  unfoldable pub write_all :
      List (PeriodWrite Content) → List (Period Content) → List (Period Content)
  unfolding write
  write_all [] ps = ps
  write_all (w ∷ ws) ps = write_all ws (write w ps).0
