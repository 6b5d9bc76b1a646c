-- ===== src/Periods/Runs.antt =====
-- The flag and the readers of every comment period over all requests to
-- api/controllers/commentperiod.js.
use eagle_api.Prelude.{
  ◌&&◌, ◌∷◌, ◌||◌, All, Bool, List, Option, Option-cases, String, [], any, if◌then◌else◌, if-pick,
  inl, inr, none, not, some, subst, sym,
}
use eagle_api.DataQuery.Ids.{apply_create_id}
use eagle_api.DataQuery.Params.{get_valid_object_id}
use eagle_api.Periods.Writes.{
  Period, PeriodBody, WriteReply, bad_request, change_one, find_one, new_period, made_id, makes_id,
  has_period_id, updated_or, saved_or, saved, updated, thrown, create_id_taken, publish_period,
  put_change, remove_one, save_period, unpublish_period,
}
use eagle_api.Periods.Requests.{
  PeriodWrite, protected_delete, protected_post, protected_put, publish_with, write, write_all,
}
use eagle_api.Periods.Flags.{
  IsFlagged, Keeps, All-change_one, All-remove_one, by_param, new_period-IsFlagged,
  publish_period-IsFlagged, put_change-IsFlagged, unpublish_period-IsFlagged, updated_or-Keeps,
}

module _ {Content : Type 0} (is_valid : String → Bool) (object_id : String → String) where
  protected_post-Keeps :
      (generated generated_project : String) (b : PeriodBody Content) (ps : List (Period Content))
      → All IsFlagged ps
      → Keeps (protected_post is_valid object_id generated generated_project b ps)
  unfolding protected_post save_period
  protected_post-Keeps generated generated_project b ps h =
      if-pick Keeps
        (not (makes_id is_valid b.sent_milestone) || not (makes_id is_valid b.sent_project))
        {x = (ps, thrown)} h (with_id (apply_create_id object_id generated b.sent_id))
    where
      with_id :
          (o : Option String)
          → Keeps {Content = Content} (elim o [
            | none ↦ (ps, bad_request)
            | some id ↦
                save_period
                  (new_period id (made_id object_id generated_project b.sent_project) b)
                  ps
          ])
      with_id none = h
      with_id (some id) =
          let p : Period Content =
            new_period id (made_id object_id generated_project b.sent_project) b in
          let kept : All IsFlagged (p ∷ ps) =
            (new_period-IsFlagged id (made_id object_id generated_project b.sent_project) b, h) in
          if-pick Keeps (any (has_period_id p.id) ps) {x = (ps, create_id_taken)}
            {y = (p ∷ ps, saved)} h kept

  protected_put-Keeps :
      (id : Option String) (b : PeriodBody Content) (ps : List (Period Content))
      → All IsFlagged ps
      → Keeps (protected_put is_valid object_id id b ps)
  unfolding protected_put
  protected_put-Keeps id b ps h =
      let valid_milestone : Bool = makes_id is_valid b.sent_milestone in
      let after : String → Option (List (Period Content)) =
        λ i. change_one (object_id i) (put_change b) ps in
      by_param (get_valid_object_id is_valid id)
        (if valid_milestone then (ps, updated 0) else (ps, thrown)) (ps, bad_request)
        (λ i. if valid_milestone then updated_or ps (after i) else (ps, thrown))
        (if-pick Keeps valid_milestone {x = (ps, updated 0)} {y = (ps, thrown)} h h) h
        (λ i.
          if-pick Keeps valid_milestone {x = updated_or ps (after i)} {y = (ps, thrown)}
            (updated_or-Keeps ps (after i) h (
              All-change_one (object_id i) (put_change b) ps (λ p k. put_change-IsFlagged b p) h)).0
            h)

  publish_with-Keeps :
      (change : Period Content → Period Content × Bool) (goes_through : Bool) (id : Option String)
      (ps : List (Period Content))
      → ((p : Period Content) → IsFlagged (change p).0)
      → All IsFlagged ps
      → Keeps (publish_with is_valid object_id change goes_through id ps)
  unfolding publish_with
  publish_with-Keeps change goes_through id ps flags h =
      let changed : Period Content → Period Content =
        λ q. if (change q).1 then (change q).0 else q in
      let after : String → Option (List (Period Content)) =
        λ i. change_one (object_id i) changed ps in
      let publish_found : String → Option (Period Content) → List (Period Content) × WriteReply =
        λ i o. elim o [
          | none ↦ (ps, bad_request)
          | some p ↦
              if (change p).1 && not goes_through then (ps, bad_request) else saved_or ps (after i)
        ] in
      let kept : (i : String) → Keeps (saved_or ps (after i)) = λ i.
        (updated_or-Keeps ps (after i) h (
          All-change_one (object_id i) changed ps
            (λ q k. if-pick IsFlagged (change q).1 (flags q) k) h)).1 in
      by_param (get_valid_object_id is_valid id) (ps, bad_request) (ps, bad_request)
        (λ i. publish_found i (find_one (object_id i) ps)) h h
        (λ i. elim (Option-cases (find_one (object_id i) ps)) [
          | inl missing ↦ subst (λ o. Keeps (publish_found i o)) (sym missing) h
          | inr found ↦
              subst (λ o. Keeps (publish_found i o)) (sym found.1)
                (if-pick Keeps ((change found.0).1 && not goes_through) {x = (ps, bad_request)}
                  {y = saved_or ps (after i)} h (kept i))
        ])

  write-Keeps :
      (w : PeriodWrite Content) (ps : List (Period Content))
      → All IsFlagged ps
      → Keeps (write is_valid object_id w ps)
  unfolding write protected_delete
  write-Keeps (PeriodWrite.post generated generated_project b) ps h =
      protected_post-Keeps generated generated_project b ps h
  write-Keeps (PeriodWrite.put id b) ps h = protected_put-Keeps id b ps h
  write-Keeps (PeriodWrite.delete id) ps h =
      by_param (get_valid_object_id is_valid id) (ps, saved) (ps, bad_request)
        (λ i. (remove_one (object_id i) ps, saved)) h h (λ i. All-remove_one (object_id i) ps h)
  write-Keeps (PeriodWrite.publish goes_through id) ps h =
      publish_with-Keeps publish_period goes_through id ps publish_period-IsFlagged h
  write-Keeps (PeriodWrite.unpublish goes_through id) ps h =
      publish_with-Keeps unpublish_period goes_through id ps unpublish_period-IsFlagged h

  -- After any sequence of creations, updates, publications and deletions, whatever they send and
  -- whichever saves of a publication fail, every comment period has `isPublished` set exactly if its `read` holds
  -- "public", if every period had so at the start.
  pub write_all-IsFlagged :
      (ws : List (PeriodWrite Content)) (ps : List (Period Content))
      → All IsFlagged ps
      → All IsFlagged (write_all is_valid object_id ws ps)
  unfolding write_all
  write_all-IsFlagged [] ps h = h
  write_all-IsFlagged (w ∷ ws) ps h =
      write_all-IsFlagged ws (write is_valid object_id w ps).0 (write-Keeps w ps h)
