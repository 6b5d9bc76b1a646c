-- ===== src/Projects/Handlers.antt =====
-- The whole handlers for a project that exists (api/controllers/project.js). `found` is the project
-- as the handler reads it and `stored` as it is when the write arrives: other requests may have
-- written in between. The check after a write whose filter missed sees the project of the write.
use eagle_api.Prelude.{Bool, List, Option, String, [], if◌then◌else◌, none, some, true, ℕ}
use eagle_api.Projects.{
  Project, ProjectBody, ProjectReply, Write, bad_request, failed, is_guarded_off, locked,
  mark_deleted, not_found, publish_as, saved, set_readers, update_act, write,
}
use eagle_api.Projects.Puts.{Plan, contact_ids_of, plan_put, ready, refuse, unchanged}
use eagle_api.Projects.Publishing.{plan_publish, plan_unpublish}

module _ {Content : Type 0} where
  abbrev pub guards_of : Write Content → List String
  guards_of (update_act guards key years block) = guards
  guards_of (publish_as guards key pushes) = guards
  guards_of (set_readers readers) = []
  guards_of mark_deleted = []

  -- `movedUnderLockedAct`, and the reply where it is false.
  abbrev pub moved_or : ProjectReply → List String → Project Content → ProjectReply
  moved_or other guards p = if is_guarded_off guards p.current then locked guards else other

  abbrev pub written_or :
      ProjectReply
      → Write Content
      → Project Content
      → Option (Project Content)
      → Option (Project Content) × ProjectReply
  written_or other w p none = (some p, moved_or other (guards_of w) p)
  written_or other w p (some q) = (some q, saved)

  -- A write that fails, `goes_through` being false, leaves the project; so does a save that Mongoose
  -- refuses for the version of an array.
  unfoldable pub commit :
      Bool
      → ProjectReply
      → Write Content
      → Option (Project Content)
      → Option (Project Content) × ProjectReply
  unfolding write
  commit goes_through other w none = (none, other)
  commit goes_through other w (some p) =
      if goes_through then written_or other w p (write w p) else (some p, other)

  -- `other` is the reply where the write does not go through and the project has not moved.
  unfoldable pub carry_out :
      Bool
      → ProjectReply
      → Plan Content
      → Option (Project Content)
      → Option (Project Content) × ProjectReply
  carry_out goes_through other unchanged stored = (stored, saved)
  carry_out goes_through other (refuse r) stored = (stored, r)
  carry_out goes_through other (ready w) stored = commit goes_through other w stored

  abbrev pub change_found :
      Bool
      → ProjectReply
      → (Project Content → Plan Content)
      → Option (Project Content)
      → Option (Project Content)
      → Option (Project Content) × ProjectReply
  change_found goes_through other plan none stored = (stored, not_found)
  change_found goes_through other plan (some p) stored =
      carry_out goes_through other (plan p) stored

  module _ (is_valid : String → Bool) where
    -- The update of a PUT is one call, whose filter is all that can miss.
    unfoldable pub protected_put :
        (String → Option String)
        → (Content → Content)
        → String
        → ProjectBody Content
        → Option (Project Content)
        → Option (Project Content)
        → Option (Project Content) × ProjectReply
    protected_put phase_name new_date id b found stored =
        if is_valid id
        then elim (contact_ids_of is_valid b) [
          | none ↦ (stored, bad_request)
          | some ids ↦ change_found true not_found (plan_put phase_name new_date b ids) found stored
        ]
        else (stored, bad_request)

    unfoldable pub protected_publish :
        Bool
        → String
        → Option ℕ
        → Option (Project Content)
        → Option (Project Content)
        → Option (Project Content) × ProjectReply
    protected_publish goes_through id sent_year found stored =
        if is_valid id
        then change_found goes_through failed (plan_publish sent_year) found stored
        else (stored, bad_request)

    unfoldable pub protected_unpublish :
        Bool
        → String
        → Option (Project Content)
        → Option (Project Content)
        → Option (Project Content) × ProjectReply
    protected_unpublish goes_through id found stored =
        if is_valid id
        then change_found goes_through failed plan_unpublish found stored
        else (stored, bad_request)

    unfoldable pub protected_delete :
        Bool
        → String
        → Option (Project Content)
        → Option (Project Content)
        → Option (Project Content) × ProjectReply
    protected_delete goes_through id found stored =
        if is_valid id
        then change_found goes_through bad_request (λ p. ready mark_deleted) found stored
        else (stored, bad_request)
