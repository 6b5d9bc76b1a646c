-- ===== src/Projects/Requests.antt =====
-- Requests for one project, one after the other (api/controllers/project.js).
use eagle_api.Prelude.{Bool, List, Option, String, [], ◌∷◌, ℕ}
use eagle_api.Projects.{Block, Project, ProjectBody, ProjectReply}
use eagle_api.Projects.Handlers.{
  protected_delete, protected_publish, protected_put, protected_unpublish,
}
use eagle_api.Projects.Posts.{protected_post}

-- A request with what it sends; the Bool is whether its save goes through.
pub data ProjectRequest (Content : Type 0) : Type 0 where
  post : Bool → String → Option String → ProjectBody Content → ProjectRequest Content
  put : String → ProjectBody Content → ProjectRequest Content
  publish : Bool → String → Option ℕ → ProjectRequest Content
  unpublish delete : Bool → String → ProjectRequest Content

module _ {Content : Type 0} (is_valid : String → Bool) (object_id : String → String)
    (phase_name : String → Option String) (new_date : Content → Content)
    (block_of : ProjectBody Content → Block Content) (empty_block : Block Content)
    (is_ref : Content → Bool) (or_null : Content → Content) where
  unfoldable pub serve :
      ProjectRequest Content → Option (Project Content) → Option (Project Content) × ProjectReply
  serve (post goes_through generated sent_id b) stored =
      protected_post is_valid object_id phase_name block_of empty_block is_ref or_null goes_through
        generated sent_id b stored
  serve (put id b) stored = protected_put is_valid phase_name new_date id b stored stored
  serve (publish goes_through id sent_year) stored =
      protected_publish is_valid goes_through id sent_year stored stored
  serve (unpublish goes_through id) stored =
      protected_unpublish is_valid goes_through id stored stored
  serve (delete goes_through id) stored = protected_delete is_valid goes_through id stored stored

  unfoldable pub serve_all :
      List (ProjectRequest Content) → Option (Project Content) → Option (Project Content)
  unfolding serve
  serve_all [] stored = stored
  serve_all (r ∷ rs) stored = serve_all rs (serve r stored).0
