-- ===== src/Projects/Publishing.antt =====
-- What publishing and withdrawing a project write: protectedPublish and protectedUnPublish of
-- api/controllers/project.js, with publish and unPublish of api/helpers/actions.js (the schema of a
-- Project has no `isPublished`).
use eagle_api.Prelude.{
  ◌&&◌, ◌===◌, ◌∷◌, Bool, Option, String, Text, [], false, filter, if◌then◌else◌, includes, is_name,
  none, not, some, true, ℕ,
}
use eagle_api.Legislation.{legislation_key}
use eagle_api.Projects.{
  Project, includes_year, locked, no_content, publish_as, set_readers, unknown_year,
}
use eagle_api.Projects.Puts.{
  Plan, keys_of, locked_keys_other_than, ready, refuse, refuses_legislation_change, unchanged,
}

abbrev pub has_text : Option Text → Bool
has_text none = false
has_text (some []) = false
has_text (some (c ∷ s)) = true

module _ {Content : Type 0} where
  abbrev pub is_listed : Project Content → Bool
  is_listed p = includes p.read "public"

  abbrev pub has_content : Project Content → ℕ → String → Bool
  has_content p year key = includes_year p.years year && has_text ((p.blocks key).copied).name

  abbrev pub publish_under : Project Content → ℕ → Option String → Plan Content
  publish_under p year none = refuse unknown_year
  publish_under p year (some key) =
      if is_name p.current key
      then ready (publish_as [] none (not (is_listed p)))
      else if has_content p year key
      then ready (publish_as (locked_keys_other_than key) (some key) (not (is_listed p)))
      else refuse (no_content year)

  -- `sent_year` is none where the body or its year is missing.
  unfoldable pub plan_publish : Option ℕ → Project Content → Plan Content
  plan_publish none p = ready (publish_as [] none (not (is_listed p)))
  plan_publish (some year) p =
      if refuses_legislation_change p.current (some year)
      then refuse (locked (keys_of p.current))
      else publish_under p year (legislation_key year)

  unfoldable pub plan_unpublish : Project Content → Plan Content
  plan_unpublish p =
      if is_listed p
      then ready (set_readers (filter (λ role. not (role === "public")) p.read))
      else unchanged
