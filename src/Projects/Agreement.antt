-- ===== src/Projects/Agreement.antt =====
-- That a project's Act, its list of years and the labels of its blocks agree over all requests that
-- follow one another (api/controllers/project.js).
use eagle_api.Prelude.{
  ◌≡◌, ◌⊎◌, ◌∙◌, ◌∷◌, ==_iff, Bool, Bool-cases, List, Option, String, [], ap, arith, false, if-pick,
  inl, inr, none, refl, some, some-injective, subst, sym, true, ℕ,
}
use eagle_api.Legislation.{legislation_key, legislation_year_of}
use eagle_api.Legislation.Keys.{legislation_year_of-legislation_key}
use eagle_api.Projects.{
  Block, Project, ProjectBody, ProjectReply, bad_request, failed, includes_year, mark_deleted,
  not_found,
}
use eagle_api.Projects.Handlers.{change_found}
use eagle_api.Projects.Puts.{
  Contacts, plan_put, put_block, put_in, put_under, ready, refuses_legislation_change, year_of,
  years_with,
}
use eagle_api.Projects.Publishing.{plan_publish, plan_unpublish}
use eagle_api.DataQuery.Ids.{apply_create_id}
use eagle_api.Projects.Posts.{
  create, new_project, or_default, post_under, post_with, protected_post, new_block,
}
use eagle_api.Projects.Handlers.{
  protected_delete, protected_publish, protected_put, protected_unpublish,
}
use eagle_api.Projects.Puts.{contact_ids_of}
use eagle_api.Projects.Requests.{ProjectRequest, serve, serve_all}
use eagle_api.Projects.Consistent.{
  IsConsistent, IsConsistentIfStored, IsSoundPlan, change_found-IsConsistent,
  includes_year-years_with, AreLabelled-set_block, plan_publish-IsSound, plan_unpublish-IsSound,
}

module _ {Content : Type 0} where
  module _ (phase_name : String → Option String) (new_date : Content → Content) where
    plan_put-IsSound :
        (b : ProjectBody Content) (ids : Contacts) (p : Project Content)
        → IsConsistent p
        → IsSoundPlan p (plan_put phase_name new_date b ids p)
    unfolding plan_put put_block
    plan_put-IsSound b ids p h =
        if-pick (IsSoundPlan p) (refuses_legislation_change p.current b.sent_year) tt
          (dated (year_of p.current b.sent_year) refl)
      where
        -- The year stands in the list that is written, and that adds no other year.
        listed :
            (o : Option ℕ) (year : ℕ)
            → year_of p.current o ≡ some year
            → (includes_year (years_with o p.years) year ≡ true)
              × ((y : ℕ)
                  → includes_year (years_with o p.years) y ≡ true
                  → (includes_year p.years y ≡ true) ⊎ (y ≡ year))
        listed none year e =
            let (y0, k0, of_key, current, m) = h.0 in
            let same : y0 ≡ year = some-injective (
              sym ((legislation_year_of-legislation_key y0 k0).0 of_key)
              ∙ ap legislation_year_of (sym current)
              ∙ e) in
            (subst (λ (y : ℕ). includes_year p.years y ≡ true) same m, λ y l. inl l)
        listed (some s) year e = (
          includes_year-years_with p.years s year ∙ ground (arith, some-injective e),
          λ y l. elim (Bool-cases (includes_year p.years y)) [
            | inl old ↦ inl old
            | inr new ↦
                inr (ground (arith, l, new, includes_year-years_with p.years s y, some-injective e))
          ],
        )

        keyed :
            (year : ℕ) (o : Option String)
            → year_of p.current b.sent_year ≡ some year
            → legislation_key year ≡ o
            → IsSoundPlan p (put_under phase_name new_date b ids p year o)
        keyed year none y k = tt
        keyed year (some key) y k =
            let (m, sub) = listed b.sent_year year y in (year, k, m, refl, sub)

        dated :
            (o : Option ℕ)
            → year_of p.current b.sent_year ≡ o
            → IsSoundPlan p (put_in phase_name new_date b ids p o)
        dated none y = tt
        dated (some year) y = keyed year (legislation_key year) y refl

    put-IsConsistent :
        (is_valid : String → Bool) (id : String) (b : ProjectBody Content)
        (stored : Option (Project Content))
        → IsConsistentIfStored stored
        → IsConsistentIfStored (protected_put is_valid phase_name new_date id b stored stored).0
    unfolding protected_put
    put-IsConsistent is_valid id b stored h =
        if-pick (λ (o : Option (Project Content) × ProjectReply). IsConsistentIfStored o.0)
          (is_valid id) {y = (stored, bad_request)} (identified (contact_ids_of is_valid b)) h
      where
        identified :
            (o : Option Contacts)
            → IsConsistentIfStored {Content = Content}
                (elim o as (λ x. Option (Project Content) × ProjectReply) [
                  | none ↦ (stored, bad_request)
                  | some ids ↦
                      change_found true not_found (plan_put phase_name new_date b ids) stored stored
                ]).0
        identified none = h
        identified (some ids) =
            change_found-IsConsistent true not_found (plan_put phase_name new_date b ids) stored
              (plan_put-IsSound b ids) h

module _ {Content : Type 0} (is_valid : String → Bool) (object_id : String → String)
    (phase_name : String → Option String) (new_date : Content → Content)
    (block_of : ProjectBody Content → Block Content) (empty_block : Block Content)
    (is_ref : Content → Bool) (or_null : Content → Content) where
  new_project-IsConsistent :
      (b : ProjectBody Content) (ids : Contacts) (year : ℕ) (key : String)
      → legislation_key year ≡ some key
      → IsConsistent (
          new_project is_valid object_id phase_name block_of empty_block is_ref or_null b ids year
            key)
  unfolding new_project new_block
  new_project-IsConsistent b ids year key k = (
    (year, key, k, refl, ground (arith, ==_iff year year)),
    λ y j listed of_key.
        AreLabelled-set_block [] year key
          (new_block is_valid object_id phase_name block_of empty_block is_ref or_null b ids year)
          (λ i. empty_block) (λ z i m f. absurd (ground (arith, m))) k refl y j
          (inr (ground (arith, listed, ==_iff year y))) of_key,
  )

  post-IsConsistent :
      (goes_through : Bool) (generated : String) (sent_id : Option String) (b : ProjectBody Content)
      (stored : Option (Project Content))
      → IsConsistentIfStored stored
      → IsConsistentIfStored
          (protected_post is_valid object_id phase_name block_of empty_block is_ref or_null
            goes_through generated sent_id b stored).0
  unfolding protected_post
  post-IsConsistent goes_through generated sent_id b stored h = dated (or_default b.sent_year)
    where
      created :
          (goes : Bool) (o : Option (Project Content)) (q : Project Content)
          → IsConsistentIfStored o
          → IsConsistent q
          → IsConsistentIfStored
              (create is_valid object_id phase_name block_of empty_block is_ref or_null goes o q).0
      created goes (some p) q k c = k
      created true none q k c = c
      created false none q k c = tt

      contacted :
          (year : ℕ) (key : String) (o : Option Contacts)
          → legislation_key year ≡ some key
          → IsConsistentIfStored
              (post_with is_valid object_id phase_name block_of empty_block is_ref or_null
                goes_through b stored year key o).0
      contacted year key none k = h
      contacted year key (some ids) k =
          if-pick (λ (o : Option (Project Content) × ProjectReply). IsConsistentIfStored o.0)
            (is_ref (b.sent).proponent) {y = (stored, bad_request)}
            (created goes_through stored
              (new_project is_valid object_id phase_name block_of empty_block is_ref or_null b ids
                year key)
              h (new_project-IsConsistent b ids year key k))
            h

      identified :
          (year : ℕ) (key : String) (o : Option String)
          → legislation_key year ≡ some key
          → IsConsistentIfStored {Content = Content}
              (elim o as (λ x. Option (Project Content) × ProjectReply) [
                | none ↦ (stored, bad_request)
                | some id ↦
                    post_with is_valid object_id phase_name block_of empty_block is_ref or_null
                      goes_through b stored year key
                      (contact_ids_of is_valid b)
              ]).0
      identified year key none k = h
      identified year key (some id) k = contacted year key (contact_ids_of is_valid b) k

      keyed :
          (year : ℕ) (o : Option String)
          → legislation_key year ≡ o
          → IsConsistentIfStored
              (post_under is_valid object_id phase_name block_of empty_block is_ref or_null
                goes_through generated sent_id b stored year o).0
      keyed year none k = h
      keyed year (some key) k = identified year key (apply_create_id object_id generated sent_id) k

      dated :
          (o : Option ℕ)
          → IsConsistentIfStored {Content = Content}
              (elim o as (λ x. Option (Project Content) × ProjectReply) [
                | none ↦ (stored, bad_request)
                | some year ↦
                    post_under is_valid object_id phase_name block_of empty_block is_ref or_null
                      goes_through generated sent_id b stored year
                      (legislation_key year)
              ]).0
      dated none = h
      dated (some year) = keyed year (legislation_key year) refl

  serve-IsConsistent :
      (r : ProjectRequest Content) (stored : Option (Project Content))
      → IsConsistentIfStored stored
      → IsConsistentIfStored
          (serve is_valid object_id phase_name new_date block_of empty_block is_ref or_null r
            stored).0
  unfolding serve protected_publish protected_unpublish protected_delete
  serve-IsConsistent (ProjectRequest.post goes_through generated sent_id b) stored h =
      post-IsConsistent goes_through generated sent_id b stored h
  serve-IsConsistent (ProjectRequest.put id b) stored h =
      put-IsConsistent phase_name new_date is_valid id b stored h
  serve-IsConsistent (ProjectRequest.publish goes_through id sent_year) stored h =
      if-pick (λ (o : Option (Project Content) × ProjectReply). IsConsistentIfStored o.0)
        (is_valid id) {y = (stored, bad_request)}
        (change_found-IsConsistent goes_through failed (plan_publish sent_year) stored
          (λ p k. plan_publish-IsSound sent_year p) h)
        h
  serve-IsConsistent (ProjectRequest.unpublish goes_through id) stored h =
      if-pick (λ (o : Option (Project Content) × ProjectReply). IsConsistentIfStored o.0)
        (is_valid id) {y = (stored, bad_request)}
        (change_found-IsConsistent goes_through failed plan_unpublish stored
          (λ p k. plan_unpublish-IsSound p) h)
        h
  serve-IsConsistent (ProjectRequest.delete goes_through id) stored h =
      if-pick (λ (o : Option (Project Content) × ProjectReply). IsConsistentIfStored o.0)
        (is_valid id) {y = (stored, bad_request)}
        (change_found-IsConsistent goes_through bad_request (λ p. ready mark_deleted) stored
          (λ p k. tt) h)
        h

  -- After any requests that follow one another on one id, from no project or a consistent one: the
  -- project's Act is that of a year of its list, and the block of every listed year has the label
  -- of that year's Act.
  pub serve_all-IsConsistent :
      (rs : List (ProjectRequest Content)) (stored : Option (Project Content))
      → IsConsistentIfStored stored
      → IsConsistentIfStored (
          serve_all is_valid object_id phase_name new_date block_of empty_block is_ref or_null rs
            stored)
  unfolding serve_all
  serve_all-IsConsistent [] stored h = h
  serve_all-IsConsistent (r ∷ rs) stored h =
      serve_all-IsConsistent rs
        (serve is_valid object_id phase_name new_date block_of empty_block is_ref or_null r
          stored).0
        (serve-IsConsistent r stored h)
