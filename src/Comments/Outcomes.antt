-- ===== src/Comments/Outcomes.antt =====
-- The outcomes of protectedPost of api/controllers/comment.js, one by one.
use eagle_api.Prelude.{
  ◌++◌, ◌≡◌, ◌∷◌, Bool, Bool-cases, List, Option, Option-cases, String, all, false, if◌then◌else◌,
  if-pick, inl, inr, none, not, refl, some, subst, sym, true, ℕ,
}
use eagle_api.DataQuery.Ids.{apply_create_id, is_object_id_string}
use eagle_api.Comments.Creating.{
  PostBody, PostReply, Store, count_of, get_next_comment_id_count, is_taken, is_valid_number,
  new_comment, number_from, post_identified, post_numbered, protected_post, raise, raised,
  save_comment,
}

abbrev pub is_refusal : {Content : Type 0} → PostReply Content → Bool
is_refusal PostReply.create_id_taken = false
is_refusal PostReply.not_saved = false
is_refusal (PostReply.created c) = false
is_refusal _ = true

module _ {Content : Type 0} (goes_through : Bool) (b : PostBody Content) (s : Store Content)
    (P : Store Content × PostReply Content → Type 0) where
  -- The number that a comment gets when the period's counter is m.
  abbrev pub assigned : ℕ → ℕ
  assigned m = number_from b.sent_number (raise b.sent_number m)

  abbrev pub with_raised : String → Store Content
  with_raised p = record s { periods = raised p b.sent_number s.periods }

  abbrev Made : Type 0
  Made =
      (id p : String) (m : ℕ)
      → is_valid_number b.sent_number ≡ true
      → is_taken p b.sent_number s.comments ≡ false
      → count_of p s.periods ≡ some m
      → P (
        record s {
          periods = raised p b.sent_number s.periods;
          comments = new_comment id p (assigned m) b ∷ s.comments;
        },
        PostReply.created (new_comment id p (assigned m) b),
      )

  module _ (refused : (r : PostReply Content) → is_refusal r ≡ true → P (s, r))
      (clash : (p : String) → P (with_raised p, PostReply.create_id_taken))
      (unsaved : (p : String) → P (with_raised p, PostReply.not_saved)) (made : Made) where
    save_comment-elim :
        (id p : String) (m : ℕ)
        → is_valid_number b.sent_number ≡ true
        → is_taken p b.sent_number s.comments ≡ false
        → count_of p s.periods ≡ some m
        → P (save_comment goes_through (new_comment id p (assigned m) b) (with_raised p))
    unfolding save_comment
    save_comment-elim id p m valid free known =
        if-pick P (not goes_through) (unsaved p)
          (if-pick P _ (clash p) (made id p m valid free known))

    abbrev next_for : String → Option ℕ → List (String × ℕ) × Option ℕ
    next_for p none = (s.periods, none)
    next_for p (some m) = (raised p b.sent_number s.periods, some (assigned m))

    abbrev numbered : String → String → Option ℕ → Store Content × PostReply Content
    numbered id p o = elim (next_for p o).1 [
      | none ↦ (record s { periods = (next_for p o).0 }, PostReply.period_not_found)
      | some n ↦
          save_comment goes_through (new_comment id p n b) (record s { periods = (next_for p o).0 })
    ]

    post_numbered-elim :
        (id p : String)
        → is_valid_number b.sent_number ≡ true
        → is_taken p b.sent_number s.comments ≡ false
        → P (post_numbered goes_through id p b s)
    unfolding post_numbered get_next_comment_id_count
    post_numbered-elim id p valid free = elim (Option-cases (count_of p s.periods)) [
      | inl unknown ↦
          subst (λ o. P (numbered id p o)) (sym unknown) (refused PostReply.period_not_found refl)
      | inr found ↦
          subst (λ o. P (numbered id p o)) (sym found.1)
            (save_comment-elim id p found.0 valid free found.1)
    ]

    post_identified-elim :
        (id p : String)
        → is_valid_number b.sent_number ≡ true
        → P (post_identified goes_through id p b s)
    unfolding post_identified
    post_identified-elim id p valid =
        let tried : Bool → Store Content × PostReply Content = λ taken.
          if taken then (s, PostReply.comment_id_taken) else post_numbered goes_through id p b s in
        elim (Bool-cases (is_taken p b.sent_number s.comments)) [
          | inl taken ↦
              subst (λ t. P (tried t)) (sym taken) (refused PostReply.comment_id_taken refl)
          | inr free ↦ subst (λ t. P (tried t)) (sym free) (post_numbered-elim id p valid free)
        ]

    identified-elim :
        (object_id : String → String) (p : String) (id : Option String)
        → is_valid_number b.sent_number ≡ true
        → P (elim id [
          | none ↦ (s, PostReply.invalid_create_id)
          | some i ↦ post_identified goes_through i (object_id p) b s
        ])
    identified-elim object_id p none valid = refused PostReply.invalid_create_id refl
    identified-elim object_id p (some id) valid = post_identified-elim id (object_id p) valid

    -- To prove a property of every outcome of protectedPost.
    pub protected_post-elim :
        (is_valid : String → Bool) (object_id : String → String) (generated : String)
        → P (protected_post goes_through is_valid object_id generated b s)
    unfolding protected_post
    protected_post-elim is_valid object_id generated =
        let identified : String → Store Content × PostReply Content = λ p.
          elim (apply_create_id object_id generated b.sent_id) [
            | none ↦ (s, PostReply.invalid_create_id)
            | some i ↦ post_identified goes_through i (object_id p) b s
          ] in
        let number_tried : String → Bool → Store Content × PostReply Content =
          λ p bad. if bad then (s, PostReply.invalid_comment_id) else identified p in
        let tried : String → Store Content × PostReply Content = λ p.
          if not (is_object_id_string p)
          then (s, PostReply.period_not_found)
          else number_tried p (not (is_valid_number b.sent_number)) in
        let in_period : Option String → Store Content × PostReply Content =
          λ o. elim o [ none ↦ (s, PostReply.period_not_found) | some p ↦ tried p ] in
        if-pick P (not (all is_valid (b.valued_components ++ b.documents)))
          (refused PostReply.bad_request refl)
          (elim (Option-cases b.sent_period) [
            | inl missing ↦
                subst (λ o. P (in_period o)) (sym missing) (refused PostReply.period_not_found refl)
            | inr given ↦
                subst (λ o. P (in_period o)) (sym given.1)
                  (if-pick P (not (is_object_id_string given.0))
                    (refused PostReply.period_not_found refl)
                    (elim (Bool-cases (is_valid_number b.sent_number)) [
                      | inl valid ↦
                          subst (λ v. P (number_tried given.0 (not v))) (sym valid)
                            (identified-elim object_id given.0
                              (apply_create_id object_id generated b.sent_id) valid)
                      | inr invalid ↦
                          subst (λ v. P (number_tried given.0 (not v))) (sym invalid)
                            (refused PostReply.invalid_comment_id refl)
                    ]))
          ])
