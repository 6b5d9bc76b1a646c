-- ===== src/Comments/Created.antt =====
-- What a request to create a comment leaves and replies: protectedPost of
-- api/controllers/comment.js.
use eagle_api.Prelude.{
  ◌<◌, ◌===◌, ◌∙◌, ◌≡◌, ◌∷◌, Bool, Bool-cases, Memᴰ, Option, String, arith, false, inl, inr, none,
  refl, some, subst, sym, true, ℕ, is_name,
}
use eagle_api.Comments.Status.{
  Comment, set_permissions_from_eao_status, permissions_from_eao_status,
}
use eagle_api.Comments.Creating.{
  PostBody, PostReply, SentNumber, Store, count_of, is_valid_number, new_comment, number_from,
  protected_post, raise, raised,
}
use eagle_api.Comments.Outcomes.{is_refusal, protected_post-elim}
use eagle_api.Comments.Numbers.{IsCounted, new_comment-number, new_comment-period}
use eagle_api.Comments.Readers.{
  IsReadByStatus, permissions-IsPermission, with_permissions-IsReadByStatus,
}

sent_is_kept :
    (sent : SentNumber) (m n : ℕ)
    → is_valid_number sent ≡ true
    → sent ≡ SentNumber.number n
    → number_from sent (raise sent m) ≡ n
sent_is_kept sent m n valid e =
    subst (λ k. is_valid_number k ≡ true → number_from k (raise k m) ≡ n) (sym e)
      (λ v. ground (arith, v)) valid

unsent_is_next :
    (sent : SentNumber) (m : ℕ) → sent ≡ SentNumber.unsent → m < number_from sent (raise sent m)
unsent_is_next sent m e = subst (λ k. m < number_from k (raise k m)) (sym e) (omega arith)

-- A status that sets nothing is not "Published".
unset_is_not_published :
    (status : Option String)
    → permissions_from_eao_status status ≡ none
    → is_name status "Published" ≡ false
unfolding is_name permissions_from_eao_status
unset_is_not_published none e = refl
unset_is_not_published (some status) e = elim (Bool-cases (status === "Published")) [
  | inr other ↦ other
  | inl same ↦ absurd (ground (arith, e, same))
]

module _ {Content : Type 0} where
  new_comment-IsReadByStatus :
      (id p : String) (n : ℕ) (b : PostBody Content) → IsReadByStatus (new_comment id p n b)
  unfolding new_comment set_permissions_from_eao_status
  new_comment-IsReadByStatus id p n b =
      with_permissions-IsReadByStatus (permissions_from_eao_status b.sent_status) _
        (permissions-IsPermission b.sent_status) (λ e. sym (unset_is_not_published b.sent_status e))

  -- What a created comment is: the first of the comments, the others as they were, with
  -- the number that was sent or with one above the number of every comment of its period, and readable
  -- by the public exactly if its status is "Published".
  abbrev pub IsCreated : PostBody Content → Store Content → Store Content → Comment Content → Type 0
  IsCreated b before after c =
      (after.comments ≡ c ∷ before.comments)
      × IsReadByStatus c
      × ((n : ℕ) → b.sent_number ≡ SentNumber.number n → c.number ≡ n)
      × (b.sent_number ≡ SentNumber.unsent
          → (d : Comment Content) → Memᴰ d before.comments
          → d.period ≡ c.period
          → d.number < c.number)

  -- The same store, but for the counter of one period.
  abbrev pub IsRaised : PostBody Content → Store Content → Store Content → Type 0
  IsRaised b before after =
      (p : String) × (after ≡ record before { periods = raised p b.sent_number before.periods })

  -- What a request leaves, by its reply.
  abbrev pub IsOutcome :
      PostBody Content → Store Content → Store Content × PostReply Content → Type 0
  IsOutcome b s (after, PostReply.created c) = IsCreated b s after c
  IsOutcome b s (after, PostReply.create_id_taken) = IsRaised b s after
  IsOutcome b s (after, PostReply.not_saved) = IsRaised b s after
  IsOutcome b s (after, _) = after ≡ s

  refused-IsOutcome :
      (b : PostBody Content) (s : Store Content) (r : PostReply Content)
      → is_refusal r ≡ true
      → IsOutcome b s (s, r)
  refused-IsOutcome b s PostReply.bad_request h = refl
  refused-IsOutcome b s PostReply.period_not_found h = refl
  refused-IsOutcome b s PostReply.invalid_comment_id h = refl
  refused-IsOutcome b s PostReply.invalid_create_id h = refl
  refused-IsOutcome b s PostReply.comment_id_taken h = refl
  refused-IsOutcome b s PostReply.create_id_taken h = absurd (ground (arith, h))
  refused-IsOutcome b s PostReply.not_saved h = absurd (ground (arith, h))
  refused-IsOutcome b s (PostReply.created c) h = absurd (ground (arith, h))

  -- If no number is above its period's counter: a created comment comes to the others, which stay as
  -- they were, with the number that was sent or, where none was, with one above every number of its
  -- period, and is readable by the public exactly if its status is "Published"; a save that is refused
  -- for a taken id, or fails otherwise, leaves the store but for the counter of a period, which is
  -- raised; and every other refusal leaves the whole store.
  pub protected_post-IsOutcome :
      (goes_through : Bool) (is_valid : String → Bool) (object_id : String → String)
      (generated : String) (b : PostBody Content) (s : Store Content)
      → IsCounted s
      → IsOutcome b s (protected_post goes_through is_valid object_id generated b s)
  protected_post-IsOutcome goes_through is_valid object_id generated b s h =
      protected_post-elim goes_through b s (IsOutcome b s) (refused-IsOutcome b s) (λ p. (p, refl))
        (λ p. (p, refl))
        (λ id p m valid free known. (
          refl,
          new_comment-IsReadByStatus id p _ b,
          (λ n sent. new_comment-number id p _ b ∙ sent_is_kept b.sent_number m n valid sent),
          (λ unsent d stored same.
              let counted = h d stored m (
                subst (λ q. count_of q s.periods ≡ some m)
                  (sym (same ∙ new_comment-period id p _ b)) known) in
              let next = unsent_is_next b.sent_number m unsent in
              let number =
                new_comment-number id p (number_from b.sent_number (raise b.sent_number m)) b in
              omega (arith, counted, next, number)),
        ))
        is_valid object_id generated
