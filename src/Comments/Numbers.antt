-- ===== src/Comments/Numbers.antt =====
-- The numbers of a period's comments under protectedPost of api/controllers/comment.js.
use eagle_api.Prelude.{
  ◌+◌, ◌<◌, ◌===◌, ◌∙◌, ◌≡◌, ◌≤◌, ◌∷◌, Bool, Bool-cases, List, Memᴰ, Option, String, [], any, arith,
  eq_iff, false, inl, inr, none, refl, some, some-injective, subst, sym, true, ℕ,
}
use eagle_api.Comments.Status.{
  Comment, set_permissions_from_eao_status, permissions_from_eao_status, with_permissions,
}
use eagle_api.Comments.Counters.{count_of-raised, count_of-raised_self, number_from-le}
use eagle_api.Comments.Creating.{
  PostBody, SentNumber, Store, count_of, has_number, is_taken, is_valid_number, new_comment,
  number_from, protected_post, raise, raised,
}
use eagle_api.Comments.Outcomes.{protected_post-elim}

module _ {Content : Type 0} where
  -- No two comments of a period have one number.
  abbrev pub IsDistinct : List (Comment Content) → Type 0
  IsDistinct [] = Unit
  IsDistinct (c ∷ cs) = (any (has_number c.period c.number) cs ≡ false) × IsDistinct cs

  -- Each number is at most the counter of its period.
  abbrev pub IsCounted : Store Content → Type 0
  IsCounted s =
      (c : Comment Content)
      → Memᴰ c s.comments
      → (n : ℕ) → count_of c.period s.periods ≡ some n
      → c.number ≤ n

  abbrev pub IsNumbered : Store Content → Type 0
  IsNumbered s = IsCounted s × IsDistinct s.comments

  IsCounted-raised :
      (s : Store Content) (p : String) (sent : SentNumber)
      → IsCounted s
      → IsCounted (record s { periods = raised p sent s.periods })
  IsCounted-raised s p sent h c m n known =
      let (j, before, le) = count_of-raised p c.period sent s.periods n known in
      let below = h c m j before in omega (arith, below, le)

  -- A number above every number of the period is free.
  above_free :
      (p : String) (m n : ℕ) (cs : List (Comment Content))
      → ((c : Comment Content) → Memᴰ c cs → c.period ≡ p → c.number ≤ m)
      → m < n
      → any (has_number p n) cs ≡ false
  above_free p m n [] h lt = refl
  above_free p m n (c ∷ cs) h lt =
      let later = above_free p m n cs (λ d k. h d (Memᴰ.tail k)) lt in
      elim (Bool-cases (c.period === p)) [
        | inr other ↦ ground (arith, later, other)
        | inl same ↦
            let le = h c (Memᴰ.head refl) ((eq_iff c.period p).0 same) in
            ground (arith, later, le, lt)
      ]

  assigned_free :
      (sent : SentNumber) (s : Store Content) (p : String) (m : ℕ)
      → IsCounted s
      → is_valid_number sent ≡ true
      → is_taken p sent s.comments ≡ false
      → count_of p s.periods ≡ some m
      → any (has_number p (number_from sent (raise sent m))) s.comments ≡ false
  assigned_free SentNumber.unsent s p m h valid free known =
      above_free p m (m + 1) s.comments
        (λ c k same. h c k m (subst (λ q. count_of q s.periods ≡ some m) (sym same) known))
        (omega arith)
  assigned_free SentNumber.malformed s p m h valid free known = absurd (ground (arith, valid))
  assigned_free (SentNumber.number n) s p m h valid free known =
      let kept : n ≡ number_from (SentNumber.number n) (raise (SentNumber.number n) m) =
        ground (arith, valid) in
      subst (λ k. any (has_number p k) s.comments ≡ false) kept free

  with_permissions-number :
      (o : Option (String × List String)) (c : Comment Content)
      → (with_permissions o c).number ≡ c.number
  with_permissions-number none c = refl
  with_permissions-number (some p) c = refl

  with_permissions-period :
      (o : Option (String × List String)) (c : Comment Content)
      → (with_permissions o c).period ≡ c.period
  with_permissions-period none c = refl
  with_permissions-period (some p) c = refl

  pub new_comment-number :
      (id p : String) (n : ℕ) (b : PostBody Content) → (new_comment id p n b).number ≡ n
  unfolding new_comment set_permissions_from_eao_status
  new_comment-number id p n b =
      with_permissions-number (permissions_from_eao_status b.sent_status) _

  pub new_comment-period :
      (id p : String) (n : ℕ) (b : PostBody Content) → (new_comment id p n b).period ≡ p
  unfolding new_comment set_permissions_from_eao_status
  new_comment-period id p n b =
      with_permissions-period (permissions_from_eao_status b.sent_status) _

  IsCounted-cons :
      (c : Comment Content) (s : Store Content)
      → IsCounted s
      → ((n : ℕ) → count_of c.period s.periods ≡ some n → c.number ≤ n)
      → IsCounted (record s { comments = c ∷ s.comments })
  IsCounted-cons c s h new d (Memᴰ.tail m) n known = h d m n known
  IsCounted-cons c s h new d (Memᴰ.head e) n known =
      subst (λ (x : Comment Content). count_of x.period s.periods ≡ some n → x.number ≤ n) (sym e)
        (new n) known

  pub created-IsNumbered :
      (b : PostBody Content) (s : Store Content) (id p : String) (m : ℕ)
      → IsNumbered s
      → is_valid_number b.sent_number ≡ true
      → is_taken p b.sent_number s.comments ≡ false
      → count_of p s.periods ≡ some m
      → let c = new_comment id p (number_from b.sent_number (raise b.sent_number m)) b in
        IsNumbered
          (record s { periods = raised p b.sent_number s.periods; comments = c ∷ s.comments })
  created-IsNumbered b s id p m h valid free known =
      let sent = b.sent_number in
      let n : ℕ = number_from sent (raise sent m) in
      let c : Comment Content = new_comment id p n b in
      let number : c.number ≡ n = new_comment-number id p n b in
      let period : c.period ≡ p = new_comment-period id p n b in
      let counted : IsCounted
          (record s { periods = raised p sent s.periods; comments = c ∷ s.comments }) =
        IsCounted-cons c (record s { periods = raised p sent s.periods })
          (IsCounted-raised s p sent h.0)
          (λ k looked.
            let exact : raise sent m ≡ k = some-injective (
              sym (count_of-raised_self p sent s.periods m known)
              ∙ subst (λ q. count_of q (raised p sent s.periods) ≡ some k) period looked) in
            let le = number_from-le sent m in omega (arith, number, exact, le)) in
      (
        counted,
        (
          subst (λ q. any (has_number q c.number) s.comments ≡ false) (sym period)
              (subst (λ k. any (has_number p k) s.comments ≡ false) (sym number)
                (assigned_free sent s p m h.0 valid free known)),
          h.1,
        ),
      )

  -- If no two comments of a period have one number and no number is above its period's counter, then
  -- so it is after any request to create a comment, whatever it
  -- sends, whether its save goes through, and whatever it is replied.
  pub protected_post-IsNumbered :
      (goes_through : Bool) (is_valid : String → Bool) (object_id : String → String)
      (generated : String) (b : PostBody Content) (s : Store Content)
      → IsNumbered s
      → IsNumbered (protected_post goes_through is_valid object_id generated b s).0
  protected_post-IsNumbered goes_through is_valid object_id generated b s h =
      protected_post-elim goes_through b s (λ r. IsNumbered r.0) (λ r refused. h)
        (λ p. (IsCounted-raised s p b.sent_number h.0, h.1))
        (λ p. (IsCounted-raised s p b.sent_number h.0, h.1))
        (λ id p m valid free known. created-IsNumbered b s id p m h valid free known) is_valid
        object_id generated
