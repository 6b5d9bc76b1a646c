-- ===== src/Comments/Interleaved.antt =====
-- Requests that create comments without a number at the same time: between the update of the counter
-- and the save, protectedPost of api/controllers/comment.js lets other requests run. An entry is a
-- comment that has its number, with whether it is saved.
use eagle_api.Prelude.{
  ◌+◌, ◌≡◌, ◌∙◌, ◌∷◌, ◌||◌, Bool, List, Memᴰ, Option, Option-cases, String, [], any, ap, arith,
  false, filter, if◌then◌else◌, if-pick, includes, map, none, refl, some, subst, sym, true, ℕ, suc,
  zero, inl, inr,
}
use eagle_api.Comments.Status.{Comment}
use eagle_api.Comments.Creating.{
  PostBody, SentNumber, Store, count_of, get_next_comment_id_count, has_id, has_number, new_comment,
  raised,
}
use eagle_api.Comments.Numbers.{IsDistinct, IsNumbered, created-IsNumbered}

pub record Running (Content : Type 0) : Type 0 where
  pub periods : List (String × ℕ)
  pub entries : List (Comment Content × Bool)
  pub other_ids : List String

-- A request gets its number, or the entry at a position is saved.
pub data Move (Content : Type 0) : Type 0 where
  take_number : String → String → PostBody Content → Move Content
  save_entry : ℕ → Move Content

module _ {Content : Type 0} where
  abbrev pub saved_comments : List (Comment Content × Bool) → List (Comment Content)
  saved_comments entries = map (λ e. e.0) (filter (λ e. e.1) entries)

  -- The save of the entry at a position: one whose id is taken is dropped, and one that is saved is
  -- left. An entry whose save fails otherwise stays as one that is never saved.
  unfoldable pub save_at :
      (Comment Content → Bool) → ℕ → List (Comment Content × Bool) → List (Comment Content × Bool)
  save_at is_taken n [] = []
  save_at is_taken zero (e ∷ es) =
      if e.1 then e ∷ es else if is_taken e.0 then es else (e.0, true) ∷ es
  save_at is_taken (suc n) (e ∷ es) = e ∷ save_at is_taken n es

  unfoldable pub take_number_for :
      String → String → PostBody Content → Running Content → Running Content
  unfolding get_next_comment_id_count
  take_number_for id p b r =
      let next = get_next_comment_id_count p SentNumber.unsent r.periods in
      elim next.1 [
        | none ↦ r
        | some n ↦ record r {
          periods = next.0;
          entries = (new_comment id p n b, false) ∷ r.entries;
        }
      ]

  unfoldable pub move : Move Content → Running Content → Running Content
  unfolding take_number_for save_at
  move (take_number id p b) r = take_number_for id p b r
  move (save_entry n) r = record r {
    entries =
        save_at (λ c. any (has_id c.id) (saved_comments r.entries) || includes r.other_ids c.id) n
          r.entries;
  }

  unfoldable pub moves : List (Move Content) → Running Content → Running Content
  unfolding move
  moves [] r = r
  moves (m ∷ ms) r = moves ms (move m r)

  -- The comments that have a number, saved or not, as a store.
  abbrev pub numbered : Running Content → Store Content
  numbered r = record {
    periods = r.periods;
    comments = map (λ e. e.0) r.entries;
    other_ids = r.other_ids;
  }

  any-save_at :
      (q : Comment Content → Bool) (is_taken : Comment Content → Bool) (n : ℕ)
      (es : List (Comment Content × Bool))
      → any q (map (λ e. e.0) es) ≡ false
      → any q (map (λ e. e.0) (save_at is_taken n es)) ≡ false
  unfolding save_at
  any-save_at q is_taken n [] h = h
  any-save_at q is_taken zero (e ∷ es) h =
      if-pick (λ (ds : List (Comment Content × Bool)). any q (map (λ d. d.0) ds) ≡ false) e.1 h
        (if-pick (λ (ds : List (Comment Content × Bool)). any q (map (λ d. d.0) ds) ≡ false)
          (is_taken e.0) (ground (arith, h)) h)
  any-save_at q is_taken (suc n) (e ∷ es) h = ground (arith, h, any-save_at q is_taken n es)

  IsDistinct-save_at :
      (is_taken : Comment Content → Bool) (n : ℕ) (es : List (Comment Content × Bool))
      → IsDistinct (map (λ e. e.0) es)
      → IsDistinct (map (λ e. e.0) (save_at is_taken n es))
  unfolding save_at
  IsDistinct-save_at is_taken n [] h = h
  IsDistinct-save_at is_taken zero (e ∷ es) h =
      if-pick (λ (ds : List (Comment Content × Bool)). IsDistinct (map (λ d. d.0) ds)) e.1 h
        (if-pick (λ (ds : List (Comment Content × Bool)). IsDistinct (map (λ d. d.0) ds))
          (is_taken e.0) h.1 h)
  IsDistinct-save_at is_taken (suc n) (e ∷ es) h = (
    any-save_at (has_number (e.0).period (e.0).number) is_taken n es h.0,
    IsDistinct-save_at is_taken n es h.1,
  )

  Mem-save_at :
      (is_taken : Comment Content → Bool) (n : ℕ) (es : List (Comment Content × Bool))
      (c : Comment Content)
      → Memᴰ c (map (λ e. e.0) (save_at is_taken n es))
      → Memᴰ c (map (λ e. e.0) es)
  unfolding save_at
  Mem-save_at is_taken n [] c m = m
  Mem-save_at is_taken zero (e ∷ es) c m =
      if-pick
        (λ (ds : List (Comment Content × Bool)).
          Memᴰ c (map (λ d. d.0) ds) → Memᴰ c (map (λ d. d.0) (e ∷ es)))
        e.1 (λ k. k)
        (if-pick
          (λ (ds : List (Comment Content × Bool)).
            Memᴰ c (map (λ d. d.0) ds) → Memᴰ c (map (λ d. d.0) (e ∷ es)))
          (is_taken e.0) {y = (e.0, true) ∷ es} (λ k. Memᴰ.tail k) (λ k. k))
        m
  Mem-save_at is_taken (suc n) (e ∷ es) c (Memᴰ.head s) = Memᴰ.head s
  Mem-save_at is_taken (suc n) (e ∷ es) c (Memᴰ.tail m) = Memᴰ.tail (Mem-save_at is_taken n es c m)

  -- The request with the counter that it finds.
  abbrev taken_by :
      String → String → PostBody Content → Running Content → Option ℕ → Running Content
  taken_by id p b r none = r
  taken_by id p b r (some m) = record r {
    periods = raised p SentNumber.unsent r.periods;
    entries = (new_comment id p (m + 1) b, false) ∷ r.entries;
  }

  abbrev next_for : String → Running Content → Option ℕ → List (String × ℕ) × Option ℕ
  next_for p r none = (r.periods, none)
  next_for p r (some m) = (raised p SentNumber.unsent r.periods, some (m + 1))

  abbrev with_count :
      String → String → PostBody Content → Running Content → Option ℕ → Running Content
  with_count id p b r o = elim (next_for p r o).1 [
    | none ↦ r
    | some n ↦ record r {
      periods = (next_for p r o).0;
      entries = (new_comment id p n b, false) ∷ r.entries;
    }
  ]

  with_count-taken_by :
      (id p : String) (b : PostBody Content) (r : Running Content) (o : Option ℕ)
      → with_count id p b r o ≡ taken_by id p b r o
  with_count-taken_by id p b r none = refl
  with_count-taken_by id p b r (some m) = refl

  take_number_for-taken_by :
      (id p : String) (b : PostBody Content) (r : Running Content) (o : Option ℕ)
      → count_of p r.periods ≡ o
      → take_number_for id p b r ≡ taken_by id p b r o
  unfolding take_number_for get_next_comment_id_count
  take_number_for-taken_by id p b r o e =
      ap (with_count id p b r) e ∙ with_count-taken_by id p b r o

  move-IsNumbered :
      (m : Move Content) (r : Running Content)
      → IsNumbered (numbered r)
      → IsNumbered (numbered (move m r))
  unfolding move new_comment
  move-IsNumbered (take_number id p b) r h =
      let sent : PostBody Content = record b { sent_number = SentNumber.unsent } in
      elim (Option-cases (count_of p r.periods)) [
        | inl unknown ↦
            subst (λ (x : Running Content). IsNumbered (numbered x))
              (sym (take_number_for-taken_by id p b r none unknown)) h
        | inr found ↦
            subst (λ (x : Running Content). IsNumbered (numbered x))
              (sym (take_number_for-taken_by id p b r (some found.0) found.1))
              (created-IsNumbered sent (numbered r) id p found.0 h refl refl found.1)
      ]
  move-IsNumbered (save_entry n) r h =
      let is_taken : Comment Content → Bool =
        λ c. any (has_id c.id) (saved_comments r.entries) || includes r.other_ids c.id in
      (
        (λ c m k known. h.0 c (Mem-save_at is_taken n r.entries c m) k known),
        IsDistinct-save_at is_taken n r.entries h.1,
      )

  -- However the requests that create comments without a number interleave, no two of the comments of
  -- a period, saved or still to be saved, hold one number, and no number is above its period's counter,
  -- if it was so at the start.
  pub moves-IsNumbered :
      (ms : List (Move Content)) (r : Running Content)
      → IsNumbered (numbered r)
      → IsNumbered (numbered (moves ms r))
  unfolding moves
  moves-IsNumbered [] r h = h
  moves-IsNumbered (m ∷ ms) r h = moves-IsNumbered ms (move m r) (move-IsNumbered m r h)
