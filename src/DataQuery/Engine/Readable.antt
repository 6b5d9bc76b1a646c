-- ===== src/DataQuery/Engine/Readable.antt =====
-- What runDataQuery (api/helpers/utils.js) answers: only rows that the caller may read.
use mathlib.Core.List.{append_assoc}
use eagle_api.Prelude.{
  ◌⊎◌, inl, inr, ◌≡◌, ◌∷◌, ◌++◌, ◌∙◌, Bool, Bool-cases, List, Memᴰ, Option, String, [], all, ap,
  arith, drop, false, filter, if◌then◌else◌, includes, inl, inr, length, none, refl, some, subst,
  sym, take, true, Mem-unmap, reverse, Mem-Permᴰ, all-append, all-reverse, ◌&&◌,
}
use eagle_api.Mongo.{Field, Mongo, Row}
use eagle_api.ParentRead.{parent_read_match}
use eagle_api.DataQuery.{
  with_id_tiebreak, gate_stages, shape_for, shape_stages, only_if, populate, DataQuery, Stage,
  aggregations, end_stages, facet, front_stages, limit, limit_of, optional, or_zero, page_stages,
  project, projection, redact, skip, sort, sort_stages, unwrap_total,
}
use eagle_api.DataQuery.Engine.{
  Engine, shares_read, is_readable, is_row_stage, page, restrict, rows,
}

module _ {mongo : Mongo} (engine : Engine mongo) where
  open engine use {run, answer}

  -- The rows after stages that make no page.
  abbrev pub run_all : List Stage → List Row → List Row
  run_all [] xs = xs
  run_all (s ∷ ss) xs = run_all ss (run s xs)

  pub answer-append :
      (front rest : List Stage) (xs : List Row)
      → all is_row_stage front ≡ true
      → answer (front ++ rest) xs ≡ answer rest (run_all front xs)
  answer-append [] rest xs h = refl
  answer-append (s ∷ ss) rest xs h =
      engine.answer-cons s (ss ++ rest) xs (ground (arith, h))
      ∙ answer-append ss rest (run s xs) (ground (arith, h))

  pub restrict-is_readable :
      (roles fields : List String) (row : Row)
      → includes fields "read" ≡ true
      → is_readable roles (restrict fields row) ≡ is_readable roles row
  restrict-is_readable roles fields row h =
      ap (λ b. shares_read roles (if b then row "read" else Field.absent)) h

  -- The sort and the projection after it keep what they are given, restricted to the fields.
  abbrev pub ordered : DataQuery → List Row → List Row
  ordered q xs = run_all (sort_stages (projection q) q.sort_keys) xs

  -- Each row after them is a row before them, as it was or projected.
  pub Mem-sort_stages :
      (fields : List String) (keys : Option (List (String × Bool))) (xs : List Row) (x : Row)
      → Memᴰ x (run_all (sort_stages fields keys) xs)
      → (y : Row) × Memᴰ y xs × ((x ≡ y) ⊎ (x ≡ restrict fields y))
  Mem-sort_stages fields none xs x m = (x, m, inl refl)
  Mem-sort_stages fields (some []) xs x m =
      let (y, n, e) =
        Mem-unmap (restrict fields) xs x (subst (Memᴰ x) (engine.run-project fields xs) m) in
      (y, n, inr e)
  Mem-sort_stages fields (some (k ∷ ks)) xs x m =
      let keys : List (String × Bool) = with_id_tiebreak (k ∷ ks) in
      let (y, n, e) =
        Mem-unmap (restrict fields) (run (sort keys) xs) x
          (subst (Memᴰ x) (engine.run-project fields (run (sort keys) xs)) m) in
      (y, Mem-Permᴰ y (engine.run-sort keys xs) n, inr e)

  pub ordered-is_readable :
      (q : DataQuery) (xs : List Row) (x : Row)
      → ((y : Row) → Memᴰ y xs → is_readable q.roles y ≡ true)
      → Memᴰ x (ordered q xs)
      → is_readable q.roles x ≡ true
  ordered-is_readable q xs x h m =
      let (y, n, same) = Mem-sort_stages (projection q) q.sort_keys xs x m in
      elim same [
        | inl e ↦ ap (is_readable q.roles) e ∙ h y n
        | inr e ↦
            ap (is_readable q.roles) e ∙ restrict-is_readable q.roles (projection q) y refl ∙ h y n
      ]

  -- The page of the rows.
  abbrev pub window : DataQuery → List Row → List Row
  window q xs = take (limit_of q.limit_rows) (drop (or_zero q.skip_rows) xs)

  page_stages-answer :
      (q : DataQuery) (xs : List Row)
      → answer (page_stages q) xs
        ≡ (if q.count then page (length xs) (window q xs) else rows (window q xs))
  page_stages-answer q xs = elim (Bool-cases q.count) [
    | inl counted ↦
        ap
          (λ b.
            answer
              (if b
                then facet q.skip_rows (limit_of q.limit_rows) ∷ unwrap_total ∷ []
                else skip (or_zero q.skip_rows) ∷ limit (limit_of q.limit_rows) ∷ [])
              xs)
          counted
        ∙ engine.answer-facet q.skip_rows (limit_of q.limit_rows) xs
        ∙ ap (λ b. if b then page (length xs) (window q xs) else rows (window q xs)) (sym counted)
    | inr plain ↦
        ap
          (λ b.
            answer
              (if b
                then facet q.skip_rows (limit_of q.limit_rows) ∷ unwrap_total ∷ []
                else skip (or_zero q.skip_rows) ∷ limit (limit_of q.limit_rows) ∷ [])
              xs)
          plain
        ∙ answer-append (skip (or_zero q.skip_rows) ∷ limit (limit_of q.limit_rows) ∷ []) [] xs refl
        ∙ engine.answer-nil _
        ∙ ap rows (
            engine.run-limit (limit_of q.limit_rows) (run (skip (or_zero q.skip_rows)) xs)
            ∙ ap (take (limit_of q.limit_rows)) (engine.run-skip (or_zero q.skip_rows) xs))
        ∙ ap (λ b. if b then page (length xs) (window q xs) else rows (window q xs)) (sym plain)
  ]

  sort_stages-is_row_stage :
      (fields : List String) (keys : Option (List (String × Bool)))
      → all is_row_stage (sort_stages fields keys) ≡ true
  sort_stages-is_row_stage fields none = refl
  sort_stages-is_row_stage fields (some []) = refl
  sort_stages-is_row_stage fields (some (k ∷ ks)) = refl

  -- From the redaction on, for a query without a sort warm-up.
  pub end_stages-answer :
      (q : DataQuery) (xs : List Row)
      → q.sort_warm_up ≡ none
      → let ys = ordered q (filter (is_readable q.roles) xs) in
        answer (end_stages q) xs
        ≡ (if q.count then page (length ys) (window q ys) else rows (window q ys))
  end_stages-answer q xs h =
      let tail : List Stage = sort_stages (projection q) q.sort_keys ++ page_stages q in
      ap (λ o. answer (redact q.roles ∷ (optional o ++ tail)) xs) h
      ∙ engine.answer-cons (redact q.roles) tail xs refl
      ∙ ap (answer tail) (engine.run-redact q.roles xs)
      ∙ answer-append (sort_stages (projection q) q.sort_keys) (page_stages q)
          (filter (is_readable q.roles) xs) (sort_stages-is_row_stage (projection q) q.sort_keys)
      ∙ page_stages-answer q _

all-only_if :
    (p : Stage → Bool) (b : Bool) (ss : List Stage) → all p ss ≡ true → all p (only_if b ss) ≡ true
all-only_if p true ss h = h
all-only_if p false ss h = refl

gate_stages-is_row_stage : (ids : List String) → all is_row_stage (gate_stages ids) ≡ true
unfolding parent_read_match
gate_stages-is_row_stage [] = refl
gate_stages-is_row_stage (i ∷ ids) = refl

-- Two parts that make no page.
append-is_row_stage :
    (xs ys : List Stage)
    → all is_row_stage xs ≡ true
    → all is_row_stage ys ≡ true
    → all is_row_stage (xs ++ ys) ≡ true
append-is_row_stage xs ys h k = ground (arith, all-append is_row_stage xs ys, h, k)

shape_for-is_row_stage : (p o a : Bool) → all is_row_stage (shape_for p o a) ≡ true
unfolding shape_for
shape_for-is_row_stage true true true = refl
shape_for-is_row_stage true true false = refl
shape_for-is_row_stage true false true = refl
shape_for-is_row_stage true false false = refl
shape_for-is_row_stage false true true = refl
shape_for-is_row_stage false true false = refl
shape_for-is_row_stage false false true = refl
shape_for-is_row_stage false false false = refl

-- The caller's own steps make no page.
abbrev pub has_row_steps : DataQuery → Bool
has_row_steps q = all is_row_stage q.pre_steps && all is_row_stage (optional q.post_step)

abbrev pub leading_stages : DataQuery → List String → List Stage
leading_stages q ids = reverse q.pre_steps ++ front_stages q ids

leading_stages-is_row_stage :
    (q : DataQuery) (ids : List String)
    → has_row_steps q ≡ true
    → all is_row_stage (leading_stages q ids) ≡ true
unfolding front_stages
leading_stages-is_row_stage q ids h =
    let populated : List Stage = only_if q.populate_proponent (populate "proponent" "proponent") in
    let last : List Stage = project (projection q) ∷ (populated ++ optional q.post_step) in
    append-is_row_stage (reverse q.pre_steps) (front_stages q ids)
      (all-reverse is_row_stage q.pre_steps ∙ ground (arith, h))
      (append-is_row_stage (gate_stages ids) (shape_stages q ++ last) (gate_stages-is_row_stage ids)
        (append-is_row_stage (shape_stages q) last (shape_for-is_row_stage _ _ _) (
          append-is_row_stage populated (optional q.post_step)
            (all-only_if is_row_stage q.populate_proponent _ refl) (ground (arith, h)))))

module _ {mongo : Mongo} (engine : Engine mongo) where
  -- The rows that reach the redaction.
  abbrev pub gathered : DataQuery → List String → List Row → List Row
  gathered q ids xs = run_all engine (leading_stages q ids) xs

  -- The readable rows that the pages are cut from.
  abbrev pub listing : DataQuery → List String → List Row → List Row
  listing q ids xs = ordered engine q (filter (is_readable q.roles) (gathered q ids xs))

  pub aggregations-answer :
      (q : DataQuery) (ids : List String) (xs : List Row)
      → q.sort_warm_up ≡ none
      → has_row_steps q ≡ true
      → let ys = listing q ids xs in
        engine.answer (aggregations q ids) xs
        ≡ (if q.count then page (length ys) (window engine q ys) else rows (window engine q ys))
  unfolding aggregations
  aggregations-answer q ids xs w h =
      ap (λ ss. engine.answer ss xs)
        (sym (append_assoc (reverse q.pre_steps) (front_stages q ids) (end_stages q)))
      ∙ answer-append engine (leading_stages q ids) (end_stages q) xs
          (leading_stages-is_row_stage q ids h)
      ∙ end_stages-answer engine q (gathered q ids xs) w
