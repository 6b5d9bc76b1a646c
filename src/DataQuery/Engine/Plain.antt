-- ===== src/DataQuery/Engine/Plain.antt =====
-- runDataQuery of api/helpers/utils.js on a model that joins nothing: each row of the answer is one
-- of the collection's, projected.
use eagle_api.Prelude.{
  refl, ◌&&◌, ◌++◌, ◌∙◌, ◌≡◌, ◌∷◌, ◌⊎◌, Bool, Bool-cases, List, Memᴰ, Mem-drop, Mem-filter,
  Mem-take, Mem-unmap, String, [], ap, arith, false, filter, if◌then◌else◌, includes, inl, inr,
  length, map, none, some, subst, suc, sym, true,
}
use eagle_api.Mongo.{Field, Mongo, Op, Query, Row, at}
use eagle_api.ParentRead.{parent_read_match}
use eagle_api.ParentRead.Gates.{lets_through}
use eagle_api.DataQuery.{
  DataQuery, Stage, aggregations, gate_stages, limit_of, or_zero, projection, sort_stages,
}
use eagle_api.DataQuery.Engine.{Engine, is_readable, page, restrict, rows, total_items}
use eagle_api.DataQuery.Engine.Readable.{
  Mem-sort_stages, aggregations-answer, gathered, has_row_steps, listing, restrict-is_readable,
  run_all, window,
}

-- A row that is projected once more shows the same.
restrict-restrict :
    (fs : List String) (x : Row) (p : String) → restrict fs (restrict fs x) p ≡ restrict fs x p
restrict-restrict fs x p = elim (Bool-cases (includes fs p)) [
  | inl inside ↦ ap (λ b. if b then restrict fs x p else Field.absent) inside
  | inr outside ↦
      ap (λ b. if b then restrict fs x p else Field.absent) outside
      ∙ sym (ap (λ b. if b then x p else Field.absent) outside)
]

pub projected_lem :
    (fs : List String) (x y : Row) (p : String)
    → (y ≡ restrict fs x) ⊎ (y ≡ restrict fs (restrict fs x))
    → y p ≡ restrict fs x p
projected_lem fs x y p (inl e) = ap (λ r. r p) e
projected_lem fs x y p (inr e) = ap (λ r. r p) e ∙ restrict-restrict fs x p

length-choose :
    (b : Bool) (x y : Row) (xs ys : List Row)
    → length xs ≡ length ys
    → length (if b then x ∷ xs else xs) ≡ length (if b then y ∷ ys else ys)
length-choose true x y xs ys h = ap suc h
length-choose false x y xs ys h = h

pub filter-ext :
    (p q : Row → Bool) (xs : List Row) → ((x : Row) → p x ≡ q x) → filter p xs ≡ filter q xs
filter-ext p q [] h = refl
filter-ext p q (x ∷ xs) h =
    ap (λ b. if b then x ∷ filter p xs else filter p xs) (h x)
    ∙ ap (λ ys. if q x then x ∷ ys else ys) (filter-ext p q xs h)

pub filter-filter :
    (p q : Row → Bool) (xs : List Row) → filter p (filter q xs) ≡ filter (λ x. p x && q x) xs
filter-filter p q [] = refl
filter-filter p q (x ∷ xs) = elim (Bool-cases (q x)) [
  | inl kept ↦
      ap (λ b. filter p (if b then x ∷ filter q xs else filter q xs)) kept
      ∙ ap (λ ys. if p x then x ∷ ys else ys) (filter-filter p q xs)
      ∙ ap (λ b. if b then x ∷ filter (λ x. p x && q x) xs else filter (λ x. p x && q x) xs)
          (ground (arith, kept))
  | inr out ↦
      ap (λ b. filter p (if b then x ∷ filter q xs else filter q xs)) out
      ∙ filter-filter p q xs
      ∙ ap (λ b. if b then x ∷ filter (λ x. p x && q x) xs else filter (λ x. p x && q x) xs)
          {x = false} (ground (arith, out))
]

filter-all : (p : Row → Bool) (xs : List Row) → ((x : Row) → p x ≡ true) → filter p xs ≡ xs
filter-all p [] h = refl
filter-all p (x ∷ xs) h =
    ap (λ b. if b then x ∷ filter p xs else filter p xs) (h x)
    ∙ ap (λ ys. x ∷ ys) (filter-all p xs h)

module _ {mongo : Mongo} (engine : Engine mongo) where
  -- A projection that keeps `read` leaves the number of readable rows.
  pub length-filter-restrict :
      (roles fields : List String) (xs : List Row)
      → includes fields "read" ≡ true
      → length (filter (is_readable roles) (map (restrict fields) xs))
        ≡ length (filter (is_readable roles) xs)
  length-filter-restrict roles fields [] h = refl
  length-filter-restrict roles fields (x ∷ xs) h =
      ap
        (λ b. length (
          if b
          then restrict fields x ∷ filter (is_readable roles) (map (restrict fields) xs)
          else filter (is_readable roles) (map (restrict fields) xs)))
        (restrict-is_readable engine roles fields x h)
      ∙ length-choose (is_readable roles x) (restrict fields x) x _ _
          (length-filter-restrict roles fields xs h)

  pub Mem-window :
      (q : DataQuery) (ids : List String) (xs ys : List Row) (x : Row)
      → gathered engine q ids xs ≡ map (restrict (projection q)) ys
      → Memᴰ x (window engine q (listing engine q ids xs))
      → (y : Row) × Memᴰ y ys
        × (is_readable q.roles y ≡ true)
        × ((x ≡ restrict (projection q) y)
            ⊎ (x ≡ restrict (projection q) (restrict (projection q) y)))
  Mem-window q ids xs ys x plain m =
      let fields = projection q in
      let (z, n, shape) =
        Mem-sort_stages engine fields q.sort_keys _ x
          (Mem-drop (or_zero q.skip_rows) _ x (Mem-take (limit_of q.limit_rows) _ x m)) in
      let (gathered_row, readable) =
        Mem-filter (is_readable q.roles) (gathered engine q ids xs) z n in
      let (y, origin, same) =
        Mem-unmap (restrict fields) ys z (subst (Memᴰ z) plain gathered_row) in
      let read : is_readable q.roles y ≡ true =
        sym (ap (is_readable q.roles) same ∙ restrict-is_readable engine q.roles fields y refl)
        ∙ readable in
      elim shape [
        | inl e ↦ (y, origin, read, inl (e ∙ same))
        | inr e ↦ (y, origin, read, inr (e ∙ ap (restrict fields) same))
      ]

  -- The gate of the parents is a filter.
  pub gate_stages-run :
      (ids : List String) (rest : List Stage) (xs : List Row)
      → run_all engine (gate_stages ids ++ rest) xs
        ≡ run_all engine rest
            (filter (lets_through mongo (parent_read_match (some ids) "project")) xs)
  unfolding parent_read_match
  gate_stages-run [] rest xs =
      ap (run_all engine rest) (sym (filter-all (λ r. true) xs (λ r. refl)))
  gate_stages-run (i ∷ ids) rest xs =
      let q : Query = at "project" (Op.none_of (i ∷ ids)) in
      ap (run_all engine rest)
        (engine.run-match_query q xs ∙ filter-ext (mongo.matches q) _ xs (λ r. ground arith))

  -- An unsorted query that counts has as its total the number of the rows that the caller may read.
  pub total_items-plain :
      (q : DataQuery) (xs ys : List Row)
      → gathered engine q [] xs ≡ map (restrict (projection q)) ys
      → q.sort_warm_up ≡ none
      → has_row_steps q ≡ true
      → q.sort_keys ≡ none
      → q.count ≡ true
      → total_items (engine.answer (aggregations q []) xs)
        ≡ length (filter (is_readable q.roles) ys)
  total_items-plain q xs ys plain w h unsorted counted =
      let listed = listing engine q [] xs in
      ap total_items (aggregations-answer engine q [] xs w h)
      ∙ ap
          (λ c. total_items (
            if c
            then page (length listed) (window engine q listed)
            else rows (window engine q listed)))
          counted
      ∙ ap
          (λ keys. length (
            run_all engine (sort_stages (projection q) keys)
              (filter (is_readable q.roles) (gathered engine q [] xs))))
          unsorted
      ∙ ap (λ zs. length (filter (is_readable q.roles) zs)) plain
      ∙ length-filter-restrict q.roles (projection q) ys refl
