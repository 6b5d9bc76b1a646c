-- ===== src/DataQuery/Engine/Paging.antt =====
-- The pages of a sorted query, each read by a request of its own (runDataQuery of
-- api/helpers/utils.js). A request finds the rows in whatever order, and a sort leaves rows that its
-- keys do not tell apart in whatever order: each request has an engine of its own. What tells rows
-- apart is `_id`, which withIdTiebreak puts behind the keys.
use mathlib.Core.List.Permᴰ
use mathlib.Core.List.{Permᴰ}
use eagle_api.Prelude.{
  ◌≡◌, ◌+◌, ◌<◌, ◌*◌, ◌∷◌, ◌++◌, ◌∙◌, ◌||◌, Bool, Bool-cases, List, Mem-Permᴰ, Option, String, [],
  ap, arith, drop, false, filter, inl, inr, map, none, refl, some, sym, take, true, zero, suc, ℕ,
}
use eagle_api.Mongo.{Mongo, Row}
use eagle_api.ParentRead.{Epic}
use eagle_api.DataQuery.{
  DataQuery, front_stages, has_key, limit_of, projection, sort, sort_stages, with_id_tiebreak,
}
use eagle_api.DataQuery.Params.{
  ℤ, get_skip_limit_parameters, limit_from, negsuc, page_size_of, pos, skip_of,
}
use eagle_api.DataQuery.Engine.{Engine, is_readable, restrict, run_data_query, unreadable_parents}
use eagle_api.DataQuery.Engine.Readable.{gathered, has_row_steps, listing, run_all}
use eagle_api.DataQuery.Engine.Orders.{IsDistinct, IsDistinct-Permᴰ, IsOrdered, ordered_unique}
use eagle_api.DataQuery.Engine.Pages.{answered, answered-run_data_query}

take-nil {ℓ} : {A : Type ℓ} (n : ℕ) → take {A = A} n [] ≡ []
take-nil zero = refl
take-nil (suc n) = refl

take-add {ℓ} :
    {A : Type ℓ} (m n : ℕ) (xs : List A) → take (m + n) xs ≡ take m xs ++ take n (drop m xs)
take-add zero n xs = let e : 0 + n ≡ n = omega arith in ap (λ m. take m xs) e
take-add (suc m) n [] = take-nil (suc m + n) ∙ sym (take-nil n)
take-add (suc m) n (x ∷ xs) =
    let e : suc m + n ≡ suc (m + n) = omega arith in
    ap (λ k. take k (x ∷ xs)) e ∙ ap (λ ys. x ∷ ys) (take-add m n xs)

limit_of-some : (n : ℕ) → 0 < n → limit_of (some n) ≡ n
limit_of-some zero h = ground (arith, h)
limit_of-some (suc n) h = refl

page_size_of-positive : (size : Option ℤ) → 0 < page_size_of size
page_size_of-positive none = omega arith
page_size_of-positive (some (negsuc n)) = omega arith
page_size_of-positive (some (pos zero)) = omega arith
page_size_of-positive (some (pos (suc n))) = omega arith

has_key-append :
    (key : String) (ks ls : List (String × Bool))
    → has_key key (ks ++ ls) ≡ (has_key key ks || has_key key ls)
has_key-append key [] ls = refl
has_key-append key (k ∷ ks) ls = ground (arith, has_key-append key ks ls)

with_id_tiebreak-has_key :
    (keys : List (String × Bool)) → has_key "_id" (with_id_tiebreak keys) ≡ true
unfolding with_id_tiebreak
with_id_tiebreak-has_key keys = elim (Bool-cases (has_key "_id" keys)) [
  | inl there ↦ ground (arith, there)
  | inr missing ↦ ground (arith, missing, has_key-append "_id" keys (("_id", false) ∷ []))
]

module _ {mongo : Mongo} (engines : ℕ → Engine mongo) (q : DataQuery) (ids : List String)
    (xs : List Row) where
  -- The rows that the caller may read, as a request finds them.
  abbrev pub found_by : ℕ → List Row
  found_by m = filter (is_readable q.roles) (gathered (engines m) q ids xs)

  -- What MongoDB documents of its sort: the order is that of the keys, and rows that no key tells
  -- apart have the same value under each.
  pub record IsSorting (precedes : List (String × Bool) → Row → Row → Type 0) : Type 0 where
    pub ordered_by :
        (m : ℕ) (keys : List (String × Bool))
        → IsOrdered (precedes keys) ((engines m).run (sort keys) (found_by m))
    pub tells_ids :
        (keys : List (String × Bool)) (x y : Row)
        → has_key "_id" keys ≡ true
        → precedes keys x y
        → precedes keys y x
        → x "_id" ≡ y "_id"

  module _ (precedes : List (String × Bool) → Row → Row → Type 0) (sorting : IsSorting precedes)
      (found : List Row) (distinct : IsDistinct found)
      (same_rows : (m : ℕ) → Permᴰ (found_by m) found) where
    sorted-same :
        (m : ℕ) (keys : List (String × Bool))
        → has_key "_id" keys ≡ true
        → (engines m).run (sort keys) (found_by m) ≡ (engines 0).run (sort keys) (found_by 0)
    sorted-same m keys h =
        let perm : (n : ℕ) → Permᴰ ((engines n).run (sort keys) (found_by n)) found =
          λ n. Permᴰ.trans ((engines n).run-sort keys (found_by n)) (same_rows n) in
        ordered_unique (precedes keys) _ _ (λ x y. sorting.tells_ids keys x y h)
          (sorting.ordered_by m keys) (sorting.ordered_by 0 keys)
          (IsDistinct-Permᴰ (Permᴰ.symm (perm m)) distinct)
          (IsDistinct-Permᴰ (Permᴰ.symm (perm 0)) distinct)
          (λ z k. Mem-Permᴰ z (Permᴰ.symm (perm 0)) (Mem-Permᴰ z (perm m) k))
          (λ z k. Mem-Permᴰ z (Permᴰ.symm (perm m)) (Mem-Permᴰ z (perm 0) k))

    listing-same :
        (m : ℕ) (k : String × Bool) (keys : List (String × Bool))
        → q.sort_keys ≡ some (k ∷ keys)
        → listing (engines m) q ids xs ≡ listing (engines 0) q ids xs
    listing-same m k keys sorted =
        let fields : List String = projection q in
        let ks : List (String × Bool) = with_id_tiebreak (k ∷ keys) in
        let shown : (n : ℕ)
            → listing (engines n) q ids xs
              ≡ map (restrict fields) ((engines n).run (sort ks) (found_by n)) =
          λ n.
            ap (λ o. run_all (engines n) (sort_stages fields o) (found_by n)) sorted
            ∙ (engines n).run-project fields ((engines n).run (sort ks) (found_by n)) in
        shown m
        ∙ ap (map (restrict fields)) (sorted-same m ks (with_id_tiebreak-has_key (k ∷ keys)))
        ∙ sym (shown 0)

-- The query for one page.
abbrev pub at_page : DataQuery → Option ℤ → ℕ → DataQuery
at_page q size k = record q {
  skip_rows = skip_of (get_skip_limit_parameters size (some (pos k)));
  limit_rows = limit_from (get_skip_limit_parameters size (some (pos k)));
}

module _ {mongo : Mongo} (engines : ℕ → Engine mongo) where
  -- The first pages, one after the other, each by a request of its own.
  abbrev pub first_pages : DataQuery → Option ℤ → Option Epic → List Row → ℕ → List Row
  first_pages q size epic xs zero = []
  first_pages q size epic xs (suc n) =
      first_pages q size epic xs n
      ++ answered (run_data_query (engines n) (at_page q size n) epic xs)

  -- The pages of a query with sort keys fit together, if it has no sort warm-up and its caller adds no
  -- page of its own. Say that the gate's query does not throw, that each request finds the same rows
  -- that the caller may read, in whatever order, no two of them with one `_id`, and that a sort tells
  -- rows of different `_id`s apart wherever `_id` is among its keys. Then the first n pages, each read
  -- by a request of its own, are the first n page sizes of one listing, each row once and in its
  -- place, for every page size that is asked for.
  pub first_pages-listing :
      (q : DataQuery) (size : Option ℤ) (epic : Option Epic) (xs : List Row) (ids : List String)
      (k : String × Bool) (keys : List (String × Bool))
      (precedes : List (String × Bool) → Row → Row → Type 0) (found : List Row)
      → q.sort_warm_up ≡ none
      → has_row_steps q ≡ true
      → unreadable_parents mongo q epic ≡ some ids
      → q.sort_keys ≡ some (k ∷ keys)
      → IsSorting engines q ids xs precedes
      → IsDistinct found
      → ((m : ℕ) → Permᴰ (found_by engines q ids xs m) found)
      → (n : ℕ)
      → first_pages q size epic xs n ≡ take (n * page_size_of size) (listing (engines 0) q ids xs)
  unfolding get_skip_limit_parameters unreadable_parents front_stages
  first_pages-listing q size epic xs ids k keys precedes found w h known sorted sorting distinct
        same_rows zero =
      let e : 0 * page_size_of size ≡ 0 = omega arith in
      sym (ap (λ j. take j (listing (engines 0) q ids xs)) e)
  first_pages-listing q size epic xs ids k keys precedes found w h known sorted sorting distinct
        same_rows (suc n) =
      let ps : ℕ = page_size_of size in
      let ys : List Row = listing (engines 0) q ids xs in
      let e : suc n * ps ≡ n * ps + ps = omega arith in
      let last : answered (run_data_query (engines n) (at_page q size n) epic xs)
          ≡ take ps (drop (n * ps) ys) =
        answered-run_data_query (engines n) (at_page q size n) epic xs ids w h known
        ∙ ap (λ j. take j (drop (n * ps) (listing (engines n) q ids xs)))
            (limit_of-some ps (page_size_of-positive size))
        ∙ ap (λ zs. take ps (drop (n * ps) zs))
            (listing-same engines q ids xs precedes sorting found distinct same_rows n k keys
              sorted) in
      ap (λ zs. zs ++ answered (run_data_query (engines n) (at_page q size n) epic xs))
        (first_pages-listing q size epic xs ids k keys precedes found w h known sorted sorting
          distinct same_rows n)
      ∙ ap (λ zs. take (n * ps) ys ++ zs) last
      ∙ sym (ap (λ j. take j ys) e ∙ take-add (n * ps) ps ys)
