-- ===== src/Examples/Paged.antt =====
-- Two comments of staff, a page for each.
use mathlib.Core.List.Permᴰ
use eagle_api.Prelude.{
  ◌*◌, ◌≡◌, ◌≢◌, ◌⊎◌, ◌===◌, ◌∷◌, Bool, List, Memᴰ, String, [], ap, false, inl, inr, none, refl,
  some, sym, take, true, ◌∙◌, ℕ,
}
use eagle_api.Mongo.{Field, Row, Value}
use eagle_api.Mongo.Reference.{reference}
use eagle_api.ParentRead.{parent_read_match}
use eagle_api.DataQuery.{DataQuery, front_stages, shape_for}
use eagle_api.DataQuery.Params.{page_size_of, pos}
use eagle_api.DataQuery.Engine.{Engine, unreadable_parents}
use eagle_api.DataQuery.Engine.Reference.{in_order}
use eagle_api.DataQuery.Engine.Readable.{listing}
use eagle_api.DataQuery.Engine.Orders.{IsDistinct, IsOrdered}
use eagle_api.DataQuery.Engine.Paging.{IsSorting, first_pages, first_pages-listing, found_by}
use eagle_api.Comments.{protected_head_query}
use eagle_api.Examples.Shown.{cells, text}

abbrev staff_comment : String → Row
staff_comment id =
    cells (
      ("_id", text id) ∷ ("_schemaName", text "Comment") ∷ ("read", Field.list ("staff" ∷ [])) ∷ [])

abbrev two_comments : List Row
two_comments = staff_comment "c1" ∷ staff_comment "c2" ∷ []

abbrev newest_first : DataQuery
newest_first = record (protected_head_query (λ s. true) ("staff" ∷ []) none none none) {
  count = false;
  sort_keys = some (("dateAdded", true) ∷ []);
}

abbrev servers : ℕ → Engine reference
servers m = in_order reference

abbrev listed_rows : List Row
listed_rows = found_by servers newest_first [] two_comments 0

-- The comments have no date, so that their ids decide.
abbrev IdOrder : List (String × Bool) → Row → Row → Type 0
IdOrder keys x y = (x "_id" ≡ y "_id") ⊎ ((x "_id" ≡ text "c1") × (y "_id" ≡ text "c2"))

is_first : Field → Bool
is_first (Field.value (Value.str s)) = s === "c1"
is_first _ = false

two_ids : text "c1" ≢ text "c2"
unfolding is_first
two_ids e = let c : true ≡ false = ap is_first e in cc

apart : (r y : Row) → r "_id" ≡ text "c2" → Memᴰ y (r ∷ []) → text "c1" ≢ y "_id"
apart r y i (Memᴰ.head e) c = two_ids (c ∙ ap (λ x. x "_id") e ∙ i)
apart r y i (Memᴰ.tail m) c = elim m [ ]

after : (r y : Row) → r "_id" ≡ text "c2" → Memᴰ y (r ∷ []) → y "_id" ≡ text "c2"
after r y i (Memᴰ.head e) = ap (λ x. x "_id") e ∙ i
after r y i (Memᴰ.tail m) = elim m [ ]

listed_rows-IsDistinct : IsDistinct listed_rows
unfolding protected_head_query front_stages shape_for parent_read_match
listed_rows-IsDistinct = ((λ y m. apart _ y refl m), ((λ y m. elim m [ ]), tt))

listed_rows-IsOrdered : (keys : List (String × Bool)) → IsOrdered (IdOrder keys) listed_rows
unfolding protected_head_query front_stages shape_for parent_read_match
listed_rows-IsOrdered keys = ((λ y m. inr (refl, after _ y refl m)), ((λ y m. elim m [ ]), tt))

IdOrder-tells :
    (keys : List (String × Bool)) (x y : Row)
    → IdOrder keys x y
    → IdOrder keys y x
    → x "_id" ≡ y "_id"
IdOrder-tells keys x y (inl e) d = e
IdOrder-tells keys x y (inr c) (inl e) = sym e
IdOrder-tells keys x y (inr c) (inr d) = absurd (two_ids (sym c.0 ∙ d.1))

IdOrder-IsSorting : IsSorting servers newest_first [] two_comments IdOrder
unfolding protected_head_query front_stages shape_for parent_read_match
IdOrder-IsSorting = record {
  ordered_by = λ m keys. listed_rows-IsOrdered keys;
  tells_ids = λ keys x y h. IdOrder-tells keys x y;
}

first_pages-listing_example :
    first_pages servers newest_first (some (pos 1)) none two_comments 2
    ≡ take
        (2 * page_size_of (some (pos 1)))
        (listing (in_order reference) newest_first [] two_comments)
unfolding protected_head_query unreadable_parents
first_pages-listing_example =
    first_pages-listing servers newest_first (some (pos 1)) none two_comments [] ("dateAdded", true)
      [] IdOrder listed_rows refl refl refl refl IdOrder-IsSorting listed_rows-IsDistinct
      (λ m. Permᴰ.refl listed_rows) 2
