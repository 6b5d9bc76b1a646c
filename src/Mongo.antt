-- ===== src/Mongo.antt =====
-- The query documents that the code builds, and the database that answers them. MongoDB is not
-- part of the repository: whether a row matches a query is the parameter `Mongo`, with the
-- documented meaning of each operator that the code uses as its laws.
pub mod Reference
use eagle_api.Prelude.{
  ◌&&◌, ◌∷◌, ◌≡◌, ◌||◌, ◌===◌, Bool, List, String, any, false, includes, leb, not, true, ltb, ℕ,
  ◌==◌,
}

-- A value of a query or a row. A date is its milliseconds, an ObjectId its hex string.
pub data Value : Type 0 where
  null : Value
  bool : Bool → Value
  num : ℕ → Value
  str : String → Value

-- What a row holds at a path: nothing, a value, or an array of strings or ids.
pub data Field : Type 0 where
  absent : Field
  value : Value → Field
  list : List String → Field

abbrev pub Row : Type 0
Row = String → Field

pub data Op : Type 0 where
  eq ne : Value → Op
  lte lt : ℕ → Op
  one_of none_of : List String → Op
  exists : Bool → Op
  has_item : Op

-- `has_item` at `read` is `{ 'read.0': { $exists: true } }`. Two keys of one object are `both`,
-- a two-element `$or` is `either`, and a two-element `$nor` is `neither`.
pub data Query : Type 0 where
  at : String → Op → Query
  both either neither : Query → Query → Query

abbrev pub value_eq : Value → Value → Bool
value_eq null null = true
value_eq (bool true) (bool b) = b
value_eq (bool false) (bool b) = not b
value_eq (num m) (num n) = m == n
value_eq (str s) (str t) = s === t
value_eq _ _ = false

-- `{ path: v }` matches a value equal to `v`, an array that holds it, and for null a missing field.
abbrev pub equals : Field → Value → Bool
equals absent null = true
equals (value w) v = value_eq w v
equals (list xs) (str s) = includes xs s
equals _ _ = false

abbrev pub is_at_most : Field → ℕ → Bool
is_at_most (value (num m)) n = leb m n
is_at_most _ n = false

abbrev pub is_below : Field → ℕ → Bool
is_below (value (num m)) n = ltb m n
is_below _ n = false

abbrev pub is_present : Field → Bool
is_present absent = false
is_present _ = true

abbrev pub is_nonempty_list : Field → Bool
is_nonempty_list (list (_ ∷ _)) = true
is_nonempty_list _ = false

abbrev pub equals_some : Field → List String → Bool
equals_some f xs = any (λ x. equals f (str x)) xs

-- The meaning of one operator on one field.
abbrev pub holds : Op → Field → Bool
holds (eq v) f = equals f v
holds (ne v) f = not (equals f v)
holds (lte n) f = is_at_most f n
holds (lt n) f = is_below f n
holds (one_of xs) f = equals_some f xs
holds (none_of xs) f = not (equals_some f xs)
holds (exists true) f = is_present f
holds (exists false) f = not (is_present f)
holds has_item f = is_nonempty_list f

pub record Mongo : Type 0 where
  pub matches : Query → Row → Bool
  pub matches-at : (p : String) (o : Op) (r : Row) → matches (at p o) r ≡ holds o (r p)
  pub matches-both :
      (q q' : Query) (r : Row) → matches (both q q') r ≡ (matches q r && matches q' r)
  pub matches-either :
      (q q' : Query) (r : Row) → matches (either q q') r ≡ (matches q r || matches q' r)
  pub matches-neither :
      (q q' : Query) (r : Row) → matches (neither q q') r ≡ not (matches q r || matches q' r)
