-- ===== src/DataQuery/Engine/Orders.antt =====
-- The orders of the rows that MongoDB's sort may give: rows of different ids have at most one.
use mathlib.Core.List.Permᴰ
use mathlib.Core.List.{Permᴰ}
use eagle_api.Prelude.{◌≡◌, ◌≢◌, ◌∷◌, ◌∙◌, List, Memᴰ, Mem-Permᴰ, [], ap, refl, sym}
use eagle_api.Mongo.{Row}

-- No two rows have one id.
abbrev pub IsDistinct : List Row → Type 0
IsDistinct [] = Unit
IsDistinct (x ∷ xs) = ((y : Row) → Memᴰ y xs → x "_id" ≢ y "_id") × IsDistinct xs

-- Each row precedes those after it.
abbrev pub IsOrdered : (Row → Row → Type 0) → List Row → Type 0
IsOrdered R [] = Unit
IsOrdered R (x ∷ xs) = ((y : Row) → Memᴰ y xs → R x y) × IsOrdered R xs

swapped :
    {a b a' b' : Row} {l : List Row}
    → a ≡ b'
    → b ≡ a'
    → ((y : Row) → Memᴰ y (b ∷ l) → a "_id" ≢ y "_id")
    → ((y : Row) → Memᴰ y l → b "_id" ≢ y "_id")
    → (y : Row) → Memᴰ y (b' ∷ l)
    → a' "_id" ≢ y "_id"
swapped {b = b} e f h k y (Memᴰ.head g) c =
    h b (Memᴰ.head refl) (ap (λ r. r "_id") (e ∙ sym g) ∙ sym c ∙ sym (ap (λ r. r "_id") f))
swapped e f h k y (Memᴰ.tail m) c = k y m (ap (λ r. r "_id") f ∙ c)

pub IsDistinct-Permᴰ : {xs ys : List Row} → Permᴰ xs ys → IsDistinct xs → IsDistinct ys
IsDistinct-Permᴰ Permᴰ.nil h = h
IsDistinct-Permᴰ (Permᴰ.cons e d) h = (
  λ y m c. h.0 y (Mem-Permᴰ y (Permᴰ.symm d) m) (ap (λ r. r "_id") e ∙ c),
  IsDistinct-Permᴰ d h.1,
)
IsDistinct-Permᴰ (Permᴰ.swap e f) h = (
  λ y m. swapped e f h.0 h.1.0 y m,
  (λ y m c. h.0 y (Memᴰ.tail m) (ap (λ r. r "_id") e ∙ c), h.1.1),
)
IsDistinct-Permᴰ (Permᴰ.trans d e) h = IsDistinct-Permᴰ e (IsDistinct-Permᴰ d h)

-- Two orders of the same rows are one, where the relation tells rows of different ids apart.
pub ordered_unique :
    (R : Row → Row → Type 0) (xs ys : List Row)
    → ((x y : Row) → R x y → R y x → x "_id" ≡ y "_id")
    → IsOrdered R xs
    → IsOrdered R ys
    → IsDistinct xs
    → IsDistinct ys
    → ((z : Row) → Memᴰ z xs → Memᴰ z ys)
    → ((z : Row) → Memᴰ z ys → Memᴰ z xs)
    → xs ≡ ys
ordered_unique R [] [] tells o p d c to from = refl
ordered_unique R [] (y ∷ ys) tells o p d c to from = elim (from y (Memᴰ.head refl)) [ ]
ordered_unique R (x ∷ xs) [] tells o p d c to from = elim (to x (Memᴰ.head refl)) [ ]
ordered_unique R (x ∷ xs) (y ∷ ys) tells o p d c to from =
    ap (λ r. r ∷ xs) same
    ∙ ap (λ rs. y ∷ rs)
        (ordered_unique R xs ys tells o.1 p.1 d.1 c.1
          (λ z m. later z ys (λ k. d.0 z m (ap (λ r. r "_id") (same ∙ sym k))) (to z (Memᴰ.tail m)))
          (λ z m.
            later_back z xs (λ k. c.0 z m (ap (λ r. r "_id") (sym same ∙ sym k)))
              (from z (Memᴰ.tail m))))
  where
    first : Memᴰ x (y ∷ ys) → Memᴰ y (x ∷ xs) → x ≡ y
    first (Memᴰ.head e) n = e
    first (Memᴰ.tail m) (Memᴰ.head e) = sym e
    first (Memᴰ.tail m) (Memᴰ.tail n) = absurd (d.0 y n (tells x y (o.0 y n) (p.0 x m)))

    same : x ≡ y
    same = first (to x (Memᴰ.head refl)) (from y (Memᴰ.head refl))

    later : (z : Row) (zs : List Row) → z ≢ y → Memᴰ z (y ∷ zs) → Memᴰ z zs
    later z zs n (Memᴰ.head e) = absurd (n e)
    later z zs n (Memᴰ.tail m) = m

    later_back : (z : Row) (zs : List Row) → z ≢ x → Memᴰ z (x ∷ zs) → Memᴰ z zs
    later_back z zs n (Memᴰ.head e) = absurd (n e)
    later_back z zs n (Memᴰ.tail m) = m
