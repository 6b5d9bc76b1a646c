-- ===== src/Prelude/Lists.antt =====
-- Lists measured by native numbers and searched by Boolean tests, under the library's names.
use Prim.Native.Nat.{ℕ, zero, suc, ◌+◌, ◌≤◌}
use mathlib.Core.Path.{◌≡◌, refl, ap, subst, ◌∙◌}
use mathlib.Core.Logic.{◌⊎◌, inl, inr}
use mathlib.Core.Bool.{Bool, true, false, ◌&&◌, ◌||◌}
use mathlib.Core.Option.{Option, none, some}
use mathlib.Core.List.{List, [], ◌∷◌, ◌++◌, Memᴰ, Permᴰ, map, reverse, reverse-append}
use native.Mathlib.Omega.{arith}
use eagle_api.Prelude.Tests.{if◌then◌else◌, Bool-cases, some-injective}

module _ {ℓ} {A : Type ℓ} where
  abbrev pub length : List A → ℕ
  length [] = 0
  length (x ∷ xs) = suc (length xs)

  abbrev pub any : (A → Bool) → List A → Bool
  any p [] = false
  any p (x ∷ xs) = p x || any p xs

  abbrev pub all : (A → Bool) → List A → Bool
  all p [] = true
  all p (x ∷ xs) = p x && all p xs

  abbrev pub filter : (A → Bool) → List A → List A
  filter p [] = []
  filter p (x ∷ xs) = if p x then x ∷ filter p xs else filter p xs

  abbrev pub take : ℕ → List A → List A
  take zero xs = []
  take (suc n) [] = []
  take (suc n) (x ∷ xs) = x ∷ take n xs

  abbrev pub drop : ℕ → List A → List A
  drop zero xs = xs
  drop (suc n) [] = []
  drop (suc n) (x ∷ xs) = drop n xs

  abbrev pub get_elem? : List A → ℕ → Option A
  get_elem? [] i = none
  get_elem? (x ∷ xs) zero = some x
  get_elem? (x ∷ xs) (suc i) = get_elem? xs i

  abbrev pub erase_idx : List A → ℕ → List A
  erase_idx [] i = []
  erase_idx (x ∷ xs) zero = xs
  erase_idx (x ∷ xs) (suc i) = x ∷ erase_idx xs i

  pub List-cases : (xs : List A) → (xs ≡ []) ⊎ ((x : A) × (rest : List A) × (xs ≡ x ∷ rest))
  List-cases [] = inl refl
  List-cases (x ∷ rest) = inr (x, rest, refl)

  pub length-append : (xs ys : List A) → length (xs ++ ys) ≡ length xs + length ys
  length-append [] ys = omega arith
  length-append (x ∷ xs) ys = omega (arith, length-append xs ys)

  pub any-append : (p : A → Bool) (xs ys : List A) → any p (xs ++ ys) ≡ (any p xs || any p ys)
  any-append p [] ys = refl
  any-append p (x ∷ xs) ys = ground (arith, any-append p xs ys)

  pub any-filter : (p q : A → Bool) (xs : List A) → any p (filter q xs) ≡ any (λ x. q x && p x) xs
  any-filter p q [] = refl
  any-filter p q (x ∷ xs) = ground (arith, any-filter p q xs)

  pub Mem-append_left : {a : A} {xs : List A} (ys : List A) → Memᴰ a xs → Memᴰ a (xs ++ ys)
  Mem-append_left ys (Memᴰ.head e) = Memᴰ.head e
  Mem-append_left ys (Memᴰ.tail m) = Memᴰ.tail (Mem-append_left ys m)

  pub Mem-append_right : {a : A} (xs : List A) {ys : List A} → Memᴰ a ys → Memᴰ a (xs ++ ys)
  Mem-append_right [] m = m
  Mem-append_right (x ∷ xs) m = Memᴰ.tail (Mem-append_right xs m)

  pub Mem-append : {a : A} (xs : List A) {ys : List A} → Memᴰ a (xs ++ ys) → Memᴰ a xs ⊎ Memᴰ a ys
  Mem-append [] m = inr m
  Mem-append (x ∷ xs) (Memᴰ.head e) = inl (Memᴰ.head e)
  Mem-append (x ∷ xs) (Memᴰ.tail m) = elim (Mem-append xs m) [
    | inl l ↦ inl (Memᴰ.tail l)
    | inr r ↦ inr r
  ]

  pub Mem→all : (p : A → Bool) (xs : List A) (a : A) → all p xs ≡ true → Memᴰ a xs → p a ≡ true
  Mem→all p [] a h m = elim m [ ]
  Mem→all p (x ∷ xs) a h (Memᴰ.head e) = ap p e ∙ ground (arith, h)
  Mem→all p (x ∷ xs) a h (Memᴰ.tail m) = Mem→all p xs a (ground (arith, h)) m

  pub Mem-filter :
      (p : A → Bool) (xs : List A) (a : A) → Memᴰ a (filter p xs) → Memᴰ a xs × (p a ≡ true)
  Mem-filter p [] a m = elim m [ ]
  Mem-filter p (x ∷ xs) a m = elim (Bool-cases (p x)) [
    | inr out ↦
        let (n, e) =
          Mem-filter p xs a
            (subst (λ b. Memᴰ a (if b then x ∷ filter p xs else filter p xs)) out m) in
        (Memᴰ.tail n, e)
    | inl kept ↦ elim (subst (λ b. Memᴰ a (if b then x ∷ filter p xs else filter p xs)) kept m) [
      | Memᴰ.head e ↦ (Memᴰ.head e, ap p e ∙ kept)
      | Memᴰ.tail n ↦ let (n', e) = Mem-filter p xs a n in (Memᴰ.tail n', e)
    ]
  ]

  pub Mem-take : (n : ℕ) (xs : List A) (a : A) → Memᴰ a (take n xs) → Memᴰ a xs
  Mem-take zero xs a m = elim m [ ]
  Mem-take (suc n) [] a m = elim m [ ]
  Mem-take (suc n) (x ∷ xs) a (Memᴰ.head e) = Memᴰ.head e
  Mem-take (suc n) (x ∷ xs) a (Memᴰ.tail m) = Memᴰ.tail (Mem-take n xs a m)

  pub Mem-drop : (n : ℕ) (xs : List A) (a : A) → Memᴰ a (drop n xs) → Memᴰ a xs
  Mem-drop zero xs a m = m
  Mem-drop (suc n) [] a m = elim m [ ]
  Mem-drop (suc n) (x ∷ xs) a m = Memᴰ.tail (Mem-drop n xs a m)

  pub length-take-le : (n : ℕ) (xs : List A) → length (take n xs) ≤ n
  length-take-le zero xs = omega arith
  length-take-le (suc n) [] = omega arith
  length-take-le (suc n) (x ∷ xs) = omega (arith, length-take-le n xs)

  pub all-append : (p : A → Bool) (xs ys : List A) → all p (xs ++ ys) ≡ (all p xs && all p ys)
  all-append p [] ys = refl
  all-append p (x ∷ xs) ys = ground (arith, all-append p xs ys)

  pub all-reverse : (p : A → Bool) (xs : List A) → all p (reverse xs) ≡ all p xs
  all-reverse p [] = refl
  all-reverse p (x ∷ xs) =
      ap (all p) (reverse-append (x ∷ []) xs)
      ∙ all-append p (reverse xs) (x ∷ [])
      ∙ ground (arith, all-reverse p xs)

  pub Mem-Permᴰ : {xs ys : List A} (a : A) → Permᴰ xs ys → Memᴰ a xs → Memᴰ a ys
  Mem-Permᴰ a Permᴰ.nil m = m
  Mem-Permᴰ a (Permᴰ.cons e d) (Memᴰ.head f) = Memᴰ.head (f ∙ e)
  Mem-Permᴰ a (Permᴰ.cons e d) (Memᴰ.tail m) = Memᴰ.tail (Mem-Permᴰ a d m)
  Mem-Permᴰ a (Permᴰ.swap e f) (Memᴰ.head g) = Memᴰ.tail (Memᴰ.head (g ∙ e))
  Mem-Permᴰ a (Permᴰ.swap e f) (Memᴰ.tail (Memᴰ.head g)) = Memᴰ.head (g ∙ f)
  Mem-Permᴰ a (Permᴰ.swap e f) (Memᴰ.tail (Memᴰ.tail m)) = Memᴰ.tail (Memᴰ.tail m)
  Mem-Permᴰ a (Permᴰ.trans d e) m = Mem-Permᴰ a e (Mem-Permᴰ a d m)

module _ {ℓ κ} {A : Type ℓ} {B : Type κ} (f : A → B) where
  pub Mem-map : (xs : List A) (a : A) → Memᴰ a xs → Memᴰ (f a) (map f xs)
  Mem-map [] a m = elim m [ ]
  Mem-map (x ∷ xs) a (Memᴰ.head e) = Memᴰ.head (ap f e)
  Mem-map (x ∷ xs) a (Memᴰ.tail m) = Memᴰ.tail (Mem-map xs a m)

  pub Mem-unmap : (xs : List A) (b : B) → Memᴰ b (map f xs) → (a : A) × Memᴰ a xs × (b ≡ f a)
  Mem-unmap [] b m = elim m [ ]
  Mem-unmap (x ∷ xs) b (Memᴰ.head e) = (x, Memᴰ.head refl, e)
  Mem-unmap (x ∷ xs) b (Memᴰ.tail m) = let (a, n, e) = Mem-unmap xs b m in (a, Memᴰ.tail n, e)

module _ {ℓ κ} {A : Type ℓ} (P : A → Type κ) where
  abbrev pub All : List A → Type κ
  All [] = Unit
  All (x ∷ xs) = P x × All xs

  pub All-erase_idx : (xs : List A) (i : ℕ) → All xs → All (erase_idx xs i)
  All-erase_idx [] i h = h
  All-erase_idx (x ∷ xs) zero h = h.1
  All-erase_idx (x ∷ xs) (suc i) h = (h.0, All-erase_idx xs i h.1)

  pub All-get_elem? : (xs : List A) (i : ℕ) (x : A) → All xs → get_elem? xs i ≡ some x → P x
  All-get_elem? [] i x h e = absurd (ground (arith, e))
  All-get_elem? (y ∷ ys) zero x h e = subst P (some-injective e) h.0
  All-get_elem? (y ∷ ys) (suc i) x h e = All-get_elem? ys i x h.1 e
