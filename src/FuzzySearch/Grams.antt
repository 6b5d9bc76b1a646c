-- ===== src/FuzzySearch/Grams.antt =====
-- The n-grams that `createNGrams` of api/helpers/fuzzySearch.js returns.
use eagle_api.Prelude.{
  ◌*◌, ◌+◌, ◌++◌, ◌-◌, ◌≡◌, ◌≤◌, ◌<◌, ◌↔◌, ◌∙◌, ◌∷◌, List, Memᴰ, Mem-append, Mem-append_left,
  Mem-append_right, Text, [], ap, arith, inl, inr, le→leb, lt→leb, dec_lt, length, some, suc, zero,
  ℕ,
}
use mathlib.Core.Option
use native.Mathlib.Nat.{mul-le-mul_right}
use eagle_api.FuzzySearch.{slice, ngrams_from, ngram_fuel, create_ngrams}

-- The grams of one size at the positions below `index`, from the last to the first.
grams_of_size : Text → ℕ → ℕ → List Text
grams_of_size word size zero = []
grams_of_size word size (suc i) = slice word i size ∷ grams_of_size word size i

-- The grams of `count` sizes from `size` on.
grams : Text → ℕ → ℕ → List Text
grams word zero size = []
grams word (suc count) size =
    grams_of_size word size (length word + 1 - size) ++ grams word count (suc size)

suc-sub : (i : ℕ) → suc i - 1 ≡ i
suc-sub i = omega arith

ngrams_from-suc :
    (fuel : ℕ) (word : Text) (size i : ℕ)
    → size ≤ length word + 1
    → ngrams_from (suc fuel) word size (suc i)
      ≡ Option.map (λ rest. slice word i size ∷ rest) (ngrams_from fuel word size i)
unfolding ngrams_from
ngrams_from-suc fuel word size i h =
    rw (le→leb _ _ h, ngrams_from)
      (ground (
        arith,
        ap (ngrams_from fuel word size) (suc-sub i),
        ap (λ j. slice word j size) (suc-sub i),
      ))

ngrams_from-zero :
    (fuel : ℕ) (word : Text) (size : ℕ)
    → size ≤ length word + 1
    → ngrams_from (suc fuel) word size zero
      ≡ ngrams_from fuel word (suc size) (length word + 1 - suc size)
unfolding ngrams_from
ngrams_from-zero fuel word size h = rw (le→leb _ _ h, ngrams_from)

ngrams_from-end :
    (fuel : ℕ) (word : Text) (size index : ℕ)
    → 0 < fuel
    → length word + 1 < size
    → ngrams_from fuel word size index ≡ some []
unfolding ngrams_from
ngrams_from-end zero word size index p h = absurd (omega arith)
ngrams_from-end (suc fuel) word size index p h = rw (lt→leb _ _ h, ngrams_from)

-- The rounds that are left at a size and an index.
abbrev rounds : Text → ℕ → ℕ → ℕ
rounds word size index = (length word + 1 - size) * (length word + 2) + index + 1

rounds_fall :
    (l size fuel : ℕ)
    → size < l + 1
    → (l + 1 - size) * (l + 2) + 0 + 1 < suc fuel
    → (l + 1 - suc size) * (l + 2) + (l + 1 - suc size) + 1 < fuel
rounds_fall l size fuel h k =
    let e : l + 1 - size ≡ suc (l + 1 - suc size) = omega arith in
    omega (arith, ap (λ (t : ℕ). t * (l + 2)) e)

grams-suc :
    (word : Text) (size : ℕ)
    → size < length word + 1
    → grams word (length word - size) (suc size)
      ≡ grams_of_size word (suc size) (length word + 1 - suc size)
        ++ grams word (length word - suc size) (suc (suc size))
unfolding grams grams_of_size
grams-suc word size h = elim (dec_lt size (length word)) [
  | yes more ↦ let e : length word - size ≡ suc (length word - suc size) = omega arith in rw e
  | no last ↦
      let e : length word - size ≡ 0 = omega arith in
      let e' : length word + 1 - suc size ≡ 0 = omega arith in
      let e'' : length word - suc size ≡ 0 = omega arith in rw (e, e', e'')
]

ngrams_from_lem :
    (fuel : ℕ) (word : Text) (size index : ℕ)
    → size ≤ length word + 1
    → index ≤ length word + 1
    → rounds word size index < fuel
    → ngrams_from fuel word size index
      ≡ some (grams_of_size word size index ++ grams word (length word - size) (suc size))
unfolding grams_of_size grams
ngrams_from_lem zero word size index hs hi h = absurd (omega arith)
ngrams_from_lem (suc fuel) word size (suc i) hs hi h =
    rw (ngrams_from-suc fuel word size i hs)
      (rw (ngrams_from_lem fuel word size i hs (omega arith) (omega arith)))
ngrams_from_lem (suc fuel) word size zero hs hi h = elim (dec_lt size (length word + 1)) [
  | yes more ↦ rw (ngrams_from-zero fuel word size hs) (
      rw
        (ngrams_from_lem fuel word (suc size) (length word + 1 - suc size) (omega arith)
          (omega arith) (rounds_fall (length word) size fuel more h))
        (rw (grams-suc word size more)))
  | no last ↦ rw (ngrams_from-zero fuel word size hs) (
      rw
        (ngrams_from-end fuel word (suc size) (length word + 1 - suc size) (omega arith)
          (omega arith))
        (let e : length word - size ≡ 0 = omega arith in rw e))
]

module _ (word t : Text) where
  -- `t` is the stretch of `k` units of the word from position `i` on.
  abbrev pub IsGram : ℕ → Type 0
  IsGram size = (i k : ℕ) × (size ≤ k) × (i + k ≤ length word) × (t ≡ slice word i k)

  of_size→Mem : (size n i : ℕ) → i < n → t ≡ slice word i size → Memᴰ t (grams_of_size word size n)
  unfolding grams_of_size
  of_size→Mem size zero i h e = absurd (omega arith)
  of_size→Mem size (suc n) i h e = elim (dec_lt i n) [
    | yes below ↦ Memᴰ.tail (of_size→Mem size n i below e)
    | no top ↦ let same : i ≡ n = omega arith in Memᴰ.head (e ∙ ap (λ j. slice word j size) same)
  ]

  Mem→of_size :
      (size n : ℕ)
      → Memᴰ t (grams_of_size word size n)
      → (i : ℕ) × (i < n) × (t ≡ slice word i size)
  unfolding grams_of_size
  Mem→of_size size zero m = elim m [ ]
  Mem→of_size size (suc n) (Memᴰ.head e) = (n, omega arith, e)
  Mem→of_size size (suc n) (Memᴰ.tail m) =
      let (i, h, e) = Mem→of_size size n m in (i, omega arith, e)

  IsGram→Mem :
      (count size i k : ℕ)
      → size ≤ k
      → k < size + count
      → i + k ≤ length word
      → t ≡ slice word i k
      → Memᴰ t (grams word count size)
  unfolding grams
  IsGram→Mem zero size i k lo hi fit e = absurd (omega arith)
  IsGram→Mem (suc count) size i k lo hi fit e = elim (dec_lt size k) [
    | yes above ↦
        Mem-append_right (grams_of_size word size (length word + 1 - size))
          (IsGram→Mem count (suc size) i k above (omega arith) fit e)
    | no here ↦
        let same : k ≡ size = omega arith in
        Mem-append_left _
          (of_size→Mem size (length word + 1 - size) i (omega arith) (e ∙ ap (slice word i) same))
  ]

  Mem→IsGram :
      (count size : ℕ)
      → size + count ≤ length word + 1
      → Memᴰ t (grams word count size)
      → IsGram size
  unfolding grams
  Mem→IsGram zero size fit m = elim m [ ]
  Mem→IsGram (suc count) size fit m =
      elim (Mem-append (grams_of_size word size (length word + 1 - size)) m) [
        | inl here ↦
            let (i, h, e) = Mem→of_size size (length word + 1 - size) here in
            (i, size, omega arith, omega arith, e)
        | inr later ↦
            let (i, k, lo, hi, e) = Mem→IsGram count (suc size) (omega arith) later in
            (i, k, omega arith, hi, e)
      ]

  enough_rounds : (l d : ℕ) → d ≤ l + 1 → d * (l + 2) + d + 1 < (l + 3) * (l + 3)
  enough_rounds l d h = omega (arith, mul-le-mul_right (l + 2) h)

  -- For a size that the word reaches, the loop ends, and its n-grams are exactly the stretches of
  -- the word of at least that many units.
  pub create_ngrams_lem :
      (size : ℕ)
      → size ≤ length word
      → (ts : List Text) × (create_ngrams word size ≡ some ts) × (Memᴰ t ts ↔ IsGram size)
  unfolding create_ngrams grams
  create_ngrams_lem size h = (
    grams word (suc (length word - size)) size,
    ngrams_from_lem (ngram_fuel word) word size (length word + 1 - size) (omega arith) (omega arith)
        (enough_rounds (length word) (length word + 1 - size) (omega arith)),
    (
      Mem→IsGram (suc (length word - size)) size (omega arith),
      λ g.
          let (i, k, lo, fit, e) = g in
          IsGram→Mem (suc (length word - size)) size i k lo (omega arith) fit e,
    ),
  )
