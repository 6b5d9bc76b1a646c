-- ===== src/FuzzySearch.antt =====
-- The n-grams of a search text: api/helpers/fuzzySearch.js. Texts are lists of code units;
-- `toLowerCase` is a parameter.
pub mod Grams
use eagle_api.Prelude.{
  ◌&&◌, ◌*◌, ◌+◌, ◌++◌, ◌-◌, ◌==◌, ◌||◌, ◌∷◌, Bool, List, Option, Text, [], drop, false, filter,
  if◌then◌else◌, is_space, leb, length, map, none, not, reverse, some, suc, take, true, zero, ℕ,
}
use mathlib.Core.Option

abbrev pub default_ngram_size : ℕ
default_ngram_size = 2

-- `word.slice(i, i + n)`.
abbrev pub slice : Text → ℕ → ℕ → Text
slice word i n = take n (drop i word)

-- The loop of `createNGrams` at a size and an index; none means that the fuel ran out. The index
-- for a new size is written `length + 1 - size`, which is not below 0 while the loop runs.
unfoldable pub ngrams_from : ℕ → Text → ℕ → ℕ → Option (List Text)
ngrams_from zero word size index = none
ngrams_from (suc fuel) word size index = elim (leb size (length word + 1)) [
  | false ↦ some []
  | true ↦ elim (index == 0) [
    | false ↦
        Option.map (λ rest. slice word (index - 1) size ∷ rest)
          (ngrams_from fuel word size (index - 1))
    | true ↦ ngrams_from fuel word (suc size) (length word + 1 - suc size)
  ]
]

-- More rounds than the loop has: fewer than `length + 2` for each size.
abbrev pub ngram_fuel : Text → ℕ
ngram_fuel word = (length word + 3) * (length word + 3)

unfoldable pub create_ngrams : Text → ℕ → Option (List Text)
create_ngrams word size = ngrams_from (ngram_fuel word) word size (length word + 1 - size)

-- The characters of the first `replace`.
abbrev pub is_special : ℕ → Bool
is_special c =
    leb 33 c && leb c 35
    || leb 37 c && leb c 47
    || leb 58 c && leb c 64
    || leb 91 c && leb c 94
    || c == 96
    || leb 123 c && leb c 126

abbrev pub underscore_to_space : ℕ → ℕ
underscore_to_space c = if c == b'_' then 32 else c

-- `split(' ')`.
unfoldable pub split_from : Text → Text → List Text
split_from cur [] = cur ∷ []
split_from cur (c ∷ s) = elim (c == 32) [
  | true ↦ cur ∷ split_from [] s
  | false ↦ split_from (cur ++ c ∷ []) s
]

abbrev pub join : List Text → Text
join [] = []
join (w ∷ []) = w
join (w ∷ v ∷ ws) = w ++ 32 ∷ join (v ∷ ws)

unfoldable pub trim_start : Text → Text
trim_start [] = []
trim_start (c ∷ s) = elim (is_space c) [ true ↦ trim_start s | false ↦ c ∷ s ]

unfoldable pub trim : Text → Text
trim s = reverse (trim_start (reverse (trim_start s)))

-- What one word adds to the result.
unfoldable pub word_part : ℕ → Text → Option Text
word_part size word = elim (leb (length word + 1) size) [
  | true ↦ some (word ++ 32 ∷ [])
  | false ↦ elim (leb 1 (length word)) [
    | true ↦ Option.map (λ grams. join grams ++ 32 ∷ []) (create_ngrams word size)
    | false ↦ some []
  ]
]

unfoldable pub all_parts : ℕ → List Text → Option Text
all_parts size [] = some []
all_parts size (word ∷ words) =
    Option.bind (word_part size word)
      (λ part. Option.map (λ rest. part ++ rest) (all_parts size words))

-- `nGramSize`, or the default where it is missing or 0.
abbrev pub gram_size : Option ℕ → ℕ
gram_size none = default_ngram_size
gram_size (some zero) = default_ngram_size
gram_size (some (suc n)) = suc n

module _ (to_lower : Text → Text) where
  unfoldable pub clean_keywords : Text → Bool → Text
  clean_keywords keywords case_sensitive =
      map underscore_to_space
        (filter (λ c. not (is_special c)) (if case_sensitive then to_lower keywords else keywords))

  unfoldable pub create_fuzzy_search_string : Text → Option ℕ → Bool → Option Text
  create_fuzzy_search_string keywords ngram_size case_sensitive =
      Option.map (λ result. elim result [ [] ↦ keywords | c ∷ s ↦ trim (c ∷ s) ])
        (all_parts (gram_size ngram_size) (split_from [] (clean_keywords keywords case_sensitive)))
