-- ===== src/SearchTerms.antt =====
-- The search terms of a name: generateSearchTerms of api/helpers/utils.js. Texts are lists of code
-- units.
pub mod Prefixes
use eagle_api.Prelude.{
  ◌++◌, ◌∷◌, Bool, List, Option, Text, [], false, if◌then◌else◌, is_space, length, leb, none, not,
  some, suc, take, text_eq, true, zero, ◌||◌, ℕ,
}
use eagle_api.FuzzySearch.{trim}

-- `split(/\s+/)`, from the word read so far and whether the last unit was white space.
unfoldable pub split_words : Bool → Text → Text → List Text
split_words in_space word [] = word ∷ []
split_words in_space word (c ∷ s) =
    let at_word = split_words false (word ++ c ∷ []) s in
    let in_run = split_words true word s in
    let at_end = split_words true [] s in
    if not (is_space c) then at_word else if in_space then in_run else word ∷ at_end

-- The prefixes of a word from `n` to `n + rounds - 1` units.
unfoldable pub prefixes_from : ℕ → ℕ → Text → List Text
prefixes_from zero n word = []
prefixes_from (suc rounds) n word = take n word ∷ prefixes_from rounds (suc n) word

-- The loop runs from 2 to the word's length.
unfoldable pub get_word_search_terms : Text → List Text
get_word_search_terms [] = []
get_word_search_terms (c ∷ s) = prefixes_from (length s) 2 (c ∷ s)

unfoldable pub all_terms : List Text → List Text
all_terms [] = []
all_terms (word ∷ words) = get_word_search_terms word ++ all_terms words

abbrev pub includes_text : List Text → Text → Bool
includes_text [] t = false
includes_text (s ∷ ss) t = text_eq s t || includes_text ss t

-- `[...new Set(terms)]`, with those seen before.
unfoldable pub distinct_from : List Text → List Text → List Text
distinct_from seen [] = []
distinct_from seen (t ∷ ts) =
    let again = distinct_from seen ts in
    let fresh = distinct_from (t ∷ seen) ts in if includes_text seen t then again else t ∷ fresh

-- undefined, here none, without a name. The loop stops at the last word or at the limit.
unfoldable pub generate_search_terms : Option Text → ℕ → Option (List Text)
generate_search_terms none max_word_limit = none
generate_search_terms (some []) max_word_limit = none
generate_search_terms (some (c ∷ s)) max_word_limit =
    some (distinct_from [] (all_terms (take max_word_limit (split_words false [] (trim (c ∷ s))))))
