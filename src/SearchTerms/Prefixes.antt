-- ===== src/SearchTerms/Prefixes.antt =====
-- What the search terms of a name are (generateSearchTerms of api/helpers/utils.js).
use eagle_api.Prelude.{
  ◌&&◌, not, if-pick, ◌+◌, ◌≡◌, ◌≤◌, ◌∙◌, ◌∷◌, ◌↔◌, Bool-cases, List, Mem-append, Mem-append_left,
  Mem-append_right, Memᴰ, Text, [], ap, arith, false, inl, inr, length, refl, some, subst, suc, sym,
  take, text_eq, text_eq_iff, true, zero, ℕ,
}
use eagle_api.FuzzySearch.{trim}
use eagle_api.SearchTerms.{
  all_terms, distinct_from, generate_search_terms, get_word_search_terms, includes_text,
  prefixes_from, split_words,
}

prefixes_from_sound :
    (rounds n : ℕ) (word t : Text)
    → Memᴰ t (prefixes_from rounds n word)
    → (k : ℕ) × (n ≤ k) × (suc k ≤ n + rounds) × (t ≡ take k word)
unfolding prefixes_from
prefixes_from_sound zero n word t m = elim m [ ]
prefixes_from_sound (suc rounds) n word t (Memᴰ.head e) = (n, omega arith, omega arith, e)
prefixes_from_sound (suc rounds) n word t (Memᴰ.tail m) =
    let (k, lo, hi, e) = prefixes_from_sound rounds (suc n) word t m in
    (k, omega arith, omega arith, e)

prefixes_from_complete :
    (rounds n d : ℕ) (word : Text)
    → suc d ≤ rounds
    → Memᴰ (take (n + d) word) (prefixes_from rounds n word)
unfolding prefixes_from
prefixes_from_complete zero n d word h = absurd (omega arith)
prefixes_from_complete (suc rounds) n zero word h =
    Memᴰ.head (ap (λ (k : ℕ). take k word) (omega arith))
prefixes_from_complete (suc rounds) n (suc d) word h = Memᴰ.tail (
    subst (λ (k : ℕ). Memᴰ (take k word) (prefixes_from rounds (suc n) word)) (omega arith)
      (prefixes_from_complete rounds (suc n) d word (omega arith)))

-- A prefix of at least two units.
abbrev pub IsTermOf : Text → Text → Type 0
IsTermOf t word = (k : ℕ) × (2 ≤ k) × (k ≤ length word) × (t ≡ take k word)

get_word_search_terms_sound :
    (word t : Text) → Memᴰ t (get_word_search_terms word) → IsTermOf t word
unfolding get_word_search_terms
get_word_search_terms_sound [] t m = elim m [ ]
get_word_search_terms_sound (c ∷ s) t m =
    let (k, lo, hi, e) = prefixes_from_sound (length s) 2 (c ∷ s) t m in
    (k, omega arith, omega arith, e)

get_word_search_terms_complete :
    (word : Text) (k : ℕ)
    → 2 ≤ k
    → k ≤ length word
    → Memᴰ (take k word) (get_word_search_terms word)
unfolding get_word_search_terms
get_word_search_terms_complete [] k lo hi = absurd (omega arith)
get_word_search_terms_complete (c ∷ s) zero lo hi = absurd (omega arith)
get_word_search_terms_complete (c ∷ s) (suc zero) lo hi = absurd (omega arith)
get_word_search_terms_complete (c ∷ s) (suc (suc d)) lo hi =
    subst (λ (k : ℕ). Memᴰ (take k (c ∷ s)) (prefixes_from (length s) 2 (c ∷ s))) {y = suc (suc d)}
      (omega arith) (prefixes_from_complete (length s) 2 d (c ∷ s) (omega arith))

all_terms_sound :
    (words : List Text) (t : Text)
    → Memᴰ t (all_terms words)
    → (word : Text) × Memᴰ word words × IsTermOf t word
unfolding all_terms
all_terms_sound [] t m = elim m [ ]
all_terms_sound (word ∷ words) t m = elim (Mem-append (get_word_search_terms word) m) [
  | inl here ↦ (word, Memᴰ.head refl, get_word_search_terms_sound word t here)
  | inr later ↦ let (w, n, e) = all_terms_sound words t later in (w, Memᴰ.tail n, e)
]

all_terms_complete :
    (words : List Text) (word : Text) (k : ℕ)
    → Memᴰ word words
    → 2 ≤ k
    → k ≤ length word
    → Memᴰ (take k word) (all_terms words)
unfolding all_terms
all_terms_complete [] word k m lo hi = elim m [ ]
all_terms_complete (w ∷ words) word k (Memᴰ.head e) lo hi = Mem-append_left (all_terms words) (
    subst (λ (x : Text). Memᴰ (take k word) (get_word_search_terms x)) e
      (get_word_search_terms_complete word k lo hi))
all_terms_complete (w ∷ words) word k (Memᴰ.tail m) lo hi =
    Mem-append_right (get_word_search_terms w) (all_terms_complete words word k m lo hi)

-- No text stands twice.
abbrev pub IsDistinct : List Text → Type 0
IsDistinct [] = Unit
IsDistinct (t ∷ ts) = (includes_text ts t ≡ false) × IsDistinct ts

distinct_from-includes :
    (seen ts : List Text) (t : Text)
    → includes_text (distinct_from seen ts) t ≡ (not (includes_text seen t) && includes_text ts t)
unfolding distinct_from
distinct_from-includes seen [] t = ground arith
distinct_from-includes seen (x ∷ ts) t = ground (
  arith,
  text_eq_iff x t,
  distinct_from-includes seen ts t,
  distinct_from-includes (x ∷ seen) ts t,
)

distinct_from-IsDistinct : (seen ts : List Text) → IsDistinct (distinct_from seen ts)
unfolding distinct_from
distinct_from-IsDistinct seen [] = tt
distinct_from-IsDistinct seen (x ∷ ts) =
    if-pick IsDistinct (includes_text seen x) {y = x ∷ distinct_from (x ∷ seen) ts}
      (distinct_from-IsDistinct seen ts)
      (
        ground (arith, distinct_from-includes (x ∷ seen) ts x, text_eq_iff x x),
        distinct_from-IsDistinct (x ∷ seen) ts,
      )

Mem-includes_text : (ts : List Text) (t : Text) → Memᴰ t ts ↔ (includes_text ts t ≡ true)
Mem-includes_text ts t = (to ts, from ts)
  where
    to : (ts : List Text) → Memᴰ t ts → includes_text ts t ≡ true
    to [] m = elim m [ ]
    to (x ∷ ts) (Memᴰ.head e) = ground (arith, (text_eq_iff x t).1 (sym e))
    to (x ∷ ts) (Memᴰ.tail m) = ground (arith, to ts m)

    from : (ts : List Text) → includes_text ts t ≡ true → Memᴰ t ts
    from [] h = absurd (ground arith)
    from (x ∷ ts) h = elim (Bool-cases (text_eq x t)) [
      | inl here ↦ Memᴰ.head (sym ((text_eq_iff x t).0 here))
      | inr later ↦ Memᴰ.tail (from ts (ground (arith, h, later)))
    ]

distinct_from_iff : (ts : List Text) (t : Text) → Memᴰ t (distinct_from [] ts) ↔ Memᴰ t ts
distinct_from_iff ts t =
    let same : includes_text (distinct_from [] ts) t ≡ includes_text ts t =
      distinct_from-includes [] ts t in
    (
      λ m. (Mem-includes_text ts t).1 (sym same ∙ (Mem-includes_text _ t).0 m),
      λ m. (Mem-includes_text _ t).1 (same ∙ (Mem-includes_text ts t).0 m),
    )

abbrev pub words_of : Text → List Text
words_of name = split_words false [] (trim name)

-- The search terms of a name that is not empty are the prefixes of at least two units of its first
-- words, as many as the limit says, and none of them stands twice.
pub generate_search_terms_lem :
    (c : ℕ) (s : Text) (limit : ℕ)
    → (terms : List Text) × (generate_search_terms (some (c ∷ s)) limit ≡ some terms)
      × IsDistinct terms
      × ((t : Text)
          → Memᴰ t terms
            ↔ ((word : Text) × Memᴰ word (take limit (words_of (c ∷ s))) × IsTermOf t word))
unfolding generate_search_terms
generate_search_terms_lem c s limit =
    let words : List Text = take limit (words_of (c ∷ s)) in
    (
      distinct_from [] (all_terms words),
      refl,
      distinct_from-IsDistinct [] (all_terms words),
      λ t. (
        λ m. all_terms_sound words t ((distinct_from_iff (all_terms words) t).0 m),
        λ h.
            let (word, m, (k, lo, hi, e)) = h in
            (distinct_from_iff (all_terms words) t).1 (
              subst (λ (x : Text). Memᴰ x (all_terms words)) (sym e)
                (all_terms_complete words word k m lo hi)),
      ),
    )
