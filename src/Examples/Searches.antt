-- ===== src/Examples/Searches.antt =====
-- The n-grams of a word.
use eagle_api.Prelude.{◌≡◌, ◌↔◌, ◌∷◌, List, Memᴰ, Text, [], arith, map, refl, some, units}
use eagle_api.FuzzySearch.{create_ngrams, ngrams_from}
use eagle_api.FuzzySearch.Grams.{IsGram, create_ngrams_lem}

ngrams_of_mine :
    create_ngrams (units "mine") 2
    ≡ some (map units ("ne" ∷ "in" ∷ "mi" ∷ "ine" ∷ "min" ∷ "mine" ∷ []))
unfolding create_ngrams ngrams_from
ngrams_of_mine = refl

create_ngrams_lem_example :
    (ts : List Text) × (create_ngrams (units "mine") 2 ≡ some ts)
    × (Memᴰ (units "in") ts ↔ IsGram (units "mine") (units "in") 2)
create_ngrams_lem_example = create_ngrams_lem (units "mine") (units "in") 2 (omega arith)
