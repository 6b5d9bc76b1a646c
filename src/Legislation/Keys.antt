-- ===== src/Legislation/Keys.antt =====
-- The two directions between the years and the keys of the registry (api/helpers/constants.js).
use eagle_api.Prelude.{
  ◌===◌, ◌==◌, ◌∙◌, ◌≡◌, ◌∷◌, ◌↔◌, All, Bool-cases, List, Option, Option-cases, String, Text, [],
  ap, arith, eq_iff, inl, inr, none, refl, some, subst, sym, text_eq, units, ℕ,
}
use eagle_api.Legislation.{
  Entry, default_legislation_year, digits_after, entry_in, entry_named, key_of, key_prefix,
  legislation_key, legislation_year_of, legislations, named_by, year_if_key,
}

-- What holds of every entry holds of the one that is found.
entry_in-All :
    (P : Entry → Type 0) (es : List Entry) (year : ℕ) (e : Entry)
    → All P es
    → entry_in es year ≡ some e
    → P e × (e.year ≡ year)
unfolding entry_in
entry_in-All P [] year e h k = absurd (ground arith)
entry_in-All P (x ∷ es) year e h k = elim (Bool-cases (x.year == year)) [
  | inl here ↦
      let same : x ≡ e = ground (arith, k, here) in
      (subst P same h.0, ap (λ (z : Entry). z.year) (sym same) ∙ ground (arith, here))
  | inr later ↦ entry_in-All P es year e h.1 (ground (arith, k, later))
]

entry_named-All :
    (P : Entry → Type 0) (es : List Entry) (name : Text) (e : Entry)
    → All P es
    → entry_named es name ≡ some e
    → P e
unfolding entry_named
entry_named-All P [] name e h k = absurd (ground arith)
entry_named-All P (x ∷ es) name e h k = elim (Bool-cases (text_eq (units x.name) name)) [
  | inl here ↦ subst P (ground (arith, k, here)) h.0
  | inr later ↦ entry_named-All P es name e h.1 (ground (arith, k, later))
]

-- Each entry's key is that of its year, and is read back as its year.
abbrev IsReadBack : Entry → Type 0
IsReadBack e =
    (legislation_key e.year ≡ some (key_of e))
    × (legislation_year_of (some (key_of e)) ≡ some e.year)

legislations-IsReadBack : All IsReadBack legislations
unfolding legislation_key legislation_year_of
legislations-IsReadBack = ((refl, refl), ((refl, refl), ((refl, refl), ((refl, refl), tt))))

pub legislation_key→entry :
    (year : ℕ) (key : String)
    → legislation_key year ≡ some key
    → (e : Entry) × (entry_in legislations year ≡ some e) × (key_of e ≡ key)
unfolding legislation_key
legislation_key→entry year key h = elim (Option-cases (entry_in legislations year)) [
  | inl missing ↦ absurd (ground (arith, h, missing))
  | inr found ↦ (found.0, found.1, ground (arith, h, found.1))
]

-- The key of a year is read back as that year, and no other text is.
pub legislation_year_of-legislation_key :
    (year : ℕ) (key : String)
    → (legislation_key year ≡ some key) ↔ (legislation_year_of (some key) ≡ some year)
unfolding legislation_year_of
legislation_year_of-legislation_key year key = (to, from)
  where
    to : legislation_key year ≡ some key → legislation_year_of (some key) ≡ some year
    to h =
        let (e, found, same) = legislation_key→entry year key h in
        let (read, of_year) =
          entry_in-All IsReadBack legislations year e legislations-IsReadBack found in
        ap (λ (k : String). legislation_year_of (some k)) (sym same) ∙ read.1 ∙ ap some of_year

    found_by :
        (o : Option Entry)
        → ((e : Entry) → o ≡ some e → IsReadBack e)
        → year_if_key key o ≡ some year
        → legislation_key year ≡ some key
    found_by none all h = absurd (ground arith)
    found_by (some e) all h = elim (Bool-cases (key_of e === key)) [
      | inr other ↦ absurd (ground (arith, h, other))
      | inl same ↦
          let of_year : e.year ≡ year = ground (arith, h, same) in
          ap legislation_key (sym of_year)
          ∙ (all e refl).0
          ∙ ap some ((eq_iff (key_of e) key).0 same)
    ]

    named : (o : Option Text) → named_by key o ≡ some year → legislation_key year ≡ some key
    named none h = absurd (ground arith)
    named (some name) h =
        found_by (entry_named legislations name)
          (λ e. entry_named-All IsReadBack legislations name e legislations-IsReadBack) h

    from : legislation_year_of (some key) ≡ some year → legislation_key year ≡ some key
    from h = named (digits_after (units key_prefix) (units key)) h

default_legislation_year_lem : default_legislation_year legislations ≡ some 2002
unfolding default_legislation_year
default_legislation_year_lem = refl
