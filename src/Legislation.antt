-- ===== src/Legislation.antt =====
-- The registry of the Acts that a project can be under: api/helpers/constants.js. The registry is
-- keyed by property names, the digits of a year; a year is their number.
pub mod Keys
use Prim.Native.String.{◌++◌ as text_append}
use eagle_api.Prelude.{
  ◌&&◌, ◌*◌, ◌+◌, ◌-◌, ◌==◌, ◌===◌, ◌∷◌, Bool, List, Option, String, Text, [], all, false, filter,
  if◌then◌else◌, leb, map, none, not, some, true, units, text_eq, ℕ,
}

pub record Legislation : Type 0 where
  pub label : String
  pub is_default : Bool
  pub locked : Bool

-- An entry: its property name, the year that the name says, and the Act.
pub record Entry : Type 0 where
  pub name : String
  pub year : ℕ
  pub act : Legislation

abbrev pub legislations : List Entry
legislations =
    record {
      name = "1996";
      year = 1996;
      act = record {
        label = "1996 Environmental Assessment Act";
        is_default = false;
        locked = false;
      };
    }
    ∷ record {
      name = "2002";
      year = 2002;
      act = record {
        label = "2002 Environmental Assessment Act";
        is_default = true;
        locked = false;
      };
    }
    ∷ record {
      name = "2018";
      year = 2018;
      act = record {
        label = "2018 Environmental Assessment Act";
        is_default = false;
        locked = false;
      };
    }
    ∷ record {
      name = "2025";
      year = 2025;
      act = record { label = "Building Canada Act"; is_default = false; locked = true };
    }
    ∷ []

abbrev pub is_digit : ℕ → Bool
is_digit c = leb 48 c && leb c 57

abbrev pub key_prefix : String
key_prefix = "legislation_"

abbrev pub key_of : Entry → String
key_of e = text_append key_prefix e.name

-- The entry of a year.
unfoldable pub entry_in : List Entry → ℕ → Option Entry
entry_in [] year = none
entry_in (e ∷ es) year = let later = entry_in es year in if e.year == year then some e else later

-- `legislationKey` of a number.
unfoldable pub legislation_key : ℕ → Option String
unfolding entry_in
legislation_key year = elim (entry_in legislations year) [ none ↦ none | some e ↦ some (key_of e) ]

-- `KEY_PATTERN.exec(key)[1]`: what follows the prefix, if that is digits.
unfoldable pub digits_after : Text → Text → Option Text
digits_after [] [] = none
digits_after [] (c ∷ s) = if all is_digit (c ∷ s) then some (c ∷ s) else none
digits_after (p ∷ ps) [] = none
digits_after (p ∷ ps) (c ∷ s) = let later = digits_after ps s in if p == c then later else none

-- The entry of a property name.
unfoldable pub entry_named : List Entry → Text → Option Entry
entry_named [] name = none
entry_named (e ∷ es) name =
    let later = entry_named es name in if text_eq (units e.name) name then some e else later

-- The year of the entry, if its key is the text itself.
abbrev pub year_if_key : String → Option Entry → Option ℕ
year_if_key key none = none
year_if_key key (some e) = if key_of e === key then some e.year else none

abbrev pub named_by : String → Option Text → Option ℕ
named_by key none = none
named_by key (some name) = year_if_key key (entry_named legislations name)

-- `legislationYearOf`; `currentLegislationYear` may be missing.
unfoldable pub legislation_year_of : Option String → Option ℕ
unfolding digits_after entry_named
legislation_year_of none = none
legislation_year_of (some key) = named_by key (digits_after (units key_prefix) (units key))

abbrev pub legislation_keys : List String
legislation_keys = map key_of legislations

-- `defaultLegislationYear`; none where it throws.
unfoldable pub default_legislation_year : List Entry → Option ℕ
default_legislation_year registry = elim (filter (λ e. e.act.is_default) registry) [
  | [] ↦ none
  | e ∷ es ↦ elim es [ [] ↦ some e.year | f ∷ fs ↦ none ]
]

abbrev pub locked_keys : List String
locked_keys = map key_of (filter (λ e. e.act.locked) legislations)

-- `LEGISLATIONS[year].label`.
unfoldable pub label_of : ℕ → Option String
unfolding entry_in
label_of year = elim (entry_in legislations year) [ none ↦ none | some e ↦ some e.act.label ]
