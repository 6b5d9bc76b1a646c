-- ===== src/Prelude/Texts.antt =====
-- Strings. Names, roles and ids are native strings, compared by `str_eq`; a text whose length the
-- code measures is the list of its UTF-16 code units, as JavaScript counts them.
use Prim.Native.Nat.{ℕ}
use Prim.Native.Char.{code}
use Prim.Native.String.{String}
use mathlib.Core.Path.{◌≡◌, refl, subst, sym}
use mathlib.Core.Logic.{◌↔◌, inl, inr}
use mathlib.Core.Bool.{Bool, true, false, ◌||◌, ◌&&◌}
use mathlib.Core.Option.{Option, none, some}
use mathlib.Core.List.{List, [], ◌∷◌, ◌++◌, Memᴰ}
use native.Mathlib.Omega.{arith}
use text.Mathlib.Text.{◌==◌}
use text.Mathlib.TextEquality.{eq_iff}
use eagle_api.Prelude.Tests.{leb, ==_iff, Bool-cases}
use eagle_api.Prelude.Tests as NatTests
use eagle_api.Prelude.Lists.{any, filter}

infix 50 ◌===◌
abbrev pub ◌===◌ : String → String → Bool
s === t = s == t

-- `list.includes(s)` for a list of strings.
abbrev pub includes : List String → String → Bool
includes [] s = false
includes (x ∷ xs) s = x === s || includes xs s

-- `value === "t"` for a value that may be missing.
unfoldable pub is_name : Option String → String → Bool
is_name none t = false
is_name (some s) t = s === t

pub is_name_iff : (o : Option String) (t : String) → (is_name o t ≡ true) ↔ (o ≡ some t)
unfolding is_name
is_name_iff none t = ground arith
is_name_iff (some s) t = ground (arith, eq_iff s t)

abbrev pub Text : Type 0
Text = List ℕ

-- The code units of a text whose characters lie in the basic plane, such as every literal of the
-- source.
abbrev pub units : String → Text
units String.[] = []
units (String.◌∷◌ c s) = code c ∷ units s

-- White space and line ends, which `trim` removes and `\s` matches.
abbrev pub is_space : ℕ → Bool
is_space c =
    leb 9 c && leb c 13
    || NatTests.◌==◌ c 32
    || NatTests.◌==◌ c 160
    || NatTests.◌==◌ c 0x1680
    || leb 0x2000 c && leb c 0x200a
    || NatTests.◌==◌ c 0x2028
    || NatTests.◌==◌ c 0x2029
    || NatTests.◌==◌ c 0x202f
    || NatTests.◌==◌ c 0x205f
    || NatTests.◌==◌ c 0x3000
    || NatTests.◌==◌ c 0xfeff

abbrev pub text_eq : Text → Text → Bool
text_eq [] [] = true
text_eq [] (_ ∷ _) = false
text_eq (_ ∷ _) [] = false
text_eq (a ∷ s) (b ∷ t) = NatTests.◌==◌ a b && text_eq s t

pub text_eq_iff : (s t : Text) → (text_eq s t ≡ true) ↔ (s ≡ t)
text_eq_iff [] [] = ground arith
text_eq_iff [] (b ∷ t) = ground arith
text_eq_iff (a ∷ s) [] = ground arith
text_eq_iff (a ∷ s) (b ∷ t) = ground (arith, text_eq_iff s t)

pub includes-append :
    (xs ys : List String) (s : String) → includes (xs ++ ys) s ≡ (includes xs s || includes ys s)
includes-append [] ys s = refl
includes-append (x ∷ xs) ys s = ground (arith, includes-append xs ys s)

-- Membership by the test is membership.
pub includes→Mem : (xs : List String) (s : String) → includes xs s ≡ true → Memᴰ s xs
includes→Mem [] s h = cc
includes→Mem (x ∷ xs) s h = elim (Bool-cases (x === s)) [
  | inl e ↦ Memᴰ.head (sym ((eq_iff x s).0 e))
  | inr e ↦ Memᴰ.tail (includes→Mem xs s (ground arith))
]

pub Mem→includes : (xs : List String) (s : String) → Memᴰ s xs → includes xs s ≡ true
Mem→includes [] s m = elim m [ ]
Mem→includes (x ∷ xs) s (Memᴰ.head e) = ground (arith, (eq_iff x s).1 (sym e))
Mem→includes (x ∷ xs) s (Memᴰ.tail m) = ground (arith, Mem→includes xs s m)

pub includes-filter :
    (p : String → Bool) (xs : List String) (s : String)
    → includes (filter p xs) s ≡ (includes xs s && p s)
includes-filter p [] s = refl
includes-filter p (x ∷ xs) s = ground (arith, includes-filter p xs s, eq_iff x s)

-- Two lists of strings share one.
abbrev pub Shares : List String → List String → Type 0
Shares xs ys = (s : String) × Memᴰ s xs × Memᴰ s ys

pub any-includes_iff : (xs ys : List String) → (any (includes ys) xs ≡ true) ↔ Shares xs ys
any-includes_iff xs ys = (to xs, λ h. from xs h.0 h.1 h.2)
  where
    to : (zs : List String) → any (includes ys) zs ≡ true → Shares zs ys
    to [] h = cc
    to (z ∷ zs) h = elim (Bool-cases (includes ys z)) [
      | inl here ↦ (z, Memᴰ.head refl, includes→Mem ys z here)
      | inr later ↦ let (s, m, n) = to zs (rw later at h) in (s, Memᴰ.tail m, n)
    ]

    from : (zs : List String) (s : String) → Memᴰ s zs → Memᴰ s ys → any (includes ys) zs ≡ true
    from [] s m n = elim m [ ]
    from (z ∷ zs) s (Memᴰ.head e) n = rw (Mem→includes ys z (subst (λ t. Memᴰ t ys) e n))
    from (z ∷ zs) s (Memᴰ.tail m) n = ground (arith, from zs s m n)
