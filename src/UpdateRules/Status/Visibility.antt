-- ===== src/UpdateRules/Status/Visibility.antt =====
-- What an Update's status decides.
use eagle_api.Prelude.{
  is_name, ◌&&◌, ◌||◌, leb, Option, ◌++◌, ◌===◌, ◌≡◌, ◌≢◌, ◌⊎◌, ◌↔◌, ◌∷◌, Bool, List, String, [],
  arith, eq_iff, false, filter, if◌then◌else◌, includes, includes-append, includes-filter, none,
  not, refl, some, true, ℕ,
}
use eagle_api.Mongo.{Mongo}
use eagle_api.UpdateRules.{Update, is_blank_name}
use eagle_api.UpdateRules.Status.{
  apply_status, base_read, is_due, is_live, is_true, is_unset, lay_over, public_visible_match,
  row_of, status_of,
}

includes-read :
    (rs : List String) (p : Bool) (role : String)
    → includes (filter (λ r. not (r === "public")) rs ++ (if p then "public" ∷ [] else [])) role
      ≡ (if role === "public" then p else includes rs role)
includes-read rs p role = ground (
  arith,
  includes-append (filter (λ r. not (r === "public")) rs) (if p then "public" ∷ [] else []) role,
  includes-filter (λ r. not (r === "public")) rs role,
  eq_iff role "public",
  eq_iff "public" role,
)

-- After `applyStatus` the three fields agree: an Update is active exactly if its status is
-- "published", and its `read[]` holds "public" exactly then; every other role is there exactly if
-- it was among the row's roles, or the secure roles where the row had none.
pub apply_status-agrees :
    (now : ℕ) (was_live : Bool) (target update : Update) (role : String)
    → let t = apply_status now was_live target update in
      (t.active ≡ some (is_name t.status "published"))
      × (xs : List String) × (t.read ≡ some xs)
      × (includes xs role ≡ (
          if role === "public"
          then is_name t.status "published"
          else includes (base_read update.read) role))
unfolding apply_status is_name
apply_status-agrees now was_live target update role =
    (refl, _, refl, includes-read (base_read update.read) (status_of update === "published") role)

abbrev is_past : Option ℕ → ℕ → Bool
is_past none now = false
is_past (some d) now = leb d now

-- A row with no status that is active with a date to come (the query shows it), a published row
-- with no date, and a due active row with a blank status text (both are live, and the query does
-- not show them).
abbrev pub Differs : Update → ℕ → Type 0
Differs u now =
    ((u.status ≡ none) × (u.active ≡ some true) × (is_due u.publish_date now ≡ false))
    ⊎ ((u.status ≡ some "published") × (u.publish_date ≡ none))
    ⊎ ((is_unset u.status ≡ false)
        × (is_blank_name u.status ≡ true)
        × (u.active ≡ some true)
        × (is_due u.publish_date now ≡ true))

published_not_blank : (s : String) → (s === "published") ≡ true → is_blank_name (some s) ≡ false
unfolding is_blank_name
published_not_blank s h = rw ((eq_iff s "published").0 h)

none_blank : is_blank_name none ≡ true
unfolding is_blank_name
none_blank = refl

-- The two tests over the three fields.
abbrev matched : Option String → Option Bool → Option ℕ → ℕ → Bool
matched s a d now = is_name s "published" && is_past d now || is_unset s && is_true a

abbrev live : Option String → Option Bool → Option ℕ → ℕ → Bool
live s a d now = (is_name s "published" || is_blank_name s && is_true a) && is_due d now

differs_iff :
    (s : Option String) (a : Option Bool) (d : Option ℕ) (now : ℕ)
    → (matched s a d now ≢ live s a d now) ↔ (
        ((s ≡ none) × (a ≡ some true) × (is_due d now ≡ false))
        ⊎ ((s ≡ some "published") × (d ≡ none))
        ⊎ ((is_unset s ≡ false)
            × (is_blank_name s ≡ true)
            × (a ≡ some true)
            × (is_due d now ≡ true)))
unfolding is_name
differs_iff none a d now = ground (arith, none_blank)
differs_iff (some s) a d now = ground (arith, eq_iff s "published", published_not_blank s)

module _ (mongo : Mongo) where
  open mongo use {matches, matches-at, matches-both, matches-either}

  -- The query of the public reads, by the meaning of its operators.
  public_visible_match_lem :
      (now : ℕ) (u : Update)
      → matches (public_visible_match now) (row_of u) ≡ (
          is_name u.status "published" && is_past u.publish_date now
          || is_unset u.status && is_true u.active)
  unfolding public_visible_match row_of is_name
  public_visible_match_lem now u = simp (matches-either, matches-both, matches-at) (ground arith)

  -- A row as it is stored after `applyStatus` is matched by the query of the public reads exactly
  -- if it is live, at any later moment, whatever the row and the request body held before.
  pub apply_status-is_live :
      (now later : ℕ) (was_live : Bool) (body merged : Update)
      → let stored = lay_over merged (apply_status now was_live body merged) in
        matches (public_visible_match later) (row_of stored) ≡ is_live stored later
  unfolding apply_status lay_over is_live is_name
  apply_status-is_live now later was_live body merged =
      rw (public_visible_match_lem later _) (ground arith)

  -- The query of the public reads and `isLive` agree on every row but three kinds, on which they
  -- differ: an active row without a status whose date is to come, a published row without a date, and
  -- a due active row whose status is a blank text.
  pub public_visible_match-is_live :
      (now : ℕ) (u : Update)
      → (matches (public_visible_match now) (row_of u) ≢ is_live u now) ↔ Differs u now
  unfolding is_live
  public_visible_match-is_live now u =
      rw (public_visible_match_lem now u) (differs_iff u.status u.active u.publish_date now)
