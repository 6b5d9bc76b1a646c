-- ===== src/UpdateRules/Status/Pipeline.antt =====
-- What the stages of visibilityAggr (api/helpers/updateRules.js) show of a row.
use eagle_api.Prelude.{
  refl, eq_iff, ◌↔◌, ◌≢◌, Memᴰ, subst, ◌≡◌, ◌∷◌, ◌⊎◌, Bool, Bool-cases, List, Option,
  some-injective, String, [], any, arith, false, if◌then◌else◌, includes, inl, inr, none, some,
  true, ℕ, ap, sym, ◌∙◌,
}
use eagle_api.Mongo.{Field, Mongo, Row, Value, equals, is_at_most}
use eagle_api.UpdateRules.Status.{
  Stage, drop, hidden_from_public, hidden_keys, is_public_caller, keep, public_visible_match,
  reaches, secure_roles, visibility_aggr,
}

abbrev pub without : List String → Row → Row
without fields row path = if includes fields path then Field.absent else row path

outside :
    (roles : List String) (include_archived : Bool) (now : ℕ)
    → any (includes secure_roles) roles ≡ false
    → visibility_aggr roles include_archived now
      ≡ keep (public_visible_match now) ∷ drop hidden_from_public ∷ []
unfolding visibility_aggr is_public_caller
outside roles include_archived now h = ground (arith, h)

reaches-hidden :
    (key : String)
    → any (reaches key) hidden_from_public ≡ false
    → includes hidden_from_public key ≡ false
reaches-hidden key h = ground (arith, h)

hidden_keys-nil :
    (keys : List String) (key : String)
    → hidden_keys keys ≡ []
    → Memᴰ key keys
    → any (reaches key) hidden_from_public ≡ false
unfolding hidden_keys
hidden_keys-nil [] key h m = elim m [ ]
hidden_keys-nil (k ∷ ks) key h m = elim (Bool-cases (any (reaches k) hidden_from_public)) [
  | inl hidden ↦ absurd (ground (arith, h, hidden))
  | inr clear ↦ elim m [
    | Memᴰ.head e ↦ subst (λ x. any (reaches x) hidden_from_public ≡ false) (sym e) clear
    | Memᴰ.tail n ↦ hidden_keys-nil ks key (ground (arith, h, clear)) n
  ]
]

-- Published and due, or active without a status.
abbrev pub IsVisible : ℕ → Row → Type 0
IsVisible now row =
    ((equals (row "status") (Value.str "published") ≡ true)
      × (is_at_most (row "publishDate") now ≡ true))
    ⊎ ((equals (row "status") Value.null ≡ true) × (equals (row "active") (Value.bool true) ≡ true))

abbrev pub IsStaffField : String → Type 0
IsStaffField path =
    (path ≡ "notifiedAt") ⊎ (path ≡ "_addedBy") ⊎ (path ≡ "_updatedBy") ⊎ (path ≡ "_deletedBy")

hidden_from_public_iff :
    (path : String) → (includes hidden_from_public path ≡ true) ↔ IsStaffField path
hidden_from_public_iff path = ground (
  arith,
  eq_iff "notifiedAt" path,
  eq_iff "_addedBy" path,
  eq_iff "_updatedBy" path,
  eq_iff "_deletedBy" path,
)

no_secure_role :
    (roles : List String)
    → includes roles "sysadmin" ≡ false
    → includes roles "staff" ≡ false
    → any (includes secure_roles) roles ≡ false
no_secure_role [] a s = refl
no_secure_role (r ∷ rs) a s = ground (
  arith,
  a,
  s,
  eq_iff r "sysadmin",
  eq_iff "sysadmin" r,
  eq_iff r "staff",
  eq_iff "staff" r,
  no_secure_role rs (ground (arith, a)) (ground (arith, s)),
)

some_iff :
    (b : Bool) (o : Option Row) (x : Row)
    → o ≡ (if b then some x else none)
    → (o ≢ none) ↔ (b ≡ true)
some_iff true o x e = (λ k. refl, λ t n. ground (arith, e, n))
some_iff false o x e = (λ k. absurd (k e), λ t. absurd (ground (arith, t)))

some-same : (b : Bool) {x y : Row} → (if b then some x else none) ≡ some y → x ≡ y
some-same true e = some-injective e
some-same false e = absurd (ground (arith, e))

module _ (mongo : Mongo) where
  -- A row after the stages, none where one of them drops it.
  abbrev pub show : List Stage → Row → Option Row
  show [] row = some row
  show (keep q ∷ stages) row = if mongo.matches q row then show stages row else none
  show (drop fields ∷ stages) row = show stages (without fields row)

  public_visible_match_iff :
      (now : ℕ) (row : Row)
      → (mongo.matches (public_visible_match now) row ≡ true) ↔ IsVisible now row
  unfolding public_visible_match
  public_visible_match_iff now row =
      simp (mongo.matches-either, mongo.matches-both, mongo.matches-at) (ground arith)

  -- What a caller is shown who is neither sysadmin nor staff.
  shown_to_public :
      (roles : List String) (include_archived : Bool) (now : ℕ) (row : Row)
      → includes roles "sysadmin" ≡ false
      → includes roles "staff" ≡ false
      → show (visibility_aggr roles include_archived now) row ≡ (
          if mongo.matches (public_visible_match now) row
          then some (without hidden_from_public row)
          else none)
  shown_to_public roles include_archived now row no_admin no_staff =
      ap (λ stages. show stages row)
        (outside roles include_archived now (no_secure_role roles no_admin no_staff))

  -- A caller who is neither sysadmin nor staff is shown a row exactly if it is published with a
  -- publish date that is not to come, or has no status and is active, whether archived rows were asked
  -- for or not; and is shown nothing of notifiedAt, _addedBy, _updatedBy and _deletedBy, and every
  -- other field as it is stored.
  pub visibility_aggr-show :
      (roles : List String) (include_archived : Bool) (now : ℕ) (row : Row)
      → includes roles "sysadmin" ≡ false
      → includes roles "staff" ≡ false
      → ((show (visibility_aggr roles include_archived now) row ≢ none) ↔ IsVisible now row)
        × ((seen : Row)
            → show (visibility_aggr roles include_archived now) row ≡ some seen
            → (path : String)
            → (IsStaffField path × (seen path ≡ Field.absent))
              ⊎ (¬ (IsStaffField path) × (seen path ≡ row path)))
  visibility_aggr-show roles include_archived now row no_admin no_staff =
      let shown = shown_to_public roles include_archived now row no_admin no_staff in
      let visible = public_visible_match_iff now row in
      (
        let (to, from) =
              some_iff (mongo.matches (public_visible_match now) row)
                (show (visibility_aggr roles include_archived now) row)
                (without hidden_from_public row) shown in
            (λ k. visible.0 (to k), λ v. from (visible.1 v)),
        λ seen h path.
            let same : without hidden_from_public row path ≡ seen path =
              ap (λ (r : Row). r path)
                (some-same (mongo.matches (public_visible_match now) row) (sym shown ∙ h)) in
            elim (Bool-cases (includes hidden_from_public path)) [
              | inl staff ↦ inl (
                (hidden_from_public_iff path).0 staff,
                sym same ∙ ap (λ b. if b then Field.absent else row path) staff,
              )
              | inr clear ↦ inr (
                λ f. absurd (ground (arith, clear, (hidden_from_public_iff path).1 f)),
                sym same ∙ ap (λ b. if b then Field.absent else row path) clear,
              )
            ],
      )

  -- Where hiddenKeys finds none of the keys of a filter or a sort, a caller who is
  -- neither sysadmin nor staff sees under each of them the value that is stored.
  hidden_keys-show :
      (keys : List String) (key : String) (roles : List String) (include_archived : Bool) (now : ℕ)
      (row seen : Row)
      → hidden_keys keys ≡ []
      → Memᴰ key keys
      → includes roles "sysadmin" ≡ false
      → includes roles "staff" ≡ false
      → show (visibility_aggr roles include_archived now) row ≡ some seen
      → seen key ≡ row key
  hidden_keys-show keys key roles include_archived now row seen none_hidden m no_admin no_staff h =
      elim ((visibility_aggr-show roles include_archived now row no_admin no_staff).1 seen h key) [
        | inr (clear, same) ↦ same
        | inl (staff, gone) ↦
            let clear = reaches-hidden key (hidden_keys-nil keys key none_hidden m) in
            absurd (ground (arith, (hidden_from_public_iff key).1 staff, clear))
      ]
