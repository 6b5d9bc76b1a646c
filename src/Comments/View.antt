-- ===== src/Comments/View.antt =====
-- What a comment shows of its row: the projection and the redaction of publicGet in
-- api/controllers/comment.js.
use eagle_api.Prelude.{
  includes-append, includes-filter, ◌&&◌, ◌++◌, ◌===◌, ◌∷◌, ◌∙◌, ◌≡◌, eq_iff, ◌⊎◌, ◌||◌, Bool,
  Bool-cases, List, Option, String, [], ap, arith, false, if◌then◌else◌, includes, inl, inr, none,
  not, refl, some, subst, sym, true,
}
use eagle_api.Mongo.{Field, Row}
use eagle_api.DataQuery.{default_fields}
use eagle_api.DataQuery.Params.{sanitize_fields}
use eagle_api.DataQuery.Engine.{restrict}
use eagle_api.Comments.{
  comment_public_fields, is_known_author, public_comment_fields, reads_anonymity, redact_comment,
  without,
}

-- The fields that publicGet projects, of the sanitized fields.
abbrev pub shown_fields : List String → List String
shown_fields fields = default_fields ++ public_comment_fields fields

author_shown :
    (fields : List String) → includes (shown_fields fields) "author" ≡ includes fields "author"
unfolding public_comment_fields reads_anonymity
author_shown fields = go (includes fields "author" && not (includes fields "isAnonymous"))
  where
    go :
        (b : Bool)
        → includes (if b then fields ++ "isAnonymous" ∷ [] else fields) "author"
          ≡ includes fields "author"
    go true = includes-append fields ("isAnonymous" ∷ []) "author" ∙ ground arith
    go false = refl

anonymity_shown :
    (fields : List String)
    → includes fields "author" ≡ true
    → includes (shown_fields fields) "isAnonymous" ≡ true
unfolding public_comment_fields reads_anonymity
anonymity_shown fields h = elim (Bool-cases (includes fields "isAnonymous")) [
  | inl there ↦
      ap (λ b. includes (if b then fields ++ "isAnonymous" ∷ [] else fields) "isAnonymous")
        {y = false} (ground (arith, h, there))
      ∙ there
  | inr missing ↦
      ap (λ b. includes (if b then fields ++ "isAnonymous" ∷ [] else fields) "isAnonymous")
        {y = true} (ground (arith, h, missing))
      ∙ includes-append fields ("isAnonymous" ∷ []) "isAnonymous"
      ∙ ground (arith, missing)
]

or_false : (b : Bool) → b ≡ (b || false)
or_false b = ground arith

sanitize_fields-allowed :
    (fields : Option (List String)) (allowed : List String) (p : String)
    → includes (sanitize_fields fields allowed) p ≡ true
    → includes allowed p ≡ true
unfolding sanitize_fields
sanitize_fields-allowed none allowed p h = ground (arith, h)
sanitize_fields-allowed (some fields) allowed p h =
    ground (arith, includes-filter (includes allowed) fields p, h)

public_comment_fields-public :
    (fields : List String) (p : String)
    → (includes fields p ≡ true → includes comment_public_fields p ≡ true)
    → includes (public_comment_fields fields) p ≡ true
    → includes comment_public_fields p ≡ true
unfolding public_comment_fields reads_anonymity
public_comment_fields-public fields p h =
    go (includes fields "author" && not (includes fields "isAnonymous"))
  where
    go :
        (b : Bool)
        → includes (if b then fields ++ "isAnonymous" ∷ [] else fields) p ≡ true
        → includes comment_public_fields p ≡ true
    go false k = h k
    go true k = elim (Bool-cases (includes fields p)) [
      | inl inside ↦ h inside
      | inr outside ↦
          let rest : includes ("isAnonymous" ∷ []) p ≡ true =
            ap (λ b. b || includes ("isAnonymous" ∷ []) p) (sym outside)
            ∙ sym (includes-append fields ("isAnonymous" ∷ []) p)
            ∙ k in
          subst (λ z. includes comment_public_fields z ≡ true)
            ((eq_iff "isAnonymous" p).0 (or_false _ ∙ rest)) refl
    ]

shown_fields-public :
    (allowed : Option (List String)) (p : String)
    → includes (shown_fields (sanitize_fields allowed comment_public_fields)) p ≡ true
    → includes (default_fields ++ comment_public_fields) p ≡ true
shown_fields-public allowed p h =
    let fields : List String = sanitize_fields allowed comment_public_fields in
    let inside =
      public_comment_fields-public fields p
        (sanitize_fields-allowed allowed comment_public_fields p) in
    ground (arith, includes-append default_fields (public_comment_fields fields) p, inside, h)

-- The redaction, by its two tests.
abbrev redacted : Bool → Bool → Row → Row
redacted reads known y =
    let named : Row = if known then y else without "author" y in
    if reads then without "isAnonymous" named else named

redacted-author :
    (reads known : Bool) (y : Row)
    → redacted reads known y "author" ≡ (if known then y "author" else Field.absent)
redacted-author true true y = refl
redacted-author true false y = refl
redacted-author false true y = refl
redacted-author false false y = refl

without-path :
    (key : String) (y : Row) (p : String)
    → (without key y p ≡ y p) ⊎ (without key y p ≡ Field.absent)
without-path key y p = elim (Bool-cases (p === key)) [
  | inl same ↦ inr (ap (λ b. if b then Field.absent else y p) same)
  | inr other ↦ inl (ap (λ b. if b then Field.absent else y p) other)
]

redacted-path :
    (reads known : Bool) (y : Row) (p : String)
    → (redacted reads known y p ≡ y p) ⊎ (redacted reads known y p ≡ Field.absent)
redacted-path true true y p = without-path "isAnonymous" y p
redacted-path true false y p = elim (without-path "isAnonymous" (without "author" y) p) [
  | inr gone ↦ inr gone
  | inl same ↦ elim (without-path "author" y p) [
    | inl e ↦ inl (same ∙ e)
    | inr gone ↦ inr (same ∙ gone)
  ]
]
redacted-path false true y p = inl refl
redacted-path false false y p = without-path "author" y p

-- The author of a comment as it is shown: only where the caller asked for it and the row says that
-- it is not anonymous.
pub redact_comment-author :
    (fields : List String) (x y : Row)
    → ((p : String) → y p ≡ restrict (shown_fields fields) x p)
    → redact_comment fields y "author" ≡ (
        if includes fields "author" && is_known_author (x "isAnonymous")
        then x "author"
        else Field.absent)
unfolding redact_comment public_comment_fields
redact_comment-author fields x y shown =
    let author : y "author" ≡ (if includes fields "author" then x "author" else Field.absent) =
      shown "author" ∙ ap (λ b. if b then x "author" else Field.absent) (author_shown fields) in
    redacted-author _ (is_known_author (y "isAnonymous")) y
    ∙ elim (Bool-cases (includes fields "author")) [
      | inl asked ↦
          let anonymity : y "isAnonymous" ≡ x "isAnonymous" =
            shown "isAnonymous"
            ∙ ap (λ b. if b then x "isAnonymous" else Field.absent)
                (anonymity_shown fields asked) in
          ground (arith, author, asked, ap is_known_author anonymity)
      | inr not_asked ↦ ground (arith, author, not_asked)
    ]

-- Every other path shows what the row holds, or nothing.
pub redact_comment-path :
    (fields : List String) (x y : Row) (p : String)
    → y p ≡ restrict (shown_fields fields) x p
    → (redact_comment fields y p ≡ x p) ⊎ (redact_comment fields y p ≡ Field.absent)
unfolding redact_comment
redact_comment-path fields x y p shown = elim (redacted-path _ _ y p) [
  | inr gone ↦ inr gone
  | inl same ↦ elim (Bool-cases (includes (shown_fields fields) p)) [
    | inl inside ↦ inl (same ∙ shown ∙ ap (λ b. if b then x p else Field.absent) inside)
    | inr outside ↦ inr (same ∙ shown ∙ ap (λ b. if b then x p else Field.absent) outside)
  ]
]

-- Only the public fields are shown.
pub redact_comment-public :
    (allowed : Option (List String)) (x y : Row) (p : String)
    → y p ≡ restrict (shown_fields (sanitize_fields allowed comment_public_fields)) x p
    → includes (default_fields ++ comment_public_fields) p ≡ false
    → redact_comment (sanitize_fields allowed comment_public_fields) y p ≡ Field.absent
unfolding redact_comment
redact_comment-public allowed x y p shown outside =
    let fields : List String = sanitize_fields allowed comment_public_fields in
    let hidden : includes (shown_fields fields) p ≡ false =
      ground (arith, shown_fields-public allowed p, outside) in
    elim (redacted-path _ _ y p) [
      | inr gone ↦ gone
      | inl same ↦ same ∙ shown ∙ ap (λ b. if b then x p else Field.absent) hidden
    ]
