-- ===== src/Comments/Counters.antt =====
-- The counters of the periods: getNextCommentIdCount of api/controllers/comment.js.
use eagle_api.Prelude.{
  ◌===◌, ◌∙◌, ◌≡◌, ◌≤◌, ◌∷◌, Bool, Bool-cases, List, Option, String, [], ap, arith, if◌then◌else◌,
  inl, inr, some, some-injective, subst, sym, true, ℕ,
}
use eagle_api.Comments.Creating.{SentNumber, count_of, number_from, raise, raised}

-- The counter of a period only rises.
pub raise-le : (sent : SentNumber) (m : ℕ) → m ≤ raise sent m
raise-le SentNumber.unsent m = omega arith
raise-le SentNumber.malformed m = omega arith
raise-le (SentNumber.number n) m = ground arith

pub number_from-le : (sent : SentNumber) (m : ℕ) → number_from sent (raise sent m) ≤ raise sent m
number_from-le SentNumber.unsent m = omega arith
number_from-le SentNumber.malformed m = omega arith
number_from-le (SentNumber.number n) m = ground arith

-- The counters after one has been raised.
pub count_of-raised_self :
    (p : String) (sent : SentNumber) (periods : List (String × ℕ)) (m : ℕ)
    → count_of p periods ≡ some m
    → count_of p (raised p sent periods) ≡ some (raise sent m)
unfolding raised
count_of-raised_self p sent [] m h = absurd (ground (arith, h))
count_of-raised_self p sent ((r, n) ∷ periods) m h =
    let first : Bool → List (String × ℕ) =
      λ t. if t then (r, raise sent n) ∷ periods else (r, n) ∷ raised p sent periods in
    let found : Bool → ℕ → Option ℕ → Option ℕ = λ t k rest. if t then some k else rest in
    elim (Bool-cases (r === p)) [
      | inl same ↦
          ap (λ t. count_of p (first t)) same
          ∙ ap (λ t. found t (raise sent n) (count_of p periods)) same
          ∙ ap (λ k. some (raise sent k))
              (some-injective (sym (ap (λ t. found t n (count_of p periods)) same) ∙ h))
      | inr other ↦
          ap (λ t. count_of p (first t)) other
          ∙ ap (λ t. found t n (count_of p (raised p sent periods))) other
          ∙ count_of-raised_self p sent periods m
              (sym (ap (λ t. found t n (count_of p periods)) other) ∙ h)
    ]

pub count_of-raised :
    (p q : String) (sent : SentNumber) (periods : List (String × ℕ)) (k : ℕ)
    → count_of q (raised p sent periods) ≡ some k
    → (j : ℕ) × (count_of q periods ≡ some j) × (j ≤ k)
unfolding raised
count_of-raised p q sent [] k h = absurd (ground (arith, h))
count_of-raised p q sent ((r, n) ∷ periods) k h =
    let first : Bool → List (String × ℕ) =
      λ t. if t then (r, raise sent n) ∷ periods else (r, n) ∷ raised p sent periods in
    let found : Bool → ℕ → Option ℕ → Option ℕ = λ t k rest. if t then some k else rest in
    let here : (c : ℕ) (rest : List (String × ℕ))
        → n ≤ c
        → (r === q ≡ true)
        → count_of q ((r, c) ∷ rest) ≡ some k
        → (j : ℕ) × (found (r === q) n (count_of q periods) ≡ some j) × (j ≤ k) =
      λ c rest le same e.
        let c_k : c ≡ k = some-injective (sym (ap (λ t. found t c (count_of q rest)) same) ∙ e) in
        (n, ap (λ t. found t n (count_of q periods)) same, subst (λ z. n ≤ z) c_k le) in
    elim (Bool-cases (r === p)) [
      | inl raised_here ↦
          let e = sym (ap (λ t. count_of q (first t)) raised_here) ∙ h in
          elim (Bool-cases (r === q)) [
            | inl same ↦ here (raise sent n) periods (raise-le sent n) same e
            | inr other ↦
                let unchanged : count_of q periods ≡ some k =
                  sym (ap (λ t. found t (raise sent n) (count_of q periods)) other) ∙ e in
                (k, ap (λ t. found t n (count_of q periods)) other ∙ unchanged, omega arith)
          ]
      | inr elsewhere ↦
          let e = sym (ap (λ t. count_of q (first t)) elsewhere) ∙ h in
          elim (Bool-cases (r === q)) [
            | inl same ↦ here n (raised p sent periods) (omega arith) same e
            | inr other ↦
                let (j, known, le) =
                  count_of-raised p q sent periods k
                    (sym (ap (λ t. found t n (count_of q (raised p sent periods))) other) ∙ e) in
                (j, ap (λ t. found t n (count_of q periods)) other ∙ known, le)
          ]
    ]
