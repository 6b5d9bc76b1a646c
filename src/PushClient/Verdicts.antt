-- ===== src/PushClient/Verdicts.antt =====
-- What the loop of `send` (api/helpers/pushClient.js) makes of one response.
use eagle_api.Prelude.{
  ◌≤◌, ◌≡◌, ◌⊎◌, Bool, Option, Option-cases, String, arith, false, inl, inr, none, refl, some, true,
  ℕ,
}
use eagle_api.PushClient.{
  Response, ok, thrown, refused, Reason, failed, rejected, Verdict, landed, taken, dropped, fault,
  throttled, judge,
}

-- To split on a verdict and keep the equation.
pub data View (v : Verdict) : Type 0 where
  is_landed : v ≡ landed → View v
  is_taken : v ≡ taken → View v
  is_dropped : (why : Reason) → v ≡ dropped why → View v
  is_fault : (why : Reason) → v ≡ fault why → View v
  is_throttled : (ms : ℕ) → v ≡ throttled ms → View v

pub view : (v : Verdict) → View v
view landed = is_landed refl
view taken = is_taken refl
view (dropped why) = is_dropped why refl
view (fault why) = is_fault why refl
view (throttled ms) = is_throttled ms refl

-- A response after which the push may be tried again.
abbrev pub Retryable : Response → Type 0
Retryable ok = ⊥
Retryable thrown = Unit {0}
Retryable (refused status code header) = (status ≡ 429) ⊎ (500 ≤ status)

-- The reason that the last response gives for the drop.
abbrev pub reason_of : Response → Option Reason
reason_of ok = none
reason_of thrown = some failed
reason_of (refused status code header) = some (rejected status)

abbrev pub is_ok : Response → Bool
is_ok ok = true
is_ok _ = false

pub ok_unexplained : (r : Response) → is_ok r ≡ true → none ≡ reason_of r
ok_unexplained ok h = refl
ok_unexplained thrown h = cc
ok_unexplained (refused status code header) h = cc

module _ (on_refused : Option (Option String → Bool)) where
  -- A 404 that the caller's `onRefused` takes, and so logs itself.
  abbrev pub TakenBy : Response → Type 0
  TakenBy ok = ⊥
  TakenBy thrown = ⊥
  TakenBy (refused status code header) =
      (take : Option String → Bool) × (on_refused ≡ some take) × (status ≡ 404) × (take code ≡ true)

  -- What each verdict says of the response that it judges.
  abbrev pub Meaning : Verdict → Response → Type 0
  Meaning landed r = is_ok r ≡ true
  Meaning taken r = TakenBy r × (is_ok r ≡ false)
  Meaning (dropped why) r = (reason_of r ≡ some why) × (is_ok r ≡ false)
  Meaning (fault why) r = (reason_of r ≡ some why) × (is_ok r ≡ false) × Retryable r
  Meaning (throttled ms) r = Retryable r

  pub judge_lem :
      (v : Verdict) (r : Response) (now throttles : ℕ)
      → judge on_refused r now throttles ≡ v
      → Meaning v r
  unfolding judge
  judge_lem landed ok now t h = refl
  judge_lem landed thrown now t h = cc
  judge_lem landed (refused status code header) now t h = ground arith
  judge_lem taken ok now t h = cc
  judge_lem taken thrown now t h = cc
  judge_lem taken (refused status code header) now t h = elim (Option-cases on_refused) [
    | inl no_hook ↦ ground arith
    | inr (take, hook) ↦ ((take, hook, ground arith, ground arith), refl)
  ]
  judge_lem (dropped why) r now t h = ground arith
  judge_lem (fault why) ok now t h = cc
  judge_lem (fault why) thrown now t h = ground arith
  judge_lem (fault why) (refused status code header) now t h = ground arith
  judge_lem (throttled ms) ok now t h = cc
  judge_lem (throttled ms) thrown now t h = cc
  judge_lem (throttled ms) (refused status code header) now t h = ground arith
