-- ===== src/PushClient/Retries.antt =====
-- How often `send` of api/helpers/pushClient.js tries a push, and how long it waits.
use mathlib.Core.Option
use eagle_api.Prelude.{
  ◌+◌, ◌-◌, ◌*◌, ◌<◌, ◌≤◌, ◌≡◌, ◌⊎◌, ◌∷◌, Bool, List, Option, String, [], arith, false, inl, inr,
  le→leb, lt→leb, dec_lt, none, refl, some, suc, true, zero, ℕ,
}
use eagle_api.PushClient.{
  RetryAfter, retry_after_ms, Response, ok, thrown, refused, throttled, Sent, after_wait, done,
  judge, send_from, send, retry_after_min_ms, retry_after_max_ms, jitter_ms, backoff_ms,
}
use eagle_api.PushClient.Verdicts.{is_landed, is_taken, is_dropped, is_fault, is_throttled, view}

pub retry_after_ms_bounds :
    (h : RetryAfter) (now : ℕ)
    → (retry_after_min_ms ≤ retry_after_ms h now) × (retry_after_ms h now ≤ retry_after_max_ms)
unfolding retry_after_ms
retry_after_ms_bounds h now = ground arith

abbrev pub total : List ℕ → ℕ
total [] = 0
total (x ∷ xs) = x + total xs

module _ (on_refused : Option (Option String → Bool)) where
  judge_throttled :
      (r : Response) (now throttles ms : ℕ)
      → judge on_refused r now throttles ≡ throttled ms
      → (throttles < 3) × (ms ≤ retry_after_max_ms)
  unfolding judge
  judge_throttled ok now throttles ms h = cc
  judge_throttled thrown now throttles ms h = cc
  judge_throttled (refused s c hd) now throttles ms h = ground (arith, retry_after_ms_bounds hd now)

  module _ (response : ℕ → Response) (clock jitter : ℕ → ℕ) where
    -- A run that ends in time: its tries and the sum of its waits are bounded by the retries left.
    abbrev EndsWithin : ℕ → ℕ → Option Sent → Type 0
    EndsWithin failures throttles o =
        (r : Sent) × (o ≡ some r)
        × (r.tries ≤ 1 + (1 - failures) + (3 - throttles))
        × (total r.waited ≤ (1 - failures) * 1999 + (3 - throttles) * 60999)

    after_wait-EndsWithin :
        (ms f t f' t' : ℕ) (o : Option Sent)
        → EndsWithin f' t' o
        → ((f' ≡ suc f) × (f ≡ 0) × (t' ≡ t) × (ms ≤ 1999))
          ⊎ ((f' ≡ f) × (t' ≡ suc t) × (t < 3) × (ms ≤ 60999))
        → EndsWithin f t (Option.map (after_wait ms) o)
    after_wait-EndsWithin ms f t f' t' o (r, e, n, w) k =
        (after_wait ms r, rw e, ground arith, ground arith)

    -- Enough fuel: one round for each retry that is left, and the last.
    send_from_total :
        (fuel i failures throttles : ℕ)
        → failures ≤ 1
        → throttles ≤ 3
        → (1 - failures) + (3 - throttles) < fuel
        → ((j : ℕ) → jitter j < jitter_ms)
        → EndsWithin failures throttles
            (send_from on_refused response clock jitter fuel i failures throttles)
    unfolding send_from
    send_from_total zero i f t hf ht h hj = absurd (omega arith)
    send_from_total (suc fuel) i f t hf ht h hj =
        elim (view (judge on_refused (response i) (clock i) t)) [
          | is_landed e ↦ (done true none, rw (e, send_from), omega arith, omega arith)
          | is_taken e ↦ (done false none, rw (e, send_from), omega arith, omega arith)
          | is_dropped why e ↦ (done false (some why), rw (e, send_from), omega arith, omega arith)
          | is_fault why e ↦ elim (dec_lt f 1) [
            | yes first ↦
                rw (e, send_from, lt→leb 2 (suc f) (omega arith))
                  (after_wait-EndsWithin (backoff_ms + jitter i) f t (suc f) t _
                    (send_from_total fuel (suc i) (suc f) t (omega arith) ht (omega arith) hj)
                    (inl (refl, omega arith, refl, omega (arith, hj i))))
            | no last ↦ (
              done false (some why),
              rw (e, send_from, le→leb 2 (suc f) (omega arith)),
              omega arith,
              omega arith,
            )
          ]
          | is_throttled ms e ↦
              let (t3, short) = judge_throttled (response i) (clock i) t ms e in
              rw (e, send_from)
                (after_wait-EndsWithin (ms + jitter i) f t f (suc t) _
                  (send_from_total fuel (suc i) f (suc t) hf (omega arith) (omega arith) hj)
                  (inr (refl, refl, t3, omega (arith, hj i))))
        ]

    -- If the jitter stays below its bound, `send` ends for every sequence of responses, after at most
    -- five attempts and pauses of less than 185 seconds in all.
    pub send-total :
        ((j : ℕ) → jitter j < jitter_ms)
        → (r : Sent) × (send on_refused response clock jitter ≡ some r)
          × (r.tries ≤ 5)
          × (total r.waited ≤ 184996)
    unfolding send
    send-total hj = send_from_total 5 0 0 0 (omega arith) (omega arith) (omega arith) hj
