-- ===== src/PushClient/Outcomes.antt =====
-- What becomes of a push: the result of `send` of api/helpers/pushClient.js.
use mathlib.Core.Option
use eagle_api.Prelude.{
  ◌+◌, ◌-◌, ◌<◌, ◌≤◌, ◌≡◌, ◌⊎◌, Bool, Option, String, arith, false, inl, inr, subst, le→leb, lt→leb,
  dec_lt, none, refl, sym, some, suc, true, zero, ℕ,
}
use eagle_api.PushClient.{
  Response, Reason, landed, taken, dropped, fault, throttled, Sent, after_wait, done, judge,
  send_from, send, backoff_ms,
}
use eagle_api.PushClient.Verdicts.{
  is_landed, is_taken, is_dropped, is_fault, is_throttled, view, Retryable, reason_of, is_ok,
  ok_unexplained, TakenBy, judge_lem,
}

module _ (on_refused : Option (Option String → Bool)) where
  module _ (response : ℕ → Response) (clock jitter : ℕ → ℕ) where
    -- What holds of a run that began at attempt `i`; `last` is its last attempt.
    record Ran (i : ℕ) (r : Sent) : Type 0 where
      last : ℕ
      counted : suc last ≡ i + r.tries
      began : i ≤ last
      landed_ok : r.landed ≡ is_ok (response last)
      explained :
          (r.reason ≡ reason_of (response last))
          ⊎ ((r.reason ≡ none) × TakenBy on_refused (response last))
      earlier : (j : ℕ) → i ≤ j → j < last → Retryable (response j)

    Ran-after_wait :
        {i : ℕ} (ms : ℕ) {o : Option Sent} {r : Sent}
        → Retryable (response i)
        → ((r' : Sent) → o ≡ some r' → Ran (suc i) r')
        → Option.map (after_wait ms) o ≡ some r
        → Ran i r
    Ran-after_wait {i} ms {o} {r} again ran h =
        let (r', e, same) = (Option.map-eq-some_iff _ _).0 h in
        let p = ran r' e in
        rw (← same) (record {
          last = p.last;
          counted = omega (arith, p.counted);
          began = omega (arith, p.began);
          landed_ok = p.landed_ok;
          explained = p.explained;
          earlier = λ j lo hi. elim (dec_lt i j) [
            | yes after ↦ p.earlier j after hi
            | no here ↦
                let same_j : i ≡ j = omega arith in subst (λ k. Retryable (response k)) same_j again
          ];
        })

    Ran-done :
        {i : ℕ} {r : Sent} (ended : Bool) (why : Option Reason)
        → ended ≡ is_ok (response i)
        → (why ≡ reason_of (response i)) ⊎ ((why ≡ none) × TakenBy on_refused (response i))
        → some (done ended why) ≡ some r
        → Ran i r
    Ran-done {i} {r} ended why good reason h =
        let same : done ended why ≡ r = cc in
        rw (← same) (record {
          last = i;
          counted = omega arith;
          began = omega arith;
          landed_ok = good;
          explained = reason;
          earlier = λ j lo hi. absurd (omega arith);
        })

    send_from-Ran :
        (fuel i f t : ℕ) (r : Sent)
        → send_from on_refused response clock jitter fuel i f t ≡ some r
        → Ran i r
    unfolding send_from
    send_from-Ran zero i f t r h = cc
    send_from-Ran (suc fuel) i f t r h = elim (view (judge on_refused (response i) (clock i) t)) [
      | is_landed e ↦
          let ok_now = judge_lem on_refused landed (response i) (clock i) t e in
          Ran-done true none (sym ok_now) (inl (ok_unexplained (response i) ok_now))
            (rw (e, send_from) at h)
      | is_taken e ↦
          let (took, refused_now) = judge_lem on_refused taken (response i) (clock i) t e in
          Ran-done false none (sym refused_now) (inr (refl, took)) (rw (e, send_from) at h)
      | is_dropped why e ↦
          let (reason, refused_now) =
            judge_lem on_refused (dropped why) (response i) (clock i) t e in
          Ran-done false (some why) (sym refused_now) (inl (sym reason)) (rw (e, send_from) at h)
      | is_fault why e ↦
          let (reason, refused_now, again) =
            judge_lem on_refused (fault why) (response i) (clock i) t e in
          elim (dec_lt f 1) [
            | yes first ↦
                Ran-after_wait (backoff_ms + jitter i) again
                  (λ r' e'. send_from-Ran fuel (suc i) (suc f) t r' e')
                  (rw (e, send_from, lt→leb 2 (suc f) (omega arith)) at h)
            | no over ↦
                Ran-done false (some why) (sym refused_now) (inl (sym reason))
                  (rw (e, send_from, le→leb 2 (suc f) (omega arith)) at h)
          ]
      | is_throttled ms e ↦
          let again = judge_lem on_refused (throttled ms) (response i) (clock i) t e in
          Ran-after_wait (ms + jitter i) again (λ r' e'. send_from-Ran fuel (suc i) f (suc t) r' e')
            (rw (e, send_from) at h)
    ]

    -- A push lands exactly if the last response was ok. If it did not land, its one reason is that
    -- of the last response, or there is none and that response is a 404 that `onRefused` took.
    pub send_outcome :
        (r : Sent)
        → send on_refused response clock jitter ≡ some r
        → let last = response (r.tries - 1) in
          (r.landed ≡ is_ok last)
          × ((r.reason ≡ reason_of last) ⊎ ((r.reason ≡ none) × TakenBy on_refused last))
    unfolding send
    send_outcome r h =
        let p = send_from-Ran 5 0 0 0 r h in
        let e : r.tries - 1 ≡ p.last = omega (arith, p.counted) in rw e (p.landed_ok, p.explained)

    -- Only a 429, a status of 500 or more, or an exception is tried again.
    pub send_retries :
        (r : Sent) (j : ℕ)
        → send on_refused response clock jitter ≡ some r
        → suc j < r.tries
        → Retryable (response j)
    unfolding send
    send_retries r j h early =
        let p = send_from-Ran 5 0 0 0 r h in p.earlier j (omega arith) (omega (arith, p.counted))
