-- ===== src/PushClient.antt =====
-- One push to a downstream service: `send`, `retryAfterMs` and `refusalCode` of
-- api/helpers/pushClient.js. `fetch`, the clock and the jitter are parameters: the answer to the
-- i-th attempt, the moment it came at, and the random part of the pause after it.
pub mod Verdicts
pub mod Retries
pub mod Outcomes
pub mod Slots
use eagle_api.Prelude.{
  ◌&&◌, ◌+◌, ◌-◌, ◌<◌, ◌==◌, ◌∷◌, Bool, List, Option, String, [], false, if◌then◌else◌, leb, ltb,
  max, min, none, some, suc, true, zero, ℕ,
}
use mathlib.Core.Option

abbrev pub attempts : ℕ
attempts = 2

abbrev pub backoff_ms : ℕ
backoff_ms = 1000

abbrev pub throttle_retries : ℕ
throttle_retries = 3

abbrev pub retry_after_min_ms : ℕ
retry_after_min_ms = 1000

abbrev pub retry_after_max_ms : ℕ
retry_after_max_ms = 60000

abbrev pub jitter_ms : ℕ
jitter_ms = 1000

-- The Retry-After header as `Number` and `Date.parse` read it: nothing or blank, a delay in
-- milliseconds (negative, finite or infinite), a date, or neither.
pub data RetryAfter : Type 0 where
  missing negative infinite unreadable : RetryAfter
  delay date : ℕ → RetryAfter

unfoldable pub retry_after_ms : RetryAfter → ℕ → ℕ
retry_after_ms missing now = retry_after_min_ms
retry_after_ms unreadable now = retry_after_min_ms
retry_after_ms negative now = retry_after_min_ms
retry_after_ms infinite now = retry_after_max_ms
retry_after_ms (delay ms) now = min retry_after_max_ms (max retry_after_min_ms ms)
retry_after_ms (date t) now =
    if ltb t now
    then retry_after_min_ms
    else min retry_after_max_ms (max retry_after_min_ms (t - now))

-- What one attempt comes to: an ok response, any other with its status, the `code` of its JSON
-- body and its Retry-After, or an exception of the pacer, of `fetch` or of its timeout.
pub data Response : Type 0 where
  ok thrown : Response
  refused : ℕ → Option String → RetryAfter → Response

-- Why a push was dropped: the text of the push-dropped line.
pub data Reason : Type 0 where
  failed : Reason
  rejected : ℕ → Reason

-- What the loop does with an attempt: leave with true or false, or count it and try again.
pub data Verdict : Type 0 where
  landed taken : Verdict
  dropped fault : Reason → Verdict
  throttled : ℕ → Verdict

-- The outcome of a push: `reason` is none if it landed or the caller took the record.
pub record Sent : Type 0 where
  pub landed : Bool
  pub reason : Option Reason
  pub tries : ℕ
  pub waited : List ℕ

abbrev pub after_wait : ℕ → Sent → Sent
after_wait ms r = record r { tries = suc r.tries; waited = ms ∷ r.waited }

abbrev pub done : Bool → Option Reason → Sent
done ended why = record { landed = ended; reason = why; tries = 1; waited = [] }

-- `onRefused` of the client for this label, none where the client has none.
module _ (on_refused : Option (Option String → Bool)) where
  unfoldable pub judge_status : ℕ → RetryAfter → ℕ → ℕ → Verdict
  judge_status status header now throttles =
      if status == 429 && ltb throttles throttle_retries
      then throttled (retry_after_ms header now)
      else if ltb status 500
      then dropped (rejected status)
      else fault (rejected status)

  -- The body of the loop up to its `continue` and `break`.
  unfoldable pub judge : Response → ℕ → ℕ → Verdict
  unfolding judge_status
  judge ok now throttles = landed
  judge thrown now throttles = fault failed
  judge (refused status code header) now throttles = elim on_refused [
    | none ↦ judge_status status header now throttles
    | some take ↦
        if status == 404
        then if take code then taken else dropped (rejected 404)
        else judge_status status header now throttles
  ]

  module _ (response : ℕ → Response) (clock jitter : ℕ → ℕ) where
    -- The loop from attempt `i`; none means that the fuel ran out.
    unfoldable pub send_from : ℕ → ℕ → ℕ → ℕ → Option Sent
    send_from zero i failures throttles = none
    send_from (suc fuel) i failures throttles = elim (judge (response i) (clock i) throttles) [
      | landed ↦ some (done true none)
      | taken ↦ some (done false none)
      | dropped why ↦ some (done false (some why))
      | fault why ↦
          if leb attempts (suc failures)
          then some (done false (some why))
          else Option.map (after_wait (backoff_ms + jitter i))
              (send_from fuel (suc i) (suc failures) throttles)
      | throttled ms ↦
          Option.map (after_wait (ms + jitter i)) (send_from fuel (suc i) failures (suc throttles))
    ]

    -- Five attempts are the most that the loop makes.
    unfoldable pub send : Option Sent
    send = send_from 5 0 0 0
