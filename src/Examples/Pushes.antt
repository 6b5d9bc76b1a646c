-- ===== src/Examples/Pushes.antt =====
-- A push that is throttled, then fails and then lands, and a client with one slot.
use eagle_api.Prelude.{
  ◌++◌, ◌-◌, ◌≡◌, ◌≤◌, ◌⊎◌, ◌∷◌, [], arith, none, refl, some, suc, true, zero, ℕ,
}
use eagle_api.PushClient.{
  Response, RetryAfter, Sent, judge, judge_status, ok, refused, retry_after_ms, send, send_from,
}
use eagle_api.PushClient.Verdicts.{TakenBy, is_ok, reason_of}
use eagle_api.PushClient.Retries.{send-total, total}
use eagle_api.PushClient.Outcomes.{send_outcome}
use eagle_api.PushClient.Slots.{Limits, all_accepted, arrive, idle, run, settle}
use eagle_api.PushClient.Slots.Queue.{Inv, run-Inv, run-fifo}

-- 429 with a second to wait, 503, then ok.
abbrev answers : ℕ → Response
answers zero = refused 429 none (RetryAfter.delay 2000)
answers (suc zero) = refused 503 none RetryAfter.missing
answers _ = ok

abbrev still : ℕ → ℕ
still j = 0

abbrev result : Sent
result = record { landed = true; reason = none; tries = 3; waited = 2000 ∷ 1000 ∷ [] }

sent : send none answers still still ≡ some result
unfolding send send_from judge judge_status retry_after_ms
sent = refl

send-total_example :
    (r : Sent) × (send none answers still still ≡ some r)
    × (r.tries ≤ 5)
    × (total r.waited ≤ 184996)
send-total_example = send-total none answers still still (λ j. omega arith)

send_outcome_example :
    (result.landed ≡ is_ok (answers (3 - 1)))
    × ((result.reason ≡ reason_of (answers (3 - 1)))
        ⊎ ((result.reason ≡ none) × TakenBy none (answers (3 - 1))))
send_outcome_example = send_outcome none answers still still result sent

abbrev narrow : Limits
narrow = record { concurrency = 1; queue_max = 1 }

run-Inv_example :
    Inv narrow (run narrow idle (arrive "a" ∷ arrive "b" ∷ arrive "c" ∷ settle 0 ∷ []))
run-Inv_example = run-Inv narrow (arrive "a" ∷ arrive "b" ∷ arrive "c" ∷ settle 0 ∷ [])

run-fifo_example :
    (run narrow idle (arrive "a" ∷ arrive "b" ∷ settle 0 ∷ [])).sent
      ++ (run narrow idle (arrive "a" ∷ arrive "b" ∷ settle 0 ∷ [])).waiting
    ≡ all_accepted narrow idle (arrive "a" ∷ arrive "b" ∷ settle 0 ∷ [])
run-fifo_example = run-fifo narrow (arrive "a" ∷ arrive "b" ∷ settle 0 ∷ [])
