-- ===== src/PushClient/Slots/Queue.antt =====
-- What holds of the slots and the queue over every sequence of arrivals and releases.
use eagle_api.Prelude.{
  erase_idx, ◌++◌, ◌≡◌, ◌≤◌, ◌<◌, ◌⊎◌, ◌∷◌, List, List-cases, inl, inr, ltb→lt, Bool-cases, String,
  [], arith, length, length-append, refl, suc, zero, ℕ,
}
use mathlib.Core.List.{append_assoc, append-nil}
use eagle_api.PushClient.Slots.{
  Limits, Slots, idle, Event, arrive, settle, is_running, release, step, run, accepted,
  all_accepted,
}

pub record Inv (limits : Limits) (s : Slots) : Type 0 where
  pub counted : s.active ≡ length s.running
  pub bounded : s.active ≤ limits.concurrency
  pub busy : (s.waiting ≡ []) ⊎ (s.active ≡ limits.concurrency)
  pub short : length s.waiting ≤ limits.queue_max

length-erase_idx :
    (xs : List String) (i : ℕ) → i < length xs → suc (length (erase_idx xs i)) ≡ length xs
length-erase_idx [] i h = absurd (omega arith)
length-erase_idx (x ∷ xs) zero h = refl
length-erase_idx (x ∷ xs) (suc i) h = omega (arith, length-erase_idx xs i)

-- A slot that one of the running pushes has left is handed on or given back.
release-Inv :
    (limits : Limits) (s : Slots)
    → s.active ≡ suc (length s.running)
    → s.active ≤ limits.concurrency
    → (s.waiting ≡ []) ⊎ (s.active ≡ limits.concurrency)
    → length s.waiting ≤ limits.queue_max
    → Inv limits (release s)
unfolding release
release-Inv limits s c b busy short = elim (List-cases s.waiting) [
  | inl e ↦ ground arith
  | inr (next, rest, e) ↦ ground (arith, length-append s.running (next ∷ []))
]

step-Inv : (limits : Limits) (s : Slots) (e : Event) → Inv limits s → Inv limits (step limits s e)
unfolding step
step-Inv limits s (arrive label) v =
    ground (arith, length-append s.running (label ∷ []), length-append s.waiting (label ∷ []))
step-Inv limits s (settle i) v = elim (Bool-cases (is_running i s)) [
  | inl here ↦
      let fewer = length-erase_idx s.running i (ltb→lt _ _ here) in
      rw (here, step)
        (release-Inv limits (record s { running = erase_idx s.running i })
          (omega (arith, fewer, v.counted)) v.bounded v.busy v.short)
  | inr gone ↦ rw (gone, step) v
]

run_from-Inv :
    (limits : Limits) (s : Slots) (es : List Event) → Inv limits s → Inv limits (run limits s es)
unfolding run
run_from-Inv limits s [] v = v
run_from-Inv limits s (e ∷ es) v = run_from-Inv limits (step limits s e) es (step-Inv limits s e v)

idle-Inv : (limits : Limits) → Inv limits idle
idle-Inv limits = ground arith

-- From an idle client on, after any arrivals and releases: `active` is the number of pushes on the
-- wire, which never passes the limit; pushes wait only while every slot is taken; and no more wait
-- than the queue holds.
pub run-Inv : (limits : Limits) (es : List Event) → Inv limits (run limits idle es)
run-Inv limits es = run_from-Inv limits idle es (idle-Inv limits)

-- What was sent, followed by what waits, is what was there before with what is accepted.
release-sent : (s : Slots) → (release s).sent ++ (release s).waiting ≡ s.sent ++ s.waiting
unfolding release
release-sent s = elim (List-cases s.waiting) [
  | inl e ↦ rw (e, release) (rw e)
  | inr (next, rest, e) ↦ rw (e, release) (simp append_assoc)
]

step-sent :
    (limits : Limits) (s : Slots) (e : Event)
    → Inv limits s
    → (step limits s e).sent ++ (step limits s e).waiting
      ≡ (s.sent ++ s.waiting) ++ accepted limits s e
unfolding step accepted
step-sent limits s (arrive label) v = ground (
  arith,
  append-nil s.sent,
  append-nil (s.sent ++ s.waiting),
  append-nil (s.sent ++ label ∷ []),
  append_assoc s.sent s.waiting (label ∷ []),
)
step-sent limits s (settle i) v = elim (Bool-cases (is_running i s)) [
  | inl here ↦
      rw (here, step) (rw append-nil (release-sent (record s { running = erase_idx s.running i })))
  | inr gone ↦ rw (gone, step) (rw append-nil)
]

run-sent :
    (limits : Limits) (s : Slots) (es : List Event)
    → Inv limits s
    → (run limits s es).sent ++ (run limits s es).waiting
      ≡ (s.sent ++ s.waiting) ++ all_accepted limits s es
unfolding run all_accepted
run-sent limits s [] v = rw append-nil
run-sent limits s (e ∷ es) v =
    rw (run-sent limits (step limits s e) es (step-Inv limits s e v))
      (rw (step-sent limits s e v) (simp append_assoc))

-- Pushes are sent in the order in which they were accepted: what was sent so far, followed by what
-- waits, is the list of all accepted labels.
pub run-fifo :
    (limits : Limits) (es : List Event)
    → (run limits idle es).sent ++ (run limits idle es).waiting ≡ all_accepted limits idle es
run-fifo limits es = run-sent limits idle es (idle-Inv limits)
