-- ===== src/PushClient/Slots.antt =====
-- The slots and the queue of a push client: `push` and `release` of api/helpers/pushClient.js.
-- A push is its label. `running` is what the event loop holds, the pushes whose `send` has begun
-- and not settled, oldest first, and `sent` the history of all labels that `send` was called with;
-- the other fields are the client's variables.
pub mod Queue
use eagle_api.Prelude.{
  erase_idx, ◌&&◌, ◌+◌, ◌++◌, ◌-◌, ◌∷◌, Bool, List, String, [], false, if◌then◌else◌, leb, length,
  ltb, some, suc, true, zero, ℕ,
}

pub record Limits : Type 0 where
  pub concurrency : ℕ
  pub queue_max : ℕ

pub record Slots : Type 0 where
  pub active : ℕ
  pub waiting : List String
  pub running : List String
  pub sent : List String

abbrev pub idle : Slots
idle = record { active = 0; waiting = []; running = []; sent = [] }

-- What the caller of `push` meets: its `send` begins, it waits for a slot, or it is dropped.
pub data Admission : Type 0 where
  started queued queue_full : Admission

pub data Event : Type 0 where
  -- `push` is called for a configured client.
  arrive : String → Event
  -- The `send` at this position of `running` settles, and its slot is released.
  settle : ℕ → Event

-- `send` begins for a label.
abbrev pub begin : Slots → String → Slots
begin s label = record s { running = s.running ++ label ∷ []; sent = s.sent ++ label ∷ [] }

unfoldable pub admit : Limits → Slots → String → Slots × Admission
admit limits s label =
    if leb limits.concurrency s.active && leb limits.queue_max (length s.waiting)
    then (s, queue_full)
    else if ltb s.active limits.concurrency
    then (begin (record s { active = s.active + 1 }) label, started)
    else (record s { waiting = s.waiting ++ label ∷ [] }, queued)

-- `release()`: the slot goes to the first that waits, or is free again.
unfoldable pub release : Slots → Slots
release s = elim s.waiting [
  | [] ↦ record s { active = s.active - 1 }
  | next ∷ rest ↦ begin (record s { waiting = rest }) next
]

abbrev pub is_running : ℕ → Slots → Bool
is_running i s = ltb i (length s.running)

unfoldable pub step : Limits → Slots → Event → Slots
unfolding admit release
step limits s (arrive label) = (admit limits s label).0
step limits s (settle i) =
    if is_running i s then release (record s { running = erase_idx s.running i }) else s

unfoldable pub run : Limits → Slots → List Event → Slots
run limits s [] = s
run limits s (e ∷ es) = run limits (step limits s e) es

-- The labels that a run accepts, in the order of arrival.
abbrev pub if_accepted : Admission → String → List String
if_accepted queue_full label = []
if_accepted _ label = label ∷ []

unfoldable pub accepted : Limits → Slots → Event → List String
accepted limits s (arrive label) = if_accepted (admit limits s label).1 label
accepted limits s (settle i) = []

unfoldable pub all_accepted : Limits → Slots → List Event → List String
all_accepted limits s [] = []
all_accepted limits s (e ∷ es) = accepted limits s e ++ all_accepted limits (step limits s e) es
