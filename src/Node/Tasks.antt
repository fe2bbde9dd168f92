-- ===== src/Node/Tasks.antt =====
-- nodes.rs: the loop `serve_all_tasks`, as the steps that it takes. A task is a number.
use crab_rs.Prelude.{ℕ, List, [], ◌∷◌, ◌++◌, ◌≡◌}

-- The loop of the `select!`, the joins after it, and the return.
pub data Stage : Type 0 where
  receiving draining returned : Stage

-- The tasks that callers have sent, those in the channel, the next one first, those that were dropped
-- with the channel, and the set of the tasks that run and the list of those that were joined.
pub record Tasks : Type 0 where
  pub stage : Stage
  pub sent : List ℕ
  pub queued : List ℕ
  pub dropped : List ℕ
  pub running : List ℕ
  pub joined : List ℕ

abbrev pub start : Tasks
start = record {
  stage = receiving;
  sent = [];
  queued = [];
  dropped = [];
  running = [];
  joined = [];
}

pub data Step (s : Tasks) : Tasks → Type 0 where
  -- A caller's send fails once the channel is dropped.
  send :
      (c : ℕ)
      → s.stage ≡ receiving
      → Step s (record s { sent = c ∷ s.sent; queued = s.queued ++ c ∷ [] })
  receive :
      (c : ℕ) (rest : List ℕ)
      → s.stage ≡ receiving
      → s.queued ≡ c ∷ rest
      → Step s (record s { queued = rest; running = c ∷ s.running })
  -- `drop(task_rx)` drops what is in the channel.
  cancelled :
      s.stage ≡ receiving → Step s (record s { stage = draining; queued = []; dropped = s.queued })
  receive_none : s.stage ≡ receiving → s.queued ≡ [] → Step s (record s { stage = draining })
  join :
      (before after : List ℕ) (c : ℕ)
      → s.running ≡ before ++ c ∷ after
      → Step s (record s { running = before ++ after; joined = c ∷ s.joined })
  all_joined : s.stage ≡ draining → s.running ≡ [] → Step s (record s { stage = returned })

pub data Reach (s : Tasks) : Tasks → Type 0 where
  here : Reach s s
  next : {t u : Tasks} → Reach s t → Step t u → Reach s u
