-- ===== src/Node/Streams.antt =====
-- nodes.rs: the loops `accept` and `handle_all_streams`, which run side by side, as the steps that they
-- take. A stream is a number.
use crab_rs.Prelude.{ℕ, Bool, true, false, Option, none, some, List, [], ◌∷◌, ◌++◌, ◌≡◌}

pub data Stage : Type 0 where
  handling draining returned : Stage

pub record Streams : Type 0 where
  -- the loop of `accept` goes on; the streams that it accepted
  pub accepting : Bool
  pub accepted : List ℕ
  -- the channel between the loops, the next one first, and whether `rx.close()` was called; what
  -- could not be sent or was never received is lost
  pub queued : List (Option ℕ)
  pub closed : Bool
  pub lost : List ℕ
  -- `handle_all_streams`: its stage, its set of tasks and the tasks that were joined
  pub stage : Stage
  pub running : List ℕ
  pub handled : List ℕ

abbrev pub start : Streams
start = record {
  accepting = true;
  accepted = [];
  queued = [];
  closed = false;
  lost = [];
  stage = handling;
  running = [];
  handled = [];
}

pub data Step (s : Streams) : Streams → Type 0 where
  -- `accept`
  accept :
      (c : ℕ)
      → s.accepting ≡ true
      → s.closed ≡ false
      → Step s (record s { accepted = c ∷ s.accepted; queued = s.queued ++ some c ∷ [] })
  accept_closed :
      (c : ℕ)
      → s.accepting ≡ true
      → s.closed ≡ true
      → Step s (record s { accepted = c ∷ s.accepted; lost = c ∷ s.lost })
  accept_cancelled :
      s.accepting ≡ true
      → s.closed ≡ false
      → Step s (record s { accepting = false; queued = s.queued ++ none ∷ [] })
  accept_cancelled_closed :
      s.accepting ≡ true → s.closed ≡ true → Step s (record s { accepting = false })
  -- `handle_all_streams`
  receive :
      (c : ℕ) (rest : List (Option ℕ))
      → s.stage ≡ handling
      → s.queued ≡ some c ∷ rest
      → Step s (record s { queued = rest; running = c ∷ s.running })
  receive_none :
      (rest : List (Option ℕ))
      → s.stage ≡ handling
      → s.queued ≡ none ∷ rest
      → Step s (record s { queued = rest; stage = draining })
  handle_cancelled : s.stage ≡ handling → Step s (record s { closed = true; stage = draining })
  join :
      (before after : List ℕ) (c : ℕ)
      → s.running ≡ before ++ c ∷ after
      → Step s (record s { running = before ++ after; handled = c ∷ s.handled })
  return : s.stage ≡ draining → s.running ≡ [] → Step s (record s { stage = returned })

pub data Reach (s : Streams) : Streams → Type 0 where
  here : Reach s s
  next : {t u : Streams} → Reach s t → Step t u → Reach s u
