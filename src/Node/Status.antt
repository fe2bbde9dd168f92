-- ===== src/Node/Status.antt =====
-- The life of a node from its start to its end.
use crab_rs.Prelude.{
  ℕ, zero, suc, ◌+◌, ◌-◌, ◌<◌, ◌≡◌, ◌↔◌, refl, ap, subst, ◌∙◌, arith, String, Option, none, some,
  List, [], ◌∷◌, Result, ok, err,
}
use crab_rs.Errors.{CrabError, join_error}
use crab_rs.Types.{running, stopping, stopped, Options, NodeMetadata}
use crab_rs.Node.{
  set_status, same_status, Timers, NodeLinks, StatusCell, or_cancelled, or_timeout, make_heartbeat,
  make_first_heartbeat, heartbeat_loop, after_round, first_error, exit_result, stop_node,
  after_loop, after_first, serve, new_cell,
}

-- The result of a node by the joins of its two tasks: the first error of a join, and no error of
-- what a task returned.
pub data IsJoined : List (Option String) → Result CrabError (Unit {0}) → Type 0 where
  all_joined : IsJoined [] (ok tt)
  joined :
      {rest : List (Option String)} {r : Result CrabError (Unit {0})}
      → IsJoined rest r
      → IsJoined (none ∷ rest) r
  join_failed :
      {e : String} {rest : List (Option String)} → IsJoined (some e ∷ rest) (err (join_error e))

exit_result-IsJoined : (l : List (Option String)) → IsJoined l (exit_result (first_error l))
unfolding exit_result first_error
exit_result-IsJoined [] = all_joined
exit_result-IsJoined (none ∷ rest) = joined (exit_result-IsJoined rest)
exit_result-IsJoined (some e ∷ rest) = join_failed

exit_result-eq :
    {l : List (Option String)} {r : Result CrabError (Unit {0})}
    → IsJoined l r
    → exit_result (first_error l) ≡ r
unfolding exit_result first_error
exit_result-eq all_joined = refl
exit_result-eq (joined rest) = exit_result-eq rest
exit_result-eq join_failed = refl

module _ {W : Type 0} (timers : Timers W) (links : NodeLinks W) (meta : NodeMetadata)
    (opts : Options) where
  -- A round of the heartbeat.
  abbrev round : W → Result CrabError (Unit {0}) × W
  round = or_cancelled timers links meta opts (make_heartbeat timers links meta opts)

  -- `Beats n w v`: from the world `w`, `n` rounds of the heartbeat succeed and lead to `v`.
  pub data Beats : ℕ → W → W → Type 0 where
    none_yet : {w : W} → Beats 0 w w
    one_more : {n : ℕ} {w v u : W} → round w ≡ (ok tt, v) → Beats n v u → Beats (suc n) w u

  -- If the round after some rounds that succeed fails with an error, the loop ends with that error,
  -- on any fuel above the number of rounds that succeed.
  pub heartbeat_loop-ends :
      {n : ℕ} {w v v' : W} (e : CrabError) (more : ℕ)
      → Beats n w v
      → round v ≡ (err e, v')
      → heartbeat_loop timers links meta opts (suc (more + n)) w ≡ (some e, v')
  unfolding heartbeat_loop after_round
  heartbeat_loop-ends e more none_yet failed = rw failed refl
  heartbeat_loop-ends e more (one_more {n} beat rest) failed =
      let same : more + suc n ≡ suc (more + n) = omega arith in
      rw beat (rw same (heartbeat_loop-ends e more rest failed))

  heartbeat_loop-Beats :
      {fuel : ℕ} {w v : W}
      → Beats fuel w v
      → heartbeat_loop timers links meta opts fuel w ≡ (none, v)
  unfolding heartbeat_loop after_round
  heartbeat_loop-Beats none_yet = refl
  heartbeat_loop-Beats (one_more e rest) = rw e (heartbeat_loop-Beats rest)

  -- What the loop came to on some fuel.
  data IsLoop (fuel : ℕ) (w : W) : Option CrabError × W → Type 0 where
    goes_on : {v : W} → Beats fuel w v → IsLoop fuel w (none, v)
    fails :
        {n : ℕ} {v v' : W} {e : CrabError}
        → Beats n w v
        → n < fuel
        → round v ≡ (err e, v')
        → IsLoop fuel w (some e, v')

  IsLoop-suc :
      {fuel : ℕ} {w v : W} {p : Option CrabError × W}
      → round w ≡ (ok tt, v)
      → IsLoop fuel v p
      → IsLoop (suc fuel) w p
  IsLoop-suc e (goes_on b) = goes_on (one_more e b)
  IsLoop-suc e (fails b less f) = fails (one_more e b) (omega arith) f

  round-IsLoop :
      (fuel : ℕ) {w : W} (p : Result CrabError (Unit {0}) × W)
      → ((v : W) → IsLoop fuel v (heartbeat_loop timers links meta opts fuel v))
      → round w ≡ p
      → IsLoop
          (suc fuel)
          w
          (after_round timers links meta opts (heartbeat_loop timers links meta opts fuel) p)
  unfolding after_round
  round-IsLoop fuel (ok _, v) rest e = IsLoop-suc e (rest v)
  round-IsLoop fuel (err x, v) rest e = fails none_yet (omega arith) e

  heartbeat_loop-IsLoop :
      (fuel : ℕ) (w : W) → IsLoop fuel w (heartbeat_loop timers links meta opts fuel w)
  unfolding heartbeat_loop
  heartbeat_loop-IsLoop zero w = goes_on none_yet
  heartbeat_loop-IsLoop (suc fuel) w = round-IsLoop fuel (round w) (heartbeat_loop-IsLoop fuel) refl

  abbrev pub first_heartbeat : W → Result CrabError (Unit {0}) × W
  first_heartbeat =
      or_timeout timers links meta opts opts.first_heartbeat
        (make_first_heartbeat timers links meta opts)

  -- The life of a new node in the world `w`, up to some rounds of its heartbeat: its result, if it
  -- ended, its status, and the statuses that the receivers were told of, the last one first.
  pub data IsRun (fuel : ℕ) (w : W)
      : Option (Result CrabError (Unit {0})) → StatusCell W → Type 0 where
    never_ran :
        {e : CrabError} {w1 : W}
        → first_heartbeat w ≡ (err e, w1)
        → IsRun fuel w (some (err e)) (new_cell w1)
    runs :
        {w1 v : W}
        → first_heartbeat w ≡ (ok tt, w1)
        → Beats fuel w1 v
        → IsRun fuel w none (record { status = running; changes = running ∷ []; world = v })
    ended :
        {n : ℕ} {w1 v v1 v2 : W} {e : CrabError} {joins : List (Option String)}
        {r : Result CrabError (Unit {0})}
        → first_heartbeat w ≡ (ok tt, w1)
        → Beats n w1 v
        → n < fuel
        → round v ≡ (err e, v1)
        → links.join_tasks (timers.cancel v1) ≡ (joins, v2)
        → IsJoined joins r
        → IsRun fuel w
            (some r)
            (record { status = stopped; changes = stopped ∷ stopping ∷ running ∷ []; world = v2 })

  loop-IsRun :
      (fuel : ℕ) {w w1 : W} (p : Option CrabError × W)
      → first_heartbeat w ≡ (ok tt, w1)
      → IsLoop fuel w1 p
      → let (r, s) = after_loop timers links meta opts (set_status running (new_cell w1)) p in
        IsRun fuel w r s
  unfolding after_loop set_status same_status stop_node
  loop-IsRun fuel _ e (goes_on b) = runs e b
  loop-IsRun fuel _ e (fails b less f) = ended e b less f refl (exit_result-IsJoined _)

  first-IsRun :
      (fuel : ℕ) {w : W} (p : Result CrabError (Unit {0}) × W)
      → first_heartbeat w ≡ p
      → let (r, s) = after_first timers links meta opts fuel (p.0, new_cell p.1) in IsRun fuel w r s
  unfolding after_first set_status same_status
  first-IsRun fuel (ok _, w1) e = loop-IsRun fuel _ e (heartbeat_loop-IsLoop fuel w1)
  first-IsRun fuel (err x, w1) e = never_ran e

  after_ready :
      (fuel : ℕ) (w : W) {p : Result CrabError (Unit {0}) × W}
      → first_heartbeat w ≡ p
      → serve timers links meta opts fuel (new_cell w)
        ≡ after_first timers links meta opts fuel (p.0, new_cell p.1)
  unfolding serve
  after_ready fuel w e = ap (λ q. after_first timers links meta opts fuel (q.0, new_cell q.1)) e

  IsRun-serve :
      {fuel : ℕ} {w : W} {r : Option (Result CrabError (Unit {0}))} {s : StatusCell W}
      → IsRun fuel w r s
      → serve timers links meta opts fuel (new_cell w) ≡ (r, s)
  unfolding after_first after_loop set_status same_status stop_node
  IsRun-serve {fuel} {w} (never_ran e) = after_ready fuel w e
  IsRun-serve {fuel} {w} (runs e b) = after_ready fuel w e ∙ rw (heartbeat_loop-Beats b) refl
  IsRun-serve {fuel} {w} (ended {n} {w1} {v1 = u} {e = x} e b less f j is) =
      let same : suc ((fuel - suc n) + n) ≡ fuel = omega arith in
      let loop =
        subst (λ m. heartbeat_loop timers links meta opts m w1 ≡ (some x, u)) same
          (heartbeat_loop-ends x (fuel - suc n) b f) in
      after_ready fuel w e ∙ rw loop (rw j (rw (exit_result-eq is) refl))

  -- A new node comes to a result and a status, in as many rounds of its heartbeat as the fuel, just
  -- if they are these: if the first heartbeat, under its time limit, fails, its error is the result,
  -- the status stays ready, and no status is told; if it succeeds and so do all the rounds, there is
  -- no result yet and the node was told to be running; and if a round fails after some that succeed,
  -- then, the token being cancelled after that round, the result is the first error of the joins of
  -- the node's tasks, and success without one, and the node was told to be running, stopping and
  -- stopped.
  pub serve-IsRun :
      (fuel : ℕ) (w : W) (r : Option (Result CrabError (Unit {0}))) (s : StatusCell W)
      → (serve timers links meta opts fuel (new_cell w) ≡ (r, s)) ↔ IsRun fuel w r s
  unfolding serve
  serve-IsRun fuel w r s = (
    λ e. subst (λ p. IsRun fuel w p.0 p.1) e (first-IsRun fuel (first_heartbeat w) refl),
    IsRun-serve,
  )
