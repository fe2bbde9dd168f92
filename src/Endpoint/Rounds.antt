-- ===== src/Endpoint/Rounds.antt =====
-- The rounds in which an endpoint tries to have a remote node, and how they end.
use crab_rs.Prelude.{
  ℕ, zero, suc, ◌+◌, ◌-◌, ◌<◌, ◌≡◌, ◌↔◌, refl, sym, ap, subst, ◌∙◌, arith, String, Bool, true,
  false, Option, none, some, Result, ok, err,
}
use crab_rs.Errors.{CrabError, error_code}
use crab_rs.Errors.Codes
use crab_rs.Types.{Options}
use crab_rs.Endpoint.{
  Network, connect_remote_node, connect_and_wait, hand_over, retry_delay, start_remote_node,
  while_not_cancelled, after_sleep, after_round,
}

module _ {W : Type 0} (net : Network W) (opts : Options) (addr : String) where
  -- The token is not cancelled before the delay of a round is over.
  pub record IsDelayed (w w2 : W) : Type 0 where
    pub checked : W
    pub goes_on : net.is_cancelled w ≡ (false, checked)
    pub slept : net.slept retry_delay checked ≡ (true, w2)

  -- A round that another one follows: there is no connection, whatever the error is, or the node of
  -- the connection gave notice of its exit.
  pub data Retried (w : W) : W → Type 0 where
    unconnected :
        {w2 w3 : W} {e : CrabError}
        → IsDelayed w w2
        → connect_remote_node net opts addr w2 ≡ (err e, w3)
        → Retried w w3
    node_exited :
        {w2 w3 w4 w5 : W}
        → IsDelayed w w2
        → connect_remote_node net opts addr w2 ≡ (ok tt, w3)
        → net.send_connection w3 ≡ (ok tt, w4)
        → net.wait_exit w4 ≡ (ok tt, w5)
        → Retried w w5

  -- The last round: the token is cancelled, or a connection that was made cannot be handed over, or
  -- the sender of its node's notice is dropped.
  pub data Last (w : W) : Result CrabError (Unit {0}) → W → Type 0 where
    cancelled : {w1 : W} → net.is_cancelled w ≡ (true, w1) → Last w (ok tt) w1
    cancelled_asleep :
        {w1 w2 : W}
        → net.is_cancelled w ≡ (false, w1)
        → net.slept retry_delay w1 ≡ (false, w2)
        → Last w (ok tt) w2
    not_handed_over :
        {w2 w3 w4 : W}
        → IsDelayed w w2
        → connect_remote_node net opts addr w2 ≡ (ok tt, w3)
        → net.send_connection w3 ≡ (err tt, w4)
        → Last w (err (error_code Codes.canceled_error)) w4
    notice_dropped :
        {w2 w3 w4 w5 : W}
        → IsDelayed w w2
        → connect_remote_node net opts addr w2 ≡ (ok tt, w3)
        → net.send_connection w3 ≡ (ok tt, w4)
        → net.wait_exit w4 ≡ (err tt, w5)
        → Last w (err (error_code Codes.canceled_error)) w5

  pub data Rounds : ℕ → W → W → Type 0 where
    no_round : {w : W} → Rounds 0 w w
    one_more : {n : ℕ} {w v u : W} → Retried w v → Rounds n v u → Rounds (suc n) w u

  -- Some rounds, and the last one if the loop ends within as many as `fuel`.
  pub data IsRun (fuel : ℕ) (w : W) : Option (Result CrabError (Unit {0})) → W → Type 0 where
    goes_on : {v : W} → Rounds fuel w v → IsRun fuel w none v
    ends :
        {n : ℕ} {v u : W} {r : Result CrabError (Unit {0})}
        → Rounds n w v
        → n < fuel
        → Last v r u
        → IsRun fuel w (some r) u

  start_remote_node-Retried :
      (fuel : ℕ) {w v : W}
      → Retried w v
      → start_remote_node net opts addr (suc fuel) w ≡ start_remote_node net opts addr fuel v
  unfolding start_remote_node while_not_cancelled after_sleep after_round connect_and_wait hand_over
  start_remote_node-Retried fuel (unconnected d e) = rw (d.goes_on, d.slept, e) refl
  start_remote_node-Retried fuel (node_exited d e1 e2 e3) = rw (d.goes_on, d.slept, e1, e2, e3) refl

  start_remote_node-Last :
      (fuel : ℕ) {w v : W} {r : Result CrabError (Unit {0})}
      → Last w r v
      → start_remote_node net opts addr (suc fuel) w ≡ (some r, v)
  unfolding start_remote_node while_not_cancelled after_sleep after_round connect_and_wait hand_over
  start_remote_node-Last fuel (cancelled e) = rw e refl
  start_remote_node-Last fuel (cancelled_asleep e1 e2) = rw (e1, e2) refl
  start_remote_node-Last fuel (not_handed_over d e1 e2) = rw (d.goes_on, d.slept, e1, e2) refl
  start_remote_node-Last fuel (notice_dropped d e1 e2 e3) = rw (d.goes_on, d.slept, e1, e2, e3) refl

  data Round (w : W) : Type 0 where
    again : {v : W} → Retried w v → Round w
    over : {v : W} {r : Result CrabError (Unit {0})} → Last w r v → Round w

  noticed :
      {w w2 w3 w4 : W} (p : Result (Unit {0}) (Unit {0}) × W)
      → IsDelayed w w2
      → connect_remote_node net opts addr w2 ≡ (ok tt, w3)
      → net.send_connection w3 ≡ (ok tt, w4)
      → net.wait_exit w4 ≡ p
      → Round w
  noticed (ok _, w5) d e1 e2 e3 = again (node_exited d e1 e2 e3)
  noticed (err _, w5) d e1 e2 e3 = over (notice_dropped d e1 e2 e3)

  handed_over :
      {w w2 w3 : W} (p : Result (Unit {0}) (Unit {0}) × W)
      → IsDelayed w w2
      → connect_remote_node net opts addr w2 ≡ (ok tt, w3)
      → net.send_connection w3 ≡ p
      → Round w
  handed_over (ok _, w4) d e1 e2 = noticed (net.wait_exit w4) d e1 e2 refl
  handed_over (err _, w4) d e1 e2 = over (not_handed_over d e1 e2)

  connected :
      {w w2 : W} (p : Result CrabError (Unit {0}) × W)
      → IsDelayed w w2
      → connect_remote_node net opts addr w2 ≡ p
      → Round w
  connected (ok _, w3) d e = handed_over (net.send_connection w3) d e refl
  connected (err x, w3) d e = again (unconnected d e)

  delayed :
      {w w1 : W} (p : Bool × W)
      → net.is_cancelled w ≡ (false, w1)
      → net.slept retry_delay w1 ≡ p
      → Round w
  delayed (true, w2) e1 e2 =
      connected (connect_remote_node net opts addr w2)
        (record { checked = _; goes_on = e1; slept = e2 }) refl
  delayed (false, w2) e1 e2 = over (cancelled_asleep e1 e2)

  checked : {w : W} (p : Bool × W) → net.is_cancelled w ≡ p → Round w
  checked (true, w1) e = over (cancelled e)
  checked (false, w1) e = delayed (net.slept retry_delay w1) e refl

  IsRun-suc :
      {fuel : ℕ} {w v u : W} {r : Option (Result CrabError (Unit {0}))}
      → Retried w v
      → IsRun fuel v r u
      → IsRun (suc fuel) w r u
  IsRun-suc r (goes_on rest) = goes_on (one_more r rest)
  IsRun-suc r (ends rest less last) = ends (one_more r rest) (omega arith) last

  round-IsRun :
      (fuel : ℕ) {w : W}
      → ((v : W) → let (r, u) = start_remote_node net opts addr fuel v in IsRun fuel v r u)
      → Round w
      → let (r, u) = start_remote_node net opts addr (suc fuel) w in IsRun (suc fuel) w r u
  round-IsRun fuel {w} rest (again {v} retried) =
      subst (λ p. IsRun (suc fuel) w p.0 p.1) (sym (start_remote_node-Retried fuel retried))
        (IsRun-suc retried (rest v))
  round-IsRun fuel {w} rest (over last) =
      subst (λ p. IsRun (suc fuel) w p.0 p.1) (sym (start_remote_node-Last fuel last))
        (ends no_round (omega arith) last)

  loop-IsRun :
      (fuel : ℕ) (w : W) → let (r, v) = start_remote_node net opts addr fuel w in IsRun fuel w r v
  unfolding start_remote_node
  loop-IsRun zero w = goes_on no_round
  loop-IsRun (suc fuel) w = round-IsRun fuel (loop-IsRun fuel) (checked (net.is_cancelled w) refl)

  loop-Rounds :
      {n : ℕ} (fuel left : ℕ) {w v : W}
      → fuel ≡ n + left
      → Rounds n w v
      → start_remote_node net opts addr fuel w ≡ start_remote_node net opts addr left v
  loop-Rounds fuel left {w} same no_round =
      let same' : fuel ≡ left = omega arith in ap (λ m. start_remote_node net opts addr m w) same'
  loop-Rounds fuel left {w} same (one_more {n} r rest) =
      let same' : fuel ≡ suc (n + left) = omega arith in
      ap (λ m. start_remote_node net opts addr m w) same'
      ∙ start_remote_node-Retried (n + left) r
      ∙ loop-Rounds (n + left) left refl rest

  IsRun-loop :
      {fuel : ℕ} {w v : W} {r : Option (Result CrabError (Unit {0}))}
      → IsRun fuel w r v
      → start_remote_node net opts addr fuel w ≡ (r, v)
  unfolding start_remote_node
  IsRun-loop {fuel} (goes_on rest) = loop-Rounds fuel 0 (omega arith) rest
  IsRun-loop {fuel} (ends {n} rest less last) =
      let left = fuel - suc n in
      loop-Rounds fuel (suc left) (omega arith) rest ∙ start_remote_node-Last left last

  -- The loop for a remote node comes to a result, in as many rounds as the fuel, just if it is this
  -- one: a round in which no connection is made, whatever the error, or in which the connection's
  -- node gives notice of its exit, is followed by another; success is the result when the token is
  -- cancelled before a round or in its delay; CANCELED_ERROR is the result when a connection that was
  -- made cannot be handed over, or when the wait for its node's notice fails; and there is no result
  -- if the loop is in none of these cases after that many rounds.
  pub start_remote_node-IsRun :
      (fuel : ℕ) (w : W) (r : Option (Result CrabError (Unit {0}))) (v : W)
      → (start_remote_node net opts addr fuel w ≡ (r, v)) ↔ IsRun fuel w r v
  start_remote_node-IsRun fuel w r v =
      (λ e. subst (λ p. IsRun fuel w p.0 p.1) e (loop-IsRun fuel w), IsRun-loop)
