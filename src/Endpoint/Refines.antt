-- ===== src/Endpoint/Refines.antt =====
-- The loops of the endpoint as a refinement of the table's connections.
use mathlib.Core.Path.{fun_ext}
use crab_rs.Prelude.{
  ℕ, String, true, false, ◌≡◌, ◌⊎◌, inl, inr, refl, sym, ap, subst, ◌∙◌, arith, some, ==_iff,
}
use crab_rs.Manager.{DashMap, Node, Manager, get}
use crab_rs.Manager.Connections.{
  Phase, waiting, shaken, serving, gone, Network, IsExclusive, IsRegistered, moved,
}
use crab_rs.Manager.Connections
use crab_rs.Manager.Connections.{ReachAlone-IsRegistered}
use crab_rs.Endpoint.Pipeline.{
  Place, incoming, conn_task, checked, in_handshake, with_node, accepted, node_task, served, exited,
  dropped, Pipeline, start, placed, put, Step, accept, connected, connect_failed, stop_listening,
  remote_connected, receive_connection, blocked, connection_accepted, handshake_failed,
  accept_handshake, handshake_as_client, node_accepted, send_node, stop_connecting, abort_check,
  abort_handshake, receive_node, node_exited, Reach, here, next,
}

-- What the table has to do with a connection: a node is in it until its exit, wherever it waits.
unfoldable pub phase_of : Place → Phase
phase_of with_node = shaken
phase_of accepted = serving
phase_of node_task = serving
phase_of served = serving
phase_of exited = gone
phase_of dropped = gone
phase_of _ = waiting

module _ {Info : Type 0} (d : DashMap (Node ℕ Info)) (id_of : ℕ → String) (info_of : ℕ → Info) where
  unfoldable pub observe : Pipeline d id_of info_of → Network d id_of info_of
  unfolding phase_of
  observe s = record { nodes = s.nodes; phase = λ c. phase_of (s.place c) }

  -- A connection that goes on moves in the abstract view to the phase of its new place.
  phase_of-placed :
      (c : ℕ) (p : Place) (place : ℕ → Place)
      → ◌≡◌ {A = ℕ → Phase}
          (λ x. phase_of (placed d id_of info_of c p place x))
          (moved d id_of info_of c (phase_of p) (λ x. phase_of (place x)))
  phase_of-placed c p place = fun_ext (λ x. ground arith)

  -- Where the phase stays, nothing is seen.
  phase_of-same :
      (c : ℕ) (p : Place) (place : ℕ → Place)
      → phase_of (place c) ≡ phase_of p
      → ◌≡◌ {A = ℕ → Phase}
          (λ x. phase_of (placed d id_of info_of c p place x))
          (λ x. phase_of (place x))
  phase_of-same c p place e = fun_ext (λ x. ground (arith, ==_iff c x))

  -- The next state of the abstract view, or the same.
  abbrev pub Follows : Network d id_of info_of → Network d id_of info_of → Type 0
  Follows s t = Connections.Step d id_of info_of s t ⊎ (s ≡ t)

  module _ (s : Pipeline d id_of info_of) (c : ℕ) {here_now : Place}
      (at : s.place c ≡ here_now) where
    abbrev seen : Phase → Network d id_of info_of
    seen p = record (observe s) { phase = moved d id_of info_of c p (observe s).phase }

    stays :
        (p : Place)
        → phase_of here_now ≡ phase_of p
        → Follows (observe s) (observe (put d id_of info_of c p s))
    unfolding observe
    stays p e = inr (
        ap (λ f. record (observe s) { phase = f })
          (sym (phase_of-same c p s.place (ap phase_of at ∙ e))))

    goes :
        (p : Place) (nodes : Manager d)
        → Connections.Step d id_of info_of
            (observe s)
            (record (seen (phase_of p)) { nodes = nodes })
        → Follows (observe s) (observe (put d id_of info_of c p (record s { nodes = nodes })))
    unfolding observe
    goes p nodes step = inl (
        subst
          (λ f. Connections.Step d id_of info_of (observe s) (record { nodes = nodes; phase = f }))
          (sym (phase_of-placed c p s.place)) step)

    abbrev in_phase : (observe s).phase c ≡ phase_of here_now
    unfolding observe
    in_phase = ap phase_of at

  drops :
      (s : Pipeline d id_of info_of) (c : ℕ)
      → (observe s).phase c ≡ waiting
      → Follows (observe s) (observe (put d id_of info_of c dropped s))
  unfolding observe
  drops s c w = goes s c refl dropped s.nodes (Connections.handshake_failed c w)

  -- Each step of the loops is a step of the connections, or is not seen at the table.
  pub Step-refines :
      {s t : Pipeline d id_of info_of} → Step d id_of info_of s t → Follows (observe s) (observe t)
  unfolding phase_of observe
  Step-refines {s} (accept c at _) = stays s c at incoming refl
  Step-refines {s} (connected c at _) = stays s c at (conn_task false) refl
  Step-refines {s} (connect_failed c at) = drops s c (in_phase s c at)
  Step-refines {s} (stop_listening _) = inr refl
  Step-refines {s} (remote_connected c at) = stays s c at (conn_task true) refl
  Step-refines {s} (receive_connection c as_client at _) = stays s c at (checked as_client) refl
  Step-refines {s} (blocked c as_client at) = drops s c (in_phase s c at)
  Step-refines {s} (connection_accepted c as_client at) = stays s c at (in_handshake as_client) refl
  Step-refines {s} (handshake_failed c as_client at) = drops s c (in_phase s c at)
  Step-refines {s} (accept_handshake c at new_id) =
      goes s c at with_node s.nodes (Connections.accept_handshake c (in_phase s c at) new_id)
  Step-refines {s} (handshake_as_client c at) =
      goes s c at with_node s.nodes (Connections.handshake_as_client c (in_phase s c at))
  Step-refines {s} (node_accepted c at) =
      goes s c at accepted _ (Connections.node_accepted c (in_phase s c at))
  Step-refines {s} (send_node c at _) = stays s c at node_task refl
  Step-refines {s} (stop_connecting _) = inr refl
  Step-refines {s} (abort_check c as_client at _) = drops s c (in_phase s c at)
  Step-refines {s} (abort_handshake c as_client at _) = drops s c (in_phase s c at)
  Step-refines {s} (receive_node c at) = stays s c at served refl
  Step-refines {s} (node_exited c at) =
      goes s c at exited _ (Connections.node_exited c (in_phase s c at))

  follow_on :
      {r u v : Network d id_of info_of}
      → Connections.Reach d id_of info_of r u
      → Follows u v
      → Connections.Reach d id_of info_of r v
  follow_on run (inl step) = Connections.next run step
  follow_on run (inr same) = subst (Connections.Reach d id_of info_of _) same run

  -- Whatever state the loops of the endpoint reach, its view, the table and what the table has to
  -- do with each connection, is a state that the connections of Manager.Connections reach.
  pub Reach-refines :
      {t : Pipeline d id_of info_of}
      → Reach d id_of info_of (start d id_of info_of) t
      → Connections.Reach d id_of info_of (Connections.start d id_of info_of) (observe t)
  unfolding observe
  Reach-refines here = Connections.here
  Reach-refines (next run step) = follow_on (Reach-refines run) (Step-refines step)

  -- A run in which no two connections with one node id are ever past their handshake at once.
  pub data ReachAlone : Pipeline d id_of info_of → Type 0 where
    started : ReachAlone (start d id_of info_of)
    stepped :
        {t u : Pipeline d id_of info_of}
        → ReachAlone t
        → Step d id_of info_of t u
        → IsExclusive d id_of info_of (observe u)
        → ReachAlone u

  follow_alone :
      {r u v : Network d id_of info_of}
      → Connections.ReachAlone d id_of info_of r u
      → IsExclusive d id_of info_of v
      → Follows u v
      → Connections.ReachAlone d id_of info_of r v
  follow_alone run alone (inl step) = Connections.next run step alone
  follow_alone run alone (inr same) = subst (Connections.ReachAlone d id_of info_of _) same run

  ReachAlone-refines :
      {t : Pipeline d id_of info_of}
      → ReachAlone t
      → Connections.ReachAlone d id_of info_of (Connections.start d id_of info_of) (observe t)
  unfolding observe
  ReachAlone-refines started = Connections.here
  ReachAlone-refines (stepped run step alone) =
      follow_alone (ReachAlone-refines run) alone (Step-refines step)

  -- In a run in which no two connections with one node id are ever past their handshake at once,
  -- the table has each connection whose node was accepted and has not exited under its node id,
  -- wherever in the loops it is.
  pub ReachAlone-found :
      {t : Pipeline d id_of info_of}
      → ReachAlone t
      → (c : ℕ) → phase_of (t.place c) ≡ serving
      → get d (id_of c) t.nodes ≡ some (c, info_of c)
  unfolding observe
  ReachAlone-found run c at =
      (ReachAlone-IsRegistered d id_of info_of (ReachAlone-refines run)).found c at

  stays_accepted :
      {s t : Pipeline d id_of info_of} (c : ℕ)
      → Step d id_of info_of s t
      → (s.connecting ≡ false) × (s.place c ≡ accepted)
      → (t.connecting ≡ false) × (t.place c ≡ accepted)
  stays_accepted c (accept k at h) (stopped, still) = ground (arith, ==_iff k c)
  stays_accepted c (connected k at h) (stopped, still) = ground (arith, ==_iff k c)
  stays_accepted c (connect_failed k at) (stopped, still) = ground (arith, ==_iff k c)
  stays_accepted c (stop_listening h) (stopped, still) = (stopped, still)
  stays_accepted c (remote_connected k at) (stopped, still) = ground (arith, ==_iff k c)
  stays_accepted c (receive_connection k as_client at h) (stopped, still) =
      ground (arith, ==_iff k c)
  stays_accepted c (blocked k as_client at) (stopped, still) = ground (arith, ==_iff k c)
  stays_accepted c (connection_accepted k as_client at) (stopped, still) =
      ground (arith, ==_iff k c)
  stays_accepted c (handshake_failed k as_client at) (stopped, still) = ground (arith, ==_iff k c)
  stays_accepted c (accept_handshake k at new_id) (stopped, still) = ground (arith, ==_iff k c)
  stays_accepted c (handshake_as_client k at) (stopped, still) = ground (arith, ==_iff k c)
  stays_accepted c (node_accepted k at) (stopped, still) = ground (arith, ==_iff k c)
  stays_accepted c (send_node k at h) (stopped, still) = ground (arith, ==_iff k c)
  stays_accepted c (stop_connecting h) (stopped, still) = (refl, still)
  stays_accepted c (abort_check k as_client at h) (stopped, still) = ground (arith, ==_iff k c)
  stays_accepted c (abort_handshake k as_client at h) (stopped, still) = ground (arith, ==_iff k c)
  stays_accepted c (receive_node k at) (stopped, still) = ground (arith, ==_iff k c)
  stays_accepted c (node_exited k at) (stopped, still) = ground (arith, ==_iff k c)

  -- Once the loop of `serve_all_connection` has stopped, a node that was accepted and not handed over
  -- is left where it is in whatever state is reached: it is not served and does not exit.
  pub Reach-accepted :
      {s t : Pipeline d id_of info_of} (c : ℕ)
      → Reach d id_of info_of s t
      → s.connecting ≡ false
      → s.place c ≡ accepted
      → (t.connecting ≡ false) × (t.place c ≡ accepted)
  Reach-accepted c here stopped at = (stopped, at)
  Reach-accepted c (next run step) stopped at =
      stays_accepted c step (Reach-accepted c run stopped at)
