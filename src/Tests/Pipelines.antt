-- ===== src/Tests/Pipelines.antt =====
-- One connection through the loops of the endpoint, and a task and a stream through those of a node.
use crab_rs.Prelude.{
  ==_iff, ◌==◌, Bool-cases, inl, inr, subst, sym, ◌∙◌, ◌≢◌, ℕ, ◌≡◌, refl, arith, String, true,
  false, [], ◌∷◌, some, ◌+◌,
}
use crab_rs.Prelude.Counts.{count}
use crab_rs.Manager.{DashMap, Node, get, exists}
use crab_rs.Manager.Connections.{IsExclusive, IsActive}
use crab_rs.Manager.Connections
use crab_rs.Manager.Table.{table}
use crab_rs.Endpoint.Pipeline.{
  Pipeline, start, Step, Reach, here, next, remote_connected, receive_connection,
  connection_accepted, handshake_as_client, node_accepted, accepted, fresh,
}
use crab_rs.Endpoint.Refines.{
  observe, ReachAlone, started, stepped, Reach-refines, ReachAlone-found, Reach-accepted, phase_of,
}
use crab_rs.Endpoint.Pipeline
use crab_rs.Endpoint.Race.{Guarded, race_hides_node}
use crab_rs.Node.Tasks
use crab_rs.Node.Streams
use crab_rs.Node.TaskLaws.{returned-accounts}
use crab_rs.Node.StreamLaws.{returned-handled, streams}

abbrev nodes : DashMap (Node ℕ ℕ)
nodes = table (Node ℕ ℕ)

abbrev id_of : ℕ → String
id_of c = "a"

abbrev info_of : ℕ → ℕ
info_of c = 7

abbrev Line : Type 0
Line = Pipeline nodes id_of info_of

abbrev Moves : Line → Line → Type 0
Moves = Step nodes id_of info_of

-- Connection 3 is made by this endpoint and comes as far as the table.
abbrev run : (t : Line) × Reach nodes id_of info_of (start nodes id_of info_of) t
run = (
  _,
  next
      (next
        (next (next (next here (remote_connected 3 refl)) (receive_connection 3 true refl refl))
          (connection_accepted 3 true refl))
        (handshake_as_client 3 refl))
      (node_accepted 3 refl),
)

Reach-refines_example :
    Connections.Reach nodes id_of info_of
      (Connections.start nodes id_of info_of)
      (observe nodes id_of info_of run.0)
Reach-refines_example = Reach-refines nodes id_of info_of run.1

only_third :
    (t : Line)
    → ((c : ℕ) → c ≢ 3 → t.place c ≡ fresh)
    → (a : ℕ) → IsActive (phase_of (t.place a))
    → a ≡ 3
unfolding phase_of
only_third t others a h = elim (Bool-cases (a == 3)) [
  | inl e ↦ ground (arith, ==_iff a 3)
  | inr e ↦
      absurd (subst (λ p. IsActive (phase_of p)) (others a (λ q. ground (arith, ==_iff a 3))) h)
]

alone :
    (t : Line)
    → ((c : ℕ) → c ≢ 3 → t.place c ≡ fresh)
    → IsExclusive nodes id_of info_of (observe nodes id_of info_of t)
unfolding observe phase_of
alone t others = record {
  one = λ a b ha hb e. only_third t others a ha ∙ sym (only_third t others b hb);
}

alone_run : ReachAlone nodes id_of info_of run.0
alone_run =
    stepped
      (stepped
        (stepped
          (stepped
            (stepped started (remote_connected 3 refl)
              (alone _ (λ c h. ground (arith, ==_iff 3 c))))
            (receive_connection 3 true refl refl) (alone _ (λ c h. ground (arith, ==_iff 3 c))))
          (connection_accepted 3 true refl) (alone _ (λ c h. ground (arith, ==_iff 3 c))))
        (handshake_as_client 3 refl) (alone _ (λ c h. ground (arith, ==_iff 3 c))))
      (node_accepted 3 refl) (alone _ (λ c h. ground (arith, ==_iff 3 c)))

ReachAlone-found_example : get nodes "a" run.0.nodes ≡ some (3, 7)
unfolding phase_of
ReachAlone-found_example = ReachAlone-found nodes id_of info_of alone_run 3 refl

abbrev stopped : Line
stopped = record run.0 { connecting = false }

-- Another connection arrives after the loop has stopped.
abbrev later : (t : Line) × Reach nodes id_of info_of stopped t
later = (_, next here (remote_connected 4 refl))

Reach-accepted_example : (later.0.connecting ≡ false) × (later.0.place 3 ≡ accepted)
Reach-accepted_example = Reach-accepted nodes id_of info_of 3 later.1 refl refl

-- Two tasks are sent; one is run, the other one is dropped.
abbrev tasks : (t : Tasks.Tasks) × Tasks.Reach Tasks.start t
tasks = (
  _,
  Tasks.next
      (Tasks.next
        (Tasks.next
          (Tasks.next (Tasks.next (Tasks.next Tasks.here (Tasks.send 1 refl)) (Tasks.send 2 refl))
            (Tasks.receive 1 (2 ∷ []) refl refl))
          (Tasks.cancelled refl))
        (Tasks.join [] [] 1 refl))
      (Tasks.all_joined refl refl),
)

returned-accounts_example : count 2 tasks.0.sent ≡ count 2 tasks.0.joined + count 2 tasks.0.dropped
returned-accounts_example = returned-accounts tasks.1 refl 2

-- A stream is accepted and handled, and the loops end with the message of the end.
abbrev served : (t : Streams.Streams) × Streams.Reach Streams.start t
served = (
  _,
  Streams.next
      (Streams.next
        (Streams.next
          (Streams.next
            (Streams.next (Streams.next Streams.here (Streams.accept 1 refl refl))
              (Streams.receive 1 [] refl refl))
            (Streams.accept_cancelled refl refl))
          (Streams.receive_none [] refl refl))
        (Streams.join [] [] 1 refl))
      (Streams.return refl refl),
)

returned-handled_example :
    ((k : ℕ)
      → count k served.0.accepted
        ≡ count k served.0.handled + count k served.0.lost + count k (streams served.0.queued))
    × (served.0.closed ≡ false → (k : ℕ) → count k served.0.accepted ≡ count k served.0.handled)
returned-handled_example = returned-handled served.1 refl

three_is_not_four : ◌≢◌ {A = ℕ} 3 4
three_is_not_four e = omega (arith, e)

race_hides_node_example :
    (u t : Line) × Guarded nodes id_of info_of (start nodes id_of info_of) u
    × Guarded nodes id_of info_of u t
    × (u.place 3 ≡ Pipeline.served)
    × (u.place 4 ≡ Pipeline.served)
    × (t.place 4 ≡ Pipeline.served)
    × (exists nodes "a" t.nodes ≡ false)
race_hides_node_example = race_hides_node nodes id_of info_of 3 4 three_is_not_four refl
