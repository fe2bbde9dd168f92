-- ===== src/Endpoint/Race.antt =====
-- Two connections to one node id that come at the same time.
use crab_rs.Prelude.{ℕ, String, true, false, ◌≡◌, ◌≢◌, refl, sym, ap, ◌∙◌, arith, ==_iff, eq_iff}
use crab_rs.Manager.{DashMap, Node, new, exists, insert, remove}
use crab_rs.Manager.Laws.{exists-remove}
use crab_rs.Endpoint.Pipeline.{
  Place, fresh, incoming, conn_task, checked, in_handshake, with_node, accepted, node_task, served,
  exited, Pipeline, start, placed, put, Step, accept, connected, receive_connection,
  connection_accepted, accept_handshake, handshake_as_client, node_accepted, send_node,
  receive_node, node_exited, Reach, here, next,
}

module _ {Info : Type 0} (d : DashMap (Node ℕ Info)) (id_of : ℕ → String) (info_of : ℕ → Info) where
  abbrev Line : Type 0
  Line = Pipeline d id_of info_of

  -- Each handshake of the run is one of the server's side, which looks the node up before it answers.
  abbrev pub IsGuardedStep : {s t : Line} → Step d id_of info_of s t → Type 0
  IsGuardedStep (handshake_as_client c at) = ⊥
  IsGuardedStep _ = Unit

  abbrev pub IsGuarded : {s t : Line} → Reach d id_of info_of s t → Type 0
  IsGuarded here = Unit
  IsGuarded (next run step) = IsGuarded run × IsGuardedStep step

  -- A run from a state, all of whose handshakes are guarded.
  abbrev pub Guarded : Line → Line → Type 0
  Guarded s t = (run : Reach d id_of info_of s t) × IsGuarded run

  go_on :
      {s t u : Line}
      → Guarded s t
      → (step : Step d id_of info_of t u) → IsGuardedStep step
      → Guarded s u
  go_on (run, g) step h = (next run step, (g, h))

  join : {s t u : Line} → Guarded s t → Guarded t u → Guarded s u
  join first (here, g) = first
  join first (next run step, (g, h)) = go_on (join first (run, g)) step h

  at_placed : (c : ℕ) (p : Place) (place : ℕ → Place) → placed d id_of info_of c p place c ≡ p
  at_placed c p place = ground (arith, ==_iff c c)

  off_placed :
      (c x : ℕ) (p : Place) (place : ℕ → Place)
      → c ≢ x
      → placed d id_of info_of c p place x ≡ place x
  off_placed c x p place ne = ground (arith, ==_iff c x)

  -- A run that moves one connection only, while the loops go on.
  record Moved (s : Line) (c : ℕ) (p : Place) : Type 0 where
    to : Line
    run : Guarded s to
    there : to.place c ≡ p
    others : (x : ℕ) → c ≢ x → to.place x ≡ s.place x
    nodes : to.nodes ≡ s.nodes
    listening : to.listening ≡ s.listening
    connecting : to.connecting ≡ s.connecting

  stay : (s : Line) (c : ℕ) (p : Place) → s.place c ≡ p → Moved s c p
  stay s c p e = record {
    to = s;
    run = (here, tt);
    there = e;
    others = λ x ne. refl;
    nodes = refl;
    listening = refl;
    connecting = refl;
  }

  move :
      {s : Line} {c : ℕ} {p : Place} (m : Moved s c p) (q : Place)
      (step : Step d id_of info_of m.to (put d id_of info_of c q m.to))
      → IsGuardedStep step
      → Moved s c q
  move {s} {c} {p} m q step g = record {
    to = put d id_of info_of c q m.to;
    run = go_on m.run step g;
    there = at_placed c q m.to.place;
    others = λ x ne. off_placed c x q m.to.place ne ∙ m.others x ne;
    nodes = m.nodes;
    listening = m.listening;
    connecting = m.connecting;
  }

  -- An incoming connection comes to its handshake.
  arrive :
      (s : Line) (c : ℕ)
      → s.place c ≡ fresh
      → s.listening ≡ true
      → s.connecting ≡ true
      → Moved s c (in_handshake false)
  arrive s c at l k =
      let m0 = stay s c fresh at in
      let m1 = move m0 incoming (accept c m0.there (m0.listening ∙ l)) tt in
      let m2 = move m1 (conn_task false) (connected c m1.there (m1.listening ∙ l)) tt in
      let m3 =
        move m2 (checked false) (receive_connection c false m2.there (m2.connecting ∙ k)) tt in
      move m3 (in_handshake false) (connection_accepted c false m3.there) tt

  -- An accepted node is taken into service.
  serve : (s : Line) (c : ℕ) → s.place c ≡ accepted → s.connecting ≡ true → Moved s c served
  serve s c at k =
      let m0 = stay s c accepted at in
      let m1 = move m0 node_task (send_node c m0.there (m0.connecting ∙ k)) tt in
      move m1 served (receive_node c m1.there) tt

  -- A handshake that is answered, as the table does not have the node.
  answer :
      (s : Line) (c : ℕ)
      → s.place c ≡ in_handshake false
      → exists d (id_of c) s.nodes ≡ false
      → Moved s c with_node
  answer s c at absent =
      let m0 = stay s c (in_handshake false) at in
      move m0 with_node (accept_handshake c m0.there (ap (exists d (id_of c)) m0.nodes ∙ absent)) tt

  exists-new : (k : String) → exists d k (new d) ≡ false
  unfolding exists new
  exists-new k = ground (arith, d.get-empty k)

  -- Two connections that were both answered, and then both accepted.
  record Both (s : Line) (a b : ℕ) (p : Place) : Type 0 where
    to : Line
    run : Guarded s to
    first : to.place a ≡ p
    second : to.place b ≡ p
    connecting : to.connecting ≡ true

  module _ (a b : ℕ) (ne : a ≢ b) where
    swapped : b ≢ a
    swapped e = ne (sym e)

    answer-Both : Both (start d id_of info_of) a b with_node
    answer-Both =
        let m1 = arrive (start d id_of info_of) a refl refl refl in
        let m2 = arrive m1.to b (m1.others b ne) m1.listening m1.connecting in
        let m3 =
          answer m2.to a (m2.others a swapped ∙ m1.there)
            (ap (exists d (id_of a)) (m2.nodes ∙ m1.nodes) ∙ exists-new (id_of a)) in
        let m4 =
          answer m3.to b (m3.others b ne ∙ m2.there)
            (ap (exists d (id_of b)) (m3.nodes ∙ m2.nodes ∙ m1.nodes) ∙ exists-new (id_of b)) in
        record {
          to = m4.to;
          run = join (join (join m1.run m2.run) m3.run) m4.run;
          first = m4.others a swapped ∙ m3.there;
          second = m4.there;
          connecting = m4.connecting ∙ m3.connecting ∙ m2.connecting ∙ m1.connecting;
        }

    accept-Both : {s : Line} → Both s a b with_node → Both s a b accepted
    accept-Both w =
        let with_a = λ (t : Line). record t { nodes = insert d (id_of a) a (info_of a) t.nodes } in
        let with_b = λ (t : Line). record t { nodes = insert d (id_of b) b (info_of b) t.nodes } in
        let s1 = put d id_of info_of a accepted (with_a w.to) in
        let s2 = put d id_of info_of b accepted (with_b s1) in
        let b_waits = off_placed a b accepted w.to.place ne ∙ w.second in
        record {
          to = s2;
          run = go_on (go_on w.run (node_accepted a w.first) tt) (node_accepted b b_waits) tt;
          first = off_placed b a accepted s1.place swapped ∙ at_placed a accepted w.to.place;
          second = at_placed b accepted s1.place;
          connecting = w.connecting;
        }

    serve-Both : {s : Line} → Both s a b accepted → Both s a b served
    serve-Both w =
        let m1 = serve w.to a w.first w.connecting in
        let m2 = serve m1.to b (m1.others b ne ∙ w.second) (m1.connecting ∙ w.connecting) in
        record {
          to = m2.to;
          run = join (join w.run m1.run) m2.run;
          first = m2.others a swapped ∙ m1.there;
          second = m2.there;
          connecting = m2.connecting ∙ m1.connecting ∙ w.connecting;
        }

    -- Two connections that lead to one node id may both pass the guarded handshake, from the start
    -- of the endpoint: then both are served at once, and when the one has exited, the table does not
    -- have the node, though the other is still served.
    pub race_hides_node :
        id_of a ≡ id_of b
        → (u t : Line) × Guarded (start d id_of info_of) u
          × Guarded u t
          × (u.place a ≡ served)
          × (u.place b ≡ served)
          × (t.place b ≡ served)
          × (exists d (id_of b) t.nodes ≡ false)
    race_hides_node same =
        let w = serve-Both (accept-Both answer-Both) in
        let left : Line = record w.to { nodes = remove d (id_of a) w.to.nodes } in
        (
          w.to,
          put d id_of info_of a exited left,
          w.run,
          go_on (here, tt) (node_exited a w.first) tt,
          w.first,
          w.second,
          off_placed a b exited w.to.place ne ∙ w.second,
          rw exists-remove (ground (arith, eq_iff (id_of a) (id_of b))),
        )
