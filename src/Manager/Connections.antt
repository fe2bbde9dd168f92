-- ===== src/Manager/Connections.antt =====
-- The table against the connections that use it: crab/endpoint.rs runs each connection through a
-- handshake, `on_node_accepted`, the service and `on_node_exited`, and runs connections side by side.
--
-- A connection is a number, which is also the handle that it registers.
use crab_rs.Prelude.{ℕ, String, false, some, ◌≡◌, eq_iff, arith, if◌then◌else◌, ◌==◌}
use crab_rs.Manager.{DashMap, Node, Manager, new, insert, remove, get, exists}
use crab_rs.Manager.Laws.{get-insert, get-remove, exists-remove}

pub data Phase : Type 0 where
  waiting shaken serving gone : Phase

abbrev pub IsActive : Phase → Type 0
IsActive shaken = Unit
IsActive serving = Unit
IsActive _ = ⊥

module _ {Info : Type 0} (d : DashMap (Node ℕ Info)) (id_of : ℕ → String) (info_of : ℕ → Info) where
  pub record Network : Type 0 where
    pub nodes : Manager d
    pub phase : ℕ → Phase

  abbrev pub start : Network
  start = record { nodes = new d; phase = λ c. waiting }

  abbrev pub moved : ℕ → Phase → (ℕ → Phase) → ℕ → Phase
  moved c p phase x = if c == x then p else phase x

  -- What may happen next. A server looks the node up before it answers a handshake, a client does
  -- not; the node enters the table when the handshake is over, and leaves it when its service ends.
  pub data Step (s : Network) : Network → Type 0 where
    accept_handshake :
        (c : ℕ)
        → s.phase c ≡ waiting
        → exists d (id_of c) s.nodes ≡ false
        → Step s (record s { phase = moved c shaken s.phase })
    handshake_as_client :
        (c : ℕ) → s.phase c ≡ waiting → Step s (record s { phase = moved c shaken s.phase })
    handshake_failed :
        (c : ℕ) → s.phase c ≡ waiting → Step s (record s { phase = moved c gone s.phase })
    node_accepted :
        (c : ℕ)
        → s.phase c ≡ shaken
        → Step s (record {
          nodes = insert d (id_of c) c (info_of c) s.nodes;
          phase = moved c serving s.phase;
        })
    node_exited :
        (c : ℕ)
        → s.phase c ≡ serving
        → Step s (record { nodes = remove d (id_of c) s.nodes; phase = moved c gone s.phase })

  pub data Reach (s : Network) : Network → Type 0 where
    here : Reach s s
    next : {t u : Network} → Reach s t → Step t u → Reach s u

  -- No two connections with one node id are past their handshake at once.
  pub record IsExclusive (s : Network) : Type 0 where
    pub one : (a b : ℕ) → IsActive (s.phase a) → IsActive (s.phase b) → id_of a ≡ id_of b → a ≡ b

  -- A run all of whose states are exclusive.
  pub data ReachAlone (s : Network) : Network → Type 0 where
    here : ReachAlone s s
    next : {t u : Network} → ReachAlone s t → Step t u → IsExclusive u → ReachAlone s u

  pub record IsRegistered (s : Network) : Type 0 where
    pub exclusive : IsExclusive s
    pub found : (c : ℕ) → s.phase c ≡ serving → get d (id_of c) s.nodes ≡ some (c, info_of c)
    pub serves :
        (k : String) (c : ℕ) (i : Info)
        → get d k s.nodes ≡ some (c, i)
        → (s.phase c ≡ serving) × (id_of c ≡ k)

  Step-IsRegistered : {s t : Network} → Step s t → IsExclusive t → IsRegistered s → IsRegistered t
  Step-IsRegistered (accept_handshake c w e) x r = record {
    exclusive = x;
    found = λ a h. ground (arith, r.found a);
    serves = λ k a i h. ground (arith, r.serves k a i);
  }
  Step-IsRegistered (handshake_as_client c w) x r = record {
    exclusive = x;
    found = λ a h. ground (arith, r.found a);
    serves = λ k a i h. ground (arith, r.serves k a i);
  }
  Step-IsRegistered (handshake_failed c w) x r = record {
    exclusive = x;
    found = λ a h. ground (arith, r.found a);
    serves = λ k a i h. ground (arith, r.serves k a i);
  }
  Step-IsRegistered {s} (node_accepted c w) x r = record {
    exclusive = x;
    found = λ a h. rw get-insert (ground (arith, r.found a, x.one a c, eq_iff (id_of c) (id_of a)));
    serves = λ k a i h.
        ground (
          arith,
          r.serves k a i,
          get-insert d (id_of c) k c (info_of c) s.nodes,
          eq_iff (id_of c) k,
        );
  }
  Step-IsRegistered {s} (node_exited c w) x r = record {
    exclusive = x;
    found = λ a h.
        rw get-remove (ground (arith, r.found a, r.exclusive.one a c, eq_iff (id_of c) (id_of a)));
    serves = λ k a i h.
        ground (arith, r.serves k a i, get-remove d (id_of c) k s.nodes, eq_iff (id_of c) k);
  }

  IsRegistered-start : IsRegistered start
  unfolding new get
  IsRegistered-start = record {
    exclusive = record { one = λ a b h. elim h [ ] };
    found = λ c h. cc;
    serves = λ k c i h. ground (arith, d.get-empty k);
  }

  -- In a run in which no two connections with one node id are ever past their handshake at once,
  -- the table finds each connection in service under its node id, and every entry is a connection
  -- in service under its own node id.
  pub ReachAlone-IsRegistered : {t : Network} → ReachAlone start t → IsRegistered t
  ReachAlone-IsRegistered here = IsRegistered-start
  ReachAlone-IsRegistered (next r st x) = Step-IsRegistered st x (ReachAlone-IsRegistered r)

  -- If one connection is in service and another one, which waits for its handshake, leads to the
  -- same node id, a state can be reached in which the second is in service and the table does not
  -- have the node.
  pub duplicate_hides_node :
      (s : Network) (a b : ℕ)
      → s.phase a ≡ serving
      → s.phase b ≡ waiting
      → id_of a ≡ id_of b
      → (t : Network) × Reach s t × (t.phase b ≡ serving) × (exists d (id_of b) t.nodes ≡ false)
  duplicate_hides_node s a b ha hb same =
      let s1 : Network = record s { phase = moved b shaken s.phase } in
      let s2 : Network = record {
        nodes = insert d (id_of b) b (info_of b) s1.nodes;
        phase = moved b serving s1.phase;
      } in
      let s3 : Network = record {
        nodes = remove d (id_of a) s2.nodes;
        phase = moved a gone s2.phase;
      } in
      (
        s3,
        next (next (next here (handshake_as_client b hb)) (node_accepted b (ground arith)))
            (node_exited a (ground arith)),
        ground arith,
        rw exists-remove (ground (arith, eq_iff (id_of a) (id_of b))),
      )
