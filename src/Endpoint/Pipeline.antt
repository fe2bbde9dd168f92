-- ===== src/Endpoint/Pipeline.antt =====
-- endpoint.rs: the loops `listen`, `serve_all_connection` and `serve_all_node`, and the tasks that they
-- spawn, as the steps that they take side by side.
--
-- A connection is a number. Where it is says which channel or which set of tasks holds it, and how
-- far its task has come; whether the endpoint is its client goes with it.
use crab_rs.Prelude.{ℕ, String, Bool, true, false, ◌≡◌, if◌then◌else◌, ◌==◌}
use crab_rs.Manager.{DashMap, Node, Manager, new, insert, remove, exists}

pub data Place : Type 0 where
  fresh : Place
  -- in the set of `listen`, until QUIC has set the connection up
  incoming : Place
  -- in the channel of `serve_all_connection`
  conn_task : Bool → Place
  -- a task of `serve_all_connection`: in `on_connection_accepted`, in the handshake, after it, and
  -- ended with a node
  checked : Bool → Place
  in_handshake : Bool → Place
  with_node : Place
  accepted : Place
  -- in the channel of `serve_all_node`, and a task of it
  node_task : Place
  served : Place
  exited : Place
  dropped : Place

module _ {Info : Type 0} (d : DashMap (Node ℕ Info)) (id_of : ℕ → String) (info_of : ℕ → Info) where
  pub record Pipeline : Type 0 where
    pub nodes : Manager d
    pub place : ℕ → Place
    -- whether the loops of `listen` and of `serve_all_connection` go on; either may stop when its
    -- token is cancelled, or when what it receives from has ended
    pub listening : Bool
    pub connecting : Bool

  abbrev pub start : Pipeline
  start = record { nodes = new d; place = λ c. fresh; listening = true; connecting = true }

  abbrev pub placed : ℕ → Place → (ℕ → Place) → ℕ → Place
  placed c p place x = if c == x then p else place x

  abbrev pub put : ℕ → Place → Pipeline → Pipeline
  put c p s = record s { place = placed c p s.place }

  pub data Step (s : Pipeline) : Pipeline → Type 0 where
    -- `listen`
    accept : (c : ℕ) → s.place c ≡ fresh → s.listening ≡ true → Step s (put c incoming s)
    connected :
        (c : ℕ) → s.place c ≡ incoming → s.listening ≡ true → Step s (put c (conn_task false) s)
    connect_failed : (c : ℕ) → s.place c ≡ incoming → Step s (put c dropped s)
    stop_listening : s.listening ≡ true → Step s (record s { listening = false })
    -- `start_remote_node`
    remote_connected : (c : ℕ) → s.place c ≡ fresh → Step s (put c (conn_task true) s)
    -- `serve_all_connection`
    receive_connection :
        (c : ℕ) (as_client : Bool)
        → s.place c ≡ conn_task as_client
        → s.connecting ≡ true
        → Step s (put c (checked as_client) s)
    blocked : (c : ℕ) (as_client : Bool) → s.place c ≡ checked as_client → Step s (put c dropped s)
    connection_accepted :
        (c : ℕ) (as_client : Bool)
        → s.place c ≡ checked as_client
        → Step s (put c (in_handshake as_client) s)
    handshake_failed :
        (c : ℕ) (as_client : Bool) → s.place c ≡ in_handshake as_client → Step s (put c dropped s)
    accept_handshake :
        (c : ℕ)
        → s.place c ≡ in_handshake false
        → exists d (id_of c) s.nodes ≡ false
        → Step s (put c with_node s)
    handshake_as_client : (c : ℕ) → s.place c ≡ in_handshake true → Step s (put c with_node s)
    node_accepted :
        (c : ℕ)
        → s.place c ≡ with_node
        → Step s (put c accepted (record s { nodes = insert d (id_of c) c (info_of c) s.nodes }))
    send_node : (c : ℕ) → s.place c ≡ accepted → s.connecting ≡ true → Step s (put c node_task s)
    stop_connecting : s.connecting ≡ true → Step s (record s { connecting = false })
    -- `join_set.shutdown` aborts a task where it waits.
    abort_check :
        (c : ℕ) (as_client : Bool)
        → s.place c ≡ checked as_client
        → s.connecting ≡ false
        → Step s (put c dropped s)
    abort_handshake :
        (c : ℕ) (as_client : Bool)
        → s.place c ≡ in_handshake as_client
        → s.connecting ≡ false
        → Step s (put c dropped s)
    -- `serve_all_node`
    receive_node : (c : ℕ) → s.place c ≡ node_task → Step s (put c served s)
    node_exited :
        (c : ℕ)
        → s.place c ≡ served
        → Step s (put c exited (record s { nodes = remove d (id_of c) s.nodes }))

  pub data Reach (s : Pipeline) : Pipeline → Type 0 where
    here : Reach s s
    next : {t u : Pipeline} → Reach s t → Step t u → Reach s u
