-- ===== src/Forward/Opened.antt =====
-- A connection that is forwarded: the caller and the handler of the other node together.
use crab_rs.Prelude.{◌≤◌, ◌≡◌, ap, ◌∙◌, [], ◌∷◌, ◌++◌, append_assoc, length, Result, ok, true}
use crab_rs.Prelude.Bytes.{Bytes}
use crab_rs.Prelude.Io.{Io, ◌>>◌}
use crab_rs.Errors.{CrabError}
use crab_rs.Message.{MessageHeader, AckMessage, command, option_none}
use crab_rs.Transport.{Transport, Codec, RoundTrips, IsReliable}
use crab_rs.Stream.{max_payload_size, frame, write_message, read_ack}
use crab_rs.Stream.Keeps.{KeptByStream}
use crab_rs.Types.{SocketAddr}
use crab_rs.Tasks.{Sender, Receiver, Executor, multi_stage_task, run_executor}
use crab_rs.Tasks.Reports.{Reported}
use crab_rs.Command.Remote.{AckEncodes, LeavesStream}
use crab_rs.Command.Stages.{IsCaller, multi_stage_task-runs}
use crab_rs.Forward.Opening.{open_and_relay}
use crab_rs.Forward.OpeningLaws.{open_and_relay-opened}

-- What the node writes before the data: its acknowledgement and the address.
abbrev pub answers : MessageHeader → Bytes → Bytes → Bytes
answers h ack_payload payload =
    frame h.method option_none ack_payload ++ frame h.method option_none payload

module _ {S W : Type 0} ⦃server : Transport S⦄ ⦃client : Transport W⦄ ⦃ack : Codec AckMessage⦄
    (RS : IsReliable server) (RW : IsReliable client) (h : MessageHeader)
    (unmarked : h.option ≡ option_none) (ack_payload : Bytes) (acks : AckEncodes ack ack_payload)
    (addresses : Codec SocketAddr) (open_socket : Io CrabError S SocketAddr)
    (relay : Io CrabError S (Unit {0})) (l : LeavesStream RS open_socket) {P : S → Type 0}
    (kept : KeptByStream server P) {tx : Sender W (Result CrabError SocketAddr)}
    (r : Reported client tx) {T : Type 0} (rx : Receiver W (Result CrabError (Executor W T)))
    (executor : Executor W T) {Q : W → Type 0} (kept_Q : KeptByStream client Q)
    (caller : IsCaller RW r rx executor Q) {C : Type 0} (c : Codec C) (cmd : C) where
  -- If the other node can write and opens the socket, what it writes before the data is the
  -- acknowledgement and the socket's address, and then it waits for the acknowledgement and relays.
  -- If these two have arrived after the command was sent, the caller is told the address, once, and
  -- the rest of its task is what its executor does, with what follows the two left to it. The address
  -- can be encoded and decoded, and the opening does not touch the stream.
  pub forward_opens :
      (a : SocketAddr) (payload rest : Bytes) (s : S) (w w1 : W)
      → P s
      → RS.writable s ≡ true
      → ((v : S) → P v → (open_socket v).0 ≡ ok a)
      → RoundTrips addresses a payload
      → length payload ≤ max_payload_size
      → Q w
      → write_message c command option_none cmd w ≡ (ok tt, w1)
      → RW.inbox w1 ≡ answers h ack_payload payload ++ rest
      → (v : S) × (u : W) × (open_and_relay addresses open_socket relay h s ≡ (read_ack >> relay) v)
        × (RS.outbox v ≡ RS.outbox s ++ answers h ack_payload payload)
        × (multi_stage_task c cmd addresses tx rx w ≡ run_executor (ok executor) u)
        × (r.reported u ≡ r.reported w ++ ok a ∷ [])
        × (RW.inbox u ≡ rest)
  forward_opens a payload rest s w w1 holds x opens rt fits q sent arrived =
      let (v, run, out) =
        open_and_relay-opened RS addresses open_socket relay h l ack_payload acks s x kept holds a
          payload opens rt.0 in
      let (u, ran, i, o, z, k, p) =
        multi_stage_task-runs c cmd addresses tx rx executor RW r caller kept_Q h.method ack_payload
          payload rest a w w1 q acks rt fits sent
          (arrived
            ∙ append_assoc (frame h.method option_none ack_payload)
                (frame h.method option_none payload) rest) in
      (
        v,
        u,
        run,
        out
            ∙ append_assoc (RS.outbox s) (frame h.method h.option ack_payload)
                (frame h.method h.option payload)
            ∙ ap (λ o. RS.outbox s ++ (frame h.method o ack_payload ++ frame h.method o payload))
                unmarked,
        ran,
        k,
        i,
      )
