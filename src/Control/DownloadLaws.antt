-- ===== src/Control/DownloadLaws.antt =====
-- A file that the control interface gets from a node: both nodes together.
use mathlib.Core.List.{append_cancel_left}
use crab_rs.Prelude.{
  ℕ, ◌≡◌, ◌≤◌, refl, sym, ap, subst, ◌∙◌, String, true, false, some, [], ◌∷◌, ◌++◌, append_assoc,
  length, Result, ok,
}
use crab_rs.Prelude.Io.{from, attempt}
use crab_rs.Prelude.Bytes.{Bytes}
use crab_rs.Errors.{CrabError, io}
use crab_rs.Message.{Method, MessageHeader, AckMessage, command, option_none, success}
use crab_rs.Transport.{Transport, Codec, RoundTrips, IsReliable}
use crab_rs.Stream.{max_payload_size, frame, write_message, read_ack}
use crab_rs.Stream.RoundTrip.{write_message-frame}
use crab_rs.Stream.Arrived.{read_ack-arrived}
use crab_rs.Stream.Keeps.{KeptByStream, write_message-Keeps, read_ack-Keeps}
use crab_rs.Tasks.{Sender, Receiver, Executor, run_executor, multi_stage_task}
use crab_rs.Tasks.Reports.{Reported}
use crab_rs.Command.Files.{FileSystem, Cancellation, FileMetadata}
use crab_rs.Command.Handlers.{or_cancelled, handle_read_file}
use crab_rs.Command.Remote.{AckEncodes}
use crab_rs.Command.Disk.{IsStore}
use crab_rs.Command.Download.{handle_read_file-sends}
use crab_rs.Command.Stages.{IsCaller, multi_stage_task-runs}
use crab_rs.Control.Nodes.{Pipes, download}

-- The pipe of a response: it has the bytes that were copied to it. The copy takes all that arrives
-- on the stream, and reports nothing; what goes over the stream leaves the pipe as it is.
pub record IsSink {W I : Type 0} {t : Transport W} (R : IsReliable t) (pipes : Pipes W)
    {tx : Sender W (Result CrabError I)} (r : Reported t tx) : Type 0 where
  pub piped : W → Bytes
  pub by_stream : (bytes : Bytes) → KeptByStream t (λ w. piped w ≡ bytes)
  pub copy_ok :
      (w : W)
      → (n : ℕ) × (w' : W) × (pipes.copy_from_stream w ≡ (ok n, w'))
        × (piped w' ≡ piped w ++ R.inbox w)
        × (r.reported w' ≡ r.reported w)
  pub shutdown_ok :
      (w : W)
      → (w' : W) × (pipes.shutdown_pipe w ≡ (ok tt, w'))
        × (piped w' ≡ piped w)
        × (r.reported w' ≡ r.reported w)

module _ {W : Type 0} ⦃t : Transport W⦄ ⦃ack : Codec AckMessage⦄ (pipes : Pipes W) where
  download-steps :
      (n : ℕ) (w w1 w2 w3 w4 : W)
      → write_message ack command option_none success w ≡ (ok tt, w1)
      → read_ack w1 ≡ (ok tt, w2)
      → pipes.copy_from_stream w2 ≡ (ok n, w3)
      → pipes.shutdown_pipe w3 ≡ (ok tt, w4)
      → run_executor (ok (download pipes)) w ≡ (ok tt, w4)
  unfolding run_executor download
  download-steps n w w1 w2 w3 w4 e1 e2 e3 e4 = rw e1 (rw e2 (rw e3 (rw e4 refl)))

  module _ (R : IsReliable t) {I : Type 0} {tx : Sender W (Result CrabError I)} (r : Reported t tx)
      (sink : IsSink R pipes r) (peer : Method) (ack_payload : Bytes)
      (acks : AckEncodes ack ack_payload) where
    -- The second stage of the task, when the rest of the node's answers has arrived.
    download-pipes :
        (data_bytes : Bytes) (w : W)
        → R.writable w ≡ true
        → R.inbox w ≡ frame peer option_none ack_payload ++ data_bytes
        → (w' : W) × (run_executor (ok (download pipes)) w ≡ (ok tt, w'))
          × (sink.piped w' ≡ sink.piped w ++ data_bytes)
          × (r.reported w' ≡ r.reported w)
    download-pipes data_bytes w x arrived =
        let kept = r.by_stream (r.reported w) in
        let still = sink.by_stream (sink.piped w) in
        let (w1, e1, i1, o1, x1) =
          write_message-frame R ack command option_none success ack_payload w acks.round.0 x in
        let k1 : r.reported w1 ≡ r.reported w =
          subst (λ p. r.reported p.1 ≡ r.reported w) e1
            ((write_message-Keeps kept ack command option_none success).at w refl) in
        let p1 : sink.piped w1 ≡ sink.piped w =
          subst (λ p. sink.piped p.1 ≡ sink.piped w) e1
            ((write_message-Keeps still ack command option_none success).at w refl) in
        let (w2, e2, i2, o2, x2) =
          read_ack-arrived R peer ack_payload data_bytes w1 acks.round acks.fits (i1 ∙ arrived) in
        let k2 : r.reported w2 ≡ r.reported w =
          subst (λ p. r.reported p.1 ≡ r.reported w) e2 ((read_ack-Keeps kept).at w1 k1) in
        let p2 : sink.piped w2 ≡ sink.piped w =
          subst (λ p. sink.piped p.1 ≡ sink.piped w) e2 ((read_ack-Keeps still).at w1 p1) in
        let (n, w3, e3, p3, k3) = sink.copy_ok w2 in
        let (w4, e4, p4, k4) = sink.shutdown_ok w3 in
        (
          w4,
          download-steps n w w1 w2 w3 w4 e1 e2 e3 e4,
          p4 ∙ p3 ∙ ap (λ b. sink.piped w2 ++ b) i2 ∙ ap (λ b. b ++ data_bytes) p2,
          k4 ∙ k3 ∙ k2,
        )

-- The client `W` and the node `S` that has the file, on the two sides of one stream.
module _ {S W : Type 0} ⦃server : Transport S⦄ ⦃client : Transport W⦄ ⦃ack : Codec AckMessage⦄
    (RS : IsReliable server) (RW : IsReliable client) {fs : FileSystem S} (store : IsStore RS fs)
    (cancel : Cancellation S)
    (lasts : (s : S)
      → or_cancelled cancel (attempt (from io fs.copy_to_stream)) s
        ≡ attempt (from io fs.copy_to_stream) s)
    (file_metadata : Codec FileMetadata) (h : MessageHeader) (unmarked : h.option ≡ option_none)
    (peer : Method) (ack_payload : Bytes) (acks : AckEncodes ack ack_payload) (pipes : Pipes W)
    {tx : Sender W (Result CrabError FileMetadata)} (r : Reported client tx)
    (sink : IsSink RW pipes r) (rx : Receiver W (Result CrabError (Executor W (Unit {0}))))
    (caller : (bytes : Bytes) → IsCaller RW r rx (download pipes) (λ w. sink.piped w ≡ bytes))
    {C : Type 0} (c : Codec C) (cmd : C) where
  -- What the node writes for a file of this data.
  abbrev answers : Bytes → Bytes → Bytes
  answers payload data_bytes =
      frame h.method option_none ack_payload
      ++ (frame h.method option_none payload
          ++ (frame h.method option_none ack_payload ++ data_bytes))

  sent_answers :
      (path : String) (data_bytes rest bytes : Bytes) (encoded : FileMetadata → Bytes) (s : S)
      → (store.view s).files path ≡ some data_bytes
      → (store.view s).dirs path ≡ false
      → ((m : FileMetadata)
          → m.filesize ≡ length data_bytes
          → file_metadata.encode m ≡ some (encoded m))
      → RS.writable s ≡ true
      → RS.inbox s ≡ frame peer option_none ack_payload ++ rest
      → RS.outbox (handle_read_file fs cancel file_metadata path h s).1 ≡ RS.outbox s ++ bytes
      → (m : FileMetadata) × (m.filesize ≡ length data_bytes)
        × (bytes ≡ answers (encoded m) data_bytes)
  sent_answers path data_bytes rest bytes encoded s there no_dir enc x asked added =
      let (s', m, run, size, _, out) =
        handle_read_file-sends RS store cancel lasts file_metadata h peer ack_payload acks path
          data_bytes rest encoded s there no_dir enc x asked in
      let f = frame h.method h.option ack_payload in
      let g = frame h.method h.option (encoded m) in
      let same : RS.outbox s ++ bytes ≡ RS.outbox s ++ (f ++ (g ++ (f ++ data_bytes))) =
        sym added
        ∙ ap (λ p. RS.outbox p.1) run
        ∙ out
        ∙ append_assoc ((RS.outbox s ++ f) ++ g) f data_bytes
        ∙ append_assoc (RS.outbox s ++ f) g (f ++ data_bytes)
        ∙ append_assoc (RS.outbox s) f (g ++ (f ++ data_bytes)) in
      (
        m,
        size,
        append_cancel_left (RS.outbox s) bytes (f ++ (g ++ (f ++ data_bytes))) same
            ∙ ap
                (λ o.
                  frame h.method o ack_payload
                  ++ (frame h.method o (encoded m) ++ (frame h.method o ack_payload ++ data_bytes)))
                unmarked,
      )

  -- If the node has a file at the path, whose metadata can be encoded and decoded, as the
  -- acknowledgement can, the copying is not cancelled, the client's acknowledgement arrives at the
  -- node, and what the node writes arrives at the client, whose caller waits for it, after the
  -- command was written, on streams that both can write, then the client's task succeeds: its caller
  -- is told the metadata, with the file's length, once, and the file's bytes go into the pipe of the
  -- response.
  pub download-delivers :
      (path : String) (data_bytes rest bytes : Bytes) (encoded : FileMetadata → Bytes) (s : S)
      (w w1 : W)
      → (store.view s).files path ≡ some data_bytes
      → (store.view s).dirs path ≡ false
      → ((m : FileMetadata)
          → m.filesize ≡ length data_bytes
          → RoundTrips file_metadata m (encoded m) × (length (encoded m) ≤ max_payload_size))
      → RS.writable s ≡ true
      → RS.inbox s ≡ frame peer option_none ack_payload ++ rest
      → RS.outbox (handle_read_file fs cancel file_metadata path h s).1 ≡ RS.outbox s ++ bytes
      → write_message c command option_none cmd w ≡ (ok tt, w1)
      → RW.inbox w1 ≡ bytes
      → RW.writable w1 ≡ true
      → let p = multi_stage_task c cmd file_metadata tx rx w in
        (m : FileMetadata) × (m.filesize ≡ length data_bytes)
        × (p.0 ≡ ok tt)
        × (r.reported p.1 ≡ r.reported w ++ ok m ∷ [])
        × (sink.piped p.1 ≡ sink.piped w ++ data_bytes)
  download-delivers path data_bytes rest bytes encoded s w w1 there no_dir rt x asked added sent
        arrived y =
      let (m, size, same) =
        sent_answers path data_bytes rest bytes encoded s there no_dir (λ m e. (rt m e).0.0) x asked
          added in
      let told = frame h.method option_none ack_payload ++ data_bytes in
      let (u, run, i, o, z, k, p) =
        multi_stage_task-runs c cmd file_metadata tx rx (download pipes) RW r
          (caller (sink.piped w)) (sink.by_stream (sink.piped w)) h.method ack_payload (encoded m)
          told m w w1 refl acks (rt m size).0 (rt m size).1 sent (arrived ∙ same) in
      let (w', ran, q, k') =
        download-pipes pipes RW r sink h.method ack_payload acks data_bytes u (z ∙ y) i in
      let whole = run ∙ ran in
      (
        m,
        size,
        ap (λ p. p.0) whole,
        ap (λ p. r.reported p.1) whole ∙ k' ∙ k,
        ap (λ p. sink.piped p.1) whole ∙ q ∙ ap (λ b. b ++ data_bytes) p,
      )
