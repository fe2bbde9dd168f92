-- ===== src/Control/UploadLaws.antt =====
-- A file that the control interface sends to a node: both nodes together.
use crab_rs.Prelude.{
  ℕ, ◌≡◌, refl, sym, ap, subst, ◌∙◌, String, true, false, some, [], ◌∷◌, ◌++◌, append_assoc, Result,
  ok, err, map_err,
}
use mathlib.Core.List.{append_cancel_left}
use crab_rs.Prelude.Io.{Io, next, pure, from, attempt}
use crab_rs.Prelude.Bytes.{Bytes}
use crab_rs.Errors.{CrabError, error_code, io}
use crab_rs.Errors.Codes
use crab_rs.Message.{Method, MessageHeader, AckMessage, command, option_none, success}
use crab_rs.Transport.{Transport, Codec, IsReliable}
use crab_rs.Stream.{frame, write_message, read_ack}
use crab_rs.Stream.RoundTrip.{write_message-frame}
use crab_rs.Stream.Arrived.{read_ack-arrived}
use crab_rs.Stream.Keeps.{write_message-Keeps, read_ack-Keeps}
use crab_rs.Tasks.{Sender, send_or, run_executor, executor_wrapper}
use crab_rs.Tasks.Reports.{Reported}
use crab_rs.Command.Files.{FileSystem, Paths, Cancellation}
use crab_rs.Command.Handlers.{WriteFile, or_cancelled, handle_write_file}
use crab_rs.Command.Remote.{AckEncodes}
use crab_rs.Command.Disk.{IsStore}
use crab_rs.Command.Upload.{HasPlace, handle_write_file-stores}
use crab_rs.Control.Nodes.{Pipes, upload}

-- The body of a request, whose bytes the copy adds to the stream. Neither the copy nor the end of
-- the stream takes anything from it, or reports a result.
pub record IsBody {W : Type 0} {t : Transport W} (R : IsReliable t) (pipes : Pipes W)
    {tx : Sender W (Result CrabError (Unit {0}))} (r : Reported t tx) (body : Bytes) : Type 0 where
  pub copy_ok :
      (w : W)
      → R.writable w ≡ true
      → (n : ℕ) × (w' : W) × (pipes.copy_to_stream w ≡ (ok n, w'))
        × (R.inbox w' ≡ R.inbox w)
        × (R.outbox w' ≡ R.outbox w ++ body)
        × (r.reported w' ≡ r.reported w)
  pub shutdown_ok :
      (w : W)
      → (w' : W) × (pipes.shutdown_stream w ≡ (ok tt, w'))
        × (R.inbox w' ≡ R.inbox w)
        × (R.outbox w' ≡ R.outbox w)
        × (r.reported w' ≡ r.reported w)

module _ {W : Type 0} ⦃t : Transport W⦄ ⦃ack : Codec AckMessage⦄ (pipes : Pipes W)
    (cancel : Cancellation W) (tx : Sender W (Result CrabError (Unit {0}))) where
  -- What the client runs once the node has taken the file: `upload` under its wrapper.
  abbrev pub second_stage : Io CrabError W (Unit {0})
  second_stage = run_executor (ok (executor_wrapper tx (upload pipes cancel)))

  finished :
      (p : Result CrabError (Unit {0}) × W)
      → (next {B = Unit {0}} p (λ _. pure {E = CrabError} tt)).1 ≡ p.1
  finished (ok _, w) = refl
  finished (err e, w) = refl

  second_stage-steps :
      (n : ℕ) (w w1 w2 w3 w4 : W)
      → write_message ack command option_none success w ≡ (ok tt, w1)
      → or_cancelled cancel (attempt (from io pipes.copy_to_stream)) w1 ≡ (ok (ok n), w2)
      → pipes.shutdown_stream w2 ≡ (ok tt, w3)
      → read_ack w3 ≡ (ok tt, w4)
      → (second_stage w).1 ≡ (tx (ok tt) w4).1
  unfolding run_executor executor_wrapper upload send_or
  second_stage-steps n w w1 w2 w3 w4 e1 e2 e3 e4 =
      rw e1 (
        rw e2
          (rw e3 (rw e4 (finished ((send_or (error_code Codes.canceled_error) tx (ok tt) w4))))))

  module _ (R : IsReliable t) (r : Reported t tx) (body : Bytes) (b : IsBody R pipes r body)
      (lasts : (m : Io CrabError W (Result CrabError ℕ)) (w : W) → or_cancelled cancel m w ≡ m w)
      (peer : Method) (ack_payload : Bytes) (acks : AckEncodes ack ack_payload) where
    -- The client's world when all is read and written, before it reports.
    pub second_stage-uploads :
        (rest : Bytes) (w : W)
        → R.writable w ≡ true
        → R.inbox w ≡ frame peer option_none ack_payload ++ rest
        → (w' : W) × ((second_stage w).1 ≡ (tx (ok tt) w').1)
          × (R.outbox w' ≡ (R.outbox w ++ frame command option_none ack_payload) ++ body)
          × (r.reported w' ≡ r.reported w)
    second_stage-uploads rest w x arrived =
        let told = frame command option_none ack_payload in
        let kept = r.by_stream (r.reported w) in
        let (w1, e1, i1, o1, x1) =
          write_message-frame R ack command option_none success ack_payload w acks.round.0 x in
        let k1 : r.reported w1 ≡ r.reported w =
          subst (λ p. r.reported p.1 ≡ r.reported w) e1
            ((write_message-Keeps kept ack command option_none success).at w refl) in
        let (n, w2, e2, i2, o2, k2) = b.copy_ok w1 x1 in
        let copied : or_cancelled cancel (attempt (from io pipes.copy_to_stream)) w1
            ≡ (ok (ok n), w2) =
          lasts (attempt (from io pipes.copy_to_stream)) w1
          ∙ ap (λ p. (ok (map_err io p.0), p.1)) e2 in
        let (w3, e3, i3, o3, k3) = b.shutdown_ok w2 in
        let (w4, e4, i4, o4, x4) =
          read_ack-arrived R peer ack_payload rest w3 acks.round acks.fits
            (i3 ∙ i2 ∙ i1 ∙ arrived) in
        let k4 : r.reported w4 ≡ r.reported w =
          subst (λ p. r.reported p.1 ≡ r.reported w) e4
            ((read_ack-Keeps kept).at w3 (k3 ∙ k2 ∙ k1)) in
        (
          w4,
          second_stage-steps n w w1 w2 w3 w4 e1 copied e3 e4,
          o4 ∙ o3 ∙ o2 ∙ ap (λ o. o ++ body) o1,
          k4,
        )

-- The client `W` and the node `S` that stores the file, on the two sides of one stream.
module _ {S W : Type 0} ⦃server : Transport S⦄ ⦃client : Transport W⦄ ⦃ack : Codec AckMessage⦄
    (RS : IsReliable server) (RW : IsReliable client) {fs : FileSystem S} (store : IsStore RS fs)
    (paths : Paths) (cmd : WriteFile) (server_cancel : Cancellation S)
    (server_lasts : (s : S)
      → or_cancelled server_cancel (from io fs.copy_from_stream) s ≡ from io fs.copy_from_stream s)
    (pipes : Pipes W) (cancel : Cancellation W)
    (lasts : (m : Io CrabError W (Result CrabError ℕ)) (w : W) → or_cancelled cancel m w ≡ m w)
    (tx : Sender W (Result CrabError (Unit {0}))) (r : Reported client tx)
    (quiet : (v : Result CrabError (Unit {0})) (w : W) → RW.outbox (tx v w).1 ≡ RW.outbox w)
    (body : Bytes) (b : IsBody RW pipes r body) (h : MessageHeader) (ack_payload : Bytes)
    (acks : AckEncodes ack ack_payload) (name : String) (no_mkdir : cmd.mkdir ≡ false)
    (named : paths.file_name cmd.path ≡ some name) where
  -- If what a client writes, once a node has taken its file, arrives at the node, which has the
  -- directory and room in it, and the node's last acknowledgement arrives at the client, then the
  -- client is told of success, once, and the node has the body of the request at the path, whatever
  -- was there before; `overwrite` and `mkdir` are not set, neither side cancels, and the streams can
  -- be written.
  pub upload-stores :
      (bytes rest : Bytes) (s : S) (w : W)
      → cmd.overwrite ≡ false
      → HasPlace RS store paths cmd name (store.view s)
      → RS.writable s ≡ true
      → RW.writable w ≡ true
      → RW.outbox (second_stage pipes cancel tx w).1 ≡ RW.outbox w ++ bytes
      → RS.inbox s ≡ bytes
      → RW.inbox w ≡ frame h.method option_none ack_payload ++ rest
      → (r.reported (second_stage pipes cancel tx w).1 ≡ r.reported w ++ ok tt ∷ [])
        × ((store.view (handle_write_file fs paths cmd server_cancel h s).1).files cmd.path
            ≡ some body)
  upload-stores bytes rest s w o place y x added reached answered =
      let told = frame command option_none ack_payload in
      let (w', run, out, k) =
        second_stage-uploads pipes cancel tx RW r body b lasts h.method ack_payload acks rest w x
          answered in
      let same : bytes ≡ told ++ body = append_cancel_left (RW.outbox w) bytes (told ++ body) (
        sym added
        ∙ ap RW.outbox run
        ∙ quiet (ok tt) w'
        ∙ out
        ∙ append_assoc (RW.outbox w) told body) in
      let (s', ran, stored, _, _) =
        handle_write_file-stores RS store paths cmd server_cancel server_lasts h command ack_payload
          acks name no_mkdir named body s o place y (reached ∙ same) in
      (
        ap r.reported run ∙ r.by_send (ok tt) w' ∙ ap (λ l. l ++ ok tt ∷ []) k,
        ap (λ p. (store.view p.1).files cmd.path) ran ∙ stored,
      )
