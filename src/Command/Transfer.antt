-- ===== src/Command/Transfer.antt =====
-- A file that one node stores at another, and gets back from it.
use crab_rs.Prelude.{ℕ, ◌≡◌, ap, ◌∙◌, String, true, false, some, ◌++◌, length, Result, ok}
use crab_rs.Prelude.Io.{Io, from, attempt}
use crab_rs.Prelude.Bytes.{Bytes}
use crab_rs.Errors.{CrabError, io}
use crab_rs.Message.{Method, MessageHeader, AckMessage, option_none}
use crab_rs.Transport.{Transport, Codec, IsReliable}
use crab_rs.Stream.{frame}
use crab_rs.Command.Files.{FileSystem, Paths, Cancellation, FileMetadata}
use crab_rs.Command.Handlers.{WriteFile, or_cancelled, handle_write_file, handle_read_file}
use crab_rs.Command.Remote.{AckEncodes}
use crab_rs.Command.Disk.{IsStore}
use crab_rs.Command.Upload.{HasPlace, handle_write_file-stores}
use crab_rs.Command.Download.{handle_read_file-sends}

module _ {W : Type 0} ⦃t : Transport W⦄ ⦃ack : Codec AckMessage⦄ (R : IsReliable t)
    {fs : FileSystem W} (S : IsStore R fs) (paths : Paths) (cmd : WriteFile)
    (cancel : Cancellation W)
    (lasts : (A : Type 0) (m : Io CrabError W A) (w : W) → or_cancelled cancel m w ≡ m w)
    (file_metadata : Codec FileMetadata) (h : MessageHeader) (peer : Method) (ack_payload : Bytes)
    (acks : AckEncodes ack ack_payload) (name : String) (no_mkdir : cmd.mkdir ≡ false)
    (named : paths.file_name cmd.path ≡ some name) where
  abbrev told : Bytes
  told = frame h.method h.option ack_payload

  -- If a file was stored by `handle_write_file`, without `overwrite`, and the disk's files are as
  -- they were left when another stream asks for the path, then `handle_read_file` sends on that
  -- stream the acknowledgement of success, the metadata with the length of the file, the
  -- acknowledgement again, and then the bytes that had arrived for the file. Both streams can be
  -- written, the peers' acknowledgements have arrived, the stored file's directory was there, with
  -- room in it, `mkdir` is not set, and no copying is cancelled.
  pub handle_read_file-handle_write_file :
      (data_bytes rest : Bytes) (encoded : FileMetadata → Bytes) (s r : W)
      → cmd.overwrite ≡ false
      → HasPlace R S paths cmd name (S.view s)
      → R.writable s ≡ true
      → R.inbox s ≡ frame peer option_none ack_payload ++ data_bytes
      → (S.view r).files ≡ (S.view (handle_write_file fs paths cmd cancel h s).1).files
      → (S.view r).dirs cmd.path ≡ false
      → ((m : FileMetadata)
          → m.filesize ≡ length data_bytes
          → file_metadata.encode m ≡ some (encoded m))
      → R.writable r ≡ true
      → R.inbox r ≡ frame peer option_none ack_payload ++ rest
      → (r' : W) × (m : FileMetadata) × (handle_read_file fs cancel file_metadata cmd.path h r
          ≡ (ok tt, r'))
        × (m.filesize ≡ length data_bytes)
        × (R.outbox r'
            ≡ (((R.outbox r ++ told) ++ frame h.method h.option (encoded m)) ++ told) ++ data_bytes)
  handle_read_file-handle_write_file data_bytes rest encoded s r o place x arrived kept no_dir enc y
        asked =
      let (s', run, stored, _, _) =
        handle_write_file-stores R S paths cmd cancel (lasts ℕ (from io fs.copy_from_stream)) h peer
          ack_payload acks name no_mkdir named data_bytes s o place x arrived in
      let there : (S.view r).files cmd.path ≡ some data_bytes =
        ap (λ files. files cmd.path) kept ∙ ap (λ p. (S.view p.1).files cmd.path) run ∙ stored in
      let (r', m, sends, size, _, out) =
        handle_read_file-sends R S cancel
          (lasts (Result CrabError ℕ) (attempt (from io fs.copy_to_stream))) file_metadata h peer
          ack_payload acks cmd.path data_bytes rest encoded r there no_dir enc y asked in
      (r', m, sends, size, out)
