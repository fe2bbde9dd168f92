-- ===== src/Command/Download.antt =====
-- A file that a node reads for another: the handler of `ReadFile`.
use crab_rs.Prelude.{
  ℕ, ◌≡◌, refl, ap, ◌∙◌, String, true, false, false, some, ◌++◌, length, ok, map_err,
}
use crab_rs.Prelude.Io.{from, attempt}
use crab_rs.Prelude.Bytes.{Bytes}
use crab_rs.Errors.{io}
use crab_rs.Message.{Method, MessageHeader, AckMessage, option_none, success}
use crab_rs.Transport.{Transport, Codec, IsReliable}
use crab_rs.Stream.{frame, write_message, read_ack}
use crab_rs.Command.Files.{FileSystem, Cancellation, Metadata, FileMetadata, into_file_metadata}
use crab_rs.Command.Handlers.{or_cancelled, handle_read_file}
use crab_rs.Command.Remote.{AckEncodes}
use crab_rs.Command.Disk.{IsStore, load, write_message-kept, read_ack-kept}

module _ {W : Type 0} ⦃t : Transport W⦄ ⦃ack : Codec AckMessage⦄ (fs : FileSystem W)
    (cancel : Cancellation W) (file_metadata : Codec FileMetadata) (path : String) where
  handle_read_file-steps :
      (h : MessageHeader) (m : Metadata) (size : ℕ) (w w1 w2 w3 w4 w5 w6 w7 : W)
      → write_message ack h.method h.option success w ≡ (ok tt, w1)
      → fs.metadata path w1 ≡ (ok m, w2)
      → write_message file_metadata h.method h.option (into_file_metadata m) w2 ≡ (ok tt, w3)
      → read_ack w3 ≡ (ok tt, w4)
      → fs.open_file path w4 ≡ (ok tt, w5)
      → write_message ack h.method h.option success w5 ≡ (ok tt, w6)
      → or_cancelled cancel (attempt (from io fs.copy_to_stream)) w6 ≡ (ok (ok size), w7)
      → handle_read_file fs cancel file_metadata path h w ≡ (ok tt, fs.finish w7)
  unfolding handle_read_file
  handle_read_file-steps h m size w w1 w2 w3 w4 w5 w6 w7 e1 e2 e3 e4 e5 e6 e7 =
      rw e1 (rw e2 (rw e3 (rw e4 (rw e5 (rw e6 (rw e7 refl))))))

module _ {W : Type 0} ⦃t : Transport W⦄ ⦃ack : Codec AckMessage⦄ (R : IsReliable t)
    {fs : FileSystem W} (S : IsStore R fs) (cancel : Cancellation W)
    (lasts : (w : W)
      → or_cancelled cancel (attempt (from io fs.copy_to_stream)) w
        ≡ attempt (from io fs.copy_to_stream) w)
    (file_metadata : Codec FileMetadata) (h : MessageHeader) (peer : Method) (ack_payload : Bytes)
    (acks : AckEncodes ack ack_payload) where
  abbrev told : Bytes
  told = frame h.method h.option ack_payload

  -- On a stream that can be written, if the peer's acknowledgement has arrived and there is a file at
  -- the path whose metadata can be encoded, the command succeeds and leaves the disk's files as they
  -- are: what is written is the acknowledgement of success, the metadata with the file's length, the
  -- acknowledgement again, and then the file's bytes.
  pub handle_read_file-sends :
      (path : String) (data_bytes rest : Bytes) (encoded : FileMetadata → Bytes) (s : W)
      → (S.view s).files path ≡ some data_bytes
      → (S.view s).dirs path ≡ false
      → ((m : FileMetadata)
          → m.filesize ≡ length data_bytes
          → file_metadata.encode m ≡ some (encoded m))
      → R.writable s ≡ true
      → R.inbox s ≡ frame peer option_none ack_payload ++ rest
      → (s' : W) × (m : FileMetadata) × (handle_read_file fs cancel file_metadata path h s
          ≡ (ok tt, s'))
        × (m.filesize ≡ length data_bytes)
        × ((S.view s').files ≡ (S.view s).files)
        × (R.outbox s'
            ≡ (((R.outbox s ++ told) ++ frame h.method h.option (encoded m)) ++ told) ++ data_bytes)
  unfolding into_file_metadata
  handle_read_file-sends path data_bytes rest encoded s there no_dir enc x arrived =
      let (w1, e1, v1, i1, o1, x1) =
        write_message-kept R S ack h.method h.option success ack_payload s acks.round.0 x in
      let (m, e2, size) =
        S.metadata_file path data_bytes w1 (ap (λ d. d.files path) v1 ∙ there)
          (ap (λ d. d.dirs path) v1 ∙ no_dir) in
      let meta = into_file_metadata m in
      let (w3, e3, v3, i3, o3, x3) =
        write_message-kept R S file_metadata h.method h.option meta (encoded meta) w1
          (enc meta size) x1 in
      let (w4, e4, v4, i4, o4, x4) =
        read_ack-kept R S peer ack_payload rest w3 acks (i3 ∙ i1 ∙ arrived) in
      let same : S.view w4 ≡ S.view s = v4 ∙ v3 ∙ v1 in
      let (w5, e5, v5, (i5, o5, x5)) =
        S.open_file_ok path data_bytes w4 (ap (λ d. d.files path) same ∙ there) in
      let (w6, e6, v6, i6, o6, x6) =
        write_message-kept R S ack h.method h.option success ack_payload w5 acks.round.0
          (x5 ∙ x4 ∙ x3) in
      let (w7, e7, v7, o7) = S.copy_to_stream_ok w6 x6 in
      let (v8, o8) = S.finish_ok w7 in
      let loaded : S.view w6 ≡ load data_bytes (S.view s) = v6 ∙ v5 ∙ ap (load data_bytes) same in
      (
        fs.finish w7,
        meta,
        handle_read_file-steps fs cancel file_metadata path h m (length (S.view w6).opened) s w1 w1
            w3 w4 w5 w6 w7 e1 e2 e3 e4 e5 e6 (lasts w6 ∙ ap (λ p. (ok (map_err io p.0), p.1)) e7),
        size,
        ap (λ d. d.files) (v8 ∙ v7 ∙ loaded),
        o8
            ∙ o7
            ∙ ap (λ d. R.outbox w6 ++ d.opened) loaded
            ∙ ap (λ b. b ++ data_bytes)
                (o6
                  ∙ ap (λ b. b ++ told)
                      (o5 ∙ o4 ∙ o3 ∙ ap (λ b. b ++ frame h.method h.option (encoded meta)) o1)),
      )
