-- ===== src/Command/Upload.antt =====
-- A file that a node stores for another: the handler of `WriteFile`.
use crab_rs.Prelude.{
  ℕ, ◌≡◌, ◌≢◌, refl, sym, ap, subst, ◌∙◌, arith, String, true, false, Option, some, ◌++◌, length,
  ok, eq_iff, map_err,
}
use crab_rs.Prelude.Io.{from}
use crab_rs.Prelude.Bytes.{Bytes}
use crab_rs.Errors.{io}
use crab_rs.Message.{Method, MessageHeader, AckMessage, option_none, success}
use crab_rs.Transport.{Transport, Codec, IsReliable}
use crab_rs.Stream.{frame, write_message, read_ack}
use crab_rs.Command.Files.{
  FileSystem, Paths, Cancellation, Metadata, generate_temp_path, or_empty, name_or_bad,
  make_base_dir, is_existing_dir,
}
use crab_rs.Command.Handlers.{
  WriteFile, or_cancelled, create_temp_file, accept_file, finish_write, handle_write_file,
}
use crab_rs.Command.WriteLaws.{finish_write-no_overwrite}
use crab_rs.Command.TempPath.{temp_path}
use crab_rs.Command.Remote.{AckEncodes}
use crab_rs.Command.Disk.{
  Disk, IsStore, set, create, fill, move, exists_in, write_message-kept, read_ack-kept,
}

set-same : (p : String) (c : Option Bytes) (files : String → Option Bytes) → set p c files p ≡ c
unfolding set
set-same p c files = ground (arith, eq_iff p p)

set-other :
    (p q : String) (c : Option Bytes) (files : String → Option Bytes)
    → q ≢ p
    → set p c files q ≡ files q
unfolding set
set-other p q c files n = ground (arith, eq_iff q p)

-- What an upload makes of a disk: the temporary file is made and filled, and then moved.
abbrev pub stored : String → String → Bytes → Disk → Disk
stored temp path data_bytes d = move temp path (fill data_bytes (create temp d))

stored-at :
    (temp path : String) (data_bytes : Bytes) (d : Disk)
    → (stored temp path data_bytes d).files path ≡ some data_bytes
unfolding set
stored-at temp path data_bytes d = ground (arith, eq_iff path path, eq_iff temp temp)

stored-other :
    (temp path other : String) (data_bytes : Bytes) (d : Disk)
    → other ≢ path
    → other ≢ temp
    → (stored temp path data_bytes d).files other ≡ d.files other
unfolding set
stored-other temp path other data_bytes d a b = ground (arith, eq_iff other path, eq_iff other temp)

module _ {W : Type 0} ⦃t : Transport W⦄ ⦃ack : Codec AckMessage⦄ (fs : FileSystem W) (paths : Paths)
    (cmd : WriteFile) where
  create_temp_file-steps :
      (name : String) (m : Metadata) (w w' : W)
      → cmd.mkdir ≡ false
      → paths.file_name cmd.path ≡ some name
      → fs.try_exists (or_empty (paths.parent cmd.path)) w ≡ (ok true, w)
      → fs.metadata (or_empty (paths.parent cmd.path)) w ≡ (ok m, w)
      → m.is_dir ≡ true
      → fs.create_file (temp_path paths cmd name) w ≡ (ok tt, w')
      → create_temp_file fs paths cmd w ≡ (ok (temp_path paths cmd name), w')
  unfolding create_temp_file generate_temp_path name_or_bad make_base_dir is_existing_dir
  create_temp_file-steps name m w w' no_mkdir named found looked dir made =
      rw no_mkdir (rw named (rw found (rw looked (rw dir (rw made refl)))))

  handle_write_file-steps :
      (cancel : Cancellation W) (h : MessageHeader) (temp : String) (size : ℕ)
      (w w1 w2 w3 w4 w5 w6 w7 : W)
      → write_message ack h.method h.option success w ≡ (ok tt, w1)
      → create_temp_file fs paths cmd w1 ≡ (ok temp, w2)
      → write_message ack h.method h.option success w2 ≡ (ok tt, w3)
      → read_ack w3 ≡ (ok tt, w4)
      → or_cancelled cancel (from io fs.copy_from_stream) w4 ≡ (ok size, w5)
      → finish_write fs paths cmd temp (ok size) w5 ≡ (ok success, w6)
      → write_message ack h.method h.option success w6 ≡ (ok tt, w7)
      → handle_write_file fs paths cmd cancel h w ≡ (ok tt, w7)
  unfolding handle_write_file accept_file
  handle_write_file-steps cancel h temp size w w1 w2 w3 w4 w5 w6 w7 e1 e2 e3 e4 e5 e6 e7 =
      rw e1 (rw e2 (rw e3 (rw e4 (rw e5 (rw e6 (rw e7 refl))))))

module _ {W : Type 0} ⦃t : Transport W⦄ (R : IsReliable t) {fs : FileSystem W} (S : IsStore R fs)
    (paths : Paths) (cmd : WriteFile) (name : String) where
  -- What a node must have for the file: the directory, and room in it.
  pub record HasPlace (d : Disk) : Type 0 where
    pub has_dir : d.dirs (or_empty (paths.parent cmd.path)) ≡ true
    pub temp_place : S.is_place d.dirs (temp_path paths cmd name) ≡ true
    pub path_place : S.is_place d.dirs cmd.path ≡ true

module _ {W : Type 0} ⦃t : Transport W⦄ ⦃ack : Codec AckMessage⦄ (R : IsReliable t)
    {fs : FileSystem W} (S : IsStore R fs) (paths : Paths) (cmd : WriteFile)
    (cancel : Cancellation W)
    (lasts : (w : W)
      → or_cancelled cancel (from io fs.copy_from_stream) w ≡ from io fs.copy_from_stream w)
    (h : MessageHeader) (peer : Method) (ack_payload : Bytes) (acks : AckEncodes ack ack_payload)
    (name : String) (no_mkdir : cmd.mkdir ≡ false)
    (named : paths.file_name cmd.path ≡ some name) where
  abbrev temp : String
  temp = temp_path paths cmd name

  abbrev told : Bytes
  told = frame h.method h.option ack_payload

  temp_created :
      (w : W)
      → HasPlace R S paths cmd name (S.view w)
      → (w' : W) × (create_temp_file fs paths cmd w ≡ (ok temp, w'))
        × (S.view w' ≡ create temp (S.view w))
        × (R.inbox w' ≡ R.inbox w)
        × (R.outbox w' ≡ R.outbox w)
        × (R.writable w' ≡ R.writable w)
  temp_created w place =
      let base = or_empty (paths.parent cmd.path) in
      let (m, looked, dir) = S.metadata_dir base w place.has_dir in
      let found : fs.try_exists base w ≡ (ok true, w) =
        S.try_exists_ok base w ∙ ap (λ b. (ok b, w)) (rw place.has_dir refl) in
      let (w', made, v, (i, o, x)) = S.create_file_ok temp w place.temp_place in
      (
        w',
        create_temp_file-steps fs paths cmd name m w w' no_mkdir named found looked dir made,
        v,
        i,
        o,
        x,
      )

  -- The end of the command: the file is moved to its place.
  moved :
      (data_bytes : Bytes) (d : Disk) (w : W)
      → cmd.overwrite ≡ false
      → HasPlace R S paths cmd name d
      → S.view w ≡ fill data_bytes (create temp d)
      → (w' : W) × (finish_write fs paths cmd temp (ok (length data_bytes)) w ≡ (ok success, w'))
        × (S.view w' ≡ stored temp cmd.path data_bytes d)
        × (R.inbox w' ≡ R.inbox w)
        × (R.outbox w' ≡ R.outbox w)
        × (R.writable w' ≡ R.writable w)
  moved data_bytes d w o place v =
      let there : (S.view w).files temp ≡ some data_bytes =
        ap (λ d. d.files temp) v ∙ set-same temp (some data_bytes) _ in
      let (w', renamed, v', (i, q, x)) =
        S.rename_ok temp cmd.path data_bytes w there
          (ap (λ d. S.is_place d.dirs cmd.path) v ∙ place.path_place) in
      (
        w',
        finish_write-no_overwrite fs paths cmd temp (length data_bytes)
            (exists_in (S.view w) cmd.path) w w w' o (S.try_exists_ok cmd.path w) renamed,
        v' ∙ ap (move temp cmd.path) v,
        i,
        q,
        x,
      )

  run_upload :
      (data_bytes : Bytes) (s : W)
      → cmd.overwrite ≡ false
      → HasPlace R S paths cmd name (S.view s)
      → R.writable s ≡ true
      → R.inbox s ≡ frame peer option_none ack_payload ++ data_bytes
      → (s' : W) × (handle_write_file fs paths cmd cancel h s ≡ (ok tt, s'))
        × (S.view s' ≡ stored temp cmd.path data_bytes (S.view s))
        × (R.outbox s' ≡ ((R.outbox s ++ told) ++ told) ++ told)
  run_upload data_bytes s o place x arrived =
      let (w1, e1, v1, i1, o1, x1) =
        write_message-kept R S ack h.method h.option success ack_payload s acks.round.0 x in
      let (w2, e2, v2, i2, o2, x2) =
        temp_created w1 (subst (HasPlace R S paths cmd name) (sym v1) place) in
      let (w3, e3, v3, i3, o3, x3) =
        write_message-kept R S ack h.method h.option success ack_payload w2 acks.round.0
          (x2 ∙ x1) in
      let (w4, e4, v4, i4, o4, x4) =
        read_ack-kept R S peer ack_payload data_bytes w3 acks (i3 ∙ i2 ∙ i1 ∙ arrived) in
      let (w5, e5, v5, i5, o5, x5) = S.copy_from_stream_ok w4 in
      let copied : or_cancelled cancel (from io fs.copy_from_stream) w4
          ≡ (ok (length data_bytes), w5) =
        lasts w4 ∙ ap (λ p. (map_err io p.0, p.1)) e5 ∙ ap (λ l. (ok (length l), w5)) i4 in
      let disk : S.view w5 ≡ fill data_bytes (create temp (S.view s)) =
        v5
        ∙ ap (λ b. fill b (S.view w4)) i4
        ∙ ap (fill data_bytes) (v4 ∙ v3 ∙ v2 ∙ ap (create temp) v1) in
      let (w6, e6, v6, i6, o6, x6) = moved data_bytes (S.view s) w5 o place disk in
      let (w7, e7, v7, i7, o7, x7) =
        write_message-kept R S ack h.method h.option success ack_payload w6 acks.round.0
          (x6 ∙ x5 ∙ x4 ∙ x3) in
      (
        w7,
        handle_write_file-steps fs paths cmd cancel h temp (length data_bytes) s w1 w2 w3 w4 w5 w6
            w7 e1 e2 e3 e4 copied e6 e7,
        v7 ∙ v6,
        o7 ∙ ap (λ b. b ++ told) (o6 ∙ o5 ∙ o4 ∙ o3 ∙ ap (λ b. b ++ told) (o2 ∙ o1)),
      )

  -- With `overwrite` and `mkdir` not set, on a stream that can be written, if the peer's
  -- acknowledgement has arrived with some data after it, and the node has the directory and room in
  -- it, the command succeeds: the target holds the data, whatever it held before, no path but the
  -- target and the temporary file holds anything else than before, and what is written is the
  -- acknowledgement of success, three times. The copying is not cancelled.
  pub handle_write_file-stores :
      (data_bytes : Bytes) (s : W)
      → cmd.overwrite ≡ false
      → HasPlace R S paths cmd name (S.view s)
      → R.writable s ≡ true
      → R.inbox s ≡ frame peer option_none ack_payload ++ data_bytes
      → (s' : W) × (handle_write_file fs paths cmd cancel h s ≡ (ok tt, s'))
        × ((S.view s').files cmd.path ≡ some data_bytes)
        × ((other : String)
            → other ≢ cmd.path
            → other ≢ temp
            → (S.view s').files other ≡ (S.view s).files other)
        × (R.outbox s' ≡ ((R.outbox s ++ told) ++ told) ++ told)
  handle_write_file-stores data_bytes s o place x arrived =
      let (s', run, v, out) = run_upload data_bytes s o place x arrived in
      (
        s',
        run,
        ap (λ d. d.files cmd.path) v ∙ stored-at temp cmd.path data_bytes (S.view s),
        λ other a b.
            ap (λ d. d.files other) v ∙ stored-other temp cmd.path other data_bytes (S.view s) a b,
        out,
      )
