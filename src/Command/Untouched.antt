-- ===== src/Command/Untouched.antt =====
-- A target that a WriteFile command leaves as it is.
use crab_rs.Prelude.{ℕ, ◌≡◌, arith, String, Bool, true, some, Result, ok, err, not, ◌==◌}
use crab_rs.Prelude.Io.{
  Io, pure, raise, lift, from, attempt, ignore, branch, ◌>>=◌, ◌>>◌, >>=-eq-ok, from-eq-ok,
}
use crab_rs.Prelude.Io.Keeps.{
  Keeps, keeps_rules, Keeps-bind, Keeps-bind_at, Keeps-pure, Keeps-match_on, Keeps-attempt,
  Keeps-from, Keeps-if,
}
use crab_rs.Errors.{CrabError, io}
use crab_rs.Errors.Codes
use crab_rs.Message.{MessageHeader, AckMessage, success, from_error}
use crab_rs.Transport.{Transport, Codec}
use crab_rs.Stream.{write_message, write_error, read_ack}
use crab_rs.Stream.Keeps.{KeptByStream, read_ack-Keeps, write_message-Keeps, write_error-Keeps}
use crab_rs.Command.Files.{
  FileSystem, Paths, Cancellation, generate_temp_path, make_base_dir, is_existing_dir,
}
use crab_rs.Command.TempPath.{temp_path, generate_temp_path-eq}
use crab_rs.Command.Handlers.{
  WriteFile, or_cancelled, accept_file, create_temp_file, check_target, write_result, move_file,
  remove_unless_done, finish_write, handle_write_file,
}

-- The predicate `P` says that the target is there, and holds on as long as the target is not
-- replaced: the stream, the other operations on the file system, and the copy, which may be
-- abandoned, leave it as it is. The temporary file is not the target.
pub record IsUntouched {W : Type 0} (t : Transport W) (fs : FileSystem W) (paths : Paths)
    (cancel : Cancellation W) (cmd : WriteFile) (P : W → Type 0) : Type 0 where
  pub by_stream : KeptByStream t P
  pub by_create_dir_all : (p : String) → Keeps P (fs.create_dir_all p)
  pub by_try_exists : (p : String) → Keeps P (fs.try_exists p)
  pub by_metadata : (p : String) → Keeps P (fs.metadata p)
  pub by_copy : Keeps P (or_cancelled cancel (from io fs.copy_from_stream))
  pub by_create :
      (name : String)
      → paths.file_name cmd.path ≡ some name
      → Keeps P (fs.create_file (temp_path paths cmd name))
  pub by_remove :
      (name : String)
      → paths.file_name cmd.path ≡ some name
      → Keeps P (fs.remove_file (temp_path paths cmd name))
  pub present : (w w' : W) (b : Bool) → P w → fs.try_exists cmd.path w ≡ (ok b, w') → b ≡ true

module _ {W : Type 0} ⦃t : Transport W⦄ ⦃ack : Codec AckMessage⦄ (fs : FileSystem W) (paths : Paths)
    (cancel : Cancellation W) (cmd : WriteFile) {P : W → Type 0}
    (u : IsUntouched t fs paths cancel cmd P) where
  open u use {
    by_stream, by_create_dir_all, by_try_exists, by_metadata, by_copy, by_create, by_remove,
  }

  generate_temp_path-Keeps : Keeps P (generate_temp_path fs paths cmd.path cmd.mkdir)
  unfolding generate_temp_path make_base_dir is_existing_dir
  generate_temp_path-Keeps =
      search (keeps_rules, by_create_dir_all, by_try_exists, by_metadata) depth 9

  -- A temporary file that may be created and removed.
  abbrev IsTemp : String → Type 0
  IsTemp temp = Keeps P (fs.create_file temp) × Keeps P (fs.remove_file temp)

  generated-IsTemp :
      (temp : String) (w w' : W)
      → generate_temp_path fs paths cmd.path cmd.mkdir w ≡ (ok temp, w')
      → IsTemp temp
  generated-IsTemp temp w w' e =
      let (name, found, same) = generate_temp_path-eq fs paths cmd w w' temp e in
      rw same (by_create name found, by_remove name found)

  create_temp_file-Keeps : Keeps P (create_temp_file fs paths cmd)
  unfolding create_temp_file
  create_temp_file-Keeps =
      Keeps-bind_at (generate_temp_path fs paths cmd.path cmd.mkdir)
        (λ temp. from io (fs.create_file temp) >> pure temp) generate_temp_path-Keeps
        λ temp w v h e.
          Keeps-bind (from io (fs.create_file temp)) (λ _. pure temp)
            (Keeps-from io (fs.create_file temp) (generated-IsTemp temp w v e).0)
            (λ _. Keeps-pure temp)

  created-IsTemp :
      (temp : String) (w v : W) → create_temp_file fs paths cmd w ≡ (ok temp, v) → IsTemp temp
  unfolding create_temp_file
  created-IsTemp temp w v e =
      let create : String → Io CrabError W String =
        λ temp. from io (fs.create_file temp) >> pure temp in
      let (x, w1, e1, r1) = >>=-eq-ok (generate_temp_path fs paths cmd.path cmd.mkdir) create e in
      let (_, w2, _, r2) = >>=-eq-ok (from io (fs.create_file x)) (λ _. pure x) r1 in
      let same : x ≡ temp = ground arith in rw (← same) (generated-IsTemp x w w1 e1)

  accept_file-Keeps : (h : MessageHeader) → Keeps P (accept_file fs paths cmd h)
  unfolding accept_file
  accept_file-Keeps h = search (
    keeps_rules,
    create_temp_file-Keeps,
    write_message-Keeps by_stream,
    write_error-Keeps by_stream,
  )

  accepted :
      (h : MessageHeader) (p : Result CrabError String × W) (temp : String) (v : W)
      → branch p
          (λ temp. do write_message ack h.method h.option success; pure temp)
          (λ e. do write_error h.method h.option e; raise e)
        ≡ (ok temp, v)
      → p ≡ (ok temp, p.1)
  accepted h (ok x, w) temp v e =
      let (_, w1, _, r1) =
        >>=-eq-ok (write_message ack h.method h.option success) (λ _. pure x) e in
      ground arith
  accepted h (err x, w) temp v e =
      let stop : Io CrabError W String = raise x in
      let (_, w1, _, r1) = >>=-eq-ok (write_error h.method h.option x) (λ _. stop) e in cc r1

  accepted-IsTemp :
      (h : MessageHeader) (temp : String) (w v : W)
      → accept_file fs paths cmd h w ≡ (ok temp, v)
      → IsTemp temp
  unfolding accept_file
  accepted-IsTemp h temp w v e =
      created-IsTemp temp w _ (accepted h (create_temp_file fs paths cmd w) temp v e)

  -- With `overwrite` set the check of a target that is there fails.
  write_result-refuses :
      cmd.overwrite ≡ true
      → (copied : Result CrabError ℕ) (w v : W) → P w
      → write_result fs paths cmd copied w ≡ (ok tt, v)
      → ⊥
  unfolding write_result
  write_result-refuses o (ok size) w v h e =
      let (b, v1, e1, e2) =
        >>=-eq-ok (from io (fs.try_exists cmd.path)) (λ b. lift (check_target fs paths cmd b)) e in
      let there : b ≡ true = u.present w v1 b h (from-eq-ok io (fs.try_exists cmd.path) e1) in
      ground arith
  write_result-refuses o (err x) w v h e = cc

  remove_unless_done-Keeps :
      (temp : String) (a : AckMessage)
      → Keeps P (fs.remove_file temp)
      → Keeps P (remove_unless_done fs paths cmd temp a)
  unfolding remove_unless_done
  remove_unless_done-Keeps temp a removable =
      let remove = from io (fs.remove_file temp) in
      Keeps-if (not (a.code == Codes.no_error)) (ignore remove) (pure tt)
        (Keeps-match_on remove (λ _. pure tt) (λ _. pure tt)
          (Keeps-from io (fs.remove_file temp) removable) (λ _. Keeps-pure tt) (λ _. Keeps-pure tt))
        (Keeps-pure tt)

  finish_error-Keeps :
      (temp : String) (x : CrabError)
      → Keeps P (fs.remove_file temp)
      → Keeps P (
          move_file fs paths cmd temp (err x) >>= λ a.
          remove_unless_done fs paths cmd temp a >> pure a)
  unfolding move_file
  finish_error-Keeps temp x removable =
      let a = from_error x in
      Keeps-bind (remove_unless_done fs paths cmd temp a) (λ _. pure a)
        (remove_unless_done-Keeps temp a removable) (λ _. Keeps-pure a)

  write_result-Keeps : (copied : Result CrabError ℕ) → Keeps P (write_result fs paths cmd copied)
  unfolding write_result
  write_result-Keeps (ok size) = search (keeps_rules, by_try_exists)
  write_result-Keeps (err x) = search keeps_rules

  finish_write-Keeps :
      cmd.overwrite ≡ true
      → (temp : String) (copied : Result CrabError ℕ) → Keeps P (fs.remove_file temp)
      → Keeps P (finish_write fs paths cmd temp copied)
  unfolding finish_write
  finish_write-Keeps o temp copied removable =
      let finish : Result CrabError (Unit {0}) → Io CrabError W AckMessage = λ r.
        move_file fs paths cmd temp r >>= λ a. remove_unless_done fs paths cmd temp a >> pure a in
      Keeps-bind_at (attempt (write_result fs paths cmd copied)) finish
        (Keeps-attempt (write_result fs paths cmd copied) (write_result-Keeps copied))
        (elim [
          | ok _ ↦ λ w v h e. absurd (write_result-refuses o copied w v h (ground arith))
          | err x ↦ λ w v h e. finish_error-Keeps temp x removable
        ])

  -- `handle_write_file` from the point where the temporary file is there.
  abbrev receive : MessageHeader → String → Io CrabError W (Unit {0})
  receive h temp = do
    read_ack
    copied ← attempt (or_cancelled cancel (from io fs.copy_from_stream))
    a ← finish_write fs paths cmd temp copied
    write_message ack h.method h.option a

  receive-Keeps :
      cmd.overwrite ≡ true
      → (h : MessageHeader) (temp : String) → Keeps P (fs.remove_file temp)
      → Keeps P (receive h temp)
  receive-Keeps o h temp removable =
      let copy = or_cancelled cancel (from io fs.copy_from_stream) in
      let answer : AckMessage → Io CrabError W (Unit {0}) = write_message ack h.method h.option in
      let finish : Result CrabError ℕ → Io CrabError W (Unit {0}) =
        λ copied. finish_write fs paths cmd temp copied >>= answer in
      Keeps-bind read_ack (λ _. attempt copy >>= finish) (read_ack-Keeps by_stream)
        λ _. Keeps-bind (attempt copy) finish (Keeps-attempt copy by_copy) λ copied.
          Keeps-bind (finish_write fs paths cmd temp copied) answer
            (finish_write-Keeps o temp copied removable)
            (write_message-Keeps by_stream ack h.method h.option)

  -- With `overwrite` set, a target that is there is never replaced: a predicate that says that the
  -- target is there, and that everything but the final move leaves as it is, holds after the
  -- command if it held before, whether the command succeeds or fails.
  pub handle_write_file-overwrite :
      cmd.overwrite ≡ true → (h : MessageHeader) → Keeps P (handle_write_file fs paths cmd cancel h)
  unfolding handle_write_file
  handle_write_file-overwrite o h =
      Keeps-bind (write_message ack h.method h.option success)
        (λ _. accept_file fs paths cmd h >>= receive h)
        (write_message-Keeps by_stream ack h.method h.option success)
        λ _.
          Keeps-bind_at (accept_file fs paths cmd h) (receive h) (accept_file-Keeps h)
            λ temp w v hp e. receive-Keeps o h temp (accepted-IsTemp h temp w v e).1
