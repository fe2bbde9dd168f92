-- ===== src/Command/WriteLaws.antt =====
-- When a written file reaches its place.
use crab_rs.Prelude.{ℕ, ◌≡◌, ◌≢◌, arith, String, Bool, true, false, Result, ok, err}
use crab_rs.Prelude.Io.{pure, ◌>>=◌, ◌>>◌}
use crab_rs.Errors.{CrabError, err_no}
use crab_rs.Errors.Codes
use crab_rs.Message.{AckMessage, success, from_error}
use crab_rs.Stream.RoundTrip.{code-from_error}
use crab_rs.Command.Files.{FileSystem, Paths}
use crab_rs.Command.Handlers.{WriteFile, write_result, move_file, remove_unless_done, finish_write}

module _ {W : Type 0} (fs : FileSystem W) (paths : Paths) (cmd : WriteFile) (temp : String) where
  -- If `overwrite` is not set, a file that was received is moved to the target and success is
  -- told, whether the target exists or not, provided the check and the move do not fail.
  pub finish_write-no_overwrite :
      (size : ℕ) (exists : Bool) (w w1 w2 : W)
      → cmd.overwrite ≡ false
      → fs.try_exists cmd.path w ≡ (ok exists, w1)
      → fs.rename temp cmd.path w1 ≡ (ok tt, w2)
      → finish_write fs paths cmd temp (ok size) w ≡ (ok success, w2)
  unfolding finish_write
  finish_write-no_overwrite size true w w1 w2 o e1 e2 = ground arith
  finish_write-no_overwrite size false w w1 w2 o e1 e2 = ground arith

  -- What follows the check of the target, from the result of the check.
  abbrev after_check : Result CrabError (Unit {0}) × W → Result CrabError AckMessage × W
  after_check (r, w1) =
      (do a ← move_file fs paths cmd temp r; remove_unless_done fs paths cmd temp a; pure a) w1

  after_check-success :
      (p : Result CrabError (Unit {0}) × W) (w' : W) (a : AckMessage)
      → ((e : CrabError) → p.0 ≡ err e → err_no e ≢ 0)
      → after_check p ≡ (ok a, w')
      → a.code ≡ Codes.no_error
      → (p.0 ≡ ok tt) × (fs.rename temp cmd.path p.1 ≡ (ok tt, w'))
  unfolding move_file remove_unless_done from_error
  after_check-success (ok tt, w1) w' a real e done = ground arith
  after_check-success (err x, w1) w' a real e done = ground (arith, real x, code-from_error x)

  write_result-error :
      (copied : Result CrabError ℕ) (w : W)
      → ((e : CrabError) → copied ≡ err e → err_no e ≢ 0)
      → (e : CrabError) → (write_result fs paths cmd copied w).0 ≡ err e
      → err_no e ≢ 0
  unfolding write_result err_no
  write_result-error (ok size) w real e h = ground arith
  write_result-error (err x) w real e h = real e (ground arith)

  -- If what was copied failed with no error whose number is zero, the peer is told of success only
  -- if the check of the target let the file through and the file was then moved to its place.
  pub finish_write-success :
      (copied : Result CrabError ℕ) (w w' : W) (a : AckMessage)
      → ((e : CrabError) → copied ≡ err e → err_no e ≢ 0)
      → finish_write fs paths cmd temp copied w ≡ (ok a, w')
      → a.code ≡ Codes.no_error
      → ((write_result fs paths cmd copied w).0 ≡ ok tt)
        × (fs.rename temp cmd.path (write_result fs paths cmd copied w).1 ≡ (ok tt, w'))
  unfolding finish_write
  finish_write-success copied w w' a real e done =
      after_check-success (write_result fs paths cmd copied w) w' a
        (write_result-error copied w real) e done
