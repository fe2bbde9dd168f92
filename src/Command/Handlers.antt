-- ===== src/Command/Handlers.antt =====
-- commands.rs: the handlers of the file commands, and the simple handler of types.rs.
--
-- The handlers of one stream take turns: each message that is written or read is a step on it.
use crab_rs.Prelude.{
  ℕ, String, Bool, not, ◌||◌, Option, none, some, List, Result, ok, err, ◌==◌, if◌then◌else◌,
}
use crab_rs.Prelude.Io.{act, Io, lift, pure, raise, from, attempt, match_on, ignore, ◌>>=◌, ◌>>◌}
use crab_rs.Errors.{CrabError, error_code, io}
use crab_rs.Errors.Codes
use crab_rs.Message.{MessageHeader, AckMessage, success, from_error, from_result}
use crab_rs.Transport.{Transport, Codec}
use crab_rs.Stream.{read_ack, write_message, write_error}
use crab_rs.Command.Files.{
  FileSystem, Paths, Cancellation, FileMetadata, DirEntry, generate_temp_path, into_file_metadata,
  list_dir,
}

pub record DeleteCommand : Type 0 where
  pub path : String
  pub dir : Bool

pub record WriteFile : Type 0 where
  pub path : String
  pub overwrite : Bool
  pub mkdir : Bool

abbrev pub Handler : Type 0 → Type 0
Handler W = MessageHeader → Io CrabError W (Unit {0})

cancelled_or : {A : Type 0} → Option (Result CrabError A) → Result CrabError A
cancelled_or none = err (error_code Codes.canceled_error)
cancelled_or (some r) = r

-- `tokio::select!` whose first branch is `Err(CANCELED_ERROR)`
unfoldable pub or_cancelled : {W A : Type 0} → Cancellation W → Io CrabError W A → Io CrabError W A
unfolding cancelled_or
or_cancelled c work w = let (r, w') = c.until_cancelled work w in (cancelled_or r, w')

module _ {W : Type 0} (fs : FileSystem W) where
  -- `DeleteCommand::make_response`
  unfoldable pub delete_response : DeleteCommand → Io CrabError W AckMessage
  delete_response cmd = do
    ret ←
        attempt (from io (if cmd.dir then fs.remove_dir_all cmd.path else fs.remove_file cmd.path))
    pure (from_result ret)

  module _ (paths : Paths) (cmd : WriteFile) where
    unfoldable pub create_temp_file : Io CrabError W String
    create_temp_file = do
      temp_file_path ← generate_temp_path fs paths cmd.path cmd.mkdir
      from io (fs.create_file temp_file_path)
      pure temp_file_path

    -- The `and_then` of `write_ret`: whether the file may be moved to its place.
    pub check_target : Bool → Result CrabError (Unit {0})
    check_target exists =
        if not exists || not cmd.overwrite then ok tt else err (io "File already exists")

    unfoldable pub write_result : Result CrabError ℕ → Io CrabError W (Unit {0})
    unfolding check_target
    write_result (ok size) = do
      exists ← from io (fs.try_exists cmd.path)
      lift (check_target exists)
    write_result (err e) = raise e

    -- The acknowledgement at the end, after the move if there is one.
    unfoldable pub move_file : String → Result CrabError (Unit {0}) → Io CrabError W AckMessage
    move_file temp_file_path (ok _) =
        match_on (from io (fs.rename temp_file_path cmd.path)) (λ _. pure success)
          (λ e. pure (from_error e))
    move_file temp_file_path (err e) = pure (from_error e)

    unfoldable pub remove_unless_done : String → AckMessage → Io CrabError W (Unit {0})
    remove_unless_done temp_file_path a =
        if not (a.code == Codes.no_error)
        then ignore (from io (fs.remove_file temp_file_path))
        else pure tt

    -- What follows the copy of the data.
    unfoldable pub finish_write : String → Result CrabError ℕ → Io CrabError W AckMessage
    unfolding write_result move_file remove_unless_done
    finish_write temp_file_path copy_file_ret = do
      write_ret ← attempt (write_result copy_file_ret)
      a ← move_file temp_file_path write_ret
      remove_unless_done temp_file_path a
      pure a

module _ {W : Type 0} ⦃t : Transport W⦄ ⦃ack : Codec AckMessage⦄ where
  -- `impl CommandHandler for C: SimpleCommandHandler`
  unfoldable pub simple_handler : {R : Type 0} → Codec R → Io CrabError W R → Handler W
  simple_handler response make_response h = do
    write_message ack h.method h.option success
    match_on make_response (write_message response h.method h.option)
        (write_error h.method h.option)

  module _ (fs : FileSystem W) where
    unfoldable pub handle_delete : DeleteCommand → Handler W
    unfolding simple_handler delete_response
    handle_delete cmd = simple_handler ack (delete_response fs cmd)

    -- `DirEntryList` has the entries as its one field.
    unfoldable pub handle_list_dir : Codec (List DirEntry) → String → Handler W
    unfolding simple_handler
    handle_list_dir entries path = simple_handler entries (list_dir fs path)

    -- `ReadFile::handle`
    unfoldable pub handle_read_file : Cancellation W → Codec FileMetadata → String → Handler W
    handle_read_file cancel file_metadata path h = do
      write_message ack h.method h.option success
      match_on (from io (fs.metadata path))
          (λ m. write_message file_metadata h.method h.option (into_file_metadata m))
          (λ e. do write_error h.method h.option e; raise e)
      read_ack
      match_on (from io (fs.open_file path))
          (λ _. do
            write_message ack h.method h.option success
            r ← or_cancelled cancel (attempt (from io fs.copy_to_stream))
            act fs.finish
            lift r
            pure tt)
          (λ e. write_error h.method h.option e)

    module _ (paths : Paths) (cmd : WriteFile) where
      -- The temporary file, with what the peer is told of it.
      unfoldable pub accept_file : MessageHeader → Io CrabError W String
      accept_file h =
          match_on (create_temp_file fs paths cmd)
            (λ temp. do write_message ack h.method h.option success; pure temp)
            (λ e. do write_error h.method h.option e; raise e)

      -- `WriteFile::handle`
      unfoldable pub handle_write_file : Cancellation W → Handler W
      handle_write_file cancel h = do
        write_message ack h.method h.option success
        temp_file_path ← accept_file h
        read_ack
        copy_file_ret ← attempt (or_cancelled cancel (from io fs.copy_from_stream))
        a ← finish_write fs paths cmd temp_file_path copy_file_ret
        write_message ack h.method h.option a
