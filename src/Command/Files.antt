-- ===== src/Command/Files.antt =====
-- The file system as tokio gives it, and app/protocol/util.rs.
--
-- A file that was opened or created, and the stream, are part of the world. An error is the text
-- that its `Display` prints.
use crab_rs.Prelude.{
  ℕ, ◌^◌, ◌%◌, String, Bool, false, Option, none, some, List, [], ◌∷◌, ◌++◌, Result, ok, err,
  map_err, and_then, if◌then◌else◌,
}
use crab_rs.Prelude.Text.{◌<>◌}
use crab_rs.Prelude.Io.{Io, pure, raise, lift, from, ◌>>=◌, ◌>>◌}
use crab_rs.Errors.{CrabError, error_code, io}
use crab_rs.Errors.Codes

pub data SystemTime : Type 0 where
  before_epoch : SystemTime
  millis_since_epoch : ℕ → SystemTime

-- `std::fs::Metadata`; a time that the platform does not give is `none`.
pub record Metadata : Type 0 where
  pub len : ℕ
  pub is_dir : Bool
  pub modified : Option SystemTime
  pub accessed : Option SystemTime

-- An entry of a directory: its name, unless that is no Unicode, and whether it is a directory.
pub record DirItem : Type 0 where
  pub file_name : Option String
  pub is_dir : Result String Bool

pub record FileSystem (W : Type 0) : Type 0 where
  pub remove_file : String → Io String W (Unit {0})
  pub remove_dir_all : String → Io String W (Unit {0})
  pub create_dir_all : String → Io String W (Unit {0})
  pub try_exists : String → Io String W Bool
  pub metadata : String → Io String W Metadata
  pub open_file : String → Io String W (Unit {0})
  pub create_file : String → Io String W (Unit {0})
  pub rename : String → String → Io String W (Unit {0})
  -- What `next_entry` gives, one after the other, until it gives no more.
  pub read_dir : String → Io String W (List (Result String DirItem))
  -- `io::copy` from the opened file to the stream, and from the stream to the created file
  pub copy_to_stream : Io String W ℕ
  pub copy_from_stream : Io String W ℕ
  -- `finish` of the stream's writer, whose result is not looked at
  pub finish : W → W

-- `std::path::Path`
pub record Paths : Type 0 where
  pub parent : String → Option String
  pub file_name : String → Option String
  pub join : String → String → String

-- `tokio::select!` between the token's cancellation and some work: nothing if the cancellation came
-- first, with the world as the abandoned work left it.
pub record Cancellation (W : Type 0) : Type 1 where
  pub until_cancelled : {A : Type 0} → Io CrabError W A → W → Option (Result CrabError A) × W

abbrev pub temp_file_suffix : String
temp_file_suffix = ".crab_temp"

abbrev pub or_empty : Option String → String
or_empty none = ""
or_empty (some p) = p

unfoldable pub name_or_bad : Option String → Result CrabError String
name_or_bad none = err (error_code Codes.bad_parameter)
name_or_bad (some name) = ok name

module _ {W : Type 0} (fs : FileSystem W) (paths : Paths) where
  open fs use {create_dir_all, try_exists, metadata}

  -- `fs::try_exists(p).await? && fs::metadata(p).await?.is_dir()`
  unfoldable pub is_existing_dir : String → Io CrabError W Bool
  is_existing_dir base = do
    exists ← from io (try_exists base)
    if exists then (do m ← from io (metadata base); pure m.is_dir) else pure false

  unfoldable pub make_base_dir : Bool → String → Io CrabError W (Unit {0})
  make_base_dir mkdir base = if mkdir then from io (create_dir_all base) else pure tt

  unfoldable pub generate_temp_path : String → Bool → Io CrabError W String
  unfolding make_base_dir is_existing_dir name_or_bad
  generate_temp_path target_path mkdir = do
    let base = or_empty (paths.parent target_path)
    filename ← lift (name_or_bad (paths.file_name target_path))
    make_base_dir mkdir base
    found ← is_existing_dir base
    if found
        then pure (paths.join base (filename <> temp_file_suffix))
        else raise (io "directory not exists")

-- `FileMetadata`, from `Metadata`: times in milliseconds as `u64`, zero where there is none.
pub record FileMetadata : Type 0 where
  pub filesize : ℕ
  pub dir : Bool
  pub mtime : ℕ
  pub atime : ℕ

abbrev millis : Option SystemTime → ℕ
millis none = 0
millis (some before_epoch) = 0
millis (some (millis_since_epoch n)) = n % 2 ^ 64

unfoldable pub into_file_metadata : Metadata → FileMetadata
into_file_metadata m = record {
  filesize = m.len;
  dir = m.is_dir;
  mtime = millis m.modified;
  atime = millis m.accessed;
}

pub record DirEntry : Type 0 where
  pub name : String
  pub dir : Bool

abbrev pub unicode_name : Option String → Result CrabError String
unicode_name none = err (error_code Codes.encoding_error)
unicode_name (some name) = ok name

-- The loop of `DirCommand::read_dir`: the first error ends it.
unfoldable pub collect_entries :
    List (Result String DirItem) → List DirEntry → Result CrabError (List DirEntry)
collect_entries [] ret = ok ret
collect_entries (err e ∷ items) ret = err (io e)
collect_entries (ok item ∷ items) ret =
    let rest = λ (name : String) (dir : Bool).
      collect_entries items (ret ++ record { name = name; dir = dir } ∷ []) in
    and_then (unicode_name item.file_name)
      (λ name. and_then (map_err io item.is_dir) (λ dir. rest name dir))

unfoldable pub list_dir : {W : Type 0} → FileSystem W → String → Io CrabError W (List DirEntry)
unfolding collect_entries
list_dir fs path = do items ← from io (fs.read_dir path); lift (collect_entries items [])
