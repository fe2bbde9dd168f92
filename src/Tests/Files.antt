-- ===== src/Tests/Files.antt =====
-- A file system of one target and its temporary file, beside the stream.
use crab_rs.Prelude.{
  ℕ, ◌≡◌, refl, arith, String, Bool, true, false, List, [], ◌∷◌, Option, none, some, Result, ap, ok,
  err, str_eq, if◌then◌else◌, ◌∙◌,
}
use crab_rs.Prelude.Bytes.{Bytes}
use crab_rs.Prelude.Text.{◌<>◌}
use crab_rs.Prelude.Io.Keeps.{Keeps}
use crab_rs.Message.{MessageHeader, command}
use crab_rs.Command.Files.{FileSystem, Metadata, DirItem, Paths, Cancellation}
use crab_rs.Command.Handlers.{WriteFile, handle_write_file, or_cancelled}
use crab_rs.Command.TempPath.{temp_path}
use crab_rs.Command.Untouched.{IsUntouched, handle_write_file-overwrite}
use crab_rs.Tests.Pipe.{Pipe, pipe, ack_codec, read_exact, write_all}

-- The contents of the target and of the temporary file.
pub record Disk : Type 0 where
  pub target : Option String
  pub temp : Option String

abbrev pub World : Type 0
World = Pipe Disk

abbrev pub target_path : String
target_path = "/d/f"

abbrev pub temp_name : String
temp_name = "/d/f.crab_temp"

abbrev pub is_there : Option String → Bool
is_there none = false
is_there (some _) = true

abbrev pub content_at : String → Disk → Option String
content_at p d = if str_eq p target_path then d.target else d.temp

abbrev pub put : String → Option String → World → World
put p content w = record w {
  state =
      if str_eq p target_path
      then record { target = content; temp = w.state.temp }
      else record { target = w.state.target; temp = content };
}

abbrev pub directory : Metadata
directory = record { len = 0; is_dir = true; modified = none; accessed = none }

abbrev pub entries : List (Result String DirItem)
entries =
    ok (record { file_name = some "f"; is_dir = ok false })
    ∷ ok (record { file_name = some "sub"; is_dir = ok true })
    ∷ []

abbrev pub disk : FileSystem World
disk = record {
  remove_file = λ p w. (ok tt, put p none w);
  remove_dir_all = λ p w. (err "not a directory", w);
  create_dir_all = λ p w. (ok tt, w);
  try_exists = λ p w. (ok (if str_eq p "/d" then true else is_there (content_at p w.state)), w);
  metadata = λ p w. (ok directory, w);
  open_file = λ p w. (ok tt, w);
  create_file = λ p w. (ok tt, put p (some "") w);
  rename = λ p q w. (ok tt, put p none (put q (content_at p w.state) w));
  read_dir = λ p w. (ok entries, w);
  copy_to_stream = λ w. (ok 0, w);
  copy_from_stream = λ w. (ok 3, put temp_name (some "new") w);
  finish = λ w. w;
}

abbrev paths : Paths
paths = record { parent = λ p. some "/d"; file_name = λ p. some "f"; join = λ p q. p <> "/" <> q }

abbrev never : Cancellation World
never = record { until_cancelled = λ work w. let (r, w') = work w in (some r, w') }

abbrev write : Bool → WriteFile
write overwrite = record { path = target_path; overwrite = overwrite; mkdir = false }

-- The target has its old content.
abbrev IsOld : World → Type 0
IsOld w = w.state.target ≡ some "old"

read_exact_state : (n : ℕ) (w : World) → (read_exact n w).1.state ≡ w.state
unfolding read_exact
read_exact_state n w = ground arith

write_all_state : (bytes : Bytes) (w : World) → (write_all bytes w).1.state ≡ w.state
unfolding write_all
write_all_state bytes w = ground arith

temp_created :
    (name : String)
    → paths.file_name target_path ≡ some name
    → Keeps IsOld (disk.create_file (temp_path paths (write true) name))
temp_created name e = let same : "f" ≡ name = ground arith in rw (← same) (record { at = λ w h. h })

temp_removed :
    (name : String)
    → paths.file_name target_path ≡ some name
    → Keeps IsOld (disk.remove_file (temp_path paths (write true) name))
temp_removed name e = let same : "f" ≡ name = ground arith in rw (← same) (record { at = λ w h. h })

disk-IsUntouched : IsUntouched pipe disk paths never (write true) IsOld
unfolding or_cancelled
disk-IsUntouched = record {
  by_stream = record {
    by_read = λ n. record { at = λ w h. ap (λ d. d.target) (read_exact_state n w) ∙ h };
    by_write = λ bytes. record { at = λ w h. ap (λ d. d.target) (write_all_state bytes w) ∙ h };
  };
  by_create_dir_all = λ p. record { at = λ w h. h };
  by_try_exists = λ p. record { at = λ w h. h };
  by_metadata = λ p. record { at = λ w h. h };
  by_copy = record { at = λ w h. h };
  by_create = temp_created;
  by_remove = temp_removed;
  present = λ w w' b h e. ground arith;
}

abbrev header : MessageHeader
header = record { version = 0; option = 0; method = command; length = 4 }

handle_write_file-overwrite_example :
    Keeps IsOld (handle_write_file disk paths (write true) never header)
handle_write_file-overwrite_example =
    handle_write_file-overwrite disk paths never (write true) disk-IsUntouched refl header
