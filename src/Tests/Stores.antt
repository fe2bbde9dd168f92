-- ===== src/Tests/Stores.antt =====
-- A file system that is a disk, beside the stream, and a file that is stored and read.
use crab_rs.Prelude.{
  ℕ, ◌≡◌, ◌≢◌, refl, ◌∙◌, arith, String, true, false, not, Option, none, some, [], ◌∷◌, ◌++◌,
  length, Result, ok, err, if◌then◌else◌, str_eq,
}
use crab_rs.Prelude.Bytes.{Bytes, write_u32_le, read_u32_le}
use crab_rs.Prelude.Text.{◌<>◌}
use crab_rs.Prelude.Io.{Io, from}
use crab_rs.Errors.{CrabError, io}
use crab_rs.Message.{MessageHeader, command, option_none}
use crab_rs.Transport.{Codec}
use crab_rs.Stream.{frame}
use crab_rs.Command.Files.{FileSystem, Metadata, FileMetadata, Paths, Cancellation}
use crab_rs.Command.Handlers.{WriteFile, or_cancelled, handle_write_file, handle_read_file}
use crab_rs.Command.Remote.{AckEncodes}
use crab_rs.Command.Disk.{Disk, exists_in, create, fill, move, load, IsStore}
use crab_rs.Command.Upload.{HasPlace, handle_write_file-stores}
use crab_rs.Command.Transfer.{handle_read_file-handle_write_file}
use crab_rs.Tests.Pipe.{Pipe, pipe, pipe_with, pipe-IsReliable, ack_codec}
use crab_rs.Tests.Reports.{read_exact_keeps_state, write_all_keeps_state}

abbrev pub World : Type 0
World = Pipe Disk

abbrev pub of_len : ℕ → Metadata
of_len n = record { len = n; is_dir = false; modified = none; accessed = none }

abbrev pub file_metadata_of : Option Bytes → Result String Metadata
file_metadata_of none = err "no such file"
file_metadata_of (some bytes) = ok (of_len (length bytes))

abbrev pub directory : Result String Metadata
directory = ok (record { len = 0; is_dir = true; modified = none; accessed = none })

abbrev pub opened_from : Option Bytes → World → Result String (Unit {0}) × World
opened_from none w = (err "no such file", w)
opened_from (some bytes) w = (ok tt, record w { state = load bytes w.state })

abbrev pub sent_to : World → Result String ℕ × World
sent_to w =
    if w.writable
    then (ok (length w.state.opened), record w { outbox = w.outbox ++ w.state.opened })
    else (err "stopped", w)

abbrev pub store : FileSystem World
store = record {
  remove_file = λ p w. (err "not here", w);
  remove_dir_all = λ p w. (err "not here", w);
  create_dir_all = λ p w. (err "not here", w);
  try_exists = λ p w. (ok (exists_in w.state p), w);
  metadata = λ p w. (if w.state.dirs p then directory else file_metadata_of (w.state.files p), w);
  open_file = λ p w. opened_from (w.state.files p) w;
  create_file = λ p w. (ok tt, record w { state = create p w.state });
  rename = λ p q w. (ok tt, record w { state = move p q w.state });
  read_dir = λ p w. (err "not here", w);
  copy_to_stream = sent_to;
  copy_from_stream =
      λ w. (ok (length w.inbox), record w { inbox = []; state = fill w.inbox w.state });
  finish = λ w. w;
}

unfoldable pub store-IsStore : IsStore pipe-IsReliable store
store-IsStore = record {
  view = λ w. w.state;
  by_stream = λ d. record {
    by_read = λ n. record { at = λ w h. read_exact_keeps_state n w ∙ h };
    by_write = λ bytes. record { at = λ w h. write_all_keeps_state bytes w ∙ h };
  };
  is_place = λ dirs p. not (dirs p);
  try_exists_ok = λ p w. refl;
  metadata_dir = λ p w h.
      (record { len = 0; is_dir = true; modified = none; accessed = none }, rw h refl, refl);
  metadata_file = λ p bytes w h h'. (of_len (length bytes), rw h' (rw h refl), refl);
  create_file_ok = λ p w h. (record w { state = create p w.state }, refl, refl, (refl, refl, refl));
  open_file_ok =
      λ p bytes w h. (record w { state = load bytes w.state }, rw h refl, refl, (refl, refl, refl));
  rename_ok =
      λ p q bytes w h h'. (record w { state = move p q w.state }, refl, refl, (refl, refl, refl));
  copy_from_stream_ok =
      λ w. (record w { inbox = []; state = fill w.inbox w.state }, refl, refl, refl, refl, refl);
  copy_to_stream_ok =
      λ w h. (record w { outbox = w.outbox ++ w.state.opened }, rw h refl, refl, refl);
  finish_ok = λ w. (refl, refl);
}

abbrev pub paths : Paths
paths = record { parent = λ p. some "/d"; file_name = λ p. some "f"; join = λ p q. p <> "/" <> q }

abbrev pub upload_f : WriteFile
upload_f = record { path = "/d/f"; overwrite = false; mkdir = false }

abbrev pub never : Cancellation World
never = record { until_cancelled = λ work w. let (r, w') = work w in (some r, w') }

pub never_lasts : (A : Type 0) (m : Io CrabError World A) (w : World) → or_cancelled never m w ≡ m w
unfolding or_cancelled
never_lasts A m w = refl

abbrev pub header : MessageHeader
header = record { version = 0; option = 0; method = command; length = 1 }

abbrev pub ack_bytes : Bytes
ack_bytes = write_u32_le 0

pub acks : AckEncodes ack_codec ack_bytes
unfolding read_u32_le
acks = record { round = (refl, refl); fits = omega arith }

abbrev metadata_codec : Codec FileMetadata
metadata_codec = record { encode = λ m. some (m.filesize ∷ []); decode = λ bytes. none }

-- One directory, and an old file in the place of the new one.
abbrev pub disk : Disk
disk = record {
  files = λ p. if str_eq p "/d/f" then some (9 ∷ []) else none;
  dirs = λ p. str_eq p "/d";
  created = "";
  opened = [];
}

abbrev pub sent : Bytes
sent = 1 ∷ 2 ∷ 3 ∷ []

abbrev asked : World
asked = pipe_with (frame command option_none ack_bytes ++ sent) disk

pub disk-HasPlace : HasPlace pipe-IsReliable store-IsStore paths upload_f "f" disk
unfolding store-IsStore
disk-HasPlace = record { has_dir = refl; temp_place = refl; path_place = refl }

abbrev told : Bytes
told = frame command option_none ack_bytes

handle_write_file-stores_example :
    (s' : World) × (handle_write_file store paths upload_f never header asked ≡ (ok tt, s'))
    × (s'.state.files "/d/f" ≡ some sent)
    × ((other : String)
        → other ≢ "/d/f"
        → other ≢ "/d/f.crab_temp"
        → s'.state.files other ≡ disk.files other)
    × (s'.outbox ≡ (([] ++ told) ++ told) ++ told)
unfolding store-IsStore
handle_write_file-stores_example =
    handle_write_file-stores pipe-IsReliable store-IsStore paths upload_f never
      (never_lasts ℕ (from io store.copy_from_stream)) header command ack_bytes acks "f" refl refl
      sent asked refl disk-HasPlace refl refl

-- The next stream, on which the file is asked for.
abbrev again : World
again = pipe_with (told ++ 7 ∷ []) (record {
  files = (handle_write_file store paths upload_f never header asked).1.state.files;
  dirs = disk.dirs;
  created = "";
  opened = [];
})

handle_read_file-handle_write_file_example :
    (r' : World) × (m : FileMetadata) × (handle_read_file store never metadata_codec "/d/f" header
        again
      ≡ (ok tt, r'))
    × (m.filesize ≡ 3)
    × (r'.outbox ≡ ((([] ++ told) ++ frame command option_none (m.filesize ∷ [])) ++ told) ++ sent)
unfolding store-IsStore
handle_read_file-handle_write_file_example =
    handle_read_file-handle_write_file pipe-IsReliable store-IsStore paths upload_f never
      never_lasts metadata_codec header command ack_bytes acks "f" refl refl sent (7 ∷ [])
      (λ m. m.filesize ∷ []) asked again refl disk-HasPlace refl refl refl refl (λ m e. refl) refl
      refl
