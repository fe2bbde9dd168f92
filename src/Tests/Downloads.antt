-- ===== src/Tests/Downloads.antt =====
-- A download of a file of three bytes from the file system of Tests.Stores.
use crab_rs.Prelude.{
  ℕ, ◌≡◌, ◌≤◌, refl, ap, ◌∙◌, arith, Bool, true, false, List, [], ◌∷◌, ◌++◌, length, Option, none,
  some, Result, ok, str_eq, if◌then◌else◌, ◌==◌,
}
use crab_rs.Prelude.Bytes.{Bytes}
use crab_rs.Prelude.Io.{from, attempt}
use crab_rs.Errors.{CrabError, io}
use crab_rs.Message.{command, option_none}
use crab_rs.Transport.{Codec, RoundTrips}
use crab_rs.Stream.{frame, write_message, encode_message, max_payload_size}
use crab_rs.Tasks.{Sender, Receiver, Executor, multi_stage_task}
use crab_rs.Tasks.Reports.{Reported}
use crab_rs.Command.Files.{FileMetadata}
use crab_rs.Command.Handlers.{handle_read_file}
use crab_rs.Command.Stages.{IsCaller}
use crab_rs.Control.Nodes.{Pipes, download}
use crab_rs.Control.DownloadLaws.{IsSink, download-delivers}
use crab_rs.Tests.Pipe.{Pipe, pipe, pipe_with, pipe-IsReliable, write_all, ack_codec, byte_codec}
use crab_rs.Tests.Reports.{read_exact_keeps_state, write_all_keeps_state}
use crab_rs.Tests.Stores.{store, store-IsStore, never, never_lasts, header, ack_bytes, acks}
use crab_rs.Tests.Stores
use crab_rs.Command.Disk.{Disk}

-- What the caller was told, and what is in the pipe of the response.
record Told : Type 0 where
  reports : List (Result CrabError FileMetadata)
  piped : Bytes

abbrev Client : Type 0
Client = Pipe Told

abbrev report : Sender Client (Result CrabError FileMetadata)
report v w = (true, record w { state = record w.state { reports = w.state.reports ++ v ∷ [] } })

unfoldable report-Reported : Reported pipe report
report-Reported = record {
  reported = λ w. w.state.reports;
  by_send = λ v w. refl;
  by_stream = λ l. record {
    by_read = λ n. record { at = λ w h. ap (λ s. s.reports) (read_exact_keeps_state n w) ∙ h };
    by_write =
        λ bytes. record { at = λ w h. ap (λ s. s.reports) (write_all_keeps_state bytes w) ∙ h };
  };
}

abbrev pipes : Pipes Client
pipes = record {
  write_text = λ s w. (ok 0, w);
  copy_from_stream = λ w. (
    ok (length w.inbox),
    record w { inbox = []; state = record w.state { piped = w.state.piped ++ w.inbox } },
  );
  copy_to_stream = λ w. (ok 0, w);
  shutdown_pipe = λ w. (ok tt, w);
  shutdown_stream = λ w. (ok tt, w);
}

unfoldable pipes-IsSink : IsSink pipe-IsReliable pipes report-Reported
unfolding report-Reported
pipes-IsSink = record {
  piped = λ w. w.state.piped;
  by_stream = λ l. record {
    by_read = λ n. record { at = λ w h. ap (λ s. s.piped) (read_exact_keeps_state n w) ∙ h };
    by_write =
        λ bytes. record { at = λ w h. ap (λ s. s.piped) (write_all_keeps_state bytes w) ∙ h };
  };
  copy_ok = λ w. (length w.inbox, (pipes.copy_from_stream w).1, refl, refl, refl);
  shutdown_ok = λ w. (w, refl, refl, refl);
}

abbrev send_download : Receiver Client (Result CrabError (Executor Client (Unit {0})))
send_download w = (ok (ok (download pipes)), w)

caller :
    (bytes : Bytes)
    → IsCaller pipe-IsReliable report-Reported send_download
        (download pipes)
        (λ w. pipes-IsSink.piped w ≡ bytes)
unfolding report-Reported pipes-IsSink
caller bytes = record {
  takes = λ v w. ((report v w).1, refl, (refl, refl, refl), λ h. h);
  sends = λ w. (w, refl, (refl, refl, refl), refl, λ h. h);
}

-- Metadata of a small file in four bytes.
abbrev bit : Bool → ℕ
bit true = 1
bit false = 0

abbrev read_metadata : Bytes → Option (FileMetadata × ℕ)
read_metadata (n ∷ d ∷ m ∷ a ∷ _) =
    some (record { filesize = n; dir = d == 1; mtime = m; atime = a }, 4)
read_metadata _ = none

abbrev write_metadata : FileMetadata → Bytes
write_metadata m = m.filesize ∷ bit m.dir ∷ m.mtime ∷ m.atime ∷ []

abbrev metadata_codec : Codec FileMetadata
metadata_codec = record { encode = λ m. some (write_metadata m); decode = read_metadata }

bit_back : (b : Bool) → (bit b == 1) ≡ b
bit_back true = refl
bit_back false = refl

metadata_round :
    (m : FileMetadata)
    → m.filesize ≡ 3
    → RoundTrips metadata_codec m (write_metadata m)
      × (length (write_metadata m) ≤ max_payload_size)
metadata_round m e = (
  (
    refl,
    ap (λ d. some (record { filesize = m.filesize; dir = d; mtime = m.mtime; atime = m.atime }, 4))
        (bit_back m.dir),
  ),
  omega arith,
)

abbrev disk : Disk
disk = record {
  files = λ p. if str_eq p "/d/f" then some (1 ∷ 2 ∷ 3 ∷ []) else none;
  dirs = λ p. false;
  created = "";
  opened = [];
}

abbrev node : Stores.World
node = pipe_with (frame command option_none ack_bytes ++ []) disk

abbrev answers : Bytes
answers = (handle_read_file store never metadata_codec "/d/f" header node).1.outbox

abbrev client : Client
client = pipe_with answers (record { reports = []; piped = [] })

abbrev asked : Client
asked = record client { outbox = frame command option_none (5 ∷ []) }

command_sent : write_message byte_codec command option_none 5 client ≡ (ok tt, asked)
unfolding write_message encode_message write_all
command_sent = refl

download-delivers_example :
    let p = multi_stage_task byte_codec 5 metadata_codec report send_download client in
    (m : FileMetadata) × (m.filesize ≡ 3)
    × (p.0 ≡ ok tt)
    × (p.1.state.reports ≡ [] ++ ok m ∷ [])
    × (p.1.state.piped ≡ [] ++ 1 ∷ 2 ∷ 3 ∷ [])
unfolding report-Reported pipes-IsSink store-IsStore
download-delivers_example =
    download-delivers pipe-IsReliable pipe-IsReliable store-IsStore never
      (never_lasts (Result CrabError ℕ) (attempt (from io store.copy_to_stream))) metadata_codec
      header refl command ack_bytes acks pipes report-Reported pipes-IsSink send_download caller
      byte_codec 5 "/d/f" (1 ∷ 2 ∷ 3 ∷ []) [] answers write_metadata node client asked refl refl
      metadata_round refl refl refl command_sent refl refl
