-- ===== src/Tests/Calls.antt =====
-- A caller and a handler on two pipes: what the one wrote has arrived at the other.
use crab_rs.Message.{from_result}
use crab_rs.Message.{write_header}
use crab_rs.Tests.Pipe.{write_all}
use crab_rs.Stream.{encode_message}
use crab_rs.Prelude.Bytes.{read_u32_le}
use crab_rs.Prelude.{◌≡◌, refl, arith, true, false, List, [], ◌∷◌, ◌++◌, none, some, ok}
use crab_rs.Prelude.Bytes.{Bytes, write_u32_le}
use crab_rs.Message.{MessageHeader, command, option_none}
use crab_rs.Transport.{Codec}
use crab_rs.Stream.{frame, read_message, write_message}
use crab_rs.Stream.RoundTrip.{header_for}
use crab_rs.Stream.Keeps.{KeptByStream}
use crab_rs.Tasks.{async_job}
use crab_rs.Command.Files.{DirEntry, list_dir}
use crab_rs.Command.Handlers.{DeleteCommand, delete_response, handle_delete, handle_list_dir}
use crab_rs.Command.Executor.{no_answer}
use crab_rs.Command.Remote.{AckEncodes, LeavesStream}
use crab_rs.Command.Calls.{delete_reports_success, read_dir_reports}
use crab_rs.Tests.Pipe.{Pipe, pipe, pipe_with, pipe-IsReliable, ack_codec, byte_codec}
use crab_rs.Tests.Reports.{Reports, report, report-Reported}
use crab_rs.Tests.Files.{Disk, disk}

abbrev Server : Type 0
Server = Pipe Disk

abbrev server : Server
server = pipe_with [] (record { target = some "old"; temp = none })

abbrev header : MessageHeader
header = record { version = 0; option = 0; method = command; length = 1 }

abbrev ack_bytes : Bytes
ack_bytes = write_u32_le 0

acks : AckEncodes ack_codec ack_bytes
unfolding read_u32_le
acks = record { round = (refl, refl); fits = omega arith }

abbrev client : {T : Type 0} → Bytes → Pipe (Reports T)
client bytes = pipe_with bytes []

abbrev sent : {T : Type 0} → Bytes → Pipe (Reports T)
sent bytes = record (client bytes) { outbox = frame command option_none (5 ∷ []) }

command_sent :
    {T : Type 0} (bytes : Bytes)
    → write_message byte_codec command option_none 5 (client {T = T} bytes) ≡ (ok tt, sent bytes)
unfolding write_message encode_message write_all
command_sent bytes = refl

-- A directory where a file is expected cannot be removed.
abbrev delete_directory : DeleteCommand
delete_directory = record { path = "/d/f"; dir = true }

delete-LeavesStream : LeavesStream pipe-IsReliable (delete_response disk delete_directory)
unfolding delete_response
delete-LeavesStream = record { outbox_kept = λ w. refl; writable_kept = λ w. refl }

abbrev answer : Bytes
answer = frame command option_none ack_bytes

delete_reports_success_example :
    (async_job byte_codec 5 no_answer report (client answer)).1.state ≡ [] ++ ok tt ∷ []
unfolding frame write_header handle_delete write_message encode_message write_all from_result
    async_job report-Reported
delete_reports_success_example =
    delete_reports_success pipe-IsReliable pipe-IsReliable disk header refl ack_bytes acks
      byte_codec 5 server refl answer [] (client {T = Unit {0}} answer) (sent answer)
      (command_sent answer) refl delete_directory report report-Reported delete-LeavesStream refl

abbrev listed : List DirEntry
listed = record { name = "f"; dir = false } ∷ record { name = "sub"; dir = true } ∷ []

-- An encoding of this one listing.
abbrev listing_codec : Codec (List DirEntry)
listing_codec = record { encode = λ es. some (9 ∷ []); decode = λ bytes. some (listed, 1) }

list_dir-LeavesStream : LeavesStream pipe-IsReliable (list_dir disk "/d")
unfolding list_dir
list_dir-LeavesStream = record { outbox_kept = λ w. refl; writable_kept = λ w. refl }

abbrev Anywhere : Server → Type 0
Anywhere w = Unit

always : KeptByStream pipe Anywhere
always = record {
  by_read = λ n. record { at = λ w h. tt };
  by_write = λ bytes. record { at = λ w h. tt };
}

abbrev two_frames : Bytes
two_frames = frame command option_none ack_bytes ++ frame command option_none (9 ∷ [])

read_dir_reports_example :
    (async_job byte_codec 5 (read_message listing_codec) report (client two_frames)).1.state
    ≡ [] ++ ok (header_for command option_none (9 ∷ []), listed) ∷ []
unfolding frame write_header handle_list_dir write_message encode_message write_all list_dir
    async_job report-Reported
read_dir_reports_example =
    read_dir_reports pipe-IsReliable pipe-IsReliable disk header refl ack_bytes acks byte_codec 5
      server refl two_frames [] (client two_frames) (sent two_frames) (command_sent two_frames) refl
      listing_codec "/d" report report-Reported list_dir-LeavesStream always tt refl (9 ∷ [])
      (omega arith) listed (refl, refl) (λ v h. refl)
