-- ===== src/Tests/Jobs.antt =====
-- Tasks whose reports are kept beside the stream.
use crab_rs.Stream.{encode_message}
use crab_rs.Prelude.{ℕ, ◌≡◌, refl, false, [], ◌∷◌, ◌++◌, Result, ok, err}
use crab_rs.Prelude.Bytes.{write_u32_le}
use crab_rs.Prelude.Io.{pure, ◌>>◌}
use crab_rs.Prelude.Io.Keeps.{Keeps}
use crab_rs.Errors.{CrabError, quic_write_error}
use crab_rs.Message.{command, ack, option_none}
use crab_rs.Stream.{frame, write_message, read_ack}
use crab_rs.Tasks.{Receiver, Executor, async_job, multi_stage_task}
use crab_rs.Tasks.Reports.{job_answer, initial_answer, async_job_reports, multi_stage_task_reports}
use crab_rs.Tests.Reports.{Reports, report, report-Reported}
use crab_rs.Tests.Pipe.{Pipe, pipe, pipe_with, ack_codec, byte_codec, write_all}

abbrev World : Type 0
World = Pipe (Reports ℕ)

abbrev answer : Executor World ℕ
answer = pure 42

-- The peer has acknowledged the command.
abbrev acknowledged : World
acknowledged = pipe_with (frame ack option_none (write_u32_le 0)) []

abbrev written : World
written = record acknowledged { outbox = frame command option_none (5 ∷ []) }

command_written : write_message byte_codec command option_none 5 acknowledged ≡ (ok tt, written)
unfolding write_message write_all encode_message
command_written = refl

async_job_reports_example :
    ((async_job byte_codec 5 answer report acknowledged).0 ≡ ok tt)
    × ((async_job byte_codec 5 answer report acknowledged).1.state
        ≡ [] ++ job_answer byte_codec 5 answer (read_ack written) ∷ [])
unfolding async_job report-Reported
async_job_reports_example =
    async_job_reports byte_codec 5 answer report report-Reported (λ w. refl) acknowledged written
      command_written

abbrev closed : World
closed = record acknowledged { writable = false }

command_unwritten :
    write_message byte_codec command option_none 5 closed
    ≡ (err (quic_write_error "stopped"), closed)
unfolding write_message write_all encode_message
command_unwritten = refl

-- The peer's acknowledgement and then its first answer, the number 7.
abbrev answered_by_peer : World
answered_by_peer =
    pipe_with (frame ack option_none (write_u32_le 0) ++ frame command option_none (7 ∷ [])) []

abbrev no_executor : Receiver World (Result CrabError (Executor World ℕ))
no_executor w = (err tt, w)

no_executor-Keeps :
    (executor : Executor World ℕ) (w w' : World)
    → no_executor w ≡ (ok (ok executor), w')
    → (l : (Reports ℕ)) → Keeps (λ v. v.state ≡ l) executor
no_executor-Keeps executor w w' e l = cc

multi_stage_task_reports_example :
    (multi_stage_task byte_codec 5 byte_codec report no_executor answered_by_peer).1.state
    ≡ []
      ++ initial_answer byte_codec 5 byte_codec
          ((write_message byte_codec command option_none 5 >> read_ack) answered_by_peer)
        ∷ []
unfolding report-Reported
multi_stage_task_reports_example =
    multi_stage_task_reports byte_codec 5 byte_codec report report-Reported no_executor (λ w. refl)
      no_executor-Keeps answered_by_peer
