-- ===== src/Tests/Forwards.antt =====
-- Forwarding over a pipe.
use crab_rs.Errors.{err_no}
use crab_rs.Stream.{write_error}
use crab_rs.Message.{write_header}
use crab_rs.Tests.Pipe.{write_all}
use crab_rs.Stream.{encode_message}
use crab_rs.Message.{from_error}
use crab_rs.Prelude.Bytes.{read_u32_le}
use Prim.Native.Nat.{bit_or}
use crab_rs.Prelude.{ok, Result, ◌≡◌, refl, arith, [], ◌∷◌, ◌++◌, some, err}
use crab_rs.Prelude.Bytes.{Bytes, write_u32_le}
use crab_rs.Prelude.Io.{Io, pure, raise, ◌>>◌}
use crab_rs.Errors.{CrabError, error_code}
use crab_rs.Message.{MessageHeader, command, option_none, option_error}
use crab_rs.Transport.{Codec}
use crab_rs.Stream.{frame, read_ack, write_message}
use crab_rs.Stream.Keeps.{KeptByStream}
use crab_rs.Types.{SocketAddr, v4}
use crab_rs.Command.Remote.{AckEncodes, LeavesStream}
use crab_rs.Forward.Opening.{open_and_relay}
use crab_rs.Forward.Calls.{forward_reports_error}
use crab_rs.Forward.Opened.{answers, forward_opens}
use crab_rs.Command.Stages.{IsCaller}
use crab_rs.Tasks.{Receiver, Executor, multi_stage_task, run_executor}
use crab_rs.Tests.Reports.{Reports, report, report-Reported}
use crab_rs.Tests.Pipe.{Pipe, pipe, pipe_with, pipe-IsReliable, ack_codec, byte_codec}

abbrev World : Type 0
World = Pipe Unit

abbrev world : World
world = pipe_with [] tt

abbrev header : MessageHeader
header = record { version = 0; option = 0; method = command; length = 1 }

abbrev ack_bytes : Bytes
ack_bytes = write_u32_le 0

acks : AckEncodes ack_codec ack_bytes
unfolding read_u32_le
acks = record { round = (refl, refl); fits = omega arith }

abbrev localhost : SocketAddr
localhost = v4 (127 ∷ 0 ∷ 0 ∷ 1 ∷ []) 80

-- An encoding of this one address.
abbrev addresses : Codec SocketAddr
addresses = record { encode = λ a. some (6 ∷ []); decode = λ bytes. some (localhost, 1) }

abbrev relay : Io CrabError World (Unit {0})
relay = pure tt

abbrev refuse : Io CrabError World SocketAddr
refuse = raise (error_code 25)

abbrev allow : Io CrabError World SocketAddr
allow = pure localhost

refuse-LeavesStream : LeavesStream pipe-IsReliable refuse
refuse-LeavesStream = record { outbox_kept = λ w. refl; writable_kept = λ w. refl }

allow-LeavesStream : LeavesStream pipe-IsReliable allow
allow-LeavesStream = record { outbox_kept = λ w. refl; writable_kept = λ w. refl }

abbrev Anywhere : World → Type 0
Anywhere w = Unit

always : KeptByStream pipe Anywhere
always = record {
  by_read = λ n. record { at = λ w h. tt };
  by_write = λ bytes. record { at = λ w h. tt };
}

abbrev refusal : Bytes
refusal =
    frame command option_none ack_bytes
    ++ frame command (bit_or option_none option_error) (write_u32_le 25)

abbrev Caller : Type 0
Caller = Pipe (Reports SocketAddr)

abbrev caller : Caller
caller = pipe_with refusal []

abbrev asked : Caller
asked = record caller { outbox = frame command option_none (5 ∷ []) }

command_sent : write_message byte_codec command option_none 5 caller ≡ (ok tt, asked)
unfolding write_message encode_message write_all
command_sent = refl

abbrev no_executor : Receiver Caller (Result CrabError (Executor Caller (Unit {0})))
no_executor w = (err tt, w)

forward_reports_error_example :
    (multi_stage_task byte_codec 5 addresses report no_executor caller).1.state
    ≡ [] ++ err (error_code 25) ∷ []
unfolding frame open_and_relay write_header write_message encode_message write_all write_error
    from_error read_u32_le report-Reported err_no
forward_reports_error_example =
    forward_reports_error pipe-IsReliable pipe-IsReliable header refl ack_bytes acks addresses
      refuse relay refuse-LeavesStream world refl always tt refusal [] refl byte_codec 5 caller
      asked command_sent refl (error_code 25) (write_u32_le 25) (refl, refl) (omega arith)
      (λ v h. refl) report report-Reported no_executor (λ v. refl) (λ executor v v' e l. cc)

abbrev send_relay : Receiver Caller (Result CrabError (Executor Caller (Unit {0})))
send_relay w = (ok (ok (pure tt)), w)

abbrev Everywhere : Caller → Type 0
Everywhere w = Unit

everywhere : KeptByStream pipe Everywhere
everywhere = record {
  by_read = λ n. record { at = λ w h. tt };
  by_write = λ bytes. record { at = λ w h. tt };
}

relaying_caller : IsCaller pipe-IsReliable report-Reported send_relay (pure tt) Everywhere
unfolding report-Reported
relaying_caller = record {
  takes = λ v w. ((report v w).1, refl, (refl, refl, refl), λ h. tt);
  sends = λ w. (w, refl, (refl, refl, refl), refl, λ h. tt);
}

abbrev opened_caller : Caller
opened_caller = pipe_with (answers header ack_bytes (6 ∷ []) ++ 8 ∷ []) []

abbrev opened_asked : Caller
opened_asked = record opened_caller { outbox = frame command option_none (5 ∷ []) }

opened_sent : write_message byte_codec command option_none 5 opened_caller ≡ (ok tt, opened_asked)
unfolding write_message encode_message write_all
opened_sent = refl

forward_opens_example :
    (v : World) × (u : Caller) × (open_and_relay addresses allow relay header world
      ≡ (read_ack >> relay) v)
    × (v.outbox ≡ [] ++ answers header ack_bytes (6 ∷ []))
    × (multi_stage_task byte_codec 5 addresses report send_relay opened_caller
        ≡ run_executor {T = Unit {0}} (ok (pure tt)) u)
    × (u.state ≡ [] ++ ok localhost ∷ [])
    × (u.inbox ≡ 8 ∷ [])
unfolding report-Reported
forward_opens_example =
    forward_opens pipe-IsReliable pipe-IsReliable header refl ack_bytes acks addresses allow relay
      allow-LeavesStream always report-Reported send_relay (pure tt) everywhere relaying_caller
      byte_codec 5 localhost (6 ∷ []) (8 ∷ []) world opened_caller opened_asked tt refl
      (λ v h. refl) (refl, refl) (omega arith) tt opened_sent refl
