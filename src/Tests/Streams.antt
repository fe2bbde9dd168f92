-- ===== src/Tests/Streams.antt =====
-- Messages on a stream.
use crab_rs.Stream.{decode_from_slice}
use crab_rs.Stream.{decode_payload}
use crab_rs.Prelude.Bytes.{read_u32_le}
use crab_rs.Message.{read_method}
use crab_rs.Prelude.Bytes.{read_u16_le}
use crab_rs.Prelude.Bytes.{read_u8}
use crab_rs.Prelude.Bytes.{read_magic}
use crab_rs.Message.{read_header}
use crab_rs.Stream.{encode_message}
use crab_rs.Prelude.{◌≡◌, ◌≤◌, refl, arith, [], ◌∷◌, ◌++◌, ok, err, true}
use crab_rs.Prelude.Bytes.{Bytes, write_u32_le}
use crab_rs.Errors.{CrabError, error_code, err_no}
use crab_rs.Errors.Codes
use crab_rs.Message.{command, is_ok, from_error, write_header}
use crab_rs.Stream.{max_payload_size, frame, read_message, write_message, write_error, parse_header}
use crab_rs.Stream.RoundTrip.{header_for, read_message-write_message, read_message-write_error}
use crab_rs.Stream.Errors.{read_message_bounds}
use crab_rs.Tests.Pipe.{
  Pipe, pipe, pipe_with, pipe-IsReliable, ack_codec, byte_codec, read_exact, write_all,
}

abbrev message_bytes : Bytes
message_bytes = frame command 4 (5 ∷ [])

abbrev empty_pipe : Pipe (Unit {0})
empty_pipe = pipe_with [] tt

abbrev after_writing : Bytes → Pipe (Unit {0})
after_writing bytes = record empty_pipe { outbox = bytes }

message_sent :
    write_message byte_codec command 4 5 empty_pipe ≡ (ok tt, after_writing message_bytes)
unfolding write_message write_all encode_message
message_sent = refl

abbrev arrived : Bytes → Pipe (Unit {0})
arrived bytes = pipe_with (bytes ++ 77 ∷ []) tt

read_message-write_message_example :
    (w' : Pipe (Unit {0})) × (read_message byte_codec (arrived message_bytes)
      ≡ (ok (header_for command 4 (5 ∷ []), 5), w'))
    × (w'.inbox ≡ 77 ∷ [])
    × (w'.outbox ≡ [])
read_message-write_message_example =
    read_message-write_message pipe-IsReliable empty_pipe (after_writing message_bytes)
      (arrived message_bytes) message_bytes (77 ∷ []) command 4 (5 ∷ []) refl refl refl
      (omega arith) byte_codec 5 (refl, refl) (omega arith) refl message_sent

abbrev exists_error : CrabError
exists_error = error_code Codes.node_exists

abbrev error_payload : Bytes
error_payload = write_u32_le Codes.node_exists

abbrev error_bytes : Bytes
error_bytes = frame command 5 error_payload

error_sent : write_error command 4 exists_error empty_pipe ≡ (ok tt, after_writing error_bytes)
unfolding write_error write_message write_all encode_message from_error
error_sent = refl

read_message-write_error_example :
    (w' : Pipe (Unit {0})) × (read_message byte_codec (arrived error_bytes)
      ≡ (err (error_code (err_no exists_error)), w'))
    × (w'.inbox ≡ 77 ∷ [])
unfolding from_error read_u32_le
read_message-write_error_example =
    read_message-write_error pipe-IsReliable empty_pipe (after_writing error_bytes)
      (arrived error_bytes) error_bytes (77 ∷ []) command 4 error_payload refl refl refl
      (omega arith) byte_codec exists_error (refl, refl) (omega arith) error_sent

abbrev after_reading : Pipe (Unit {0})
after_reading = pipe_with (77 ∷ []) tt

message_read :
    read_message byte_codec (arrived message_bytes)
    ≡ (ok (header_for command 4 (5 ∷ []), 5), after_reading)
unfolding read_message read_exact frame write_header parse_header read_header read_magic read_u8
    read_u16_le read_method read_u32_le decode_payload is_ok decode_from_slice
message_read = refl

read_message_bounds_example :
    (1 ≤ max_payload_size) × (is_ok (header_for command 4 (5 ∷ [])) ≡ true)
read_message_bounds_example =
    read_message_bounds byte_codec (arrived message_bytes) after_reading
      (header_for command 4 (5 ∷ [])) 5 message_read
