-- ===== src/Tests/Messages.antt =====
-- The layout of headers and acknowledgements.
use crab_rs.Prelude.{◌≡◌, refl, arith, [], ◌∷◌, ◌++◌, some, All, Result, err}
use crab_rs.Prelude.Bytes.{Bytes, IsByte, read_magic, read_u8, read_u16_le, read_u32_le}
use crab_rs.Errors.{CrabError, error_code_with_message, io, to_string}
use crab_rs.Errors.Codes
use crab_rs.Message.{
  MessageHeader, IsHeader, command, heartbeat, read_header, write_header, read_method, from_error,
  into_result,
}
use crab_rs.Message.Header.{read_header-write_header, write_header-read_header}

abbrev header : MessageHeader
header = record { version = 0; option = 1; method = command; length = 70000 }

header-IsHeader : IsHeader header
header-IsHeader = record {
  version_u8 = omega arith;
  option_u8 = omega arith;
  length_u32 = omega arith;
}

read_header-write_header_example :
    read_header (write_header header ++ 9 ∷ []) ≡ some (header, 9 ∷ [])
read_header-write_header_example = read_header-write_header header (9 ∷ []) header-IsHeader

abbrev header_bytes : Bytes
header_bytes = b'C' ∷ b'R' ∷ b'A' ∷ b'B' ∷ 0 ∷ 1 ∷ 1 ∷ 0 ∷ 2 ∷ 1 ∷ 0 ∷ 0 ∷ 7 ∷ []

abbrev read_from_bytes : MessageHeader
read_from_bytes = record { version = 0; option = 1; method = heartbeat; length = 258 }

header_bytes_are_bytes : All IsByte header_bytes
header_bytes_are_bytes = ground arith

header_bytes_read : read_header header_bytes ≡ some (read_from_bytes, 7 ∷ [])
unfolding read_header read_magic read_u8 read_u16_le read_u32_le read_method
header_bytes_read = refl

write_header-read_header_example :
    IsHeader read_from_bytes × (header_bytes ≡ write_header read_from_bytes ++ 7 ∷ [])
write_header-read_header_example =
    write_header-read_header header_bytes (7 ∷ []) read_from_bytes header_bytes_are_bytes
      header_bytes_read

abbrev lost : Result CrabError (Unit {0})
lost = err (io "lost")

io_answer :
    into_result (from_error (io "lost")) ≡ err (error_code_with_message Codes.unknown_error "lost")
unfolding into_result from_error to_string
io_answer = refl
