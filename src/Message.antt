-- ===== src/Message.antt =====
-- crab/proto/types.rs: the message header and the acknowledgement.
--
-- The header's layout is the one that the attributes of the source give: the magic "CRAB", then the
-- fields in order, little-endian, the method as a 16-bit number. `u8` and `u32` fields are numbers;
-- `IsHeader` says that they are in range.
pub mod Header
pub mod Ack
use Prim.Native.Nat.{bit_and}
use crab_rs.Prelude.{
  ℕ, ◌^◌, ◌%◌, ◌<◌, String, Bool, not, Option, none, some, List, [], ◌∷◌, ◌++◌, ◌==◌, if◌then◌else◌,
  Result, ok, err,
}
use crab_rs.Prelude.Bytes.{
  Bytes, Reader, done, fail, ◌>>=◌, ◌>>◌, read_u8, read_u16_le, read_u32_le, read_magic,
  write_u16_le, write_u32_le,
}
use crab_rs.Errors.{CrabError, error_code, error_code_with_message, to_string}
use crab_rs.Errors.Codes

pub data Method : Type 0 where
  handshake heartbeat ack error command : Method

pub Method-discrete : Discrete Method
Method-discrete = hlevel

unfoldable pub method_code : Method → ℕ
method_code handshake = 0
method_code heartbeat = 1
method_code ack = 2
method_code error = 3
method_code command = 4

pub record MessageHeader : Type 0 where
  pub version : ℕ
  pub option : ℕ
  pub method : Method
  pub length : ℕ

abbrev pub option_none : ℕ
option_none = 0

abbrev pub option_error : ℕ
option_error = 1

-- `self.option & Self::OPTION_ERROR != Self::OPTION_ERROR`
unfoldable pub is_ok : MessageHeader → Bool
is_ok h = not (bit_and h.option option_error == option_error)

abbrev pub magic : Bytes
magic = b'C' ∷ b'R' ∷ b'A' ∷ b'B' ∷ []

unfoldable pub read_method : ℕ → Reader Method
read_method code =
    if code == 0
    then done handshake
    else if code == 1
    then done heartbeat
    else if code == 2
    then done ack
    else if code == 3
    then done error
    else if code == 4
    then done command
    else fail

unfoldable pub read_header : Reader MessageHeader
read_header = do
  read_magic magic
  version ← read_u8
  option ← read_u8
  code ← read_u16_le
  method ← read_method code
  length ← read_u32_le
  done (record { version = version; option = option; method = method; length = length })

unfoldable pub write_header : MessageHeader → Bytes
unfolding method_code
write_header h =
    magic
    ++ ((h.version % 256) ∷ (h.option % 256) ∷ []
        ++ (write_u16_le (method_code h.method) ++ write_u32_le h.length))

pub record IsHeader (h : MessageHeader) : Type 0 where
  pub version_u8 : h.version < 256
  pub option_u8 : h.option < 256
  pub length_u32 : h.length < 2 ^ 32

pub record AckMessage : Type 0 where
  pub code : ℕ
  pub msg : Option String

unfoldable pub from_error : CrabError → AckMessage
from_error (error_code code) = record { code = code; msg = none }
from_error e = record { code = Codes.unknown_error; msg = some (to_string e) }

abbrev pub success : AckMessage
success = record { code = Codes.no_error; msg = none }

into_err : ℕ → Option String → Result CrabError (Unit {0})
into_err code none = err (error_code code)
into_err code (some msg) = err (error_code_with_message code msg)

-- `impl Into<Result<(), CrabError>> for AckMessage`
unfoldable pub into_result : AckMessage → Result CrabError (Unit {0})
unfolding into_err
into_result a = if a.code == Codes.no_error then ok tt else into_err a.code a.msg

-- `impl From<Result<(), CrabError>> for AckMessage`
unfoldable pub from_result : Result CrabError (Unit {0}) → AckMessage
unfolding from_error
from_result (ok _) = from_error (error_code Codes.no_error)
from_result (err e) = from_error e
