-- ===== src/Stream.antt =====
-- crab/proto/util.rs: messages on a stream.
--
-- `W` is the world that holds the stream; its two halves are the `Transport`. `Stream` keeps both
-- halves, so a method of `RecvStream`, of `SendStream` and of `Stream` is one definition here.
pub mod RoundTrip
pub mod Errors
pub mod Keeps
pub mod Arrived
pub mod Acks
use Prim.Native.Nat.{bit_or}
use crab_rs.Prelude.{
  ℕ, ◌-◌, ◌*◌, ◌^◌, ◌%◌, Bool, Option, none, some, ◌++◌, replicate, length, ltb, if◌then◌else◌,
  Result, ok, err, String,
}
use crab_rs.Prelude.Io.{Io, pure, raise, lift, from, match_on, ◌>>=◌, ◌>>◌}
use crab_rs.Prelude.Bytes.{Bytes}
use crab_rs.Errors.{CrabError, error_code, quic_read_exact_error, quic_write_error}
use crab_rs.Errors.Codes
use crab_rs.Message.{
  Method, MessageHeader, AckMessage, option_error, is_ok, read_header, write_header, from_error,
  success, into_result,
}
use crab_rs.Transport.{Transport, Codec}

abbrev pub header_size : ℕ
header_size = 12

abbrev pub max_payload_size : ℕ
max_payload_size = 16 * 1024 * 1024

-- `MessageHeader::read(..).map_err(..)`; the rest of the buffer is not looked at.
unfoldable pub parse_header : Bytes → Result CrabError MessageHeader
parse_header bytes = elim (read_header bytes) [
  | none ↦ err (error_code Codes.io_bad_message)
  | some (h, _) ↦ ok h
]

unfoldable pub decode_from_slice : {M : Type 0} → Codec M → Bytes → Result CrabError M
decode_from_slice c bytes = elim (c.decode bytes) [
  | none ↦ err (error_code Codes.deserialization_error)
  | some (m, _) ↦ ok m
]

abbrev failed_with {ℓ} : {A : Type ℓ} → Result CrabError AckMessage → Result CrabError A
failed_with (ok msg) = err (error_code msg.code)
failed_with (err e) = err e

abbrev with_header {ℓ} :
    {M : Type ℓ} → MessageHeader → Result CrabError M → Result CrabError (MessageHeader × M)
with_header h (ok m) = ok (h, m)
with_header h (err e) = err e

-- The `if !msg_header.ok()` at the end of `read_message`.
unfoldable pub decode_payload :
    {M : Type 0}
    → Codec AckMessage
    → Codec M
    → MessageHeader
    → Bytes
    → Result CrabError (MessageHeader × M)
decode_payload ack c h buf =
    if is_ok h
    then with_header h (decode_from_slice c buf)
    else failed_with (decode_from_slice ack buf)

unfoldable pub frame : Method → ℕ → Bytes → Bytes
frame method option payload =
    write_header
      (record { version = 0; option = option; method = method; length = length payload % 2 ^ 32 })
    ++ payload

unfoldable pub encode_message : {M : Type 0} → Codec M → M → Result CrabError Bytes
encode_message c m = elim (c.encode m) [
  | none ↦ err (error_code Codes.io_bad_message)
  | some payload ↦ ok payload
]

abbrev pub validate : {M : Type 0} → Option (M → Result CrabError M) → M → Result CrabError M
validate none msg = ok msg
validate (some valid) msg = valid msg

module _ {W : Type 0} ⦃t : Transport W⦄ ⦃ack : Codec AckMessage⦄ where
  -- The part of `read_message` that follows the header.
  pub read_payload : {M : Type 0} → Codec M → MessageHeader → Io CrabError W (MessageHeader × M)
  read_payload c h =
      if ltb max_payload_size h.length then raise (error_code Codes.payload_too_large) else do
        buf ← from quic_read_exact_error (t.read_exact h.length)
        lift (decode_payload ack c h buf)

  unfoldable pub read_message : {M : Type 0} → Codec M → Io CrabError W (MessageHeader × M)
  unfolding read_payload
  read_message c = do
    header ← from quic_read_exact_error (t.read_exact header_size)
    msg_header ← lift (parse_header header)
    read_payload c msg_header

  unfoldable pub read_ack : Io CrabError W (Unit {0})
  read_ack = do (_, a) ← read_message ack; lift (into_result a)

  unfoldable pub write_message : {M : Type 0} → Codec M → Method → ℕ → M → Io CrabError W (Unit {0})
  write_message c method option msg = do
    payload ← lift (encode_message c msg)
    from quic_write_error (t.write_all (frame method option payload))

  unfoldable pub write_error : Method → ℕ → CrabError → Io CrabError W (Unit {0})
  write_error method option e = write_message ack method (bit_or option option_error) (from_error e)

  pub read_and_ack :
      {M : Type 0} → Codec M → Option (M → Result CrabError M) → Io CrabError W (MessageHeader × M)
  read_and_ack c valid = do
    (header, msg) ← read_message c
    match_on (lift (validate valid msg))
        (λ msg'. do write_message ack header.method header.option success; pure (header, msg'))
        (λ e. do write_error header.method header.option e; raise e)

  pub write_and_ack : {M : Type 0} → Codec M → Method → ℕ → M → Io CrabError W (Unit {0})
  write_and_ack c method option msg = do write_message c method option msg; read_ack
