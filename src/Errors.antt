-- ===== src/Errors.antt =====
-- crab/errors.rs: the error type, its codes, messages and printed form.
--
-- A foreign error (TLS, IO, QUIC, binrw, a join error) is carried as the text that its own
-- `Display` prints: the program does nothing else with it.
pub mod Codes
use crab_rs.Prelude.{ℕ, String, ◌==◌, if◌then◌else◌}
use crab_rs.Prelude.Text.{◌<>◌, decimal}

pub data CrabError : Type 0 where
  tls io tls_verifier : String → CrabError
  quic_connection_error quic_read_exact_error quic_write_error : String → CrabError
  encode_error join_error : String → CrabError
  error_code : ℕ → CrabError
  error_code_with_message : ℕ → String → CrabError

unfoldable pub err_no : CrabError → ℕ
err_no (error_code o) = o
err_no _ = Codes.unknown_error

code_message : ℕ → String
code_message code =
    if code == Codes.no_error
    then "No error"
    else if code == Codes.bad_status_error
    then "Bad status error"
    else if code == Codes.unsupported_error
    then "Unsupported error"
    else if code == Codes.key_not_found
    then "Key not found"
    else if code == Codes.crypto_error
    then "Crypto error"
    else if code == Codes.bad_addr
    then "Bad addr"
    else if code == Codes.parse_error
    then "Parse error"
    else if code == Codes.io_bad_message
    then "Bad message format"
    else if code == Codes.no_payload
    then "No payload"
    else if code == Codes.connect_handshake_error
    then "connection handshake error"
    else if code == Codes.handshake_error
    then "Handshake error"
    else if code == Codes.bad_remote_addr
    then "Bad remote address"
    else if code == Codes.connect_error
    then "Connection error"
    else if code == Codes.handshake_timeout
    then "Handshake timeout"
    else if code == Codes.canceled_error
    then "Canceled error"
    else if code == Codes.payload_too_large
    then "Payload too large"
    else if code == Codes.bad_message_header
    then "Bad message header"
    else if code == Codes.deserialization_error
    then "Deserialization error"
    else if code == Codes.heartbeat_timeout
    then "Heartbeat timeout"
    else if code == Codes.conn_handshake_error
    then "Connection handshake error"
    else if code == Codes.node_already_exit
    then "Node already exited"
    else if code == Codes.illegal_error
    then "Illegal error"
    else if code == Codes.unknown_error
    then "Unknown error"
    else if code == Codes.unexcepted_response
    then "Unexpected response"
    else if code == Codes.task_ack_failed
    then "Task ack failure"
    else if code == Codes.bad_parameter
    then "Bad parameter"
    else if code == Codes.timeout_error
    then "Timeout error"
    else if code == Codes.no_enough_space
    then "No enough space"
    else if code == Codes.encoding_error
    then "Encoding error"
    else if code == Codes.dns_resolve_error
    then "DNS resolution error"
    else if code == Codes.already_served
    then "Already served"
    else if code == Codes.network_error
    then "Encoding error"
    else "Unknown error code"

unfoldable pub error_message : CrabError → String
unfolding code_message
error_message (error_code code) = code_message code
error_message _ = ""

unfoldable pub to_string : CrabError → String
to_string (error_code code) =
    "Error code " <> decimal code <> ": " <> error_message (error_code code)
to_string (error_code_with_message code msg) = "Error code " <> decimal code <> ": " <> msg
to_string (tls e) = e
to_string (io e) = e
to_string (tls_verifier e) = e
to_string (quic_connection_error e) = e
to_string (quic_read_exact_error e) = e
to_string (quic_write_error e) = e
to_string (encode_error e) = e
to_string (join_error e) = e
