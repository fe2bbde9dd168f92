-- ===== src/Errors/Codes.antt =====
-- The error codes: the associated constants of `CrabError` in crab/errors.rs.
use crab_rs.Prelude.{ℕ}

abbrev pub no_error : ℕ
no_error = 0

abbrev pub bad_status_error : ℕ
bad_status_error = 1

abbrev pub unsupported_error : ℕ
unsupported_error = 2

abbrev pub key_not_found : ℕ
key_not_found = 3

abbrev pub crypto_error : ℕ
crypto_error = 4

abbrev pub bad_addr : ℕ
bad_addr = 5

abbrev pub parse_error : ℕ
parse_error = 6

abbrev pub io_bad_message : ℕ
io_bad_message = 7

abbrev pub no_payload : ℕ
no_payload = 8

abbrev pub connect_handshake_error : ℕ
connect_handshake_error = 9

abbrev pub handshake_error : ℕ
handshake_error = 10

abbrev pub bad_remote_addr : ℕ
bad_remote_addr = 11

abbrev pub connect_error : ℕ
connect_error = 12

abbrev pub handshake_timeout : ℕ
handshake_timeout = 13

abbrev pub canceled_error : ℕ
canceled_error = 14

abbrev pub payload_too_large : ℕ
payload_too_large = 15

abbrev pub bad_message_header : ℕ
bad_message_header = 16

abbrev pub deserialization_error : ℕ
deserialization_error = 17

abbrev pub heartbeat_timeout : ℕ
heartbeat_timeout = 18

abbrev pub conn_handshake_error : ℕ
conn_handshake_error = 19

abbrev pub node_already_exit : ℕ
node_already_exit = 20

abbrev pub node_exists : ℕ
node_exists = 21

abbrev pub unexcepted_response : ℕ
unexcepted_response = 22

abbrev pub task_ack_failed : ℕ
task_ack_failed = 23

abbrev pub bad_parameter : ℕ
bad_parameter = 24

abbrev pub timeout_error : ℕ
timeout_error = 25

abbrev pub no_enough_space : ℕ
no_enough_space = 26

abbrev pub already_served : ℕ
already_served = 27

abbrev pub encoding_error : ℕ
encoding_error = 28

abbrev pub dns_resolve_error : ℕ
dns_resolve_error = 29

abbrev pub network_error : ℕ
network_error = 30

abbrev pub illegal_error : ℕ
illegal_error = 0xffff_fffe

abbrev pub unknown_error : ℕ
unknown_error = 0xffff_ffff
