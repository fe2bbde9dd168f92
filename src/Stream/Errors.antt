-- ===== src/Stream/Errors.antt =====
-- What `read_message` refuses, over any stream.
use crab_rs.Prelude.{◌≤◌, ◌<◌, ◌≡◌, ap, true, arith, ok, err, ltb, Bool-cases, inl, inr}
use crab_rs.Prelude.Io.{>>=-eq-ok, from, lift, ◌>>=◌}
use crab_rs.Prelude.Bytes.{Bytes}
use crab_rs.Errors.{error_code, quic_read_exact_error}
use crab_rs.Errors.Codes
use crab_rs.Message.{MessageHeader, AckMessage, is_ok}
use crab_rs.Transport.{Transport, Codec}
use crab_rs.Stream.{
  header_size, max_payload_size, parse_header, decode_payload, read_payload, read_message,
}

decode_payload-is_ok :
    {M : Type 0} (ack : Codec AckMessage) (c : Codec M) (h h' : MessageHeader) (buf : Bytes) (m : M)
    → decode_payload ack c h buf ≡ ok (h', m)
    → (h' ≡ h) × (is_ok h ≡ true)
unfolding decode_payload
decode_payload-is_ok ack c h h' buf m e = ground arith

module _ {W : Type 0} ⦃t : Transport W⦄ ⦃ack : Codec AckMessage⦄ {M : Type 0} (c : Codec M) where
  read_payload_bounds :
      (w w' : W) (h h' : MessageHeader) (m : M)
      → read_payload c h w ≡ (ok (h', m), w')
      → (h'.length ≤ max_payload_size) × (is_ok h' ≡ true)
  unfolding read_payload
  read_payload_bounds w w' h h' m e = elim (Bool-cases (ltb max_payload_size h.length)) [
    | inl large ↦ ground arith
    | inr fits ↦
        let (buf, v, e1, e2) =
          >>=-eq-ok (from quic_read_exact_error (t.read_exact h.length))
            (λ buf. lift (decode_payload ack c h buf)) (rw fits at e) in
        let d = decode_payload-is_ok ack c h h' buf m (ap (λ r. r.0) e2) in ground (arith, d)
  ]

  -- A message is returned only with a header that announces at most 16 MiB and no error.
  pub read_message_bounds :
      (w w' : W) (h : MessageHeader) (m : M)
      → read_message c w ≡ (ok (h, m), w')
      → (h.length ≤ max_payload_size) × (is_ok h ≡ true)
  unfolding read_message
  read_message_bounds w w' h m e =
      let (bytes, w1, _, e1) =
        >>=-eq-ok (from quic_read_exact_error (t.read_exact header_size))
          (λ bytes. lift (parse_header bytes) >>= read_payload c) e in
      let (h0, w2, _, e2) = >>=-eq-ok (lift (parse_header bytes)) (read_payload c) e1 in
      read_payload_bounds w2 w' h0 h m e2

  -- A header that announces more than 16 MiB is refused before a byte of the payload is read.
  pub read_message-too_large :
      (w w1 : W) (bytes : Bytes) (h : MessageHeader)
      → t.read_exact header_size w ≡ (ok bytes, w1)
      → parse_header bytes ≡ ok h
      → max_payload_size < h.length
      → read_message c w ≡ (err (error_code Codes.payload_too_large), w1)
  unfolding read_message
  read_message-too_large w w1 bytes h e p l = ground arith
