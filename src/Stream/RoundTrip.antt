-- ===== src/Stream/RoundTrip.antt =====
-- What a message written by one side is to the other side, over a reliable stream.
use Prim.Native.Nat.{bit_and, bit_or}
use mathlib.Core.List.{append_cancel_left}
use crab_rs.Prelude.{
  ℕ, ◌^◌, ◌%◌, ◌<◌, ◌≤◌, ◌≡◌, refl, sym, ap, ◌∙◌, true, some, [], ◌++◌, arith, length, append-nil,
  append_assoc, ok, err,
}
use crab_rs.Prelude.Bytes.{Bytes}
use crab_rs.Errors.{CrabError, error_code, err_no}
use crab_rs.Message.{
  Method, MessageHeader, IsHeader, AckMessage, is_ok, read_header, write_header, option_error,
  from_error,
}
use crab_rs.Message.Header.{
  length-write_header, read_header-write_header, error_bit, error_option_u8,
}
use crab_rs.Transport.{Transport, Codec, RoundTrips, IsReliable}
use crab_rs.Stream.{
  header_size, max_payload_size, parse_header, decode_from_slice, decode_payload, frame,
  encode_message, read_message, write_message, write_error,
}

-- The header that `write_message` puts before a payload.
abbrev pub header_for : Method → ℕ → Bytes → MessageHeader
header_for method option payload = record {
  version = 0;
  option = option;
  method = method;
  length = length payload % 2 ^ 32;
}

parse_header-ok :
    (bytes rest : Bytes) (h : MessageHeader)
    → read_header bytes ≡ some (h, rest)
    → parse_header bytes ≡ ok h
unfolding parse_header
parse_header-ok bytes rest h e = ground arith

parse_header-write_header : (h : MessageHeader) → IsHeader h → parse_header (write_header h) ≡ ok h
parse_header-write_header h v =
    parse_header-ok (write_header h) [] h (rw append-nil at (read_header-write_header h [] v))

pub decode_from_slice-ok :
    {M : Type 0} (c : Codec M) (m : M) (payload : Bytes)
    → RoundTrips c m payload
    → decode_from_slice c payload ≡ ok m
unfolding decode_from_slice
decode_from_slice-ok c m payload (e, d) = ground arith

encode_message-ok :
    {M : Type 0} (c : Codec M) (m : M) (payload : Bytes)
    → c.encode m ≡ some payload
    → encode_message c m ≡ ok payload
unfolding encode_message
encode_message-ok c m payload e = ground arith

module _ {M : Type 0} (ack : Codec AckMessage) (c : Codec M) (h : MessageHeader) (buf : Bytes) where
  pub decode_payload-ok :
      {m : M}
      → bit_and h.option option_error ≡ 0
      → decode_from_slice c buf ≡ ok m
      → decode_payload ack c h buf ≡ ok (h, m)
  unfolding decode_payload is_ok
  decode_payload-ok b d = ground arith

  pub decode_payload-error :
      {a : AckMessage}
      → bit_and h.option option_error ≡ 1
      → decode_from_slice ack buf ≡ ok a
      → decode_payload ack c h buf ≡ err (error_code a.code)
  unfolding decode_payload is_ok
  decode_payload-error b d = ground arith

pub code-from_error : (e : CrabError) → (from_error e).code ≡ err_no e
unfolding from_error err_no
code-from_error (error_code c) = refl
code-from_error _ = refl

module _ {W : Type 0} ⦃t : Transport W⦄ ⦃ack : Codec AckMessage⦄ where
  pub read_message_steps :
      {M : Type 0} (c : Codec M) (bytes payload : Bytes) (h : MessageHeader) {w w1 w2 : W}
      → t.read_exact header_size w ≡ (ok bytes, w1)
      → parse_header bytes ≡ ok h
      → h.length ≤ max_payload_size
      → t.read_exact h.length w1 ≡ (ok payload, w2)
      → read_message c w ≡ (decode_payload ack c h payload, w2)
  unfolding read_message
  read_message_steps c bytes payload h e1 p l e2 = ground arith

module _ {W : Type 0} ⦃t : Transport W⦄ ⦃ack : Codec AckMessage⦄ (R : IsReliable t) where
  open R use {inbox, outbox, writable, read_exact_ok, write_all_ok}

  -- One message at the front of the inbox is taken whole, and nothing of what follows it.
  pub read_message-frame :
      {M : Type 0} (c : Codec M) (method : Method) (option : ℕ) (payload rest : Bytes) (w : W)
      → option < 256
      → length payload ≤ max_payload_size
      → inbox w ≡ frame method option payload ++ rest
      → (w' : W) × (read_message c w
          ≡ (decode_payload ack c (header_for method option payload) payload, w'))
        × (inbox w' ≡ rest)
        × (outbox w' ≡ outbox w)
        × (writable w' ≡ writable w)
  unfolding read_message frame
  read_message-frame c method option payload rest w ho hl hin =
      let h = header_for method option payload in
      let v : IsHeader h = record {
        version_u8 = omega arith;
        option_u8 = ho;
        length_u32 = omega arith;
      } in
      let small : h.length ≡ length payload = omega arith in
      let (w1, e1, i1, o1, x1) =
        read_exact_ok (write_header h) (payload ++ rest) w
          (hin ∙ append_assoc (write_header h) payload rest) in
      let (w2, e2, i2, o2, x2) = read_exact_ok payload rest w1 i1 in
      (
        w2,
        read_message_steps c (write_header h) payload h (rw length-write_header at e1)
            (parse_header-write_header h v) (omega arith) (rw (← small) at e2),
        i2,
        o2 ∙ o1,
        x2 ∙ x1,
      )

  -- Writing appends the message's frame and does nothing else to the stream.
  pub write_message-frame :
      {M : Type 0} (c : Codec M) (method : Method) (option : ℕ) (m : M) (payload : Bytes) (w : W)
      → c.encode m ≡ some payload
      → writable w ≡ true
      → (w' : W) × (write_message c method option m w ≡ (ok tt, w'))
        × (inbox w' ≡ inbox w)
        × (outbox w' ≡ outbox w ++ frame method option payload)
        × (writable w' ≡ true)
  unfolding write_message encode_message
  write_message-frame c method option m payload w e x =
      let (w1, e1, i1, o1, x1) = write_all_ok (frame method option payload) w x in
      (w1, rw (encode_message-ok c m payload e) (rw e1), i1, o1, x1)

  -- The bytes that a successful write added are one frame.
  write_message-bytes :
      {M : Type 0} (c : Codec M) (method : Method) (option : ℕ) (m : M) (payload bytes : Bytes)
      (v v' : W)
      → c.encode m ≡ some payload
      → writable v ≡ true
      → write_message c method option m v ≡ (ok tt, v')
      → outbox v' ≡ outbox v ++ bytes
      → bytes ≡ frame method option payload
  write_message-bytes c method option m payload bytes v v' e x sent added =
      let (u, e1, i1, o1, x1) = write_message-frame c method option m payload v e x in
      let same : u ≡ v' = ap (λ p. p.1) (sym e1 ∙ sent) in
      append_cancel_left (outbox v) bytes (frame method option payload)
        (sym added ∙ ap outbox (sym same) ∙ o1)

  module _ (v v' w : W) (bytes rest : Bytes) (method : Method) (option : ℕ) (payload : Bytes)
      (writes : writable v ≡ true) (added : outbox v' ≡ outbox v ++ bytes)
      (arrived : inbox w ≡ bytes ++ rest) (fits : length payload ≤ max_payload_size) where
    -- If a message with an encoding of at most 16 MiB that decodes back was sent by
    -- `write_message` without the error option, `read_message` returns it at a stream where the
    -- bytes that were sent have arrived; what follows them stays unread, and nothing is written.
    pub read_message-write_message :
        {M : Type 0} (c : Codec M) (m : M)
        → RoundTrips c m payload
        → option < 256
        → bit_and option option_error ≡ 0
        → write_message c method option m v ≡ (ok tt, v')
        → (w' : W) × (read_message c w ≡ (ok (header_for method option payload, m), w'))
          × (inbox w' ≡ rest)
          × (outbox w' ≡ outbox w)
    read_message-write_message c m rt ho hb sent =
        let same =
          write_message-bytes c method option m payload bytes v v' rt.0 writes sent added in
        let (w', e, i, o, x) =
          read_message-frame c method option payload rest w ho fits
            (arrived ∙ ap (λ l. l ++ rest) same) in
        (
          w',
          e
              ∙ ap (λ r. (r, w'))
                  (decode_payload-ok ack c (header_for method option payload) payload hb
                    (decode_from_slice-ok c m payload rt)),
          i,
          o,
        )

    -- If an error was sent by `write_error`, and its acknowledgement's encoding of at most 16 MiB
    -- decodes back, then `read_message`, whatever message it asks for, fails with the error number
    -- of that error where the bytes that were sent have arrived, and leaves what follows them.
    pub read_message-write_error :
        {M : Type 0} (c : Codec M) (e : CrabError)
        → RoundTrips ack (from_error e) payload
        → option < 256
        → write_error method option e v ≡ (ok tt, v')
        → (w' : W) × (read_message c w ≡ (err (error_code (err_no e)), w')) × (inbox w' ≡ rest)
    unfolding write_error
    read_message-write_error c e rt ho sent =
        let o' = bit_or option option_error in
        let same =
          write_message-bytes ack method o' (from_error e) payload bytes v v' rt.0 writes sent
            added in
        let (w', r, i, o, x) =
          read_message-frame c method o' payload rest w (error_option_u8 option ho) fits
            (arrived ∙ ap (λ l. l ++ rest) same) in
        (
          w',
          r
              ∙ ap (λ r. (r, w'))
                  (decode_payload-error ack c (header_for method o' payload) payload
                      (error_bit option ho) (decode_from_slice-ok ack (from_error e) payload rt)
                    ∙ ap (λ n. err (error_code n)) (code-from_error e)),
          i,
        )
