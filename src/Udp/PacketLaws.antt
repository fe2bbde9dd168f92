-- ===== src/Udp/PacketLaws.antt =====
-- What a packet that was sent on a stream is to its reader.
use Prim.Native.Nat.{bit_and}
use crab_rs.Prelude.{
  ℕ, ◌+◌, ◌*◌, ◌%◌, ◌/◌, ◌^◌, ◌<◌, ◌≤◌, ◌≡◌, refl, ap, ◌∙◌, arith, String, true, ◌∷◌, ◌++◌, length,
  drop, length-append, take-length_append, drop-length_append, length-drop, append_assoc, ok, err,
  ==_iff, ◌==◌,
}
use crab_rs.Prelude.Io.{Io}
use crab_rs.Prelude.Bytes.{Bytes}
use crab_rs.Prelude.Tables.{all_below, all_below_sound}
use crab_rs.Errors.{error_code}
use crab_rs.Errors.Codes
use crab_rs.Transport.{Transport, IsReliable}
use crab_rs.Types.{SocketAddr}
use crab_rs.Udp.Address.{Address, address_of}
use crab_rs.Udp.Header.{
  PacketHeader, IsPlain, unpack, try_into_address, header_of, write_packet_header,
}
use crab_rs.Udp.HeaderLaws.{
  unpack-write_packet_header, header_of-IsPacketHeader, try_into_address-header_of,
  length-write_packet_header,
}
use crab_rs.Udp.Packet.{packet_len_mask, read_packet, send_packet}

mask_table : all_below 32768 (λ x. bit_and x packet_len_mask == x) ≡ true
unfolding all_below
mask_table = refl

mask_keeps : (x : ℕ) → x < 32768 → bit_and x packet_len_mask ≡ x
mask_keeps x h =
    (==_iff (bit_and x packet_len_mask) x).0
      (all_below_sound 32768 (λ x. bit_and x packet_len_mask == x) x mask_table h)

-- What a packet of this address and data is on the stream: the length of the rest in two bytes.
abbrev pub packet_length : SocketAddr → Bytes → ℕ
packet_length a data_bytes = length (write_packet_header (header_of a)) + length data_bytes

abbrev pub packet_bytes : SocketAddr → Bytes → Bytes
packet_bytes a data_bytes =
    (packet_length a data_bytes / 256 % 256)
    ∷ (packet_length a data_bytes % 256)
    ∷ (write_packet_header (header_of a) ++ data_bytes)

-- tokio's `read_u16`: two bytes that have arrived, the high one first.
pub record ReadsU16 {W : Type 0} {t : Transport W} (R : IsReliable t) (read_u16 : Io String W ℕ)
    : Type 0 where
  pub read_u16_ok :
      (hi lo : ℕ) (rest : Bytes) (w : W)
      → R.inbox w ≡ hi ∷ lo ∷ rest
      → (w' : W) × (read_u16 w ≡ (ok (256 * hi + lo), w'))
        × (R.inbox w' ≡ rest)
        × (R.outbox w' ≡ R.outbox w)
        × (R.writable w' ≡ R.writable w)

after_header :
    (header data_bytes tail : Bytes)
    → drop (length header) ((header ++ data_bytes) ++ tail) ≡ data_bytes ++ tail
after_header header data_bytes tail =
    rw append_assoc (drop-length_append header (data_bytes ++ tail))

module _ {W : Type 0} ⦃t : Transport W⦄ where
  read_packet_steps :
      (read_u16 : Io String W ℕ) (buf bytes : Bytes) (h : PacketHeader) (position : ℕ) (a : Address)
      {w w1 w2 : W}
      → length bytes < 32768
      → 0 < length bytes
      → length bytes ≤ length buf
      → read_u16 w ≡ (ok (length bytes), w1)
      → t.read_exact (length bytes) w1 ≡ (ok bytes, w2)
      → unpack bytes ≡ ok (h, position)
      → try_into_address h ≡ ok a
      → read_packet read_u16 buf w ≡ (
        ok (a, drop position (bytes ++ drop (length bytes) buf), bytes ++ drop (length bytes) buf),
        w2,
      )
  unfolding read_packet
  read_packet_steps read_u16 buf bytes h position a small pos fits e1 e2 u i =
      ground
        (arith, mask_keeps (length bytes) small, take-length_append bytes (drop (length bytes) buf))

  read_packet_refused :
      (read_u16 : Io String W ℕ) (buf : Bytes) (size : ℕ) {w w1 : W}
      → size < 32768
      → length buf < size
      → read_u16 w ≡ (ok size, w1)
      → read_packet read_u16 buf w ≡ (err (error_code Codes.no_enough_space), w1)
  unfolding read_packet
  read_packet_refused read_u16 buf size small large e = ground (arith, mask_keeps size small)

  module _ (R : IsReliable t) {read_u16 : Io String W ℕ} (reads : ReadsU16 R read_u16) where
    -- Sending a datagram on a stream that can be written gives the length of the data and appends
    -- one packet to the stream, if header and data take less than 65536 bytes.
    pub send_packet-bytes :
        (data_bytes : Bytes) (a : SocketAddr) (w : W)
        → packet_length a data_bytes < 65536
        → R.writable w ≡ true
        → (w' : W) × (send_packet data_bytes a w ≡ (ok (length data_bytes), w'))
          × (R.outbox w' ≡ R.outbox w ++ packet_bytes a data_bytes)
    unfolding send_packet
    send_packet-bytes data_bytes a w small x =
        let header = write_packet_header (header_of a) in
        let n = packet_length a data_bytes in
        let same : (length data_bytes + length header) % 2 ^ 32 ≡ n = omega arith in
        let (w1, e1, i1, o1, x1) = R.write_all_ok ((n / 256 % 256) ∷ (n % 256) ∷ header) w x in
        let (w2, e2, i2, o2, x2) = R.write_all_ok data_bytes w1 x1 in
        (
          w2,
          rw same (rw e1 (rw e2)),
          o2 ∙ ap (λ l. l ++ data_bytes) o1 ∙ append_assoc (R.outbox w) _ data_bytes,
        )

    -- If a packet has arrived whose header and data fit the buffer and take less than 32768 bytes,
    -- and its address has no flow information and no scope, the reader gets that address, and the
    -- data followed by all that the buffer held behind the packet: the slice ends where the buffer
    -- ends, not where the packet does. What follows the packet on the stream stays unread.
    pub read_packet-of_packet :
        (a : SocketAddr) (data_bytes rest buf : Bytes) (w : W)
        → IsPlain a
        → packet_length a data_bytes ≤ length buf
        → packet_length a data_bytes < 32768
        → R.inbox w ≡ packet_bytes a data_bytes ++ rest
        → (w' : W) × (buf' : Bytes) × (read_packet read_u16 buf w
            ≡ (ok (address_of a, data_bytes ++ drop (packet_length a data_bytes) buf, buf'), w'))
          × (R.inbox w' ≡ rest)
          × (length buf' ≡ length buf)
    read_packet-of_packet a data_bytes rest buf w plain fits small arrived =
        let header = write_packet_header (header_of a) in
        let bytes = header ++ data_bytes in
        let tail = drop (length bytes) buf in
        let n : length bytes ≡ packet_length a data_bytes = length-append header data_bytes in
        let (lo, hi) = length-write_packet_header a plain in
        let (w1, e1, i1, o1, x1) = reads.read_u16_ok _ _ (bytes ++ rest) w arrived in
        let (w2, e2, i2, o2, x2) = R.read_exact_ok bytes rest w1 i1 in
        let whole : 256 * (packet_length a data_bytes / 256 % 256)
              + packet_length a data_bytes % 256
            ≡ length bytes =
          omega arith in
        let u =
          unpack-write_packet_header (header_of a) data_bytes (header_of-IsPacketHeader a plain) in
        let r =
          read_packet_steps read_u16 buf bytes (header_of a) (length header) (address_of a)
            (omega arith) (omega arith) (omega arith) (e1 ∙ ap (λ k. (ok k, w1)) whole) e2 u
            (try_into_address-header_of a plain) in
        (
          w2,
          bytes ++ tail,
          r
              ∙ ap (λ d. (ok (address_of a, d, bytes ++ tail), w2))
                  (after_header header data_bytes tail ∙ ap (λ k. data_bytes ++ drop k buf) n),
          i2,
          omega (arith, length-append bytes tail, length-drop (length bytes) buf),
        )

    -- If a packet has arrived that is longer than the reader's buffer and takes less than 32768
    -- bytes, reading it fails with NO_ENOUGH_SPACE, and only its length is taken from the stream.
    pub read_packet-too_long :
        (a : SocketAddr) (data_bytes rest buf : Bytes) (w : W)
        → length buf < packet_length a data_bytes
        → packet_length a data_bytes < 32768
        → R.inbox w ≡ packet_bytes a data_bytes ++ rest
        → (w' : W) × (read_packet read_u16 buf w ≡ (err (error_code Codes.no_enough_space), w'))
          × (R.inbox w' ≡ (write_packet_header (header_of a) ++ data_bytes) ++ rest)
    read_packet-too_long a data_bytes rest buf w large small arrived =
        let n = packet_length a data_bytes in
        let (w1, e1, i1, o1, x1) =
          reads.read_u16_ok _ _ ((write_packet_header (header_of a) ++ data_bytes) ++ rest) w
            arrived in
        let whole : 256 * (n / 256 % 256) + n % 256 ≡ n = omega arith in
        (w1, read_packet_refused read_u16 buf n small large (e1 ∙ ap (λ k. (ok k, w1)) whole), i1)
