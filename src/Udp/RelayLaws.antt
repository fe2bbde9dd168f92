-- ===== src/Udp/RelayLaws.antt =====
-- What the copying of packets delivers.
use Prim.Native.Nat.{bit_and}
use crab_rs.Prelude.{
  ltb, ◌==◌, ℕ, ◌+◌, ◌≤◌, ◌≡◌, refl, sym, ap, subst, ◌∙◌, arith, String, Bool, true, List, [], ◌∷◌,
  ◌++◌, length, take, drop, append_assoc, append-nil, length-append, length-drop,
  take-length_append, ok, replicate, length-replicate,
}
use crab_rs.Prelude.Io.{Io, pure, lift, from, ◌>>=◌}
use crab_rs.Prelude.Io.Keeps.{Keeps, keeps_rules, Keeps-bind, Keeps-from, Keeps-if, Keeps-raise}
use crab_rs.Prelude.Bytes.{Bytes}
use crab_rs.Errors.{CrabError, error_code, io, quic_read_exact_error}
use crab_rs.Errors.Codes
use crab_rs.Transport.{Transport, IsReliable}
use crab_rs.Types.{SocketAddr}
use crab_rs.Udp.Address.{resolve, address_of}
use crab_rs.Udp.Header.{unpack, try_into_address, IsPlain, header_of, write_packet_header}
use crab_rs.Udp.HeaderLaws.{length-write_packet_header}
use crab_rs.Udp.Packet.{
  packet_len_mask, UdpSocket, Packet, read_packet, send_datagram, udp_forward_mtu,
}
use crab_rs.Udp.PacketLaws.{packet_length, packet_bytes, ReadsU16, read_packet-of_packet}
use crab_rs.Udp.Relay.{copy_round, copy_rounds, copy_udp_packet}

abbrev pub Datagram : Type 0
Datagram = SocketAddr × Bytes

-- A socket that keeps a record of what was sent by it. While it can send, a datagram is sent whole;
-- what is read from the stream neither sends nor keeps it from sending.
pub record IsSocket {W : Type 0} {t : Transport W} (R : IsReliable t) (read_u16 : Io String W ℕ)
    (sock : UdpSocket W) : Type 0 where
  pub sent : W → List Datagram
  pub sends : W → Bool
  pub send_to_ok :
      (bytes : Bytes) (a : SocketAddr) (w : W)
      → sends w ≡ true
      → (w' : W) × (sock.send_to bytes a w ≡ (ok (length bytes), w'))
        × (sent w' ≡ sent w ++ (a, bytes) ∷ [])
        × (sends w' ≡ true)
        × (R.inbox w' ≡ R.inbox w)
  pub by_read :
      (ds : List Datagram) (n : ℕ) → Keeps (λ w. (sent w ≡ ds) × (sends w ≡ true)) (t.read_exact n)
  pub by_read_u16 : (ds : List Datagram) → Keeps (λ w. (sent w ≡ ds) × (sends w ≡ true)) read_u16

-- The bytes of some packets on the stream, one after the other.
unfoldable pub packets_bytes : List Datagram → Bytes
packets_bytes [] = []
packets_bytes ((a, data_bytes) ∷ packets) = packet_bytes a data_bytes ++ packets_bytes packets

-- A packet that fits the buffer, with an address that the header keeps whole.
abbrev pub Fits : Datagram → Type 0
Fits (a, data_bytes) = IsPlain a × (packet_length a data_bytes ≤ udp_forward_mtu)

-- A datagram for a packet: it goes to the packet's address, begins with the packet's data, and has
-- as many bytes as the buffer has behind the packet's header.
abbrev pub IsSentFor : Datagram → Datagram → Type 0
IsSentFor (a, data_bytes) (b, bytes) =
    (b ≡ a)
    × (take (length data_bytes) bytes ≡ data_bytes)
    × (length bytes + length (write_packet_header (header_of a)) ≡ udp_forward_mtu)

abbrev pub AllFit : List Datagram → Type 0
AllFit [] = Unit
AllFit (p ∷ packets) = Fits p × AllFit packets

-- One datagram for each packet, in their order.
abbrev pub AllDelivered : List Datagram → List Datagram → Type 0
AllDelivered [] [] = Unit
AllDelivered (p ∷ packets) (d ∷ ds) = IsSentFor p d × AllDelivered packets ds
AllDelivered _ _ = ⊥

module _ {W : Type 0} ⦃t : Transport W⦄ (R : IsReliable t) {read_u16 : Io String W ℕ}
    (reads : ReadsU16 R read_u16) {sock : UdpSocket W} (S : IsSocket R read_u16 sock)
    (lookup_host : Bytes → ℕ → Io String W (List SocketAddr)) where
  module _ {P : W → Type 0} (by_read : (n : ℕ) → Keeps P (t.read_exact n))
      (by_read_u16 : Keeps P read_u16) where
    abbrev parse : Bytes → Bytes → Io CrabError W Packet
    parse buf buf' = do
      (header, position) ← lift (unpack buf)
      address ← lift (try_into_address header)
      pure (address, drop position buf', buf')

    parse-Keeps : (buf buf' : Bytes) → Keeps P (parse buf buf')
    parse-Keeps buf buf' = search (keeps_rules)

    read_packet-Keeps : (buf : Bytes) → Keeps P (read_packet read_u16 buf)
    unfolding read_packet
    read_packet-Keeps buf =
        Keeps-bind (from io read_u16) _ (Keeps-from io read_u16 by_read_u16) (λ flag.
          let size = bit_and flag packet_len_mask in
          Keeps-if (size == 0) _ _ (Keeps-raise (error_code Codes.bad_message_header)) (
            Keeps-if (ltb (length buf) size) _ _ (Keeps-raise (error_code Codes.no_enough_space)) (
              Keeps-bind (from quic_read_exact_error (t.read_exact size)) _
                (Keeps-from quic_read_exact_error (t.read_exact size) (by_read size))
                (λ bytes. let buf' = bytes ++ drop size buf in parse-Keeps (take size buf') buf'))))

  abbrev round : Bytes → Io CrabError W Bytes
  round = copy_round lookup_host (read_packet read_u16) (send_datagram sock)

  round_steps :
      (a : SocketAddr) (bytes buf buf' : Bytes) (n : ℕ) (w w1 w2 : W)
      → read_packet read_u16 buf w ≡ (ok (address_of a, bytes, buf'), w1)
      → sock.send_to bytes a w1 ≡ (ok n, w2)
      → round buf w ≡ (ok buf', w2)
  unfolding copy_round resolve address_of send_datagram
  round_steps a bytes buf buf' n w w1 w2 e1 e2 = rw e1 (rw e2 refl)

  copy_round-delivers :
      (a : SocketAddr) (data_bytes rest buf : Bytes) (w : W)
      → Fits (a, data_bytes)
      → length buf ≡ udp_forward_mtu
      → S.sends w ≡ true
      → R.inbox w ≡ packet_bytes a data_bytes ++ rest
      → (buf' : Bytes) × (w' : W) × (d : Datagram) × (round buf w ≡ (ok buf', w'))
        × (length buf' ≡ udp_forward_mtu)
        × IsSentFor (a, data_bytes) d
        × (S.sent w' ≡ S.sent w ++ d ∷ [])
        × (S.sends w' ≡ true)
        × (R.inbox w' ≡ rest)
  copy_round-delivers a data_bytes rest buf w (plain, fits) full x arrived =
      let n = packet_length a data_bytes in
      let bytes = data_bytes ++ drop n buf in
      let (lo, hi) = length-write_packet_header a plain in
      let (w1, buf', e1, i1, same) =
        read_packet-of_packet R reads a data_bytes rest buf w plain (omega arith) (omega arith)
          arrived in
      let (s1, x1) =
        subst (λ p. (S.sent p.1 ≡ S.sent w) × (S.sends p.1 ≡ true)) e1
          ((read_packet-Keeps (S.by_read (S.sent w)) (S.by_read_u16 (S.sent w)) buf).at w
            (refl, x)) in
      let (w2, e2, s2, x2, i2) = S.send_to_ok bytes a w1 x1 in
      (
        buf',
        w2,
        (a, bytes),
        round_steps a bytes buf buf' (length bytes) w w1 w2 e1 e2,
        omega arith,
        (
          refl,
          take-length_append data_bytes (drop n buf),
          omega (arith, length-append data_bytes (drop n buf), length-drop n buf),
        ),
        s2 ∙ ap (λ l. l ++ (a, bytes) ∷ []) s1,
        x2,
        i2 ∙ i1,
      )

  copy_rounds-delivers :
      (packets : List Datagram) (rest buf : Bytes) (w : W)
      → AllFit packets
      → length buf ≡ udp_forward_mtu
      → S.sends w ≡ true
      → R.inbox w ≡ packets_bytes packets ++ rest
      → (buf' : Bytes) × (w' : W) × (ds : List Datagram) × (copy_rounds lookup_host
            (read_packet read_u16)
            (send_datagram sock)
            (length packets)
            buf
            w
          ≡ (ok buf', w'))
        × AllDelivered packets ds
        × (S.sent w' ≡ S.sent w ++ ds)
        × (R.inbox w' ≡ rest)
  unfolding copy_rounds packets_bytes
  copy_rounds-delivers [] rest buf w fit full x arrived =
      (buf, w, [], refl, tt, sym (append-nil (S.sent w)), arrived)
  copy_rounds-delivers ((a, data_bytes) ∷ packets) rest buf w (fits, fit) full x arrived =
      let more = packets_bytes packets ++ rest in
      let (buf1, w1, d, e1, full1, delivers, s1, x1, i1) =
        copy_round-delivers a data_bytes more buf w fits full x
          (arrived ∙ append_assoc (packet_bytes a data_bytes) (packets_bytes packets) rest) in
      let (buf2, w2, ds, e2, delivered, s2, i2) =
        copy_rounds-delivers packets rest buf1 w1 fit full1 x1 i1 in
      (
        buf2,
        w2,
        d ∷ ds,
        rw e1 e2,
        (delivers, delivered),
        s2 ∙ ap (λ l. l ++ ds) s1 ∙ append_assoc (S.sent w) (d ∷ []) ds,
        i2,
      )

  -- If some packets have arrived that fit the buffer, with addresses without flow information and
  -- scope, and the socket can send, the copy sends one datagram for each of them in as many rounds,
  -- in their order: to the packet's address, the packet's data first, and filled from the buffer to
  -- 1500 bytes less the packet's header. What follows the packets on the stream stays unread.
  pub copy_udp_packet-delivers :
      (packets : List Datagram) (rest : Bytes) (w : W)
      → AllFit packets
      → S.sends w ≡ true
      → R.inbox w ≡ packets_bytes packets ++ rest
      → (buf' : Bytes) × (w' : W) × (ds : List Datagram) × (copy_udp_packet lookup_host
            (read_packet read_u16)
            (send_datagram sock)
            (length packets)
            w
          ≡ (ok buf', w'))
        × AllDelivered packets ds
        × (S.sent w' ≡ S.sent w ++ ds)
        × (R.inbox w' ≡ rest)
  unfolding copy_udp_packet
  copy_udp_packet-delivers packets rest w fit x arrived =
      copy_rounds-delivers packets rest (replicate udp_forward_mtu 0) w fit
        (length-replicate {A = ℕ} udp_forward_mtu 0) x arrived
