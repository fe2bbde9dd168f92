-- ===== src/Hook/Laws.antt =====
-- What the two sides of a handshake do over reliable streams.
use crab_rs.Prelude.{◌≤◌, ◌≡◌, ◌≢◌, refl, ap, ◌∙◌, true, false, some, ◌++◌, length, ok, err}
use crab_rs.Prelude.Bytes.{Bytes}
use crab_rs.Errors.{CrabError, error_code}
use crab_rs.Errors.Codes
use crab_rs.Message.{
  Method, handshake, heartbeat, ack, error, command, AckMessage, option_none, option_error,
  method_code, from_error,
}
use crab_rs.Transport.{Transport, Codec, RoundTrips, IsReliable}
use crab_rs.Stream.{max_payload_size, frame, read_message, write_error}
use crab_rs.Stream.Arrived.{read_message-arrived}
use crab_rs.Stream.RoundTrip.{header_for, write_message-frame}
use crab_rs.Hook.{
  Connection, Protocol, holds, same_method, metadata, answer_handshake, accept_handshake,
  handshake_as_client,
}

module _ {W Handle : Type 0} ⦃t : Transport W⦄ ⦃ack_codec : Codec AckMessage⦄ (R : IsReliable t)
    (p : Protocol W Handle) (conn : Connection W) where
  open R use {inbox, outbox, writable}

  -- The peer's packet has arrived on the stream that was accepted, and the answer can be written.
  pub record HasArrived (method : Method) (packet : p.Handshake) (payload rest : Bytes) (w w0 : W)
      : Type 0 where
    pub accepted : conn.accept_bi w ≡ (ok tt, w0)
    pub arrived : inbox w0 ≡ frame method option_none payload ++ rest
    pub writes : writable w0 ≡ true
    pub fits : length payload ≤ max_payload_size
    pub encoded : RoundTrips p.handshake_codec packet payload

  -- What was read, and the stream after it.
  packet_read :
      {method : Method} {packet : p.Handshake} {payload rest : Bytes} {w w0 : W}
      → HasArrived method packet payload rest w w0
      → (w1 : W) × (read_message p.handshake_codec w0
          ≡ (ok (header_for method option_none payload, packet), w1))
        × (inbox w1 ≡ rest)
        × (outbox w1 ≡ outbox w0)
        × (writable w1 ≡ true)
  packet_read {method} {packet} {payload} {rest} {w} {w0} a =
      let (w1, e, i, o, x) =
        read_message-arrived R p.handshake_codec method payload rest w0 a.encoded a.fits
          a.arrived in
      (w1, e, i, o, x ∙ a.writes)

  -- If a packet has arrived under the handshake's method on a stream that can be written, the
  -- protocol answers it without touching the world, and the answer can be encoded, then the peer
  -- is accepted under the packet's node id, and the answer's frame is all that is written.
  pub accept_handshake-answers :
      {packet reply : p.Handshake} {payload reply_payload rest : Bytes} {w w0 : W}
      → HasArrived handshake packet payload rest w w0
      → p.handshake_codec.encode reply ≡ some reply_payload
      → ((v : W)
          → p.on_handshake (metadata p conn.remote_address true packet) packet v ≡ (ok reply, v))
      → (w' : W) × (accept_handshake p conn w
          ≡ (ok (metadata p conn.remote_address true packet, holds packet), w'))
        × (inbox w' ≡ rest)
        × (outbox w' ≡ outbox w0 ++ frame handshake option_none reply_payload)
  unfolding accept_handshake answer_handshake same_method method_code
  accept_handshake-answers {packet} {reply} {payload} {reply_payload} a encodes answers =
      let (w1, e, i, o, x) = packet_read a in
      let (w2, e2, i2, o2, _) =
        write_message-frame R p.handshake_codec handshake option_none reply reply_payload w1 encodes
          x in
      (
        w2,
        rw (a.accepted, e, answers w1, e2) refl,
        i2 ∙ i,
        o2 ∙ ap (λ l. l ++ frame handshake option_none reply_payload) o,
      )

  -- If a packet has arrived under the handshake's method on a stream that can be written, and the
  -- protocol refuses it without touching the world, with an error that can be encoded, then the
  -- handshake fails with this error, and all that is written is the error, under the error option.
  pub accept_handshake-refuses :
      {packet : p.Handshake} {payload error_payload rest : Bytes} {w w0 : W} (e : CrabError)
      → HasArrived handshake packet payload rest w w0
      → ack_codec.encode (from_error e) ≡ some error_payload
      → ((v : W)
          → p.on_handshake (metadata p conn.remote_address true packet) packet v ≡ (err e, v))
      → (w' : W) × (accept_handshake p conn w ≡ (err e, w'))
        × (outbox w' ≡ outbox w0 ++ frame handshake option_error error_payload)
  unfolding accept_handshake answer_handshake same_method method_code write_error
  accept_handshake-refuses {payload} {error_payload} e a encodes refuses =
      let (w1, e1, i, o, x) = packet_read a in
      let (w2, e2, i2, o2, _) =
        write_message-frame R ack_codec handshake option_error (from_error e) error_payload w1
          encodes x in
      (
        w2,
        rw (a.accepted, e1, refuses w1, e2) refl,
        o2 ∙ ap (λ l. l ++ frame handshake option_error error_payload) o,
      )

  other_method : (m : Method) → m ≢ handshake → same_method m handshake ≡ false
  unfolding same_method method_code
  other_method handshake h = absurd (h refl)
  other_method heartbeat h = refl
  other_method ack h = refl
  other_method error h = refl
  other_method command h = refl

  -- A packet that has arrived under another method than the handshake's is refused with
  -- BAD_MESSAGE_HEADER, and nothing is written.
  pub accept_handshake-other_method :
      {method : Method} {packet : p.Handshake} {payload rest : Bytes} {w w0 : W}
      → method ≢ handshake
      → HasArrived method packet payload rest w w0
      → (w' : W) × (accept_handshake p conn w ≡ (err (error_code Codes.bad_message_header), w'))
        × (outbox w' ≡ outbox w0)
  unfolding accept_handshake
  accept_handshake-other_method {method} differs a =
      let (w1, e, i, o, x) = packet_read a in
      (w1, rw (a.accepted, e, other_method method differs) refl, o)

  -- If the peer's reply, of at most 16 MiB, has arrived on the stream that is opened and that can
  -- be written, and the client's own packet can be encoded, the client has the peer under the
  -- reply's node id, and its own packet's frame is all that is written.
  pub handshake_as_client-meets :
      {mine reply : p.Handshake} {mine_payload payload rest : Bytes} {w w0 : W}
      → p.make_handshake w ≡ (ok mine, w)
      → conn.open_bi w ≡ (ok tt, w0)
      → p.handshake_codec.encode mine ≡ some mine_payload
      → writable w0 ≡ true
      → inbox w0 ≡ frame handshake option_none payload ++ rest
      → RoundTrips p.handshake_codec reply payload
      → length payload ≤ max_payload_size
      → (w' : W) × (handshake_as_client p conn w
          ≡ (ok (metadata p conn.remote_address false reply, holds reply), w'))
        × (inbox w' ≡ rest)
        × (outbox w' ≡ outbox w0 ++ frame handshake option_none mine_payload)
  unfolding handshake_as_client
  handshake_as_client-meets {mine} {mine_payload} {payload} {rest} {w} {w0} made opened encodes x
        arrived rt fits =
      let (w1, e1, i1, o1, x1) =
        write_message-frame R p.handshake_codec handshake option_none mine mine_payload w0 encodes
          x in
      let (w2, e2, i2, o2, x2) =
        read_message-arrived R p.handshake_codec handshake payload rest w1 rt fits (i1 ∙ arrived) in
      (w2, rw (made, opened, e1, e2) refl, i2, o2 ∙ o1)
