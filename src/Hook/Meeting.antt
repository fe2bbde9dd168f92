-- ===== src/Hook/Meeting.antt =====
-- A handshake between a node that connects and the node that accepts it.
use mathlib.Core.List.{append_cancel_left}
use crab_rs.Prelude.{◌≤◌, ◌≡◌, sym, ap, ◌∙◌, true, false, ◌++◌, length, ok}
use crab_rs.Prelude.Bytes.{Bytes}
use crab_rs.Message.{handshake, AckMessage, option_none}
use crab_rs.Transport.{Transport, Codec, RoundTrips, IsReliable}
use crab_rs.Stream.{max_payload_size, frame, write_message}
use crab_rs.Stream.RoundTrip.{write_message-frame}
use crab_rs.Hook.{Connection, Protocol, holds, metadata, accept_handshake, handshake_as_client}
use crab_rs.Hook.Laws.{accept_handshake-answers, handshake_as_client-meets}

module _ {W Handle : Type 0} (p : Protocol W Handle) where
  -- A packet of a handshake: its encoding is decoded, and is of at most 16 MiB.
  pub record IsPacket (packet : p.Handshake) (payload : Bytes) : Type 0 where
    pub encoded : RoundTrips p.handshake_codec packet payload
    pub fits : length payload ≤ max_payload_size

-- The two nodes run the same program, each in a world of its own: `here` is the connection of the
-- node that accepts, `there` the one of the node that connects.
module _ {W Handle : Type 0} ⦃t : Transport W⦄ ⦃ack_codec : Codec AckMessage⦄ (R : IsReliable t)
    (p : Protocol W Handle) (here there : Connection W) where
  open R use {inbox, outbox, writable}

  -- If the two nodes have a stream that both can write, their packets can be encoded and decoded, the
  -- accepting node's protocol answers the packet without touching the world, and what either node
  -- writes arrives at the other, then the handshake succeeds on both sides: the accepting node has
  -- the other under the node id of the packet it sent, and the connecting node has the accepting one
  -- under the node id of the reply.
  pub handshakes-meet :
      {mine reply : p.Handshake} {payload reply_payload : Bytes} {s s0 w w0 w1 : W}
      (sent answered rest more : Bytes)
      → IsPacket p mine payload
      → IsPacket p reply reply_payload
      → p.make_handshake w ≡ (ok mine, w)
      → there.open_bi w ≡ (ok tt, w0)
      → writable w0 ≡ true
      → write_message p.handshake_codec handshake option_none mine w0 ≡ (ok tt, w1)
      → outbox w1 ≡ outbox w0 ++ sent
      → here.accept_bi s ≡ (ok tt, s0)
      → writable s0 ≡ true
      → inbox s0 ≡ sent ++ rest
      → ((v : W) → p.on_handshake (metadata p here.remote_address true mine) mine v ≡ (ok reply, v))
      → outbox (accept_handshake p here s).1 ≡ outbox s0 ++ answered
      → inbox w0 ≡ answered ++ more
      → ((accept_handshake p here s).0 ≡ ok (metadata p here.remote_address true mine, holds mine))
        × ((handshake_as_client p there w).0
            ≡ ok (metadata p there.remote_address false reply, holds reply))
  handshakes-meet {mine} {reply} {payload} {reply_payload} {s} {s0} {w} {w0} sent answered rest more
        a b made opened x wrote out accepted y arrived answers out' arrived' =
      let (w2, e, i, o, z) =
        write_message-frame R p.handshake_codec handshake option_none mine payload w0 a.encoded.0
          x in
      let f = frame handshake option_none payload in
      let g = frame handshake option_none reply_payload in
      let first : sent ≡ f =
        append_cancel_left (outbox w0) sent f
          (sym out ∙ ap (λ q. outbox q.1) (sym wrote ∙ e) ∙ o) in
      let (s', run, i', o') =
        accept_handshake-answers R p here
          (record {
            accepted = accepted;
            arrived = arrived ∙ ap (λ l. l ++ rest) first;
            writes = y;
            fits = a.fits;
            encoded = a.encoded;
          })
          b.encoded.0 answers in
      let second : answered ≡ g =
        append_cancel_left (outbox s0) answered g (sym out' ∙ ap (λ q. outbox q.1) run ∙ o') in
      let (w', met, i2, o2) =
        handshake_as_client-meets R p there made opened a.encoded.0 x
          (arrived' ∙ ap (λ l. l ++ more) second) b.encoded b.fits in
      (ap (λ q. q.0) run, ap (λ q. q.0) met)
