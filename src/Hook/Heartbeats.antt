-- ===== src/Hook/Heartbeats.antt =====
-- What the two sides of a heartbeat do over reliable streams.
use crab_rs.Prelude.{
  ◌≤◌, ◌≡◌, refl, ap, ◌∙◌, true, some, ◌++◌, arith, length, ok, err, ◌==◌, if◌then◌else◌,
}
use crab_rs.Prelude.Bytes.{Bytes}
use crab_rs.Errors.{CrabError, error_code}
use crab_rs.Errors.Codes
use crab_rs.Message.{heartbeat, AckMessage, option_none, option_error, from_error, success}
use crab_rs.Transport.{Transport, Codec, RoundTrips, IsReliable}
use crab_rs.Stream.{max_payload_size, frame, read_message, write_error}
use crab_rs.Stream.RoundTrip.{write_message-frame}
use crab_rs.Stream.Arrived.{read_message-arrived}
use crab_rs.Types.{NodeMetadata}
use crab_rs.Hook.{
  Protocol, handle_heartbeat, serve_heartbeat, finish_heartbeat, heartbeat_as_client,
}

module _ {W Handle : Type 0} ⦃t : Transport W⦄ ⦃ack : Codec AckMessage⦄ (R : IsReliable t)
    (p : Protocol W Handle) (meta : NodeMetadata) where
  open R use {inbox, outbox, writable}

  -- The peer's heartbeat has arrived, and the answer can be written.
  pub record HasBeaten (body : p.Heartbeat) (payload rest : Bytes) (w : W) : Type 0 where
    pub arrived : inbox w ≡ frame heartbeat option_none payload ++ rest
    pub writes : writable w ≡ true
    pub fits : length payload ≤ max_payload_size
    pub encoded : RoundTrips p.heartbeat_codec body payload

  -- The protocol makes heartbeats, and takes those of its peer, without touching the world.
  pub record Beats (body mine : p.Heartbeat) (mine_payload : Bytes) : Type 0 where
    pub made : (v : W) → p.make_heartbeat v ≡ (ok mine, v)
    pub taken : (v : W) → (kept : p.Heartbeat) × (p.on_heartbeat meta body v ≡ (ok kept, v))
    pub encodes : p.heartbeat_codec.encode mine ≡ some mine_payload

  beat_read :
      {body : p.Heartbeat} {payload rest : Bytes} {w : W}
      → HasBeaten body payload rest w
      → (w1 : W) × (h : _) × (read_message p.heartbeat_codec w ≡ (ok (h, body), w1))
        × (inbox w1 ≡ rest)
        × (outbox w1 ≡ outbox w)
        × (writable w1 ≡ true)
  beat_read {payload} {rest} {w} b =
      let (w1, e, i, o, x) =
        read_message-arrived R p.heartbeat_codec heartbeat payload rest w b.encoded b.fits
          b.arrived in
      (w1, _, e, i, o, x ∙ b.writes)

  -- If the peer's heartbeat and then its acknowledgement have arrived on a stream that can be
  -- written, and the protocol takes the heartbeat and makes its own without touching the world,
  -- the server writes its own heartbeat and nothing else; it succeeds if the acknowledgement's
  -- code is that of no error, and its error is that code otherwise.
  pub serve_heartbeat-answers :
      {body mine : p.Heartbeat} {payload mine_payload ack_payload rest : Bytes} {w : W}
      (a : AckMessage)
      → HasBeaten body payload (frame heartbeat option_none ack_payload ++ rest) w
      → Beats body mine mine_payload
      → RoundTrips ack a ack_payload
      → length ack_payload ≤ max_payload_size
      → (w' : W) × (serve_heartbeat p meta w
          ≡ (if a.code == Codes.no_error then ok tt else err (error_code a.code), w'))
        × (inbox w' ≡ rest)
        × (outbox w' ≡ outbox w ++ frame heartbeat option_none mine_payload)
  unfolding serve_heartbeat handle_heartbeat finish_heartbeat
  serve_heartbeat-answers {body} {mine} {payload} {mine_payload} {ack_payload} {rest} {w} a b s rt
        fits =
      let (w1, h, e1, i1, o1, x1) = beat_read b in
      let (kept, e2) = s.taken w1 in
      let (w2, e3, i2, o2, x2) =
        write_message-frame R p.heartbeat_codec heartbeat option_none mine mine_payload w1 s.encodes
          x1 in
      let (w3, e4, i3, o3, x3) =
        read_message-arrived R ack heartbeat ack_payload rest w2 rt fits (i2 ∙ i1) in
      (
        w3,
        rw (e1, e2, s.made w1, e3, e4) (ground arith),
        i3,
        o3 ∙ o2 ∙ ap (λ l. l ++ frame heartbeat option_none mine_payload) o1,
      )

  -- If the peer's heartbeat has arrived on a stream that can be written, and the protocol does not
  -- take it, without touching the world, its error, if it can be encoded, is written under the
  -- error option, and the server's heartbeat succeeds.
  pub serve_heartbeat-forgives :
      {body : p.Heartbeat} {payload error_payload rest : Bytes} {w : W} (e : CrabError)
      → HasBeaten body payload rest w
      → ((v : W) → p.on_heartbeat meta body v ≡ (err e, v))
      → ack.encode (from_error e) ≡ some error_payload
      → (w' : W) × (serve_heartbeat p meta w ≡ (ok tt, w'))
        × (inbox w' ≡ rest)
        × (outbox w' ≡ outbox w ++ frame heartbeat option_error error_payload)
  unfolding serve_heartbeat handle_heartbeat write_error
  serve_heartbeat-forgives {error_payload} e b refuses encodes =
      let (w1, h, e1, i1, o1, x1) = beat_read b in
      let (w2, e2, i2, o2, x2) =
        write_message-frame R ack heartbeat option_error (from_error e) error_payload w1 encodes
          x1 in
      (
        w2,
        rw (e1, refuses w1, e2) refl,
        i2 ∙ i1,
        o2 ∙ ap (λ l. l ++ frame heartbeat option_error error_payload) o1,
      )

  -- A client at whose stream, which can be written, the peer's heartbeat has arrived, and whose
  -- protocol takes it and makes its own without touching the world, succeeds, and writes its own
  -- heartbeat and then the acknowledgement of no error.
  pub heartbeat_as_client-answers :
      {body mine : p.Heartbeat} {payload mine_payload ack_payload rest : Bytes} {w : W}
      → HasBeaten body payload rest w
      → Beats body mine mine_payload
      → ack.encode success ≡ some ack_payload
      → (w' : W) × (heartbeat_as_client p meta w ≡ (ok tt, w'))
        × (inbox w' ≡ rest)
        × (outbox w'
            ≡ (outbox w ++ frame heartbeat option_none mine_payload)
              ++ frame heartbeat option_none ack_payload)
  unfolding heartbeat_as_client handle_heartbeat
  heartbeat_as_client-answers {body} {mine} {payload} {mine_payload} {ack_payload} {rest} {w} b s
        encodes =
      let (w1, e1, i1, o1, x1) =
        write_message-frame R p.heartbeat_codec heartbeat option_none mine mine_payload w s.encodes
          b.writes in
      let (w2, e2, i2, o2, x2) =
        read_message-arrived R p.heartbeat_codec heartbeat payload rest w1 b.encoded b.fits
          (i1 ∙ b.arrived) in
      let (kept, e3) = s.taken w2 in
      let (w3, e4, i3, o3, x3) =
        write_message-frame R ack heartbeat option_none success ack_payload w2 encodes (x2 ∙ x1) in
      (
        w3,
        rw (s.made w, e1, e2, e3, e4) refl,
        i3 ∙ i2,
        o3 ∙ ap (λ l. l ++ frame heartbeat option_none ack_payload) (o2 ∙ o1),
      )
