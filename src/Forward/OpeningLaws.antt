-- ===== src/Forward/OpeningLaws.antt =====
-- What the peer of a forwarding handler is told, and when the data is relayed.
use Prim.Native.Nat.{bit_or}
use crab_rs.Prelude.{◌≡◌, refl, subst, ap, ◌∙◌, ◌++◌, some, Result, ok, err, true}
use crab_rs.Prelude.Bytes.{Bytes}
use crab_rs.Prelude.Io.{Io, raise, branch, next, ◌>>◌}
use crab_rs.Errors.{CrabError}
use crab_rs.Message.{MessageHeader, AckMessage, option_error, success, from_error}
use crab_rs.Transport.{Transport, Codec, IsReliable}
use crab_rs.Stream.{frame, read_ack, write_message, write_error}
use crab_rs.Stream.RoundTrip.{write_message-frame}
use crab_rs.Stream.Keeps.{KeptByStream, write_message-Keeps}
use crab_rs.Types.{SocketAddr}
use crab_rs.Command.Remote.{AckEncodes, LeavesStream}
use crab_rs.Forward.Opening.{open_and_relay}

module _ {W : Type 0} ⦃t : Transport W⦄ ⦃ack : Codec AckMessage⦄ (R : IsReliable t)
    (addresses : Codec SocketAddr) (open_socket : Io CrabError W SocketAddr)
    (relay : Io CrabError W (Unit {0})) (h : MessageHeader) (l : LeavesStream R open_socket)
    (ack_payload : Bytes) (acks : AckEncodes ack ack_payload) (s : W) (x : R.writable s ≡ true)
    {P : W → Type 0} (kept : KeptByStream t P) (holds : P s) where
  abbrev acknowledged : Bytes
  acknowledged = R.outbox s ++ frame h.method h.option ack_payload

  -- The stream after the acknowledgement, when the socket is opened.
  at_opening :
      (v : W) × (write_message ack h.method h.option success s ≡ (ok tt, v))
      × P v
      × (R.outbox v ≡ acknowledged)
      × (R.writable v ≡ true)
  at_opening =
      let (v, e, i, o, y) =
        write_message-frame R ack h.method h.option success ack_payload s acks.round.0 x in
      (
        v,
        e,
        subst (λ p. P p.1) e ((write_message-Keeps kept ack h.method h.option success).at s holds),
        o,
        y,
      )

  -- What follows the attempt to open the socket.
  abbrev told : Result CrabError SocketAddr × W → Result CrabError (Unit {0}) × W
  told p =
      branch p (write_message addresses h.method h.option)
        (λ e. write_error h.method h.option e >> raise e)

  abbrev go_on : Result CrabError (Unit {0}) × W → Result CrabError (Unit {0}) × W
  go_on p = next p (λ _. read_ack >> relay)

  opening :
      (r : Result CrabError SocketAddr)
      → ((v : W) → P v → (open_socket v).0 ≡ r)
      → (u : W) × (open_and_relay addresses open_socket relay h s ≡ go_on (told (r, u)))
        × (R.outbox u ≡ acknowledged)
        × (R.writable u ≡ true)
  unfolding open_and_relay
  opening r opens =
      let (v, e, p, o, y) = at_opening in
      let run : open_and_relay addresses open_socket relay h s ≡ go_on (told (open_socket v)) =
        rw e refl in
      let u = (open_socket v).1 in
      (
        u,
        run ∙ ap (λ q. go_on (told (q, u))) (opens v p),
        l.outbox_kept v ∙ o,
        l.writable_kept v ∙ y,
      )

  -- On a stream that can be written, if the socket cannot be opened, the peer, who was told
  -- success, is told the error after it, and the handler fails with it, provided the error can be
  -- encoded and the opening does not touch the stream.
  pub open_and_relay-refused :
      (e : CrabError) (payload : Bytes)
      → ((v : W) → P v → (open_socket v).0 ≡ err e)
      → ack.encode (from_error e) ≡ some payload
      → ((open_and_relay addresses open_socket relay h s).0 ≡ err e)
        × (R.outbox (open_and_relay addresses open_socket relay h s).1
            ≡ acknowledged ++ frame h.method (bit_or h.option option_error) payload)
  unfolding write_error
  open_and_relay-refused e payload fails enc =
      let (u, run, o, y) = opening (err e) fails in
      let (u', e', _, o', _) =
        write_message-frame R ack h.method (bit_or h.option option_error) (from_error e) payload u
          enc y in
      let ends : go_on (told (err e, u)) ≡ (err e, u') = rw e' refl in
      (
        ap (λ p. p.0) (run ∙ ends),
        ap (λ p. R.outbox p.1) (run ∙ ends)
            ∙ o'
            ∙ ap (λ b. b ++ frame h.method (bit_or h.option option_error) payload) o,
      )

  -- On a stream that can be written, if the socket is opened, the peer is told success and then the
  -- socket's address, and the data is relayed when the peer's acknowledgement was read, provided
  -- the address can be encoded and the opening does not touch the stream.
  pub open_and_relay-opened :
      (a : SocketAddr) (payload : Bytes)
      → ((v : W) → P v → (open_socket v).0 ≡ ok a)
      → addresses.encode a ≡ some payload
      → (u : W) × (open_and_relay addresses open_socket relay h s ≡ (read_ack >> relay) u)
        × (R.outbox u ≡ acknowledged ++ frame h.method h.option payload)
  open_and_relay-opened a payload opens enc =
      let (u, run, o, y) = opening (ok a) opens in
      let (u', e', _, o', _) =
        write_message-frame R addresses h.method h.option a payload u enc y in
      let ends : go_on (told (ok a, u)) ≡ (read_ack >> relay) u' = rw e' refl in
      (u', run ∙ ends, o' ∙ ap (λ b. b ++ frame h.method h.option payload) o)
