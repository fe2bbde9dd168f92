-- ===== src/Stream/Arrived.antt =====
-- A message that has arrived, on a reliable stream.
use crab_rs.Prelude.{◌≡◌, ◌≤◌, refl, ap, ◌∙◌, arith, ◌++◌, length, ok}
use crab_rs.Prelude.Bytes.{Bytes}
use crab_rs.Message.{Method, AckMessage, option_none, success, into_result}
use crab_rs.Transport.{Transport, Codec, RoundTrips, IsReliable}
use crab_rs.Stream.{max_payload_size, frame, read_message, read_ack}
use crab_rs.Stream.RoundTrip.{
  header_for, read_message-frame, decode_payload-ok, decode_from_slice-ok,
}

module _ {W : Type 0} ⦃t : Transport W⦄ ⦃ack : Codec AckMessage⦄ (R : IsReliable t) {M : Type 0}
    (c : Codec M) where
  -- A message at the front of the inbox, under no option, is read, and what follows it is left.
  pub read_message-arrived :
      {m : M} (method : Method) (payload rest : Bytes) (w : W)
      → RoundTrips c m payload
      → length payload ≤ max_payload_size
      → R.inbox w ≡ frame method option_none payload ++ rest
      → (w' : W) × (read_message c w ≡ (ok (header_for method option_none payload, m), w'))
        × (R.inbox w' ≡ rest)
        × (R.outbox w' ≡ R.outbox w)
        × (R.writable w' ≡ R.writable w)
  read_message-arrived {m} method payload rest w rt fits arrived =
      let (w1, e, i, o, x) =
        read_message-frame R c method option_none payload rest w (omega arith) fits arrived in
      let decoded =
        decode_payload-ok ack c (header_for method option_none payload) payload refl
          (decode_from_slice-ok c m payload rt) in
      (w1, e ∙ ap (λ r. (r, w1)) decoded, i, o, x)

module _ {W : Type 0} ⦃t : Transport W⦄ ⦃ack : Codec AckMessage⦄ (R : IsReliable t) where
  -- An acknowledgement of success that has arrived.
  pub read_ack-arrived :
      (method : Method) (payload rest : Bytes) (w : W)
      → RoundTrips ack success payload
      → length payload ≤ max_payload_size
      → R.inbox w ≡ frame method option_none payload ++ rest
      → (w' : W) × (read_ack w ≡ (ok tt, w'))
        × (R.inbox w' ≡ rest)
        × (R.outbox w' ≡ R.outbox w)
        × (R.writable w' ≡ R.writable w)
  unfolding read_ack into_result
  read_ack-arrived method payload rest w rt fits arrived =
      let (w', e, i, o, x) = read_message-arrived R ack method payload rest w rt fits arrived in
      (w', rw e refl, i, o, x)
