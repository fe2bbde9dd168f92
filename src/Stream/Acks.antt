-- ===== src/Stream/Acks.antt =====
-- Messages that are acknowledged, on reliable streams.
use crab_rs.Prelude.{ℕ, ◌≤◌, ◌≡◌, refl, ap, ◌∙◌, true, Option, some, ◌++◌, length, Result, ok, err}
use crab_rs.Prelude.Bytes.{Bytes}
use crab_rs.Errors.{CrabError}
use crab_rs.Message.{
  Method, AckMessage, option_none, option_error, success, from_error, into_result,
}
use crab_rs.Transport.{Transport, Codec, RoundTrips, IsReliable}
use crab_rs.Stream.{
  max_payload_size, frame, validate, write_error, read_ack, read_and_ack, write_and_ack,
}
use crab_rs.Stream.RoundTrip.{header_for, write_message-frame}
use crab_rs.Stream.Arrived.{read_message-arrived}

module _ {W : Type 0} ⦃t : Transport W⦄ ⦃ack : Codec AckMessage⦄ (R : IsReliable t) {M : Type 0}
    (c : Codec M) where
  open R use {inbox, outbox, writable}

  module _ {m : M} (valid : Option (M → Result CrabError M)) (method : Method)
      (payload answer rest : Bytes) (w : W) (encoded : RoundTrips c m payload)
      (fits : length payload ≤ max_payload_size)
      (arrived : inbox w ≡ frame method option_none payload ++ rest)
      (writes : writable w ≡ true) where
    -- On a stream that can be written, a message that has arrived without an option and that is
    -- valid is returned as the validation gives it, and the peer gets the acknowledgement of
    -- success, if it can be encoded, under the message's method.
    pub read_and_ack-accepts :
        {m' : M}
        → validate valid m ≡ ok m'
        → ack.encode success ≡ some answer
        → (w' : W) × (read_and_ack c valid w ≡ (ok (header_for method option_none payload, m'), w'))
          × (inbox w' ≡ rest)
          × (outbox w' ≡ outbox w ++ frame method option_none answer)
    unfolding read_and_ack
    read_and_ack-accepts good encodes =
        let (w1, e1, i1, o1, x1) =
          read_message-arrived R c method payload rest w encoded fits arrived in
        let (w2, e2, i2, o2, x2) =
          write_message-frame R ack method option_none success answer w1 encodes (x1 ∙ writes) in
        (
          w2,
          rw (e1, good, e2) refl,
          i2 ∙ i1,
          o2 ∙ ap (λ l. l ++ frame method option_none answer) o1,
        )

    -- On a stream that can be written, a message that has arrived without an option and that is
    -- not valid is refused with the error of the validation, and the peer gets that error, if it
    -- can be encoded, under the message's method and the error option.
    pub read_and_ack-rejects :
        (e : CrabError)
        → validate valid m ≡ err e
        → ack.encode (from_error e) ≡ some answer
        → (w' : W) × (read_and_ack c valid w ≡ (err e, w'))
          × (inbox w' ≡ rest)
          × (outbox w' ≡ outbox w ++ frame method option_error answer)
    unfolding read_and_ack write_error
    read_and_ack-rejects e bad encodes =
        let (w1, e1, i1, o1, x1) =
          read_message-arrived R c method payload rest w encoded fits arrived in
        let (w2, e2, i2, o2, x2) =
          write_message-frame R ack method option_error (from_error e) answer w1 encodes
            (x1 ∙ writes) in
        (
          w2,
          rw (e1, bad, e2) refl,
          i2 ∙ i1,
          o2 ∙ ap (λ l. l ++ frame method option_error answer) o1,
        )

  -- The writer of a message that can be encoded, on a stream that can be written, gets what the
  -- acknowledgement that has arrived without an option says, whatever its method, and has written
  -- the message and nothing else.
  pub write_and_ack-result :
      (method answer_method : Method) (option : ℕ) (m : M) (a : AckMessage)
      (payload answer rest : Bytes) (w : W)
      → c.encode m ≡ some payload
      → writable w ≡ true
      → inbox w ≡ frame answer_method option_none answer ++ rest
      → RoundTrips ack a answer
      → length answer ≤ max_payload_size
      → (w' : W) × (write_and_ack c method option m w ≡ (into_result a, w'))
        × (inbox w' ≡ rest)
        × (outbox w' ≡ outbox w ++ frame method option payload)
  unfolding write_and_ack read_ack
  write_and_ack-result method answer_method option m a payload answer rest w e x arrived rt fits =
      let (w1, e1, i1, o1, x1) = write_message-frame R c method option m payload w e x in
      let (w2, e2, i2, o2, x2) =
        read_message-arrived R ack answer_method answer rest w1 rt fits (i1 ∙ arrived) in
      (w2, rw (e1, e2) refl, i2, o2 ∙ o1)
