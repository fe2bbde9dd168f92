-- ===== src/Command/Remote.antt =====
-- A simple command from its caller to the other node's handler and back.
use Prim.Native.Nat.{bit_or}
use crab_rs.Prelude.{
  none, append-nil, Option-cases, inl, inr, ℕ, ◌≤◌, ◌≡◌, refl, sym, subst, ap, ◌∙◌, arith, [], ◌++◌,
  length, some, Result, ok, err, true,
}
use crab_rs.Prelude.Bytes.{Bytes}
use crab_rs.Prelude.Io.{Io, branch}
use crab_rs.Errors.{CrabError}
use crab_rs.Message.{Method, MessageHeader, AckMessage, option_error, success, from_error}
use crab_rs.Transport.{Transport, Codec, RoundTrips, IsReliable}
use crab_rs.Stream.{encode_message, max_payload_size, frame, write_message, write_error}
use crab_rs.Stream.RoundTrip.{write_message-frame}
use crab_rs.Stream.Keeps.{KeptByStream, write_message-Keeps}
use crab_rs.Command.Handlers.{simple_handler}

-- The acknowledgement of success has an encoding that decodes back.
pub record AckEncodes (ack : Codec AckMessage) (payload : Bytes) : Type 0 where
  pub round : RoundTrips ack success payload
  pub fits : length payload ≤ max_payload_size

module _ {W : Type 0} ⦃t : Transport W⦄ ⦃ack : Codec AckMessage⦄ (R : IsReliable t) where
  open R use {inbox, outbox, writable}

  write_unencoded :
      {M : Type 0} (c : Codec M) (method : Method) (option : ℕ) (m : M) (w : W)
      → c.encode m ≡ none
      → outbox (write_message c method option m w).1 ≡ outbox w
  unfolding write_message encode_message
  write_unencoded c method option m w e = ground arith

  -- Whatever becomes of a message, what is written is added to what was written before.
  write_message-appends :
      {M : Type 0} (c : Codec M) (method : Method) (option : ℕ) (m : M) (w : W)
      → writable w ≡ true
      → (more : Bytes) × (outbox (write_message c method option m w).1 ≡ outbox w ++ more)
  write_message-appends c method option m w x = elim (Option-cases (c.encode m)) [
    | inl e ↦ ([], write_unencoded c method option m w e ∙ sym (append-nil (outbox w)))
    | inr (payload, e) ↦
        let (w', e', i, o, _) = write_message-frame R c method option m payload w e x in
        (frame method option payload, ap (λ p. outbox p.1) e' ∙ o)
  ]

  -- An action that does not touch the stream.
  pub record LeavesStream {M : Type 0} (m : Io CrabError W M) : Type 0 where
    pub outbox_kept : (w : W) → outbox (m w).1 ≡ outbox w
    pub writable_kept : (w : W) → writable (m w).1 ≡ writable w

  module _ {M : Type 0} (resp : Codec M) (make_response : Io CrabError W M)
      (h : MessageHeader) where
    -- The handler from the point where the acknowledgement of success is written.
    pub respond : Result CrabError M × W → Result CrabError (Unit {0}) × W
    respond p = branch p (write_message resp h.method h.option) (write_error h.method h.option)

    respond-appends :
        (p : Result CrabError M × W)
        → writable p.1 ≡ true
        → (more : Bytes) × (outbox (respond p).1 ≡ outbox p.1 ++ more)
    unfolding respond write_error
    respond-appends (ok m, w) x = write_message-appends resp h.method h.option m w x
    respond-appends (err e, w) x = write_message-appends ack h.method _ (from_error e) w x

    module _ (l : LeavesStream make_response) (ack_payload : Bytes)
        (acks : AckEncodes ack ack_payload) (s : W) (x : writable s ≡ true) where
      -- The acknowledgement of success comes first, whatever the response.
      handler-acks :
          (v : W) × (write_message ack h.method h.option success s ≡ (ok tt, v))
          × (outbox v ≡ outbox s ++ frame h.method h.option ack_payload)
          × (writable v ≡ true)
          × (simple_handler resp make_response h s ≡ respond (make_response v))
      unfolding simple_handler respond
      handler-acks =
          let (v, e, i, o, y) =
            write_message-frame R ack h.method h.option success ack_payload s acks.round.0 x in
          (v, e, o, y, rw e refl)

      pub handler-appends :
          (more : Bytes) × (outbox (simple_handler resp make_response h s).1
            ≡ (outbox s ++ frame h.method h.option ack_payload) ++ more)
      handler-appends =
          let (v, e, o, y, run) = handler-acks in
          let (more, added) = respond-appends (make_response v) (l.writable_kept v ∙ y) in
          (more, ap (λ p. outbox p.1) run ∙ added ∙ ap (λ b. b ++ more) (l.outbox_kept v ∙ o))

      module _ {P : W → Type 0} (kept : KeptByStream t P) (holds : P s) where
        -- The response as it is made after the acknowledgement.
        made_after :
            (r : Result CrabError M)
            → ((v : W) → P v → (make_response v).0 ≡ r)
            → (u : W) × (simple_handler resp make_response h s ≡ respond (r, u))
              × (outbox u ≡ outbox s ++ frame h.method h.option ack_payload)
              × (writable u ≡ true)
        made_after r made =
            let (v, e, o, y, run) = handler-acks in
            let still : P v =
              subst (λ p. P p.1) e
                ((write_message-Keeps kept ack h.method h.option success).at s holds) in
            let u = (make_response v).1 in
            (
              u,
              run ∙ ap (λ q. respond (q, u)) (made v still),
              l.outbox_kept v ∙ o,
              l.writable_kept v ∙ y,
            )

        pub handler-responds :
            (m : M) (payload : Bytes)
            → ((v : W) → P v → (make_response v).0 ≡ ok m)
            → resp.encode m ≡ some payload
            → outbox (simple_handler resp make_response h s).1
              ≡ (outbox s ++ frame h.method h.option ack_payload) ++ frame h.method h.option payload
        unfolding respond
        handler-responds m payload made enc =
            let (u, run, o, y) = made_after (ok m) made in
            let (u', e, _, o', _) =
              write_message-frame R resp h.method h.option m payload u enc y in
            ap (λ p. outbox p.1) (run ∙ e) ∙ o' ∙ ap (λ b. b ++ frame h.method h.option payload) o

        pub handler-fails :
            (e : CrabError) (payload : Bytes)
            → ((v : W) → P v → (make_response v).0 ≡ err e)
            → ack.encode (from_error e) ≡ some payload
            → outbox (simple_handler resp make_response h s).1
              ≡ (outbox s ++ frame h.method h.option ack_payload)
                ++ frame h.method (bit_or h.option option_error) payload
        unfolding respond write_error
        handler-fails e payload made enc =
            let (u, run, o, y) = made_after (err e) made in
            let o' = bit_or h.option option_error in
            let (u', e', _, added, _) =
              write_message-frame R ack h.method o' (from_error e) payload u enc y in
            ap (λ p. outbox p.1) (run ∙ e') ∙ added ∙ ap (λ b. b ++ frame h.method o' payload) o
