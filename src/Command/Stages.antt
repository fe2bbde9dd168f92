-- ===== src/Command/Stages.antt =====
-- A task of two stages on a stream where the other node's answers have arrived.
use crab_rs.Prelude.{◌≡◌, ◌≤◌, refl, subst, ap, ◌∙◌, true, [], ◌∷◌, ◌++◌, length, Result, ok}
use crab_rs.Prelude.Bytes.{Bytes}
use crab_rs.Errors.{CrabError}
use crab_rs.Message.{Method, MessageHeader, AckMessage, command, option_none}
use crab_rs.Transport.{Transport, Codec, RoundTrips, IsReliable}
use crab_rs.Stream.{max_payload_size, frame, read_message, read_ack, write_message}
use crab_rs.Stream.RoundTrip.{header_for}
use crab_rs.Stream.Arrived.{read_message-arrived, read_ack-arrived}
use crab_rs.Stream.Keeps.{KeptByStream, write_message-Keeps, read_message-Keeps, read_ack-Keeps}
use crab_rs.Tasks.{
  Sender, Receiver, Executor, send_or, read_initial, run_executor, multi_stage_task,
}
use crab_rs.Tasks.Reports.{Reported}
use crab_rs.Command.Remote.{AckEncodes}
use crab_rs.Command.Disk.{SameStream}

module _ {W I T : Type 0} ⦃t : Transport W⦄ (R : IsReliable t) {tx : Sender W (Result CrabError I)}
    (r : Reported t tx) (rx : Receiver W (Result CrabError (Executor W T)))
    (executor : Executor W T) (P : W → Type 0) where
  -- A caller that is there to take the first answer, and then sends its executor. Neither touches
  -- the stream or what `P` says.
  pub record IsCaller : Type 0 where
    pub takes :
        (v : Result CrabError I) (w : W)
        → (w' : W) × (tx v w ≡ (true, w')) × SameStream R w w' × (P w → P w')
    pub sends :
        (w : W)
        → (w' : W) × (rx w ≡ (ok (ok executor), w'))
          × SameStream R w w'
          × (r.reported w' ≡ r.reported w)
          × (P w → P w')

module _ {W C I T : Type 0} ⦃t : Transport W⦄ ⦃ack : Codec AckMessage⦄ (c : Codec C) (cmd : C)
    (i : Codec I) (tx : Sender W (Result CrabError I))
    (rx : Receiver W (Result CrabError (Executor W T))) (executor : Executor W T) where
  multi_stage_task-steps :
      (x : MessageHeader × I) (w w1 w2 w3 w4 w5 : W)
      → write_message c command option_none cmd w ≡ (ok tt, w1)
      → read_ack w1 ≡ (ok tt, w2)
      → read_message i w2 ≡ (ok x, w3)
      → tx (ok x.1) w3 ≡ (true, w4)
      → rx w4 ≡ (ok (ok executor), w5)
      → multi_stage_task c cmd i tx rx w ≡ run_executor (ok executor) w5
  unfolding multi_stage_task read_initial send_or
  multi_stage_task-steps x w w1 w2 w3 w4 w5 e1 e2 e3 e4 e5 =
      rw e1 (rw e2 (rw e3 (rw e4 (rw e5 refl))))

  -- If both answers of the other node have arrived after the command was written, and the caller is
  -- there, the caller is told the second one, and what is left is the executor's stage, on a stream
  -- where what follows the answers has arrived.
  pub multi_stage_task-runs :
      (R : IsReliable t) (r : Reported t tx) {P : W → Type 0} (caller : IsCaller R r rx executor P)
      (kept_P : KeptByStream t P) (method : Method) (ack_payload payload rest : Bytes) (m : I)
      (w w1 : W)
      → P w
      → AckEncodes ack ack_payload
      → RoundTrips i m payload
      → length payload ≤ max_payload_size
      → write_message c command option_none cmd w ≡ (ok tt, w1)
      → R.inbox w1
        ≡ frame method option_none ack_payload ++ (frame method option_none payload ++ rest)
      → (u : W) × (multi_stage_task c cmd i tx rx w ≡ run_executor (ok executor) u)
        × (R.inbox u ≡ rest)
        × (R.outbox u ≡ R.outbox w1)
        × (R.writable u ≡ R.writable w1)
        × (r.reported u ≡ r.reported w ++ ok m ∷ [])
        × P u
  multi_stage_task-runs R r {P} caller kept_P method ack_payload payload rest m w w1 holds acks rt
        fits e1 arrived =
      let kept = r.by_stream (r.reported w) in
      let k1 : r.reported w1 ≡ r.reported w =
        subst (λ p. r.reported p.1 ≡ r.reported w) e1
          ((write_message-Keeps kept c command option_none cmd).at w refl) in
      let p1 : P w1 =
        subst (λ p. P p.1) e1 ((write_message-Keeps kept_P c command option_none cmd).at w holds) in
      let (w2, e2, i2, o2, x2) =
        read_ack-arrived R method ack_payload (frame method option_none payload ++ rest) w1
          acks.round acks.fits arrived in
      let k2 : r.reported w2 ≡ r.reported w =
        subst (λ p. r.reported p.1 ≡ r.reported w) e2 ((read_ack-Keeps kept).at w1 k1) in
      let p2 : P w2 = subst (λ p. P p.1) e2 ((read_ack-Keeps kept_P).at w1 p1) in
      let (w3, e3, i3, o3, x3) = read_message-arrived R i method payload rest w2 rt fits i2 in
      let k3 : r.reported w3 ≡ r.reported w =
        subst (λ p. r.reported p.1 ≡ r.reported w) e3 ((read_message-Keeps kept i).at w2 k2) in
      let p3 : P w3 = subst (λ p. P p.1) e3 ((read_message-Keeps kept_P i).at w2 p2) in
      let (w4, e4, (i4, o4, x4), p4) = caller.takes (ok m) w3 in
      let k4 : r.reported w4 ≡ r.reported w ++ ok m ∷ [] =
        subst (λ p. r.reported p.1 ≡ r.reported w ++ ok m ∷ []) e4
          (r.by_send (ok m) w3 ∙ ap (λ l. l ++ ok m ∷ []) k3) in
      let (w5, e5, (i5, o5, x5), k5, p5) = caller.sends w4 in
      (
        w5,
        multi_stage_task-steps (header_for method option_none payload, m) w w1 w2 w3 w4 w5 e1 e2 e3
            e4 e5,
        i5 ∙ i4 ∙ i3,
        o5 ∙ o4 ∙ o3 ∙ o2,
        x5 ∙ x4 ∙ x3 ∙ x2,
        k5 ∙ k4,
        p5 (p4 p3),
      )
