-- ===== src/Forward/Calls.antt =====
-- A caller of forwarding on a stream where the other node's handler has written its answers.
use Prim.Native.Nat.{bit_or}
use mathlib.Core.List.{append_cancel_left}
use crab_rs.Prelude.{
  ◌≤◌, ◌≡◌, sym, ap, ◌∙◌, List, [], ◌∷◌, ◌++◌, append_assoc, length, Result, ok, err, true,
}
use crab_rs.Prelude.Bytes.{Bytes}
use crab_rs.Prelude.Io.{Io, ◌>>◌}
use crab_rs.Prelude.Io.Keeps.{Keeps}
use crab_rs.Errors.{CrabError, error_code, err_no}
use crab_rs.Message.{MessageHeader, AckMessage, command, option_none, option_error, from_error}
use crab_rs.Transport.{Transport, Codec, RoundTrips, IsReliable}
use crab_rs.Stream.{max_payload_size, frame, write_message, read_ack}
use crab_rs.Stream.Keeps.{KeptByStream}
use crab_rs.Types.{SocketAddr}
use crab_rs.Tasks.{Sender, Receiver, Executor, multi_stage_task}
use crab_rs.Tasks.Reports.{Reported, initial_answer, message_of, multi_stage_task_reports}
use crab_rs.Command.Remote.{AckEncodes, LeavesStream}
use crab_rs.Command.Calls.{read_ack-success, read_message-error}
use crab_rs.Forward.Opening.{open_and_relay}
use crab_rs.Forward.OpeningLaws.{open_and_relay-refused}

module _ {S W : Type 0} ⦃server : Transport S⦄ ⦃client : Transport W⦄ ⦃ack : Codec AckMessage⦄
    (RS : IsReliable server) (RW : IsReliable client) (h : MessageHeader)
    (unmarked : h.option ≡ option_none) (ack_payload : Bytes) (acks : AckEncodes ack ack_payload)
    (addresses : Codec SocketAddr) (open_socket : Io CrabError S SocketAddr)
    (relay : Io CrabError S (Unit {0})) (l : LeavesStream RS open_socket) (s : S)
    (writes : RS.writable s ≡ true) {P : S → Type 0} (kept : KeptByStream server P) (holds : P s)
    (bytes rest : Bytes)
    (added : RS.outbox (open_and_relay addresses open_socket relay h s).1 ≡ RS.outbox s ++ bytes)
    {C : Type 0} (c : Codec C) (cmd : C) (w w1 : W)
    (sent : write_message c command option_none cmd w ≡ (ok tt, w1))
    (arrived : RW.inbox w1 ≡ bytes ++ rest) (e : CrabError) (payload : Bytes)
    (round : RoundTrips ack (from_error e) payload) (fits : length payload ≤ max_payload_size)
    (fails : (v : S) → P v → (open_socket v).0 ≡ err e) where
  answers_arrived :
      RW.inbox w1
      ≡ frame h.method option_none ack_payload ++ (frame h.method option_error payload ++ rest)
  answers_arrived =
      let f = frame h.method h.option ack_payload in
      let g = frame h.method (bit_or h.option option_error) payload in
      let (_, out) =
        open_and_relay-refused RS addresses open_socket relay h l ack_payload acks s writes kept
          holds e payload fails round.0 in
      let same : bytes ≡ f ++ g =
        append_cancel_left (RS.outbox s) bytes (f ++ g)
          (sym added ∙ out ∙ append_assoc (RS.outbox s) f g) in
      arrived
      ∙ ap (λ b. b ++ rest) same
      ∙ append_assoc f g rest
      ∙ ap
          (λ o.
            frame h.method o ack_payload
            ++ (frame h.method (bit_or o option_error) payload ++ rest))
          unmarked

  -- If the other node can write, but cannot open the socket, and what its handler writes arrives after
  -- the command was sent, the caller, which was told of the acknowledgement first, gets the number of
  -- the error, provided the error can be encoded and decoded and the opening does not touch the stream.
  pub forward_reports_error :
      {T : Type 0} (tx : Sender W (Result CrabError SocketAddr)) (r : Reported client tx)
      (rx : Receiver W (Result CrabError (Executor W T)))
      → ((v : W) → r.reported (rx v).1 ≡ r.reported v)
      → ((executor : Executor W T) (v v' : W)
          → rx v ≡ (ok (ok executor), v')
          → (reports : List (Result CrabError SocketAddr))
          → Keeps (λ u. r.reported u ≡ reports) executor)
      → r.reported (multi_stage_task c cmd addresses tx rx w).1
        ≡ r.reported w ++ err (error_code (err_no e)) ∷ []
  forward_reports_error tx r rx rx_keeps executor_keeps =
      let (w2, acked, i) = read_ack-success RW h.method ack_payload _ w1 acks answers_arrived in
      let (w3, failed) = read_message-error RW addresses e h.method payload rest w2 round fits i in
      let asked : (write_message c command option_none cmd >> read_ack) w ≡ (ok tt, w2) =
        rw sent acked in
      multi_stage_task_reports c cmd addresses tx r rx rx_keeps executor_keeps w
      ∙ ap (λ q. r.reported w ++ initial_answer c cmd addresses q ∷ []) asked
      ∙ ap (λ q. r.reported w ++ message_of q.0 ∷ []) failed
