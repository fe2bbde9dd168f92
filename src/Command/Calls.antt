-- ===== src/Command/Calls.antt =====
-- A job of the caller on a stream where the other node's handler has written its answers.
use Prim.Native.Nat.{bit_or}
use mathlib.Core.List.{append_cancel_left}
use crab_rs.Prelude.{
  ℕ, ◌≤◌, ◌≡◌, refl, sym, ap, ◌∙◌, arith, List, [], ◌∷◌, ◌++◌, append_assoc, length, String, Result,
  ok, err, true,
}
use crab_rs.Prelude.Bytes.{Bytes}
use crab_rs.Errors.{CrabError, error_code, err_no}
use crab_rs.Message.{
  Method, MessageHeader, AckMessage, command, option_none, option_error, from_error,
}
use crab_rs.Transport.{Transport, Codec, RoundTrips, IsReliable}
use crab_rs.Stream.{max_payload_size, frame, read_message, read_ack, write_message}
use crab_rs.Stream.RoundTrip.{
  header_for, read_message-frame, decode_payload-error, decode_from_slice-ok, code-from_error,
}
use crab_rs.Stream.Arrived.{read_message-arrived, read_ack-arrived}
use crab_rs.Stream.Keeps.{KeptByStream, read_message-Keeps}
use crab_rs.Tasks.{Sender, async_job}
use crab_rs.Tasks.Reports.{Reported, job_answer, async_job_reports}
use crab_rs.Command.Files.{FileSystem, DirEntry, list_dir}
use crab_rs.Command.Handlers.{DeleteCommand, delete_response, handle_delete, handle_list_dir}
use crab_rs.Command.Executor.{no_answer}
use crab_rs.Command.Remote.{
  AckEncodes, LeavesStream, handler-appends, handler-responds, handler-fails,
}

module _ {W : Type 0} ⦃t : Transport W⦄ ⦃ack : Codec AckMessage⦄ (R : IsReliable t) where
  -- An error at the front of the inbox, whatever message is asked for.
  pub read_message-error :
      {M : Type 0} (c : Codec M) (e : CrabError) (method : Method) (payload rest : Bytes) (w : W)
      → RoundTrips ack (from_error e) payload
      → length payload ≤ max_payload_size
      → R.inbox w ≡ frame method option_error payload ++ rest
      → (w' : W) × (read_message c w ≡ (err (error_code (err_no e)), w'))
  read_message-error c e method payload rest w rt fits arrived =
      let (w', r, _, _, _) =
        read_message-frame R c method option_error payload rest w (omega arith) fits arrived in
      (
        w',
        r
            ∙ ap (λ q. (q, w'))
                (decode_payload-error ack c (header_for method option_error payload) payload refl
                    (decode_from_slice-ok ack (from_error e) payload rt)
                  ∙ ap (λ n. err (error_code n)) (code-from_error e)),
      )

  pub read_ack-success :
      (method : Method) (payload rest : Bytes) (w : W)
      → AckEncodes ack payload
      → R.inbox w ≡ frame method option_none payload ++ rest
      → (w' : W) × (read_ack w ≡ (ok tt, w')) × (R.inbox w' ≡ rest)
  read_ack-success method payload rest w acks arrived =
      let (w', e, i, _, _) =
        read_ack-arrived R method payload rest w acks.round acks.fits arrived in
      (w', e, i)

  module _ {C : Type 0} (c : Codec C) (cmd : C) (method : Method) (ack_payload : Bytes)
      (acks : AckEncodes ack ack_payload) (w w1 : W)
      (sent : write_message c command option_none cmd w ≡ (ok tt, w1)) where
    -- A caller that reads no answer is told of success by the first acknowledgement.
    pub job-no_answer :
        (tx : Sender W (Result CrabError (Unit {0}))) (r : Reported t tx) (rest : Bytes)
        → R.inbox w1 ≡ frame method option_none ack_payload ++ rest
        → r.reported (async_job c cmd no_answer tx w).1 ≡ r.reported w ++ ok tt ∷ []
    unfolding no_answer
    job-no_answer tx r rest arrived =
        let (w2, e, _) = read_ack-success method ack_payload rest w1 acks arrived in
        (async_job_reports c cmd no_answer tx r (λ v. refl) w w1 sent).1
        ∙ ap (λ q. r.reported w ++ job_answer c cmd no_answer q ∷ []) e

    module _ {M : Type 0} (resp : Codec M) (tx : Sender W (Result CrabError (MessageHeader × M)))
        (r : Reported t tx) (payload rest : Bytes) (fits : length payload ≤ max_payload_size) where
      reads_quietly : (v : W) → r.reported (read_message resp v).1 ≡ r.reported v
      reads_quietly v = (read_message-Keeps (r.by_stream (r.reported v)) resp).at v refl

      -- The report of a caller that reads one message after the acknowledgement.
      job-reads :
          {q : Result CrabError (MessageHeader × M)} {w2 : W}
          → read_ack w1 ≡ (ok tt, w2)
          → (read_message resp w2).0 ≡ q
          → r.reported (async_job c cmd (read_message resp) tx w).1 ≡ r.reported w ++ q ∷ []
      job-reads acked e =
          (async_job_reports c cmd (read_message resp) tx r reads_quietly w w1 sent).1
          ∙ ap (λ p. r.reported w ++ job_answer c cmd (read_message resp) p ∷ []) acked
          ∙ ap (λ q. r.reported w ++ q ∷ []) e

      pub job-answer :
          (m : M)
          → RoundTrips resp m payload
          → R.inbox w1
            ≡ frame method option_none ack_payload ++ (frame method option_none payload ++ rest)
          → r.reported (async_job c cmd (read_message resp) tx w).1
            ≡ r.reported w ++ ok (header_for method option_none payload, m) ∷ []
      job-answer m rt arrived =
          let (w2, e, i) = read_ack-success method ack_payload _ w1 acks arrived in
          let (w3, e', _, _, _) = read_message-arrived R resp method payload rest w2 rt fits i in
          job-reads e (ap (λ p. p.0) e')

      pub job-error :
          (e : CrabError)
          → RoundTrips ack (from_error e) payload
          → R.inbox w1
            ≡ frame method option_none ack_payload ++ (frame method option_error payload ++ rest)
          → r.reported (async_job c cmd (read_message resp) tx w).1
            ≡ r.reported w ++ err (error_code (err_no e)) ∷ []
      job-error e rt arrived =
          let (w2, a, i) = read_ack-success method ack_payload _ w1 acks arrived in
          let (w3, e') = read_message-error resp e method payload rest w2 rt fits i in
          job-reads a (ap (λ p. p.0) e')

-- A caller and a handler, on the two sides of one stream: what the handler adds to its side
-- arrives after the command was written.
module _ {S W : Type 0} ⦃server : Transport S⦄ ⦃client : Transport W⦄ ⦃ack : Codec AckMessage⦄
    (RS : IsReliable server) (RW : IsReliable client) (fs : FileSystem S) (h : MessageHeader)
    (unmarked : h.option ≡ option_none) (ack_payload : Bytes) (acks : AckEncodes ack ack_payload)
    {C : Type 0} (c : Codec C) (cmd : C) (s : S) (writes : RS.writable s ≡ true)
    (bytes rest : Bytes) (w w1 : W) (sent : write_message c command option_none cmd w ≡ (ok tt, w1))
    (arrived : RW.inbox w1 ≡ bytes ++ rest) where
  -- If the other node can write, and what its handler writes arrives after the command was sent,
  -- the caller of `delete` is told of success, whatever the deletion comes to, provided it does not
  -- touch the stream: the caller takes the acknowledgement of the command for its result.
  pub delete_reports_success :
      (d : DeleteCommand) (tx : Sender W (Result CrabError (Unit {0}))) (r : Reported client tx)
      → LeavesStream RS (delete_response fs d)
      → RS.outbox (handle_delete fs d h s).1 ≡ RS.outbox s ++ bytes
      → r.reported (async_job c cmd no_answer tx w).1 ≡ r.reported w ++ ok tt ∷ []
  unfolding handle_delete
  delete_reports_success d tx r l added =
      let (more, e) = handler-appends RS ack (delete_response fs d) h l ack_payload acks s writes in
      let same : bytes ≡ frame h.method h.option ack_payload ++ more =
        append_cancel_left (RS.outbox s) bytes (frame h.method h.option ack_payload ++ more)
          (sym added ∙ e ∙ append_assoc (RS.outbox s) _ more) in
      job-no_answer RW c cmd h.method ack_payload acks w w1 sent tx r (more ++ rest) (
        arrived
        ∙ ap (λ b. b ++ rest) same
        ∙ append_assoc (frame h.method h.option ack_payload) more rest
        ∙ ap (λ o. frame h.method o ack_payload ++ (more ++ rest)) unmarked)

  module _ (entries : Codec (List DirEntry)) (path : String)
      (tx : Sender W (Result CrabError (MessageHeader × List DirEntry))) (r : Reported client tx)
      (l : LeavesStream RS (list_dir fs path)) {P : S → Type 0} (kept : KeptByStream server P)
      (holds : P s)
      (added : RS.outbox (handle_list_dir fs entries path h s).1 ≡ RS.outbox s ++ bytes)
      (payload : Bytes) (fits : length payload ≤ max_payload_size) where
    abbrev call : W
    call = (async_job c cmd (read_message entries) tx w).1

    -- The bytes of the two answers, at the caller.
    two_answers :
        (o : ℕ)
        → RS.outbox (handle_list_dir fs entries path h s).1
          ≡ (RS.outbox s ++ frame h.method h.option ack_payload) ++ frame h.method o payload
        → RW.inbox w1 ≡ frame h.method option_none ack_payload ++ (frame h.method o payload ++ rest)
    two_answers o e =
        let f = frame h.method h.option ack_payload in
        let g = frame h.method o payload in
        let same : bytes ≡ f ++ g =
          append_cancel_left (RS.outbox s) bytes (f ++ g)
            (sym added ∙ e ∙ append_assoc (RS.outbox s) f g) in
        arrived
        ∙ ap (λ b. b ++ rest) same
        ∙ append_assoc f g rest
        ∙ ap (λ p. frame h.method p ack_payload ++ (g ++ rest)) unmarked

    -- If the other node can write, and what its handler writes arrives after the command was sent,
    -- a caller of `read_dir` gets the entries that the other node found, provided these can be
    -- encoded and decoded and the listing does not touch the stream.
    pub read_dir_reports :
        (es : List DirEntry)
        → RoundTrips entries es payload
        → ((v : S) → P v → (list_dir fs path v).0 ≡ ok es)
        → r.reported call ≡ r.reported w ++ ok (header_for h.method option_none payload, es) ∷ []
    unfolding handle_list_dir
    read_dir_reports es rt made =
        job-answer RW c cmd h.method ack_payload acks w w1 sent entries tx r payload rest fits es rt
          (two_answers option_none (
            handler-responds RS entries (list_dir fs path) h l ack_payload acks s writes kept holds
              es payload made rt.0
            ∙ ap
                (λ o.
                  (RS.outbox s ++ frame h.method h.option ack_payload) ++ frame h.method o payload)
                unmarked))

    -- If the other node could not list the directory, its caller gets the error's number.
    pub read_dir_reports_error :
        (e : CrabError)
        → RoundTrips ack (from_error e) payload
        → ((v : S) → P v → (list_dir fs path v).0 ≡ err e)
        → r.reported call ≡ r.reported w ++ err (error_code (err_no e)) ∷ []
    unfolding handle_list_dir
    read_dir_reports_error e rt made =
        job-error RW c cmd h.method ack_payload acks w w1 sent entries tx r payload rest fits e rt (
          two_answers option_error (
            handler-fails RS entries (list_dir fs path) h l ack_payload acks s writes kept holds e
              payload made rt.0
            ∙ ap
                (λ o.
                  (RS.outbox s ++ frame h.method h.option ack_payload)
                  ++ frame h.method (bit_or o option_error) payload)
                unmarked))
