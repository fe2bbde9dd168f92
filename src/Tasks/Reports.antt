-- ===== src/Tasks/Reports.antt =====
-- What a task reports to the caller that waits for it.
use crab_rs.Prelude.{
  ◌≡◌, refl, ap, ◌∙◌, Bool, true, false, List, [], ◌∷◌, ◌++◌, if◌then◌else◌, Result, ok, err,
}
use crab_rs.Prelude.Io.{Io, next, branch, pure, raise, from, attempt, ◌>>=◌, ◌>>◌}
use crab_rs.Prelude.Io.Keeps.{Keeps, keeps_rules, Keeps-bind, Keeps-pure}
use crab_rs.Errors.{CrabError, error_code}
use crab_rs.Errors.Codes
use crab_rs.Message.{command, MessageHeader, AckMessage, option_none, success}
use crab_rs.Transport.{Transport, Codec}
use crab_rs.Stream.{read_message, read_ack, write_message}
use crab_rs.Stream.Keeps.{
  KeptByStream, read_ack-Keeps, write_message-Keeps, read_message-Keeps, write_error-Keeps,
}
use crab_rs.Tasks.{
  Sender, Receiver, Executor, send_or, send_ignored, async_job, multi_stage_task, read_initial,
  run_executor,
}

-- A record of what was sent through a channel: nothing but a send changes it.
pub record Reported {W : Type 0} (t : Transport W) {T : Type 0} (tx : Sender W T) : Type 0 where
  pub reported : W → List T
  pub by_send : (v : T) (w : W) → reported (tx v w).1 ≡ reported w ++ v ∷ []
  pub by_stream : (l : List T) → KeptByStream t (λ w. reported w ≡ l)

abbrev pub message_of : {I : Type 0} → Result CrabError (MessageHeader × I) → Result CrabError I
message_of (ok (_, initial)) = ok initial
message_of (err e) = err e

module _ {W T : Type 0} ⦃t : Transport W⦄ ⦃ack : Codec AckMessage⦄ {P : W → Type 0}
    (k : KeptByStream t P) where
  run_executor-Keeps :
      (r : Result CrabError (Executor W T))
      → ((executor : Executor W T) → r ≡ ok executor → Keeps P executor)
      → Keeps P (run_executor r)
  unfolding run_executor
  run_executor-Keeps (err e) h = search (keeps_rules, write_error-Keeps k)
  run_executor-Keeps (ok executor) h =
      Keeps-bind (write_message ack command option_none success) (λ _. executor >>= λ _. pure tt)
        (write_message-Keeps k ack command option_none success)
        (λ _. Keeps-bind executor (λ _. pure tt) (h executor refl) (λ _. Keeps-pure tt))

  after_rx :
      (p : Result (Unit {0}) (Result CrabError (Executor W T)) × W)
      → P p.1
      → ((executor : Executor W T) (w' : W) → p ≡ (ok (ok executor), w') → Keeps P executor)
      → P (next (from (λ _. error_code Codes.canceled_error) (λ _. p) p.1) run_executor).1
  after_rx (err _, w) h kept = h
  after_rx (ok r, w) h kept =
      (run_executor-Keeps r (λ executor e. kept executor w (ap (λ r. (ok r, w)) e))).at w h

module _ {W : Type 0} ⦃t : Transport W⦄ ⦃ack : Codec AckMessage⦄ {C : Type 0} (c : Codec C)
    (cmd : C) where
  -- The answer that a job has after its command was written.
  abbrev pub job_answer :
      {T : Type 0} → Executor W T → Result CrabError (Unit {0}) × W → Result CrabError T
  job_answer callback (ok _, w) = (callback w).0
  job_answer callback (err e, w) = err e

  module _ {T : Type 0} (callback : Executor W T) (tx : Sender W (Result CrabError T))
      (r : Reported t tx)
      (callback_keeps : (w : W) → r.reported (callback w).1 ≡ r.reported w) where
    answered :
        (p : Result CrabError (Unit {0}) × W)
        → ((branch p
              (λ _. do ret ← attempt callback; send_ignored tx ret)
              (λ e. send_ignored tx (err e))).0
            ≡ ok tt)
          × (r.reported
                (branch p
                  (λ _. do ret ← attempt callback; send_ignored tx ret)
                  (λ e. send_ignored tx (err e))).1
              ≡ r.reported p.1 ++ job_answer callback p ∷ [])
    unfolding send_ignored
    answered (ok _, w) =
        (refl, r.by_send _ _ ∙ ap (λ l. l ++ (callback w).0 ∷ []) (callback_keeps w))
    answered (err e, w) = (refl, r.by_send _ _)

    -- Provided that neither the stream nor the callback reports anything by itself, a job whose
    -- command was written succeeds and reports exactly once: the error of the acknowledgement if
    -- the peer refused, and the callback's result otherwise.
    pub async_job_reports :
        (w w1 : W)
        → write_message c command option_none cmd w ≡ (ok tt, w1)
        → ((async_job c cmd callback tx w).0 ≡ ok tt)
          × (r.reported (async_job c cmd callback tx w).1
              ≡ r.reported w ++ job_answer callback (read_ack w1) ∷ [])
    unfolding async_job
    async_job_reports w w1 e =
        let kept =
          (write_message-Keeps (r.by_stream (r.reported w)) c command option_none cmd).at w refl in
        let acked = (read_ack-Keeps (r.by_stream (r.reported w))).at w1 (rw e at kept) in
        let (done, said) = answered (read_ack w1) in
        rw e (done, said ∙ ap (λ l. l ++ job_answer callback (read_ack w1) ∷ []) acked)

    -- Provided that the stream reports nothing by itself, a job whose command could not be written
    -- fails with the error of the write and reports nothing.
    pub async_job_unwritten :
        (w w1 : W) (x : CrabError)
        → write_message c command option_none cmd w ≡ (err x, w1)
        → (async_job c cmd callback tx w ≡ (err x, w1)) × (r.reported w1 ≡ r.reported w)
    unfolding async_job
    async_job_unwritten w w1 x e =
        let kept =
          (write_message-Keeps (r.by_stream (r.reported w)) c command option_none cmd).at w refl in
        (rw e, rw e at kept)

  -- The first answer of a task of two stages, from what came of its command and acknowledgement.
  abbrev pub initial_answer :
      {I : Type 0} → Codec I → Result CrabError (Unit {0}) × W → Result CrabError I
  initial_answer i (ok _, w) = message_of (read_message i w).0
  initial_answer i (err e, w) = err e

  module _ {I T : Type 0} (i : Codec I) (tx : Sender W (Result CrabError I)) (r : Reported t tx)
      (rx : Receiver W (Result CrabError (Executor W T)))
      (rx_keeps : (w : W) → r.reported (rx w).1 ≡ r.reported w)
      (executor_keeps : (executor : Executor W T) (w w' : W)
        → rx w ≡ (ok (ok executor), w')
        → (l : List (Result CrabError I)) → Keeps (λ v. r.reported v ≡ l) executor) where
    open r use {reported, by_send, by_stream}

    abbrev second_stage : Io CrabError W (Unit {0})
    second_stage = from (λ _. error_code Codes.canceled_error) rx >>= run_executor

    second_stage_keeps : (w : W) → reported (second_stage w).1 ≡ reported w
    second_stage_keeps w =
        after_rx (by_stream (reported w)) (rx w) (rx_keeps w)
          (λ executor w' e. executor_keeps executor w w' e (reported w))

    -- What a sender that may be refused is followed by.
    abbrev sent_or : Bool → CrabError → W → Result CrabError (Unit {0}) × W
    sent_or b e w = (if b then ok tt else err e, w)

    sent_then :
        (b : Bool) (e : CrabError) (w : W)
        → reported (next (sent_or b e w) (λ _. second_stage)).1 ≡ reported w
    sent_then true e w = second_stage_keeps w
    sent_then false e w = refl

    abbrev refuse : CrabError → Io CrabError W (Unit {0})
    refuse e = raise e

    sent_then_raise :
        (b : Bool) (e e' : CrabError) (w : W)
        → reported (next (next (sent_or b e w) (λ _. refuse e')) (λ _. second_stage)).1 ≡ reported w
    sent_then_raise true e e' w = refl
    sent_then_raise false e e' w = refl

    initial_sent :
        (p : Result CrabError (MessageHeader × I) × W)
        → reported
            (next
              (branch p
                (λ (_, initial). send_or (error_code Codes.canceled_error) tx (ok initial))
                (λ e. do
                  send_or (error_code Codes.canceled_error) tx (err e)
                  raise (error_code Codes.task_ack_failed)))
              (λ _. second_stage)).1
          ≡ reported p.1 ++ message_of p.0 ∷ []
    unfolding send_or
    initial_sent (ok (h, initial), w) = sent_then _ _ _ ∙ by_send (ok initial) w
    initial_sent (err e, w) = sent_then_raise _ _ _ _ ∙ by_send (err e) w

    first_stage :
        (p : Result CrabError (Unit {0}) × W)
        → reported
            (branch p (λ _. read_initial i tx >> second_stage) (λ e. send_ignored tx (err e))).1
          ≡ reported p.1 ++ initial_answer i p ∷ []
    unfolding read_initial send_ignored
    first_stage (ok _, w) =
        initial_sent (read_message i w)
        ∙ ap (λ l. l ++ message_of (read_message i w).0 ∷ [])
            ((read_message-Keeps (by_stream (reported w)) i).at w refl)
    first_stage (err e, w) = by_send (err e) w

    -- Provided that neither the stream, nor the wait for the executor, nor the executor reports
    -- anything by itself, a task of two stages reports its first answer exactly once, whatever
    -- becomes of it: the message that the peer sent, or the first error that it met.
    pub multi_stage_task_reports :
        (w : W)
        → reported (multi_stage_task c cmd i tx rx w).1
          ≡ reported w
            ++ initial_answer i ((write_message c command option_none cmd >> read_ack) w) ∷ []
    unfolding multi_stage_task
    multi_stage_task_reports w =
        let asked = write_message c command option_none cmd >> read_ack in
        let kept : Keeps (λ v. reported v ≡ reported w) asked =
          search (keeps_rules, write_message-Keeps, read_ack-Keeps, by_stream) in
        first_stage (asked w) ∙ ap (λ l. l ++ initial_answer i (asked w) ∷ []) (kept.at w refl)
