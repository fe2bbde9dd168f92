-- ===== src/Tests/Reports.antt =====
-- A channel that keeps what is sent, beside a stream.
use crab_rs.Prelude.{ℕ, ◌≡◌, refl, arith, true, List, [], ◌∷◌, ◌++◌, Result, ◌∙◌}
use crab_rs.Prelude.Bytes.{Bytes}
use crab_rs.Errors.{CrabError}
use crab_rs.Tasks.{Sender}
use crab_rs.Tasks.Reports.{Reported}
use crab_rs.Tests.Pipe.{Pipe, pipe, read_exact, write_all}

abbrev pub Reports : Type 0 → Type 0
Reports T = List (Result CrabError T)

module _ {X : Type 0} where
  pub read_exact_keeps_state : (n : ℕ) (w : Pipe X) → (read_exact n w).1.state ≡ w.state
  unfolding read_exact
  read_exact_keeps_state n w = ground arith

  pub write_all_keeps_state : (bytes : Bytes) (w : Pipe X) → (write_all bytes w).1.state ≡ w.state
  unfolding write_all
  write_all_keeps_state bytes w = ground arith

module _ {T : Type 0} where
  abbrev pub report : Sender (Pipe (Reports T)) (Result CrabError T)
  report v w = (true, record w { state = w.state ++ v ∷ [] })

  unfoldable pub report-Reported : Reported (pipe {X = Reports T}) report
  report-Reported = record {
    reported = λ w. w.state;
    by_send = λ v w. refl;
    by_stream = λ l. record {
      by_read = λ n. record { at = λ w h. read_exact_keeps_state n w ∙ h };
      by_write = λ bytes. record { at = λ w h. write_all_keeps_state bytes w ∙ h };
    };
  }
