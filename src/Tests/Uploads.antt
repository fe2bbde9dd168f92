-- ===== src/Tests/Uploads.antt =====
-- An upload from a client with a body of three bytes to the file system of Tests.Stores.
use crab_rs.Prelude.{ℕ, ◌≡◌, refl, ap, ◌∙◌, [], ◌∷◌, ◌++◌, some, Result, ok}
use crab_rs.Prelude.Bytes.{Bytes}
use crab_rs.Prelude.Io.{Io, from}
use crab_rs.Errors.{CrabError, io}
use crab_rs.Message.{command, option_none}
use crab_rs.Stream.{frame}
use crab_rs.Command.Files.{Cancellation}
use crab_rs.Command.Handlers.{or_cancelled, handle_write_file}
use crab_rs.Control.Nodes.{Pipes}
use crab_rs.Control.UploadLaws.{IsBody, second_stage, second_stage-uploads, upload-stores}
use crab_rs.Tests.Pipe.{Pipe, pipe, pipe_with, pipe-IsReliable, ack_codec}
use crab_rs.Tests.Reports.{Reports, report, report-Reported}
use crab_rs.Tests.Stores.{
  store, store-IsStore, paths, upload_f, never, never_lasts, header, ack_bytes, acks, disk,
  disk-HasPlace, sent,
}
use crab_rs.Tests.Stores

abbrev Client : Type 0
Client = Pipe (Reports (Unit {0}))

abbrev pipes : Pipes Client
pipes = record {
  write_text = λ s w. (ok 0, w);
  copy_from_stream = λ w. (ok 0, w);
  copy_to_stream = λ w. (ok 3, record w { outbox = w.outbox ++ sent });
  shutdown_pipe = λ w. (ok tt, w);
  shutdown_stream = λ w. (ok tt, w);
}

pipes-IsBody : IsBody pipe-IsReliable pipes report-Reported sent
unfolding report-Reported
pipes-IsBody = record {
  copy_ok = λ w h. (3, record w { outbox = w.outbox ++ sent }, refl, refl, refl, refl);
  shutdown_ok = λ w. (w, refl, refl, refl, refl);
}

abbrev uncancelled : Cancellation Client
uncancelled = record { until_cancelled = λ work w. let (r, w') = work w in (some r, w') }

uncancelled_lasts :
    (m : Io CrabError Client (Result CrabError ℕ)) (w : Client) → or_cancelled uncancelled m w ≡ m w
unfolding or_cancelled
uncancelled_lasts m w = refl

-- What the client writes, and what comes back to it.
abbrev uploaded : Bytes
uploaded = frame command option_none ack_bytes ++ sent

abbrev client : Client
client = pipe_with (frame command option_none ack_bytes ++ 7 ∷ []) []

abbrev node : Stores.World
node = pipe_with uploaded disk

written : (second_stage pipes uncancelled report client).1.outbox ≡ [] ++ uploaded
unfolding report-Reported
written =
    let (w', run, out, k) =
      second_stage-uploads pipes uncancelled report pipe-IsReliable report-Reported sent
        pipes-IsBody uncancelled_lasts command ack_bytes acks (7 ∷ []) client refl refl in
    ap (λ w. w.outbox) run ∙ out

upload-stores_example :
    ((second_stage pipes uncancelled report client).1.state ≡ [] ++ ok tt ∷ [])
    × ((handle_write_file store paths upload_f never header node).1.state.files "/d/f" ≡ some sent)
unfolding store-IsStore report-Reported
upload-stores_example =
    upload-stores pipe-IsReliable pipe-IsReliable store-IsStore paths upload_f never
      (never_lasts ℕ (from io store.copy_from_stream)) pipes uncancelled uncancelled_lasts report
      report-Reported (λ v w. refl) sent pipes-IsBody header ack_bytes acks "f" refl refl uploaded
      (7 ∷ []) node client refl disk-HasPlace refl refl written refl refl
