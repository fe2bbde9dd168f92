-- ===== src/Message/Ack.antt =====
-- Laws of the acknowledgement: how an error travels in it.
use crab_rs.Prelude.{◌≡◌, ◌↔◌, ◌⊎◌, refl, arith, Result, ok, err, inl}
use crab_rs.Errors.{CrabError, error_code, err_no}
use crab_rs.Errors.Codes
use crab_rs.Message.{from_error, from_result, into_result}

-- An acknowledgement made from a result reads as success just if the result was a success, or the
-- error with the code of no error.
pub into_result-from_result_ok :
    (r : Result CrabError (Unit {0}))
    → (into_result (from_result r) ≡ ok tt) ↔ ((r ≡ ok tt) ⊎ (r ≡ err (error_code Codes.no_error)))
unfolding into_result from_result
into_result-from_result_ok (ok tt) = (λ _. inl refl, λ _. refl)
into_result-from_result_ok (err (error_code c)) = ground arith
into_result-from_result_ok (err _) = ground arith

-- The error that the receiver of an acknowledgement gets has the error number of the one that the
-- sender had.
pub err_no-into_result :
    (e e' : CrabError) → into_result (from_error e) ≡ err e' → err_no e' ≡ err_no e
unfolding into_result from_error err_no
err_no-into_result (error_code c) e' h = ground arith
err_no-into_result _ e' h = ground arith
