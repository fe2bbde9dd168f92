-- ===== src/Workers/Laws.antt =====
-- What the loops that run workers promise.
use crab_rs.Prelude.{
  ℕ, suc, ◌+◌, Bool, true, false, Option, none, some, List, [], ◌∷◌, ◌++◌, ok, err, ◌≡◌, refl, ap,
  arith, if◌then◌else◌, inl, inr,
}
use crab_rs.Prelude.Io.{Io}
use crab_rs.Errors.{CrabError, error_code, join_error}
use crab_rs.Errors.Codes
use crab_rs.Workers.{
  OnceRunner, serve_once, Joined, Collected, join_workers, serve_vec, first_result, returned, Loop,
  start, Step, cancelled, received_none, received_some, joined_next, all_joined, Reach, here, next,
}

module _ {T W : Type 0} (serve : T → Io CrabError W (Unit {0})) where
  -- Whatever became of the first call of `serve`, a second one serves nothing: it fails with
  -- ALREADY_SERVED and changes nothing.
  pub serve_once-serve_once :
      (s : OnceRunner T W)
      → let s' = (serve_once serve s).1 in
        serve_once serve s' ≡ (err (error_code Codes.already_served), s')
  unfolding serve_once
  serve_once-serve_once s = refl

-- The first worker that failed, in the order in which they ended.
unfoldable pub first_failure : List Joined → Option CrabError
first_failure [] = none
first_failure (ok (ok _) ∷ rest) = first_failure rest
first_failure (ok (err e) ∷ rest) = some e
first_failure (err e ∷ rest) = some (join_error e)

abbrev some_error : Option CrabError → Bool
some_error none = false
some_error (some e) = true

join_workers-failed :
    (joined : List Joined) (e : CrabError)
    → let failed : Collected = record { cancelled = true; first_err = some e } in
      join_workers failed joined ≡ failed
unfolding join_workers
join_workers-failed [] e = refl
join_workers-failed (ok (ok _) ∷ rest) e = join_workers-failed rest e
join_workers-failed (ok (err _) ∷ rest) e = join_workers-failed rest e
join_workers-failed (err _ ∷ rest) e = join_workers-failed rest e

-- `serve` of a vector of workers returns the error of the worker that failed first, or succeeds if
-- none failed; the token of the others was cancelled just if one failed.
pub serve_vec-first_failure :
    (joined : List Joined)
    → serve_vec joined ≡ (first_result (first_failure joined), some_error (first_failure joined))
unfolding serve_vec first_failure
serve_vec-first_failure [] = refl
serve_vec-first_failure (ok (ok _) ∷ rest) = serve_vec-first_failure rest
serve_vec-first_failure (ok (err e) ∷ rest) = rw join_workers-failed refl
serve_vec-first_failure (err e ∷ rest) = rw join_workers-failed refl

module _ {T : Type 0} where
  -- How many workers of a list a test holds of.
  pub count : (T → Bool) → List T → ℕ
  count p [] = 0
  count p (x ∷ xs) = if p x then suc (count p xs) else count p xs

  count-insert :
      (p : T → Bool) (before after : List T) (x : T)
      → count p (before ++ x ∷ after) ≡ count p (x ∷ before ++ after)
  unfolding count
  count-insert p [] after x = refl
  count-insert p (y ∷ before) after x = ground (arith, count-insert p before after x)

  record IsCounted (s : Loop T) : Type 0 where
    counts : (p : T → Bool) → count p s.received ≡ count p s.join_set + count p s.joined
    drained : s.stage ≡ returned → s.join_set ≡ []

  Step-IsCounted : {s t : Loop T} → Step s t → IsCounted s → IsCounted t
  unfolding count
  Step-IsCounted (cancelled now) k = record { counts = k.counts; drained = λ h. cc }
  Step-IsCounted (received_none now) k = record { counts = k.counts; drained = λ h. cc }
  Step-IsCounted (received_some worker now) k = record {
    counts = λ p. ground (arith, k.counts p);
    drained = λ h. cc;
  }
  Step-IsCounted {s} (joined_next before after worker now here_it_is) k = record {
    counts = λ p.
        ground (arith, k.counts p, count-insert p before after worker, ap (count p) here_it_is);
    drained = λ h. elim now [ inl e ↦ cc | inr e ↦ cc ];
  }
  Step-IsCounted (all_joined now empty) k = record { counts = k.counts; drained = λ h. empty }

  Reach-IsCounted : {s : Loop T} → Reach start s → IsCounted s
  unfolding count
  Reach-IsCounted here = record { counts = λ p. refl; drained = λ h. refl }
  Reach-IsCounted (next r st) = Step-IsCounted st (Reach-IsCounted r)

  -- When the loop has returned, the workers that were joined and those that were received have the
  -- same count by any test: each worker that was received has been joined, as often as it was
  -- received.
  pub returned-joined :
      {s : Loop T} (p : T → Bool)
      → Reach start s
      → s.stage ≡ returned
      → count p s.joined ≡ count p s.received
  unfolding count
  returned-joined p r done =
      let k = Reach-IsCounted r in ground (arith, k.counts p, ap (count p) (k.drained done))
