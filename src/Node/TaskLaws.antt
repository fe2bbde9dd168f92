-- ===== src/Node/TaskLaws.antt =====
-- What becomes of the tasks that were sent to a node.
use crab_rs.Prelude.{ℕ, ◌+◌, List, [], ◌∷◌, ◌++◌, ◌≡◌, ◌≢◌, refl, sym, ap, ◌∙◌, arith}
use crab_rs.Prelude.Counts.{count, count-nil, count-cons, count-append, count-middle}
use crab_rs.Node.Tasks.{
  Tasks, receiving, returned, start, Step, send, receive, cancelled, receive_none, join, all_joined,
  Reach, here, next,
}

-- Each task is in one place, and the channel is empty once it was dropped.
pub record IsKept (s : Tasks) : Type 0 where
  pub each :
      (k : ℕ)
      → count k s.sent ≡ count k s.queued + count k s.dropped + count k s.running + count k s.joined
  pub none_dropped : s.stage ≡ receiving → s.dropped ≡ []
  pub none_queued : s.stage ≢ receiving → s.queued ≡ []
  pub none_running : s.stage ≡ returned → s.running ≡ []

pub nonempty : (before after : List ℕ) (c : ℕ) → before ++ c ∷ after ≢ []
nonempty [] after c e = cc
nonempty (x ∷ before) after c e = cc

Step-IsKept : {s t : Tasks} → Step s t → IsKept s → IsKept t
Step-IsKept {s} (send c at) k = record {
  each = λ n. ground (
    arith,
    k.each n,
    count-cons n c s.sent,
    count-append n s.queued (c ∷ []),
    count-cons n c [],
    count-nil n,
  );
  none_dropped = k.none_dropped;
  none_queued = λ h. absurd (h at);
  none_running = k.none_running;
}
Step-IsKept {s} (receive c rest at q) k = record {
  each =
      λ n. ground (arith, k.each n, count-cons n c rest, count-cons n c s.running, ap (count n) q);
  none_dropped = k.none_dropped;
  none_queued = λ h. absurd (h at);
  none_running = λ h. ground arith;
}
Step-IsKept {s} (cancelled at) k = record {
  each = λ n. ground (arith, k.each n, count-nil n, ap (count n) (k.none_dropped at));
  none_dropped = λ h. ground arith;
  none_queued = λ h. refl;
  none_running = λ h. ground arith;
}
Step-IsKept {s} (receive_none at q) k = record {
  each = k.each;
  none_dropped = λ h. ground arith;
  none_queued = λ h. q;
  none_running = λ h. ground arith;
}
Step-IsKept {s} (join before after c r) k = record {
  each = λ n.
      ground
        (arith, k.each n, count-middle n c before after, count-cons n c s.joined, ap (count n) r);
  none_dropped = k.none_dropped;
  none_queued = k.none_queued;
  none_running = λ h. absurd (nonempty before after c (sym r ∙ k.none_running h));
}
Step-IsKept {s} (all_joined at r) k = record {
  each = k.each;
  none_dropped = λ h. ground arith;
  none_queued = λ h. k.none_queued (λ e. ground arith);
  none_running = λ h. r;
}

Reach-IsKept : {t : Tasks} → Reach start t → IsKept t
Reach-IsKept here = record {
  each = λ n. ground (arith, count-nil n);
  none_dropped = λ h. refl;
  none_queued = λ h. absurd (h refl);
  none_running = λ h. refl;
}
Reach-IsKept (next r st) = Step-IsKept st (Reach-IsKept r)

-- When the loop has returned, each task was either run to its end or dropped with the channel before
-- it was started, as often as it was sent.
pub returned-accounts :
    {t : Tasks}
    → Reach start t
    → t.stage ≡ returned
    → (k : ℕ) → count k t.sent ≡ count k t.joined + count k t.dropped
returned-accounts {t} r at k =
    let i = Reach-IsKept r in
    omega (
      arith,
      i.each k,
      ap (count k) (i.none_queued (λ e. ground arith)),
      ap (count k) (i.none_running at),
      count-nil k,
    )
