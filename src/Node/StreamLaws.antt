-- ===== src/Node/StreamLaws.antt =====
-- What becomes of the streams that a node accepted.
use crab_rs.Prelude.{
  ℕ, ◌+◌, true, false, Option, none, some, List, [], ◌∷◌, ◌++◌, map, ◌≡◌, ◌≢◌, refl, sym, ap, ◌∙◌,
  arith, Bool-cases, inl, inr,
}
use crab_rs.Prelude.Counts.{count, count-nil, count-cons, count-middle}
use crab_rs.Node.Streams.{
  Streams, handling, returned, start, Step, accept, accept_closed, accept_cancelled,
  accept_cancelled_closed, receive, receive_none, handle_cancelled, join, return, Reach, here, next,
}
use crab_rs.Node.TaskLaws.{nonempty}

-- The streams among the messages of the channel.
pub streams : List (Option ℕ) → List ℕ
streams [] = []
streams (none ∷ rest) = streams rest
streams (some c ∷ rest) = c ∷ streams rest

count-streams-append :
    (k : ℕ) (xs ys : List (Option ℕ))
    → count k (streams (xs ++ ys)) ≡ count k (streams xs) + count k (streams ys)
unfolding streams count
count-streams-append k [] ys = omega arith
count-streams-append k (none ∷ xs) ys = count-streams-append k xs ys
count-streams-append k (some c ∷ xs) ys = omega (arith, count-streams-append k xs ys)

-- While streams are accepted the channel has streams only, and then the message of the end.
pub ended : List ℕ → List (Option ℕ)
ended xs = map some xs ++ none ∷ []

ended-some :
    (xs : List ℕ) (c : ℕ) (rest : List (Option ℕ))
    → ended xs ≡ some c ∷ rest
    → (ys : List ℕ) × (rest ≡ ended ys)
unfolding ended
ended-some [] c rest e = cc
ended-some (x ∷ xs) c rest e = (xs, cc)

ended-none : (xs : List ℕ) (rest : List (Option ℕ)) → ended xs ≡ none ∷ rest → rest ≡ []
unfolding ended
ended-none [] rest e = cc
ended-none (x ∷ xs) rest e = cc

only-some :
    (xs : List ℕ) (c : ℕ) (rest : List (Option ℕ))
    → map some xs ≡ some c ∷ rest
    → (ys : List ℕ) × (rest ≡ map some ys)
only-some [] c rest e = cc
only-some (x ∷ xs) c rest e = (xs, cc)

only-none : (xs : List ℕ) (rest : List (Option ℕ)) → map some xs ≢ none ∷ rest
only-none [] rest e = cc
only-none (x ∷ xs) rest e = cc

map-snoc : (xs : List ℕ) (c : ℕ) → map some xs ++ some c ∷ [] ≡ map some (xs ++ c ∷ [])
map-snoc [] c = refl
map-snoc (x ∷ xs) c = ap (λ l. some x ∷ l) (map-snoc xs c)

pub record IsKept (s : Streams) : Type 0 where
  pub each :
      (k : ℕ)
      → count k s.accepted
        ≡ count k (streams s.queued) + count k s.lost + count k s.running + count k s.handled
  pub none_lost : s.closed ≡ false → s.lost ≡ []
  pub open_while_handling : s.stage ≡ handling → s.closed ≡ false
  pub queued_on : s.stage ≡ handling → s.accepting ≡ true → (xs : List ℕ) × (s.queued ≡ map some xs)
  pub queued_off : s.stage ≡ handling → s.accepting ≡ false → (xs : List ℕ) × (s.queued ≡ ended xs)
  pub over : s.stage ≢ handling → s.closed ≡ false → (s.queued ≡ []) × (s.accepting ≡ false)
  pub none_running : s.stage ≡ returned → s.running ≡ []

Step-IsKept : {s t : Streams} → Step s t → IsKept s → IsKept t
unfolding streams ended
Step-IsKept {s} (accept c on opened) k = record {
  each = λ n. ground (
    arith,
    k.each n,
    count-cons n c s.accepted,
    count-streams-append n s.queued (some c ∷ []),
    count-cons n c [],
    count-nil n,
  );
  none_lost = k.none_lost;
  open_while_handling = k.open_while_handling;
  queued_on = λ h _.
      let (xs, e) = k.queued_on h on in
      (xs ++ c ∷ [], ap (λ q. q ++ some c ∷ []) e ∙ map-snoc xs c);
  queued_off = λ h off. cc;
  over = λ h o. let (_, off) = k.over h opened in cc;
  none_running = k.none_running;
}
Step-IsKept {s} (accept_closed c on shut) k = record {
  each = λ n. ground (arith, k.each n, count-cons n c s.accepted, count-cons n c s.lost);
  none_lost = λ o. cc;
  open_while_handling = k.open_while_handling;
  queued_on = k.queued_on;
  queued_off = k.queued_off;
  over = k.over;
  none_running = k.none_running;
}
Step-IsKept {s} (accept_cancelled on opened) k = record {
  each = λ n. ground (arith, k.each n, count-streams-append n s.queued (none ∷ []), count-nil n);
  none_lost = k.none_lost;
  open_while_handling = k.open_while_handling;
  queued_on = λ h off. cc;
  queued_off = λ h _. let (xs, e) = k.queued_on h on in (xs, ap (λ q. q ++ none ∷ []) e);
  over = λ h o. let (_, off) = k.over h opened in cc;
  none_running = k.none_running;
}
Step-IsKept {s} (accept_cancelled_closed on shut) k = record {
  each = k.each;
  none_lost = k.none_lost;
  open_while_handling = k.open_while_handling;
  queued_on = λ h off. cc;
  queued_off = λ h _. cc (k.open_while_handling h, shut);
  over = λ h o. cc (o, shut);
  none_running = k.none_running;
}
Step-IsKept {s} (receive c rest at q) k = record {
  each = λ n. ground (
    arith,
    k.each n,
    count-cons n c (streams rest),
    count-cons n c s.running,
    ap (λ l. count n (streams l)) q,
  );
  none_lost = k.none_lost;
  open_while_handling = k.open_while_handling;
  queued_on = λ h on. let (xs, e) = k.queued_on h on in only-some xs c rest (sym e ∙ q);
  queued_off = λ h off. let (xs, e) = k.queued_off h off in ended-some xs c rest (sym e ∙ q);
  over = λ h o. absurd (h at);
  none_running = λ h. cc (h, at);
}
Step-IsKept {s} (receive_none rest at q) k = record {
  each = λ n. ground (arith, k.each n, ap (λ l. count n (streams l)) q);
  none_lost = k.none_lost;
  open_while_handling = λ h. cc;
  queued_on = λ h. cc;
  queued_off = λ h. cc;
  over = λ h o. elim (Bool-cases s.accepting) [
    | inl on ↦ let (xs, e) = k.queued_on at on in absurd (only-none xs rest (sym e ∙ q))
    | inr off ↦ let (xs, e) = k.queued_off at off in (ended-none xs rest (sym e ∙ q), off)
  ];
  none_running = λ h. cc;
}
Step-IsKept {s} (handle_cancelled at) k = record {
  each = k.each;
  none_lost = λ h. cc;
  open_while_handling = λ h. cc;
  queued_on = λ h. cc;
  queued_off = λ h. cc;
  over = λ h o. cc;
  none_running = λ h. cc;
}
Step-IsKept {s} (join before after c r) k = record {
  each = λ n.
      ground
        (arith, k.each n, count-middle n c before after, count-cons n c s.handled, ap (count n) r);
  none_lost = k.none_lost;
  open_while_handling = k.open_while_handling;
  queued_on = k.queued_on;
  queued_off = k.queued_off;
  over = k.over;
  none_running = λ h. absurd (nonempty before after c (sym r ∙ k.none_running h));
}
Step-IsKept {s} (return at r) k = record {
  each = k.each;
  none_lost = k.none_lost;
  open_while_handling = λ h. cc;
  queued_on = λ h. cc;
  queued_off = λ h. cc;
  over = λ h. k.over (λ e. cc (e, at));
  none_running = λ h. r;
}

Reach-IsKept : {t : Streams} → Reach start t → IsKept t
unfolding streams
Reach-IsKept here = record {
  each = λ n. ground (arith, count-nil n);
  none_lost = λ h. refl;
  open_while_handling = λ h. refl;
  queued_on = λ h on. ([], refl);
  queued_off = λ h off. cc;
  over = λ h. absurd (h refl);
  none_running = λ h. refl;
}
Reach-IsKept (next r st) = Step-IsKept st (Reach-IsKept r)

-- When `handle_all_streams` has returned, each stream was handled, lost or left in the channel, as
-- often as it was accepted; if the loop did not close the channel, each stream was handled.
pub returned-handled :
    {t : Streams}
    → Reach start t
    → t.stage ≡ returned
    → ((k : ℕ)
        → count k t.accepted ≡ count k t.handled + count k t.lost + count k (streams t.queued))
      × (t.closed ≡ false → (k : ℕ) → count k t.accepted ≡ count k t.handled)
unfolding streams
returned-handled {t} r at =
    let i = Reach-IsKept r in
    let none_left : (k : ℕ) → count k t.running ≡ 0 =
      λ k. ap (count k) (i.none_running at) ∙ count-nil k in
    (
      λ k. omega (arith, i.each k, none_left k),
      λ o k. omega (
        arith,
        i.each k,
        none_left k,
        ap (count k) (i.none_lost o),
        count-nil k,
        ap (λ q. count k (streams q)) (i.over (λ e. cc (e, at)) o).0,
      ),
    )
