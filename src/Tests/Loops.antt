-- ===== src/Tests/Loops.antt =====
-- Workers, which are numbers.
use crab_rs.Prelude.{ℕ, ◌≡◌, refl, [], ◌∷◌, ltb, inl, inr}
use crab_rs.Workers.{
  returned, Loop, start, cancelled, received_some, joined_next, all_joined, Reach, here, next,
}
use crab_rs.Workers.Laws.{count, returned-joined}

-- Two workers come, the second ends, the token is cancelled, and the first ends.
abbrev at_end : Loop ℕ
at_end = record { stage = returned; received = 2 ∷ 1 ∷ []; join_set = []; joined = 1 ∷ 2 ∷ [] }

at_end_reached : Reach start at_end
at_end_reached =
    next
      (next
        (next
          (next (next (next here (received_some 1 refl)) (received_some 2 refl))
            (joined_next [] (1 ∷ []) 2 (inl refl) refl))
          (cancelled refl))
        (joined_next [] [] 1 (inr refl) refl))
      (all_joined refl refl)

returned-joined_example : count (λ n. ltb 1 n) (1 ∷ 2 ∷ []) ≡ count (λ n. ltb 1 n) (2 ∷ 1 ∷ [])
returned-joined_example = returned-joined (λ n. ltb 1 n) at_end_reached refl
