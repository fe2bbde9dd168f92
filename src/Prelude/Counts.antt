-- ===== src/Prelude/Counts.antt =====
-- How often a number stands in a list.
use Prim.Native.Nat.{ℕ, ◌+◌}
use mathlib.Core.Path.{◌≡◌, refl}
use mathlib.Core.List.{List, [], ◌∷◌, ◌++◌}
use native.Mathlib.Omega.{arith}
use crab_rs.Prelude.Tests.{◌==◌, if◌then◌else◌}

abbrev pub one_if : ℕ → ℕ → ℕ
one_if k x = if k == x then 1 else 0

unfoldable pub count : ℕ → List ℕ → ℕ
count k [] = 0
count k (x ∷ xs) = one_if k x + count k xs

pub count-nil : (k : ℕ) → count k [] ≡ 0
unfolding count
count-nil k = refl

pub count-cons : (k x : ℕ) (xs : List ℕ) → count k (x ∷ xs) ≡ one_if k x + count k xs
unfolding count
count-cons k x xs = refl

pub count-append : (k : ℕ) (xs ys : List ℕ) → count k (xs ++ ys) ≡ count k xs + count k ys
unfolding count
count-append k [] ys = omega arith
count-append k (x ∷ xs) ys = omega (arith, count-append k xs ys)

-- An element between two lists counts once more than the lists without it.
pub count-middle :
    (k x : ℕ) (before after : List ℕ)
    → count k (before ++ x ∷ after) ≡ one_if k x + count k (before ++ after)
unfolding count
count-middle k x before after =
    omega
      (arith, count-append k before (x ∷ after), count-append k before after, count-cons k x after)
