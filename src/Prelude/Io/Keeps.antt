-- ===== src/Prelude/Io/Keeps.antt =====
-- Predicates on the world that an action keeps, whether it succeeds or fails: one rule for each way
-- to build an action.
use mathlib.Core.Path.{◌≡◌, refl}
use mathlib.Core.Bool.{Bool, true, false}
use crab_rs.Prelude.Tests.{if◌then◌else◌}
use crab_rs.Prelude.Results.{Result, ok, err}
use crab_rs.Prelude.Io.Defs.{Io, next, pure, raise, lift, from, attempt, match_on, branch, ◌>>=◌}

pub record Keeps {ℓ κ μ ν} {E : Type ℓ} {W : Type κ} {A : Type μ} (P : W → Type ν) (m : Io E W A)
    : Type (κ ⊔ ν) where
  pub at : (w : W) → P w → P (m w).1

module _ {ℓ κ μ ν} {E : Type ℓ} {W : Type κ} {A : Type μ} {P : W → Type ν} where
  pub Keeps-pure : (a : A) → Keeps P (pure {E = E} a)
  Keeps-pure a = record { at = λ w h. h }

  pub Keeps-raise : (e : E) → Keeps P (raise {A = A} e)
  Keeps-raise e = record { at = λ w h. h }

  pub Keeps-lift : (r : Result E A) → Keeps P (lift r)
  Keeps-lift r = record { at = λ w h. h }

  pub Keeps-attempt : (m : Io E W A) → Keeps P m → Keeps P (attempt m)
  Keeps-attempt m k = record { at = λ w h. k.at w h }

  pub Keeps-from {ξ} : {F : Type ξ} (f : F → E) (m : Io F W A) → Keeps P m → Keeps P (from f m)
  Keeps-from f m k = record { at = λ w h. k.at w h }

  pub Keeps-if : (b : Bool) (m n : Io E W A) → Keeps P m → Keeps P n → Keeps P (if b then m else n)
  Keeps-if true m n km kn = km
  Keeps-if false m n km kn = kn

module _ {ℓ κ μ ν ξ} {E : Type ℓ} {W : Type κ} {A : Type μ} {B : Type ν} {P : W → Type ξ} where
  Keeps-next :
      (p : Result E A × W) (f : A → Io E W B) → P p.1 → ((a : A) → Keeps P (f a)) → P (next p f).1
  Keeps-next (ok a, w) f h kf = (kf a).at w h
  Keeps-next (err e, w) f h kf = h

  pub Keeps-bind :
      (m : Io E W A) (f : A → Io E W B) → Keeps P m → ((a : A) → Keeps P (f a)) → Keeps P (m >>= f)
  Keeps-bind m f km kf = record { at = λ w h. Keeps-next (m w) f (km.at w h) kf }

  Keeps-branch :
      (p : Result E A × W) (f : A → Io E W B) (g : E → Io E W B)
      → P p.1
      → ((a : A) → Keeps P (f a))
      → ((e : E) → Keeps P (g e))
      → P (branch p f g).1
  Keeps-branch (ok a, w) f g h kf kg = (kf a).at w h
  Keeps-branch (err e, w) f g h kf kg = (kg e).at w h

  pub Keeps-match_on :
      (m : Io E W A) (f : A → Io E W B) (g : E → Io E W B)
      → Keeps P m
      → ((a : A) → Keeps P (f a))
      → ((e : E) → Keeps P (g e))
      → Keeps P (match_on m f g)
  Keeps-match_on m f g km kf kg = record { at = λ w h. Keeps-branch (m w) f g (km.at w h) kf kg }

pub ruleset keeps_rules = (
  Keeps-pure, Keeps-raise, Keeps-lift, Keeps-attempt, Keeps-from, Keeps-if, Keeps-bind,
  Keeps-match_on,
)

module _ {ℓ κ μ ν ξ} {E : Type ℓ} {W : Type κ} {A : Type μ} {B : Type ν} {P : W → Type ξ} where
  Keeps-next_at :
      (p : Result E A × W) (f : A → Io E W B)
      → P p.1
      → ((a : A) (v : W) → p ≡ (ok a, v) → Keeps P (f a))
      → P (next p f).1
  Keeps-next_at (ok a, w) f h kf = (kf a w refl).at w h
  Keeps-next_at (err e, w) f h kf = h

  -- The rest of the block may use what the first step gave, and that `P` held before it.
  pub Keeps-bind_at :
      (m : Io E W A) (f : A → Io E W B)
      → Keeps P m
      → ((a : A) (w v : W) → P w → m w ≡ (ok a, v) → Keeps P (f a))
      → Keeps P (m >>= f)
  Keeps-bind_at m f km kf = record {
    at = λ w h. Keeps-next_at (m w) f (km.at w h) (λ a v e. kf a w v h e);
  }
