-- ===== src/Prelude/Io/Defs.antt =====
-- Fallible code that acts on a world `W`: what was done before an error stays done, so the world
-- comes back beside the error too.
use native.Mathlib.Omega.{arith}
use mathlib.Core.Path.{◌≡◌, refl}
use crab_rs.Prelude.Results.{Result, ok, err, map_err}

abbrev pub Io {ℓ κ μ} : Type ℓ → Type κ → Type μ → Type (ℓ ⊔ κ ⊔ μ)
Io E W A = W → Result E A × W

module _ {ℓ κ μ} {E : Type ℓ} {W : Type κ} {A : Type μ} where
  abbrev pub pure : A → Io E W A
  pure a w = (ok a, w)

  abbrev pub raise : E → Io E W A
  raise e w = (err e, w)

  abbrev pub lift : Result E A → Io E W A
  lift r w = (r, w)

  -- `e.map_err(f)?`, and the conversion that `?` makes from a foreign error
  abbrev pub from {ν} : {F : Type ν} → (F → E) → Io F W A → Io E W A
  from f m w = let (r, w') = m w in (map_err f r, w')

  -- The result as a value, for a `match` on it.
  abbrev pub attempt : Io E W A → Io E W (Result E A)
  attempt m w = let (r, w') = m w in (ok r, w')

-- The rest of a block, after a step that gave this result and this world.
module _ {ℓ κ μ ν} {E : Type ℓ} {W : Type κ} {A : Type μ} {B : Type ν} where
  abbrev pub next : Result E A × W → (A → Io E W B) → Result E B × W
  next (ok a, w) f = f a w
  next (err e, w) f = (err e, w)

  infixl 10 ◌>>=◌ ◌>>◌
  abbrev pub ◌>>=◌ : Io E W A → (A → Io E W B) → Io E W B
  ◌>>=◌ m f w = next (m w) f

  abbrev pub ◌>>◌ : Io E W A → Io E W B → Io E W B
  m >> k = m >>= λ _. k

  -- `match m.await { Ok(a) => f(a), Err(e) => g(e) }`
  abbrev pub branch : Result E A × W → (A → Io E W B) → (E → Io E W B) → Result E B × W
  branch (ok a, w) f g = f a w
  branch (err e, w) f g = g e w

  abbrev pub match_on : Io E W A → (A → Io E W B) → (E → Io E W B) → Io E W B
  match_on m f g w = branch (m w) f g

-- An effect on the world that does not fail.
abbrev pub act {ℓ κ} : {E : Type ℓ} {W : Type κ} → (W → W) → Io E W (Unit {0})
act f w = (ok tt, f w)

-- `let _ = m.await;`
abbrev pub ignore {ℓ κ μ} : {E : Type ℓ} {W : Type κ} {A : Type μ} → Io E W A → Io E W (Unit {0})
ignore m = match_on m (λ _. pure tt) (λ _. pure tt)

-- A block that succeeded did so after a first step that succeeded.
pub >>=-eq-ok {ℓ κ μ ν} :
    {E : Type ℓ} {W : Type κ} {A : Type μ} {B : Type ν} (m : Io E W A) (f : A → Io E W B) {w w' : W}
    {b : B}
    → (m >>= f) w ≡ (ok b, w')
    → (a : A) × (v : W) × (m w ≡ (ok a, v)) × (f a v ≡ (ok b, w'))
>>=-eq-ok {E} {W} {A} {B} m f {w} {w'} {b} h = split (m w) refl
  where
    split :
        (p : Result E A × W)
        → m w ≡ p
        → (a : A) × (v : W) × (m w ≡ (ok a, v)) × (f a v ≡ (ok b, w'))
    split (ok a, v) e = (a, v, e, rw e at h)
    split (err x, v) e = cc (h, e)

module _ {ℓ κ μ ν} {E : Type ℓ} {F : Type κ} {W : Type μ} {A : Type ν} where
  from-ok :
      (f : F → E) (p : Result F A × W) {a : A} {w : W}
      → ◌≡◌ {A = Result E A × W} (map_err f p.0, p.1) (ok a, w)
      → p ≡ (ok a, w)
  from-ok f (ok b, v) e = ground arith
  from-ok f (err x, v) e = cc

  -- A foreign action that succeeded under a conversion of its error succeeded.
  pub from-eq-ok :
      (f : F → E) (m : Io F W A) {a : A} {w v : W} → from f m w ≡ (ok a, v) → m w ≡ (ok a, v)
  from-eq-ok f m {a} {w} e = from-ok f (m w) e
