-- ===== src/Prelude/Bytes.antt =====
-- Readers and writers of fixed-width integers on byte lists. A reader gives back what it left.
use Prim.Native.Nat.{ℕ, zero, suc, ◌+◌, ◌*◌, ◌/◌, ◌%◌, ◌<◌, ◌^◌}
use mathlib.Core.Path.{◌≡◌, refl}
use mathlib.Core.Option.{Option, none, some}
use mathlib.Core.List.{List, [], ◌∷◌, ◌++◌}
use native.Mathlib.Omega.{arith}
use crab_rs.Prelude.Lists.{length}
use crab_rs.Prelude.Tests.{◌==◌, if◌then◌else◌}

abbrev pub Bytes : Type 0
Bytes = List ℕ

abbrev pub IsByte : ℕ → Type 0
IsByte b = b < 256

abbrev pub Reader {ℓ} : Type ℓ → Type ℓ
Reader A = Bytes → Option (A × Bytes)

module _ {ℓ} {A : Type ℓ} where
  abbrev pub done : A → Reader A
  done a bs = some (a, bs)

  abbrev pub fail : Reader A
  fail bs = none

module _ {ℓ κ} {A : Type ℓ} {B : Type κ} where
  abbrev pub follow : Option (A × Bytes) → (A → Reader B) → Option (B × Bytes)
  follow none f = none
  follow (some (a, rest)) f = f a rest

  infixl 10 ◌>>=◌
  abbrev pub ◌>>=◌ : Reader A → (A → Reader B) → Reader B
  ◌>>=◌ r f bs = follow (r bs) f

  infixl 10 ◌>>◌
  abbrev pub ◌>>◌ : Reader A → Reader B → Reader B
  r >> k = r >>= λ _. k

unfoldable pub read_u8 : Reader ℕ
read_u8 [] = none
read_u8 (b ∷ bs) = some (b, bs)

unfoldable pub read_u16_le : Reader ℕ
unfolding read_u8
read_u16_le = do lo ← read_u8; hi ← read_u8; done (lo + 256 * hi)

unfoldable pub read_u32_le : Reader ℕ
unfolding read_u16_le
read_u32_le = do lo ← read_u16_le; hi ← read_u16_le; done (lo + 65536 * hi)

unfoldable pub read_u16_be : Reader ℕ
unfolding read_u8
read_u16_be = do hi ← read_u8; lo ← read_u8; done (256 * hi + lo)

-- `n` bytes, or nothing if there are not so many.
pub read_bytes : ℕ → Reader Bytes
read_bytes zero bs = some ([], bs)
read_bytes (suc n) [] = none
read_bytes (suc n) (b ∷ bs) = follow (read_bytes n bs) (λ xs rest. some (b ∷ xs, rest))

-- The bytes that have to stand there.
unfoldable pub read_magic : Bytes → Reader (Unit {0})
read_magic [] bs = some (tt, bs)
read_magic (m ∷ ms) [] = none
read_magic (m ∷ ms) (b ∷ bs) = let rest = read_magic ms bs in if b == m then rest else none

abbrev pub write_u16_le : ℕ → Bytes
write_u16_le n = (n % 256) ∷ (n / 256 % 256) ∷ []

abbrev pub write_u32_le : ℕ → Bytes
write_u32_le n = (n % 256) ∷ (n / 256 % 256) ∷ (n / 65536 % 256) ∷ (n / 16777216 % 256) ∷ []

abbrev pub write_u16_be : ℕ → Bytes
write_u16_be n = (n / 256 % 256) ∷ (n % 256) ∷ []

pub read_u16_le-write :
    (n : ℕ) (rest : Bytes) → n < 65536 → read_u16_le (write_u16_le n ++ rest) ≡ some (n, rest)
unfolding read_u16_le
read_u16_le-write n rest h = ground arith

pub read_u16_be-write :
    (n : ℕ) (rest : Bytes) → n < 65536 → read_u16_be (write_u16_be n ++ rest) ≡ some (n, rest)
unfolding read_u16_be
read_u16_be-write n rest h = ground arith

pub read_u32_le-write :
    (n : ℕ) (rest : Bytes) → n < 2 ^ 32 → read_u32_le (write_u32_le n ++ rest) ≡ some (n, rest)
unfolding read_u32_le
read_u32_le-write n rest h = ground arith

pub read_bytes-append : (xs rest : Bytes) → read_bytes (length xs) (xs ++ rest) ≡ some (xs, rest)
unfolding read_bytes
read_bytes-append [] rest = refl
read_bytes-append (x ∷ xs) rest = rw (read_bytes-append xs rest)

pub read_bytes-short : (n : ℕ) (bs : Bytes) → length bs < n → read_bytes n bs ≡ none
unfolding read_bytes
read_bytes-short zero bs h = absurd (omega arith)
read_bytes-short (suc n) [] h = refl
read_bytes-short (suc n) (b ∷ bs) h = rw (read_bytes-short n bs (omega arith))
