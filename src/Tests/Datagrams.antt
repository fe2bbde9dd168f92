-- ===== src/Tests/Datagrams.antt =====
-- Datagrams on a stream.
use crab_rs.Prelude.{ℕ, ◌+◌, ◌*◌, ◌≡◌, refl, ap, String, [], ◌∷◌, Result, ok, err}
use crab_rs.Prelude.Bytes.{Bytes}
use crab_rs.Prelude.Io.{Io}
use crab_rs.Udp.PacketLaws.{ReadsU16}
use crab_rs.Tests.Pipe.{Pipe, pipe, pipe-IsReliable}

module _ {X : Type 0} where
  abbrev pub two_bytes : Bytes → Pipe X → Result String ℕ × Pipe X
  two_bytes (hi ∷ lo ∷ rest) w = (ok (256 * hi + lo), record w { inbox = rest })
  two_bytes _ w = (err "stream finished early", w)

  abbrev pub read_u16 : Io String (Pipe X) ℕ
  read_u16 w = two_bytes w.inbox w

  pub read_u16-ReadsU16 : ReadsU16 pipe-IsReliable read_u16
  read_u16-ReadsU16 = record {
    read_u16_ok =
        λ hi lo rest w e. (record w { inbox = rest }, ap (λ b. two_bytes b w) e, refl, refl, refl);
  }

  pub read_u16-state : (w : Pipe X) → (read_u16 w).1.state ≡ w.state
  read_u16-state w = two_bytes-state w.inbox w
    where
      two_bytes-state : (bytes : Bytes) (w : Pipe X) → (two_bytes bytes w).1.state ≡ w.state
      two_bytes-state (hi ∷ lo ∷ rest) w = refl
      two_bytes-state (hi ∷ []) w = refl
      two_bytes-state [] w = refl
