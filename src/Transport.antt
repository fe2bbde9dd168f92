-- ===== src/Transport.antt =====
-- What the program takes from the libraries that carry and encode messages: a QUIC stream of quinn,
-- and the serde encoding of a type by bincode.
use crab_rs.Prelude.{ℕ, ◌≡◌, Bool, true, Option, some, ◌++◌, length, String, ok}
use crab_rs.Prelude.Io.{Io}
use crab_rs.Prelude.Bytes.{Bytes}

-- The two halves of one bidirectional stream. An error is the text that quinn prints for it.
pub record Transport (W : Type 0) : Type 0 where
  -- `RecvStream::read_exact` into a buffer of that length
  pub read_exact : ℕ → Io String W Bytes
  -- `SendStream::write_all`
  pub write_all : Bytes → Io String W (Unit {0})

-- `encode_into_std_write` and `decode_from_slice` with the standard configuration. Decoding gives
-- back how many bytes it used.
pub record Codec (M : Type 0) : Type 0 where
  pub encode : M → Option Bytes
  pub decode : Bytes → Option (M × ℕ)

-- Decoding gives back a message that was encoded.
abbrev pub RoundTrips : {M : Type 0} → Codec M → M → Bytes → Type 0
RoundTrips c m payload = (c.encode m ≡ some payload) × (c.decode payload ≡ some (m, length payload))

-- Streams as quinn describes them: bytes arrive in order, a read of bytes that have arrived takes
-- exactly these, and a write to a stream that the peer has not stopped appends to what was sent.
pub record IsReliable {W : Type 0} (t : Transport W) : Type 0 where
  pub inbox : W → Bytes
  pub outbox : W → Bytes
  pub writable : W → Bool
  pub read_exact_ok :
      (front rest : Bytes) (w : W)
      → inbox w ≡ front ++ rest
      → (w' : W) × (t.read_exact (length front) w ≡ (ok front, w'))
        × (inbox w' ≡ rest)
        × (outbox w' ≡ outbox w)
        × (writable w' ≡ writable w)
  pub write_all_ok :
      (bytes : Bytes) (w : W)
      → writable w ≡ true
      → (w' : W) × (t.write_all bytes w ≡ (ok tt, w'))
        × (inbox w' ≡ inbox w)
        × (outbox w' ≡ outbox w ++ bytes)
        × (writable w' ≡ true)
