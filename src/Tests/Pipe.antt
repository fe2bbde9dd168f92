-- ===== src/Tests/Pipe.antt =====
-- A stream that is two lists of bytes, with a state `X` beside it, and an encoding.
use crab_rs.Prelude.{
  ℕ, ◌≡◌, refl, arith, Bool, true, Option, none, some, [], ◌∷◌, ◌++◌, length, take, drop, leb,
  if◌then◌else◌, Result, ok, err, length-append, take-length_append, drop-length_append, String,
}
use crab_rs.Prelude.Bytes.{Bytes, write_u32_le, read_u32_le}
use crab_rs.Message.{AckMessage}
use crab_rs.Transport.{Transport, Codec, IsReliable}

pub record Pipe (X : Type 0) : Type 0 where
  pub inbox : Bytes
  pub outbox : Bytes
  pub writable : Bool
  pub state : X

module _ {X : Type 0} where
  unfoldable pub read_exact : ℕ → Pipe X → Result String Bytes × Pipe X
  read_exact n w =
      if leb n (length w.inbox)
      then (ok (take n w.inbox), record w { inbox = drop n w.inbox })
      else (err "stream finished early", w)

  unfoldable pub write_all : Bytes → Pipe X → Result String (Unit {0}) × Pipe X
  write_all bytes w =
      if w.writable then (ok tt, record w { outbox = w.outbox ++ bytes }) else (err "stopped", w)

  instance abbrev pub pipe : Transport (Pipe X)
  pipe = record { read_exact = read_exact; write_all = write_all }

  pub read_ok :
      (front rest : Bytes) (w : Pipe X)
      → w.inbox ≡ front ++ rest
      → read_exact (length front) w ≡ (ok front, record w { inbox = rest })
  unfolding read_exact
  read_ok front rest w e = ground (
    arith,
    length-append front rest,
    take-length_append front rest,
    drop-length_append front rest,
  )

  pub write_ok :
      (bytes : Bytes) (w : Pipe X)
      → w.writable ≡ true
      → write_all bytes w ≡ (ok tt, record w { outbox = w.outbox ++ bytes })
  unfolding write_all
  write_ok bytes w e = ground arith

  abbrev pub pipe-IsReliable : IsReliable pipe
  pipe-IsReliable = record {
    inbox = λ w. w.inbox;
    outbox = λ w. w.outbox;
    writable = λ w. w.writable;
    read_exact_ok =
        λ front rest w e. (record w { inbox = rest }, read_ok front rest w e, refl, refl, refl);
    write_all_ok =
        λ bytes w e. (record w { outbox = w.outbox ++ bytes }, write_ok bytes w e, refl, refl, e);
  }

abbrev pub read_word : Option (ℕ × Bytes) → Option (AckMessage × ℕ)
read_word none = none
read_word (some (code, _)) = some (record { code = code; msg = none }, 4)

-- The code in four bytes; a message with a text is not encoded.
abbrev pub encode_ack : Option String → ℕ → Option Bytes
encode_ack none code = some (write_u32_le code)
encode_ack (some _) code = none

instance abbrev pub ack_codec : Codec AckMessage
ack_codec = record {
  encode = λ a. encode_ack a.msg a.code;
  decode = λ bytes. read_word (read_u32_le bytes);
}

abbrev pub first_byte : Bytes → Option (ℕ × ℕ)
first_byte [] = none
first_byte (b ∷ _) = some (b, 1)

-- A number that is one byte.
abbrev pub byte_codec : Codec ℕ
byte_codec = record { encode = λ n. some (n ∷ []); decode = first_byte }

abbrev pub pipe_with : {X : Type 0} → Bytes → X → Pipe X
pipe_with bytes x = record { inbox = bytes; outbox = []; writable = true; state = x }
