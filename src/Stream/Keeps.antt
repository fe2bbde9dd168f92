-- ===== src/Stream/Keeps.antt =====
-- What reading and writing bytes keeps, reading and writing messages keeps.
use crab_rs.Prelude.{ℕ}
use crab_rs.Prelude.Io.Keeps.{Keeps, keeps_rules}
use crab_rs.Prelude.Bytes.{Bytes}
use crab_rs.Errors.{CrabError}
use crab_rs.Message.{Method, MessageHeader, AckMessage}
use crab_rs.Transport.{Transport, Codec}
use crab_rs.Stream.{read_payload, read_message, read_ack, write_message, write_error}

-- Bytes that are read or written leave `P` as it is.
pub record KeptByStream {W : Type 0} (t : Transport W) (P : W → Type 0) : Type 0 where
  pub by_read : (n : ℕ) → Keeps P (t.read_exact n)
  pub by_write : (bytes : Bytes) → Keeps P (t.write_all bytes)

module _ {W : Type 0} ⦃t : Transport W⦄ ⦃ack : Codec AckMessage⦄ {P : W → Type 0}
    (k : KeptByStream t P) where
  open k use {by_read, by_write}

  pub read_payload-Keeps :
      {M : Type 0} (c : Codec M) (h : MessageHeader) → Keeps P (read_payload c h)
  unfolding read_payload
  read_payload-Keeps c h = search (keeps_rules, by_read)

  pub read_message-Keeps : {M : Type 0} (c : Codec M) → Keeps P (read_message c)
  unfolding read_message
  read_message-Keeps c = search (keeps_rules, by_read, read_payload-Keeps)

  pub read_ack-Keeps : Keeps P read_ack
  unfolding read_ack
  read_ack-Keeps = search (keeps_rules, read_message-Keeps)

  pub write_message-Keeps :
      {M : Type 0} (c : Codec M) (method : Method) (option : ℕ) (m : M)
      → Keeps P (write_message c method option m)
  unfolding write_message
  write_message-Keeps c method option m = search (keeps_rules, by_write)

  pub write_error-Keeps :
      (method : Method) (option : ℕ) (e : CrabError) → Keeps P (write_error method option e)
  unfolding write_error
  write_error-Keeps method option e = search (write_message-Keeps)
