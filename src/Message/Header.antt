-- ===== src/Message/Header.antt =====
-- Laws of the header's layout.
use Prim.Native.Nat.{bit_and, bit_or}
use crab_rs.Prelude.{
  ℕ, ◌<◌, ◌≡◌, refl, true, some, ◌∷◌, ◌++◌, arith, length, All, ◌==◌, ==_iff, ltb, ltb→lt,
}
use crab_rs.Prelude.Bytes.{
  Bytes, IsByte, read_u8, read_u16_le, read_u32_le, read_magic, read_u32_le-write,
}
use crab_rs.Prelude.Tables.{all_below, all_below_sound}
use crab_rs.Message.{
  Method, MessageHeader, IsHeader, method_code, read_method, read_header, write_header,
  option_error,
}

pub length-write_header : (h : MessageHeader) → length (write_header h) ≡ 12
unfolding write_header
length-write_header h = refl

read_method-code : (m : Method) (rest : Bytes) → read_method (method_code m) rest ≡ some (m, rest)
unfolding read_method method_code
read_method-code Method.handshake rest = refl
read_method-code _ rest = refl

-- A header whose fields are in range, once written, reads back, whatever follows it.
pub read_header-write_header :
    (h : MessageHeader) (rest : Bytes)
    → IsHeader h
    → read_header (write_header h ++ rest) ≡ some (h, rest)
unfolding read_header write_header read_magic read_u8 read_u16_le read_method method_code
read_header-write_header h rest v = ground (arith, read_u32_le-write h.length rest)

-- If bytes read as a header, its fields are in range, and the bytes are what the header writes,
-- followed by what the reader left: each header has one form.
pub write_header-read_header :
    (bs rest : Bytes) (h : MessageHeader)
    → All IsByte bs
    → read_header bs ≡ some (h, rest)
    → IsHeader h × (bs ≡ write_header h ++ rest)
unfolding read_header write_header read_magic read_u8 read_u16_le read_u32_le read_method
    method_code
write_header-read_header (a ∷ b ∷ c ∷ d ∷ v ∷ o ∷ m ∷ n ∷ w ∷ x ∷ y ∷ z ∷ bs) rest h bytes e =
    ground arith
write_header-read_header _ rest h bytes e = ground arith

error_bit_table : all_below 256 (λ o. bit_and (bit_or o option_error) option_error == 1) ≡ true
unfolding all_below
error_bit_table = refl

-- The error option survives whatever other bits the option has.
pub error_bit : (o : ℕ) → o < 256 → bit_and (bit_or o option_error) option_error ≡ 1
error_bit o h = (==_iff _ 1).0 (all_below_sound 256 _ o error_bit_table h)

error_option_table : all_below 256 (λ o. ltb (bit_or o option_error) 256) ≡ true
unfolding all_below
error_option_table = refl

pub error_option_u8 : (o : ℕ) → o < 256 → bit_or o option_error < 256
error_option_u8 o h =
    ltb→lt (bit_or o option_error) 256
      (all_below_sound 256 (λ x. ltb (bit_or x option_error) 256) o error_option_table h)
