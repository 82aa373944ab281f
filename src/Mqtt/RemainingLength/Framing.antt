-- ===== src/Mqtt/RemainingLength/Framing.antt =====
-- `FixedHeader.parse` after `FixedHeader.write`, src/mqtt/mod.zig.
use netz.Base.{
  ℕ, zero, suc, false, ◌+◌, ◌*◌, ◌/◌, ◌%◌, ◌≤◌, ◌<◌, ◌≡◌, refl, inl, inr, Bool-cases, [], ◌∷◌, ◌++◌,
  Bytes, ltb, ◌==◌, arith,
}
use netz.Base.Bits.{join_nibbles, low_nibble}
use netz.Mqtt.Error.{ok, ◌>>=◌}
use netz.Mqtt.RemainingLength.{
  remaining_length_encoded_len, decode_remaining_length, FixedHeader, parse, write,
}
use netz.Mqtt.RemainingLength.Laws.{
  variable_byte_integer, encode_remaining_length-variable_byte_integer,
  decode_remaining_length-variable_byte_integer,
}

variable_byte_integer-cons :
    (k v : ℕ) → (x : ℕ) × (xs : Bytes) × (variable_byte_integer k v ≡ x ∷ xs)
unfolding variable_byte_integer
variable_byte_integer-cons zero v = (v, [], refl)
variable_byte_integer-cons (suc k) v = elim (Bool-cases (ltb v 128)) [
  | inl low ↦ (v, [], rw low refl)
  | inr high ↦ (v % 128 + 128, variable_byte_integer k (v / 128), rw high refl)
]

-- What a first byte with a type and flags parses to, when the length behind it decodes.
parse-first :
    (b value len : ℕ) (x : ℕ) (xs rest : Bytes)
    → 15 < b
    → b < 256
    → decode_remaining_length (x ∷ xs ++ rest) ≡ ok (value, len)
    → parse (b ∷ x ∷ xs ++ rest)
      ≡ ok (record {
        packet_type = b / 16;
        flags = b % 16;
        remaining_len = value;
        header_len = 1 + len;
      })
unfolding parse
parse-first b value len x xs rest large byte h =
    let typed : (b / 16 == 0) ≡ false = ground arith in rw (typed, h, low_nibble b byte) refl

-- A header with a type from 1 to 15, flags of four bits and a length in range is read back from what
-- `write` appends to an empty list, whatever follows it; the length of the header is filled in.
pub parse-write :
    (header : FixedHeader) (rest : Bytes)
    → 0 < header.packet_type
    → header.packet_type < 16
    → header.flags < 16
    → header.remaining_len ≤ 268435455
    → (write header [] >>= λ list. parse (list ++ rest))
      ≡ ok (record header { header_len = 1 + remaining_length_encoded_len header.remaining_len })
unfolding write
parse-write header rest p q f n =
    let (x, xs, shape) = variable_byte_integer-cons 3 header.remaining_len in
    let high : (header.packet_type * 16 + header.flags) / 16 ≡ header.packet_type = omega arith in
    let low : (header.packet_type * 16 + header.flags) % 16 ≡ header.flags = omega arith in
    let decoded = decode_remaining_length-variable_byte_integer header.remaining_len rest n in
    let read =
      parse-first (header.packet_type * 16 + header.flags) _ _ x xs rest (omega arith) (omega arith)
        (rw shape at decoded) in
    rw
      (
        encode_remaining_length-variable_byte_integer header.remaining_len n,
        shape,
        join_nibbles header.packet_type header.flags q f,
      )
      (rw (high, low) at read)
