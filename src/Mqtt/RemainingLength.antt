-- ===== src/Mqtt/RemainingLength.antt =====
-- `encodeRemainingLength` and `decodeRemainingLength` of src/mqtt/mod.zig, and `FixedHeader`.
-- `usize` has 64 bits; no sum here passes 2 ^ 28, so nothing wraps.
pub mod Laws
pub mod Canonical
pub mod Framing
use netz.Base.{
  ℕ, zero, suc, ◌+◌, ◌*◌, ◌/◌, ◌%◌, Bool, true, false, List, [], ◌∷◌, ◌++◌, Bytes, length, ltb,
  ◌==◌, bit_and, bit_or, if◌then◌else◌,
}
use netz.Mqtt.Error.{
  Error, buffer_too_short, malformed_remaining_length, remaining_length_too_large,
  invalid_packet_type, out_of_fuel, Result, ok, err, ◌>>=◌,
}

-- The `while (true)`: each round divides by 128, so four rounds are enough below 128 ^ 4.
unfoldable pub encode_loop : ℕ → ℕ → Result Bytes
encode_loop zero x = err out_of_fuel
encode_loop (suc fuel) x =
    let encoded = x % 128 in
    let rest : Result Bytes = (do bs ← encode_loop fuel (x / 128); ok (bit_or encoded 128 ∷ bs)) in
    if x / 128 == 0 then ok (encoded ∷ []) else rest

unfoldable pub encode_remaining_length : ℕ → Result Bytes
unfolding encode_loop
encode_remaining_length value =
    if ltb 268435455 value then err remaining_length_too_large else encode_loop 4 value

unfoldable pub remaining_length_encoded_len : ℕ → ℕ
remaining_length_encoded_len value =
    if ltb value 128
    then 1
    else if ltb value (128 * 128)
    then 2
    else if ltb value (128 * 128 * 128)
    then 3
    else 4

-- `for (bytes, 0..) |byte, i|`; the result is the value and its length.
unfoldable pub decode_loop : Bytes → ℕ → ℕ → ℕ → Result (ℕ × ℕ)
unfolding remaining_length_encoded_len
decode_loop [] i multiplier value = err buffer_too_short
decode_loop (byte ∷ bytes) i multiplier value =
    let value' = value + bit_and byte 127 * multiplier in
    let more = decode_loop bytes (i + 1) (multiplier * 128) value' in
    if bit_and byte 128 == 0
    then if remaining_length_encoded_len value' == i + 1
      then ok (value', i + 1)
      else err malformed_remaining_length
    else if ltb (128 * 128 * 128) (multiplier * 128)
    then err malformed_remaining_length
    else more

unfoldable pub decode_remaining_length : Bytes → Result (ℕ × ℕ)
unfolding decode_loop
decode_remaining_length bytes = decode_loop bytes 0 1 0

-- `PacketType` is a nibble from 1 to 15.
pub record FixedHeader : Type 0 where
  pub packet_type : ℕ
  pub flags : ℕ
  pub remaining_len : ℕ
  pub header_len : ℕ

unfoldable pub parse : Bytes → Result FixedHeader
parse [] = err buffer_too_short
parse (_ ∷ []) = err buffer_too_short
parse (first ∷ second ∷ rest) = if first / 16 == 0 then err invalid_packet_type else do
  (value, len) ← decode_remaining_length (second ∷ rest)
  ok (record {
    packet_type = first / 16;
    flags = bit_and first 0x0f;
    remaining_len = value;
    header_len = 1 + len;
  })

unfoldable pub write : FixedHeader → Bytes → Result Bytes
write header list = do
  encoded ← encode_remaining_length header.remaining_len
  ok (list ++ (bit_or (header.packet_type * 16) header.flags ∷ encoded))
