-- ===== src/Mqtt/RemainingLength/Laws.antt =====
-- The Remaining Length of src/mqtt/mod.zig against the Variable Byte Integer of MQTT.
use netz.Base.{
  ℕ, zero, suc, ◌+◌, ◌*◌, ◌/◌, ◌%◌, ◌^◌, ◌≤◌, ◌<◌, ◌≡◌, refl, [], ◌∷◌, ◌++◌, Bytes, length, ltb,
  if◌then◌else◌, arith,
}
use native.Mathlib.Nat.{pow-suc}
use netz.Base.Bits.{low_bits, top_bit, set_top_bit}
use netz.Mqtt.Error.{ok, err, remaining_length_too_large}
use netz.Mqtt.RemainingLength.{
  encode_loop, encode_remaining_length, remaining_length_encoded_len, decode_loop,
  decode_remaining_length,
}

-- The groups of seven bits, lowest first, all but the last with the top bit set: the Variable Byte
-- Integer of MQTT 5, section 1.5.5, for values below 128 ^ (k + 1)
unfoldable pub variable_byte_integer : ℕ → ℕ → Bytes
variable_byte_integer zero v = v ∷ []
variable_byte_integer (suc k) v =
    let rest = variable_byte_integer k (v / 128) in
    if ltb v 128 then v ∷ [] else (v % 128 + 128) ∷ rest

encode_loop-variable_byte_integer :
    (k v : ℕ) → v < 128 * 128 ^ k → encode_loop (suc k) v ≡ ok (variable_byte_integer k v)
unfolding encode_loop variable_byte_integer
encode_loop-variable_byte_integer zero v h = ground arith
encode_loop-variable_byte_integer (suc k) v h = ground (
  arith,
  pow-suc 128 k,
  set_top_bit (v % 128) (omega arith),
  encode_loop-variable_byte_integer k (v / 128),
)

-- On a value of at most 268 435 455 the encoder writes its Variable Byte Integer: groups of seven
-- bits, lowest first, all but the last with the top bit set.
pub encode_remaining_length-variable_byte_integer :
    (v : ℕ) → v ≤ 268435455 → encode_remaining_length v ≡ ok (variable_byte_integer 3 v)
unfolding encode_remaining_length
encode_remaining_length-variable_byte_integer v h =
    ground (arith, encode_loop-variable_byte_integer 3 v (omega arith))

-- A larger value is refused.
pub encode_remaining_length_too_large :
    (v : ℕ) → 268435455 < v → encode_remaining_length v ≡ err remaining_length_too_large
unfolding encode_remaining_length
encode_remaining_length_too_large v h = ground arith

pub length-variable_byte_integer :
    (v : ℕ) → length (variable_byte_integer 3 v) ≡ remaining_length_encoded_len v
unfolding variable_byte_integer remaining_length_encoded_len
length-variable_byte_integer v = ground arith

-- One byte of the decoder's loop: the last one, and one before it.
decode_last :
    (b i multiplier value : ℕ) (rest : Bytes)
    → b < 128
    → remaining_length_encoded_len (value + b * multiplier) ≡ i + 1
    → decode_loop (b ∷ rest) i multiplier value ≡ ok (value + b * multiplier, i + 1)
unfolding decode_loop
decode_last b i multiplier value rest h e =
    ground (arith, low_bits b (omega arith), top_bit b (omega arith))

decode_inner :
    (b i multiplier value : ℕ) (rest : Bytes)
    → b < 128
    → multiplier * 128 ≤ 128 * 128 * 128
    → decode_loop ((b + 128) ∷ rest) i multiplier value
      ≡ decode_loop rest (i + 1) (multiplier * 128) (value + b * multiplier)
unfolding decode_loop
decode_inner b i multiplier value rest h m =
    ground (arith, low_bits (b + 128) (omega arith), top_bit (b + 128) (omega arith))

decode_fourth :
    (v value : ℕ) (rest : Bytes)
    → v < 128
    → 0 < v
    → value < 2097152
    → decode_loop (variable_byte_integer 0 v ++ rest) 3 2097152 value
      ≡ ok (value + v * 2097152, remaining_length_encoded_len (value + v * 2097152))
unfolding variable_byte_integer remaining_length_encoded_len
decode_fourth v value rest h p q = ground (arith, decode_last v 3 2097152 value rest)

decode_third :
    (v value : ℕ) (rest : Bytes)
    → v < 16384
    → 0 < v
    → value < 16384
    → decode_loop (variable_byte_integer 1 v ++ rest) 2 16384 value
      ≡ ok (value + v * 16384, remaining_length_encoded_len (value + v * 16384))
unfolding variable_byte_integer remaining_length_encoded_len
decode_third v value rest h p q = ground (
  arith,
  decode_last v 2 16384 value rest,
  decode_inner (v % 128) 2 16384 value (variable_byte_integer 0 (v / 128) ++ rest) (omega arith)
      (omega arith),
  decode_fourth (v / 128) (value + v % 128 * 16384) rest,
)

decode_second :
    (v value : ℕ) (rest : Bytes)
    → v < 2097152
    → 0 < v
    → value < 128
    → decode_loop (variable_byte_integer 2 v ++ rest) 1 128 value
      ≡ ok (value + v * 128, remaining_length_encoded_len (value + v * 128))
unfolding variable_byte_integer remaining_length_encoded_len
decode_second v value rest h p q = ground (
  arith,
  decode_last v 1 128 value rest,
  decode_inner (v % 128) 1 128 value (variable_byte_integer 1 (v / 128) ++ rest) (omega arith)
      (omega arith),
  decode_third (v / 128) (value + v % 128 * 128) rest,
)

decode_first :
    (v value : ℕ) (rest : Bytes)
    → v < 268435456
    → value ≡ 0
    → decode_loop (variable_byte_integer 3 v ++ rest) 0 1 value
      ≡ ok (value + v * 1, remaining_length_encoded_len (value + v * 1))
unfolding variable_byte_integer remaining_length_encoded_len
decode_first v value rest h q = ground (
  arith,
  decode_last v 0 1 value rest,
  decode_inner (v % 128) 0 1 value (variable_byte_integer 2 (v / 128) ++ rest) (omega arith)
      (omega arith),
  decode_second (v / 128) (value + v % 128 * 1) rest,
)

-- Whatever follows it, the Variable Byte Integer of a value of at most 268 435 455 is decoded to the
-- value and the number of its bytes.
pub decode_remaining_length-variable_byte_integer :
    (v : ℕ) (rest : Bytes)
    → v ≤ 268435455
    → decode_remaining_length (variable_byte_integer 3 v ++ rest)
      ≡ ok (v, remaining_length_encoded_len v)
unfolding decode_remaining_length
decode_remaining_length-variable_byte_integer v rest h =
    ground (arith, decode_first v 0 rest (omega arith) refl)

abbrev pub IsByte : ℕ → Type 0
IsByte b = b < 256
