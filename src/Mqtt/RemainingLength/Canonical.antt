-- ===== src/Mqtt/RemainingLength/Canonical.antt =====
-- The bytes that `decodeRemainingLength` of src/mqtt/mod.zig accepts.
use netz.Base.{
  ℕ, suc, ◌+◌, ◌*◌, ◌%◌, ◌^◌, ◌≤◌, ◌<◌, ◌≡◌, ◌⊎◌, inl, inr, Bool-cases, [], ◌∷◌, Bytes, take, All,
  ltb, arith,
}
use netz.Base.Bits.{low_bits, top_bit}
use netz.Mqtt.Error.{ok}
use netz.Mqtt.RemainingLength.{remaining_length_encoded_len, decode_loop, decode_remaining_length}
use netz.Mqtt.RemainingLength.Laws.{variable_byte_integer, IsByte}

-- A byte that the decoder took was the last one, or it went on behind it.
decode_cases :
    (b : ℕ) (rest : Bytes) (i multiplier value v len : ℕ)
    → b < 256
    → decode_loop (b ∷ rest) i multiplier value ≡ ok (v, len)
    → ((b < 128)
        × (v ≡ value + b * multiplier)
        × (len ≡ i + 1)
        × (remaining_length_encoded_len v ≡ i + 1))
      ⊎ ((128 ≤ b)
          × (multiplier * 128 ≤ 128 * 128 * 128)
          × (decode_loop rest (i + 1) (multiplier * 128) (value + b % 128 * multiplier)
              ≡ ok (v, len)))
unfolding decode_loop
decode_cases b rest i multiplier value v len byte h = elim (Bool-cases (ltb b 128)) [
  | inl low ↦ let small : b < 128 = ground arith in inl (ground (arith, low_bits b, top_bit b))
  | inr high ↦ let large : 128 ≤ b = ground arith in inr (ground (arith, low_bits b, top_bit b))
]

-- What was read from byte `i` on: the `n` bytes of a number `w`.
record Prefix (k i multiplier value v len : ℕ) (bytes : Bytes) : Type 0 where
  w : ℕ
  n : ℕ
  whole : v ≡ value + w * multiplier
  number_of_bytes : len ≡ i + n
  below : w < 128 * 128 ^ k
  positive : (i ≡ 0) ⊎ (0 < w)
  taken : take n bytes ≡ variable_byte_integer k w

read_fourth :
    (bytes : Bytes) (value v len : ℕ)
    → All IsByte bytes
    → value < 2097152
    → decode_loop bytes 3 2097152 value ≡ ok (v, len)
    → Prefix 0 3 2097152 value v len bytes
unfolding variable_byte_integer remaining_length_encoded_len
read_fourth [] value v len all q h = absurd (unfold decode_loop in ground arith)
read_fourth (b ∷ rest) value v len all q h =
    elim (decode_cases b rest 3 2097152 value v len all.0 h) [
      | inl (low, e, l, c) ↦ record {
        w = b;
        n = 1;
        whole = e;
        number_of_bytes = l;
        below = omega arith;
        positive = ground arith;
        taken = ground arith;
      }
      | inr (high, m, more) ↦ absurd (omega arith)
    ]

read_third :
    (bytes : Bytes) (value v len : ℕ)
    → All IsByte bytes
    → value < 16384
    → decode_loop bytes 2 16384 value ≡ ok (v, len)
    → Prefix 1 2 16384 value v len bytes
unfolding variable_byte_integer remaining_length_encoded_len
read_third [] value v len all q h = absurd (unfold decode_loop in ground arith)
read_third (b ∷ rest) value v len all q h = elim (decode_cases b rest 2 16384 value v len all.0 h) [
  | inl (low, e, l, c) ↦ record {
    w = b;
    n = 1;
    whole = e;
    number_of_bytes = l;
    below = omega arith;
    positive = ground arith;
    taken = ground arith;
  }
  | inr (high, m, more) ↦
      let r = read_fourth rest (value + b % 128 * 16384) v len all.1 (omega arith) more in
      let pos : 0 < r.w = ground arith in
      record {
        w = b % 128 + r.w * 128;
        n = suc r.n;
        whole = omega (arith, r.whole);
        number_of_bytes = omega (arith, r.number_of_bytes);
        below = omega (arith, r.below);
        positive = inr (omega (arith, pos));
        taken = ground (arith, r.taken, pos);
      }
]

read_second :
    (bytes : Bytes) (value v len : ℕ)
    → All IsByte bytes
    → value < 128
    → decode_loop bytes 1 128 value ≡ ok (v, len)
    → Prefix 2 1 128 value v len bytes
unfolding variable_byte_integer remaining_length_encoded_len
read_second [] value v len all q h = absurd (unfold decode_loop in ground arith)
read_second (b ∷ rest) value v len all q h = elim (decode_cases b rest 1 128 value v len all.0 h) [
  | inl (low, e, l, c) ↦ record {
    w = b;
    n = 1;
    whole = e;
    number_of_bytes = l;
    below = omega arith;
    positive = ground arith;
    taken = ground arith;
  }
  | inr (high, m, more) ↦
      let r = read_third rest (value + b % 128 * 128) v len all.1 (omega arith) more in
      let pos : 0 < r.w = ground arith in
      record {
        w = b % 128 + r.w * 128;
        n = suc r.n;
        whole = omega (arith, r.whole);
        number_of_bytes = omega (arith, r.number_of_bytes);
        below = omega (arith, r.below);
        positive = inr (omega (arith, pos));
        taken = ground (arith, r.taken, pos);
      }
]

read_first :
    (bytes : Bytes) (value v len : ℕ)
    → All IsByte bytes
    → value < 1
    → decode_loop bytes 0 1 value ≡ ok (v, len)
    → Prefix 3 0 1 value v len bytes
unfolding variable_byte_integer remaining_length_encoded_len
read_first [] value v len all q h = absurd (unfold decode_loop in ground arith)
read_first (b ∷ rest) value v len all q h = elim (decode_cases b rest 0 1 value v len all.0 h) [
  | inl (low, e, l, c) ↦ record {
    w = b;
    n = 1;
    whole = e;
    number_of_bytes = l;
    below = omega arith;
    positive = ground arith;
    taken = ground arith;
  }
  | inr (high, m, more) ↦
      let r = read_second rest (value + b % 128 * 1) v len all.1 (omega arith) more in
      let pos : 0 < r.w = ground arith in
      record {
        w = b % 128 + r.w * 128;
        n = suc r.n;
        whole = omega (arith, r.whole);
        number_of_bytes = omega (arith, r.number_of_bytes);
        below = omega (arith, r.below);
        positive = inr (omega (arith, pos));
        taken = ground (arith, r.taken, pos);
      }
]

-- When `decode_remaining_length` accepts bytes, the value is at most 268 435 455 and the bytes that
-- were read are its Variable Byte Integer: no longer encoding of a value is accepted.
pub decode_remaining_length-canonical :
    (bytes : Bytes) (v len : ℕ)
    → All IsByte bytes
    → decode_remaining_length bytes ≡ ok (v, len)
    → (v ≤ 268435455) × (take len bytes ≡ variable_byte_integer 3 v)
unfolding decode_remaining_length
decode_remaining_length-canonical bytes v len all h =
    let r = read_first bytes 0 v len all (omega arith) h in
    let same : v ≡ r.w = omega (arith, r.whole) in
    let size : len ≡ r.n = omega (arith, r.number_of_bytes) in
    (omega (arith, r.below), rw (same, size) r.taken)
