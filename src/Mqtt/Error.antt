-- ===== src/Mqtt/Error.antt =====
-- `Error` of src/mqtt/mod.zig, without the allocator's: the model's lists are unbounded.
-- `out_of_fuel` is no Zig error: a loop of the model stopped before the loop of the source.
pub data Error : Type 0 where
  buffer_too_short malformed_remaining_length remaining_length_too_large : Error
  invalid_packet_type invalid_flags invalid_topic invalid_subscription : Error
  out_of_fuel : Error

pub data Result {ℓ} (A : Type ℓ) : Type ℓ where
  ok : A → Result A
  err : Error → Result A

infixl 5 ◌>>=◌
abbrev pub ◌>>=◌ {ℓ κ} : {A : Type ℓ} {B : Type κ} → Result A → (A → Result B) → Result B
ok a >>= f = f a
err e >>= f = err e
