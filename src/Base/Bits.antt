-- ===== src/Base/Bits.antt =====
-- Masks on one byte as arithmetic: two functions that agree on a table agree below its size.
use Prim.Native.Nat.{ℕ, zero, suc, ◌+◌, ◌*◌, ◌/◌, ◌%◌, ◌<◌, bit_and, bit_or}
use mathlib.Core.Path.{◌≡◌, refl}
use mathlib.Core.Bool.{Bool, true, false}
use mathlib.Core.Logic.{inl, inr}
use native.Mathlib.Omega.{arith}
use netz.Base.Tests.{◌==◌, ==_iff, if◌then◌else◌, Bool-cases}

agree : (f g : ℕ → ℕ) → ℕ → Bool
agree f g zero = true
agree f g (suc size) = let smaller = agree f g size in if f size == g size then smaller else false

agree_sound :
    (f g : ℕ → ℕ) (size : ℕ) → agree f g size ≡ true → (byte : ℕ) → byte < size → f byte ≡ g byte
unfolding agree
agree_sound f g zero same byte below = absurd (omega arith)
agree_sound f g (suc size) same byte below = elim (Bool-cases (f size == g size)) [
  | inl here ↦ elim (Bool-cases (byte == size)) [
    | inl last ↦ rw ((==_iff byte size).0 last) ((==_iff (f size) (g size)).0 here)
    | inr other ↦ agree_sound f g size (rw here at same) byte (ground arith)
  ]
  | inr differ ↦ absurd (ground arith)
]

nibbles_agree : agree (λ b. bit_or (b / 16 * 16) (b % 16)) (λ b. b) 256 ≡ true
unfolding agree
nibbles_agree = refl

-- A byte from its two nibbles
pub join_nibbles : (hi lo : ℕ) → hi < 16 → lo < 16 → bit_or (hi * 16) lo ≡ hi * 16 + lo
join_nibbles hi lo p q =
    let whole = agree_sound _ _ 256 nibbles_agree (hi * 16 + lo) (omega arith) in
    let high : (hi * 16 + lo) / 16 ≡ hi = omega arith in
    let low : (hi * 16 + lo) % 16 ≡ lo = omega arith in rw (high, low) at whole

low_nibble_agrees : agree (λ b. bit_and b 15) (λ b. b % 16) 256 ≡ true
unfolding agree
low_nibble_agrees = refl

pub low_nibble : (b : ℕ) → b < 256 → bit_and b 15 ≡ b % 16
low_nibble b h = agree_sound _ _ 256 low_nibble_agrees b h

low_bits_agree : agree (λ b. bit_and b 127) (λ b. b % 128) 256 ≡ true
unfolding agree
low_bits_agree = refl

pub low_bits : (b : ℕ) → b < 256 → bit_and b 127 ≡ b % 128
low_bits b h = agree_sound _ _ 256 low_bits_agree b h

top_bit_agrees : agree (λ b. bit_and b 128) (λ b. b / 128 * 128) 256 ≡ true
unfolding agree
top_bit_agrees = refl

pub top_bit : (b : ℕ) → b < 256 → bit_and b 128 ≡ b / 128 * 128
top_bit b h = agree_sound _ _ 256 top_bit_agrees b h

set_top_bit_agrees : agree (λ b. bit_or b 128) (λ b. b + 128) 128 ≡ true
unfolding agree
set_top_bit_agrees = refl

pub set_top_bit : (b : ℕ) → b < 128 → bit_or b 128 ≡ b + 128
set_top_bit b h = agree_sound _ _ 128 set_top_bit_agrees b h
