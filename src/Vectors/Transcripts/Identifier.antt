-- ===== src/Vectors/Transcripts/Identifier.antt =====
-- The identifiers that `assigned_client_identifier` of tools/interop/mqtt_mosquitto_vectors.py takes,
-- described by the bytes that they are made of.
use netz.Base.{
  ℕ, ◌≤◌, ◌≡◌, refl, sym, ap, ◌∙◌, ◌⊎◌, inl, inr, Bool, true, false, ◌&&◌, List, [], ◌∷◌, ◌++◌, map,
  Bytes, All, length, bytes_eq, bytes_eq→eq, leb, arith, Bool-cases,
}
use netz.Base.Strings.{starts_with, split_scalar}
use netz.Base.Strings.Laws.{starts_with-prefix, join, join-split_scalar}
use netz.Vectors.Scenarios.Assigned.{
  every, netz_prefix, dash, remove_prefix, is_hexadecimal, every_part, is_assigned,
}

-- `0` to `9` or `a` to `f`
abbrev pub IsHexDigit : ℕ → Type 0
IsHexDigit c = ((48 ≤ c) × (c ≤ 57)) ⊎ ((97 ≤ c) × (c ≤ 102))

abbrev pub Digits : ℕ → Bytes → Type 0
Digits n part = (length part ≡ n) × All IsHexDigit part

-- "netz-", then 8, 4, 4, 4 and 12 lower-case hexadecimal digits with a `-` between them
pub record IsIdentifier (id : Bytes) : Type 0 where
  pub a : Bytes
  pub b : Bytes
  pub c : Bytes
  pub d : Bytes
  pub e : Bytes
  pub whole : id ≡ 110 ∷ 101 ∷ 116 ∷ 122 ∷ 45 ∷ (a ++ 45 ∷ (b ++ 45 ∷ (c ++ 45 ∷ (d ++ 45 ∷ e))))
  pub first : Digits 8 a
  pub second : Digits 4 b
  pub third : Digits 4 c
  pub fourth : Digits 4 d
  pub fifth : Digits 12 e

is_hexadecimal-IsHexDigit : (c : ℕ) → is_hexadecimal c ≡ true → IsHexDigit c
is_hexadecimal-IsHexDigit c h = elim (Bool-cases (leb 48 c && leb c 57)) [
  | inl digit ↦ inl (ground arith, ground arith)
  | inr other ↦ inr (ground arith, ground arith)
]

every-IsHexDigit : (part : Bytes) → every is_hexadecimal part ≡ true → All IsHexDigit part
every-IsHexDigit [] h = tt
every-IsHexDigit (c ∷ part) h = elim (Bool-cases (is_hexadecimal c)) [
  | inl digit ↦ (is_hexadecimal-IsHexDigit c digit, every-IsHexDigit part (rw digit at h))
  | inr other ↦ absurd (ground arith)
]

every_part-IsHexDigit : (parts : List Bytes) → every_part parts ≡ true → All (All IsHexDigit) parts
every_part-IsHexDigit [] h = tt
every_part-IsHexDigit (part ∷ parts) h = elim (Bool-cases (every is_hexadecimal part)) [
  | inl digits ↦ (every-IsHexDigit part digits, every_part-IsHexDigit parts (rw digits at h))
  | inr other ↦ absurd (ground arith)
]

-- Five parts of these lengths, joined
five_parts-IsIdentifier :
    (parts : List Bytes) (id : Bytes)
    → map length parts ≡ 8 ∷ 4 ∷ 4 ∷ 4 ∷ 12 ∷ []
    → All (All IsHexDigit) parts
    → id ≡ netz_prefix ++ join dash parts
    → IsIdentifier id
unfolding join
five_parts-IsIdentifier (a ∷ b ∷ c ∷ d ∷ e ∷ []) id sizes (a', (b', (c', (d', (e', none))))) whole =
    record {
      a = a;
      b = b;
      c = c;
      d = d;
      e = e;
      whole = whole;
      first = (ground arith, a');
      second = (ground arith, b');
      third = (ground arith, c');
      fourth = (ground arith, d');
      fifth = (ground arith, e');
    }
five_parts-IsIdentifier [] id sizes digits whole = absurd (ground arith)
five_parts-IsIdentifier (a ∷ []) id sizes digits whole = absurd (ground arith)
five_parts-IsIdentifier (a ∷ b ∷ []) id sizes digits whole = absurd (ground arith)
five_parts-IsIdentifier (a ∷ b ∷ c ∷ []) id sizes digits whole = absurd (ground arith)
five_parts-IsIdentifier (a ∷ b ∷ c ∷ d ∷ []) id sizes digits whole = absurd (ground arith)
five_parts-IsIdentifier (a ∷ b ∷ c ∷ d ∷ e ∷ f ∷ parts) id sizes digits whole =
    absurd (ground arith)

three : (a b c : Bool) → a && (b && c) ≡ true → (a ≡ true) × (b ≡ true) × (c ≡ true)
three true true true h = (refl, refl, refl)
three true true false h = absurd (ground arith)
three true false c h = absurd (ground arith)
three false b c h = absurd (ground arith)

pub is_assigned-IsIdentifier : (id : Bytes) → is_assigned id ≡ true → IsIdentifier id
unfolding is_assigned remove_prefix
is_assigned-IsIdentifier id h =
    let (starts, sizes, digits) =
      three (starts_with id netz_prefix)
        (bytes_eq (map length (split_scalar dash (remove_prefix netz_prefix id)))
          (8 ∷ 4 ∷ 4 ∷ 4 ∷ 12 ∷ []))
        (every_part (split_scalar dash (remove_prefix netz_prefix id))) h in
    let (rest, whole) = starts_with-prefix id netz_prefix starts in
    let removed : remove_prefix netz_prefix id ≡ rest = rw (starts, whole) refl in
    let parts = split_scalar dash rest in
    five_parts-IsIdentifier parts id (bytes_eq→eq _ _ (rw removed at sizes))
      (every_part-IsHexDigit parts (rw removed at digits))
      (whole ∙ ap (λ bs. netz_prefix ++ bs) (sym (join-split_scalar dash rest)))
