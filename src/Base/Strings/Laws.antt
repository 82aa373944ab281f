-- ===== src/Base/Strings/Laws.antt =====
-- What a test on strings of bytes says of the string, the prefix, the occurrence and the first part
-- that it found, and that joining undoes splitting.
use netz.Base.{
  ℕ, ◌≡◌, refl, ap, true, false, inl, inr, Bool-cases, Option-cases, some, [], ◌∷◌, ◌++◌, Bytes,
  ◌==◌, ==_iff, List, ◌∙◌, arith,
}
use netz.Base.Strings.{contains, starts_with, push, split_scalar, split_first, occurs}

pub starts_with-prefix :
    (value prefix : Bytes)
    → starts_with value prefix ≡ true
    → (rest : Bytes) × (value ≡ prefix ++ rest)
unfolding starts_with
starts_with-prefix value [] h = (value, refl)
starts_with-prefix [] (p ∷ prefix) h = absurd (ground arith)
starts_with-prefix (b ∷ value) (p ∷ prefix) h =
    let (rest, whole) = starts_with-prefix value prefix (ground arith) in
    let same : b ≡ p = (==_iff b p).0 (ground arith) in (rest, rw (same, whole) refl)

pub occurs-between :
    (needle value : Bytes)
    → occurs needle value ≡ true
    → (before : Bytes) × (after : Bytes) × (value ≡ before ++ (needle ++ after))
unfolding occurs
occurs-between needle [] h = let (rest, whole) = starts_with-prefix [] needle h in ([], rest, whole)
occurs-between needle (b ∷ value) h = elim (Bool-cases (starts_with (b ∷ value) needle)) [
  | inl here ↦ let (rest, whole) = starts_with-prefix (b ∷ value) needle here in ([], rest, whole)
  | inr later ↦
      let (before, after, whole) = occurs-between needle value (rw later at h) in
      (b ∷ before, after, ap (λ bs. b ∷ bs) whole)
]

starts_with-append : (prefix rest : Bytes) → starts_with (prefix ++ rest) prefix ≡ true
unfolding starts_with
starts_with-append [] rest = refl
starts_with-append (p ∷ prefix) rest = ground (arith, starts_with-append prefix rest)

pub between-occurs :
    (needle before after : Bytes) → occurs needle (before ++ (needle ++ after)) ≡ true
unfolding occurs starts_with
between-occurs [] [] [] = refl
between-occurs [] [] (b ∷ after) = refl
between-occurs (p ∷ needle) [] after = ground (arith, starts_with-append needle after)
between-occurs needle (b ∷ before) after =
    let later = between-occurs needle before after in
    elim (Bool-cases (starts_with (b ∷ (before ++ (needle ++ after))) needle)) [
      | inl here ↦ rw here refl
      | inr other ↦ rw other later
    ]

pub split_first-some :
    (d : ℕ) (value group rest : Bytes)
    → split_first d value ≡ some (group, rest)
    → (value ≡ group ++ d ∷ rest) × (contains d group ≡ false)
unfolding split_first contains
split_first-some d [] group rest h = absurd (ground arith)
split_first-some d (b ∷ value) group rest h = elim (Bool-cases (b == d)) [
  | inl here ↦
      let no_group : [] ≡ group = ground arith in
      let all : value ≡ rest = ground arith in
      let same : b ≡ d = (==_iff b d).0 here in rw (← no_group) (rw (same, all) refl, refl)
  | inr later ↦ elim (Option-cases (split_first d value)) [
    | inl nothing ↦ absurd (ground arith)
    | inr ((x, y), found) ↦
        let (whole, no_slash) = split_first-some d value x y found in
        let longer : b ∷ x ≡ group = ground arith in
        let all : y ≡ rest = ground arith in
        rw (← longer, ← all) (ap (λ bs. b ∷ bs) whole, ground arith)
  ]
]

-- The parts joined again
unfoldable pub join : ℕ → List Bytes → Bytes
join d [] = []
join d (level ∷ []) = level
join d (level ∷ next ∷ rest) = level ++ d ∷ join d (next ∷ rest)

pub split_scalar-cons :
    (d : ℕ) (bs : Bytes)
    → (level : Bytes) × (rest : List Bytes) × (split_scalar d bs ≡ level ∷ rest)
unfolding split_scalar
split_scalar-cons d [] = ([], [], refl)
split_scalar-cons d (b ∷ bs) =
    let (level, rest, shape) = split_scalar-cons d bs in
    elim (Bool-cases (b == d)) [
      | inl new ↦ ([], split_scalar d bs, rw new refl)
      | inr same ↦ (b ∷ level, rest, rw (same, shape) refl)
    ]

join-push :
    (d b : ℕ) (level : Bytes) (rest : List Bytes)
    → join d (push b (level ∷ rest)) ≡ b ∷ join d (level ∷ rest)
unfolding join
join-push d b level [] = refl
join-push d b level (r ∷ rest) = refl

pub join-split_scalar : (d : ℕ) (bs : Bytes) → join d (split_scalar d bs) ≡ bs
unfolding split_scalar join
join-split_scalar d [] = refl
join-split_scalar d (b ∷ bs) =
    let (level, rest, shape) = split_scalar-cons d bs in
    let whole = rw shape at (join-split_scalar d bs) in
    elim (Bool-cases (b == d)) [
      | inl new ↦ rw (new, shape) (rw (whole, (==_iff b d).0 new) refl)
      | inr same ↦ rw (same, shape) (join-push d b level rest ∙ ap (λ xs. b ∷ xs) whole)
    ]

pub split_first-group :
    (d : ℕ) (group rest : Bytes)
    → contains d group ≡ false
    → split_first d (group ++ d ∷ rest) ≡ some (group, rest)
unfolding split_first contains
split_first-group d [] rest n = ground arith
split_first-group d (b ∷ group) rest n =
    rw (split_first-group d group rest (ground arith)) (ground arith)
