-- ===== src/Mqtt/TopicFilter/Validity.antt =====
-- `validTopicFilterLevels` of src/mqtt/mod.zig against a description level by level.
use netz.Base.{
  ℕ, ◌≡◌, ◌<◌, ◌↔◌, ◌⊎◌, refl, inl, inr, Bool, true, false, not, ◌&&◌, Bool-cases, List, [], ◌∷◌,
  Bytes, length, ◌==◌, arith,
}
use netz.Base.Strings.{contains, split_scalar}
use netz.Base.Strings.Laws.{split_scalar-cons}
use netz.Mqtt.TopicFilter.{slash, hash, plus, valid_levels, valid_topic_filter_levels}

-- A level without `#`, in which `+` stands alone
abbrev pub IsLevel : Bytes → Type 0
IsLevel level =
    (contains hash level ≡ false) × ((contains plus level ≡ false) ⊎ (level ≡ plus ∷ []))

-- The levels of a filter: `#` only as the whole of the last one
pub data ValidLevels : List Bytes → Type 0 where
  multi_level : ValidLevels ((hash ∷ []) ∷ [])
  last_level : (level : Bytes) → IsLevel level → ValidLevels (level ∷ [])
  inner_level :
      (level next : Bytes) (rest : List Bytes)
      → IsLevel level
      → ValidLevels (next ∷ rest)
      → ValidLevels (level ∷ next ∷ rest)

single : (x : ℕ) (level : Bytes) → contains x level ≡ true → length level ≡ 1 → level ≡ x ∷ []
unfolding contains
single x [] c n = absurd (ground arith)
single x (b ∷ []) c n = ground arith
single x (b ∷ d ∷ bs) c n = absurd (omega arith)

-- The test on `+`, which is made when there is no `#`
abbrev plus_refused : Bytes → Bool
plus_refused level = contains plus level && not (length level == 1)

plus_refused-IsLevel :
    (level : Bytes) → contains hash level ≡ false → plus_refused level ≡ false → IsLevel level
plus_refused-IsLevel level no_hash accepted = elim (Bool-cases (contains plus level)) [
  | inl wild ↦ (no_hash, inr (single plus level wild (ground arith)))
  | inr plain ↦ (no_hash, inl plain)
]

plus_refused-false : (level : Bytes) → IsLevel level → plus_refused level ≡ false
plus_refused-false level (no_hash, inl plain) = rw plain refl
plus_refused-false level (no_hash, inr alone) = rw alone (unfold contains in refl)

levels_sound :
    (level : Bytes) (rest : List Bytes)
    → valid_levels (level ∷ rest) ≡ true
    → ValidLevels (level ∷ rest)
unfolding valid_levels
levels_sound level [] v = elim (Bool-cases (contains hash level)) [
  | inl wild ↦ rw (single hash level wild (ground arith)) multi_level
  | inr plain ↦ last_level level (plus_refused-IsLevel level plain (ground arith))
]
levels_sound level (next ∷ rest) v =
    let plain : contains hash level ≡ false = ground arith in
    let accepted : plus_refused level ≡ false = ground arith in
    inner_level level next rest (plus_refused-IsLevel level plain accepted)
      (levels_sound next rest (rw (plain, accepted) at v))

levels_complete : (levels : List Bytes) → ValidLevels levels → valid_levels levels ≡ true
unfolding valid_levels contains
levels_complete levels multi_level = refl
levels_complete levels (last_level level ok) = rw (ok.0, plus_refused-false level ok) refl
levels_complete levels (inner_level level next rest ok more) =
    rw (ok.0, plus_refused-false level ok) (levels_complete (next ∷ rest) more)

-- `valid_topic_filter_levels` accepts a filter exactly if it is not empty, and `#` occurs only as the
-- whole of its last level and `+` only as a whole level. (The test of the UTF-8 encoding and of a
-- `$share/` prefix is `valid_topic_filter`.)
pub valid_topic_filter_levels_iff :
    (filter : Bytes)
    → (valid_topic_filter_levels filter ≡ true)
      ↔ ((0 < length filter) × ValidLevels (split_scalar slash filter))
unfolding valid_topic_filter_levels
valid_topic_filter_levels_iff filter =
    let (level, rest, shape) = split_scalar-cons slash filter in
    (
      λ v.
          let valid : valid_levels (split_scalar slash filter) ≡ true = ground arith in
          (ground arith, rw shape (levels_sound level rest (rw shape at valid))),
      λ (some_byte, levels). ground (arith, levels_complete (split_scalar slash filter) levels),
    )
