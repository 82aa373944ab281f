-- ===== src/Mqtt/TopicFilter/Matching.antt =====
-- `topicMatchesFilter` of src/mqtt/mod.zig against the matching relation of MQTT.
use netz.Base.{
  ◌≡◌, ◌↔◌, refl, inl, inr, Bool-cases, Bool, true, false, not, ◌&&◌, List, [], ◌∷◌, Bytes,
  bytes_eq, bytes_eq→eq, bytes_eq_refl, if◌then◌else◌, arith,
}
use netz.Base.Strings.{contains, starts_with, split_scalar}
use netz.Mqtt.TopicFilter.{
  slash, hash, plus, dollar, share, valid_levels, valid_topic_filter_levels, match_levels,
  match_effective, topic_matches_filter,
}

-- A list of topic levels is matched level by level; `#` matches any number of levels, none included.
pub data Matches : List Bytes → List Bytes → Type 0 where
  all_matched : Matches [] []
  multi_level : (topic : List Bytes) → Matches topic ((hash ∷ []) ∷ [])
  single_level :
      (level : Bytes) (topic filter : List Bytes)
      → Matches topic filter
      → Matches (level ∷ topic) ((plus ∷ []) ∷ filter)
  same_level :
      (level : Bytes) (topic filter : List Bytes)
      → Matches topic filter
      → Matches (level ∷ topic) (level ∷ filter)

match_levels_complete :
    {topic filter : List Bytes} → Matches topic filter → match_levels topic filter ≡ true
unfolding match_levels
match_levels_complete all_matched = refl
match_levels_complete (multi_level []) = refl
match_levels_complete (multi_level (l ∷ topic)) = refl
match_levels_complete (single_level level topic filter m) = match_levels_complete m
match_levels_complete (same_level level topic filter m) =
    ground (arith, bytes_eq_refl level, match_levels_complete m)

hash_is_last : (rest : List Bytes) → valid_levels ((hash ∷ []) ∷ rest) ≡ true → rest ≡ []
unfolding valid_levels contains
hash_is_last [] v = refl
hash_is_last (r ∷ rest) v = absurd (ground arith)

valid_rest :
    (level : Bytes) (rest : List Bytes)
    → valid_levels (level ∷ rest) ≡ true
    → valid_levels rest ≡ true
unfolding valid_levels contains
valid_rest level [] v = refl
valid_rest level (r ∷ rest) v = ground arith

match_levels_sound :
    (topic filter : List Bytes)
    → valid_levels filter ≡ true
    → match_levels topic filter ≡ true
    → Matches topic filter
unfolding match_levels
match_levels_sound [] [] v h = all_matched
match_levels_sound (t ∷ topic) [] v h = absurd (ground arith)
match_levels_sound [] (level ∷ filter) v h =
    let first : level ≡ hash ∷ [] = bytes_eq→eq _ _ h in
    rw (first, hash_is_last filter (rw first at v)) (multi_level [])
match_levels_sound (t ∷ topic) (level ∷ filter) v h =
    elim (Bool-cases (bytes_eq level (hash ∷ []))) [
      | inl multi ↦
          let first : level ≡ hash ∷ [] = bytes_eq→eq _ _ multi in
          rw (first, hash_is_last filter (rw first at v)) (multi_level (t ∷ topic))
      | inr n ↦ elim (Bool-cases (bytes_eq level (plus ∷ []))) [
        | inl single ↦
            let first : level ≡ plus ∷ [] = bytes_eq→eq _ _ single in
            let next : match_levels topic filter ≡ true = ground arith in
            rw first (
              single_level t topic filter
                (match_levels_sound topic filter (valid_rest level filter v) next))
        | inr m ↦
            let first : level ≡ t = bytes_eq→eq _ _ (ground arith) in
            let next : match_levels topic filter ≡ true = ground arith in
            rw first (
              same_level t topic filter
                (match_levels_sound topic filter (valid_rest level filter v) next))
      ]
    ]

-- A topic that starts with `$` is reserved: a filter that does not start with `$` does not match it.
abbrev pub Reserved : Bytes → Bytes → Type 0
Reserved topic filter =
    (starts_with topic (dollar ∷ []) ≡ true) × (starts_with filter (dollar ∷ []) ≡ false)

not_reserved :
    (a b c : Bool)
    → ¬ ((a ≡ true) × (b ≡ false))
    → c ≡ true
    → (if a && not b then false else c) ≡ true
not_reserved true false c n h = absurd (n (refl, refl))
not_reserved true true c n h = h
not_reserved false b c n h = h

-- A valid filter matches the topics whose levels it matches and that are not reserved.
pub match_effective_iff :
    (topic filter : Bytes)
    → valid_topic_filter_levels filter ≡ true
    → (match_effective topic filter ≡ true) ↔ (
        (¬ (Reserved topic filter))
        × Matches (split_scalar slash topic) (split_scalar slash filter))
unfolding match_effective valid_topic_filter_levels
match_effective_iff topic filter v = (
  λ h. ((λ r. ground arith), match_levels_sound _ _ (ground arith) (ground arith)),
  λ (n, m). not_reserved _ _ _ n (match_levels_complete m),
)

-- For a valid filter that is not shared, `topic_matches_filter` is true exactly if the topic is not
-- one that starts with `$` while the filter does not, and the levels of the topic match those of the
-- filter: `+` one level, a last `#` the rest, any other level itself.
pub topic_matches_filter_iff :
    (topic filter : Bytes)
    → valid_topic_filter_levels filter ≡ true
    → starts_with filter share ≡ false
    → (topic_matches_filter topic filter ≡ true) ↔ (
        (¬ (Reserved topic filter))
        × Matches (split_scalar slash topic) (split_scalar slash filter))
unfolding topic_matches_filter
topic_matches_filter_iff topic filter v plain = rw plain (match_effective_iff topic filter v)
