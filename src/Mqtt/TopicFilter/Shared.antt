-- ===== src/Mqtt/TopicFilter/Shared.antt =====
-- Shared subscriptions of src/mqtt/mod.zig: `topicMatchesFilter` and `sharedTopicFilterInner` on the
-- filters that start with `$share/`.
use netz.Base.{
  ℕ, ◌≡◌, ◌≢◌, ◌<◌, ◌↔◌, refl, sym, subst, inl, inr, true, false, Bool-cases, Option-cases, some,
  [], ◌∷◌, ◌++◌, Bytes, All, length, drop, ◌==◌, ==_iff, arith,
}
use netz.Base.Strings.{contains, starts_with, split_scalar, split_first}
use netz.Base.Strings.Laws.{starts_with-prefix, split_first-some, split_first-group}
use netz.Mqtt.TopicFilter.{
  slash, plus, hash, share, valid_mqtt_utf8, has_wildcards, valid_topic_filter_levels,
  checked_share, shared_topic_filter_inner, match_effective, match_inner, topic_matches_filter,
}
use netz.Mqtt.TopicFilter.Validity.{ValidLevels, valid_topic_filter_levels_iff}
use netz.Mqtt.TopicFilter.Matching.{Matches, Reserved, match_effective_iff}

-- The byte does not occur.
abbrev pub Lacks : ℕ → Bytes → Type 0
Lacks x = All λ b. b ≢ x

contains-Lacks : (x : ℕ) (bs : Bytes) → contains x bs ≡ false → Lacks x bs
unfolding contains
contains-Lacks x [] h = tt
contains-Lacks x (b ∷ bs) h = elim (Bool-cases (b == x)) [
  | inl same ↦ absurd (ground arith)
  | inr apart ↦ ((λ e. ground arith), contains-Lacks x bs (rw apart at h))
]

Lacks-contains : (x : ℕ) (bs : Bytes) → Lacks x bs → contains x bs ≡ false
unfolding contains
Lacks-contains x [] l = refl
Lacks-contains x (b ∷ bs) l = elim (Bool-cases (b == x)) [
  | inl same ↦ absurd (l.0 ((==_iff b x).0 same))
  | inr apart ↦ rw apart (Lacks-contains x bs l.1)
]

-- A shared filter: the name of a group, and the filter in it, taken as it stands
pub record SharedMatch (topic filter : Bytes) : Type 0 where
  pub group : Bytes
  pub inner : Bytes
  pub whole : filter ≡ share ++ (group ++ slash ∷ inner)
  pub first_slash : Lacks slash group
  pub some_name : 0 < length group
  pub encoded : valid_mqtt_utf8 group ≡ true
  pub no_plus : Lacks plus group
  pub no_hash : Lacks hash group
  pub some_filter : 0 < length inner
  pub levels : ValidLevels (split_scalar slash inner)
  pub not_reserved : ¬ (Reserved topic inner)
  pub matched : Matches (split_scalar slash topic) (split_scalar slash inner)

-- What the tests on a group and the filter in it ask
record Checks (topic group inner : Bytes) : Type 0 where
  some_name : 0 < length group
  encoded : valid_mqtt_utf8 group ≡ true
  plain : has_wildcards group ≡ false
  valid : valid_topic_filter_levels inner ≡ true
  effective : match_effective topic inner ≡ true

checked_share-Checks :
    (topic group inner : Bytes)
    → match_inner topic (checked_share (some (group, inner))) ≡ true
    → Checks topic group inner
unfolding checked_share
checked_share-Checks topic group inner h = record {
  some_name = ground arith;
  encoded = ground arith;
  plain = ground arith;
  valid = ground arith;
  effective = ground arith;
}

Checks-checked_share :
    (topic group inner : Bytes)
    → Checks topic group inner
    → match_inner topic (checked_share (some (group, inner))) ≡ true
unfolding checked_share
Checks-checked_share topic group inner c =
    let named : (length group == 0) ≡ false = ground (arith, c.some_name) in
    rw (named, c.encoded, c.plain, c.valid) c.effective

Checks-SharedMatch :
    (topic group inner : Bytes)
    → contains slash group ≡ false
    → Checks topic group inner
    → SharedMatch topic (share ++ (group ++ slash ∷ inner))
unfolding has_wildcards
Checks-SharedMatch topic group inner n c =
    let (some_filter, levels) = (valid_topic_filter_levels_iff inner).0 c.valid in
    let (not_reserved, matched) = (match_effective_iff topic inner c.valid).0 c.effective in
    record {
      group = group;
      inner = inner;
      whole = refl;
      first_slash = contains-Lacks slash group n;
      some_name = c.some_name;
      encoded = c.encoded;
      no_plus = contains-Lacks plus group (ground (arith, c.plain));
      no_hash = contains-Lacks hash group (ground (arith, c.plain));
      some_filter = some_filter;
      levels = levels;
      not_reserved = not_reserved;
      matched = matched;
    }

split-Checks :
    (topic rest : Bytes)
    → match_inner topic (checked_share (split_first slash rest)) ≡ true
    → (group : Bytes) × (inner : Bytes) × (split_first slash rest ≡ some (group, inner))
      × Checks topic group inner
split-Checks topic rest h = elim (Option-cases (split_first slash rest)) [
  | inl nothing ↦ absurd (unfold checked_share in ground arith)
  | inr ((group, inner), found) ↦
      (group, inner, found, checked_share-Checks topic group inner (rw found at h))
]

shared_sound :
    (topic rest : Bytes)
    → match_inner topic (checked_share (split_first slash rest)) ≡ true
    → SharedMatch topic (share ++ rest)
shared_sound topic rest h =
    let (group, inner, found, checks) = split-Checks topic rest h in
    let (whole, no_slash) = split_first-some slash rest group inner found in
    subst (λ r. SharedMatch topic (share ++ r)) (sym whole)
      (Checks-SharedMatch topic group inner no_slash checks)

shared_complete :
    (topic filter : Bytes) → SharedMatch topic filter → topic_matches_filter topic filter ≡ true
unfolding topic_matches_filter shared_topic_filter_inner starts_with has_wildcards
shared_complete topic filter m =
    let valid = (valid_topic_filter_levels_iff m.inner).1 (m.some_filter, m.levels) in
    rw
      (
        m.whole,
        split_first-group slash m.group m.inner (Lacks-contains slash m.group m.first_slash),
      )
      (Checks-checked_share topic m.group m.inner record {
        some_name = m.some_name;
        encoded = m.encoded;
        plain = rw (Lacks-contains plus m.group m.no_plus) (Lacks-contains hash m.group m.no_hash);
        valid = valid;
        effective = (match_effective_iff topic m.inner valid).1 (m.not_reserved, m.matched);
      })

-- A filter that starts with `$share/` matches a topic exactly if what follows is a group, the first
-- slash and a filter, such that the group is not empty, is an MQTT string and has neither `+` nor `#`,
-- the filter is not empty and its levels are valid, the topic is not reserved from it, and the levels
-- of the topic match those of the filter. A `$share/` at the start of the filter in it is taken as a
-- level like any other.
pub topic_matches_filter_shared :
    (topic filter : Bytes)
    → starts_with filter share ≡ true
    → (topic_matches_filter topic filter ≡ true) ↔ SharedMatch topic filter
unfolding topic_matches_filter shared_topic_filter_inner
topic_matches_filter_shared topic filter starts = (
  λ h.
      let (rest, whole) = starts_with-prefix filter share starts in
      let same : drop 7 filter ≡ rest = rw whole refl in
      subst (SharedMatch topic) (sym whole) (shared_sound topic rest (rw (starts, same) at h)),
  shared_complete topic filter,
)
