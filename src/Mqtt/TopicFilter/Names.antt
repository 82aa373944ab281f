-- ===== src/Mqtt/TopicFilter/Names.antt =====
-- Topic names as filters: `validTopicName` and `topicMatchesFilter` of src/mqtt/mod.zig.
use netz.Base.{
  ℕ, ◌≡◌, ◌≢◌, ◌↔◌, ◌⊎◌, refl, sym, ap, ◌∙◌, inl, inr, Bool-cases, Bool, true, false, not, ◌&&◌,
  List, [], ◌∷◌, Bytes, All, bytes_eq, bytes_eq→eq, bytes_eq_refl, ◌==◌, if◌then◌else◌, arith,
}
use netz.Base.Strings.{contains, starts_with, push, split_scalar}
use netz.Base.Strings.Laws.{join, join-split_scalar}
use netz.Mqtt.TopicFilter.{
  slash, hash, plus, dollar, share, has_wildcards, valid_topic_name, match_levels, match_effective,
  topic_matches_filter,
}

-- No level of a name has a wildcard.
abbrev Literal : Bytes → Type 0
Literal level = has_wildcards level ≡ false

push-Literal :
    (b : ℕ) (levels : List Bytes)
    → has_wildcards (b ∷ []) ≡ false
    → All Literal levels
    → All Literal (push b levels)
unfolding has_wildcards contains
push-Literal b [] h all = (ground arith, tt)
push-Literal b (level ∷ levels) h all = (ground (arith, all.0), all.1)

split_scalar-Literal :
    (d : ℕ) (bs : Bytes) → has_wildcards bs ≡ false → All Literal (split_scalar d bs)
unfolding split_scalar has_wildcards contains
split_scalar-Literal d [] h = (refl, tt)
split_scalar-Literal d (b ∷ bs) h =
    let rest = split_scalar-Literal d bs (ground arith) in
    elim (Bool-cases (b == d)) [
      | inl new ↦ rw new (refl, rest)
      | inr same ↦ rw same (push-Literal b (split_scalar d bs) (ground arith) rest)
    ]

level_is_no_wildcard :
    (wildcard : ℕ) (level : Bytes)
    → (wildcard ≡ plus) ⊎ (wildcard ≡ hash)
    → Literal level
    → bytes_eq level (wildcard ∷ []) ≢ true
unfolding has_wildcards contains
level_is_no_wildcard wildcard [] w h e = ground arith
level_is_no_wildcard wildcard (b ∷ level) w h e = ground arith

other : {b : Bool} → b ≢ true → b ≡ false
other {b = true} n = absurd (n refl)
other {b = false} n = refl

match_levels-Literal :
    (topic filter : List Bytes)
    → All Literal filter
    → match_levels topic filter ≡ true
    → topic ≡ filter
unfolding match_levels has_wildcards contains
match_levels-Literal [] [] all h = refl
match_levels-Literal (t ∷ topic) [] all h = absurd (ground arith)
match_levels-Literal [] (level ∷ filter) all h =
    absurd (level_is_no_wildcard hash level (inr refl) all.0 h)
match_levels-Literal (t ∷ topic) (level ∷ filter) all h =
    let not_multi : bytes_eq level (hash ∷ []) ≡ false =
      other (level_is_no_wildcard hash level (inr refl) all.0) in
    let not_single : bytes_eq level (plus ∷ []) ≡ false =
      other (level_is_no_wildcard plus level (inl refl) all.0) in
    let same : level ≡ t = bytes_eq→eq _ _ (ground arith) in
    let next : match_levels topic filter ≡ true = ground arith in
    rw (same, match_levels-Literal topic filter all.1 next) refl

match_levels_refl : (levels : List Bytes) → match_levels levels levels ≡ true
unfolding match_levels
match_levels_refl [] = refl
match_levels_refl (level ∷ levels) = ground (arith, bytes_eq_refl level, match_levels_refl levels)

name_has_no_wildcards : (name : Bytes) → valid_topic_name name ≡ true → has_wildcards name ≡ false
unfolding valid_topic_name
name_has_no_wildcards name v = last _ _ _ v
  where
    last : (a b c : Bool) → a && (b && not c) ≡ true → c ≡ false
    last true true false h = refl
    last true true true h = absurd (ground arith)
    last true false c h = absurd (ground arith)
    last false b c h = absurd (ground arith)

matches_levels_of_effective :
    (topic filter : Bytes)
    → match_effective topic filter ≡ true
    → match_levels (split_scalar slash topic) (split_scalar slash filter) ≡ true
unfolding match_effective
matches_levels_of_effective topic filter h = last _ _ h
  where
    last : (a b : Bool) → (if a then false else b) ≡ true → b ≡ true
    last true b h = absurd (ground arith)
    last false b h = h

match_effective_refl : (name : Bytes) → match_effective name name ≡ true
unfolding match_effective
match_effective_refl name =
    last (starts_with name (dollar ∷ [])) (match_levels_refl (split_scalar slash name))
  where
    last : (a : Bool) {b : Bool} → b ≡ true → (if a && not a then false else b) ≡ true
    last true h = h
    last false h = h

-- A valid topic name that does not start with `$share/`, used as a filter, matches the topic of this
-- name and no other.
pub topic_matches_filter-valid_topic_name :
    (topic name : Bytes)
    → valid_topic_name name ≡ true
    → starts_with name share ≡ false
    → (topic_matches_filter topic name ≡ true) ↔ (topic ≡ name)
unfolding topic_matches_filter
topic_matches_filter-valid_topic_name topic name v plain = (
  λ h.
      let levels = matches_levels_of_effective topic name (rw plain at h) in
      let same =
        match_levels-Literal _ _ (split_scalar-Literal slash name (name_has_no_wildcards name v))
          levels in
      sym (join-split_scalar slash topic) ∙ ap (join slash) same ∙ join-split_scalar slash name,
  λ e. rw (e, plain) (match_effective_refl name),
)
