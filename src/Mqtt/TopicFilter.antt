-- ===== src/Mqtt/TopicFilter.antt =====
-- Topic names and topic filters of src/mqtt/mod.zig.
pub mod Matching
pub mod Names
pub mod Validity
pub mod Shared
use netz.Base.{
  ℕ, zero, suc, ◌+◌, ◌-◌, Bool, true, false, not, ◌&&◌, ◌||◌, Option, none, some, List, [], ◌∷◌,
  Bytes, length, drop, bytes_eq, ltb, leb, ◌==◌, if◌then◌else◌,
}
use netz.Base.Strings.{contains, starts_with, split_scalar, split_first}
use netz.Mqtt.Error.{Error, invalid_topic, invalid_subscription, Result, ok, err}

abbrev pub slash : ℕ
slash = 47

abbrev pub hash : ℕ
hash = 35

abbrev pub plus : ℕ
plus = 43

abbrev pub dollar : ℕ
dollar = 36

-- "$share/"
abbrev pub share : Bytes
share = 36 ∷ 115 ∷ 104 ∷ 97 ∷ 114 ∷ 101 ∷ 47 ∷ []

-- `std.unicode.utf8ValidateSlice`: `k` bytes of the sequence are to come, the next from `lo` to `hi`.
unfoldable pub utf8_loop : ℕ → ℕ → ℕ → Bytes → Bool
utf8_loop k lo hi [] = k == 0
utf8_loop (suc k) lo hi (b ∷ bs) =
    let rest = utf8_loop k 0x80 0xbf bs in leb lo b && leb b hi && rest
utf8_loop zero lo hi (b ∷ bs) =
    let one = utf8_loop 0 0x80 0xbf bs in
    let two = utf8_loop 1 0x80 0xbf bs in
    let three = utf8_loop 2 0x80 0xbf bs in
    let four = utf8_loop 3 0x80 0xbf bs in
    let after_e0 = utf8_loop 2 0xa0 0xbf bs in
    let after_ed = utf8_loop 2 0x80 0x9f bs in
    let after_f0 = utf8_loop 3 0x90 0xbf bs in
    let after_f4 = utf8_loop 3 0x80 0x8f bs in
    if ltb b 0x80
    then one
    else if ltb b 0xc2
    then false
    else if ltb b 0xe0
    then two
    else if b == 0xe0
    then after_e0
    else if b == 0xed
    then after_ed
    else if ltb b 0xf0
    then three
    else if b == 0xf0
    then after_f0
    else if ltb b 0xf4
    then four
    else if b == 0xf4
    then after_f4
    else false

-- In valid UTF-8 the code point 0 is the byte 0.
unfoldable pub valid_mqtt_utf8 : Bytes → Bool
unfolding utf8_loop contains
valid_mqtt_utf8 value = utf8_loop 0 0x80 0xbf value && not (contains 0 value)

unfoldable pub has_wildcards : Bytes → Bool
unfolding contains
has_wildcards value = contains plus value || contains hash value

unfoldable pub valid_topic_name : Bytes → Bool
unfolding valid_mqtt_utf8 has_wildcards
valid_topic_name topic =
    ltb 0 (length topic) && (valid_mqtt_utf8 topic && not (has_wildcards topic))

unfoldable pub validate_topic_name : Bytes → Result (Unit {0})
unfolding valid_topic_name
validate_topic_name topic = if not (valid_topic_name topic) then err invalid_topic else ok tt

abbrev pub is_last : List Bytes → Bool
is_last [] = true
is_last (x ∷ xs) = false

-- The `while (true)` of `validTopicFilterLevels`, on the levels `filter[start..end]` in turn.
unfoldable pub valid_levels : List Bytes → Bool
unfolding contains
valid_levels [] = true
valid_levels (level ∷ rest) =
    let next = valid_levels rest in
    if contains hash level
    then length level == 1 && is_last rest
    else if contains plus level && not (length level == 1)
    then false
    else if is_last rest
    then true
    else next

unfoldable pub valid_topic_filter_levels : Bytes → Bool
unfolding valid_levels split_scalar
valid_topic_filter_levels filter =
    if length filter == 0 then false else valid_levels (split_scalar slash filter)

unfoldable pub checked_share : Option (Bytes × Bytes) → Option Bytes
unfolding valid_mqtt_utf8 has_wildcards valid_topic_filter_levels
checked_share none = none
checked_share (some (group, shared_filter)) =
    if length group == 0 || (not (valid_mqtt_utf8 group) || has_wildcards group)
    then none
    else if not (valid_topic_filter_levels shared_filter)
    then none
    else some shared_filter

unfoldable pub shared_topic_filter_inner : Bytes → Option Bytes
unfolding starts_with split_first checked_share
shared_topic_filter_inner filter =
    if not (starts_with filter share)
    then none
    else checked_share (split_first slash (drop 7 filter))

abbrev pub is_some : Option Bytes → Bool
is_some (some x) = true
is_some none = false

unfoldable pub valid_topic_filter : Bytes → Bool
unfolding valid_mqtt_utf8 shared_topic_filter_inner valid_topic_filter_levels
valid_topic_filter filter =
    if not (valid_mqtt_utf8 filter)
    then false
    else if starts_with filter share
    then is_some (shared_topic_filter_inner filter)
    else valid_topic_filter_levels filter

unfoldable pub validate_topic_filter : Bytes → Result (Unit {0})
unfolding valid_topic_filter
validate_topic_filter filter =
    if not (valid_topic_filter filter) then err invalid_subscription else ok tt

-- The loop of `topicMatchesFilter` on what is left of the two iterators.
unfoldable pub match_levels : List Bytes → List Bytes → Bool
match_levels topic_levels [] = is_last topic_levels
match_levels [] (level ∷ filter_levels) = bytes_eq level (hash ∷ [])
match_levels (topic_level ∷ topic_levels) (level ∷ filter_levels) =
    let next = match_levels topic_levels filter_levels in
    if bytes_eq level (hash ∷ [])
    then true
    else if bytes_eq level (plus ∷ [])
    then next
    else if not (bytes_eq level topic_level)
    then false
    else next

unfoldable pub match_effective : Bytes → Bytes → Bool
unfolding starts_with match_levels split_scalar
match_effective topic effective_filter =
    if starts_with topic (dollar ∷ []) && not (starts_with effective_filter (dollar ∷ []))
    then false
    else match_levels (split_scalar slash topic) (split_scalar slash effective_filter)

abbrev pub match_inner : Bytes → Option Bytes → Bool
match_inner topic none = false
match_inner topic (some effective_filter) = match_effective topic effective_filter

unfoldable pub topic_matches_filter : Bytes → Bytes → Bool
unfolding starts_with shared_topic_filter_inner match_effective
topic_matches_filter topic filter =
    if starts_with filter share
    then match_inner topic (shared_topic_filter_inner filter)
    else match_effective topic filter
