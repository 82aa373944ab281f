-- ===== src/Mqtt/Samples.antt =====
-- The MQTT codec and topic filters of src/mqtt/mod.zig on given values.
use netz.Base.{◌≤◌, ◌<◌, ◌≡◌, ◌↔◌, refl, true, [], ◌∷◌, ◌++◌, Bytes, length, take, arith}
use netz.Mqtt.Error.{ok, ◌>>=◌}
use netz.Mqtt.RemainingLength.{
  encode_remaining_length, decode_remaining_length, remaining_length_encoded_len, decode_loop,
  FixedHeader, parse, write,
}
use netz.Mqtt.RemainingLength.Laws.{
  variable_byte_integer, encode_remaining_length-variable_byte_integer,
  decode_remaining_length-variable_byte_integer,
}
use netz.Mqtt.RemainingLength.Canonical.{decode_remaining_length-canonical}
use netz.Mqtt.RemainingLength.Framing.{parse-write}
use netz.Base.Strings.{split_scalar, starts_with, contains}
use netz.Mqtt.TopicFilter.{
  slash, share, valid_mqtt_utf8, utf8_loop, has_wildcards, valid_topic_name, valid_levels,
  valid_topic_filter_levels, topic_matches_filter,
}
use netz.Mqtt.TopicFilter.Matching.{Matches, Reserved, topic_matches_filter_iff}
use netz.Mqtt.TopicFilter.Shared.{SharedMatch, topic_matches_filter_shared}
use netz.Mqtt.TopicFilter.Validity.{ValidLevels, valid_topic_filter_levels_iff}
use netz.Mqtt.TopicFilter.Names.{topic_matches_filter-valid_topic_name}

encode_remaining_length-variable_byte_integer_example :
    encode_remaining_length 321 ≡ ok (193 ∷ 2 ∷ [])
unfolding variable_byte_integer
encode_remaining_length-variable_byte_integer_example =
    encode_remaining_length-variable_byte_integer 321 (omega arith)

decode_remaining_length-variable_byte_integer_example :
    decode_remaining_length (193 ∷ 2 ∷ 7 ∷ []) ≡ ok (321, 2)
unfolding variable_byte_integer remaining_length_encoded_len
decode_remaining_length-variable_byte_integer_example =
    decode_remaining_length-variable_byte_integer 321 (7 ∷ []) (omega arith)

decode_remaining_length-canonical_example :
    (321 ≤ 268435455) × (take 2 (193 ∷ 2 ∷ 7 ∷ []) ≡ variable_byte_integer 3 321)
unfolding decode_remaining_length decode_loop remaining_length_encoded_len
decode_remaining_length-canonical_example =
    decode_remaining_length-canonical (193 ∷ 2 ∷ 7 ∷ []) 321 2
      (omega arith, (omega arith, (omega arith, tt))) refl

abbrev publish_header : FixedHeader
publish_header = record { packet_type = 3; flags = 11; remaining_len = 321; header_len = 0 }

parse-write_example :
    (write publish_header [] >>= λ list. parse (list ++ 7 ∷ []))
    ≡ ok (record publish_header { header_len = 3 })
unfolding remaining_length_encoded_len
parse-write_example =
    parse-write publish_header (7 ∷ []) (omega arith) (omega arith) (omega arith) (omega arith)

-- "a/b", "a/+", "$share/g/a/+"
abbrev a_b : Bytes
a_b = 97 ∷ 47 ∷ 98 ∷ []

abbrev a_any : Bytes
a_any = 97 ∷ 47 ∷ 43 ∷ []

abbrev group : Bytes
group = 103 ∷ []

topic_matches_filter_iff_example :
    (topic_matches_filter a_b a_any ≡ true)
    ↔ ((¬ (Reserved a_b a_any)) × Matches (split_scalar slash a_b) (split_scalar slash a_any))
unfolding valid_topic_filter_levels valid_levels contains split_scalar starts_with
topic_matches_filter_iff_example = topic_matches_filter_iff a_b a_any refl refl

topic_matches_filter_shared_example :
    (topic_matches_filter a_b (share ++ (group ++ slash ∷ a_any)) ≡ true)
    ↔ SharedMatch a_b (share ++ (group ++ slash ∷ a_any))
unfolding starts_with
topic_matches_filter_shared_example =
    topic_matches_filter_shared a_b (share ++ (group ++ slash ∷ a_any)) refl

topic_matches_filter-valid_topic_name_example :
    (topic_matches_filter a_any a_b ≡ true) ↔ (a_any ≡ a_b)
unfolding valid_topic_name valid_mqtt_utf8 utf8_loop has_wildcards contains starts_with
topic_matches_filter-valid_topic_name_example =
    topic_matches_filter-valid_topic_name a_any a_b refl refl

valid_topic_filter_levels_iff_example :
    (valid_topic_filter_levels a_any ≡ true)
    ↔ ((0 < length a_any) × ValidLevels (split_scalar slash a_any))
valid_topic_filter_levels_iff_example = valid_topic_filter_levels_iff a_any
