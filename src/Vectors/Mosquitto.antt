-- ===== src/Vectors/Mosquitto.antt =====
-- Mosquitto's packet generators, which tools/interop/mqtt_mosquitto_vectors.py imports from outside
-- the repository: parameters, called with the keyword arguments that the vectors give. `none` is a
-- keyword that the call leaves out.
use netz.Base.{ℕ, Bool, Option, none, some, Bytes, List}
use netz.Vectors.World.{Text}

pub record ConnectArgs : Type 0 where
  pub client_id : Option Text
  pub proto_ver : ℕ
  pub clean_session : Option Bool
  pub keepalive : Option ℕ
  pub session_expiry : Option ℕ
  pub will_topic : Option Text
  pub will_payload : Option Bytes
  pub will_properties : Option Bytes
  pub properties : Option Bytes

abbrev pub connect_args : Option Text → ℕ → ConnectArgs
connect_args c v = record {
  client_id = c;
  proto_ver = v;
  clean_session = none;
  keepalive = none;
  session_expiry = none;
  will_topic = none;
  will_payload = none;
  will_properties = none;
  properties = none;
}

-- `payload = some none` is `payload=None`.
pub record PublishArgs : Type 0 where
  pub topic : Text
  pub qos : ℕ
  pub proto_ver : ℕ
  pub mid : Option ℕ
  pub payload : Option (Option Text)
  pub retain : Option Bool
  pub dup : Option Bool
  pub properties : Option Bytes

abbrev pub publish_args : Text → ℕ → ℕ → PublishArgs
publish_args t q v = record {
  topic = t;
  qos = q;
  proto_ver = v;
  mid = none;
  payload = none;
  retain = none;
  dup = none;
  properties = none;
}

-- The keywords of `gen_publish` that a call gives
abbrev pub with_mid : ℕ → PublishArgs → PublishArgs
with_mid m a = record a { mid = some m }

abbrev pub with_payload : Text → PublishArgs → PublishArgs
with_payload p a = record a { payload = some (some p) }

abbrev pub without_payload : PublishArgs → PublishArgs
without_payload a = record a { payload = some none }

abbrev pub with_retain : Bool → PublishArgs → PublishArgs
with_retain b a = record a { retain = some b }

abbrev pub with_dup : Bool → PublishArgs → PublishArgs
with_dup b a = record a { dup = some b }

abbrev pub with_properties : Bytes → PublishArgs → PublishArgs
with_properties ps a = record a { properties = some ps }

pub record ConnackArgs : Type 0 where
  pub flags : ℕ
  pub rc : ℕ
  pub proto_ver : ℕ
  pub properties : Bytes
  pub property_helper : Bool

-- `mqtt_packets`
pub record MqttPackets : Type 0 where
  pub gen_connect : ConnectArgs → Bytes
  pub gen_connack : ConnackArgs → Bytes
  pub gen_publish : PublishArgs → Bytes
  -- mid, proto_ver, reason_code
  pub gen_puback : ℕ → ℕ → Option ℕ → Bytes
  -- mid, proto_ver
  pub gen_pubrec : ℕ → ℕ → Bytes
  pub gen_pubrel : ℕ → ℕ → Bytes
  pub gen_pubcomp : ℕ → ℕ → Bytes
  -- mid, topic, options, proto_ver, properties
  pub gen_subscribe : ℕ → Text → ℕ → ℕ → Option Bytes → Bytes
  -- mid, qos, proto_ver
  pub gen_suback : ℕ → ℕ → ℕ → Bytes
  -- mid, topics, proto_ver
  pub gen_unsubscribe_multiple : ℕ → List Text → ℕ → Bytes
  -- mid, topic, proto_ver
  pub gen_unsubscribe : ℕ → Text → ℕ → Bytes
  -- mid, reason codes, proto_ver
  pub gen_unsuback : ℕ → Option (List ℕ) → ℕ → Bytes
  pub gen_pingreq : Bytes
  pub gen_pingresp : Bytes
  -- reason_code, proto_ver, properties
  pub gen_disconnect : Option ℕ → ℕ → Option Bytes → Bytes

-- `mqtt5_props`: the property identifiers, and the encoders of one property
pub record Mqtt5Props : Type 0 where
  pub receive_maximum : ℕ
  pub maximum_packet_size : ℕ
  pub topic_alias_maximum : ℕ
  pub topic_alias : ℕ
  pub server_keep_alive : ℕ
  pub session_expiry_interval : ℕ
  pub subscription_identifier : ℕ
  pub maximum_qos : ℕ
  pub retain_available : ℕ
  pub wildcard_sub_available : ℕ
  pub shared_sub_available : ℕ
  pub subscription_id_available : ℕ
  pub user_property : ℕ
  pub will_delay_interval : ℕ
  pub message_expiry_interval : ℕ
  pub payload_format_indicator : ℕ
  pub content_type : ℕ
  pub response_topic : ℕ
  pub correlation_data : ℕ
  pub assigned_client_identifier : ℕ
  pub gen_byte_prop : ℕ → ℕ → Bytes
  pub gen_uint16_prop : ℕ → ℕ → Bytes
  pub gen_uint32_prop : ℕ → ℕ → Bytes
  pub gen_varint_prop : ℕ → ℕ → Bytes
  pub gen_string_prop : ℕ → Text → Bytes
  pub gen_string_pair_prop : ℕ → Text → Text → Bytes

-- `mqtt5_rc`
pub record Mqtt5Rc : Type 0 where
  pub no_matching_subscribers : ℕ
  pub session_taken_over : ℕ
  pub qos_not_supported : ℕ
  pub retain_not_supported : ℕ
  pub packet_too_large : ℕ
  pub topic_alias_invalid : ℕ
  pub receive_maximum_exceeded : ℕ
  pub wildcard_subs_not_supported : ℕ
  pub shared_subs_not_supported : ℕ
  pub subscription_ids_not_supported : ℕ

-- `mqtt5_opts`
pub record Mqtt5Opts : Type 0 where
  pub retain_as_published : ℕ
  pub send_retain_always : ℕ
  pub send_retain_new : ℕ
  pub send_retain_never : ℕ
