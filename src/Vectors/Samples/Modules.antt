-- ===== src/Vectors/Samples/Modules.antt =====
-- Stand-ins for the executable and for Mosquitto's modules: packets with the kind, the packet
-- identifier and little more.
use netz.Base.{ℕ, ◌+◌, ◌*◌, ◌/◌, ◌%◌, [], ◌∷◌, Bytes}
use netz.Vectors.World.{Text, txt}
use netz.Vectors.Mosquitto.{MqttPackets, Mqtt5Props, Mqtt5Rc, Mqtt5Opts}

abbrev pub netz_broker : Text
netz_broker = txt "zig-out/bin/netz-mqtt-broker"

abbrev with_identifier : ℕ → ℕ → Bytes
with_identifier kind mid = kind ∷ 2 ∷ mid / 256 ∷ mid % 256 ∷ []

abbrev pub packets : MqttPackets
packets = record {
  gen_connect = λ _. 0x10 ∷ 0 ∷ [];
  gen_connack = λ _. 0x20 ∷ 3 ∷ 0 ∷ 0 ∷ 0 ∷ [];
  gen_publish = λ a. (0x30 + a.qos * 2) ∷ 0 ∷ [];
  gen_puback = λ mid _ _. with_identifier 0x40 mid;
  gen_pubrec = λ mid _. with_identifier 0x50 mid;
  gen_pubrel = λ mid _. with_identifier 0x62 mid;
  gen_pubcomp = λ mid _. with_identifier 0x70 mid;
  gen_subscribe = λ mid _ _ _ _. with_identifier 0x82 mid;
  gen_suback = λ mid _ _. with_identifier 0x90 mid;
  gen_unsubscribe_multiple = λ mid _ _. with_identifier 0xa2 mid;
  gen_unsubscribe = λ mid _ _. with_identifier 0xa2 mid;
  gen_unsuback = λ mid _ _. with_identifier 0xb0 mid;
  gen_pingreq = 0xc0 ∷ 0 ∷ [];
  gen_pingresp = 0xd0 ∷ 0 ∷ [];
  gen_disconnect = λ _ _ _. 0xe0 ∷ 0 ∷ [];
}

abbrev pub props : Mqtt5Props
props = record {
  receive_maximum = 33;
  maximum_packet_size = 39;
  topic_alias_maximum = 34;
  topic_alias = 35;
  server_keep_alive = 19;
  session_expiry_interval = 17;
  subscription_identifier = 11;
  maximum_qos = 36;
  retain_available = 37;
  wildcard_sub_available = 40;
  shared_sub_available = 42;
  subscription_id_available = 41;
  user_property = 38;
  will_delay_interval = 24;
  message_expiry_interval = 2;
  payload_format_indicator = 1;
  content_type = 3;
  response_topic = 8;
  correlation_data = 9;
  assigned_client_identifier = 18;
  gen_byte_prop = λ id value. id ∷ value ∷ [];
  gen_uint16_prop = λ id value. id ∷ value / 256 ∷ value % 256 ∷ [];
  gen_uint32_prop = λ id value.
      id ∷ value / 16777216 ∷ value / 65536 % 256 ∷ value / 256 % 256 ∷ value % 256 ∷ [];
  gen_varint_prop = λ id value. id ∷ value ∷ [];
  gen_string_prop = λ id _. id ∷ 0 ∷ 0 ∷ [];
  gen_string_pair_prop = λ id _ _. id ∷ 0 ∷ 0 ∷ 0 ∷ 0 ∷ [];
}

abbrev pub reasons : Mqtt5Rc
reasons = record {
  no_matching_subscribers = 16;
  session_taken_over = 142;
  qos_not_supported = 155;
  retain_not_supported = 154;
  packet_too_large = 149;
  topic_alias_invalid = 148;
  receive_maximum_exceeded = 147;
  wildcard_subs_not_supported = 162;
  shared_subs_not_supported = 158;
  subscription_ids_not_supported = 161;
}

abbrev pub options : Mqtt5Opts
options = record {
  retain_as_published = 8;
  send_retain_always = 0;
  send_retain_new = 16;
  send_retain_never = 32;
}
