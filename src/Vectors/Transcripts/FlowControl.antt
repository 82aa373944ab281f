-- ===== src/Vectors/Transcripts/FlowControl.antt =====
-- The conversations of the scenarios on a subscriber's credit and packet sizes, and on Will
-- properties, of tools/interop/mqtt_mosquitto_vectors.py.
use netz.Base.{
  ℕ, ◌==◌, ◌≡◌, none, some, [], ◌∷◌, ◌++◌, Bytes, length, drop, drop-append, append_assoc, subst,
}
use netz.Vectors.World.{Text, text, number, txt, Trace}
use netz.Vectors.Mosquitto.{
  MqttPackets, Mqtt5Props, connect_args, publish_args, with_mid, with_payload, with_properties,
}
use netz.Vectors.Broker.{config}
use netz.Vectors.Runs.{Runs, Exactly, Each, ◌⨾◌}
use netz.Vectors.Runs.Unordered.{Unordered}
use netz.Vectors.Runs.Brokers.{Served, Connection, Quiet}
use netz.Vectors.Runs.Connects.{Connected, Success, PlainSuccess}
use netz.Vectors.Transcripts.Rules.{Says, Hears, Choice, vector_rules}
use netz.Vectors.Scenarios.FlowControl.{
  will_payload, will_properties, disconnect_with_will_properties, qos2_receive_maximum_one,
  maximum_packet_size_qos1, maximum_packet_size_qos2,
}

delay_first :
    (delay a b c d e f : Bytes)
    → delay ++ a ++ b ++ c ++ d ++ e ++ f ≡ delay ++ (a ++ b ++ c ++ d ++ e ++ f)
delay_first delay a b c d e f = simp (append_assoc)

module _ (executable : Text) (mqtt_packets : MqttPackets) where
  open mqtt_packets use {
    gen_connect, gen_publish, gen_puback, gen_pubrec, gen_pubrel, gen_pubcomp, gen_subscribe,
    gen_suback, gen_unsubscribe, gen_unsubscribe_multiple, gen_unsuback, gen_pingreq, gen_pingresp,
    gen_disconnect,
  }

  -- The properties of the Will message, in the order in which the source gives them
  abbrev pub message_properties : Mqtt5Props → Bytes
  message_properties p =
      p.gen_string_pair_prop p.user_property (txt "key1") (txt "value1")
      ++ p.gen_string_prop p.response_topic (txt "response/topic")
      ++ p.gen_string_prop p.correlation_data (txt "correlation-data")
      ++ p.gen_byte_prop p.payload_format_indicator 1
      ++ p.gen_string_prop p.content_type (txt "text/plain")
      ++ p.gen_string_pair_prop p.user_property (txt "key2") (txt "value2")

  -- `given` are the properties of the Will in the CONNECT, `forwarded` those of the message.
  abbrev pub WillForwarded : Bytes → Bytes → Trace → Type 0
  WillForwarded given forwarded =
      let topic = txt "will/properties" in
      Served executable (record config { connections = 2 })
        λ broker. Connection broker λ subscriber. Connection broker λ source.
          Connected mqtt_packets subscriber (txt "will-property-subscriber")
          ⨾ Says subscriber (gen_subscribe 1 topic 0 5 none)
          ⨾ Hears subscriber (gen_suback 1 0 5)
          ⨾ Says source (
              gen_connect (record (connect_args (some (txt "will-property-source")) 5) {
                will_topic = some topic;
                will_payload = some will_payload;
                will_properties = some given;
              }))
          ⨾ PlainSuccess source
          ⨾ Says source (gen_disconnect (some 4) 5 none)
          ⨾ Hears subscriber (
              gen_publish (
                with_properties forwarded
                  (with_payload (txt "will payload") (publish_args topic 0 5))))
          ⨾ Says subscriber (gen_disconnect none 5 none)

  -- The Will Delay Interval comes first in the CONNECT, and only the others in the message.
  abbrev pub DisconnectWithWillProperties : Mqtt5Props → Trace → Type 0
  DisconnectWithWillProperties p =
      WillForwarded (p.gen_uint32_prop p.will_delay_interval 0 ++ message_properties p)
        (message_properties p)

  will_forwarded :
      (mqtt5_props : Mqtt5Props)
      → let given = will_properties executable mqtt_packets mqtt5_props in
        Runs
          (disconnect_with_will_properties executable mqtt_packets mqtt5_props)
          (WillForwarded given (drop 5 given))
  unfolding disconnect_with_will_properties
  will_forwarded mqtt5_props = search vector_rules depth 60

  -- When `gen_uint32_prop` makes properties of five bytes, a run of `disconnect_with_will_properties` that
  -- returns is this conversation: the source connects with a Will whose properties are the Will Delay
  -- Interval and then six others, and after its DISCONNECT with reason code 4 the subscriber gets the
  -- Will message with exactly these six, in their order.
  pub disconnect_with_will_properties_conversation :
      (mqtt5_props : Mqtt5Props)
      → ((id value : ℕ) → length (mqtt5_props.gen_uint32_prop id value) ≡ 5)
      → Runs
          (disconnect_with_will_properties executable mqtt_packets mqtt5_props)
          (DisconnectWithWillProperties mqtt5_props)
  disconnect_with_will_properties_conversation mqtt5_props five =
      let delay = mqtt5_props.gen_uint32_prop mqtt5_props.will_delay_interval 0 in
      let rest = message_properties mqtt5_props in
      let program = disconnect_with_will_properties executable mqtt_packets mqtt5_props in
      subst (λ forwarded. Runs program (WillForwarded (delay ++ rest) forwarded))
        (drop-append 5 delay rest (five _ 0))
        (subst (λ given. Runs program (WillForwarded given (drop 5 given)))
          (delay_first delay _ _ _ _ _ _) (will_forwarded mqtt5_props))

  abbrev pub Qos2ReceiveMaximumOne : Mqtt5Props → Trace → Type 0
  Qos2ReceiveMaximumOne mqtt5_props =
      let topic = txt "subpub/qos2/receive/maximum1" in
      let receive_one = mqtt5_props.gen_uint16_prop mqtt5_props.receive_maximum 1 in
      let message = λ (mid : ℕ).
        gen_publish (
          with_mid mid
            (with_payload (text "message" ∷ number mid ∷ []) (publish_args topic 2 5))) in
      Served executable (record config { connections = 2 })
        λ broker. Connection broker λ subscriber. Connection broker λ publisher.
          Says subscriber (
            gen_connect (record (connect_args (some (txt "subpub-qos2-receive-max1")) 5) {
              properties = some receive_one;
            }))
          ⨾ Success subscriber
          ⨾ Says subscriber (gen_subscribe 1 topic 2 5 none)
          ⨾ Hears subscriber (gen_suback 1 2 5)
          ⨾ Connected mqtt_packets publisher (txt "subpub-qos2-recv-max1-helper")
          ⨾ (Each
              (λ mid.
                Says publisher (message mid)
                ⨾ Hears publisher (gen_pubrec mid 5)
                ⨾ Says publisher (gen_pubrel mid 5)
                ⨾ Hears publisher (gen_pubcomp mid 5))
              (1 ∷ 2 ∷ []))
          ⨾ (Each
              (λ mid.
                Hears subscriber (message mid)
                ⨾ Choice (mid == 1) (Quiet subscriber) (Exactly [])
                ⨾ Says subscriber (gen_pubrec mid 5)
                ⨾ Hears subscriber (gen_pubrel mid 5)
                ⨾ Says subscriber (gen_pubcomp mid 5))
              (1 ∷ 2 ∷ []))
          ⨾ Says publisher (gen_disconnect none 5 none)
          ⨾ Says subscriber (gen_disconnect none 5 none)

  -- A run of `qos2_receive_maximum_one` that returns is this conversation: both messages are released to
  -- the broker, and on the subscriber nothing comes after the first PUBLISH before its PUBREC is sent;
  -- the second follows after the first handshake is complete.
  pub qos2_receive_maximum_one_conversation :
      (mqtt5_props : Mqtt5Props)
      → Runs
          (qos2_receive_maximum_one executable mqtt_packets mqtt5_props)
          (Qos2ReceiveMaximumOne mqtt5_props)
  unfolding qos2_receive_maximum_one
  qos2_receive_maximum_one_conversation mqtt5_props = search vector_rules depth 60

  abbrev pub MaximumPacketSizeQos1 : Mqtt5Props → Trace → Type 0
  MaximumPacketSizeQos1 mqtt5_props =
      let topic = txt "12/max/publish/qos1/test/topic" in
      let maximum = mqtt5_props.gen_uint32_prop mqtt5_props.maximum_packet_size 40 in
      let fitting = gen_publish (with_mid 3 (with_payload (txt "789") (publish_args topic 1 5))) in
      Served executable config λ broker. Connection broker λ sock.
        Says sock (
          gen_connect (record (connect_args (some (txt "12-max-publish-qos1")) 5) {
            properties = some maximum;
          }))
        ⨾ Success sock
        ⨾ Says sock (gen_subscribe 1 topic 1 5 none)
        ⨾ Hears sock (gen_suback 1 1 5)
        ⨾ (Each
            (λ (mid, packet).
              Says sock packet
              ⨾ Hears sock (gen_puback mid 5 none)
              ⨾ Says sock gen_pingreq
              ⨾ Hears sock gen_pingresp)
            ((1, gen_publish (with_mid 1 (with_payload (txt "1234") (publish_args topic 1 5))))
              ∷ (
                2,
                gen_publish (
                    with_properties
                      (mqtt5_props.gen_byte_prop mqtt5_props.payload_format_indicator 1)
                      (with_mid 2 (with_payload (txt "56") (publish_args topic 1 5)))),
              )
              ∷ []))
        ⨾ Says sock fitting
        ⨾ Unordered sock (gen_puback 3 5 none ∷ fitting ∷ [])
        ⨾ Says sock (gen_puback 3 5 none)
        ⨾ Says sock (gen_disconnect none 5 none)

  -- A run of `maximum_packet_size_qos1` that returns is this conversation: each message that is too large
  -- for the subscriber is acknowledged and not delivered before the PINGRESP, and the one that fits
  -- comes with its PUBACK, in either order.
  pub maximum_packet_size_qos1_conversation :
      (mqtt5_props : Mqtt5Props)
      → Runs
          (maximum_packet_size_qos1 executable mqtt_packets mqtt5_props)
          (MaximumPacketSizeQos1 mqtt5_props)
  unfolding maximum_packet_size_qos1
  maximum_packet_size_qos1_conversation mqtt5_props = search vector_rules depth 60

  abbrev pub MaximumPacketSizeQos2 : Mqtt5Props → Trace → Type 0
  MaximumPacketSizeQos2 mqtt5_props =
      let topic = txt "12/max/publish/qos2/test/topic" in
      let maximum = mqtt5_props.gen_uint32_prop mqtt5_props.maximum_packet_size 40 in
      let publish = λ (mid : ℕ) (payload : Text).
        gen_publish (with_mid mid (with_payload payload (publish_args topic 2 5))) in
      Served executable config λ broker. Connection broker λ sock.
        Says sock (
          gen_connect (record (connect_args (some (txt "12-max-publish-qos2")) 5) {
            properties = some maximum;
          }))
        ⨾ Success sock
        ⨾ Says sock (gen_subscribe 1 topic 2 5 none)
        ⨾ Hears sock (gen_suback 1 2 5)
        ⨾ (Each
            (λ (mid, payload).
              Says sock (publish mid payload)
              ⨾ Hears sock (gen_pubrec mid 5)
              ⨾ Says sock (gen_pubrel mid 5)
              ⨾ Choice (mid == 1)
                  (Hears sock (gen_pubcomp mid 5) ⨾ Says sock gen_pingreq ⨾ Hears sock gen_pingresp)
                  (Unordered sock (gen_pubcomp mid 5 ∷ publish mid payload ∷ [])
                    ⨾ Says sock (gen_pubrec mid 5)
                    ⨾ Hears sock (gen_pubrel mid 5)
                    ⨾ Says sock (gen_pubcomp mid 5)))
            ((1, txt "1234") ∷ (2, txt "789") ∷ []))
        ⨾ Says sock (gen_disconnect none 5 none)

  -- A run of `maximum_packet_size_qos2` that returns is this conversation: the message that is too large is
  -- released and not delivered before the PINGRESP, and the one that fits comes with its PUBCOMP, in
  -- either order, and is released downstream.
  pub maximum_packet_size_qos2_conversation :
      (mqtt5_props : Mqtt5Props)
      → Runs
          (maximum_packet_size_qos2 executable mqtt_packets mqtt5_props)
          (MaximumPacketSizeQos2 mqtt5_props)
  unfolding maximum_packet_size_qos2
  maximum_packet_size_qos2_conversation mqtt5_props = search vector_rules depth 60
