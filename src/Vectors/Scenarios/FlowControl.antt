-- ===== src/Vectors/Scenarios/FlowControl.antt =====
-- The scenarios of tools/interop/mqtt_mosquitto_vectors.py about credit and packet sizes of a
-- subscriber, and the one about Will properties.
use netz.Base.{
  ℕ, Bool, ◌&&◌, not, ◌==◌, none, some, [], ◌∷◌, ◌++◌, Bytes, bytes_eq, take, drop, if◌then◌else◌,
}
use netz.Vectors.World.{Text, text, number, hex, txt, M, pure, check, for_each, ◌>>=◌, ◌>>◌}
use netz.Vectors.Socket.{sendall}
use netz.Vectors.Mosquitto.{
  MqttPackets, Mqtt5Props, connect_args, publish_args, with_mid, with_payload, with_properties,
}
use netz.Vectors.Harness.{index, read_packet, expect_packet, expect_packets_unordered, expect_quiet}
use netz.Vectors.Broker.{config, with_broker, with_socket, connect_v5, expect_success}

-- `connack[0] != 0x20 or connack[2:4] != b"\x00\x00"`
unfoldable pub is_plain_success : Bytes → M Bool
unfolding index
is_plain_success connack = do
  kind ← index connack 0
  pure (kind == 0x20 && bytes_eq (take 2 (drop 2 connack)) (0 ∷ 0 ∷ []))

unfoldable pub expect_plain_success : ℕ → Text → M (Unit {0})
unfolding is_plain_success
expect_plain_success sock label = do
  connack ← read_packet sock
  good ← is_plain_success connack
  check (not good) (label ++ hex connack ∷ [])

-- b"will payload"
abbrev pub will_payload : Bytes
will_payload = 119 ∷ 105 ∷ 108 ∷ 108 ∷ 32 ∷ 112 ∷ 97 ∷ 121 ∷ 108 ∷ 111 ∷ 97 ∷ 100 ∷ []

module _ (executable : Text) (mqtt_packets : MqttPackets) where
  open mqtt_packets use {
    gen_connect, gen_publish, gen_puback, gen_pubrec, gen_pubrel, gen_pubcomp, gen_subscribe,
    gen_suback, gen_unsubscribe, gen_unsubscribe_multiple, gen_unsuback, gen_pingreq, gen_pingresp,
    gen_disconnect,
  }

  -- The Will Delay Interval, five bytes, and then the properties of the message
  abbrev pub will_properties : Mqtt5Props → Bytes
  will_properties p =
      p.gen_uint32_prop p.will_delay_interval 0
      ++ p.gen_string_pair_prop p.user_property (txt "key1") (txt "value1")
      ++ p.gen_string_prop p.response_topic (txt "response/topic")
      ++ p.gen_string_prop p.correlation_data (txt "correlation-data")
      ++ p.gen_byte_prop p.payload_format_indicator 1
      ++ p.gen_string_prop p.content_type (txt "text/plain")
      ++ p.gen_string_pair_prop p.user_property (txt "key2") (txt "value2")

  unfoldable pub disconnect_with_will_properties : Mqtt5Props → M (Unit {0})
  disconnect_with_will_properties mqtt5_props =
      let topic = txt "will/properties" in
      let forwarded_properties = drop 5 (will_properties mqtt5_props) in
      with_broker executable (record config { connections = 2 })
        λ broker. with_socket broker λ subscriber. with_socket broker λ source. do
          connect_v5 mqtt_packets subscriber (txt "will-property-subscriber")
          sendall subscriber (gen_subscribe 1 topic 0 5 none)
          expect_packet subscriber (gen_suback 1 0 5) (txt "Will property SUBACK")
          sendall source (
              gen_connect (record (connect_args (some (txt "will-property-source")) 5) {
                will_topic = some topic;
                will_payload = some will_payload;
                will_properties = some (will_properties mqtt5_props);
              }))
          expect_plain_success source (txt "Will source invalid CONNACK: ")
          sendall source (gen_disconnect (some 4) 5 none)
          expect_packet subscriber
              (gen_publish (
                with_properties forwarded_properties
                  (with_payload (txt "will payload") (publish_args topic 0 5))))
              (txt "DISCONNECT 0x04 Will property forwarding")
          sendall subscriber (gen_disconnect none 5 none)

  unfoldable pub qos2_receive_maximum_one : Mqtt5Props → M (Unit {0})
  qos2_receive_maximum_one mqtt5_props =
      let topic = txt "subpub/qos2/receive/maximum1" in
      let receive_one = mqtt5_props.gen_uint16_prop mqtt5_props.receive_maximum 1 in
      let message = λ (mid : ℕ).
        gen_publish (
          with_mid mid
            (with_payload (text "message" ∷ number mid ∷ []) (publish_args topic 2 5))) in
      with_broker executable (record config { connections = 2 })
        λ broker. with_socket broker λ subscriber. with_socket broker λ publisher. do
          sendall subscriber (
              gen_connect (record (connect_args (some (txt "subpub-qos2-receive-max1")) 5) {
                properties = some receive_one;
              }))
          expect_success subscriber (txt "invalid Receive Maximum CONNACK: ")
          sendall subscriber (gen_subscribe 1 topic 2 5 none)
          expect_packet subscriber (gen_suback 1 2 5) (txt "Receive Maximum SUBACK")
          connect_v5 mqtt_packets publisher (txt "subpub-qos2-recv-max1-helper")
          for_each (1 ∷ 2 ∷ []) λ mid. do
            sendall publisher (message mid)
            expect_packet publisher (gen_pubrec mid 5)
                (text "Receive Maximum publisher PUBREC " ∷ number mid ∷ [])
            sendall publisher (gen_pubrel mid 5)
            expect_packet publisher (gen_pubcomp mid 5)
                (text "Receive Maximum publisher PUBCOMP " ∷ number mid ∷ [])
          for_each (1 ∷ 2 ∷ []) λ mid. do
            expect_packet subscriber (message mid)
                (text "Receive Maximum downstream PUBLISH " ∷ number mid ∷ [])
            if mid == 1
                then expect_quiet subscriber (txt "Receive Maximum leaked second PUBLISH: ")
                else pure tt
            sendall subscriber (gen_pubrec mid 5)
            expect_packet subscriber (gen_pubrel mid 5)
                (text "Receive Maximum downstream PUBREL " ∷ number mid ∷ [])
            sendall subscriber (gen_pubcomp mid 5)
          sendall publisher (gen_disconnect none 5 none)
          sendall subscriber (gen_disconnect none 5 none)

  unfoldable pub maximum_packet_size_qos1 : Mqtt5Props → M (Unit {0})
  maximum_packet_size_qos1 mqtt5_props =
      let topic = txt "12/max/publish/qos1/test/topic" in
      let maximum = mqtt5_props.gen_uint32_prop mqtt5_props.maximum_packet_size 40 in
      let fitting = gen_publish (with_mid 3 (with_payload (txt "789") (publish_args topic 1 5))) in
      with_broker executable config λ broker. with_socket broker λ sock. do
        sendall sock (
            gen_connect (record (connect_args (some (txt "12-max-publish-qos1")) 5) {
              properties = some maximum;
            }))
        expect_success sock (txt "invalid max-packet CONNACK: ")
        sendall sock (gen_subscribe 1 topic 1 5 none)
        expect_packet sock (gen_suback 1 1 5) (txt "maximum packet SUBACK")
        for_each
            ((1, gen_publish (with_mid 1 (with_payload (txt "1234") (publish_args topic 1 5))))
              ∷ (
                2,
                gen_publish (
                    with_properties
                      (mqtt5_props.gen_byte_prop mqtt5_props.payload_format_indicator 1)
                      (with_mid 2 (with_payload (txt "56") (publish_args topic 1 5)))),
              )
              ∷ [])
            λ (mid, packet). do
              sendall sock packet
              expect_packet sock (gen_puback mid 5 none)
                  (text "maximum packet PUBACK " ∷ number mid ∷ [])
              sendall sock gen_pingreq
              expect_packet sock gen_pingresp (text "maximum packet PINGRESP " ∷ number mid ∷ [])
        sendall sock fitting
        expect_packets_unordered sock (gen_puback 3 5 none ∷ fitting ∷ [])
            (txt "maximum packet fitting publish/PUBACK")
        sendall sock (gen_puback 3 5 none)
        sendall sock (gen_disconnect none 5 none)

  unfoldable pub maximum_packet_size_qos2 : Mqtt5Props → M (Unit {0})
  maximum_packet_size_qos2 mqtt5_props =
      let topic = txt "12/max/publish/qos2/test/topic" in
      let maximum = mqtt5_props.gen_uint32_prop mqtt5_props.maximum_packet_size 40 in
      let publish = λ (mid : ℕ) (payload : Text).
        gen_publish (with_mid mid (with_payload payload (publish_args topic 2 5))) in
      with_broker executable config λ broker. with_socket broker λ sock. do
        sendall sock (
            gen_connect (record (connect_args (some (txt "12-max-publish-qos2")) 5) {
              properties = some maximum;
            }))
        expect_success sock (txt "invalid max-packet QoS2 CONNACK: ")
        sendall sock (gen_subscribe 1 topic 2 5 none)
        expect_packet sock (gen_suback 1 2 5) (txt "maximum packet QoS2 SUBACK")
        for_each ((1, txt "1234") ∷ (2, txt "789") ∷ []) λ (mid, payload). do
          sendall sock (publish mid payload)
          expect_packet sock (gen_pubrec mid 5)
              (text "maximum packet QoS2 publisher PUBREC " ∷ number mid ∷ [])
          sendall sock (gen_pubrel mid 5)
          if mid == 1
              then (do
                expect_packet sock (gen_pubcomp mid 5) (txt "maximum packet QoS2 oversized PUBCOMP")
                sendall sock gen_pingreq
                expect_packet sock gen_pingresp (txt "maximum packet QoS2 PINGRESP"))
              else (do
                expect_packets_unordered sock (gen_pubcomp mid 5 ∷ publish mid payload ∷ [])
                    (txt "maximum packet QoS2 fitting release")
                sendall sock (gen_pubrec mid 5)
                expect_packet sock (gen_pubrel mid 5) (txt "maximum packet QoS2 downstream PUBREL")
                sendall sock (gen_pubcomp mid 5))
        sendall sock (gen_disconnect none 5 none)
