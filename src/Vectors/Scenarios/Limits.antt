-- ===== src/Vectors/Scenarios/Limits.antt =====
-- The scenarios of tools/interop/mqtt_mosquitto_vectors.py about limits that the broker enforces on
-- one connection, and those about the lifetime of connections and sessions.
use netz.Base.{ℕ, ◌+◌, ◌*◌, Bool, true, false, not, ◌==◌, none, some, [], ◌∷◌, Bytes, length}
use netz.Vectors.World.{Text, text, number, txt, M, check, ◌>>=◌, ◌>>◌}
use netz.Vectors.Socket.{sendall, recv, sleep}
use netz.Vectors.Mosquitto.{
  MqttPackets, Mqtt5Props, Mqtt5Rc, connect_args, publish_args, with_mid, with_payload,
  with_properties,
}
use netz.Vectors.Harness.{expect_packet}
use netz.Vectors.Broker.{config, with_broker, with_socket, expected_connack, connect_v5}

module _ (executable : Text) (mqtt_packets : MqttPackets) where
  open mqtt_packets use {
    gen_connect, gen_publish, gen_puback, gen_pubrec, gen_pubrel, gen_pubcomp, gen_subscribe,
    gen_suback, gen_unsubscribe_multiple, gen_unsuback, gen_pingreq, gen_pingresp, gen_disconnect,
  }

  unfoldable pub maximum_packet_size_disconnect : Mqtt5Props → Mqtt5Rc → M (Unit {0})
  maximum_packet_size_disconnect mqtt5_props mqtt5_rc =
      let topic = txt "12/max/packet/size/broker/test/topic" in
      with_broker executable (record config { extra_args = txt "--max-packet-size=50" ∷ [] })
        λ broker. with_socket broker λ sock. do
          sendall sock (gen_connect (connect_args (some (txt "12-max-packet-broker")) 5))
          expect_packet sock (expected_connack mqtt_packets mqtt5_props false 50 16 [])
              (txt "maximum packet size CONNACK")
          sendall sock (gen_publish (with_payload (txt "012345678") (publish_args topic 0 5)))
          sendall sock gen_pingreq
          expect_packet sock gen_pingresp (txt "maximum packet size boundary PINGRESP")
          sendall sock (gen_publish (with_payload (txt "0123456789") (publish_args topic 0 5)))
          expect_packet sock (gen_disconnect (some mqtt5_rc.packet_too_large) 5 none)
              (txt "maximum packet size DISCONNECT")

  unfoldable pub topic_alias_disconnect : Mqtt5Props → Mqtt5Rc → M (Unit {0})
  topic_alias_disconnect mqtt5_props mqtt5_rc =
      with_broker executable (record config { extra_args = txt "--topic-alias-maximum=1" ∷ [] })
        λ broker. with_socket broker λ sock. do
          sendall sock (gen_connect (connect_args (some (txt "topic-alias-invalid")) 5))
          expect_packet sock
              (expected_connack mqtt_packets mqtt5_props false (16 * 1024 * 1024) 1 [])
              (txt "topic alias limit CONNACK")
          sendall sock (
              gen_publish (
                with_properties (mqtt5_props.gen_uint16_prop mqtt5_props.topic_alias 2)
                  (with_payload (txt "blocked") (publish_args (txt "alias/too-large") 0 5))))
          expect_packet sock (gen_disconnect (some mqtt5_rc.topic_alias_invalid) 5 none)
              (txt "topic alias invalid DISCONNECT")

  unfoldable pub receive_maximum_disconnect : Mqtt5Rc → M (Unit {0})
  receive_maximum_disconnect mqtt5_rc =
      with_broker executable (record config { extra_args = txt "--max-outgoing-inflight=1" ∷ [] })
        λ broker. with_socket broker λ sock. do
          connect_v5 mqtt_packets sock (txt "receive-maximum-exceeded")
          sendall sock (gen_publish (with_mid 1 (publish_args (txt "receive/maximum/one") 2 5)))
          sendall sock (gen_publish (with_mid 2 (publish_args (txt "receive/maximum/two") 2 5)))
          expect_packet sock (gen_pubrec 1 5) (txt "receive maximum first PUBREC")
          expect_packet sock (gen_disconnect (some mqtt5_rc.receive_maximum_exceeded) 5 none)
              (txt "receive maximum DISCONNECT")

  unfoldable pub server_keep_alive : Mqtt5Props → M (Unit {0})
  server_keep_alive mqtt5_props =
      let override_seconds : ℕ = 60 in
      with_broker executable
        (record config {
          extra_args = (text "--server-keep-alive=" ∷ number override_seconds ∷ []) ∷ [];
        })
        λ broker. with_socket broker λ sock. do
          sendall sock (
              gen_connect (record (connect_args (some (txt "server-keep-alive")) 5) {
                keepalive = some (override_seconds + 1);
              }))
          expect_packet sock
              (expected_connack mqtt_packets mqtt5_props false (16 * 1024 * 1024) 16
                (mqtt5_props.gen_uint16_prop mqtt5_props.server_keep_alive override_seconds))
              (txt "Server Keep Alive CONNACK")
          sendall sock gen_pingreq
          expect_packet sock gen_pingresp (txt "PINGRESP after Server Keep Alive")
          sendall sock (gen_disconnect none 5 none)

  unfoldable pub duplicate_client_takeover : Mqtt5Props → Mqtt5Rc → M (Unit {0})
  duplicate_client_takeover mqtt5_props mqtt5_rc =
      let connect_packet = gen_connect (connect_args (some (txt "take-over")) 5) in
      let connack_packet =
        expected_connack mqtt_packets mqtt5_props false (16 * 1024 * 1024) 16 [] in
      with_broker executable (record config { connections = 2 })
        λ broker. with_socket broker λ first. with_socket broker λ replacement. do
          sendall first connect_packet
          expect_packet first connack_packet (txt "initial takeover CONNACK")
          sendall replacement connect_packet
          expect_packet replacement connack_packet (txt "replacement takeover CONNACK")
          expect_packet first (gen_disconnect (some mqtt5_rc.session_taken_over) 5 none)
              (txt "displaced client DISCONNECT")
          sendall replacement gen_pingreq
          expect_packet replacement gen_pingresp (txt "replacement PINGRESP")
          sendall replacement (gen_disconnect none 5 none)

  -- The local functions `connect` and `disconnect` of `disconnect_session_expiry`
  unfoldable pub expiring_connect : Mqtt5Props → ℕ → Bool → Text → M (Unit {0})
  expiring_connect mqtt5_props sock session_present label = do
    sendall sock (
        gen_connect (record (connect_args (some (txt "session-expiry")) 5) {
          clean_session = some false;
          session_expiry = some 1;
        }))
    expect_packet sock
        (expected_connack mqtt_packets mqtt5_props session_present (16 * 1024 * 1024) 16 []) label

  unfoldable pub expiring_disconnect : ℕ → Bytes → M (Unit {0})
  expiring_disconnect sock properties = do
    sendall sock (gen_disconnect none 5 (some properties))
    answer ← recv sock 1
    check (not (length answer == 0)) (txt "broker sent data after DISCONNECT")

  unfoldable pub disconnect_session_expiry : Mqtt5Props → M (Unit {0})
  disconnect_session_expiry mqtt5_props =
      let expiry_three = mqtt5_props.gen_uint32_prop mqtt5_props.session_expiry_interval 3 in
      let expiry_zero = mqtt5_props.gen_uint32_prop mqtt5_props.session_expiry_interval 0 in
      with_broker executable (record config { connections = 4 })
        λ broker. do
          with_socket broker λ first. do
            expiring_connect mqtt5_props first false (txt "initial Session Expiry CONNACK")
            expiring_disconnect first expiry_three
          sleep 2000
          with_socket broker λ extended. do
            expiring_connect mqtt5_props extended true (txt "extended Session Expiry CONNACK")
            expiring_disconnect extended expiry_three
          sleep 4000
          with_socket broker λ expired. do
            expiring_connect mqtt5_props expired false (txt "expired Session CONNACK")
            expiring_disconnect expired expiry_zero
          with_socket broker λ removed. do
            expiring_connect mqtt5_props removed false (txt "zero Session Expiry CONNACK")
            sendall removed (gen_disconnect none 5 none)
