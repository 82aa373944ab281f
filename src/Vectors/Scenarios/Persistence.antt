-- ===== src/Vectors/Scenarios/Persistence.antt =====
-- `mixed_version_qos1`, `persistent_no_local` and `retained_message_expiry` of
-- tools/interop/mqtt_mosquitto_vectors.py.
use netz.Base.{ℕ, true, false, not, none, some, [], ◌∷◌, Bytes, bytes_eq, ◌||◌}
use netz.Vectors.World.{Text, text, hex, txt, M, check, ◌>>=◌, ◌>>◌}
use netz.Vectors.Socket.{sendall, sleep}
use netz.Vectors.Mosquitto.{
  MqttPackets, Mqtt5Props, Mqtt5Rc, publish_args, with_mid, with_payload, with_retain,
  with_properties,
}
use netz.Vectors.Harness.{read_packet, expect_packet, expect_packets_unordered, expect_quiet}
use netz.Vectors.Broker.{
  config, with_broker, with_socket, connect_client, connect_v5, connect_persistent_v5,
}

module _ (executable : Text) (mqtt_packets : MqttPackets) where
  open mqtt_packets use {
    gen_connect, gen_publish, gen_puback, gen_pubrec, gen_pubrel, gen_pubcomp, gen_subscribe,
    gen_suback, gen_unsubscribe, gen_unsubscribe_multiple, gen_unsuback, gen_pingreq, gen_pingresp,
    gen_disconnect,
  }

  unfoldable pub mixed_version_qos1 : M (Unit {0})
  mixed_version_qos1 =
      let topic = txt "mixed/version/qos1" in
      with_broker executable (record config { connections = 2 })
        λ broker. with_socket broker λ subscriber. with_socket broker λ publisher. do
          connect_client mqtt_packets subscriber (txt "mixed-v3-sub") 4
          sendall subscriber (gen_subscribe 1 topic 1 4 none)
          expect_packet subscriber (gen_suback 1 1 4) (txt "MQTT 3.1.1 SUBACK")
          connect_v5 mqtt_packets publisher (txt "mixed-v5-pub")
          sendall publisher (
              gen_publish
                (with_mid 77 (with_payload (txt "cross-version") (publish_args topic 1 5))))
          expect_packet publisher (gen_puback 77 5 none) (txt "MQTT 5 publisher PUBACK")
          expect_packet subscriber
              (gen_publish
                (with_mid 1 (with_payload (txt "cross-version") (publish_args topic 1 4))))
              (txt "MQTT 3.1.1 forwarded PUBLISH")
          sendall subscriber (gen_puback 1 4 none)
          sendall publisher (gen_disconnect none 5 none)
          sendall subscriber (gen_disconnect none 4 none)

  unfoldable pub persistent_no_local : M (Unit {0})
  persistent_no_local =
      let client_id = txt "persistent-subscription-test" in
      let topic = txt "subpub/nolocal" in
      with_broker executable (record config { connections = 2 })
        λ broker. do
          with_socket broker λ first. do
            connect_persistent_v5 mqtt_packets first client_id false
            sendall first (gen_subscribe 1 topic 5 5 none)
            expect_packet first (gen_suback 1 1 5) (txt "persistent no-local SUBACK")
            sendall first (gen_disconnect none 5 none)
          with_socket broker λ resumed. do
            connect_persistent_v5 mqtt_packets resumed client_id true
            sendall resumed
                (gen_publish (with_mid 1 (with_payload (txt "message") (publish_args topic 1 5))))
            expect_packet resumed (gen_puback 1 5 none) (txt "persistent no-local PUBACK")
            expect_quiet resumed (txt "restored no-local subscription forwarded self publish: ")
            sendall resumed (gen_subscribe 2 topic 1 5 none)
            expect_packet resumed (gen_suback 2 1 5) (txt "local replacement SUBACK")
            sendall resumed
                (gen_publish (with_mid 3 (with_payload (txt "message") (publish_args topic 1 5))))
            expect_packets_unordered resumed
                (gen_puback 3 5 none
                  ∷ gen_publish (with_mid 1 (with_payload (txt "message") (publish_args topic 1 5)))
                  ∷ [])
                (txt "local replacement publish/PUBACK")
            sendall resumed (gen_puback 1 5 none)
            sendall resumed (gen_disconnect none 5 none)

  abbrev pub expiring : Mqtt5Props → ℕ → Bytes
  expiring mqtt5_props seconds =
      mqtt5_props.gen_uint32_prop mqtt5_props.message_expiry_interval seconds

  -- The retained message as it is replayed with `seconds` left
  abbrev pub expiry_variant : Mqtt5Props → ℕ → Bytes
  expiry_variant mqtt5_props seconds = gen_publish (
      with_properties (expiring mqtt5_props seconds) (
        with_retain true (with_payload (txt "message1") (publish_args (txt "subpub/expired") 0 5))))

  unfoldable pub expect_expiry_variant : Mqtt5Props → ℕ → M (Unit {0})
  expect_expiry_variant mqtt5_props sock = do
    actual ← read_packet sock
    check
        (not (
          bytes_eq actual (expiry_variant mqtt5_props 2)
          || bytes_eq actual (expiry_variant mqtt5_props 1)))
        (text "immediate retained expiry mismatch: " ∷ hex actual ∷ [])

  abbrev pub kept_replay : Bytes
  kept_replay =
      gen_publish
        (with_retain true (with_payload (txt "message2") (publish_args (txt "subpub/kept") 0 5)))

  unfoldable pub retained_message_expiry : Mqtt5Props → Mqtt5Rc → M (Unit {0})
  retained_message_expiry mqtt5_props mqtt5_rc =
      let expired_topic = txt "subpub/expired" in
      let kept_topic = txt "subpub/kept" in
      with_broker executable (record config { connections = 3 })
        λ broker. do
          with_socket broker λ publisher. do
            connect_v5 mqtt_packets publisher (txt "expiry-helper")
            sendall publisher (
                gen_publish (
                  with_properties (expiring mqtt5_props 2) (
                    with_mid 1 (
                      with_retain true
                        (with_payload (txt "message1") (publish_args expired_topic 1 5))))))
            expect_packet publisher (gen_puback 1 5 (some mqtt5_rc.no_matching_subscribers))
                (txt "expiring retained PUBACK")
            sendall publisher (
                gen_publish (
                  with_mid 2 (
                    with_retain true
                      (with_payload (txt "message2") (publish_args kept_topic 1 5)))))
            expect_packet publisher (gen_puback 2 5 (some mqtt5_rc.no_matching_subscribers))
                (txt "kept retained PUBACK")
            sendall publisher (gen_disconnect none 5 none)
          with_socket broker λ immediate. do
            connect_v5 mqtt_packets immediate (txt "expiry-immediate")
            sendall immediate (gen_subscribe 1 expired_topic 0 5 none)
            expect_packet immediate (gen_suback 1 0 5) (txt "immediate expiry SUBACK")
            expect_expiry_variant mqtt5_props immediate
            sendall immediate (gen_subscribe 2 kept_topic 0 5 none)
            expect_packet immediate (gen_suback 2 0 5) (txt "immediate kept SUBACK")
            expect_packet immediate kept_replay (txt "immediate kept replay")
            sendall immediate (gen_disconnect none 5 none)
          sleep 3000
          with_socket broker λ expired. do
            connect_v5 mqtt_packets expired (txt "expiry-late")
            sendall expired (gen_subscribe 1 expired_topic 0 5 none)
            expect_packet expired (gen_suback 1 0 5) (txt "late expiry SUBACK")
            sendall expired (gen_subscribe 2 kept_topic 0 5 none)
            expect_packet expired (gen_suback 2 0 5) (txt "late kept SUBACK")
            expect_packet expired kept_replay (txt "late kept replay")
            sendall expired (gen_disconnect none 5 none)
