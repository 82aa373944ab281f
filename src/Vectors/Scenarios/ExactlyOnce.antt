-- ===== src/Vectors/Scenarios/ExactlyOnce.antt =====
-- The QoS 2 scenarios of tools/interop/mqtt_mosquitto_vectors.py: `qos2_routes_at_pubrel`,
-- `qos2_duplicate_publish` and `qos2_repeated_pubrel`.
use netz.Base.{true, false, none, [], ◌∷◌}
use netz.Vectors.World.{Text, text, number, flag, txt, M, for_each, ◌>>◌}
use netz.Vectors.Socket.{sendall}
use netz.Vectors.Mosquitto.{MqttPackets, publish_args, with_mid, with_payload, with_dup}
use netz.Vectors.Harness.{expect_packet, expect_quiet}
use netz.Vectors.Broker.{config, with_broker, with_socket, connect_v5}

module _ (executable : Text) (mqtt_packets : MqttPackets) where
  open mqtt_packets use {
    gen_connect, gen_publish, gen_puback, gen_pubrec, gen_pubrel, gen_pubcomp, gen_subscribe,
    gen_suback, gen_unsubscribe_multiple, gen_unsuback, gen_pingreq, gen_pingresp, gen_disconnect,
  }

  unfoldable pub qos2_routes_at_pubrel : M (Unit {0})
  qos2_routes_at_pubrel =
      let topic = txt "pub/qos2/reuse" in
      with_broker executable (record config { connections = 2 })
        λ broker. with_socket broker λ subscriber. with_socket broker λ publisher. do
          connect_v5 mqtt_packets subscriber (txt "sub-qos2-test")
          sendall subscriber (gen_subscribe 1 topic 2 5 none)
          expect_packet subscriber (gen_suback 1 2 5) (txt "QoS2 SUBACK")
          connect_v5 mqtt_packets publisher (txt "pub-qos2-test")
          sendall publisher
              (gen_publish (with_mid 312 (with_payload (txt "message") (publish_args topic 2 5))))
          expect_packet publisher (gen_pubrec 312 5) (txt "publisher PUBREC")
          expect_quiet subscriber (txt "QoS2 PUBLISH routed before PUBREL: ")
          sendall publisher (gen_pubrel 312 5)
          expect_packet publisher (gen_pubcomp 312 5) (txt "publisher PUBCOMP")
          expect_packet subscriber
              (gen_publish (with_mid 1 (with_payload (txt "message") (publish_args topic 2 5))))
              (txt "downstream QoS2 PUBLISH")
          sendall subscriber (gen_pubrec 1 5)
          expect_packet subscriber (gen_pubrel 1 5) (txt "downstream PUBREL")
          sendall subscriber (gen_pubcomp 1 5)
          sendall publisher (gen_disconnect none 5 none)
          sendall subscriber (gen_disconnect none 5 none)

  unfoldable pub qos2_duplicate_publish : M (Unit {0})
  qos2_duplicate_publish =
      let topic = txt "03/c2b/qos2/duplicate/test" in
      with_broker executable (record config { connections = 2 })
        λ broker. with_socket broker λ subscriber. with_socket broker λ publisher. do
          connect_v5 mqtt_packets subscriber (txt "qos2-dup-subscriber")
          sendall subscriber (gen_subscribe 1 topic 2 5 none)
          expect_packet subscriber (gen_suback 1 2 5) (txt "QoS2 DUP SUBACK")
          connect_v5 mqtt_packets publisher (txt "qos2-dup-publisher")
          for_each (false ∷ true ∷ []) λ dup. do
            sendall publisher (
                gen_publish (
                  with_dup dup
                    (with_mid 7 (with_payload (txt "original") (publish_args topic 2 5)))))
            expect_packet publisher (gen_pubrec 7 5) (text "QoS2 DUP PUBREC " ∷ flag dup ∷ [])
            expect_quiet subscriber (txt "QoS2 DUP routed before PUBREL: ")
          sendall publisher (gen_pubrel 7 5)
          expect_packet publisher (gen_pubcomp 7 5) (txt "QoS2 DUP publisher PUBCOMP")
          expect_packet subscriber
              (gen_publish (with_mid 1 (with_payload (txt "original") (publish_args topic 2 5))))
              (txt "QoS2 DUP downstream PUBLISH")
          sendall subscriber (gen_pubrec 1 5)
          expect_packet subscriber (gen_pubrel 1 5) (txt "QoS2 DUP downstream PUBREL")
          sendall subscriber (gen_pubcomp 1 5)
          sendall publisher (gen_disconnect none 5 none)
          sendall subscriber (gen_disconnect none 5 none)

  unfoldable pub qos2_repeated_pubrel : M (Unit {0})
  qos2_repeated_pubrel =
      let topic = txt "qos2/repeated/pubrel" in
      with_broker executable (record config { connections = 2 })
        λ broker. with_socket broker λ subscriber. with_socket broker λ publisher. do
          connect_v5 mqtt_packets subscriber (txt "repeat-rel-sub")
          sendall subscriber (gen_subscribe 1 topic 2 5 none)
          expect_packet subscriber (gen_suback 1 2 5) (txt "repeat PUBREL SUBACK")
          connect_v5 mqtt_packets publisher (txt "repeat-rel-pub")
          sendall publisher
              (gen_publish (with_mid 9 (with_payload (txt "once") (publish_args topic 2 5))))
          expect_packet publisher (gen_pubrec 9 5) (txt "repeat PUBREL PUBREC")
          sendall publisher (gen_pubrel 9 5)
          expect_packet publisher (gen_pubcomp 9 5) (txt "repeat PUBREL first PUBCOMP")
          expect_packet subscriber
              (gen_publish (with_mid 1 (with_payload (txt "once") (publish_args topic 2 5))))
              (txt "repeat PUBREL downstream PUBLISH")
          sendall subscriber (gen_pubrec 1 5)
          expect_packet subscriber (gen_pubrel 1 5) (txt "repeat PUBREL downstream PUBREL")
          sendall subscriber (gen_pubcomp 1 5)
          for_each (9 ∷ 77 ∷ []) λ mid. do
            sendall publisher (gen_pubrel mid 5)
            expect_packet publisher (gen_pubcomp mid 5)
                (text "idempotent PUBCOMP " ∷ number mid ∷ [])
          expect_quiet subscriber (txt "repeated PUBREL duplicated delivery: ")
          sendall publisher (gen_disconnect none 5 none)
          sendall subscriber (gen_disconnect none 5 none)
