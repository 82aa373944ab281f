-- ===== src/Vectors/Scenarios/Routing.antt =====
-- `shared_subscription_rotation`, `reject_publish_subscription_identifier`,
-- `unsubscribe_reason_codes` and `request_response_properties` of
-- tools/interop/mqtt_mosquitto_vectors.py.
use netz.Base.{ℕ, ◌+◌, true, none, some, List, [], ◌∷◌, ◌++◌, Bytes}
use netz.Vectors.World.{Text, text, number, txt, M, finally, for_each, ◌>>=◌, ◌>>◌}
use netz.Vectors.Socket.{sendall, close}
use netz.Vectors.Mosquitto.{MqttPackets, Mqtt5Props, publish_args, with_payload, with_properties}
use netz.Vectors.Harness.{index, expect_packet, expect_hang_up}
use netz.Vectors.Broker.{config, with_broker, with_socket, connect, connect_v5}

abbrev pub shared_filters : List (ℕ × Text)
shared_filters =
    (0, txt "02A/#")
    ∷ (1, txt "$share/one/02A/share/test")
    ∷ (2, txt "$share/one/02A/share/test")
    ∷ (2, txt "$share/two/02A/share/test")
    ∷ (3, txt "$share/two/02A/share/test")
    ∷ (4, txt "$share/one/02A/share/test")
    ∷ []

abbrev pub expected_receivers : List (ℕ × List ℕ)
expected_receivers = (1, 0 ∷ 1 ∷ 2 ∷ []) ∷ (2, 0 ∷ 2 ∷ 3 ∷ []) ∷ (3, 0 ∷ 2 ∷ 4 ∷ []) ∷ []

-- `enumerate(sockets, start=1)` over the five of the scenario
abbrev pub enumerate : ℕ → List ℕ → List (ℕ × ℕ)
enumerate n [] = []
enumerate n (x ∷ xs) = (n, x) ∷ enumerate (n + 1) xs

module _ (executable : Text) (mqtt_packets : MqttPackets) where
  open mqtt_packets use {
    gen_connect, gen_publish, gen_puback, gen_pubrec, gen_pubrel, gen_pubcomp, gen_subscribe,
    gen_suback, gen_unsubscribe, gen_unsubscribe_multiple, gen_unsuback, gen_pingreq, gen_pingresp,
    gen_disconnect,
  }

  abbrev pub shared_packet : ℕ → Bytes
  shared_packet message_index = gen_publish (
      with_payload (text "message" ∷ number message_index ∷ [])
        (publish_args (txt "02A/share/test") 0 5))

  unfoldable pub rotate_shared : List ℕ → M (Unit {0})
  rotate_shared sockets = do
    for_each (enumerate 1 sockets) λ (position, sock).
        connect_v5 mqtt_packets sock (text "02-shared-client" ∷ number position ∷ [])
    for_each shared_filters λ (socket_index, topic_filter). do
      sock ← index sockets socket_index
      sendall sock (gen_subscribe 1 topic_filter 0 5 none)
      expect_packet sock (gen_suback 1 0 5)
          (text "shared SUBACK " ∷ number socket_index ∷ text "/" ∷ topic_filter)
    for_each expected_receivers λ (message_index, receivers). do
      source ← index sockets 0
      sendall source (shared_packet message_index)
      for_each receivers λ receiver. do
        sock ← index sockets receiver
        expect_packet sock (shared_packet message_index)
            (text "shared publish " ∷ number message_index ∷ text "/" ∷ number receiver ∷ [])
    for_each sockets λ sock. sendall sock (gen_disconnect none 5 none)

  unfoldable pub shared_subscription_rotation : M (Unit {0})
  shared_subscription_rotation =
      with_broker executable (record config { connections = 5 })
        λ broker. do
          s0 ← connect broker
          s1 ← connect broker
          s2 ← connect broker
          s3 ← connect broker
          s4 ← connect broker
          let sockets : List ℕ = s0 ∷ s1 ∷ s2 ∷ s3 ∷ s4 ∷ []
          finally (rotate_shared sockets) (for_each sockets close)

  unfoldable pub reject_publish_subscription_identifier : Mqtt5Props → M (Unit {0})
  reject_publish_subscription_identifier mqtt5_props =
      let illegal = mqtt5_props.gen_varint_prop mqtt5_props.subscription_identifier 7 in
      with_broker executable (record config { connections = 2; ignore_errors = true })
        λ broker. do
          with_socket broker λ bad. do
            connect_v5 mqtt_packets bad (txt "illegal-publish-subid")
            sendall bad (
                gen_publish (
                  with_properties illegal
                    (with_payload (txt "bad") (publish_args (txt "illegal/subid") 0 5))))
            expect_hang_up bad (txt "illegal Subscription Identifier got response: ")
          with_socket broker λ healthy. do
            connect_v5 mqtt_packets healthy (txt "after-illegal-subid")
            sendall healthy gen_pingreq
            expect_packet healthy gen_pingresp
                (txt "healthy PINGRESP after illegal Subscription Identifier")
            sendall healthy (gen_disconnect none 5 none)

  unfoldable pub unsubscribe_reason_codes : M (Unit {0})
  unsubscribe_reason_codes =
      let topic = txt "unsubscribe/reason/existing" in
      with_broker executable (record config { connections = 2 })
        λ broker. with_socket broker λ subscriber. with_socket broker λ publisher. do
          connect_v5 mqtt_packets subscriber (txt "unsubscribe-reasons")
          sendall subscriber (gen_subscribe 1 topic 0 5 none)
          expect_packet subscriber (gen_suback 1 0 5) (txt "unsubscribe reason SUBACK")
          sendall subscriber
              (gen_unsubscribe_multiple 2 (topic ∷ txt "unsubscribe/reason/missing" ∷ []) 5)
          expect_packet subscriber (gen_unsuback 2 (some (0x00 ∷ 0x11 ∷ [])) 5)
              (txt "multi-filter UNSUBACK reasons")
          connect_v5 mqtt_packets publisher (txt "unsubscribe-publisher")
          sendall publisher (gen_publish (with_payload (txt "not-routed") (publish_args topic 0 5)))
          sendall subscriber gen_pingreq
          expect_packet subscriber gen_pingresp (txt "PINGRESP after unsubscribe")
          sendall publisher (gen_disconnect none 5 none)
          sendall subscriber (gen_disconnect none 5 none)

  unfoldable pub request_response_properties : Mqtt5Props → M (Unit {0})
  request_response_properties mqtt5_props =
      let normal_topic = txt "normal/topic" in
      let response_topic = txt "response/topic" in
      let properties =
        mqtt5_props.gen_string_prop mqtt5_props.response_topic response_topic
        ++ mqtt5_props.gen_string_prop mqtt5_props.correlation_data
            (txt "45vyvynq30q3vt4 nuy893b4v3") in
      let request =
        gen_publish
          (with_properties properties (with_payload (txt "2") (publish_args normal_topic 0 5))) in
      let response = gen_publish (with_payload (txt "22") (publish_args response_topic 0 5)) in
      with_broker executable (record config { connections = 2 })
        λ broker. with_socket broker λ responder. with_socket broker λ requester. do
          connect_v5 mqtt_packets responder (txt "response-client")
          connect_v5 mqtt_packets requester (txt "request-client")
          sendall responder (gen_subscribe 1 normal_topic 0 5 none)
          expect_packet responder (gen_suback 1 0 5) (txt "request responder SUBACK")
          sendall requester (gen_subscribe 1 response_topic 0 5 none)
          expect_packet requester (gen_suback 1 0 5) (txt "response requester SUBACK")
          sendall requester request
          expect_packet responder request (txt "request property forwarding")
          sendall responder response
          expect_packet requester response (txt "response topic delivery")
          sendall responder (gen_disconnect none 5 none)
          sendall requester (gen_disconnect none 5 none)
