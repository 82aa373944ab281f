-- ===== src/Vectors/Scenarios/Replays.antt =====
-- `retained_repeated_lifecycle` and `retained_multilevel_clear`
-- of tools/interop/mqtt_mosquitto_vectors.py.
use netz.Base.{ℕ, ◌+◌, true, none, some, List, [], ◌∷◌, map, Bytes, ◌==◌, if◌then◌else◌}
use netz.Vectors.World.{Text, text, number, txt, M, pure, for_each, ◌>>◌}
use netz.Vectors.Socket.{sendall}
use netz.Vectors.Mosquitto.{
  MqttPackets, publish_args, with_mid, with_payload, without_payload, with_retain,
}
use netz.Vectors.Harness.{expect_packet, expect_packets_unordered}
use netz.Vectors.Broker.{config, with_broker, with_socket, connect_v5}

module _ (executable : Text) (mqtt_packets : MqttPackets) where
  open mqtt_packets use {
    gen_connect, gen_publish, gen_puback, gen_pubrec, gen_pubrel, gen_pubcomp, gen_subscribe,
    gen_suback, gen_unsubscribe, gen_unsubscribe_multiple, gen_unsuback, gen_pingreq, gen_pingresp,
    gen_disconnect,
  }

  unfoldable pub retained_repeated_lifecycle : M (Unit {0})
  retained_repeated_lifecycle =
      let topic = txt "retain/qos0/repeated" in
      let retained =
        gen_publish
          (with_retain true (with_payload (txt "retained message") (publish_args topic 0 5))) in
      with_broker executable config λ broker. with_socket broker λ sock. do
        connect_v5 mqtt_packets sock (txt "retain-qos0-rep-test")
        sendall sock retained
        for_each (1 ∷ 2 ∷ []) λ attempt. do
          sendall sock (gen_subscribe 16 topic 0 5 none)
          expect_packet sock (gen_suback 16 0 5)
              (text "retained repeated SUBACK " ∷ number attempt ∷ [])
          expect_packet sock retained (text "retained repeated replay " ∷ number attempt ∷ [])
          if attempt == 1
              then (do
                sendall sock (gen_unsubscribe 13 topic 5)
                expect_packet sock (gen_unsuback 13 none 5) (txt "retained repeated UNSUBACK"))
              else pure tt
        sendall sock (gen_unsubscribe 14 topic 5)
        expect_packet sock (gen_unsuback 14 none 5) (txt "retained clear UNSUBACK")
        sendall sock (gen_publish (with_retain true (without_payload (publish_args topic 0 5))))
        sendall sock (gen_subscribe 17 topic 0 5 none)
        expect_packet sock (gen_suback 17 0 5) (txt "retained clear SUBACK")
        sendall sock gen_pingreq
        expect_packet sock gen_pingresp (txt "retained clear PINGRESP")
        sendall sock (gen_disconnect none 5 none)

  abbrev pub retained_packet : Text → Bytes
  retained_packet topic =
      gen_publish
        (with_retain true (with_payload (txt "retained message") (publish_args topic 0 5)))

  -- The local function `replay`
  unfoldable pub replay : ℕ → ℕ → List Text → M (Unit {0})
  replay sock mid expected_topics = do
    sendall sock (gen_subscribe mid (txt "#") 0 5 none)
    expect_packet sock (gen_suback mid 0 5) (text "multilevel retained SUBACK " ∷ number mid ∷ [])
    expect_packets_unordered sock (map retained_packet expected_topics)
        (text "multilevel retained replay " ∷ number mid ∷ [])
    sendall sock (gen_unsubscribe mid (txt "#") 5)
    expect_packet sock (gen_unsuback mid none 5)
        (text "multilevel retained UNSUBACK " ∷ number mid ∷ [])

  -- The loop over the tombstones, with what `remaining.remove(topic)` leaves after each
  unfoldable pub retained_multilevel_clear : M (Unit {0})
  unfolding replay
  retained_multilevel_clear = with_broker executable config λ broker. with_socket broker λ sock. do
    connect_v5 mqtt_packets sock (txt "retain-clear-test")
    for_each ((1, txt "1") ∷ (2, txt "1/2/3/4") ∷ (3, txt "1/2/3/4/5/6/7") ∷ []) λ (mid, topic). do
      sendall sock (
          gen_publish (
            with_retain true
              (with_mid mid (with_payload (txt "retained message") (publish_args topic 1 5)))))
      expect_packet sock (gen_puback mid 5 (some 0x10)) (text "multilevel retained set " ∷ topic)
    replay sock 10 (txt "1" ∷ txt "1/2/3/4" ∷ txt "1/2/3/4/5/6/7" ∷ [])
    for_each
        ((20, txt "1/2/3/4", txt "1" ∷ txt "1/2/3/4/5/6/7" ∷ [])
          ∷ (21, txt "1/2/3/4/5/6/7", txt "1" ∷ [])
          ∷ [])
        λ (mid, topic, remaining). do
          sendall sock (
              gen_publish
                (with_retain true (with_mid mid (without_payload (publish_args topic 1 5)))))
          expect_packet sock (gen_puback mid 5 (some 0x10))
              (text "multilevel retained clear " ∷ topic)
          replay sock (mid + 20) remaining
    sendall sock (gen_disconnect none 5 none)
