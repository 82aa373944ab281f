-- ===== src/Vectors/Scenarios/Acks.antt =====
-- `no_matching_subscribers`, `subscription_identifiers` and `multiple_subscription_identifiers` of
-- tools/interop/mqtt_mosquitto_vectors.py.
use netz.Base.{ℕ, true, Option, none, some, List, [], ◌∷◌, ◌++◌, Bytes, bit_or, bit_and}
use netz.Vectors.World.{Text, text, number, txt, M, for_each, ◌>>◌}
use netz.Vectors.Socket.{sendall}
use netz.Vectors.Mosquitto.{
  MqttPackets, Mqtt5Props, Mqtt5Rc, Mqtt5Opts, publish_args, with_mid, with_payload, with_retain,
  with_properties,
}
use netz.Vectors.Harness.{expect_packet}
use netz.Vectors.Broker.{config, with_broker, with_socket, connect_v5}

abbrev pub unmatched : List (ℕ × Text)
unmatched =
    (1, txt "03B/no/subs/pub")
    ∷ (2, txt "03B/no/subs/pub/qos1")
    ∷ (3, txt "03B/no/subs/pub/qos1/test")
    ∷ []

abbrev pub numbered : List (ℕ × Text × Option ℕ)
numbered =
    (1, txt "02/subpub/subid/id1", some 1)
    ∷ (2, txt "02/subpub/subid/+/id2", some 14)
    ∷ (3, txt "02/subpub/subid/noid", none)
    ∷ (4, txt "02/subpub/subid/id1", none)
    ∷ (5, txt "02/subpub/subid/+/id2", some 19)
    ∷ (6, txt "02/subpub/subid/noid", some 21)
    ∷ []

abbrev pub forwarded : List (Text × Text × Option ℕ)
forwarded =
    (txt "02/subpub/subid/test/id2", txt "message2", some 19)
    ∷ (txt "02/subpub/subid/noid", txt "message3", some 21)
    ∷ (txt "02/subpub/subid/id1", txt "message1", none)
    ∷ []

-- `gen_varint_prop(SUBSCRIPTION_IDENTIFIER, identifier) if identifier is not None else b""`
abbrev pub identifier_props : Mqtt5Props → Option ℕ → Bytes
identifier_props mqtt5_props (some i) =
    mqtt5_props.gen_varint_prop mqtt5_props.subscription_identifier i
identifier_props mqtt5_props none = []

module _ (executable : Text) (mqtt_packets : MqttPackets) where
  open mqtt_packets use {
    gen_connect, gen_publish, gen_puback, gen_pubrec, gen_pubrel, gen_pubcomp, gen_subscribe,
    gen_suback, gen_unsubscribe_multiple, gen_unsuback, gen_pingreq, gen_pingresp, gen_disconnect,
  }

  -- The loop's `mid` counts the topics from 1.
  unfoldable pub no_matching_subscribers : Mqtt5Rc → M (Unit {0})
  no_matching_subscribers mqtt5_rc = with_broker executable config λ broker.
      with_socket broker λ sock. do
        connect_v5 mqtt_packets sock (txt "03-pub-qos1-no-subs")
        for_each unmatched λ (mid, topic). do
          sendall sock
              (gen_publish (with_mid mid (with_payload (txt "message") (publish_args topic 1 5))))
          expect_packet sock (gen_puback mid 5 (some mqtt5_rc.no_matching_subscribers))
              (text "no-match PUBACK " ∷ number mid ∷ [])
        sendall sock (
            gen_publish (
              with_retain true (
                with_mid 4 (
                  with_payload (txt "message")
                    (publish_args (txt "03B/no/subs/pub/qos1/test") 1 5)))))
        expect_packet sock (gen_puback 4 5 (some mqtt5_rc.no_matching_subscribers))
            (txt "retained no-match PUBACK")
        sendall sock (gen_disconnect none 5 none)

  unfoldable pub subscription_identifiers : Mqtt5Props → M (Unit {0})
  subscription_identifiers mqtt5_props = with_broker executable config λ broker.
      with_socket broker λ sock. do
        connect_v5 mqtt_packets sock (txt "02-subpub-subid")
        for_each numbered λ (mid, topic, identifier). do
          sendall sock
              (gen_subscribe mid topic 0 5 (some (identifier_props mqtt5_props identifier)))
          expect_packet sock (gen_suback mid 0 5) (text "SUBACK " ∷ number mid ∷ [])
        for_each forwarded λ (topic, payload, identifier). do
          sendall sock (gen_publish (with_payload payload (publish_args topic 0 5)))
          expect_packet sock
              (gen_publish (
                with_properties (identifier_props mqtt5_props identifier)
                  (with_payload payload (publish_args topic 0 5))))
              (text "forwarded PUBLISH " ∷ topic)
        sendall sock (gen_disconnect none 5 none)

  abbrev pub overlapping : Mqtt5Opts → List (ℕ × Text × ℕ × ℕ)
  overlapping mqtt5_opts =
      (1, txt "multi/subid/value", 3, 0)
      ∷ (2, txt "multi/subid/+", 9, bit_or 1 mqtt5_opts.retain_as_published)
      ∷ []

  unfoldable pub multiple_subscription_identifiers : Mqtt5Props → Mqtt5Opts → M (Unit {0})
  multiple_subscription_identifiers mqtt5_props mqtt5_opts = with_broker executable config λ broker.
      with_socket broker λ sock. do
        connect_v5 mqtt_packets sock (txt "multi-subscription-id")
        for_each (overlapping mqtt5_opts) λ (mid, topic_filter, identifier, options). do
          sendall sock (
              gen_subscribe mid topic_filter options 5
                (some (identifier_props mqtt5_props (some identifier))))
          expect_packet sock (gen_suback mid (bit_and options 0x03) 5)
              (text "multi-subid SUBACK " ∷ number mid ∷ [])
        sendall sock (
            gen_publish (
              with_retain true (
                with_mid 10
                  (with_payload (txt "both") (publish_args (txt "multi/subid/value") 1 5)))))
        expect_packet sock (gen_puback 10 5 none) (txt "multi-subid publisher PUBACK")
        expect_packet sock
            (gen_publish (
              with_properties
                (identifier_props mqtt5_props (some 3) ++ identifier_props mqtt5_props (some 9))
                (with_retain true (
                  with_mid 1
                    (with_payload (txt "both") (publish_args (txt "multi/subid/value") 1 5))))))
            (txt "multi-subid forwarded PUBLISH")
        sendall sock (gen_puback 1 5 none)
        sendall sock (gen_disconnect none 5 none)
