-- ===== src/Vectors/Scenarios/Retained.antt =====
-- The scenarios of tools/interop/mqtt_mosquitto_vectors.py about retained messages.
use netz.Base.{ℕ, Bool, true, false, none, some, List, [], ◌∷◌, ◌++◌, Bytes, if◌then◌else◌}
use netz.Vectors.World.{Text, text, number, txt, M, for_each, ◌>>◌}
use netz.Vectors.Socket.{sendall}
use netz.Vectors.Mosquitto.{
  MqttPackets, Mqtt5Props, Mqtt5Opts, publish_args, with_mid, with_payload, with_retain,
  with_properties,
}
use netz.Vectors.Harness.{expect_packet, expect_packets_unordered, expect_quiet}
use netz.Vectors.Broker.{config, with_broker, with_socket, connect_v5}

pub record Handling : Type 0 where
  pub mid : ℕ
  pub topic : Text
  pub option : ℕ
  pub first_delivery : Bool
  pub second_delivery : Bool

abbrev pub handlings : Mqtt5Opts → List Handling
handlings mqtt5_opts =
    record {
      mid = 532;
      topic = txt "02/subpub/send-retain/never";
      option = mqtt5_opts.send_retain_never;
      first_delivery = false;
      second_delivery = false;
    }
    ∷ record {
      mid = 531;
      topic = txt "02/subpub/send-retain/new";
      option = mqtt5_opts.send_retain_new;
      first_delivery = true;
      second_delivery = false;
    }
    ∷ record {
      mid = 530;
      topic = txt "02/subpub/send-retain/always";
      option = mqtt5_opts.send_retain_always;
      first_delivery = true;
      second_delivery = true;
    }
    ∷ []

abbrev pub send_retain_topics : List Text
send_retain_topics =
    txt "02/subpub/send-retain/always"
    ∷ txt "02/subpub/send-retain/new"
    ∷ txt "02/subpub/send-retain/never"
    ∷ []

module _ (executable : Text) (mqtt_packets : MqttPackets) where
  open mqtt_packets use {
    gen_connect, gen_publish, gen_puback, gen_pubrec, gen_pubrel, gen_pubcomp, gen_subscribe,
    gen_suback, gen_unsubscribe, gen_unsubscribe_multiple, gen_unsuback, gen_pingreq, gen_pingresp,
    gen_disconnect,
  }

  -- The body of the loop over the two attempts
  unfoldable pub attempt_handling : ℕ → Handling → ℕ → Bool → M (Unit {0})
  attempt_handling sock c attempt expect_delivery = do
    sendall sock (gen_subscribe c.mid c.topic c.option 5 none)
    expect_packet sock (gen_suback c.mid 0 5)
        (text "retain handling SUBACK " ∷ number c.mid ∷ text "/" ∷ number attempt ∷ [])
    if expect_delivery
        then expect_packet sock
            (gen_publish
              (with_retain true (with_payload (txt "message") (publish_args c.topic 0 5))))
            (text "retained delivery " ∷ number c.mid ∷ text "/" ∷ number attempt ∷ [])
        else expect_quiet sock (
            text "retain handling "
            ∷ number c.mid
            ∷ text "/"
            ∷ number attempt
            ∷ text " received "
            ∷ [])

  unfoldable pub retained_subscription_handling : Mqtt5Opts → M (Unit {0})
  retained_subscription_handling mqtt5_opts = with_broker executable config λ broker.
      with_socket broker λ sock. do
        connect_v5 mqtt_packets sock (txt "02-subpub-qos0-send-retain")
        for_each send_retain_topics λ topic.
            sendall sock (
              gen_publish
                (with_retain true (with_payload (txt "message") (publish_args topic 0 5))))
        for_each (handlings mqtt5_opts) λ c. do
          attempt_handling sock c 1 c.first_delivery
          attempt_handling sock c 2 c.second_delivery
        sendall sock (gen_disconnect none 5 none)

  unfoldable pub retain_as_published_live : Mqtt5Opts → M (Unit {0})
  retain_as_published_live mqtt5_opts =
      let topic = txt "retain/as/published/live" in
      with_broker executable (record config { connections = 3 })
        λ broker. with_socket broker λ cleared. with_socket broker λ preserved.
          with_socket broker λ publisher. do
            connect_v5 mqtt_packets cleared (txt "rap-clear")
            connect_v5 mqtt_packets preserved (txt "rap-preserve")
            for_each
                ((cleared, 0, txt "clear")
                  ∷ (preserved, mqtt5_opts.retain_as_published, txt "preserve")
                  ∷ [])
                λ (sock, options, label). do
                  sendall sock (gen_subscribe 1 topic options 5 none)
                  expect_packet sock (gen_suback 1 0 5) (text "RAP " ∷ label ++ txt " SUBACK")
            connect_v5 mqtt_packets publisher (txt "rap-publisher")
            sendall publisher (
                gen_publish (
                  with_retain true
                    (with_mid 1 (with_payload (txt "retained-live") (publish_args topic 1 5)))))
            expect_packet publisher (gen_puback 1 5 none) (txt "RAP publisher PUBACK")
            expect_packet cleared
                (gen_publish
                  (with_retain false (with_payload (txt "retained-live") (publish_args topic 0 5))))
                (txt "RAP cleared PUBLISH")
            expect_packet preserved
                (gen_publish
                  (with_retain true (with_payload (txt "retained-live") (publish_args topic 0 5))))
                (txt "RAP preserved PUBLISH")
            sendall publisher (gen_disconnect none 5 none)
            sendall cleared (gen_disconnect none 5 none)
            sendall preserved (gen_disconnect none 5 none)

  unfoldable pub retained_replacement : Mqtt5Props → M (Unit {0})
  retained_replacement mqtt5_props =
      let topic = txt "retained/replacement" in
      let version = λ (v : Text).
        mqtt5_props.gen_string_pair_prop mqtt5_props.user_property (txt "version") v in
      with_broker executable (record config { connections = 2 })
        λ broker. with_socket broker λ publisher. with_socket broker λ subscriber. do
          connect_v5 mqtt_packets publisher (txt "retained-replace-pub")
          for_each
              ((1, txt "old-value", version (txt "old"))
                ∷ (2, txt "new-value", version (txt "new"))
                ∷ [])
              λ (mid, payload, properties). do
                sendall publisher (
                    gen_publish (
                      with_properties properties (
                        with_retain true
                          (with_mid mid (with_payload payload (publish_args topic 1 5))))))
                expect_packet publisher (gen_puback mid 5 (some 0x10))
                    (text "retained replacement PUBACK " ∷ number mid ∷ [])
          connect_v5 mqtt_packets subscriber (txt "retained-replace-sub")
          sendall subscriber (gen_subscribe 1 topic 0 5 none)
          expect_packet subscriber (gen_suback 1 0 5) (txt "retained replacement SUBACK")
          expect_packet subscriber
              (gen_publish (
                with_properties (version (txt "new"))
                  (with_retain true (with_payload (txt "new-value") (publish_args topic 0 5)))))
              (txt "retained replacement latest PUBLISH")
          sendall subscriber gen_pingreq
          expect_packet subscriber gen_pingresp (txt "retained replacement single replay")
          sendall publisher (gen_disconnect none 5 none)
          sendall subscriber (gen_disconnect none 5 none)

  abbrev pub bundle : Mqtt5Props → Bytes
  bundle mqtt5_props =
      mqtt5_props.gen_byte_prop mqtt5_props.payload_format_indicator 1
      ++ mqtt5_props.gen_string_prop mqtt5_props.content_type (txt "plain/text")
      ++ mqtt5_props.gen_string_prop mqtt5_props.response_topic (txt "response/property/bundle")
      ++ mqtt5_props.gen_string_prop mqtt5_props.correlation_data (txt "2357289375902345")
      ++ mqtt5_props.gen_string_pair_prop mqtt5_props.user_property (txt "name") (txt "value")

  unfoldable pub retained_publish_property_bundle : Mqtt5Props → M (Unit {0})
  retained_publish_property_bundle mqtt5_props =
      let topic = txt "retained/property/bundle" in
      with_broker executable config λ broker. with_socket broker λ sock. do
        connect_v5 mqtt_packets sock (txt "retained-property-bundle")
        sendall sock (
            gen_publish (
              with_properties (bundle mqtt5_props) (
                with_retain true
                  (with_mid 1 (with_payload (txt "message") (publish_args topic 1 5))))))
        expect_packet sock (gen_puback 1 5 (some 0x10)) (txt "property bundle PUBACK")
        sendall sock (gen_subscribe 2 topic 0 5 none)
        expect_packet sock (gen_suback 2 0 5) (txt "property bundle SUBACK")
        expect_packet sock
            (gen_publish (
              with_properties (bundle mqtt5_props)
                (with_retain true (with_payload (txt "message") (publish_args topic 0 5)))))
            (txt "property bundle retained PUBLISH")
        sendall sock (gen_disconnect none 5 none)

  unfoldable pub retained_tombstone_properties : Mqtt5Props → M (Unit {0})
  retained_tombstone_properties mqtt5_props =
      let topic = txt "retained/tombstone/properties" in
      let state =
        λ (v : Text). mqtt5_props.gen_string_pair_prop mqtt5_props.user_property (txt "state") v in
      with_broker executable config λ broker. with_socket broker λ sock. do
        connect_v5 mqtt_packets sock (txt "retained-tombstone")
        for_each ((1, some (txt "old"), state (txt "old")) ∷ (2, none, state (txt "deleted")) ∷ [])
            λ (mid, payload, properties). do
              sendall sock (
                  gen_publish (
                    with_properties properties (
                      with_retain true (
                        with_mid mid
                          (record (publish_args topic 1 5) { payload = some payload })))))
              expect_packet sock (gen_puback mid 5 (some 0x10))
                  (text "tombstone PUBACK " ∷ number mid ∷ [])
        sendall sock (gen_subscribe 3 topic 0 5 none)
        expect_packet sock (gen_suback 3 0 5) (txt "tombstone empty SUBACK")
        sendall sock gen_pingreq
        expect_packet sock gen_pingresp (txt "tombstone empty replay")
        sendall sock (
            gen_publish (
              with_properties (state (txt "new")) (
                with_retain true (with_mid 4 (with_payload (txt "new") (publish_args topic 1 5))))))
        expect_packets_unordered sock
            (gen_puback 4 5 none
              ∷ gen_publish (
                  with_properties (state (txt "new"))
                    (with_retain false (with_payload (txt "new") (publish_args topic 0 5))))
              ∷ [])
            (txt "tombstone new live publish")
        sendall sock (gen_disconnect none 5 none)
