-- ===== src/Vectors/Transcripts/ExactlyOnce.antt =====
-- The conversations of the QoS 2 scenarios
-- of tools/interop/mqtt_mosquitto_vectors.py.
use netz.Base.{true, false, none, [], ◌∷◌}
use netz.Vectors.World.{Trace, Text, txt}
use netz.Vectors.Mosquitto.{MqttPackets, publish_args, with_mid, with_payload, with_dup}
use netz.Vectors.Broker.{config}
use netz.Vectors.Runs.{Runs, ◌⨾◌, Each}
use netz.Vectors.Runs.Brokers.{Served, Connection, Quiet}
use netz.Vectors.Runs.Connects.{Connected}
use netz.Vectors.Transcripts.Rules.{Says, Hears, vector_rules}
use netz.Vectors.Scenarios.ExactlyOnce.{
  qos2_routes_at_pubrel, qos2_duplicate_publish, qos2_repeated_pubrel,
}

module _ (executable : Text) (mqtt_packets : MqttPackets) where
  open mqtt_packets use {
    gen_connect, gen_publish, gen_puback, gen_pubrec, gen_pubrel, gen_pubcomp, gen_subscribe,
    gen_suback, gen_unsubscribe, gen_unsubscribe_multiple, gen_unsuback, gen_pingreq, gen_pingresp,
    gen_disconnect,
  }

  abbrev pub Qos2RoutesAtPubrel : Trace → Type 0
  Qos2RoutesAtPubrel =
      let topic = txt "pub/qos2/reuse" in
      Served executable (record config { connections = 2 })
        λ broker. Connection broker λ subscriber. Connection broker λ publisher.
          Connected mqtt_packets subscriber (txt "sub-qos2-test")
          ⨾ Says subscriber (gen_subscribe 1 topic 2 5 none)
          ⨾ Hears subscriber (gen_suback 1 2 5)
          ⨾ Connected mqtt_packets publisher (txt "pub-qos2-test")
          ⨾ Says publisher
              (gen_publish (with_mid 312 (with_payload (txt "message") (publish_args topic 2 5))))
          ⨾ Hears publisher (gen_pubrec 312 5)
          ⨾ Quiet subscriber
          ⨾ Says publisher (gen_pubrel 312 5)
          ⨾ Hears publisher (gen_pubcomp 312 5)
          ⨾ Hears subscriber
              (gen_publish (with_mid 1 (with_payload (txt "message") (publish_args topic 2 5))))
          ⨾ Says subscriber (gen_pubrec 1 5)
          ⨾ Hears subscriber (gen_pubrel 1 5)
          ⨾ Says subscriber (gen_pubcomp 1 5)
          ⨾ Says publisher (gen_disconnect none 5 none)
          ⨾ Says subscriber (gen_disconnect none 5 none)

  -- A run of `qos2_routes_at_pubrel` that returns is this conversation: between the PUBREC and the
  -- PUBREL nothing reaches the subscriber, and after the PUBREL it completes one handshake of its own.
  pub qos2_routes_at_pubrel_conversation :
      Runs (qos2_routes_at_pubrel executable mqtt_packets) Qos2RoutesAtPubrel
  unfolding qos2_routes_at_pubrel
  qos2_routes_at_pubrel_conversation = search vector_rules depth 60

  abbrev pub Qos2DuplicatePublish : Trace → Type 0
  Qos2DuplicatePublish =
      let topic = txt "03/c2b/qos2/duplicate/test" in
      Served executable (record config { connections = 2 })
        λ broker. Connection broker λ subscriber. Connection broker λ publisher.
          Connected mqtt_packets subscriber (txt "qos2-dup-subscriber")
          ⨾ Says subscriber (gen_subscribe 1 topic 2 5 none)
          ⨾ Hears subscriber (gen_suback 1 2 5)
          ⨾ Connected mqtt_packets publisher (txt "qos2-dup-publisher")
          ⨾ (Each
              (λ dup.
                Says publisher (
                  gen_publish (
                    with_dup dup
                      (with_mid 7 (with_payload (txt "original") (publish_args topic 2 5)))))
                ⨾ Hears publisher (gen_pubrec 7 5)
                ⨾ Quiet subscriber)
              (false ∷ true ∷ []))
          ⨾ Says publisher (gen_pubrel 7 5)
          ⨾ Hears publisher (gen_pubcomp 7 5)
          ⨾ Hears subscriber
              (gen_publish (with_mid 1 (with_payload (txt "original") (publish_args topic 2 5))))
          ⨾ Says subscriber (gen_pubrec 1 5)
          ⨾ Hears subscriber (gen_pubrel 1 5)
          ⨾ Says subscriber (gen_pubcomp 1 5)
          ⨾ Says publisher (gen_disconnect none 5 none)
          ⨾ Says subscriber (gen_disconnect none 5 none)

  -- A run of `qos2_duplicate_publish` that returns is this conversation: the PUBLISH and its repetition
  -- each get the PUBREC and reach no subscriber; the PUBREL releases the message once.
  pub qos2_duplicate_publish_conversation :
      Runs (qos2_duplicate_publish executable mqtt_packets) Qos2DuplicatePublish
  unfolding qos2_duplicate_publish
  qos2_duplicate_publish_conversation = search vector_rules depth 60

  abbrev pub Qos2RepeatedPubrel : Trace → Type 0
  Qos2RepeatedPubrel =
      let topic = txt "qos2/repeated/pubrel" in
      Served executable (record config { connections = 2 })
        λ broker. Connection broker λ subscriber. Connection broker λ publisher.
          Connected mqtt_packets subscriber (txt "repeat-rel-sub")
          ⨾ Says subscriber (gen_subscribe 1 topic 2 5 none)
          ⨾ Hears subscriber (gen_suback 1 2 5)
          ⨾ Connected mqtt_packets publisher (txt "repeat-rel-pub")
          ⨾ Says publisher
              (gen_publish (with_mid 9 (with_payload (txt "once") (publish_args topic 2 5))))
          ⨾ Hears publisher (gen_pubrec 9 5)
          ⨾ Says publisher (gen_pubrel 9 5)
          ⨾ Hears publisher (gen_pubcomp 9 5)
          ⨾ Hears subscriber
              (gen_publish (with_mid 1 (with_payload (txt "once") (publish_args topic 2 5))))
          ⨾ Says subscriber (gen_pubrec 1 5)
          ⨾ Hears subscriber (gen_pubrel 1 5)
          ⨾ Says subscriber (gen_pubcomp 1 5)
          ⨾ (Each (λ mid. Says publisher (gen_pubrel mid 5) ⨾ Hears publisher (gen_pubcomp mid 5))
              (9 ∷ 77 ∷ []))
          ⨾ Quiet subscriber
          ⨾ Says publisher (gen_disconnect none 5 none)
          ⨾ Says subscriber (gen_disconnect none 5 none)

  -- A run of `qos2_repeated_pubrel` that returns is this conversation: a repeated and an unknown PUBREL
  -- are each answered by PUBCOMP, and the subscriber hears nothing more.
  pub qos2_repeated_pubrel_conversation :
      Runs (qos2_repeated_pubrel executable mqtt_packets) Qos2RepeatedPubrel
  unfolding qos2_repeated_pubrel
  qos2_repeated_pubrel_conversation = search vector_rules depth 60
