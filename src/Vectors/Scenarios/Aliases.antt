-- ===== src/Vectors/Scenarios/Aliases.antt =====
-- `incoming_topic_alias` and `outgoing_topic_alias` of tools/interop/mqtt_mosquitto_vectors.py.
use netz.Base.{none, some}
use netz.Vectors.World.{Text, txt, M, ◌>>◌}
use netz.Vectors.Socket.{sendall}
use netz.Vectors.Mosquitto.{
  MqttPackets, Mqtt5Props, connect_args, publish_args, with_payload, with_properties,
}
use netz.Vectors.Harness.{expect_packet}
use netz.Vectors.Broker.{config, with_broker, with_socket, connect_v5, expect_success}

module _ (executable : Text) (mqtt_packets : MqttPackets) where
  open mqtt_packets use {
    gen_connect, gen_publish, gen_puback, gen_pubrec, gen_pubrel, gen_pubcomp, gen_subscribe,
    gen_suback, gen_unsubscribe, gen_unsubscribe_multiple, gen_unsuback, gen_pingreq, gen_pingresp,
    gen_disconnect,
  }

  unfoldable pub incoming_topic_alias : Mqtt5Props → M (Unit {0})
  incoming_topic_alias mqtt5_props =
      let topic = txt "02/subpub/topic-alias/alias" in
      let alias_property = mqtt5_props.gen_uint16_prop mqtt5_props.topic_alias 3 in
      with_broker executable (record config { connections = 2 })
        λ broker. with_socket broker λ publisher. with_socket broker λ subscriber. do
          connect_v5 mqtt_packets publisher (txt "02-subpub-qos0-topic-alias")
          connect_v5 mqtt_packets subscriber (txt "02-subpub-qos0-topic-alias-helper")
          sendall publisher (
              gen_publish (
                with_properties alias_property
                  (with_payload (txt "message") (publish_args topic 0 5))))
          sendall subscriber (gen_subscribe 1 topic 0 5 none)
          expect_packet subscriber (gen_suback 1 0 5) (txt "topic alias SUBACK")
          sendall publisher (
              gen_publish (
                with_properties alias_property
                  (with_payload (txt "message") (publish_args (txt "") 0 5))))
          expect_packet subscriber
              (gen_publish (with_payload (txt "message") (publish_args topic 0 5)))
              (txt "resolved topic alias PUBLISH")
          sendall publisher (gen_disconnect none 5 none)
          sendall subscriber (gen_disconnect none 5 none)

  unfoldable pub outgoing_topic_alias : Mqtt5Props → M (Unit {0})
  outgoing_topic_alias mqtt5_props =
      let topic = txt "02/b2c/topic/alias/1" in
      let maximum_property = mqtt5_props.gen_uint16_prop mqtt5_props.topic_alias_maximum 2 in
      let alias_property = mqtt5_props.gen_uint16_prop mqtt5_props.topic_alias 1 in
      with_broker executable (record config { connections = 2 })
        λ broker. with_socket broker λ subscriber. with_socket broker λ publisher. do
          sendall subscriber (
              gen_connect (record (connect_args (some (txt "02-b2c-topic-alias")) 5) {
                properties = some maximum_property;
              }))
          expect_success subscriber (txt "invalid alias CONNACK: ")
          connect_v5 mqtt_packets publisher (txt "02-b2c-topic-alias-helper")
          sendall subscriber (gen_subscribe 1 topic 0 5 none)
          expect_packet subscriber (gen_suback 1 0 5) (txt "outgoing topic alias SUBACK")
          sendall publisher (gen_publish (with_payload (txt "first") (publish_args topic 0 5)))
          expect_packet subscriber
              (gen_publish (
                with_properties alias_property
                  (with_payload (txt "first") (publish_args topic 0 5))))
              (txt "outgoing topic alias establish")
          sendall publisher (gen_publish (with_payload (txt "second") (publish_args topic 0 5)))
          expect_packet subscriber
              (gen_publish (
                with_properties alias_property
                  (with_payload (txt "second") (publish_args (txt "") 0 5))))
              (txt "outgoing topic alias reuse")
          sendall publisher (gen_disconnect none 5 none)
          sendall subscriber (gen_disconnect none 5 none)
