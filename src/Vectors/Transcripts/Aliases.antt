-- ===== src/Vectors/Transcripts/Aliases.antt =====
-- The conversations of the topic alias scenarios
-- of tools/interop/mqtt_mosquitto_vectors.py.
use netz.Base.{none, some}
use netz.Vectors.World.{Trace, Text, txt}
use netz.Vectors.Mosquitto.{
  MqttPackets, Mqtt5Props, connect_args, publish_args, with_payload, with_properties,
}
use netz.Vectors.Broker.{config}
use netz.Vectors.Runs.{Runs, ◌⨾◌}
use netz.Vectors.Runs.Brokers.{Served, Connection}
use netz.Vectors.Runs.Connects.{Connected, Success}
use netz.Vectors.Transcripts.Rules.{Says, Hears, vector_rules}
use netz.Vectors.Scenarios.Aliases.{incoming_topic_alias, outgoing_topic_alias}

module _ (executable : Text) (mqtt_packets : MqttPackets) where
  open mqtt_packets use {
    gen_connect, gen_publish, gen_puback, gen_pubrec, gen_pubrel, gen_pubcomp, gen_subscribe,
    gen_suback, gen_unsubscribe, gen_unsubscribe_multiple, gen_unsuback, gen_pingreq, gen_pingresp,
    gen_disconnect,
  }

  abbrev pub IncomingTopicAlias : Mqtt5Props → Trace → Type 0
  IncomingTopicAlias mqtt5_props =
      let topic = txt "02/subpub/topic-alias/alias" in
      let alias_property = mqtt5_props.gen_uint16_prop mqtt5_props.topic_alias 3 in
      Served executable (record config { connections = 2 })
        λ broker. Connection broker λ publisher. Connection broker λ subscriber.
          Connected mqtt_packets publisher (txt "02-subpub-qos0-topic-alias")
          ⨾ Connected mqtt_packets subscriber (txt "02-subpub-qos0-topic-alias-helper")
          ⨾ Says publisher (
              gen_publish (
                with_properties alias_property
                  (with_payload (txt "message") (publish_args topic 0 5))))
          ⨾ Says subscriber (gen_subscribe 1 topic 0 5 none)
          ⨾ Hears subscriber (gen_suback 1 0 5)
          ⨾ Says publisher (
              gen_publish (
                with_properties alias_property
                  (with_payload (txt "message") (publish_args (txt "") 0 5))))
          ⨾ Hears subscriber (gen_publish (with_payload (txt "message") (publish_args topic 0 5)))
          ⨾ Says publisher (gen_disconnect none 5 none)
          ⨾ Says subscriber (gen_disconnect none 5 none)

  -- A run of `incoming_topic_alias` that returns is this conversation: the publisher has given its topic
  -- the alias 3 before the subscriber subscribes, and its second PUBLISH, with the alias and an empty
  -- topic, is what the subscriber then gets, with the topic and without the alias.
  pub incoming_topic_alias_conversation :
      (mqtt5_props : Mqtt5Props)
      → Runs
          (incoming_topic_alias executable mqtt_packets mqtt5_props)
          (IncomingTopicAlias mqtt5_props)
  unfolding incoming_topic_alias
  incoming_topic_alias_conversation mqtt5_props = search vector_rules depth 60

  abbrev pub OutgoingTopicAlias : Mqtt5Props → Trace → Type 0
  OutgoingTopicAlias mqtt5_props =
      let topic = txt "02/b2c/topic/alias/1" in
      let maximum_property = mqtt5_props.gen_uint16_prop mqtt5_props.topic_alias_maximum 2 in
      let alias_property = mqtt5_props.gen_uint16_prop mqtt5_props.topic_alias 1 in
      Served executable (record config { connections = 2 })
        λ broker. Connection broker λ subscriber. Connection broker λ publisher.
          Says subscriber (
            gen_connect (record (connect_args (some (txt "02-b2c-topic-alias")) 5) {
              properties = some maximum_property;
            }))
          ⨾ Success subscriber
          ⨾ Connected mqtt_packets publisher (txt "02-b2c-topic-alias-helper")
          ⨾ Says subscriber (gen_subscribe 1 topic 0 5 none)
          ⨾ Hears subscriber (gen_suback 1 0 5)
          ⨾ Says publisher (gen_publish (with_payload (txt "first") (publish_args topic 0 5)))
          ⨾ Hears subscriber (
              gen_publish (
                with_properties alias_property
                  (with_payload (txt "first") (publish_args topic 0 5))))
          ⨾ Says publisher (gen_publish (with_payload (txt "second") (publish_args topic 0 5)))
          ⨾ Hears subscriber (
              gen_publish (
                with_properties alias_property
                  (with_payload (txt "second") (publish_args (txt "") 0 5))))
          ⨾ Says publisher (gen_disconnect none 5 none)
          ⨾ Says subscriber (gen_disconnect none 5 none)

  -- A run of `outgoing_topic_alias` that returns is this conversation: to a subscriber that has
  -- connected with a Topic Alias Maximum of 2, the first message of a topic is delivered with the topic
  -- and the alias 1, and the second with an empty topic and the alias 1.
  pub outgoing_topic_alias_conversation :
      (mqtt5_props : Mqtt5Props)
      → Runs
          (outgoing_topic_alias executable mqtt_packets mqtt5_props)
          (OutgoingTopicAlias mqtt5_props)
  unfolding outgoing_topic_alias
  outgoing_topic_alias_conversation mqtt5_props = search vector_rules depth 60
