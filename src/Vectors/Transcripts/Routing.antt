-- ===== src/Vectors/Transcripts/Routing.antt =====
-- The conversations of the routing scenarios
-- of tools/interop/mqtt_mosquitto_vectors.py.
use netz.Base.{true, none, some, [], ◌∷◌, ◌++◌}
use netz.Vectors.World.{Trace, Text, txt}
use netz.Vectors.Mosquitto.{MqttPackets, Mqtt5Props, publish_args, with_payload, with_properties}
use netz.Vectors.Harness.{is_hang_up}
use netz.Vectors.Broker.{config}
use netz.Vectors.Runs.{Runs, ◌⨾◌}
use netz.Vectors.Runs.Brokers.{Served, Connection, Nothing}
use netz.Vectors.Runs.Connects.{Connected}
use netz.Vectors.Transcripts.Rules.{Says, Hears, vector_rules}
use netz.Vectors.Scenarios.Routing.{
  reject_publish_subscription_identifier, unsubscribe_reason_codes, request_response_properties,
}

module _ (executable : Text) (mqtt_packets : MqttPackets) where
  open mqtt_packets use {
    gen_connect, gen_publish, gen_puback, gen_pubrec, gen_pubrel, gen_pubcomp, gen_subscribe,
    gen_suback, gen_unsubscribe, gen_unsubscribe_multiple, gen_unsuback, gen_pingreq, gen_pingresp,
    gen_disconnect,
  }

  abbrev pub RejectPublishSubscriptionIdentifier : Mqtt5Props → Trace → Type 0
  RejectPublishSubscriptionIdentifier mqtt5_props =
      let illegal = mqtt5_props.gen_varint_prop mqtt5_props.subscription_identifier 7 in
      Served executable (record config { connections = 2; ignore_errors = true })
        λ broker.
          (Connection broker λ bad.
            Connected mqtt_packets bad (txt "illegal-publish-subid")
            ⨾ Says bad (
                gen_publish (
                  with_properties illegal
                    (with_payload (txt "bad") (publish_args (txt "illegal/subid") 0 5))))
            ⨾ Nothing is_hang_up bad)
          ⨾ (Connection broker λ healthy.
              Connected mqtt_packets healthy (txt "after-illegal-subid")
              ⨾ Says healthy gen_pingreq
              ⨾ Hears healthy gen_pingresp
              ⨾ Says healthy (gen_disconnect none 5 none))

  -- A run of `reject_publish_subscription_identifier` that returns is this conversation: the illegal
  -- PUBLISH is followed by the end of the connection and no byte, and a later client is served.
  pub reject_publish_subscription_identifier_conversation :
      (mqtt5_props : Mqtt5Props)
      → Runs
          (reject_publish_subscription_identifier executable mqtt_packets mqtt5_props)
          (RejectPublishSubscriptionIdentifier mqtt5_props)
  unfolding reject_publish_subscription_identifier
  reject_publish_subscription_identifier_conversation mqtt5_props = search vector_rules depth 60

  abbrev pub UnsubscribeReasonCodes : Trace → Type 0
  UnsubscribeReasonCodes =
      let topic = txt "unsubscribe/reason/existing" in
      Served executable (record config { connections = 2 })
        λ broker. Connection broker λ subscriber. Connection broker λ publisher.
          Connected mqtt_packets subscriber (txt "unsubscribe-reasons")
          ⨾ Says subscriber (gen_subscribe 1 topic 0 5 none)
          ⨾ Hears subscriber (gen_suback 1 0 5)
          ⨾ Says subscriber
              (gen_unsubscribe_multiple 2 (topic ∷ txt "unsubscribe/reason/missing" ∷ []) 5)
          ⨾ Hears subscriber (gen_unsuback 2 (some (0x00 ∷ 0x11 ∷ [])) 5)
          ⨾ Connected mqtt_packets publisher (txt "unsubscribe-publisher")
          ⨾ Says publisher (gen_publish (with_payload (txt "not-routed") (publish_args topic 0 5)))
          ⨾ Says subscriber gen_pingreq
          ⨾ Hears subscriber gen_pingresp
          ⨾ Says publisher (gen_disconnect none 5 none)
          ⨾ Says subscriber (gen_disconnect none 5 none)

  -- A run of `unsubscribe_reason_codes` that returns is this conversation: the UNSUBACK has Success for
  -- the filter that was there and No Subscription Existed for the other, and the later PUBLISH is not
  -- delivered before the PINGRESP.
  pub unsubscribe_reason_codes_conversation :
      Runs (unsubscribe_reason_codes executable mqtt_packets) UnsubscribeReasonCodes
  unfolding unsubscribe_reason_codes
  unsubscribe_reason_codes_conversation = search vector_rules depth 60

  abbrev pub RequestResponseProperties : Mqtt5Props → Trace → Type 0
  RequestResponseProperties mqtt5_props =
      let normal_topic = txt "normal/topic" in
      let response_topic = txt "response/topic" in
      let properties =
        mqtt5_props.gen_string_prop mqtt5_props.response_topic response_topic
        ++ mqtt5_props.gen_string_prop mqtt5_props.correlation_data
            (txt "45vyvynq30q3vt4 nuy893b4v3") in
      let request =
        gen_publish
          (with_properties properties (with_payload (txt "2") (publish_args normal_topic 0 5))) in
      let response = gen_publish (with_payload (txt "22") (publish_args response_topic 0 5)) in
      Served executable (record config { connections = 2 })
        λ broker. Connection broker λ responder. Connection broker λ requester.
          Connected mqtt_packets responder (txt "response-client")
          ⨾ Connected mqtt_packets requester (txt "request-client")
          ⨾ Says responder (gen_subscribe 1 normal_topic 0 5 none)
          ⨾ Hears responder (gen_suback 1 0 5)
          ⨾ Says requester (gen_subscribe 1 response_topic 0 5 none)
          ⨾ Hears requester (gen_suback 1 0 5)
          ⨾ Says requester request
          ⨾ Hears responder request
          ⨾ Says responder response
          ⨾ Hears requester response
          ⨾ Says responder (gen_disconnect none 5 none)
          ⨾ Says requester (gen_disconnect none 5 none)

  -- A run of `request_response_properties` that returns is this conversation: the request reaches the
  -- responder with its two properties, and the response the requester.
  pub request_response_properties_conversation :
      (mqtt5_props : Mqtt5Props)
      → Runs
          (request_response_properties executable mqtt_packets mqtt5_props)
          (RequestResponseProperties mqtt5_props)
  unfolding request_response_properties
  request_response_properties_conversation mqtt5_props = search vector_rules depth 60
