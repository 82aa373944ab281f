-- ===== src/Vectors/Transcripts/Acks.antt =====
-- The conversations of the acknowledgement and Subscription Identifier scenarios
-- of tools/interop/mqtt_mosquitto_vectors.py.
use netz.Base.{true, none, some, ◌++◌, bit_and}
use netz.Vectors.World.{Trace, Text, txt}
use netz.Vectors.Mosquitto.{
  MqttPackets, Mqtt5Props, Mqtt5Rc, Mqtt5Opts, publish_args, with_mid, with_payload, with_retain,
  with_properties,
}
use netz.Vectors.Broker.{config}
use netz.Vectors.Runs.{Runs, ◌⨾◌, Each}
use netz.Vectors.Runs.Brokers.{Served, Connection}
use netz.Vectors.Runs.Connects.{Connected}
use netz.Vectors.Transcripts.Rules.{Says, Hears, vector_rules}
use netz.Vectors.Scenarios.Acks.{
  unmatched, numbered, forwarded, identifier_props, no_matching_subscribers,
  subscription_identifiers, overlapping, multiple_subscription_identifiers,
}

module _ (executable : Text) (mqtt_packets : MqttPackets) where
  open mqtt_packets use {
    gen_connect, gen_publish, gen_puback, gen_pubrec, gen_pubrel, gen_pubcomp, gen_subscribe,
    gen_suback, gen_unsubscribe, gen_unsubscribe_multiple, gen_unsuback, gen_pingreq, gen_pingresp,
    gen_disconnect,
  }

  abbrev pub NoMatchingSubscribers : Mqtt5Rc → Trace → Type 0
  NoMatchingSubscribers mqtt5_rc = Served executable config λ broker. Connection broker λ sock.
      Connected mqtt_packets sock (txt "03-pub-qos1-no-subs")
      ⨾ (Each
          (λ (mid, topic).
            Says sock
              (gen_publish (with_mid mid (with_payload (txt "message") (publish_args topic 1 5))))
            ⨾ Hears sock (gen_puback mid 5 (some mqtt5_rc.no_matching_subscribers)))
          unmatched)
      ⨾ Says sock (
          gen_publish (
            with_retain true (
              with_mid 4 (
                with_payload (txt "message")
                  (publish_args (txt "03B/no/subs/pub/qos1/test") 1 5)))))
      ⨾ Hears sock (gen_puback 4 5 (some mqtt5_rc.no_matching_subscribers))
      ⨾ Says sock (gen_disconnect none 5 none)

  -- In every environment, a run of `no_matching_subscribers` that returns is this conversation: one
  -- broker process that exits with status 0, one connection, and for each of the three topics, and
  -- then for the retained message, a PUBLISH whose next answer is the PUBACK with its packet
  -- identifier and the reason No Matching Subscribers.
  pub no_matching_subscribers_conversation :
      (mqtt5_rc : Mqtt5Rc)
      → Runs
          (no_matching_subscribers executable mqtt_packets mqtt5_rc)
          (NoMatchingSubscribers mqtt5_rc)
  unfolding no_matching_subscribers
  no_matching_subscribers_conversation mqtt5_rc = search vector_rules depth 60

  abbrev pub SubscriptionIdentifiers : Mqtt5Props → Trace → Type 0
  SubscriptionIdentifiers mqtt5_props = Served executable config λ broker. Connection broker λ sock.
      Connected mqtt_packets sock (txt "02-subpub-subid")
      ⨾ (Each
          (λ (mid, topic, identifier).
            Says sock (gen_subscribe mid topic 0 5 (some (identifier_props mqtt5_props identifier)))
            ⨾ Hears sock (gen_suback mid 0 5))
          numbered)
      ⨾ (Each
          (λ (topic, payload, identifier).
            Says sock (gen_publish (with_payload payload (publish_args topic 0 5)))
            ⨾ Hears sock (
                gen_publish (
                  with_properties (identifier_props mqtt5_props identifier)
                    (with_payload payload (publish_args topic 0 5)))))
          forwarded)
      ⨾ Says sock (gen_disconnect none 5 none)

  -- A run of `subscription_identifiers` that returns is this conversation: each SUBSCRIBE is
  -- acknowledged, and each PUBLISH comes back with the identifier that the last subscription to its
  -- filter gave, or with none.
  pub subscription_identifiers_conversation :
      (mqtt5_props : Mqtt5Props)
      → Runs
          (subscription_identifiers executable mqtt_packets mqtt5_props)
          (SubscriptionIdentifiers mqtt5_props)
  unfolding subscription_identifiers
  subscription_identifiers_conversation mqtt5_props = search vector_rules depth 60

  abbrev pub MultipleSubscriptionIdentifiers : Mqtt5Props → Mqtt5Opts → Trace → Type 0
  MultipleSubscriptionIdentifiers mqtt5_props mqtt5_opts = Served executable config λ broker.
      Connection broker λ sock.
        Connected mqtt_packets sock (txt "multi-subscription-id")
        ⨾ (Each
            (λ (mid, topic_filter, identifier, options).
              Says sock (
                gen_subscribe mid topic_filter options 5
                  (some (identifier_props mqtt5_props (some identifier))))
              ⨾ Hears sock (gen_suback mid (bit_and options 0x03) 5))
            (overlapping executable mqtt_packets mqtt5_opts))
        ⨾ Says sock (
            gen_publish (
              with_retain true (
                with_mid 10
                  (with_payload (txt "both") (publish_args (txt "multi/subid/value") 1 5)))))
        ⨾ Hears sock (gen_puback 10 5 none)
        ⨾ Hears sock (
            gen_publish (
              with_properties
                (identifier_props mqtt5_props (some 3) ++ identifier_props mqtt5_props (some 9))
                (with_retain true (
                  with_mid 1
                    (with_payload (txt "both") (publish_args (txt "multi/subid/value") 1 5))))))
        ⨾ Says sock (gen_puback 1 5 none)
        ⨾ Says sock (gen_disconnect none 5 none)

  -- A run of `multiple_subscription_identifiers` that returns is this conversation: the one PUBLISH that
  -- two filters match comes back once, with the identifiers of both.
  pub multiple_subscription_identifiers_conversation :
      (mqtt5_props : Mqtt5Props) (mqtt5_opts : Mqtt5Opts)
      → Runs
          (multiple_subscription_identifiers executable mqtt_packets mqtt5_props mqtt5_opts)
          (MultipleSubscriptionIdentifiers mqtt5_props mqtt5_opts)
  unfolding multiple_subscription_identifiers
  multiple_subscription_identifiers_conversation mqtt5_props mqtt5_opts =
      search vector_rules depth 60
