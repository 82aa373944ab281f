-- ===== src/Vectors/Transcripts/Retained.antt =====
-- The conversations of the scenarios on retained messages
-- of tools/interop/mqtt_mosquitto_vectors.py.
use netz.Base.{ℕ, Bool, true, false, none, some, [], ◌∷◌}
use netz.Vectors.World.{Text, txt, Trace}
use netz.Vectors.Mosquitto.{
  MqttPackets, Mqtt5Props, Mqtt5Opts, publish_args, with_mid, with_payload, with_retain,
  with_properties,
}
use netz.Vectors.Broker.{config}
use netz.Vectors.Runs.{Runs, ◌⨾◌, Each}
use netz.Vectors.Runs.Unordered.{Unordered}
use netz.Vectors.Runs.Brokers.{Served, Connection, Quiet}
use netz.Vectors.Runs.Connects.{Connected}
use netz.Vectors.Transcripts.Rules.{Says, Hears, Choice, vector_rules}
use netz.Vectors.Scenarios.Retained.{
  handlings, send_retain_topics, attempt_handling, retained_subscription_handling,
  retain_as_published_live, retained_replacement, bundle, retained_publish_property_bundle,
  retained_tombstone_properties, Handling,
}

module _ (executable : Text) (mqtt_packets : MqttPackets) where
  open mqtt_packets use {
    gen_connect, gen_publish, gen_puback, gen_pubrec, gen_pubrel, gen_pubcomp, gen_subscribe,
    gen_suback, gen_unsubscribe, gen_unsubscribe_multiple, gen_unsuback, gen_pingreq, gen_pingresp,
    gen_disconnect,
  }

  abbrev Attempted : ℕ → Handling → Bool → Trace → Type 0
  Attempted sock c expect_delivery =
      Says sock (gen_subscribe c.mid c.topic c.option 5 none)
      ⨾ Hears sock (gen_suback c.mid 0 5)
      ⨾ Choice expect_delivery
          (Hears sock (
            gen_publish
              (with_retain true (with_payload (txt "message") (publish_args c.topic 0 5)))))
          (Quiet sock)

  abbrev pub RetainedSubscriptionHandling : Mqtt5Opts → Trace → Type 0
  RetainedSubscriptionHandling mqtt5_opts = Served executable config λ broker.
      Connection broker λ sock.
        Connected mqtt_packets sock (txt "02-subpub-qos0-send-retain")
        ⨾ (Each
            (λ topic. Says sock (
              gen_publish
                (with_retain true (with_payload (txt "message") (publish_args topic 0 5)))))
            send_retain_topics)
        ⨾ (Each (λ c. (Attempted sock c c.first_delivery) ⨾ (Attempted sock c c.second_delivery))
            (handlings mqtt5_opts))
        ⨾ Says sock (gen_disconnect none 5 none)

  -- A run of `retained_subscription_handling` that returns is this conversation: each of the three
  -- options is subscribed to twice, and the retained message is replayed exactly in the attempts that
  -- the option allows.
  pub retained_subscription_handling_conversation :
      (mqtt5_opts : Mqtt5Opts)
      → Runs
          (retained_subscription_handling executable mqtt_packets mqtt5_opts)
          (RetainedSubscriptionHandling mqtt5_opts)
  unfolding retained_subscription_handling attempt_handling
  retained_subscription_handling_conversation mqtt5_opts = search vector_rules depth 60

  abbrev pub RetainAsPublishedLive : Mqtt5Opts → Trace → Type 0
  RetainAsPublishedLive mqtt5_opts =
      let topic = txt "retain/as/published/live" in
      Served executable (record config { connections = 3 })
        λ broker. Connection broker λ cleared. Connection broker λ preserved.
          Connection broker λ publisher.
            Connected mqtt_packets cleared (txt "rap-clear")
            ⨾ Connected mqtt_packets preserved (txt "rap-preserve")
            ⨾ (Each
                (λ (sock, options, label).
                  Says sock (gen_subscribe 1 topic options 5 none) ⨾ Hears sock (gen_suback 1 0 5))
                ((cleared, 0, txt "clear")
                  ∷ (preserved, mqtt5_opts.retain_as_published, txt "preserve")
                  ∷ []))
            ⨾ Connected mqtt_packets publisher (txt "rap-publisher")
            ⨾ Says publisher (
                gen_publish (
                  with_retain true
                    (with_mid 1 (with_payload (txt "retained-live") (publish_args topic 1 5)))))
            ⨾ Hears publisher (gen_puback 1 5 none)
            ⨾ Hears cleared (
                gen_publish
                  (with_retain false (with_payload (txt "retained-live") (publish_args topic 0 5))))
            ⨾ Hears preserved (
                gen_publish
                  (with_retain true (with_payload (txt "retained-live") (publish_args topic 0 5))))
            ⨾ Says publisher (gen_disconnect none 5 none)
            ⨾ Says cleared (gen_disconnect none 5 none)
            ⨾ Says preserved (gen_disconnect none 5 none)

  -- A run of `retain_as_published_live` that returns is this conversation: one PUBLISH with RETAIN reaches
  -- the first subscriber without the flag and the second with it.
  pub retain_as_published_live_conversation :
      (mqtt5_opts : Mqtt5Opts)
      → Runs
          (retain_as_published_live executable mqtt_packets mqtt5_opts)
          (RetainAsPublishedLive mqtt5_opts)
  unfolding retain_as_published_live
  retain_as_published_live_conversation mqtt5_opts = search vector_rules depth 60

  abbrev pub RetainedReplacement : Mqtt5Props → Trace → Type 0
  RetainedReplacement mqtt5_props =
      let topic = txt "retained/replacement" in
      let version = λ (v : Text).
        mqtt5_props.gen_string_pair_prop mqtt5_props.user_property (txt "version") v in
      Served executable (record config { connections = 2 })
        λ broker. Connection broker λ publisher. Connection broker λ subscriber.
          Connected mqtt_packets publisher (txt "retained-replace-pub")
          ⨾ (Each
              (λ (mid, payload, properties).
                Says publisher (
                  gen_publish (
                    with_properties properties (
                      with_retain true
                        (with_mid mid (with_payload payload (publish_args topic 1 5))))))
                ⨾ Hears publisher (gen_puback mid 5 (some 0x10)))
              ((1, txt "old-value", version (txt "old"))
                ∷ (2, txt "new-value", version (txt "new"))
                ∷ []))
          ⨾ Connected mqtt_packets subscriber (txt "retained-replace-sub")
          ⨾ Says subscriber (gen_subscribe 1 topic 0 5 none)
          ⨾ Hears subscriber (gen_suback 1 0 5)
          ⨾ Hears subscriber (
              gen_publish (
                with_properties (version (txt "new"))
                  (with_retain true (with_payload (txt "new-value") (publish_args topic 0 5)))))
          ⨾ Says subscriber gen_pingreq
          ⨾ Hears subscriber gen_pingresp
          ⨾ Says publisher (gen_disconnect none 5 none)
          ⨾ Says subscriber (gen_disconnect none 5 none)

  -- A run of `retained_replacement` that returns is this conversation: a later subscriber gets the newer
  -- of two retained messages, with its own properties, and no other packet before the PINGRESP.
  pub retained_replacement_conversation :
      (mqtt5_props : Mqtt5Props)
      → Runs
          (retained_replacement executable mqtt_packets mqtt5_props)
          (RetainedReplacement mqtt5_props)
  unfolding retained_replacement
  retained_replacement_conversation mqtt5_props = search vector_rules depth 60

  abbrev pub RetainedPublishPropertyBundle : Mqtt5Props → Trace → Type 0
  RetainedPublishPropertyBundle mqtt5_props =
      let topic = txt "retained/property/bundle" in
      Served executable config λ broker. Connection broker λ sock.
        Connected mqtt_packets sock (txt "retained-property-bundle")
        ⨾ Says sock (
            gen_publish (
              with_properties (bundle executable mqtt_packets mqtt5_props) (
                with_retain true
                  (with_mid 1 (with_payload (txt "message") (publish_args topic 1 5))))))
        ⨾ Hears sock (gen_puback 1 5 (some 0x10))
        ⨾ Says sock (gen_subscribe 2 topic 0 5 none)
        ⨾ Hears sock (gen_suback 2 0 5)
        ⨾ Hears sock (
            gen_publish (
              with_properties (bundle executable mqtt_packets mqtt5_props)
                (with_retain true (with_payload (txt "message") (publish_args topic 0 5)))))
        ⨾ Says sock (gen_disconnect none 5 none)

  -- A run of `retained_publish_property_bundle` that returns is this conversation: the five properties of
  -- a retained message come back with it.
  pub retained_publish_property_bundle_conversation :
      (mqtt5_props : Mqtt5Props)
      → Runs
          (retained_publish_property_bundle executable mqtt_packets mqtt5_props)
          (RetainedPublishPropertyBundle mqtt5_props)
  unfolding retained_publish_property_bundle
  retained_publish_property_bundle_conversation mqtt5_props = search vector_rules depth 60

  abbrev pub RetainedTombstoneProperties : Mqtt5Props → Trace → Type 0
  RetainedTombstoneProperties mqtt5_props =
      let topic = txt "retained/tombstone/properties" in
      let state =
        λ (v : Text). mqtt5_props.gen_string_pair_prop mqtt5_props.user_property (txt "state") v in
      Served executable config λ broker. Connection broker λ sock.
        Connected mqtt_packets sock (txt "retained-tombstone")
        ⨾ (Each
            (λ (mid, payload, properties).
              Says sock (
                gen_publish (
                  with_properties properties (
                    with_retain true
                      (with_mid mid (record (publish_args topic 1 5) { payload = some payload })))))
              ⨾ Hears sock (gen_puback mid 5 (some 0x10)))
            ((1, some (txt "old"), state (txt "old")) ∷ (2, none, state (txt "deleted")) ∷ []))
        ⨾ Says sock (gen_subscribe 3 topic 0 5 none)
        ⨾ Hears sock (gen_suback 3 0 5)
        ⨾ Says sock gen_pingreq
        ⨾ Hears sock gen_pingresp
        ⨾ Says sock (
            gen_publish (
              with_properties (state (txt "new")) (
                with_retain true (with_mid 4 (with_payload (txt "new") (publish_args topic 1 5))))))
        ⨾ Unordered sock (
            gen_puback 4 5 none
            ∷ gen_publish (
                with_properties (state (txt "new"))
                  (with_retain false (with_payload (txt "new") (publish_args topic 0 5))))
            ∷ [])
        ⨾ Says sock (gen_disconnect none 5 none)

  -- A run of `retained_tombstone_properties` that returns is this conversation: after an empty retained
  -- PUBLISH a subscriber gets no replay, and a new message arrives live without RETAIN, before or after
  -- the PUBACK.
  pub retained_tombstone_properties_conversation :
      (mqtt5_props : Mqtt5Props)
      → Runs
          (retained_tombstone_properties executable mqtt_packets mqtt5_props)
          (RetainedTombstoneProperties mqtt5_props)
  unfolding retained_tombstone_properties
  retained_tombstone_properties_conversation mqtt5_props = search vector_rules depth 60
