-- ===== src/Vectors/Transcripts/Persistence.antt =====
-- The conversations of the scenarios on stored sessions, protocol versions and message expiry
-- of tools/interop/mqtt_mosquitto_vectors.py.
use netz.Base.{true, false, none, some, [], ◌∷◌}
use netz.Vectors.World.{Trace, Text, txt, slept}
use netz.Vectors.Mosquitto.{
  MqttPackets, Mqtt5Props, Mqtt5Rc, connect_args, publish_args, with_mid, with_payload, with_retain,
  with_properties,
}
use netz.Vectors.Broker.{config}
use netz.Vectors.Runs.{Runs, Exactly, ◌⨾◌}
use netz.Vectors.Runs.Unordered.{Unordered}
use netz.Vectors.Runs.Brokers.{Served, Connection, Quiet}
use netz.Vectors.Runs.Connects.{Connected, Persistent, Accepted, IsConnack}
use netz.Vectors.Transcripts.Rules.{Says, Hears, Either, vector_rules}
use netz.Vectors.Scenarios.Persistence.{
  mixed_version_qos1, persistent_no_local, expiring, expiry_variant, expect_expiry_variant,
  kept_replay, retained_message_expiry,
}

module _ (executable : Text) (mqtt_packets : MqttPackets) where
  open mqtt_packets use {
    gen_connect, gen_publish, gen_puback, gen_pubrec, gen_pubrel, gen_pubcomp, gen_subscribe,
    gen_suback, gen_unsubscribe, gen_unsubscribe_multiple, gen_unsuback, gen_pingreq, gen_pingresp,
    gen_disconnect,
  }

  abbrev pub MixedVersionQos1 : Trace → Type 0
  MixedVersionQos1 =
      let topic = txt "mixed/version/qos1" in
      Served executable (record config { connections = 2 })
        λ broker. Connection broker λ subscriber. Connection broker λ publisher.
          Accepted subscriber (gen_connect (connect_args (some (txt "mixed-v3-sub")) 4))
            (IsConnack 4)
          ⨾ Says subscriber (gen_subscribe 1 topic 1 4 none)
          ⨾ Hears subscriber (gen_suback 1 1 4)
          ⨾ Connected mqtt_packets publisher (txt "mixed-v5-pub")
          ⨾ Says publisher (
              gen_publish
                (with_mid 77 (with_payload (txt "cross-version") (publish_args topic 1 5))))
          ⨾ Hears publisher (gen_puback 77 5 none)
          ⨾ Hears subscriber (
              gen_publish
                (with_mid 1 (with_payload (txt "cross-version") (publish_args topic 1 4))))
          ⨾ Says subscriber (gen_puback 1 4 none)
          ⨾ Says publisher (gen_disconnect none 5 none)
          ⨾ Says subscriber (gen_disconnect none 4 none)

  -- A run of `mixed_version_qos1` that returns is this conversation: what an MQTT 5 client publishes
  -- reaches an MQTT 3.1.1 subscriber in its own protocol version.
  pub mixed_version_qos1_conversation :
      Runs (mixed_version_qos1 executable mqtt_packets) MixedVersionQos1
  unfolding mixed_version_qos1
  mixed_version_qos1_conversation = search vector_rules depth 60

  abbrev pub PersistentNoLocal : Trace → Type 0
  PersistentNoLocal =
      let client_id = txt "persistent-subscription-test" in
      let topic = txt "subpub/nolocal" in
      Served executable (record config { connections = 2 })
        λ broker.
          (Connection broker λ first.
            Persistent mqtt_packets first client_id false
            ⨾ Says first (gen_subscribe 1 topic 5 5 none)
            ⨾ Hears first (gen_suback 1 1 5)
            ⨾ Says first (gen_disconnect none 5 none))
          ⨾ (Connection broker λ resumed.
              Persistent mqtt_packets resumed client_id true
              ⨾ Says resumed
                  (gen_publish (with_mid 1 (with_payload (txt "message") (publish_args topic 1 5))))
              ⨾ Hears resumed (gen_puback 1 5 none)
              ⨾ Quiet resumed
              ⨾ Says resumed (gen_subscribe 2 topic 1 5 none)
              ⨾ Hears resumed (gen_suback 2 1 5)
              ⨾ Says resumed
                  (gen_publish (with_mid 3 (with_payload (txt "message") (publish_args topic 1 5))))
              ⨾ Unordered resumed (
                  gen_puback 3 5 none
                  ∷ gen_publish (with_mid 1 (with_payload (txt "message") (publish_args topic 1 5)))
                  ∷ [])
              ⨾ Says resumed (gen_puback 1 5 none)
              ⨾ Says resumed (gen_disconnect none 5 none))

  -- A run of `persistent_no_local` that returns is this conversation: the restored subscription forwards
  -- no publication of its own client, and after it is replaced the PUBACK and the PUBLISH come, in
  -- either order.
  pub persistent_no_local_conversation :
      Runs (persistent_no_local executable mqtt_packets) PersistentNoLocal
  unfolding persistent_no_local
  persistent_no_local_conversation = search vector_rules depth 60

  abbrev pub RetainedMessageExpiry : Mqtt5Props → Mqtt5Rc → Trace → Type 0
  RetainedMessageExpiry mqtt5_props mqtt5_rc =
      let expired_topic = txt "subpub/expired" in
      let kept_topic = txt "subpub/kept" in
      Served executable (record config { connections = 3 })
        λ broker.
          (Connection broker λ publisher.
            Connected mqtt_packets publisher (txt "expiry-helper")
            ⨾ Says publisher (
                gen_publish (
                  with_properties (expiring executable mqtt_packets mqtt5_props 2) (
                    with_mid 1 (
                      with_retain true
                        (with_payload (txt "message1") (publish_args expired_topic 1 5))))))
            ⨾ Hears publisher (gen_puback 1 5 (some mqtt5_rc.no_matching_subscribers))
            ⨾ Says publisher (
                gen_publish (
                  with_mid 2 (
                    with_retain true
                      (with_payload (txt "message2") (publish_args kept_topic 1 5)))))
            ⨾ Hears publisher (gen_puback 2 5 (some mqtt5_rc.no_matching_subscribers))
            ⨾ Says publisher (gen_disconnect none 5 none))
          ⨾ (Connection broker λ immediate.
              Connected mqtt_packets immediate (txt "expiry-immediate")
              ⨾ Says immediate (gen_subscribe 1 expired_topic 0 5 none)
              ⨾ Hears immediate (gen_suback 1 0 5)
              ⨾ Either (Hears immediate (expiry_variant executable mqtt_packets mqtt5_props 2))
                  (Hears immediate (expiry_variant executable mqtt_packets mqtt5_props 1))
              ⨾ Says immediate (gen_subscribe 2 kept_topic 0 5 none)
              ⨾ Hears immediate (gen_suback 2 0 5)
              ⨾ Hears immediate (kept_replay executable mqtt_packets)
              ⨾ Says immediate (gen_disconnect none 5 none))
          ⨾ Exactly (slept 3000 ∷ [])
          ⨾ (Connection broker λ expired.
              Connected mqtt_packets expired (txt "expiry-late")
              ⨾ Says expired (gen_subscribe 1 expired_topic 0 5 none)
              ⨾ Hears expired (gen_suback 1 0 5)
              ⨾ Says expired (gen_subscribe 2 kept_topic 0 5 none)
              ⨾ Hears expired (gen_suback 2 0 5)
              ⨾ Hears expired (kept_replay executable mqtt_packets)
              ⨾ Says expired (gen_disconnect none 5 none))

  -- A run of `retained_message_expiry` that returns is this conversation: the expiring message is
  -- replayed with two or one seconds left, and after three seconds it is not replayed, while the other
  -- is.
  pub retained_message_expiry_conversation :
      (mqtt5_props : Mqtt5Props) (mqtt5_rc : Mqtt5Rc)
      → Runs
          (retained_message_expiry executable mqtt_packets mqtt5_props mqtt5_rc)
          (RetainedMessageExpiry mqtt5_props mqtt5_rc)
  unfolding retained_message_expiry expect_expiry_variant
  retained_message_expiry_conversation mqtt5_props mqtt5_rc = search vector_rules depth 60
