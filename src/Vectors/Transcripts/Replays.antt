-- ===== src/Vectors/Transcripts/Replays.antt =====
-- The conversations of `retained_repeated_lifecycle` and `retained_multilevel_clear`
-- of tools/interop/mqtt_mosquitto_vectors.py.
use netz.Base.{ℕ, ◌+◌, ◌==◌, true, none, some, List, [], ◌∷◌, map}
use netz.Vectors.World.{Text, txt, Trace}
use netz.Vectors.Mosquitto.{
  MqttPackets, publish_args, with_mid, with_payload, without_payload, with_retain,
}
use netz.Vectors.Broker.{config}
use netz.Vectors.Runs.{Runs, Exactly, Each, ◌⨾◌}
use netz.Vectors.Runs.Unordered.{Unordered}
use netz.Vectors.Runs.Brokers.{Served, Connection}
use netz.Vectors.Runs.Connects.{Connected}
use netz.Vectors.Transcripts.Rules.{Says, Hears, Choice, vector_rules}
use netz.Vectors.Scenarios.Replays.{
  retained_repeated_lifecycle, retained_packet, replay, retained_multilevel_clear,
}

module _ (executable : Text) (mqtt_packets : MqttPackets) where
  open mqtt_packets use {
    gen_connect, gen_publish, gen_puback, gen_pubrec, gen_pubrel, gen_pubcomp, gen_subscribe,
    gen_suback, gen_unsubscribe, gen_unsubscribe_multiple, gen_unsuback, gen_pingreq, gen_pingresp,
    gen_disconnect,
  }

  abbrev Replayed : ℕ → ℕ → List Text → Trace → Type 0
  Replayed sock mid expected_topics =
      Says sock (gen_subscribe mid (txt "#") 0 5 none)
      ⨾ Hears sock (gen_suback mid 0 5)
      ⨾ Unordered sock (map (retained_packet executable mqtt_packets) expected_topics)
      ⨾ Says sock (gen_unsubscribe mid (txt "#") 5)
      ⨾ Hears sock (gen_unsuback mid none 5)

  abbrev pub RetainedRepeatedLifecycle : Trace → Type 0
  RetainedRepeatedLifecycle =
      let topic = txt "retain/qos0/repeated" in
      let retained =
        gen_publish
          (with_retain true (with_payload (txt "retained message") (publish_args topic 0 5))) in
      Served executable config λ broker. Connection broker λ sock.
        Connected mqtt_packets sock (txt "retain-qos0-rep-test")
        ⨾ Says sock retained
        ⨾ (Each
            (λ attempt.
              Says sock (gen_subscribe 16 topic 0 5 none)
              ⨾ Hears sock (gen_suback 16 0 5)
              ⨾ Hears sock retained
              ⨾ Choice (attempt == 1)
                  (Says sock (gen_unsubscribe 13 topic 5) ⨾ Hears sock (gen_unsuback 13 none 5))
                  (Exactly []))
            (1 ∷ 2 ∷ []))
        ⨾ Says sock (gen_unsubscribe 14 topic 5)
        ⨾ Hears sock (gen_unsuback 14 none 5)
        ⨾ Says sock (gen_publish (with_retain true (without_payload (publish_args topic 0 5))))
        ⨾ Says sock (gen_subscribe 17 topic 0 5 none)
        ⨾ Hears sock (gen_suback 17 0 5)
        ⨾ Says sock gen_pingreq
        ⨾ Hears sock gen_pingresp
        ⨾ Says sock (gen_disconnect none 5 none)

  -- A run of `retained_repeated_lifecycle` that returns is this conversation: both subscriptions replay
  -- the retained message, and after it was cleared a third gets its SUBACK and then the PINGRESP, with
  -- no replay between them.
  pub retained_repeated_lifecycle_conversation :
      Runs (retained_repeated_lifecycle executable mqtt_packets) RetainedRepeatedLifecycle
  unfolding retained_repeated_lifecycle
  retained_repeated_lifecycle_conversation = search vector_rules depth 60

  abbrev pub RetainedMultilevelClear : Trace → Type 0
  RetainedMultilevelClear = Served executable config λ broker. Connection broker λ sock.
      Connected mqtt_packets sock (txt "retain-clear-test")
      ⨾ (Each
          (λ (mid, topic).
            Says sock (
              gen_publish (
                with_retain true
                  (with_mid mid (with_payload (txt "retained message") (publish_args topic 1 5)))))
            ⨾ Hears sock (gen_puback mid 5 (some 0x10)))
          ((1, txt "1") ∷ (2, txt "1/2/3/4") ∷ (3, txt "1/2/3/4/5/6/7") ∷ []))
      ⨾ Replayed sock 10 (txt "1" ∷ txt "1/2/3/4" ∷ txt "1/2/3/4/5/6/7" ∷ [])
      ⨾ (Each
          (λ (mid, topic, remaining).
            Says sock (
              gen_publish
                (with_retain true (with_mid mid (without_payload (publish_args topic 1 5)))))
            ⨾ Hears sock (gen_puback mid 5 (some 0x10))
            ⨾ Replayed sock (mid + 20) remaining)
          ((20, txt "1/2/3/4", txt "1" ∷ txt "1/2/3/4/5/6/7" ∷ [])
            ∷ (21, txt "1/2/3/4/5/6/7", txt "1" ∷ [])
            ∷ []))
      ⨾ Says sock (gen_disconnect none 5 none)

  -- A run of `retained_multilevel_clear` that returns is this conversation: the three retained messages
  -- are replayed in some order, and after each of the two tombstones those that are left are.
  pub retained_multilevel_clear_conversation :
      Runs (retained_multilevel_clear executable mqtt_packets) RetainedMultilevelClear
  unfolding retained_multilevel_clear replay
  retained_multilevel_clear_conversation = search vector_rules depth 60
