-- ===== src/Vectors/Deliveries.antt =====
-- What the subscriber hears in the QoS 2 scenarios of tools/interop/mqtt_mosquitto_vectors.py.
use netz.Base.{ℕ, ◌≡◌, ◌⊎◌, List, [], ◌∷◌, Bytes}
use netz.Vectors.World.{Text, text, number, txt, Trace}
use netz.Vectors.Mosquitto.{MqttPackets, Mqtt5Props, publish_args, with_mid, with_payload}
use netz.Vectors.Broker.{config}
use netz.Vectors.Runs.{Runs}
use netz.Vectors.Runs.Brokers.{Served, Connection}
use netz.Vectors.Runs.Connects.{IsConnack}
use netz.Vectors.Scenarios.ExactlyOnce.{qos2_duplicate_publish, qos2_repeated_pubrel}
use netz.Vectors.Scenarios.FlowControl.{qos2_receive_maximum_one}
use netz.Vectors.Transcripts.ExactlyOnce.{
  Qos2DuplicatePublish, Qos2RepeatedPubrel, qos2_duplicate_publish_conversation,
  qos2_repeated_pubrel_conversation,
}
use netz.Vectors.Transcripts.FlowControl.{
  Qos2ReceiveMaximumOne, qos2_receive_maximum_one_conversation,
}
use netz.Vectors.Heard.{
  heard, Item, packet, some_packet, Hearing, ◌▹◌, says, hears, accepts, quiet, Hears-other,
  accepts_other, no_round, round, IsSuccess, succeeds, silent, either_way, both_delivered,
}

-- In a trace of one subscriber and one publisher, all that was read from the socket of the
-- subscriber is these packets in turn, or
-- the two have the same socket.
abbrev pub SubscriberHears : Text → List Item → Trace → Type 0
SubscriberHears executable items =
    Served executable (record config { connections = 2 })
      λ broker. Connection broker λ subscriber.
        Connection broker
          λ publisher t. (subscriber ≡ publisher) ⊎ Hearing items (heard subscriber t)

module _ (executable : Text) (mqtt_packets : MqttPackets) where
  open mqtt_packets use {gen_publish, gen_suback, gen_pubrel}

  -- The CONNACK, the SUBACK, and the message with its PUBREL
  abbrev pub once : Text → Text → List Item
  once topic payload =
      some_packet (IsConnack 5)
      ∷ packet (gen_suback 1 2 5)
      ∷ packet (gen_publish (with_mid 1 (with_payload payload (publish_args topic 2 5))))
      ∷ packet (gen_pubrel 1 5)
      ∷ []

  -- A run of `qos2_duplicate_publish` that returns is its conversation: the publisher has sent the
  -- PUBLISH and its repetition with DUP before the PUBREL, each was answered by a PUBREC, and after
  -- each a wait on the subscriber's socket brought nothing. Moreover all that the scenario has read
  -- from the subscriber's socket is the CONNACK, the SUBACK, the message once and its PUBREL, in this
  -- order, unless both clients have the same socket number.
  pub qos2_duplicate_publish_delivers_once :
      Runs (qos2_duplicate_publish executable mqtt_packets) (λ t.
        Qos2DuplicatePublish executable mqtt_packets t
        × SubscriberHears executable (once (txt "03/c2b/qos2/duplicate/test") (txt "original")) t)
  qos2_duplicate_publish_delivers_once =
      both_delivered _ (qos2_duplicate_publish_conversation executable mqtt_packets) λ a b apart.
        accepts
        ▹ says
        ▹ hears
        ▹ accepts_other apart
        ▹ round (says ▹ Hears-other _ _ apart ▹ quiet)
            (round (says ▹ Hears-other _ _ apart ▹ quiet) no_round)
        ▹ says
        ▹ Hears-other _ _ apart
        ▹ hears
        ▹ says
        ▹ hears
        ▹ says
        ▹ says
        ▹ says

  -- A run of `qos2_repeated_pubrel` that returns is its conversation: after the handshakes the publisher
  -- has sent the PUBREL again and one of an unknown identifier, each was answered by a PUBCOMP, and
  -- then a wait on the subscriber's socket brought nothing. Moreover all that the scenario has read
  -- from the subscriber's socket is the CONNACK, the SUBACK, the message once and its PUBREL, in this
  -- order, unless both clients have the same socket number.
  pub qos2_repeated_pubrel_delivers_once : Runs (qos2_repeated_pubrel executable mqtt_packets) (λ t.
      Qos2RepeatedPubrel executable mqtt_packets t
      × SubscriberHears executable (once (txt "qos2/repeated/pubrel") (txt "once")) t)
  qos2_repeated_pubrel_delivers_once =
      both_delivered _ (qos2_repeated_pubrel_conversation executable mqtt_packets) λ a b apart.
        accepts
        ▹ says
        ▹ hears
        ▹ accepts_other apart
        ▹ says
        ▹ Hears-other _ _ apart
        ▹ says
        ▹ Hears-other _ _ apart
        ▹ hears
        ▹ says
        ▹ hears
        ▹ says
        ▹ round (says ▹ Hears-other _ _ apart) (round (says ▹ Hears-other _ _ apart) no_round)
        ▹ quiet
        ▹ says
        ▹ says

  abbrev message : ℕ → Bytes
  message mid = gen_publish (
      with_mid mid (
        with_payload (text "message" ∷ number mid ∷ [])
          (publish_args (txt "subpub/qos2/receive/maximum1") 2 5)))

  -- A run of `qos2_receive_maximum_one` that returns is its conversation: the subscriber has connected
  -- with a Receive Maximum of 1, both messages were released to the broker, and a wait after the first
  -- PUBLISH, before its PUBREC was sent, brought nothing. Moreover all that the scenario has read from
  -- the subscriber's socket is a successful CONNACK, the SUBACK, the first message, its PUBREL, then
  -- the second message and its PUBREL, in this order, unless both clients have the same socket number.
  pub qos2_receive_maximum_one_delivers_in_turn :
      (mqtt5_props : Mqtt5Props)
      → Runs (qos2_receive_maximum_one executable mqtt_packets mqtt5_props) (λ t.
        Qos2ReceiveMaximumOne executable mqtt_packets mqtt5_props t
        × SubscriberHears executable
            (some_packet IsSuccess
              ∷ packet (gen_suback 1 2 5)
              ∷ packet (message 1)
              ∷ packet (gen_pubrel 1 5)
              ∷ packet (message 2)
              ∷ packet (gen_pubrel 2 5)
              ∷ [])
            t)
  qos2_receive_maximum_one_delivers_in_turn mqtt5_props =
      both_delivered _ (qos2_receive_maximum_one_conversation executable mqtt_packets mqtt5_props)
        λ a b apart.
          says
          ▹ succeeds
          ▹ says
          ▹ hears
          ▹ accepts_other apart
          ▹ round (says ▹ Hears-other _ _ apart ▹ says ▹ Hears-other _ _ apart)
              (round (says ▹ Hears-other _ _ apart ▹ says ▹ Hears-other _ _ apart) no_round)
          ▹ round (hears ▹ either_way quiet silent ▹ says ▹ hears ▹ says)
              (round (hears ▹ either_way quiet silent ▹ says ▹ hears ▹ says) no_round)
          ▹ says
          ▹ says
