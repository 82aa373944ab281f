-- ===== src/Vectors/Transcripts/Capabilities.antt =====
-- The conversations of the capability scenarios
-- of tools/interop/mqtt_mosquitto_vectors.py.
use netz.Base.{◌+◌, ◌*◌, true, false, none, some, length}
use netz.Vectors.World.{Trace, Text, txt}
use netz.Vectors.Mosquitto.{MqttPackets, Mqtt5Props, Mqtt5Rc, connect_args}
use netz.Vectors.Harness.{is_hang_up}
use netz.Vectors.Broker.{config, expected_connack}
use netz.Vectors.Runs.{Runs, ◌⨾◌, Each}
use netz.Vectors.Runs.Brokers.{Served, Connection, Nothing}
use netz.Vectors.Runs.Connects.{Connected}
use netz.Vectors.Transcripts.Rules.{Says, Hears, vector_rules}
use netz.Vectors.Scenarios.Capabilities.{
  packet_types, hostile, hostile_initial_packets, publish_cases, publish_capability_disconnects,
  subscription_cases, subscription_capability_disconnects,
}

module _ (executable : Text) (mqtt_packets : MqttPackets) where
  open mqtt_packets use {
    gen_connect, gen_publish, gen_puback, gen_pubrec, gen_pubrel, gen_pubcomp, gen_subscribe,
    gen_suback, gen_unsubscribe, gen_unsubscribe_multiple, gen_unsuback, gen_pingreq, gen_pingresp,
    gen_disconnect,
  }

  abbrev pub HostileInitialPackets : Trace → Type 0
  HostileInitialPackets =
      Served executable
        (record config { connections = length packet_types + 1; ignore_errors = true })
        λ broker.
          (Each
            (λ packet_type.
              Connection broker λ sock. Says sock (hostile packet_type) ⨾ Nothing is_hang_up sock)
            packet_types)
          ⨾ (Connection broker λ sock.
              Connected mqtt_packets sock (txt "after-hostile-initial")
              ⨾ Says sock (gen_disconnect none 5 none))

  -- A run of `hostile_initial_packets` that returns has sent each of the packet types 2 to 15 on a
  -- connection of its own, with a declared Remaining Length of 243 269 632, and on each the broker hung up
  -- with no byte of an answer; a later client was still accepted.
  pub hostile_initial_packets_conversation :
      Runs (hostile_initial_packets executable mqtt_packets) HostileInitialPackets
  unfolding hostile_initial_packets
  hostile_initial_packets_conversation = search vector_rules depth 60

  abbrev pub PublishCapabilityDisconnects : Mqtt5Props → Mqtt5Rc → Trace → Type 0
  PublishCapabilityDisconnects mqtt5_props mqtt5_rc =
      Each
        (λ c.
          Served executable (record config { extra_args = c.args })
            λ broker. Connection broker λ sock.
              Says sock (gen_connect (connect_args (some (txt "publish-capability")) 5))
              ⨾ Hears sock (
                  expected_connack mqtt_packets mqtt5_props false (16 * 1024 * 1024) 16
                    c.advertised)
              ⨾ Says sock c.packet
              ⨾ Hears sock (gen_disconnect (some c.reason) 5 none))
        (publish_cases executable mqtt_packets mqtt5_props mqtt5_rc)

  -- A run of `publish_capability_disconnects` that returns has started a broker process for each case,
  -- seen its restriction in the CONNACK, and had the forbidden PUBLISH answered by the DISCONNECT with
  -- its reason and nothing before it.
  pub publish_capability_disconnects_conversation :
      (mqtt5_props : Mqtt5Props) (mqtt5_rc : Mqtt5Rc)
      → Runs
          (publish_capability_disconnects executable mqtt_packets mqtt5_props mqtt5_rc)
          (PublishCapabilityDisconnects mqtt5_props mqtt5_rc)
  unfolding publish_capability_disconnects
  publish_capability_disconnects_conversation mqtt5_props mqtt5_rc = search vector_rules depth 60

  abbrev pub SubscriptionCapabilityDisconnects : Mqtt5Props → Mqtt5Rc → Trace → Type 0
  SubscriptionCapabilityDisconnects mqtt5_props mqtt5_rc =
      Each
        (λ c.
          Served executable (record config { ignore_errors = true; extra_args = c.args })
            λ broker. Connection broker λ sock.
              Says sock (gen_connect (connect_args (some (txt "subscription-capability")) 5))
              ⨾ Hears sock (
                  expected_connack mqtt_packets mqtt5_props false (16 * 1024 * 1024) 16
                    c.advertised)
              ⨾ Says sock c.packet
              ⨾ Hears sock (gen_disconnect (some c.reason) 5 none))
        (subscription_cases executable mqtt_packets mqtt5_props mqtt5_rc)

  -- A run of `subscription_capability_disconnects` that returns has started a broker process for each
  -- case, seen its restriction in the CONNACK, and had the forbidden SUBSCRIBE answered by the
  -- DISCONNECT with its reason and nothing before it.
  pub subscription_capability_disconnects_conversation :
      (mqtt5_props : Mqtt5Props) (mqtt5_rc : Mqtt5Rc)
      → Runs
          (subscription_capability_disconnects executable mqtt_packets mqtt5_props mqtt5_rc)
          (SubscriptionCapabilityDisconnects mqtt5_props mqtt5_rc)
  unfolding subscription_capability_disconnects
  subscription_capability_disconnects_conversation mqtt5_props mqtt5_rc =
      search vector_rules depth 60
