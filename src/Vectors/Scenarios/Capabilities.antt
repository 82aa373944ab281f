-- ===== src/Vectors/Scenarios/Capabilities.antt =====
-- The scenarios of tools/interop/mqtt_mosquitto_vectors.py in which a client ignores a capability
-- that the broker has announced, and `hostile_initial_packets`.
use netz.Base.{ℕ, ◌+◌, ◌*◌, true, false, none, some, List, [], ◌∷◌, ◌++◌, Bytes, length}
use netz.Vectors.World.{Text, text, number, txt, M, for_each, ◌>>◌}
use netz.Vectors.Socket.{sendall}
use netz.Vectors.Mosquitto.{
  MqttPackets, Mqtt5Props, Mqtt5Rc, connect_args, publish_args, with_mid, with_payload, with_retain,
}
use netz.Vectors.Harness.{expect_packet, expect_hang_up}
use netz.Vectors.Broker.{config, with_broker, with_socket, expected_connack, connect_v5}

-- `range(2, 16)`
abbrev pub packet_types : List ℕ
packet_types = 2 ∷ 3 ∷ 4 ∷ 5 ∷ 6 ∷ 7 ∷ 8 ∷ 9 ∷ 10 ∷ 11 ∷ 12 ∷ 13 ∷ 14 ∷ 15 ∷ []

-- A fixed header with a Remaining Length of 243 269 632
abbrev pub hostile : ℕ → Bytes
hostile packet_type = (packet_type * 16) ∷ 0x80 ∷ 0x80 ∷ 0x80 ∷ 0x74 ∷ []

-- The options, the packet, the property in the CONNACK, the reason of the DISCONNECT, the label
pub record Restriction : Type 0 where
  pub args : List Text
  pub packet : Bytes
  pub advertised : Bytes
  pub reason : ℕ
  pub label : Text

module _ (executable : Text) (mqtt_packets : MqttPackets) where
  open mqtt_packets use {
    gen_connect, gen_publish, gen_puback, gen_pubrec, gen_pubrel, gen_pubcomp, gen_subscribe,
    gen_suback, gen_unsubscribe_multiple, gen_unsuback, gen_pingreq, gen_pingresp, gen_disconnect,
  }

  unfoldable pub hostile_initial_packets : M (Unit {0})
  hostile_initial_packets =
      with_broker executable
        (record config { connections = length packet_types + 1; ignore_errors = true })
        λ broker. do
          for_each packet_types λ packet_type. with_socket broker λ sock. do
            sendall sock (hostile packet_type)
            expect_hang_up sock
                (text "initial packet type " ∷ number packet_type ∷ text " received " ∷ [])
          with_socket broker λ sock. do
            connect_v5 mqtt_packets sock (txt "after-hostile-initial")
            sendall sock (gen_disconnect none 5 none)

  abbrev pub publish_cases : Mqtt5Props → Mqtt5Rc → List Restriction
  publish_cases mqtt5_props mqtt5_rc =
      record {
        args = txt "--maximum-qos=1" ∷ [];
        packet = gen_publish (with_mid 1 (publish_args (txt "test/topic") 2 5));
        advertised = mqtt5_props.gen_byte_prop mqtt5_props.maximum_qos 1;
        reason = mqtt5_rc.qos_not_supported;
        label = txt "qos above Maximum QoS";
      }
      ∷ record {
        args = txt "--no-retain" ∷ [];
        packet =
            gen_publish
              (with_retain true (with_payload (txt "a") (publish_args (txt "test/topic") 0 5)));
        advertised = mqtt5_props.gen_byte_prop mqtt5_props.retain_available 0;
        reason = mqtt5_rc.retain_not_supported;
        label = txt "retain unavailable";
      }
      ∷ []

  unfoldable pub publish_capability_disconnects : Mqtt5Props → Mqtt5Rc → M (Unit {0})
  publish_capability_disconnects mqtt5_props mqtt5_rc =
      for_each (publish_cases mqtt5_props mqtt5_rc) λ c.
        with_broker executable (record config { extra_args = c.args })
          λ broker. with_socket broker λ sock. do
            sendall sock (gen_connect (connect_args (some (txt "publish-capability")) 5))
            expect_packet sock
                (expected_connack mqtt_packets mqtt5_props false (16 * 1024 * 1024) 16 c.advertised)
                (c.label ++ txt " CONNACK")
            sendall sock c.packet
            expect_packet sock (gen_disconnect (some c.reason) 5 none)
                (c.label ++ txt " DISCONNECT")

  abbrev pub subscription_cases : Mqtt5Props → Mqtt5Rc → List Restriction
  subscription_cases mqtt5_props mqtt5_rc =
      record {
        args = txt "--no-wildcard-subscriptions" ∷ [];
        packet = gen_subscribe 1 (txt "wildcard/+") 0 5 (some []);
        advertised = mqtt5_props.gen_byte_prop mqtt5_props.wildcard_sub_available 0;
        reason = mqtt5_rc.wildcard_subs_not_supported;
        label = txt "wildcard subscription unavailable";
      }
      ∷ record {
        args = txt "--no-shared-subscriptions" ∷ [];
        packet = gen_subscribe 1 (txt "$share/workers/shared/topic") 0 5 (some []);
        advertised = mqtt5_props.gen_byte_prop mqtt5_props.shared_sub_available 0;
        reason = mqtt5_rc.shared_subs_not_supported;
        label = txt "shared subscription unavailable";
      }
      ∷ record {
        args = txt "--no-subscription-identifiers" ∷ [];
        packet =
            gen_subscribe 1 (txt "identifier/topic") 0 5
              (some (mqtt5_props.gen_varint_prop mqtt5_props.subscription_identifier 7));
        advertised = mqtt5_props.gen_byte_prop mqtt5_props.subscription_id_available 0;
        reason = mqtt5_rc.subscription_ids_not_supported;
        label = txt "subscription identifier unavailable";
      }
      ∷ []

  unfoldable pub subscription_capability_disconnects : Mqtt5Props → Mqtt5Rc → M (Unit {0})
  subscription_capability_disconnects mqtt5_props mqtt5_rc =
      for_each (subscription_cases mqtt5_props mqtt5_rc) λ c.
        with_broker executable (record config { ignore_errors = true; extra_args = c.args })
          λ broker. with_socket broker λ sock. do
            sendall sock (gen_connect (connect_args (some (txt "subscription-capability")) 5))
            expect_packet sock
                (expected_connack mqtt_packets mqtt5_props false (16 * 1024 * 1024) 16 c.advertised)
                (c.label ++ txt " CONNACK")
            sendall sock c.packet
            expect_packet sock (gen_disconnect (some c.reason) 5 none)
                (c.label ++ txt " DISCONNECT")
