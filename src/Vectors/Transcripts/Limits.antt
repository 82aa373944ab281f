-- ===== src/Vectors/Transcripts/Limits.antt =====
-- The conversations of the scenarios on limits and lifetimes
-- of tools/interop/mqtt_mosquitto_vectors.py.
use netz.Base.{ℕ, ◌+◌, ◌*◌, Bool, true, false, none, some, [], ◌∷◌, Bytes}
use netz.Vectors.World.{Text, txt, text, number, Trace, slept, eof}
use netz.Vectors.Mosquitto.{
  MqttPackets, Mqtt5Props, Mqtt5Rc, connect_args, publish_args, with_mid, with_payload,
  with_properties,
}
use netz.Vectors.Broker.{config, expected_connack}
use netz.Vectors.Runs.{Runs, Exactly, ◌⨾◌}
use netz.Vectors.Runs.Brokers.{Served, Connection}
use netz.Vectors.Runs.Connects.{Connected}
use netz.Vectors.Transcripts.Rules.{Says, Hears, vector_rules}
use netz.Vectors.Scenarios.Limits.{
  maximum_packet_size_disconnect, topic_alias_disconnect, receive_maximum_disconnect,
  server_keep_alive, duplicate_client_takeover, expiring_connect, expiring_disconnect,
  disconnect_session_expiry,
}

module _ (executable : Text) (mqtt_packets : MqttPackets) where
  open mqtt_packets use {
    gen_connect, gen_publish, gen_puback, gen_pubrec, gen_pubrel, gen_pubcomp, gen_subscribe,
    gen_suback, gen_unsubscribe, gen_unsubscribe_multiple, gen_unsuback, gen_pingreq, gen_pingresp,
    gen_disconnect,
  }

  abbrev Opens : Mqtt5Props → ℕ → Bool → Trace → Type 0
  Opens mqtt5_props sock session_present =
      Says sock (
        gen_connect (record (connect_args (some (txt "session-expiry")) 5) {
          clean_session = some false;
          session_expiry = some 1;
        }))
      ⨾ Hears sock
          (expected_connack mqtt_packets mqtt5_props session_present (16 * 1024 * 1024) 16 [])

  abbrev Closes : ℕ → Bytes → Trace → Type 0
  Closes sock properties =
      Says sock (gen_disconnect none 5 (some properties)) ⨾ Exactly (eof sock ∷ [])

  abbrev pub MaximumPacketSizeDisconnect : Mqtt5Props → Mqtt5Rc → Trace → Type 0
  MaximumPacketSizeDisconnect mqtt5_props mqtt5_rc =
      let topic = txt "12/max/packet/size/broker/test/topic" in
      Served executable (record config { extra_args = txt "--max-packet-size=50" ∷ [] })
        λ broker. Connection broker λ sock.
          Says sock (gen_connect (connect_args (some (txt "12-max-packet-broker")) 5))
          ⨾ Hears sock (expected_connack mqtt_packets mqtt5_props false 50 16 [])
          ⨾ Says sock (gen_publish (with_payload (txt "012345678") (publish_args topic 0 5)))
          ⨾ Says sock gen_pingreq
          ⨾ Hears sock gen_pingresp
          ⨾ Says sock (gen_publish (with_payload (txt "0123456789") (publish_args topic 0 5)))
          ⨾ Hears sock (gen_disconnect (some mqtt5_rc.packet_too_large) 5 none)

  -- A run of `maximum_packet_size_disconnect` that returns is this conversation: a PUBLISH of the largest
  -- size leaves the connection alive, and one byte more is answered by Packet Too Large.
  pub maximum_packet_size_disconnect_conversation :
      (mqtt5_props : Mqtt5Props) (mqtt5_rc : Mqtt5Rc)
      → Runs
          (maximum_packet_size_disconnect executable mqtt_packets mqtt5_props mqtt5_rc)
          (MaximumPacketSizeDisconnect mqtt5_props mqtt5_rc)
  unfolding maximum_packet_size_disconnect
  maximum_packet_size_disconnect_conversation mqtt5_props mqtt5_rc = search vector_rules depth 60

  abbrev pub TopicAliasDisconnect : Mqtt5Props → Mqtt5Rc → Trace → Type 0
  TopicAliasDisconnect mqtt5_props mqtt5_rc =
      Served executable (record config { extra_args = txt "--topic-alias-maximum=1" ∷ [] })
        λ broker. Connection broker λ sock.
          Says sock (gen_connect (connect_args (some (txt "topic-alias-invalid")) 5))
          ⨾ Hears sock (expected_connack mqtt_packets mqtt5_props false (16 * 1024 * 1024) 1 [])
          ⨾ Says sock (
              gen_publish (
                with_properties (mqtt5_props.gen_uint16_prop mqtt5_props.topic_alias 2)
                  (with_payload (txt "blocked") (publish_args (txt "alias/too-large") 0 5))))
          ⨾ Hears sock (gen_disconnect (some mqtt5_rc.topic_alias_invalid) 5 none)

  -- A run of `topic_alias_disconnect` that returns is this conversation: an alias above the announced
  -- maximum is answered by Topic Alias Invalid.
  pub topic_alias_disconnect_conversation :
      (mqtt5_props : Mqtt5Props) (mqtt5_rc : Mqtt5Rc)
      → Runs
          (topic_alias_disconnect executable mqtt_packets mqtt5_props mqtt5_rc)
          (TopicAliasDisconnect mqtt5_props mqtt5_rc)
  unfolding topic_alias_disconnect
  topic_alias_disconnect_conversation mqtt5_props mqtt5_rc = search vector_rules depth 60

  abbrev pub ReceiveMaximumDisconnect : Mqtt5Rc → Trace → Type 0
  ReceiveMaximumDisconnect mqtt5_rc =
      Served executable (record config { extra_args = txt "--max-outgoing-inflight=1" ∷ [] })
        λ broker. Connection broker λ sock.
          Connected mqtt_packets sock (txt "receive-maximum-exceeded")
          ⨾ Says sock (gen_publish (with_mid 1 (publish_args (txt "receive/maximum/one") 2 5)))
          ⨾ Says sock (gen_publish (with_mid 2 (publish_args (txt "receive/maximum/two") 2 5)))
          ⨾ Hears sock (gen_pubrec 1 5)
          ⨾ Hears sock (gen_disconnect (some mqtt5_rc.receive_maximum_exceeded) 5 none)

  -- A run of `receive_maximum_disconnect` that returns is this conversation: the first QoS 2 PUBLISH gets
  -- its PUBREC, the second the DISCONNECT Receive Maximum Exceeded.
  pub receive_maximum_disconnect_conversation :
      (mqtt5_rc : Mqtt5Rc)
      → Runs
          (receive_maximum_disconnect executable mqtt_packets mqtt5_rc)
          (ReceiveMaximumDisconnect mqtt5_rc)
  unfolding receive_maximum_disconnect
  receive_maximum_disconnect_conversation mqtt5_rc = search vector_rules depth 60

  abbrev pub ServerKeepAlive : Mqtt5Props → Trace → Type 0
  ServerKeepAlive mqtt5_props =
      let override_seconds : ℕ = 60 in
      Served executable
        (record config {
          extra_args = (text "--server-keep-alive=" ∷ number override_seconds ∷ []) ∷ [];
        })
        λ broker. Connection broker λ sock.
          Says sock (
            gen_connect (record (connect_args (some (txt "server-keep-alive")) 5) {
              keepalive = some (override_seconds + 1);
            }))
          ⨾ Hears sock (
              expected_connack mqtt_packets mqtt5_props false (16 * 1024 * 1024) 16
                (mqtt5_props.gen_uint16_prop mqtt5_props.server_keep_alive override_seconds))
          ⨾ Says sock gen_pingreq
          ⨾ Hears sock gen_pingresp
          ⨾ Says sock (gen_disconnect none 5 none)

  -- A run of `server_keep_alive` that returns is this conversation: the CONNACK carries the overriding
  -- Server Keep Alive, and the connection answers a PINGREQ.
  pub server_keep_alive_conversation :
      (mqtt5_props : Mqtt5Props)
      → Runs (server_keep_alive executable mqtt_packets mqtt5_props) (ServerKeepAlive mqtt5_props)
  unfolding server_keep_alive
  server_keep_alive_conversation mqtt5_props = search vector_rules depth 60

  abbrev pub DuplicateClientTakeover : Mqtt5Props → Mqtt5Rc → Trace → Type 0
  DuplicateClientTakeover mqtt5_props mqtt5_rc =
      let connect_packet = gen_connect (connect_args (some (txt "take-over")) 5) in
      let connack_packet =
        expected_connack mqtt_packets mqtt5_props false (16 * 1024 * 1024) 16 [] in
      Served executable (record config { connections = 2 })
        λ broker. Connection broker λ first. Connection broker λ replacement.
          Says first connect_packet
          ⨾ Hears first connack_packet
          ⨾ Says replacement connect_packet
          ⨾ Hears replacement connack_packet
          ⨾ Hears first (gen_disconnect (some mqtt5_rc.session_taken_over) 5 none)
          ⨾ Says replacement gen_pingreq
          ⨾ Hears replacement gen_pingresp
          ⨾ Says replacement (gen_disconnect none 5 none)

  -- A run of `duplicate_client_takeover` that returns is this conversation: the second CONNECT with one
  -- client identifier is accepted, the first connection is told Session Taken Over, and the second
  -- stays alive.
  pub duplicate_client_takeover_conversation :
      (mqtt5_props : Mqtt5Props) (mqtt5_rc : Mqtt5Rc)
      → Runs
          (duplicate_client_takeover executable mqtt_packets mqtt5_props mqtt5_rc)
          (DuplicateClientTakeover mqtt5_props mqtt5_rc)
  unfolding duplicate_client_takeover
  duplicate_client_takeover_conversation mqtt5_props mqtt5_rc = search vector_rules depth 60

  abbrev pub DisconnectSessionExpiry : Mqtt5Props → Trace → Type 0
  DisconnectSessionExpiry mqtt5_props =
      let expiry_three = mqtt5_props.gen_uint32_prop mqtt5_props.session_expiry_interval 3 in
      let expiry_zero = mqtt5_props.gen_uint32_prop mqtt5_props.session_expiry_interval 0 in
      Served executable (record config { connections = 4 })
        λ broker.
          (Connection broker λ first. (Opens mqtt5_props first false) ⨾ (Closes first expiry_three))
          ⨾ Exactly (slept 2000 ∷ [])
          ⨾ (Connection broker
              λ extended. (Opens mqtt5_props extended true) ⨾ (Closes extended expiry_three))
          ⨾ Exactly (slept 4000 ∷ [])
          ⨾ (Connection broker
              λ expired. (Opens mqtt5_props expired false) ⨾ (Closes expired expiry_zero))
          ⨾ (Connection broker λ removed.
              (Opens mqtt5_props removed false) ⨾ Says removed (gen_disconnect none 5 none))

  -- A run of `disconnect_session_expiry` that returns is this conversation: four connections in turn,
  -- with the pauses between them, whose CONNACKs have Session Present exactly in the second.
  pub disconnect_session_expiry_conversation :
      (mqtt5_props : Mqtt5Props)
      → Runs
          (disconnect_session_expiry executable mqtt_packets mqtt5_props)
          (DisconnectSessionExpiry mqtt5_props)
  unfolding disconnect_session_expiry expiring_connect expiring_disconnect
  disconnect_session_expiry_conversation mqtt5_props = search vector_rules depth 60
