-- ===== src/Vectors/Ends/Main.antt =====
-- The end of `main` of tools/interop/mqtt_mosquitto_vectors.py.
use netz.Vectors.World.{Text, M, ◌>>◌}
use netz.Vectors.Mosquitto.{MqttPackets, Mqtt5Props, Mqtt5Rc, Mqtt5Opts}
use netz.Vectors.Main.{main, passed}
use netz.Vectors.Ends.{Ends, Ends-bind}
use netz.Vectors.Ends.Rules.{Ends-print}
use netz.Vectors.Ends.Scenarios.{
  no_matching_subscribers-Ends, subscription_identifiers-Ends,
  multiple_subscription_identifiers-Ends, hostile_initial_packets-Ends,
  publish_capability_disconnects-Ends, maximum_packet_size_disconnect-Ends,
  topic_alias_disconnect-Ends, receive_maximum_disconnect-Ends,
  subscription_capability_disconnects-Ends, qos2_routes_at_pubrel-Ends, mixed_version_qos1-Ends,
  persistent_no_local-Ends, retained_subscription_handling-Ends, incoming_topic_alias-Ends,
  outgoing_topic_alias-Ends, request_response_properties-Ends, disconnect_with_will_properties-Ends,
  retained_message_expiry-Ends, qos2_receive_maximum_one-Ends, maximum_packet_size_qos1-Ends,
  maximum_packet_size_qos2-Ends, retained_repeated_lifecycle-Ends, retained_multilevel_clear-Ends,
  shared_subscription_rotation-Ends, qos2_duplicate_publish-Ends, qos2_repeated_pubrel-Ends,
  reject_publish_subscription_identifier-Ends, unsubscribe_reason_codes-Ends,
  retain_as_published_live-Ends, retained_replacement-Ends, retained_publish_property_bundle-Ends,
  retained_tombstone_properties-Ends, assigned_client_identifier-Ends, server_keep_alive-Ends,
  duplicate_client_takeover-Ends, disconnect_session_expiry-Ends,
}

infixr 4 ◌▷◌
◌▷◌ : {m n : M (Unit {0})} → Ends m → Ends n → Ends (m >> n)
em ▷ en = Ends-bind em (λ _. en)

-- In every environment `main` returns, raises an exception or waits for an answer: none of its loops
-- goes on for ever, and the rounds that the model gives them are enough.
pub Ends-main :
    (executable : Text) (mqtt_packets : MqttPackets) (mqtt5_props : Mqtt5Props) (mqtt5_rc : Mqtt5Rc)
    (mqtt5_opts : Mqtt5Opts)
    → Ends (main executable mqtt_packets mqtt5_props mqtt5_rc mqtt5_opts)
unfolding main
Ends-main executable mqtt_packets mqtt5_props mqtt5_rc mqtt5_opts =
    no_matching_subscribers-Ends executable mqtt_packets mqtt5_rc
    ▷ subscription_identifiers-Ends executable mqtt_packets mqtt5_props
    ▷ multiple_subscription_identifiers-Ends executable mqtt_packets mqtt5_props mqtt5_opts
    ▷ hostile_initial_packets-Ends executable mqtt_packets
    ▷ publish_capability_disconnects-Ends executable mqtt_packets mqtt5_props mqtt5_rc
    ▷ maximum_packet_size_disconnect-Ends executable mqtt_packets mqtt5_props mqtt5_rc
    ▷ topic_alias_disconnect-Ends executable mqtt_packets mqtt5_props mqtt5_rc
    ▷ receive_maximum_disconnect-Ends executable mqtt_packets mqtt5_rc
    ▷ subscription_capability_disconnects-Ends executable mqtt_packets mqtt5_props mqtt5_rc
    ▷ qos2_routes_at_pubrel-Ends executable mqtt_packets
    ▷ mixed_version_qos1-Ends executable mqtt_packets
    ▷ persistent_no_local-Ends executable mqtt_packets
    ▷ retained_subscription_handling-Ends executable mqtt_packets mqtt5_opts
    ▷ incoming_topic_alias-Ends executable mqtt_packets mqtt5_props
    ▷ outgoing_topic_alias-Ends executable mqtt_packets mqtt5_props
    ▷ request_response_properties-Ends executable mqtt_packets mqtt5_props
    ▷ disconnect_with_will_properties-Ends executable mqtt_packets mqtt5_props
    ▷ retained_message_expiry-Ends executable mqtt_packets mqtt5_props mqtt5_rc
    ▷ qos2_receive_maximum_one-Ends executable mqtt_packets mqtt5_props
    ▷ maximum_packet_size_qos1-Ends executable mqtt_packets mqtt5_props
    ▷ maximum_packet_size_qos2-Ends executable mqtt_packets mqtt5_props
    ▷ retained_repeated_lifecycle-Ends executable mqtt_packets
    ▷ retained_multilevel_clear-Ends executable mqtt_packets
    ▷ shared_subscription_rotation-Ends executable mqtt_packets
    ▷ qos2_duplicate_publish-Ends executable mqtt_packets
    ▷ qos2_repeated_pubrel-Ends executable mqtt_packets
    ▷ reject_publish_subscription_identifier-Ends executable mqtt_packets mqtt5_props
    ▷ unsubscribe_reason_codes-Ends executable mqtt_packets
    ▷ retain_as_published_live-Ends executable mqtt_packets mqtt5_opts
    ▷ retained_replacement-Ends executable mqtt_packets mqtt5_props
    ▷ retained_publish_property_bundle-Ends executable mqtt_packets mqtt5_props
    ▷ retained_tombstone_properties-Ends executable mqtt_packets mqtt5_props
    ▷ assigned_client_identifier-Ends executable mqtt_packets mqtt5_props
    ▷ server_keep_alive-Ends executable mqtt_packets mqtt5_props
    ▷ duplicate_client_takeover-Ends executable mqtt_packets mqtt5_props mqtt5_rc
    ▷ disconnect_session_expiry-Ends executable mqtt_packets mqtt5_props
    ▷ Ends-print passed
