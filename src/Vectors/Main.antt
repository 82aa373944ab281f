-- ===== src/Vectors/Main.antt =====
-- `main` of tools/interop/mqtt_mosquitto_vectors.py after its arguments are parsed and Mosquitto's
-- modules imported.
use netz.Vectors.World.{Text, txt, M, print, ◌>>◌}
use netz.Vectors.Mosquitto.{MqttPackets, Mqtt5Props, Mqtt5Rc, Mqtt5Opts}
use netz.Vectors.Scenarios.Acks.{
  no_matching_subscribers, subscription_identifiers, multiple_subscription_identifiers,
}
use netz.Vectors.Scenarios.Aliases.{incoming_topic_alias, outgoing_topic_alias}
use netz.Vectors.Scenarios.Assigned.{assigned_client_identifier}
use netz.Vectors.Scenarios.Capabilities.{
  hostile_initial_packets, publish_capability_disconnects, subscription_capability_disconnects,
}
use netz.Vectors.Scenarios.ExactlyOnce.{
  qos2_routes_at_pubrel, qos2_duplicate_publish, qos2_repeated_pubrel,
}
use netz.Vectors.Scenarios.FlowControl.{
  disconnect_with_will_properties, qos2_receive_maximum_one, maximum_packet_size_qos1,
  maximum_packet_size_qos2,
}
use netz.Vectors.Scenarios.Limits.{
  maximum_packet_size_disconnect, topic_alias_disconnect, receive_maximum_disconnect,
  server_keep_alive, duplicate_client_takeover, disconnect_session_expiry,
}
use netz.Vectors.Scenarios.Persistence.{
  mixed_version_qos1, persistent_no_local, retained_message_expiry,
}
use netz.Vectors.Scenarios.Replays.{retained_repeated_lifecycle, retained_multilevel_clear}
use netz.Vectors.Scenarios.Retained.{
  retained_subscription_handling, retain_as_published_live, retained_replacement,
  retained_publish_property_bundle, retained_tombstone_properties,
}
use netz.Vectors.Scenarios.Routing.{
  request_response_properties, shared_subscription_rotation, reject_publish_subscription_identifier,
  unsubscribe_reason_codes,
}

-- The line that is printed at the end
abbrev pub passed : Text
passed = txt "Mosquitto-derived MQTT wire vectors passed: 39 scenarios"

unfoldable pub main : Text → MqttPackets → Mqtt5Props → Mqtt5Rc → Mqtt5Opts → M (Unit {0})
main executable mqtt_packets mqtt5_props mqtt5_rc mqtt5_opts = do
  no_matching_subscribers executable mqtt_packets mqtt5_rc
  subscription_identifiers executable mqtt_packets mqtt5_props
  multiple_subscription_identifiers executable mqtt_packets mqtt5_props mqtt5_opts
  hostile_initial_packets executable mqtt_packets
  publish_capability_disconnects executable mqtt_packets mqtt5_props mqtt5_rc
  maximum_packet_size_disconnect executable mqtt_packets mqtt5_props mqtt5_rc
  topic_alias_disconnect executable mqtt_packets mqtt5_props mqtt5_rc
  receive_maximum_disconnect executable mqtt_packets mqtt5_rc
  subscription_capability_disconnects executable mqtt_packets mqtt5_props mqtt5_rc
  qos2_routes_at_pubrel executable mqtt_packets
  mixed_version_qos1 executable mqtt_packets
  persistent_no_local executable mqtt_packets
  retained_subscription_handling executable mqtt_packets mqtt5_opts
  incoming_topic_alias executable mqtt_packets mqtt5_props
  outgoing_topic_alias executable mqtt_packets mqtt5_props
  request_response_properties executable mqtt_packets mqtt5_props
  disconnect_with_will_properties executable mqtt_packets mqtt5_props
  retained_message_expiry executable mqtt_packets mqtt5_props mqtt5_rc
  qos2_receive_maximum_one executable mqtt_packets mqtt5_props
  maximum_packet_size_qos1 executable mqtt_packets mqtt5_props
  maximum_packet_size_qos2 executable mqtt_packets mqtt5_props
  retained_repeated_lifecycle executable mqtt_packets
  retained_multilevel_clear executable mqtt_packets
  shared_subscription_rotation executable mqtt_packets
  qos2_duplicate_publish executable mqtt_packets
  qos2_repeated_pubrel executable mqtt_packets
  reject_publish_subscription_identifier executable mqtt_packets mqtt5_props
  unsubscribe_reason_codes executable mqtt_packets
  retain_as_published_live executable mqtt_packets mqtt5_opts
  retained_replacement executable mqtt_packets mqtt5_props
  retained_publish_property_bundle executable mqtt_packets mqtt5_props
  retained_tombstone_properties executable mqtt_packets mqtt5_props
  assigned_client_identifier executable mqtt_packets mqtt5_props
  server_keep_alive executable mqtt_packets mqtt5_props
  duplicate_client_takeover executable mqtt_packets mqtt5_props mqtt5_rc
  disconnect_session_expiry executable mqtt_packets mqtt5_props
  print passed
