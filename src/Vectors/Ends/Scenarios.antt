-- ===== src/Vectors/Ends/Scenarios.antt =====
-- The ends of the scenarios of tools/interop/mqtt_mosquitto_vectors.py.
use netz.Vectors.World.{Text}
use netz.Vectors.Mosquitto.{MqttPackets, Mqtt5Props, Mqtt5Rc, Mqtt5Opts}
use netz.Vectors.Ends.{Ends}
use netz.Vectors.Ends.Rules.{end_rules}
use netz.Vectors.Scenarios.Acks.{
  no_matching_subscribers, subscription_identifiers, multiple_subscription_identifiers,
}
use netz.Vectors.Scenarios.Aliases.{incoming_topic_alias, outgoing_topic_alias}
use netz.Vectors.Scenarios.Assigned.{assigned_client_identifier, assigned, decode_ascii}
use netz.Vectors.Scenarios.Capabilities.{
  hostile_initial_packets, publish_capability_disconnects, subscription_capability_disconnects,
}
use netz.Vectors.Scenarios.ExactlyOnce.{
  qos2_routes_at_pubrel, qos2_duplicate_publish, qos2_repeated_pubrel,
}
use netz.Vectors.Scenarios.FlowControl.{
  disconnect_with_will_properties, qos2_receive_maximum_one, maximum_packet_size_qos1,
  maximum_packet_size_qos2,
}
use netz.Vectors.Scenarios.Limits.{
  maximum_packet_size_disconnect, topic_alias_disconnect, receive_maximum_disconnect,
  server_keep_alive, duplicate_client_takeover, disconnect_session_expiry, expiring_connect,
  expiring_disconnect,
}
use netz.Vectors.Scenarios.Persistence.{
  mixed_version_qos1, persistent_no_local, retained_message_expiry, expect_expiry_variant,
}
use netz.Vectors.Scenarios.Replays.{retained_repeated_lifecycle, retained_multilevel_clear, replay}
use netz.Vectors.Scenarios.Retained.{
  retained_subscription_handling, attempt_handling, retain_as_published_live, retained_replacement,
  retained_publish_property_bundle, retained_tombstone_properties,
}
use netz.Vectors.Scenarios.Routing.{
  request_response_properties, shared_subscription_rotation, rotate_shared,
  reject_publish_subscription_identifier, unsubscribe_reason_codes,
}

module _ (executable : Text) (mqtt_packets : MqttPackets) where
  pub no_matching_subscribers-Ends :
      (mqtt5_rc : Mqtt5Rc) → Ends (no_matching_subscribers executable mqtt_packets mqtt5_rc)
  unfolding no_matching_subscribers
  no_matching_subscribers-Ends mqtt5_rc = search end_rules depth 60

  pub subscription_identifiers-Ends :
      (mqtt5_props : Mqtt5Props)
      → Ends (subscription_identifiers executable mqtt_packets mqtt5_props)
  unfolding subscription_identifiers
  subscription_identifiers-Ends mqtt5_props = search end_rules depth 60

  pub multiple_subscription_identifiers-Ends :
      (mqtt5_props : Mqtt5Props) (mqtt5_opts : Mqtt5Opts)
      → Ends (multiple_subscription_identifiers executable mqtt_packets mqtt5_props mqtt5_opts)
  unfolding multiple_subscription_identifiers
  multiple_subscription_identifiers-Ends mqtt5_props mqtt5_opts = search end_rules depth 60

  pub hostile_initial_packets-Ends : Ends (hostile_initial_packets executable mqtt_packets)
  unfolding hostile_initial_packets
  hostile_initial_packets-Ends = search end_rules depth 60

  pub publish_capability_disconnects-Ends :
      (mqtt5_props : Mqtt5Props) (mqtt5_rc : Mqtt5Rc)
      → Ends (publish_capability_disconnects executable mqtt_packets mqtt5_props mqtt5_rc)
  unfolding publish_capability_disconnects
  publish_capability_disconnects-Ends mqtt5_props mqtt5_rc = search end_rules depth 60

  pub maximum_packet_size_disconnect-Ends :
      (mqtt5_props : Mqtt5Props) (mqtt5_rc : Mqtt5Rc)
      → Ends (maximum_packet_size_disconnect executable mqtt_packets mqtt5_props mqtt5_rc)
  unfolding maximum_packet_size_disconnect
  maximum_packet_size_disconnect-Ends mqtt5_props mqtt5_rc = search end_rules depth 60

  pub topic_alias_disconnect-Ends :
      (mqtt5_props : Mqtt5Props) (mqtt5_rc : Mqtt5Rc)
      → Ends (topic_alias_disconnect executable mqtt_packets mqtt5_props mqtt5_rc)
  unfolding topic_alias_disconnect
  topic_alias_disconnect-Ends mqtt5_props mqtt5_rc = search end_rules depth 60

  pub receive_maximum_disconnect-Ends :
      (mqtt5_rc : Mqtt5Rc) → Ends (receive_maximum_disconnect executable mqtt_packets mqtt5_rc)
  unfolding receive_maximum_disconnect
  receive_maximum_disconnect-Ends mqtt5_rc = search end_rules depth 60

  pub subscription_capability_disconnects-Ends :
      (mqtt5_props : Mqtt5Props) (mqtt5_rc : Mqtt5Rc)
      → Ends (subscription_capability_disconnects executable mqtt_packets mqtt5_props mqtt5_rc)
  unfolding subscription_capability_disconnects
  subscription_capability_disconnects-Ends mqtt5_props mqtt5_rc = search end_rules depth 60

  pub qos2_routes_at_pubrel-Ends : Ends (qos2_routes_at_pubrel executable mqtt_packets)
  unfolding qos2_routes_at_pubrel
  qos2_routes_at_pubrel-Ends = search end_rules depth 60

  pub mixed_version_qos1-Ends : Ends (mixed_version_qos1 executable mqtt_packets)
  unfolding mixed_version_qos1
  mixed_version_qos1-Ends = search end_rules depth 60

  pub persistent_no_local-Ends : Ends (persistent_no_local executable mqtt_packets)
  unfolding persistent_no_local
  persistent_no_local-Ends = search end_rules depth 60

  pub retained_subscription_handling-Ends :
      (mqtt5_opts : Mqtt5Opts)
      → Ends (retained_subscription_handling executable mqtt_packets mqtt5_opts)
  unfolding retained_subscription_handling attempt_handling
  retained_subscription_handling-Ends mqtt5_opts = search end_rules depth 60

  pub incoming_topic_alias-Ends :
      (mqtt5_props : Mqtt5Props) → Ends (incoming_topic_alias executable mqtt_packets mqtt5_props)
  unfolding incoming_topic_alias
  incoming_topic_alias-Ends mqtt5_props = search end_rules depth 60

  pub outgoing_topic_alias-Ends :
      (mqtt5_props : Mqtt5Props) → Ends (outgoing_topic_alias executable mqtt_packets mqtt5_props)
  unfolding outgoing_topic_alias
  outgoing_topic_alias-Ends mqtt5_props = search end_rules depth 60

  pub request_response_properties-Ends :
      (mqtt5_props : Mqtt5Props)
      → Ends (request_response_properties executable mqtt_packets mqtt5_props)
  unfolding request_response_properties
  request_response_properties-Ends mqtt5_props = search end_rules depth 60

  pub disconnect_with_will_properties-Ends :
      (mqtt5_props : Mqtt5Props)
      → Ends (disconnect_with_will_properties executable mqtt_packets mqtt5_props)
  unfolding disconnect_with_will_properties
  disconnect_with_will_properties-Ends mqtt5_props = search end_rules depth 60

  pub retained_message_expiry-Ends :
      (mqtt5_props : Mqtt5Props) (mqtt5_rc : Mqtt5Rc)
      → Ends (retained_message_expiry executable mqtt_packets mqtt5_props mqtt5_rc)
  unfolding retained_message_expiry expect_expiry_variant
  retained_message_expiry-Ends mqtt5_props mqtt5_rc = search end_rules depth 60

  pub qos2_receive_maximum_one-Ends :
      (mqtt5_props : Mqtt5Props)
      → Ends (qos2_receive_maximum_one executable mqtt_packets mqtt5_props)
  unfolding qos2_receive_maximum_one
  qos2_receive_maximum_one-Ends mqtt5_props = search end_rules depth 60

  pub maximum_packet_size_qos1-Ends :
      (mqtt5_props : Mqtt5Props)
      → Ends (maximum_packet_size_qos1 executable mqtt_packets mqtt5_props)
  unfolding maximum_packet_size_qos1
  maximum_packet_size_qos1-Ends mqtt5_props = search end_rules depth 60

  pub maximum_packet_size_qos2-Ends :
      (mqtt5_props : Mqtt5Props)
      → Ends (maximum_packet_size_qos2 executable mqtt_packets mqtt5_props)
  unfolding maximum_packet_size_qos2
  maximum_packet_size_qos2-Ends mqtt5_props = search end_rules depth 60

  pub retained_repeated_lifecycle-Ends : Ends (retained_repeated_lifecycle executable mqtt_packets)
  unfolding retained_repeated_lifecycle
  retained_repeated_lifecycle-Ends = search end_rules depth 60

  pub retained_multilevel_clear-Ends : Ends (retained_multilevel_clear executable mqtt_packets)
  unfolding retained_multilevel_clear replay
  retained_multilevel_clear-Ends = search end_rules depth 60

  pub shared_subscription_rotation-Ends :
      Ends (shared_subscription_rotation executable mqtt_packets)
  unfolding shared_subscription_rotation rotate_shared
  shared_subscription_rotation-Ends = search end_rules depth 60

  pub qos2_duplicate_publish-Ends : Ends (qos2_duplicate_publish executable mqtt_packets)
  unfolding qos2_duplicate_publish
  qos2_duplicate_publish-Ends = search end_rules depth 60

  pub qos2_repeated_pubrel-Ends : Ends (qos2_repeated_pubrel executable mqtt_packets)
  unfolding qos2_repeated_pubrel
  qos2_repeated_pubrel-Ends = search end_rules depth 60

  pub reject_publish_subscription_identifier-Ends :
      (mqtt5_props : Mqtt5Props)
      → Ends (reject_publish_subscription_identifier executable mqtt_packets mqtt5_props)
  unfolding reject_publish_subscription_identifier
  reject_publish_subscription_identifier-Ends mqtt5_props = search end_rules depth 60

  pub unsubscribe_reason_codes-Ends : Ends (unsubscribe_reason_codes executable mqtt_packets)
  unfolding unsubscribe_reason_codes
  unsubscribe_reason_codes-Ends = search end_rules depth 60

  pub retain_as_published_live-Ends :
      (mqtt5_opts : Mqtt5Opts) → Ends (retain_as_published_live executable mqtt_packets mqtt5_opts)
  unfolding retain_as_published_live
  retain_as_published_live-Ends mqtt5_opts = search end_rules depth 60

  pub retained_replacement-Ends :
      (mqtt5_props : Mqtt5Props) → Ends (retained_replacement executable mqtt_packets mqtt5_props)
  unfolding retained_replacement
  retained_replacement-Ends mqtt5_props = search end_rules depth 60

  pub retained_publish_property_bundle-Ends :
      (mqtt5_props : Mqtt5Props)
      → Ends (retained_publish_property_bundle executable mqtt_packets mqtt5_props)
  unfolding retained_publish_property_bundle
  retained_publish_property_bundle-Ends mqtt5_props = search end_rules depth 60

  pub retained_tombstone_properties-Ends :
      (mqtt5_props : Mqtt5Props)
      → Ends (retained_tombstone_properties executable mqtt_packets mqtt5_props)
  unfolding retained_tombstone_properties
  retained_tombstone_properties-Ends mqtt5_props = search end_rules depth 60

  pub assigned_client_identifier-Ends :
      (mqtt5_props : Mqtt5Props)
      → Ends (assigned_client_identifier executable mqtt_packets mqtt5_props)
  unfolding assigned_client_identifier assigned decode_ascii
  assigned_client_identifier-Ends mqtt5_props = search end_rules depth 60

  pub server_keep_alive-Ends :
      (mqtt5_props : Mqtt5Props) → Ends (server_keep_alive executable mqtt_packets mqtt5_props)
  unfolding server_keep_alive
  server_keep_alive-Ends mqtt5_props = search end_rules depth 60

  pub duplicate_client_takeover-Ends :
      (mqtt5_props : Mqtt5Props) (mqtt5_rc : Mqtt5Rc)
      → Ends (duplicate_client_takeover executable mqtt_packets mqtt5_props mqtt5_rc)
  unfolding duplicate_client_takeover
  duplicate_client_takeover-Ends mqtt5_props mqtt5_rc = search end_rules depth 60

  pub disconnect_session_expiry-Ends :
      (mqtt5_props : Mqtt5Props)
      → Ends (disconnect_session_expiry executable mqtt_packets mqtt5_props)
  unfolding disconnect_session_expiry expiring_connect expiring_disconnect
  disconnect_session_expiry-Ends mqtt5_props = search end_rules depth 60
