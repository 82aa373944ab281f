-- ===== src/Vectors/Starts/Scenarios.antt =====
-- How many broker processes each scenario of tools/interop/mqtt_mosquitto_vectors.py starts.
use netz.Vectors.World.{Text}
use netz.Vectors.Mosquitto.{MqttPackets, Mqtt5Props, Mqtt5Rc, Mqtt5Opts}
use netz.Vectors.Starts.{Starts, Starts-for_each_one, start_rules}
use netz.Vectors.Scenarios.Acks.{
  no_matching_subscribers, subscription_identifiers, multiple_subscription_identifiers,
}
use netz.Vectors.Scenarios.Aliases.{incoming_topic_alias, outgoing_topic_alias}
use netz.Vectors.Scenarios.Assigned.{assigned_client_identifier, assigned, decode_ascii}
use netz.Vectors.Scenarios.Capabilities.{
  hostile_initial_packets, publish_capability_disconnects, subscription_capability_disconnects,
}
use netz.Vectors.Scenarios.ExactlyOnce.{
  qos2_routes_at_pubrel, qos2_duplicate_publish, qos2_repeated_pubrel,
}
use netz.Vectors.Scenarios.FlowControl.{
  disconnect_with_will_properties, qos2_receive_maximum_one, maximum_packet_size_qos1,
  maximum_packet_size_qos2,
}
use netz.Vectors.Scenarios.Limits.{
  maximum_packet_size_disconnect, topic_alias_disconnect, receive_maximum_disconnect,
  server_keep_alive, duplicate_client_takeover, disconnect_session_expiry, expiring_connect,
  expiring_disconnect,
}
use netz.Vectors.Scenarios.Persistence.{
  mixed_version_qos1, persistent_no_local, retained_message_expiry, expect_expiry_variant,
}
use netz.Vectors.Scenarios.Replays.{retained_repeated_lifecycle, retained_multilevel_clear, replay}
use netz.Vectors.Scenarios.Retained.{
  retained_subscription_handling, attempt_handling, retain_as_published_live, retained_replacement,
  retained_publish_property_bundle, retained_tombstone_properties,
}
use netz.Vectors.Scenarios.Routing.{
  request_response_properties, shared_subscription_rotation, rotate_shared,
  reject_publish_subscription_identifier, unsubscribe_reason_codes,
}

module _ (executable : Text) (mqtt_packets : MqttPackets) where
  pub no_matching_subscribers-Starts :
      (mqtt5_rc : Mqtt5Rc) → Starts 1 (no_matching_subscribers executable mqtt_packets mqtt5_rc)
  unfolding no_matching_subscribers
  no_matching_subscribers-Starts mqtt5_rc = search start_rules depth 60

  pub subscription_identifiers-Starts :
      (mqtt5_props : Mqtt5Props)
      → Starts 1 (subscription_identifiers executable mqtt_packets mqtt5_props)
  unfolding subscription_identifiers
  subscription_identifiers-Starts mqtt5_props = search start_rules depth 60

  pub multiple_subscription_identifiers-Starts :
      (mqtt5_props : Mqtt5Props) (mqtt5_opts : Mqtt5Opts)
      → Starts 1 (multiple_subscription_identifiers executable mqtt_packets mqtt5_props mqtt5_opts)
  unfolding multiple_subscription_identifiers
  multiple_subscription_identifiers-Starts mqtt5_props mqtt5_opts = search start_rules depth 60

  pub hostile_initial_packets-Starts : Starts 1 (hostile_initial_packets executable mqtt_packets)
  unfolding hostile_initial_packets
  hostile_initial_packets-Starts = search start_rules depth 60

  pub publish_capability_disconnects-Starts :
      (mqtt5_props : Mqtt5Props) (mqtt5_rc : Mqtt5Rc)
      → Starts 2 (publish_capability_disconnects executable mqtt_packets mqtt5_props mqtt5_rc)
  unfolding publish_capability_disconnects
  publish_capability_disconnects-Starts mqtt5_props mqtt5_rc =
      Starts-for_each_one _ λ c. search start_rules depth 60

  pub maximum_packet_size_disconnect-Starts :
      (mqtt5_props : Mqtt5Props) (mqtt5_rc : Mqtt5Rc)
      → Starts 1 (maximum_packet_size_disconnect executable mqtt_packets mqtt5_props mqtt5_rc)
  unfolding maximum_packet_size_disconnect
  maximum_packet_size_disconnect-Starts mqtt5_props mqtt5_rc = search start_rules depth 60

  pub topic_alias_disconnect-Starts :
      (mqtt5_props : Mqtt5Props) (mqtt5_rc : Mqtt5Rc)
      → Starts 1 (topic_alias_disconnect executable mqtt_packets mqtt5_props mqtt5_rc)
  unfolding topic_alias_disconnect
  topic_alias_disconnect-Starts mqtt5_props mqtt5_rc = search start_rules depth 60

  pub receive_maximum_disconnect-Starts :
      (mqtt5_rc : Mqtt5Rc) → Starts 1 (receive_maximum_disconnect executable mqtt_packets mqtt5_rc)
  unfolding receive_maximum_disconnect
  receive_maximum_disconnect-Starts mqtt5_rc = search start_rules depth 60

  pub subscription_capability_disconnects-Starts :
      (mqtt5_props : Mqtt5Props) (mqtt5_rc : Mqtt5Rc)
      → Starts 3 (subscription_capability_disconnects executable mqtt_packets mqtt5_props mqtt5_rc)
  unfolding subscription_capability_disconnects
  subscription_capability_disconnects-Starts mqtt5_props mqtt5_rc =
      Starts-for_each_one _ λ c. search start_rules depth 60

  pub qos2_routes_at_pubrel-Starts : Starts 1 (qos2_routes_at_pubrel executable mqtt_packets)
  unfolding qos2_routes_at_pubrel
  qos2_routes_at_pubrel-Starts = search start_rules depth 60

  pub mixed_version_qos1-Starts : Starts 1 (mixed_version_qos1 executable mqtt_packets)
  unfolding mixed_version_qos1
  mixed_version_qos1-Starts = search start_rules depth 60

  pub persistent_no_local-Starts : Starts 1 (persistent_no_local executable mqtt_packets)
  unfolding persistent_no_local
  persistent_no_local-Starts = search start_rules depth 60

  pub retained_subscription_handling-Starts :
      (mqtt5_opts : Mqtt5Opts)
      → Starts 1 (retained_subscription_handling executable mqtt_packets mqtt5_opts)
  unfolding retained_subscription_handling attempt_handling
  retained_subscription_handling-Starts mqtt5_opts = search start_rules depth 60

  pub incoming_topic_alias-Starts :
      (mqtt5_props : Mqtt5Props)
      → Starts 1 (incoming_topic_alias executable mqtt_packets mqtt5_props)
  unfolding incoming_topic_alias
  incoming_topic_alias-Starts mqtt5_props = search start_rules depth 60

  pub outgoing_topic_alias-Starts :
      (mqtt5_props : Mqtt5Props)
      → Starts 1 (outgoing_topic_alias executable mqtt_packets mqtt5_props)
  unfolding outgoing_topic_alias
  outgoing_topic_alias-Starts mqtt5_props = search start_rules depth 60

  pub request_response_properties-Starts :
      (mqtt5_props : Mqtt5Props)
      → Starts 1 (request_response_properties executable mqtt_packets mqtt5_props)
  unfolding request_response_properties
  request_response_properties-Starts mqtt5_props = search start_rules depth 60

  pub disconnect_with_will_properties-Starts :
      (mqtt5_props : Mqtt5Props)
      → Starts 1 (disconnect_with_will_properties executable mqtt_packets mqtt5_props)
  unfolding disconnect_with_will_properties
  disconnect_with_will_properties-Starts mqtt5_props = search start_rules depth 60

  pub retained_message_expiry-Starts :
      (mqtt5_props : Mqtt5Props) (mqtt5_rc : Mqtt5Rc)
      → Starts 1 (retained_message_expiry executable mqtt_packets mqtt5_props mqtt5_rc)
  unfolding retained_message_expiry expect_expiry_variant
  retained_message_expiry-Starts mqtt5_props mqtt5_rc = search start_rules depth 60

  pub qos2_receive_maximum_one-Starts :
      (mqtt5_props : Mqtt5Props)
      → Starts 1 (qos2_receive_maximum_one executable mqtt_packets mqtt5_props)
  unfolding qos2_receive_maximum_one
  qos2_receive_maximum_one-Starts mqtt5_props = search start_rules depth 60

  pub maximum_packet_size_qos1-Starts :
      (mqtt5_props : Mqtt5Props)
      → Starts 1 (maximum_packet_size_qos1 executable mqtt_packets mqtt5_props)
  unfolding maximum_packet_size_qos1
  maximum_packet_size_qos1-Starts mqtt5_props = search start_rules depth 60

  pub maximum_packet_size_qos2-Starts :
      (mqtt5_props : Mqtt5Props)
      → Starts 1 (maximum_packet_size_qos2 executable mqtt_packets mqtt5_props)
  unfolding maximum_packet_size_qos2
  maximum_packet_size_qos2-Starts mqtt5_props = search start_rules depth 60

  pub retained_repeated_lifecycle-Starts :
      Starts 1 (retained_repeated_lifecycle executable mqtt_packets)
  unfolding retained_repeated_lifecycle
  retained_repeated_lifecycle-Starts = search start_rules depth 60

  pub retained_multilevel_clear-Starts :
      Starts 1 (retained_multilevel_clear executable mqtt_packets)
  unfolding retained_multilevel_clear replay
  retained_multilevel_clear-Starts = search start_rules depth 60

  pub shared_subscription_rotation-Starts :
      Starts 1 (shared_subscription_rotation executable mqtt_packets)
  unfolding shared_subscription_rotation rotate_shared
  shared_subscription_rotation-Starts = search start_rules depth 60

  pub qos2_duplicate_publish-Starts : Starts 1 (qos2_duplicate_publish executable mqtt_packets)
  unfolding qos2_duplicate_publish
  qos2_duplicate_publish-Starts = search start_rules depth 60

  pub qos2_repeated_pubrel-Starts : Starts 1 (qos2_repeated_pubrel executable mqtt_packets)
  unfolding qos2_repeated_pubrel
  qos2_repeated_pubrel-Starts = search start_rules depth 60

  pub reject_publish_subscription_identifier-Starts :
      (mqtt5_props : Mqtt5Props)
      → Starts 1 (reject_publish_subscription_identifier executable mqtt_packets mqtt5_props)
  unfolding reject_publish_subscription_identifier
  reject_publish_subscription_identifier-Starts mqtt5_props = search start_rules depth 60

  pub unsubscribe_reason_codes-Starts : Starts 1 (unsubscribe_reason_codes executable mqtt_packets)
  unfolding unsubscribe_reason_codes
  unsubscribe_reason_codes-Starts = search start_rules depth 60

  pub retain_as_published_live-Starts :
      (mqtt5_opts : Mqtt5Opts)
      → Starts 1 (retain_as_published_live executable mqtt_packets mqtt5_opts)
  unfolding retain_as_published_live
  retain_as_published_live-Starts mqtt5_opts = search start_rules depth 60

  pub retained_replacement-Starts :
      (mqtt5_props : Mqtt5Props)
      → Starts 1 (retained_replacement executable mqtt_packets mqtt5_props)
  unfolding retained_replacement
  retained_replacement-Starts mqtt5_props = search start_rules depth 60

  pub retained_publish_property_bundle-Starts :
      (mqtt5_props : Mqtt5Props)
      → Starts 1 (retained_publish_property_bundle executable mqtt_packets mqtt5_props)
  unfolding retained_publish_property_bundle
  retained_publish_property_bundle-Starts mqtt5_props = search start_rules depth 60

  pub retained_tombstone_properties-Starts :
      (mqtt5_props : Mqtt5Props)
      → Starts 1 (retained_tombstone_properties executable mqtt_packets mqtt5_props)
  unfolding retained_tombstone_properties
  retained_tombstone_properties-Starts mqtt5_props = search start_rules depth 60

  pub assigned_client_identifier-Starts :
      (mqtt5_props : Mqtt5Props)
      → Starts 1 (assigned_client_identifier executable mqtt_packets mqtt5_props)
  unfolding assigned_client_identifier assigned decode_ascii
  assigned_client_identifier-Starts mqtt5_props = search start_rules depth 60

  pub server_keep_alive-Starts :
      (mqtt5_props : Mqtt5Props) → Starts 1 (server_keep_alive executable mqtt_packets mqtt5_props)
  unfolding server_keep_alive
  server_keep_alive-Starts mqtt5_props = search start_rules depth 60

  pub duplicate_client_takeover-Starts :
      (mqtt5_props : Mqtt5Props) (mqtt5_rc : Mqtt5Rc)
      → Starts 1 (duplicate_client_takeover executable mqtt_packets mqtt5_props mqtt5_rc)
  unfolding duplicate_client_takeover
  duplicate_client_takeover-Starts mqtt5_props mqtt5_rc = search start_rules depth 60

  pub disconnect_session_expiry-Starts :
      (mqtt5_props : Mqtt5Props)
      → Starts 1 (disconnect_session_expiry executable mqtt_packets mqtt5_props)
  unfolding disconnect_session_expiry expiring_connect expiring_disconnect
  disconnect_session_expiry-Starts mqtt5_props = search start_rules depth 60
