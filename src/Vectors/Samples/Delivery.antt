-- ===== src/Vectors/Samples/Delivery.antt =====
-- The conversations on delivery, limits and sessions, with these modules of Mosquitto.
use netz.Base.{refl}
use netz.Vectors.Runs.{Runs}
use netz.Vectors.Samples.Modules.{netz_broker, packets, props, reasons}
use netz.Vectors.Scenarios.FlowControl.{
  maximum_packet_size_qos1, maximum_packet_size_qos2, disconnect_with_will_properties,
}
use netz.Vectors.Transcripts.FlowControl.{
  MaximumPacketSizeQos1, maximum_packet_size_qos1_conversation, MaximumPacketSizeQos2,
  maximum_packet_size_qos2_conversation, DisconnectWithWillProperties,
  disconnect_with_will_properties_conversation,
}
use netz.Vectors.Scenarios.Limits.{
  duplicate_client_takeover, disconnect_session_expiry, receive_maximum_disconnect,
}
use netz.Vectors.Transcripts.Limits.{
  DuplicateClientTakeover, duplicate_client_takeover_conversation, DisconnectSessionExpiry,
  disconnect_session_expiry_conversation, ReceiveMaximumDisconnect,
  receive_maximum_disconnect_conversation,
}
use netz.Vectors.Scenarios.Persistence.{persistent_no_local, retained_message_expiry}
use netz.Vectors.Transcripts.Persistence.{
  PersistentNoLocal, persistent_no_local_conversation, RetainedMessageExpiry,
  retained_message_expiry_conversation,
}

maximum_packet_size_qos1_example :
    Runs
      (maximum_packet_size_qos1 netz_broker packets props)
      (MaximumPacketSizeQos1 netz_broker packets props)
maximum_packet_size_qos1_example = maximum_packet_size_qos1_conversation netz_broker packets props

maximum_packet_size_qos2_example :
    Runs
      (maximum_packet_size_qos2 netz_broker packets props)
      (MaximumPacketSizeQos2 netz_broker packets props)
maximum_packet_size_qos2_example = maximum_packet_size_qos2_conversation netz_broker packets props

disconnect_with_will_properties_example :
    Runs
      (disconnect_with_will_properties netz_broker packets props)
      (DisconnectWithWillProperties netz_broker packets props)
disconnect_with_will_properties_example =
    disconnect_with_will_properties_conversation netz_broker packets props λ id value. refl

duplicate_client_takeover_example :
    Runs
      (duplicate_client_takeover netz_broker packets props reasons)
      (DuplicateClientTakeover netz_broker packets props reasons)
duplicate_client_takeover_example =
    duplicate_client_takeover_conversation netz_broker packets props reasons

disconnect_session_expiry_example :
    Runs
      (disconnect_session_expiry netz_broker packets props)
      (DisconnectSessionExpiry netz_broker packets props)
disconnect_session_expiry_example = disconnect_session_expiry_conversation netz_broker packets props

receive_maximum_disconnect_example :
    Runs
      (receive_maximum_disconnect netz_broker packets reasons)
      (ReceiveMaximumDisconnect netz_broker packets reasons)
receive_maximum_disconnect_example =
    receive_maximum_disconnect_conversation netz_broker packets reasons

persistent_no_local_example :
    Runs (persistent_no_local netz_broker packets) (PersistentNoLocal netz_broker packets)
persistent_no_local_example = persistent_no_local_conversation netz_broker packets

retained_message_expiry_example :
    Runs
      (retained_message_expiry netz_broker packets props reasons)
      (RetainedMessageExpiry netz_broker packets props reasons)
retained_message_expiry_example =
    retained_message_expiry_conversation netz_broker packets props reasons
