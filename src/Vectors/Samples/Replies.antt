-- ===== src/Vectors/Samples/Replies.antt =====
-- The conversations on retained messages, capabilities, acknowledgements and
-- topic aliases, with these modules of Mosquitto.
use netz.Vectors.Runs.{Runs}
use netz.Vectors.Samples.Modules.{netz_broker, packets, props, reasons, options}
use netz.Vectors.Scenarios.Retained.{retained_subscription_handling, retain_as_published_live}
use netz.Vectors.Transcripts.Retained.{
  RetainedSubscriptionHandling, retained_subscription_handling_conversation, RetainAsPublishedLive,
  retain_as_published_live_conversation,
}
use netz.Vectors.Scenarios.Replays.{retained_repeated_lifecycle, retained_multilevel_clear}
use netz.Vectors.Transcripts.Replays.{
  RetainedRepeatedLifecycle, retained_repeated_lifecycle_conversation, RetainedMultilevelClear,
  retained_multilevel_clear_conversation,
}
use netz.Vectors.Scenarios.Capabilities.{
  hostile_initial_packets, publish_capability_disconnects, subscription_capability_disconnects,
}
use netz.Vectors.Transcripts.Capabilities.{
  HostileInitialPackets, hostile_initial_packets_conversation, PublishCapabilityDisconnects,
  publish_capability_disconnects_conversation, SubscriptionCapabilityDisconnects,
  subscription_capability_disconnects_conversation,
}
use netz.Vectors.Scenarios.Aliases.{incoming_topic_alias, outgoing_topic_alias}
use netz.Vectors.Transcripts.Aliases.{
  IncomingTopicAlias, incoming_topic_alias_conversation, OutgoingTopicAlias,
  outgoing_topic_alias_conversation,
}
use netz.Vectors.Scenarios.Acks.{multiple_subscription_identifiers}
use netz.Vectors.Transcripts.Acks.{
  MultipleSubscriptionIdentifiers, multiple_subscription_identifiers_conversation,
}

retained_subscription_handling_example :
    Runs
      (retained_subscription_handling netz_broker packets options)
      (RetainedSubscriptionHandling netz_broker packets options)
retained_subscription_handling_example =
    retained_subscription_handling_conversation netz_broker packets options

retain_as_published_live_example :
    Runs
      (retain_as_published_live netz_broker packets options)
      (RetainAsPublishedLive netz_broker packets options)
retain_as_published_live_example = retain_as_published_live_conversation netz_broker packets options

retained_repeated_lifecycle_example :
    Runs
      (retained_repeated_lifecycle netz_broker packets)
      (RetainedRepeatedLifecycle netz_broker packets)
retained_repeated_lifecycle_example = retained_repeated_lifecycle_conversation netz_broker packets

retained_multilevel_clear_example :
    Runs
      (retained_multilevel_clear netz_broker packets)
      (RetainedMultilevelClear netz_broker packets)
retained_multilevel_clear_example = retained_multilevel_clear_conversation netz_broker packets

hostile_initial_packets_example :
    Runs (hostile_initial_packets netz_broker packets) (HostileInitialPackets netz_broker packets)
hostile_initial_packets_example = hostile_initial_packets_conversation netz_broker packets

publish_capability_disconnects_example :
    Runs
      (publish_capability_disconnects netz_broker packets props reasons)
      (PublishCapabilityDisconnects netz_broker packets props reasons)
publish_capability_disconnects_example =
    publish_capability_disconnects_conversation netz_broker packets props reasons

subscription_capability_disconnects_example :
    Runs
      (subscription_capability_disconnects netz_broker packets props reasons)
      (SubscriptionCapabilityDisconnects netz_broker packets props reasons)
subscription_capability_disconnects_example =
    subscription_capability_disconnects_conversation netz_broker packets props reasons

multiple_subscription_identifiers_example :
    Runs
      (multiple_subscription_identifiers netz_broker packets props options)
      (MultipleSubscriptionIdentifiers netz_broker packets props options)
multiple_subscription_identifiers_example =
    multiple_subscription_identifiers_conversation netz_broker packets props options

incoming_topic_alias_example :
    Runs
      (incoming_topic_alias netz_broker packets props)
      (IncomingTopicAlias netz_broker packets props)
incoming_topic_alias_example = incoming_topic_alias_conversation netz_broker packets props

outgoing_topic_alias_example :
    Runs
      (outgoing_topic_alias netz_broker packets props)
      (OutgoingTopicAlias netz_broker packets props)
outgoing_topic_alias_example = outgoing_topic_alias_conversation netz_broker packets props
