-- ===== src/Vectors/Starts/Main.antt =====
-- How many broker processes `main` of tools/interop/mqtt_mosquitto_vectors.py starts.
use netz.Base.{ℕ, ◌+◌, ◌≡◌, refl, sym, ap, ◌∙◌, [], ◌∷◌, ◌++◌, append_assoc, arith}
use netz.Vectors.World.{Text, Trace, M, print, printed, ◌>>◌}
use netz.Vectors.Mosquitto.{MqttPackets, Mqtt5Props, Mqtt5Rc, Mqtt5Opts}
use netz.Vectors.Main.{main, passed}
use netz.Vectors.Runs.{Runs, Passes-bind, Passes-mono}
use netz.Vectors.Starts.{Starts, started, started-append}
use netz.Vectors.Starts.Scenarios.{
  no_matching_subscribers-Starts, subscription_identifiers-Starts,
  multiple_subscription_identifiers-Starts, hostile_initial_packets-Starts,
  publish_capability_disconnects-Starts, maximum_packet_size_disconnect-Starts,
  topic_alias_disconnect-Starts, receive_maximum_disconnect-Starts,
  subscription_capability_disconnects-Starts, qos2_routes_at_pubrel-Starts,
  mixed_version_qos1-Starts, persistent_no_local-Starts, retained_subscription_handling-Starts,
  incoming_topic_alias-Starts, outgoing_topic_alias-Starts, request_response_properties-Starts,
  disconnect_with_will_properties-Starts, retained_message_expiry-Starts,
  qos2_receive_maximum_one-Starts, maximum_packet_size_qos1-Starts, maximum_packet_size_qos2-Starts,
  retained_repeated_lifecycle-Starts, retained_multilevel_clear-Starts,
  shared_subscription_rotation-Starts, qos2_duplicate_publish-Starts, qos2_repeated_pubrel-Starts,
  reject_publish_subscription_identifier-Starts, unsubscribe_reason_codes-Starts,
  retain_as_published_live-Starts, retained_replacement-Starts,
  retained_publish_property_bundle-Starts, retained_tombstone_properties-Starts,
  assigned_client_identifier-Starts, server_keep_alive-Starts, duplicate_client_takeover-Starts,
  disconnect_session_expiry-Starts,
}

-- `n` processes were started, and then the last line was printed.
abbrev pub Reported : ℕ → Trace → Type 0
Reported n t = (u : Trace) × (t ≡ u ++ printed passed ∷ []) × (started u ≡ n)

infixr 4 ◌▷◌
◌▷◌ :
    {m r : M (Unit {0})} {k n : ℕ}
    → Starts k m
    → Runs r (Reported n)
    → Runs (m >> r) (Reported (k + n))
sm ▷ rr = Passes-bind sm λ _ t p. Passes-mono rr λ _ v (u, j, q). (
  t ++ u,
  ap (λ w. t ++ w) j ∙ sym (append_assoc t u (printed passed ∷ [])),
  omega (arith, started-append t u, p, q),
)

Runs-print : Runs (print passed) (Reported 0)
unfolding print started
Runs-print = record { at = λ e e' _ t h. ([], ap (λ (y : _ × Trace × _). y.1) (sym h), refl) }

-- In every environment in which `main` returns, it has started 39 broker processes, and the line that
-- says that 39 scenarios passed is the last thing it did.
pub main_reports :
    (executable : Text) (mqtt_packets : MqttPackets) (mqtt5_props : Mqtt5Props) (mqtt5_rc : Mqtt5Rc)
    (mqtt5_opts : Mqtt5Opts)
    → Runs (main executable mqtt_packets mqtt5_props mqtt5_rc mqtt5_opts) (Reported 39)
unfolding main
main_reports executable mqtt_packets mqtt5_props mqtt5_rc mqtt5_opts =
    no_matching_subscribers-Starts executable mqtt_packets mqtt5_rc
    ▷ subscription_identifiers-Starts executable mqtt_packets mqtt5_props
    ▷ multiple_subscription_identifiers-Starts executable mqtt_packets mqtt5_props mqtt5_opts
    ▷ hostile_initial_packets-Starts executable mqtt_packets
    ▷ publish_capability_disconnects-Starts executable mqtt_packets mqtt5_props mqtt5_rc
    ▷ maximum_packet_size_disconnect-Starts executable mqtt_packets mqtt5_props mqtt5_rc
    ▷ topic_alias_disconnect-Starts executable mqtt_packets mqtt5_props mqtt5_rc
    ▷ receive_maximum_disconnect-Starts executable mqtt_packets mqtt5_rc
    ▷ subscription_capability_disconnects-Starts executable mqtt_packets mqtt5_props mqtt5_rc
    ▷ qos2_routes_at_pubrel-Starts executable mqtt_packets
    ▷ mixed_version_qos1-Starts executable mqtt_packets
    ▷ persistent_no_local-Starts executable mqtt_packets
    ▷ retained_subscription_handling-Starts executable mqtt_packets mqtt5_opts
    ▷ incoming_topic_alias-Starts executable mqtt_packets mqtt5_props
    ▷ outgoing_topic_alias-Starts executable mqtt_packets mqtt5_props
    ▷ request_response_properties-Starts executable mqtt_packets mqtt5_props
    ▷ disconnect_with_will_properties-Starts executable mqtt_packets mqtt5_props
    ▷ retained_message_expiry-Starts executable mqtt_packets mqtt5_props mqtt5_rc
    ▷ qos2_receive_maximum_one-Starts executable mqtt_packets mqtt5_props
    ▷ maximum_packet_size_qos1-Starts executable mqtt_packets mqtt5_props
    ▷ maximum_packet_size_qos2-Starts executable mqtt_packets mqtt5_props
    ▷ retained_repeated_lifecycle-Starts executable mqtt_packets
    ▷ retained_multilevel_clear-Starts executable mqtt_packets
    ▷ shared_subscription_rotation-Starts executable mqtt_packets
    ▷ qos2_duplicate_publish-Starts executable mqtt_packets
    ▷ qos2_repeated_pubrel-Starts executable mqtt_packets
    ▷ reject_publish_subscription_identifier-Starts executable mqtt_packets mqtt5_props
    ▷ unsubscribe_reason_codes-Starts executable mqtt_packets
    ▷ retain_as_published_live-Starts executable mqtt_packets mqtt5_opts
    ▷ retained_replacement-Starts executable mqtt_packets mqtt5_props
    ▷ retained_publish_property_bundle-Starts executable mqtt_packets mqtt5_props
    ▷ retained_tombstone_properties-Starts executable mqtt_packets mqtt5_props
    ▷ assigned_client_identifier-Starts executable mqtt_packets mqtt5_props
    ▷ server_keep_alive-Starts executable mqtt_packets mqtt5_props
    ▷ duplicate_client_takeover-Starts executable mqtt_packets mqtt5_props mqtt5_rc
    ▷ disconnect_session_expiry-Starts executable mqtt_packets mqtt5_props
    ▷ Runs-print
