-- ===== src/Vectors/Samples/Sessions.antt =====
-- A run of `qos2_routes_at_pubrel` of tools/interop/mqtt_mosquitto_vectors.py from its first answer
-- to its last.
use netz.Base.{ℕ, pos, refl, [], ◌∷◌, ◌++◌, Bytes}
use netz.Base.Strings.{starts_with, occurs}
use netz.Vectors.World.{
  socket_timeout, Outcome, port, socket, exit_code, line, bytes, done, gives, fails, Env, Trace,
  pure, raise, perform, except, finally, check, ◌>>=◌,
}
use netz.Vectors.Socket.{
  recv, sendall, settimeout, close, new_socket, bind, getsockname, create_connection, popen,
  readline, wait,
}
use netz.Vectors.Harness.{
  recv_loop, recv_exact, index, length_loop, read_packet, expect_packet, recv_nothing, expect_quiet,
}
use netz.Vectors.Broker.{
  free_port, command, listening, enter, exit, exit_status, guarded, with_broker, connect,
  with_socket, connect_client, connect_v5,
}
use netz.Vectors.Samples.Modules.{netz_broker, packets}
use netz.Vectors.Scenarios.ExactlyOnce.{qos2_routes_at_pubrel}
use netz.Vectors.Transcripts.ExactlyOnce.{Qos2RoutesAtPubrel, qos2_routes_at_pubrel_conversation}

-- The answers to a `sendall`, and to a `read_packet` of a packet without or with a body
abbrev sends : Env
sends = gives done ∷ []

abbrev bare : ℕ → Env
bare kind = gives (bytes (kind ∷ [])) ∷ gives (bytes (0 ∷ [])) ∷ []

abbrev whole : ℕ → ℕ → Bytes → Env
whole kind length body =
    gives (bytes (kind ∷ [])) ∷ gives (bytes (length ∷ [])) ∷ gives (bytes body) ∷ []

abbrev connects : Env
connects = sends ++ whole 0x20 3 (0 ∷ 0 ∷ 0 ∷ [])

-- A broker that answers the scenario as it should
abbrev good_broker : Env
good_broker =
    gives (socket 3)
      ∷ gives done
      ∷ gives (port 1883)
      ∷ gives done
      ∷ gives done
      ∷ gives (line (listening ++ 10 ∷ []))
      ∷ gives (socket 4)
      ∷ gives done
      ∷ gives (socket 5)
      ∷ gives done
      ∷ connects
    ++ sends
    ++ whole 0x90 2 (0 ∷ 1 ∷ [])
    ++ connects
    ++ sends
    ++ whole 0x50 2 (1 ∷ 56 ∷ [])
    ++ (gives done ∷ fails socket_timeout ∷ gives done ∷ [])
    ++ sends
    ++ whole 0x70 2 (1 ∷ 56 ∷ [])
    ++ bare 0x34
    ++ sends
    ++ whole 0x62 2 (0 ∷ 1 ∷ [])
    ++ sends
    ++ sends
    ++ sends
    ++ (gives done ∷ gives done ∷ gives (exit_code (pos 0)) ∷ [])

abbrev whole_run : Outcome (Unit {0}) × Trace × Env
unfolding qos2_routes_at_pubrel
whole_run = qos2_routes_at_pubrel netz_broker packets good_broker

-- The scenario returns on this broker, so its conversation is what the trace holds.
qos2_routes_at_pubrel_example : Qos2RoutesAtPubrel netz_broker packets whole_run.1
unfolding qos2_routes_at_pubrel command starts_with occurs enter exit exit_status guarded
    with_broker connect with_socket connect_client connect_v5 recv_loop recv_exact index length_loop
    read_packet expect_packet recv_nothing expect_quiet recv sendall settimeout close new_socket
    bind getsockname free_port create_connection popen readline wait pure raise perform except
    finally check ◌>>=◌
qos2_routes_at_pubrel_example =
    (qos2_routes_at_pubrel_conversation netz_broker packets).at good_broker [] tt whole_run.1 refl
