-- ===== src/Vectors/Samples/Programs.antt =====
-- The whole program, its deliveries and its failures, with these modules of Mosquitto.
use netz.Base.{ℕ, negsuc, ◌≡◌, refl, [], ◌∷◌, ◌++◌}
use netz.Base.Strings.{starts_with, occurs}
use netz.Vectors.World.{
  txt, Exception, assertion_error, timeout_expired, port, socket, exit_code, line, done, gives,
  fails, Env, opened, bound, probed, spawned, announced, connected, timeout_set, closed, exited,
  terminated, failed, M, pure, raise, perform, except, finally, ◌>>=◌,
}
use netz.Vectors.Socket.{
  settimeout, close, new_socket, bind, getsockname, create_connection, popen, readline, wait,
  terminate, read_output,
}
use netz.Vectors.Main.{main}
use netz.Vectors.Broker.{
  free_port, config, command, listening, enter, exit_status, exit, guarded, with_broker, connect,
  with_socket,
}
use netz.Vectors.Runs.{Runs, Passes-raise}
use netz.Vectors.Heard.{packet, some_packet, IsSuccess}
use netz.Vectors.Scenarios.Assigned.{assigned_client_identifier}
use netz.Vectors.Scenarios.ExactlyOnce.{qos2_duplicate_publish, qos2_repeated_pubrel}
use netz.Vectors.Scenarios.FlowControl.{qos2_receive_maximum_one}
use netz.Vectors.Transcripts.ExactlyOnce.{Qos2DuplicatePublish, Qos2RepeatedPubrel}
use netz.Vectors.Transcripts.FlowControl.{Qos2ReceiveMaximumOne}
use netz.Vectors.Transcripts.Assigned.{
  AssignedClientIdentifier, assigned_client_identifier_conversation,
}
use netz.Vectors.Deliveries.{
  SubscriberHears, once, qos2_duplicate_publish_delivers_once, qos2_repeated_pubrel_delivers_once,
  qos2_receive_maximum_one_delivers_in_turn,
}
use netz.Vectors.Failures.{Fails-raise}
use netz.Vectors.Failures.Sockets.{ConnectionFails, Fails-with_socket}
use netz.Vectors.Failures.Brokers.{BrokerFails, Fails-with_broker}
use netz.Vectors.Ends.{Ends}
use netz.Vectors.Ends.Main.{Ends-main}
use netz.Vectors.Starts.Main.{Reported, main_reports}
use netz.Vectors.Samples.Modules.{netz_broker, packets, props, reasons, options}

Ends-main_example : Ends (main netz_broker packets props reasons options)
Ends-main_example = Ends-main netz_broker packets props reasons options

main_reports_example : Runs (main netz_broker packets props reasons options) (Reported 39)
main_reports_example = main_reports netz_broker packets props reasons options

assigned_client_identifier_example :
    Runs
      (assigned_client_identifier netz_broker packets props)
      (AssignedClientIdentifier netz_broker packets props)
assigned_client_identifier_example =
    assigned_client_identifier_conversation netz_broker packets props

qos2_duplicate_publish_delivers_once_example :
    Runs (qos2_duplicate_publish netz_broker packets) λ t.
      Qos2DuplicatePublish netz_broker packets t
      × SubscriberHears netz_broker
          (once netz_broker packets (txt "03/c2b/qos2/duplicate/test") (txt "original"))
          t
qos2_duplicate_publish_delivers_once_example =
    qos2_duplicate_publish_delivers_once netz_broker packets

qos2_repeated_pubrel_delivers_once_example : Runs (qos2_repeated_pubrel netz_broker packets) λ t.
    Qos2RepeatedPubrel netz_broker packets t
    × SubscriberHears netz_broker
        (once netz_broker packets (txt "qos2/repeated/pubrel") (txt "once"))
        t
qos2_repeated_pubrel_delivers_once_example = qos2_repeated_pubrel_delivers_once netz_broker packets

qos2_receive_maximum_one_delivers_in_turn_example :
    Runs (qos2_receive_maximum_one netz_broker packets props) λ t.
      Qos2ReceiveMaximumOne netz_broker packets props t
      × SubscriberHears netz_broker
          (some_packet IsSuccess
            ∷ packet (0x90 ∷ 2 ∷ 0 ∷ 1 ∷ [])
            ∷ packet (0x34 ∷ 0 ∷ [])
            ∷ packet (0x62 ∷ 2 ∷ 0 ∷ 1 ∷ [])
            ∷ packet (0x34 ∷ 0 ∷ [])
            ∷ packet (0x62 ∷ 2 ∷ 0 ∷ 2 ∷ [])
            ∷ [])
          t
qos2_receive_maximum_one_delivers_in_turn_example =
    qos2_receive_maximum_one_delivers_in_turn netz_broker packets props

-- A scenario that fails at once
abbrev problem : Exception
problem = assertion_error (txt "QoS2 SUBACK")

abbrev failing : ℕ → M (Unit {0})
failing _ = raise problem

Fails-with_socket_example :
    ConnectionFails 1883
      (λ _ _. ⊥)
      (λ _ x t. (x ≡ problem) × (t ≡ []))
      problem
      (connected 1883 4 ∷ timeout_set 4 5000 ∷ closed 4 ∷ [])
unfolding with_socket connect create_connection settimeout close finally perform pure raise ◌>>=◌
Fails-with_socket_example =
    (Fails-with_socket 1883 {body = failing} (λ _. Passes-raise problem)
        (λ _. Fails-raise problem (refl, refl))).at
      (gives (socket 4) ∷ gives done ∷ gives done ∷ []) [] problem _ refl

-- The process is still there after the scenario has failed, and ends by SIGTERM.
abbrev stubborn_broker : Env
stubborn_broker =
    gives (socket 3)
    ∷ gives done
    ∷ gives (port 1883)
    ∷ gives done
    ∷ gives done
    ∷ gives (line (listening ++ 10 ∷ []))
    ∷ fails timeout_expired
    ∷ gives done
    ∷ gives (exit_code (negsuc 14))
    ∷ []

Fails-with_broker_example :
    BrokerFails netz_broker config
      (λ _ _. ⊥)
      (λ _ x t. (x ≡ problem) × (t ≡ []))
      problem
      (opened 3
        ∷ bound 3
        ∷ probed 1883
        ∷ closed 3
        ∷ spawned (command netz_broker config 1883)
        ∷ announced (listening ++ 10 ∷ [])
        ∷ failed timeout_expired
        ∷ terminated
        ∷ exited (negsuc 14)
        ∷ [])
unfolding with_broker guarded enter exit exit_status except finally close new_socket bind
    getsockname free_port popen readline wait terminate read_output occurs starts_with perform pure
    raise ◌>>=◌
Fails-with_broker_example =
    (Fails-with_broker netz_broker config {body = failing} (λ _. Passes-raise problem)
        (λ _. Fails-raise problem (refl, refl))).at
      stubborn_broker [] problem _ refl
