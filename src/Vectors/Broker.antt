-- ===== src/Vectors/Broker.antt =====
-- `class NetzBroker` of tools/interop/mqtt_mosquitto_vectors.py, and the CONNECT helpers.
use netz.Base.{
  ℕ, ℤ, is_zero, Bool, true, false, ◌&&◌, ◌||◌, not, none, some, List, [], ◌∷◌, ◌++◌, Bytes, length,
  ltb, leb, ◌==◌, if◌then◌else◌, get_elem?,
}
use netz.Base.Strings.{occurs, strip}
use netz.Vectors.World.{
  text, number, flag, integer, hex, characters, Text, txt, Exception, runtime_error,
  timeout_expired, Outcome, ok, raised, blocked, out_of_fuel, M, pure, raise, prepend, except,
  finally, check, ◌>>=◌, ◌>>◌,
}
use netz.Vectors.Socket.{
  sendall, settimeout, close, new_socket, bind, getsockname, create_connection, popen, readline,
  wait, terminate, read_output,
}
use netz.Vectors.Mosquitto.{connect_args, MqttPackets, Mqtt5Props}
use netz.Vectors.Harness.{read_packet, index}

-- A port that the kernel chose, for the socket that is closed again
unfoldable pub free_port : M ℕ
free_port = do sock ← new_socket; finally (do bind sock; getsockname sock) (close sock)

-- The arguments of `NetzBroker.__init__` after the executable
pub record Config : Type 0 where
  pub connections : ℕ
  pub ignore_errors : Bool
  pub extra_args : List Text

abbrev pub config : Config
config = record { connections = 1; ignore_errors = false; extra_args = [] }

-- `self.executable` is the first word of the command.
unfoldable pub command : Text → Config → ℕ → List Text
command executable c port =
    executable
      ∷ (text "--bind=127.0.0.1:" ∷ number port ∷ [])
      ∷ (text "--connections=" ∷ number c.connections ∷ [])
      ∷ txt "--max-queued-deliveries=1024"
      ∷ txt "--max-outgoing-inflight=64"
      ∷ txt "--no-restore"
      ∷ c.extra_args
    ++ (if c.ignore_errors then txt "--ignore-connection-errors" ∷ [] else [])

-- "listening"
abbrev pub listening : Bytes
listening = 108 ∷ 105 ∷ 115 ∷ 116 ∷ 101 ∷ 110 ∷ 105 ∷ 110 ∷ 103 ∷ []

-- `__enter__`
unfoldable pub enter : Text → Config → ℕ → M (Unit {0})
unfolding occurs strip
enter executable c port = do
  popen (command executable c port)
  line ← readline
  if not (occurs listening line)
      then raise
          (runtime_error (text "netz broker failed to start: " ∷ characters (strip line) ∷ []))
      else pure tt

abbrev pub is_expired : Exception → Bool
is_expired timeout_expired = true
is_expired _ = false

-- `__exit__`: `failed` is `exc_type is not None`.
unfoldable pub exit_status : Bool → ℤ → M (Unit {0})
exit_status failed code =
    if not failed && not (is_zero code)
    then (do
      rest ← read_output
      raise (runtime_error (text "netz broker exited " ∷ integer code ∷ text ": " ∷ rest)))
    else pure tt

unfoldable pub exit : Bool → M (Unit {0})
unfolding exit_status
exit failed = do
  code ← except is_expired wait (do
    terminate
    code ← wait
    if failed
        then pure code
        else raise (runtime_error (txt "netz broker did not exit after DISCONNECT")))
  exit_status failed code

-- `with NetzBroker(...) as broker: body`: `__exit__` runs when `__enter__` has returned, and gives
-- the exception of the body back unless it raises one itself.
abbrev pub leave : Outcome (Unit {0}) → M (Unit {0})
leave (ok _) e = exit false e
leave (raised x) e = (exit true >> raise x) e
leave blocked e = (blocked, [], e)
leave out_of_fuel e = (out_of_fuel, [], e)

unfoldable pub guarded : M (Unit {0}) → M (Unit {0})
guarded body e = let (r, t, e') = body e in prepend t (leave r e')

unfoldable pub with_broker : Text → Config → (ℕ → M (Unit {0})) → M (Unit {0})
unfolding free_port guarded
with_broker executable c body = do port ← free_port; enter executable c port; guarded (body port)

-- `with broker.connect() as sock: body`; `connect` is the connection and its timeout of 5 seconds.
unfoldable pub connect : ℕ → M ℕ
connect port = do s ← create_connection port; settimeout s 5000; pure s

unfoldable pub with_socket : ℕ → (ℕ → M (Unit {0})) → M (Unit {0})
unfolding connect
with_socket port body = do s ← connect port; finally (body s) (close s)

module _ (mqtt_packets : MqttPackets) where
  -- The properties in the order in which the runtime's `writeConnAck` emits them
  unfoldable pub expected_connack : Mqtt5Props → Bool → ℕ → ℕ → Bytes → Bytes
  expected_connack mqtt5_props session_present maximum_packet_size topic_alias_maximum extra =
      mqtt_packets.gen_connack record {
        flags = if session_present then 1 else 0;
        rc = 0;
        proto_ver = 5;
        properties =
            mqtt5_props.gen_uint16_prop mqtt5_props.receive_maximum 64
            ++ mqtt5_props.gen_uint32_prop mqtt5_props.maximum_packet_size maximum_packet_size
            ++ mqtt5_props.gen_uint16_prop mqtt5_props.topic_alias_maximum topic_alias_maximum
            ++ extra;
        property_helper = false;
      }

  -- `connack[i]` of a packet that the tests before it have shown long enough
  abbrev pub byte_is : (ℕ → Bool) → Bytes → ℕ → Bool
  byte_is test packet i = elim (get_elem? packet i) [ some b ↦ test b | none ↦ false ]

  unfoldable pub connect_client : ℕ → Text → ℕ → M (Unit {0})
  connect_client sock client_id proto_ver = do
    sendall sock (mqtt_packets.gen_connect (connect_args (some client_id) proto_ver))
    connack ← read_packet sock
    let minimum_len = if proto_ver == 5 then 5 else 4
    check
        (byte_is (λ b. not (b == 0x20)) connack 0
          || ltb (length connack) minimum_len
          || byte_is (λ b. leb 0x80 b) connack 3)
        (text "invalid successful CONNACK: " ∷ hex connack ∷ [])

  unfoldable pub connect_v5 : ℕ → Text → M (Unit {0})
  unfolding connect_client
  connect_v5 sock client_id = connect_client sock client_id 5

  unfoldable pub connect_persistent_v5 : ℕ → Text → Bool → M (Unit {0})
  connect_persistent_v5 sock client_id session_present = do
    sendall sock (
        mqtt_packets.gen_connect (record (connect_args (some client_id) 5) {
          clean_session = some false;
          session_expiry = some 60;
        }))
    connack ← read_packet sock
    check
        (byte_is (λ b. not (b == 0x20)) connack 0
          || ltb (length connack) 5
          || byte_is (λ b. not (b == (if session_present then 1 else 0))) connack 2
          || byte_is (λ b. not (b == 0)) connack 3)
        (text "invalid persistent CONNACK (present="
          ∷ flag session_present
          ∷ text "): "
          ∷ hex connack
          ∷ [])

-- The inline test of a CONNACK, `connack[0] != 0x20 or connack[3] != 0`, which raises `IndexError`
-- on a packet that is too short
unfoldable pub is_success : Bytes → M Bool
unfolding index
is_success connack = do
  kind ← index connack 0
  if kind == 0x20 then (do reason ← index connack 3; pure (reason == 0)) else pure false

unfoldable pub expect_success : ℕ → Text → M (Unit {0})
unfolding is_success
expect_success sock label = do
  connack ← read_packet sock
  good ← is_success connack
  check (not good) (label ++ hex connack ∷ [])
