-- ===== src/Lib.antt =====
-- netz: a model of its MQTT interoperability vectors and of the core of its MQTT codec.
--
-- netz is a networking library; its MQTT part is a broker with its codec, router, sessions and
-- runtimes. tools/interop/mqtt_mosquitto_vectors.py starts the built broker, speaks to it over
-- sockets with the packets that Mosquitto's test modules generate, and fails unless the broker
-- answers byte for byte. This library models that program, and from src/mqtt/mod.zig the fixed
-- header with its Remaining Length and the topic filters.
--
-- Vectors, for tools/interop/mqtt_mosquitto_vectors.py:
--   World: what a run sees. The environment is the list of its answers to the operations, in the
--     order in which they are made; a run returns its outcome, the trace of what happened and the
--     answers that are left. A statement about every environment is one about every broker.
--     `ok` and `raised` are Python's two ways to end; `blocked` is an operation that gets no answer
--     of its kind, and `out_of_fuel` a loop of the model that stopped early.
--   Socket: the operations of `socket`, `subprocess` and `time` that the vectors call.
--   Mosquitto: the imported modules `mqtt_packets`, `mqtt5_props`, `mqtt5_rc` and `mqtt5_opts` as
--     records of functions and numbers, parameters of every scenario.
--   Harness: `recv_exact`, `read_packet`, `expect_packet`, `expect_packets_unordered`, and the
--     inline `try` blocks by which the scenarios check that nothing arrives.
--   Broker: the class `NetzBroker` with its context manager, `expected_connack` and the CONNECT
--     helpers.
--   Scenarios: one function of the same name for each scenario; Main: `main`.
--   Runs: `Passes m Q`, "in every environment in which `m` returns, `Q` holds of the value and the
--     trace", with a rule for each way to build a run; `Runs m L` is the same for a run without a
--     value. Chunks and Packets state what `read_packet` does on a given stream.
--   Transcripts: the conversations, sets of traces named after the scenarios, which a run that
--     returns is compared with (`shared_subscription_rotation` has none). `Says s p` is a packet sent
--     on socket `s`, `Hears s p` the bytes of `p` received on it, with nothing else between; `Quiet`
--     is a wait of at most 50 milliseconds that ended with a timeout or with the end of the stream,
--     `Served` the life of the broker process around it, from the search for a port to the exit
--     status. Identifier describes the client identifiers byte by byte.
--   Heard, Deliveries: what is read from one socket in a conversation, whatever happens on the others.
--   Failures: `Fails m Q`, "in every environment in which `m` raises, `Q` holds of the exception and
--     the trace", and with it how the two context managers raise.
--   Starts: the number of broker processes that a run starts.
--   Ends: runs that do not stop for lack of fuel. `recv_exact` has `count` rounds, since each adds a
--     byte or raises, and the length of a packet four, since a fourth byte with its top bit set
--     raises.
--   Samples: the theorems at given packets, and a whole run of one scenario.
--
-- Mqtt, for src/mqtt/mod.zig:
--   RemainingLength: `encodeRemainingLength`, `decodeRemainingLength` and `FixedHeader`. The encoder
--     has four rounds of fuel, which are enough below 128 ^ 4. Byte masks are arithmetic by tables
--     of 256 entries (Base/Bits).
--   TopicFilter: `validTopicName`, `validTopicFilter`, `sharedTopicFilterInner`,
--     `topicMatchesFilter` and what they call. The levels that the loops find by position are those
--     of `splitScalar`. Shared is about the filters that start with `$share/`.
--
-- Base has the shared names, the Boolean tests on native numbers, integers for the return codes of
-- processes, lists, and byte strings with their laws (Base/Strings).
--
-- Not modelled: the argument parser of the vectors and their imports; the rest of the MQTT codec,
-- router, sessions, retained messages, wills, persistence and runtimes; the other protocols of the
-- library. Allocation never fails here. Times are milliseconds, and no clock runs:
-- a wait that the environment ends is a timeout.
pub mod Base
pub mod Mqtt
pub mod Vectors
