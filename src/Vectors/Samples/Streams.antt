-- ===== src/Vectors/Samples/Streams.antt =====
-- The framing of tools/interop/mqtt_mosquitto_vectors.py on given bytes.
use netz.Base.{◌≡◌, [], ◌∷◌, ◌++◌, List, Bytes, arith}
use mathlib.Core.List.{flatten}
use netz.Vectors.World.{ok, raised, assertion_error, txt, bytes, gives, Env, pure}
use netz.Vectors.Broker.{config, with_broker}
use netz.Vectors.Harness.{read_packet, expect_packets_unordered}
use netz.Mqtt.RemainingLength.Laws.{variable_byte_integer}
use netz.Vectors.Runs.{Passes, Runs, Exactly}
use netz.Vectors.Runs.Sockets.{gets, Passes-read_packet}
use netz.Vectors.Runs.Unordered.{Unordered, Runs-Unordered}
use netz.Vectors.Runs.Brokers.{Served, Runs-with_broker}
use netz.Vectors.Runs.Chunks.{pieces}
use netz.Vectors.Runs.Packets.{singles, read_packet-pieces, read_packet_malformed}
use netz.Vectors.Transcripts.Rules.{Runs-pure}
use netz.Vectors.Samples.Modules.{netz_broker}

-- A body in two pieces, and the end of the stream behind the packet
abbrev cut : List Bytes
cut = (1 ∷ 2 ∷ []) ∷ (3 ∷ []) ∷ []

abbrev closing : Env
closing = gives (bytes []) ∷ []

read_packet-pieces_example :
    read_packet 4 (singles (0x30 ∷ 3 ∷ []) ++ (pieces cut ++ closing))
    ≡ (ok (0x30 ∷ 3 ∷ 1 ∷ 2 ∷ 3 ∷ []), gets 4 (0x30 ∷ 3 ∷ 1 ∷ 2 ∷ 3 ∷ []), closing)
unfolding variable_byte_integer flatten
read_packet-pieces_example =
    read_packet-pieces 4 0x30 cut closing (omega arith, (omega arith, tt)) (omega arith)

read_packet_malformed_example :
    read_packet 4 (singles (0x30 ∷ 128 ∷ 128 ∷ 128 ∷ 255 ∷ []) ++ closing) ≡ (
      raised (assertion_error (txt "malformed MQTT Remaining Length")),
      gets 4 (0x30 ∷ 128 ∷ 128 ∷ 128 ∷ 255 ∷ []),
      closing,
    )
read_packet_malformed_example =
    read_packet_malformed 4 0x30 0 0 0 127 closing (omega arith) (omega arith) (omega arith)
      (omega arith)

Passes-read_packet_example : Passes (read_packet 4) (λ p t. t ≡ gets 4 p)
Passes-read_packet_example = Passes-read_packet 4

abbrev expected_packets : List Bytes
expected_packets = (0x40 ∷ 2 ∷ 0 ∷ 3 ∷ []) ∷ (0x32 ∷ 1 ∷ 7 ∷ []) ∷ []

Runs-Unordered_example :
    Runs
      (expect_packets_unordered 4 expected_packets (txt "fitting"))
      (Unordered 4 expected_packets)
Runs-Unordered_example = Runs-Unordered 4 expected_packets (txt "fitting")

Runs-with_broker_example :
    Runs
      (with_broker netz_broker config λ port. pure tt)
      (Served netz_broker config λ port. Exactly [])
Runs-with_broker_example = Runs-with_broker netz_broker config (λ port. Runs-pure)
