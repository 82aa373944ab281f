-- ===== src/Vectors/Harness.antt =====
-- The helpers of tools/interop/mqtt_mosquitto_vectors.py: reading packets from a socket and comparing
-- them.
use netz.Base.{
  ℕ, zero, suc, ◌+◌, ◌-◌, ◌*◌, Bool, true, false, not, Option, none, some, List, [], ◌∷◌, ◌++◌,
  Bytes, length, get_elem?, bytes_eq, ltb, ◌==◌, bit_and, if◌then◌else◌,
}
use netz.Vectors.World.{
  text, hex, Text, txt, Exception, assertion_error, index_error, socket_timeout, connection_reset,
  broken_pipe, M, pure, raise, run_out, except, finally, check, ◌>>=◌, ◌>>◌,
}
use netz.Vectors.Socket.{recv, settimeout}

-- The loop of `recv_exact`. Each round that does not raise adds a byte at least, so a fuel of
-- `count` is enough; the test of the loop is made before the fuel is looked at.
unfoldable pub recv_loop : ℕ → ℕ → ℕ → Bytes → M Bytes
recv_loop zero s count result = if ltb (length result) count then run_out else pure result
recv_loop (suc fuel) s count result =
    let again : M Bytes = (do
      part ← recv s (count - length result)
      let next : M Bytes = recv_loop fuel s count (result ++ part)
      if length part == 0
          then raise (assertion_error (txt "broker closed before complete packet"))
          else next) in
    if ltb (length result) count then again else pure result

unfoldable pub recv_exact : ℕ → ℕ → M Bytes
unfolding recv_loop
recv_exact s count = recv_loop count s count []

-- `xs[i]`, which raises past the end
abbrev pub or_index_error : Option ℕ → M ℕ
or_index_error (some x) = pure x
or_index_error none = raise index_error

unfoldable pub index : Bytes → ℕ → M ℕ
index xs i = or_index_error (get_elem? xs i)

-- The `while True` of `read_packet`: the length bytes read, and the value. The fifth round is never
-- reached, since the fourth byte with its top bit set raises.
unfoldable pub length_loop : ℕ → ℕ → Bytes → ℕ → ℕ → M (Bytes × ℕ)
length_loop zero s read multiplier remaining = run_out
length_loop (suc fuel) s read multiplier remaining = do
  encoded ← (do one ← recv_exact s 1; index one 0)
  let value = remaining + bit_and encoded 0x7f * multiplier
  let again : M (Bytes × ℕ) = length_loop fuel s (read ++ encoded ∷ []) (multiplier * 128) value
  if bit_and encoded 0x80 == 0
      then pure (read ++ encoded ∷ [], value)
      else if ltb (128 * 128 * 128) (multiplier * 128)
      then raise (assertion_error (txt "malformed MQTT Remaining Length"))
      else again

unfoldable pub read_packet : ℕ → M Bytes
unfolding length_loop recv_exact index
read_packet s = do
  fixed ← recv_exact s 1
  (remaining_bytes, remaining) ← length_loop 4 s [] 1 0
  body ← recv_exact s remaining
  pure (fixed ++ (remaining_bytes ++ body))

unfoldable pub expect_packet : ℕ → Bytes → Text → M (Unit {0})
expect_packet s expected label = do
  actual ← read_packet s
  check (not (bytes_eq actual expected))
      (label ++ text ": expected " ∷ hex expected ∷ text ", received " ∷ hex actual ∷ [])

-- `list.remove`, which raises on a missing element
unfoldable pub remove : Bytes → List Bytes → Option (List Bytes)
remove x [] = none
remove x (y ∷ ys) =
    if bytes_eq y x then some ys else elim (remove x ys) [ some zs ↦ some (y ∷ zs) | none ↦ none ]

unfoldable pub joined : List Bytes → Text
joined [] = []
joined (p ∷ []) = hex p ∷ []
joined (p ∷ q ∷ ps) = hex p ∷ text ", " ∷ joined (q ∷ ps)

abbrev pub or_unexpected : Option (List Bytes) → Text → M (List Bytes)
or_unexpected (some ps) message = pure ps
or_unexpected none message = raise (assertion_error message)

-- The loop reads one packet for each that is expected.
unfoldable pub unordered_loop : ℕ → List Bytes → List Bytes → Text → M (Unit {0})
unfolding remove joined pure raise
unordered_loop s [] remaining label = pure tt
unordered_loop s (_ ∷ rounds) remaining label = do
  actual ← read_packet s
  left ←
      or_unexpected (remove actual remaining)
        (label ++ text ": unexpected " ∷ hex actual ∷ text ", remaining " ∷ joined remaining)
  unordered_loop s rounds left label

unfoldable pub expect_packets_unordered : ℕ → List Bytes → Text → M (Unit {0})
unfolding unordered_loop
expect_packets_unordered s expected label = unordered_loop s expected expected label

-- The inline `try: early = sock.recv(1)`, `if early: raise AssertionError(...)`, `except ...: pass`
unfoldable pub recv_nothing : (Exception → Bool) → ℕ → Text → M (Unit {0})
recv_nothing caught s message =
    except caught (do early ← recv s 1; check (not (length early == 0)) (message ++ hex early ∷ []))
      (pure tt)

abbrev pub is_timeout : Exception → Bool
is_timeout socket_timeout = true
is_timeout _ = false

-- With `settimeout(0.05)` before it, `except socket.timeout` and `finally: settimeout(5)`: the
-- vectors check that nothing arrives.
unfoldable pub expect_quiet : ℕ → Text → M (Unit {0})
expect_quiet s message = do
  settimeout s 50
  finally (recv_nothing is_timeout s message) (settimeout s 5000)

abbrev pub is_hang_up : Exception → Bool
is_hang_up connection_reset = true
is_hang_up broken_pipe = true
is_hang_up _ = false

-- With `except (ConnectionResetError, BrokenPipeError)`: they check that the broker hangs up
-- without an answer.
unfoldable pub expect_hang_up : ℕ → Text → M (Unit {0})
expect_hang_up s message = recv_nothing is_hang_up s message
