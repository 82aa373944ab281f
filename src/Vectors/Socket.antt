-- ===== src/Vectors/Socket.antt =====
-- The operations of `socket`, `subprocess` and `time` that the vectors make, each with the event
-- that it leaves in the trace. `recv` never returns more bytes than it was asked for.
use netz.Base.{ℕ, ℤ, Option, none, some, List, [], ◌∷◌, map, Bytes, take}
use netz.Vectors.World.{
  Text, Answer, port, socket, exit_code, line, output, bytes, done, Trace, opened, bound, probed,
  spawned, announced, connected, sent, got, eof, timeout_set, slept, closed, exited, terminated, M,
  perform,
}

-- What a `recv` that returned `bs` leaves in the trace; an empty result is the end of the stream.
abbrev pub received : ℕ → Bytes → Trace
received s [] = eof s ∷ []
received s (b ∷ bs) = got s b ∷ map (got s) bs

abbrev pub bytes_answer : ℕ → ℕ → Answer → Option (Bytes × Trace)
bytes_answer s n (bytes bs) = some (take n bs, received s (take n bs))
bytes_answer s n _ = none

unfoldable pub recv : ℕ → ℕ → M Bytes
unfolding perform
recv s n = perform (bytes_answer s n)

abbrev done_answer : Trace → Answer → Option (Unit {0} × Trace)
done_answer t done = some (tt, t)
done_answer t _ = none

unfoldable pub sendall : ℕ → Bytes → M (Unit {0})
unfolding perform
sendall s bs = perform (done_answer (sent s bs ∷ []))

-- `settimeout`, in milliseconds
unfoldable pub settimeout : ℕ → ℕ → M (Unit {0})
unfolding perform
settimeout s ms = perform (done_answer (timeout_set s ms ∷ []))

unfoldable pub close : ℕ → M (Unit {0})
unfolding perform
close s = perform (done_answer (closed s ∷ []))

-- `time.sleep`, in milliseconds
unfoldable pub sleep : ℕ → M (Unit {0})
unfolding perform
sleep ms = perform (done_answer (slept ms ∷ []))

abbrev port_answer : Answer → Option (ℕ × Trace)
port_answer (port p) = some (p, probed p ∷ [])
port_answer _ = none

-- `sock.getsockname()[1]`
unfoldable pub getsockname : ℕ → M ℕ
unfolding perform
getsockname s = perform port_answer

-- `sock.bind(("127.0.0.1", 0))`
unfoldable pub bind : ℕ → M (Unit {0})
unfolding perform
bind s = perform (done_answer (bound s ∷ []))

abbrev opened_answer : Answer → Option (ℕ × Trace)
opened_answer (socket s) = some (s, opened s ∷ [])
opened_answer _ = none

-- `socket.socket()`
unfoldable pub new_socket : M ℕ
unfolding perform
new_socket = perform opened_answer

abbrev socket_answer : ℕ → Answer → Option (ℕ × Trace)
socket_answer p (socket s) = some (s, connected p s ∷ [])
socket_answer p _ = none

-- `socket.create_connection(("127.0.0.1", p), timeout=5)`
unfoldable pub create_connection : ℕ → M ℕ
unfolding perform
create_connection p = perform (socket_answer p)

-- `subprocess.Popen(command, ...)`
unfoldable pub popen : List Text → M (Unit {0})
unfolding perform
popen command = perform (done_answer (spawned command ∷ []))

abbrev line_answer : Answer → Option (Bytes × Trace)
line_answer (line said) = some (said, announced said ∷ [])
line_answer _ = none

-- `process.stdout.readline()`, a string of character codes
unfoldable pub readline : M Bytes
unfolding perform
readline = perform line_answer

abbrev exit_answer : Answer → Option (ℤ × Trace)
exit_answer (exit_code n) = some (n, exited n ∷ [])
exit_answer _ = none

-- `process.wait(timeout=5)`, which raises `timeout_expired` when the process runs
-- on; a process that a signal ended has a negative return code
unfoldable pub wait : M ℤ
unfolding perform
wait = perform exit_answer

unfoldable pub terminate : M (Unit {0})
unfolding perform
terminate = perform (done_answer (terminated ∷ []))

abbrev output_answer : Answer → Option (Text × Trace)
output_answer (output t) = some (t, [])
output_answer _ = none

-- `process.stdout.read()`
unfoldable pub read_output : M Text
unfolding perform
read_output = perform output_answer
