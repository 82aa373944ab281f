-- ===== src/Vectors/Runs/Sockets.antt =====
-- The traces of the socket operations, and of `read_packet` and the helpers around it.
use netz.Base.{
  ℕ, zero, suc, ◌*◌, false, ◌≡◌, refl, sym, ap, ◌∙◌, Option, none, some, List, [], ◌∷◌, ◌++◌, map,
  map-append, append-nil, append_assoc, Bytes, bytes_eq→eq, length, arith, ◌≤◌, ltb, ◌==◌,
  length-take-le, length-append, ◌-◌, get_elem?, bit_and,
}
use netz.Vectors.World.{
  Text, Answer, bytes, sent, got, timeout_set, closed, connected, opened, bound, probed, spawned,
  announced, exited, slept, Trace, ◌>>=◌,
}
use netz.Vectors.Socket.{
  bytes_answer, received, recv, sendall, settimeout, close, create_connection, new_socket, bind,
  getsockname, popen, readline, wait, sleep,
}
use netz.Vectors.Harness.{
  recv_loop, recv_exact, index, or_index_error, length_loop, read_packet, expect_packet,
}
use netz.Vectors.Runs.{
  Passes, Runs, Exactly, exactly, Passes-perform, Passes-bind, Passes-pure, Passes-raise,
  Passes-run_out, Passes-if, Passes-mono, Runs-check,
}

pub Runs-sendall : (s : ℕ) (bs : Bytes) → Runs (sendall s bs) (Exactly (sent s bs ∷ []))
unfolding sendall
Runs-sendall s bs = Passes-perform _ λ x a t h. exactly (ground arith)

pub Runs-settimeout : (s ms : ℕ) → Runs (settimeout s ms) (Exactly (timeout_set s ms ∷ []))
unfolding settimeout
Runs-settimeout s ms = Passes-perform _ λ x a t h. exactly (ground arith)

pub Runs-close : (s : ℕ) → Runs (close s) (Exactly (closed s ∷ []))
unfolding close
Runs-close s = Passes-perform _ λ x a t h. exactly (ground arith)

pub Passes-create_connection :
    (p : ℕ) → Passes (create_connection p) (λ s t. t ≡ connected p s ∷ [])
unfolding create_connection
Passes-create_connection p = Passes-perform _ λ x s t h. ground arith

pub Passes-new_socket : Passes new_socket (λ s t. t ≡ opened s ∷ [])
unfolding new_socket
Passes-new_socket = Passes-perform _ λ x s t h. ground arith

pub Runs-bind_port : (s : ℕ) → Runs (bind s) (λ t. t ≡ bound s ∷ [])
unfolding bind
Runs-bind_port s = Passes-perform _ λ x r t h. ground arith

pub Passes-getsockname : (s : ℕ) → Passes (getsockname s) (λ p t. t ≡ probed p ∷ [])
unfolding getsockname
Passes-getsockname s = Passes-perform _ λ x p t h. ground arith

pub Runs-popen : (command : List Text) → Runs (popen command) (Exactly (spawned command ∷ []))
unfolding popen
Runs-popen command = Passes-perform _ λ x a t h. exactly (ground arith)

pub Passes-readline : Passes readline (λ said t. t ≡ announced said ∷ [])
unfolding readline
Passes-readline = Passes-perform _ λ x r t h. ground arith

pub Passes-wait : Passes wait (λ code t. t ≡ exited code ∷ [])
unfolding wait
Passes-wait = Passes-perform _ λ x code t h. ground arith

pub Runs-sleep : (ms : ℕ) → Runs (sleep ms) (Exactly (slept ms ∷ []))
unfolding sleep
Runs-sleep ms = Passes-perform _ λ x a t h. exactly (ground arith)

-- `recv`: what came is what the trace holds, and it is no longer than asked for.
pub Passes-recv : (s n : ℕ) → Passes (recv s n) (λ bs t. (t ≡ received s bs) × (length bs ≤ n))
unfolding recv
Passes-recv s n = Passes-perform _ λ x a t h. read x a t h
  where
    read :
        (x : Answer) (a : Bytes) (t : Trace)
        → bytes_answer s n x ≡ some (a, t)
        → (t ≡ received s a) × (length a ≤ n)
    read (bytes bs) a t h = ground (arith, length-take-le n bs)
    read _ a t h = absurd (ground arith)

-- The bytes that a socket delivered.
abbrev pub gets : ℕ → Bytes → Trace
gets s bs = map (got s) bs

received-gets : (s : ℕ) (bs : Bytes) → (length bs == 0) ≡ false → received s bs ≡ gets s bs
received-gets s [] h = absurd (ground arith)
received-gets s (b ∷ bs) h = refl

-- What a reader returns is what it was given, and what it took from the socket.
abbrev Reads : ℕ → Bytes → Bytes → Trace → Type 0
Reads s before bs t = (r : Bytes) × (bs ≡ before ++ r) × (t ≡ gets s r)

Reads-none : (s : ℕ) (before : Bytes) → Reads s before before []
Reads-none s before = ([], sym (append-nil before), refl)

Reads-more :
    (s : ℕ) (before part bs : Bytes) {u : Trace}
    → Reads s (before ++ part) bs u
    → Reads s before bs (gets s part ++ u)
Reads-more s before part bs (r, p, q) =
    (part ++ r, p ∙ append_assoc before part r, rw (q, map-append))

abbrev Fills : ℕ → ℕ → Bytes → Bytes → Trace → Type 0
Fills s count before bs t = Reads s before bs t × (length before ≤ count → length bs ≡ count)

Fills-none :
    (s count : ℕ) (before : Bytes)
    → ltb (length before) count ≡ false
    → Fills s count before before []
Fills-none s count before full = (Reads-none s before, λ h. ground arith)

Passes-recv_loop :
    (fuel s count : ℕ) (result : Bytes)
    → Passes (recv_loop fuel s count result) (Fills s count result)
unfolding recv_loop
Passes-recv_loop zero s count result =
    Passes-if (ltb (length result) count) (λ _. Passes-run_out)
      (λ full. Passes-pure result (Fills-none s count result full))
Passes-recv_loop (suc fuel) s count result =
    Passes-if (ltb (length result) count)
      (λ short. Passes-bind (Passes-recv s _) λ part t got_part.
        Passes-if (length part == 0) (λ _. Passes-raise _)
          λ some_part. Passes-mono (Passes-recv_loop fuel s count (result ++ part)) λ bs u read.
            rw (got_part.0, received-gets s part some_part)
              (Reads-more s result part bs read.0, λ h. read.1 (fits part got_part.1 h)))
      (λ full. Passes-pure result (Fills-none s count result full))
  where
    fits :
        (part : Bytes)
        → length part ≤ count - length result
        → length result ≤ count
        → length (result ++ part) ≤ count
    fits part p h = omega (arith, length-append result part)

-- `recv_exact` returns as many bytes as it was asked for, and takes no more from the socket.
pub Passes-recv_exact :
    (s count : ℕ) → Passes (recv_exact s count) (λ bs t. (t ≡ gets s bs) × (length bs ≡ count))
unfolding recv_exact
Passes-recv_exact s count =
    Passes-mono (Passes-recv_loop count s count [])
      λ bs t ((r, p, q), full). (rw (p, q), full (omega arith))

pub Passes-index :
    (xs : Bytes) (i : ℕ) → Passes (index xs i) (λ x t. (t ≡ []) × (get_elem? xs i ≡ some x))
unfolding index
Passes-index xs i = at (get_elem? xs i)
  where
    at : (o : Option ℕ) → Passes (or_index_error o) (λ x t. (t ≡ []) × (o ≡ some x))
    at (some x) = Passes-pure x (refl, refl)
    at none = Passes-raise _

-- `(do one ← recv_exact s 1; index one 0)`
Passes-one_byte :
    (s : ℕ) → Passes (recv_exact s 1 >>= λ one. index one 0) (λ x t. t ≡ gets s (x ∷ []))
Passes-one_byte s =
    Passes-bind (Passes-recv_exact s 1)
      λ one t read. Passes-mono (Passes-index one 0) λ x u at. single one x read at
  where
    single :
        {t u : Trace} (one : Bytes) (x : ℕ)
        → (t ≡ gets s one) × (length one ≡ 1)
        → (u ≡ []) × (get_elem? one 0 ≡ some x)
        → t ++ u ≡ gets s (x ∷ [])
    single [] x read at = absurd (omega arith)
    single (y ∷ []) x read at = rw (read.0, at.0) (ground arith)
    single (y ∷ z ∷ ys) x read at = absurd (omega arith)

Passes-length_loop :
    (fuel s : ℕ) (read : Bytes) (multiplier remaining : ℕ)
    → Passes (length_loop fuel s read multiplier remaining) (λ r t. Reads s read r.0 t)
unfolding length_loop
Passes-length_loop zero s read multiplier remaining = Passes-run_out
Passes-length_loop (suc fuel) s read multiplier remaining =
    Passes-bind (Passes-one_byte s) λ encoded t one.
      Passes-if (bit_and encoded 0x80 == 0)
        (λ _.
          Passes-pure _
            (rw one (Reads-more s read (encoded ∷ []) _ (Reads-none s (read ++ encoded ∷ [])))))
        λ _.
          Passes-if (ltb (128 * 128 * 128) (multiplier * 128)) (λ _. Passes-raise _)
            λ _.
              Passes-mono (Passes-length_loop fuel s (read ++ encoded ∷ []) (multiplier * 128) _)
                λ r u more. rw one (Reads-more s read (encoded ∷ []) r.0 more)

-- In every environment in which `read_packet` returns, the packet is exactly what the socket
-- delivered during the call, in order.
pub Passes-read_packet : (s : ℕ) → Passes (read_packet s) (λ p t. t ≡ gets s p)
unfolding read_packet
Passes-read_packet s = Passes-bind (Passes-recv_exact s 1) λ fixed t f.
    Passes-bind (Passes-length_loop 4 s [] 1 0) λ read u l.
      Passes-bind (Passes-recv_exact s read.1)
        λ body v b. Passes-pure (fixed ++ (read.0 ++ body)) (packet fixed read.0 body f.0 l b.0)
  where
    packet :
        {t u v : Trace} (fixed read body : Bytes)
        → t ≡ gets s fixed
        → Reads s [] read u
        → v ≡ gets s body
        → t ++ (u ++ (v ++ [])) ≡ gets s (fixed ++ (read ++ body))
    packet fixed read body p (r, q, k) b = rw (p, k, b, q, append-nil) (simp (map-append))

pub Runs-expect_packet :
    (s : ℕ) (expected : Bytes) (label : Text)
    → Runs (expect_packet s expected label) (Exactly (gets s expected))
unfolding expect_packet
Runs-expect_packet s expected label = Passes-bind (Passes-read_packet s) λ actual t p.
    Passes-mono (Runs-check _ _) λ _ u same.
      exactly
        (rw (p, same.0, append-nil) (ap (gets s) (bytes_eq→eq actual expected (ground arith))))
