-- ===== src/Vectors/Runs/Brokers.antt =====
-- The traces of quiet sockets, of CONNECT, of a connection and of a broker's process.
use netz.Base.{
  ℕ, zero, suc, ℤ, pos, negsuc, is_zero, Bool, true, false, not, ◌&&◌, ◌≡◌, refl, ap, ◌∙◌, [], ◌∷◌,
  ◌++◌, Bytes, arith, Bool-cases, inl, inr, ◌≢◌,
}
use netz.Base.Strings.{occurs}
use netz.Base.Strings.Laws.{occurs-between}
use netz.Vectors.World.{
  Text, hex, Exception, assertion_error, Outcome, ok, raised, blocked, out_of_fuel, Answer, bytes,
  gives, fails, Env, opened, bound, probed, spawned, announced, connected, sent, eof, timeout_set,
  closed, exited, failed, Trace, M, pure, raise, prepend, except, check, ◌>>=◌, ◌>>◌,
}
use netz.Vectors.Socket.{bind, getsockname, recv, terminate, read_output}
use netz.Vectors.Harness.{recv_nothing, is_timeout, expect_quiet, is_hang_up, expect_hang_up}
use netz.Vectors.Broker.{
  free_port, Config, command, listening, enter, exit, exit_status, leave, guarded, with_broker,
  connect, with_socket, is_expired,
}
use netz.Vectors.Runs.{
  Passes, Runs, Exactly, exactly, Exactly→eq, parts, ◌⨾◌, joined, Passes-bind, Passes-pure,
  Passes-raise, Passes-mono, Passes-if, Passes-any, ◌▸◌,
}
use netz.Vectors.Runs.Handlers.{Passes-except, prepended, Runs-finally, Passes-finally}
use netz.Vectors.Runs.Sockets.{
  Passes-create_connection, Passes-new_socket, Runs-bind_port, Passes-getsockname, Runs-popen,
  Passes-readline, Passes-wait, gets, Runs-settimeout, Runs-close,
}

-- Nothing came: the end of the stream, or one of the exceptions that the vector allows.
pub data Nothing (caught : Exception → Bool) (s : ℕ) : Trace → Type 0 where
  ended : {t : Trace} → t ≡ eof s ∷ [] → Nothing caught s t
  refused : {t : Trace} (x : Exception) → caught x ≡ true → t ≡ failed x ∷ [] → Nothing caught s t

module _ (caught : Exception → Bool)
    (never : (message : Text) → caught (assertion_error message) ≡ false) (s : ℕ)
    (message : Text) where
  Nothing-given :
      (a : Answer) (e e' : Env) {r : Unit {0}} {t : Trace}
      → recv_nothing caught s message (gives a ∷ e) ≡ (ok r, t, e')
      → Nothing caught s t
  unfolding recv_nothing recv check except ◌>>=◌ pure raise
  Nothing-given (bytes []) e e' h = ended (ground arith)
  Nothing-given (bytes (b ∷ bs)) e e' h =
      absurd (ground (arith, never (message ++ hex (b ∷ []) ∷ [])))
  Nothing-given _ e e' h = absurd (ground arith)

  Nothing-failed :
      (x : Exception) (e e' : Env) {r : Unit {0}} {t : Trace}
      → recv_nothing caught s message (fails x ∷ e) ≡ (ok r, t, e')
      → Nothing caught s t
  unfolding recv_nothing recv check except ◌>>=◌ pure raise
  Nothing-failed x e e' h = elim (Bool-cases (caught x)) [
    | inl yes_caught ↦ refused x yes_caught (ground arith)
    | inr not_caught ↦ absurd (ground arith)
  ]

  nothing_blocked :
      (e' : Env) {r : Unit {0}} {t : Trace} → recv_nothing caught s message [] ≢ (ok r, t, e')
  unfolding recv_nothing recv check except ◌>>=◌ pure raise
  nothing_blocked e' h = ground arith

  pub Runs-recv_nothing : Runs (recv_nothing caught s message) (Nothing caught s)
  Runs-recv_nothing = record { at = cases }
    where
      cases :
          (e e' : Env) (a : Unit {0}) (t : Trace)
          → recv_nothing caught s message e ≡ (ok a, t, e')
          → Nothing caught s t
      cases [] e' a t h = absurd (nothing_blocked e' h)
      cases (gives x ∷ e) e' a t h = Nothing-given x e e' h
      cases (fails x ∷ e) e' a t h = Nothing-failed x e e' h

-- A wait of at most 50 milliseconds that ended with a timeout or with the end of the stream
abbrev pub Quiet : ℕ → Trace → Type 0
Quiet s =
    Exactly (timeout_set s 50 ∷ []) ⨾ (Nothing is_timeout s ⨾ Exactly (timeout_set s 5000 ∷ []))

pub Runs-expect_quiet : (s : ℕ) (message : Text) → Runs (expect_quiet s message) (Quiet s)
unfolding expect_quiet
Runs-expect_quiet s message =
    Runs-settimeout s 50
    ▸ Runs-finally (Runs-recv_nothing is_timeout (λ _. refl) s message) (Runs-settimeout s 5000)

pub Runs-expect_hang_up :
    (s : ℕ) (message : Text) → Runs (expect_hang_up s message) (Nothing is_hang_up s)
unfolding expect_hang_up
Runs-expect_hang_up s message = Runs-recv_nothing is_hang_up (λ _. refl) s message

-- `with broker.connect() as sock`
pub data Connection (p : ℕ) (L : ℕ → Trace → Type 0) : Trace → Type 0 where
  connection :
      {t : Trace} (s : ℕ) (body : Trace)
      → L s body
      → t ≡ connected p s ∷ timeout_set s 5000 ∷ (body ++ closed s ∷ [])
      → Connection p L t

pub Passes-connect :
    (p : ℕ) → Passes (connect p) (λ s t. t ≡ connected p s ∷ timeout_set s 5000 ∷ [])
unfolding connect
Passes-connect p =
    Passes-bind (Passes-create_connection p)
      λ s t c. Passes-bind (Runs-settimeout s 5000) λ _ u k. Passes-pure s (rw (c, Exactly→eq k))

pub Runs-with_socket :
    (p : ℕ) {L : ℕ → Trace → Type 0} {body : ℕ → M (Unit {0})}
    → ((s : ℕ) → Runs (body s) (L s))
    → Runs (with_socket p body) (Connection p L)
unfolding with_socket
Runs-with_socket p rb = Passes-bind (Passes-connect p) λ s t c.
    Passes-mono (Runs-finally (rb s) (Runs-close s))
      λ _ u run. let (a, b, l, k, j) = parts run in connection s a l (rw (c, j, Exactly→eq k))

-- The word "listening" stands somewhere in the line.
abbrev pub HasListening : Bytes → Type 0
HasListening line = (before : Bytes) × (after : Bytes) × (line ≡ before ++ (listening ++ after))

-- `with NetzBroker(...) as broker`: the process was started on a port that the kernel chose,
-- announced that it listens, by a line with the word "listening" in it, and ended by itself with
-- status 0 after the body.
pub data Served (executable : Text) (c : Config) (L : ℕ → Trace → Type 0) : Trace → Type 0 where
  served :
      {t : Trace} (port_socket p : ℕ) (said : Bytes) (body : Trace)
      → HasListening said
      → L p body
      → t
        ≡ opened port_socket
          ∷ bound port_socket
          ∷ probed p
          ∷ closed port_socket
          ∷ spawned (command executable c p)
          ∷ announced said
          ∷ (body ++ exited (pos 0) ∷ [])
      → Served executable c L t

-- The socket by which a port is found is closed again.
pub Passes-probe : (s : ℕ) → Passes (do bind s; getsockname s) (λ p t. t ≡ bound s ∷ probed p ∷ [])
Passes-probe s =
    Passes-bind (Runs-bind_port s)
      λ _ t b. Passes-mono (Passes-getsockname s) λ p u g. rw (b, g) refl

pub Passes-free_port :
    Passes free_port (λ p t. (s : ℕ) × (t ≡ opened s ∷ bound s ∷ probed p ∷ closed s ∷ []))
unfolding free_port
Passes-free_port = Passes-bind Passes-new_socket λ s t o.
    Passes-finally (Passes-probe s) (Runs-close s) λ p u v b c. (s, rw (o, b, Exactly→eq c) refl)

pub Passes-enter :
    (executable : Text) (c : Config) (p : ℕ)
    → Runs (enter executable c p) (λ t.
      (said : Bytes) × HasListening said
      × (t ≡ spawned (command executable c p) ∷ announced said ∷ []))
unfolding enter
Passes-enter executable c p = Passes-bind (Runs-popen _) λ _ t k.
    Passes-bind Passes-readline λ said u r.
      Passes-if (not (occurs listening said)) (λ _. Passes-raise _)
        (λ h.
          Passes-pure tt (said, occurs-between listening said (ground arith), rw (Exactly→eq k, r)))

is_zero-pos : (code : ℤ) → is_zero code ≡ true → code ≡ pos 0
is_zero-pos (pos zero) h = refl
is_zero-pos (pos (suc n)) h = absurd (ground arith)
is_zero-pos (negsuc n) h = absurd (ground arith)

Runs-exit_status : (code : ℤ) → Runs (exit_status false code) (λ t. (t ≡ []) × (code ≡ pos 0))
unfolding exit_status
Runs-exit_status code =
    Passes-if (not false && not (is_zero code))
      (λ _. Passes-bind (Passes-any read_output) λ _ _ _. Passes-raise _)
      (λ h. Passes-pure tt (refl, is_zero-pos code (ground arith)))

Runs-exit : Runs (exit false) (Exactly (exited (pos 0) ∷ []))
unfolding exit
Runs-exit =
    Passes-bind
      (Passes-except is_expired Passes-wait λ t.
        Passes-bind (Passes-any terminate)
          λ _ _ _. Passes-bind Passes-wait λ code u w. Passes-raise _)
      λ code t w.
        Passes-mono (Runs-exit_status code)
          λ _ u (none_more, zero_code). exactly (rw (w, zero_code, none_more))

never_returns : (x : Exception) → Passes (exit true >> raise {A = Unit {0}} x) (λ _ _. ⊥)
never_returns x = Passes-bind (Passes-any (exit true)) λ _ _ _. Passes-raise x

left_well :
    (r : Outcome (Unit {0})) (t : Trace) (e : Env) {e' : Env} {u : Trace} {a : Unit {0}}
    → prepend t (leave r e) ≡ (ok a, u, e')
    → (r ≡ ok tt) × (u ≡ t ++ exited (pos 0) ∷ [])
left_well (ok _) t e h =
    let (p, q) = prepended t (exit false e) h in
    (refl, q ∙ ap (λ u. t ++ u) (Exactly→eq (Runs-exit.at e _ tt _ p)))
left_well (raised x) t e h =
    let (p, q) = prepended t ((exit true >> raise x) e) h in
    absurd ((never_returns x).at e _ tt _ p)
left_well blocked t e h = absurd (ground arith)
left_well out_of_fuel t e h = absurd (ground arith)

Runs-guarded :
    {L : Trace → Type 0} {body : M (Unit {0})}
    → Runs body L
    → Runs (guarded body) (L ⨾ Exactly (exited (pos 0) ∷ []))
unfolding guarded
Runs-guarded {body = m} rb = record {
  at = λ e e' a t h.
      let (r, k) = left_well (m e).0 (m e).1 (m e).2 h in
      joined (m e).1 _ (rb.at e (m e).2 tt (m e).1 (λ i. (r i, (m e).1, (m e).2))) (exactly refl) k;
}

-- If every run of the body that returns is in `L`, every run of `with NetzBroker(...)` that returns
-- took a port, started the command on it, read one line of its output, which has the word
-- "listening" in it, ran the body to its end, and saw the process exit by itself with status 0.
pub Runs-with_broker :
    (executable : Text) (c : Config) {L : ℕ → Trace → Type 0} {body : ℕ → M (Unit {0})}
    → ((p : ℕ) → Runs (body p) (L p))
    → Runs (with_broker executable c body) (Served executable c L)
unfolding with_broker
Runs-with_broker executable c rb = Passes-bind Passes-free_port λ p t (q, f).
    Passes-bind (Passes-enter executable c p) λ _ u (said, heard_it, k).
      Passes-mono (Runs-guarded (rb p)) λ _ v run.
        let (a, b, l, x, j) = parts run in served q p said a heard_it l (rw (f, k, j, Exactly→eq x))

-- `connect_client`: a CONNECT goes out, and the CONNACK that comes back starts with 0x20, is long
-- enough and has a reason code below 0x80.
pub data Accepted (s : ℕ) (connect : Bytes) (good : Bytes → Bool) : Trace → Type 0 where
  accepted :
      {t : Trace} (connack : Bytes)
      → good connack ≡ true
      → t ≡ sent s connect ∷ gets s connack
      → Accepted s connect good t
