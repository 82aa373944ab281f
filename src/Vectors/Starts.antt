-- ===== src/Vectors/Starts.antt =====
-- How many broker processes a run of tools/interop/mqtt_mosquitto_vectors.py starts.
pub mod Scenarios
pub mod Main
use netz.Base.{
  ℕ, pos, zero, suc, ◌+◌, ◌≡◌, refl, sym, ap, ◌∙◌, Bool, true, false, List, [], ◌∷◌, ◌++◌, Bytes,
  length, arith, if◌then◌else◌, Option,
}
use netz.Vectors.World.{
  Text, Exception, Answer, Event, spawned, exited, eof, failed, printed, Trace, M, pure, raise,
  finally, for_each, check, print, ◌>>=◌, ◌>>◌,
}
use netz.Vectors.Socket.{recv, sendall, settimeout, close, sleep, create_connection, received}
use netz.Vectors.Broker.{
  Config, with_broker, with_socket, connect, connect_client, connect_v5, connect_persistent_v5,
  expect_success,
}
use netz.Vectors.Mosquitto.{MqttPackets}
use netz.Vectors.Harness.{
  index, read_packet, expect_packet, expect_packets_unordered, expect_quiet, expect_hang_up,
}
use netz.Vectors.Scenarios.FlowControl.{expect_plain_success}
use netz.Vectors.Runs.{
  Passes, Runs, Exactly→eq, ◌⨾◌, parts, Passes-bind, Passes-pure, Passes-raise, Passes-mono,
  Passes-if, Runs-check,
}
use netz.Vectors.Runs.Handlers.{Runs-finally}
use netz.Vectors.Runs.Sockets.{
  gets, Passes-recv, Passes-index, Passes-read_packet, Passes-create_connection, Runs-sendall,
  Runs-settimeout, Runs-close, Runs-sleep, Runs-expect_packet,
}
use netz.Vectors.Runs.Unordered.{Unordered, arrived, Runs-Unordered}
use netz.Vectors.Runs.Brokers.{
  Nothing, ended, refused, Quiet, Connection, connection, Served, served, Runs-expect_quiet,
  Runs-expect_hang_up, Runs-with_broker, Runs-with_socket,
}
use netz.Vectors.Runs.Connects.{
  Accepted, accepted, Success, success, PlainSuccess, plain_success, Runs-connect_client,
  Runs-connect_v5, Runs-connect_persistent_v5, Runs-expect_success, Runs-expect_plain_success,
}

unfoldable pub started : Trace → ℕ
started [] = 0
started (spawned _ ∷ t) = suc (started t)
started (_ ∷ t) = started t

started-append : (t u : Trace) → started (t ++ u) ≡ started t + started u
unfolding started
started-append [] u = omega arith
started-append (spawned _ ∷ t) u = omega (arith, started-append t u)
started-append (_ ∷ t) u = started-append t u

started-gets : (s : ℕ) (p : Bytes) → started (gets s p) ≡ 0
unfolding started
started-gets s [] = refl
started-gets s (b ∷ p) = started-gets s p

-- Every run that returns has started `n` processes.
abbrev pub Starts : {A : Type 0} → ℕ → M A → Type 0
Starts n m = Passes m (λ _ t. started t ≡ n)

module _ {A B : Type 0} where
  pub Starts-bind :
      {m : M A} {f : A → M B} → Starts 0 m → ((a : A) → Starts 0 (f a)) → Starts 0 (m >>= f)
  Starts-bind sm sf =
      Passes-bind sm λ a t p. Passes-mono (sf a) λ _ u q. omega (arith, started-append t u, p, q)

pub Starts-then : {m n : M (Unit {0})} {k l : ℕ} → Starts k m → Starts l n → Starts (k + l) (m >> n)
Starts-then sm sn =
    Passes-bind sm λ _ t p. Passes-mono sn λ _ u q. omega (arith, started-append t u, p, q)

pub Starts-if :
    {A : Type 0} {m n : M A} (b : Bool) → Starts 0 m → Starts 0 n → Starts 0 (if b then m else n)
Starts-if b sm sn = Passes-if b (λ _. sm) (λ _. sn)

pub Starts-pure : {A : Type 0} (a : A) → Starts 0 (pure a)
unfolding started
Starts-pure a = Passes-pure a refl

pub Starts-raise : {A : Type 0} (x : Exception) → Starts 0 (raise {A = A} x)
Starts-raise x = Passes-raise x

pub Starts-check : (wrong : Bool) (message : Text) → Starts 0 (check wrong message)
unfolding started
Starts-check wrong message = Passes-mono (Runs-check wrong message) λ _ t p. rw p.0 refl

pub Starts-recv : (s n : ℕ) → Starts 0 (recv s n)
Starts-recv s n = Passes-mono (Passes-recv s n) λ bs t p. rw p.0 (none bs)
  where
    none : (bs : Bytes) → started (received s bs) ≡ 0
    none [] = unfold started in refl
    none (b ∷ bs) = started-gets s (b ∷ bs)

pub Starts-sendall : (s : ℕ) (p : Bytes) → Starts 0 (sendall s p)
unfolding started
Starts-sendall s p = Passes-mono (Runs-sendall s p) λ _ t l. rw (Exactly→eq l) refl

pub Starts-close : (s : ℕ) → Starts 0 (close s)
unfolding started
Starts-close s = Passes-mono (Runs-close s) λ _ t l. rw (Exactly→eq l) refl

pub Starts-sleep : (ms : ℕ) → Starts 0 (sleep ms)
unfolding started
Starts-sleep ms = Passes-mono (Runs-sleep ms) λ _ t l. rw (Exactly→eq l) refl

pub Starts-index : (xs : Bytes) (i : ℕ) → Starts 0 (index xs i)
unfolding started
Starts-index xs i = Passes-mono (Passes-index xs i) λ _ t p. rw p.0 refl

pub Starts-read_packet : (s : ℕ) → Starts 0 (read_packet s)
Starts-read_packet s = Passes-mono (Passes-read_packet s) λ p t j. rw j (started-gets s p)

pub Starts-expect_packet : (s : ℕ) (p : Bytes) (label : Text) → Starts 0 (expect_packet s p label)
Starts-expect_packet s p label =
    Passes-mono (Runs-expect_packet s p label) λ _ t l. rw (Exactly→eq l) (started-gets s p)

pub Starts-unordered :
    (s : ℕ) (ps : List Bytes) (label : Text) → Starts 0 (expect_packets_unordered s ps label)
Starts-unordered s ps label = Passes-mono (Runs-Unordered s ps label) λ _ t l. none t l
  where
    none : (t : Trace) → Unordered s ps t → started t ≡ 0
    none t (arrived qs _ j) = rw j (started-gets s _)

Starts-Nothing :
    {caught : Exception → Bool} {s : ℕ} (t : Trace) → Nothing caught s t → started t ≡ 0
unfolding started
Starts-Nothing t (ended j) = rw j refl
Starts-Nothing t (refused x c j) = rw j refl

pub Starts-expect_hang_up : (s : ℕ) (message : Text) → Starts 0 (expect_hang_up s message)
Starts-expect_hang_up s message =
    Passes-mono (Runs-expect_hang_up s message) λ _ t l. Starts-Nothing t l

pub Starts-expect_quiet : (s : ℕ) (message : Text) → Starts 0 (expect_quiet s message)
unfolding started
Starts-expect_quiet s message = Passes-mono (Runs-expect_quiet s message) λ _ t l.
    let (a, b, in_a, in_b, j) = parts l in
    let (c, d, in_c, in_d, k) = parts in_b in
    let nothing = Starts-Nothing c in_c in
    rw (j, Exactly→eq in_a, k, Exactly→eq in_d) (started-append c _ ∙ omega (arith, nothing))

started-Accepted :
    {s : ℕ} {c : Bytes} {P : Bytes → Type 0} (t : Trace) → Accepted s c P t → started t ≡ 0
unfolding started
started-Accepted {s} t (accepted connack _ j) = rw j (started-gets s connack)

module _ (mqtt_packets : MqttPackets) (s : ℕ) (client_id : Text) where
  pub Starts-connect_v5 : Starts 0 (connect_v5 mqtt_packets s client_id)
  Starts-connect_v5 =
      Passes-mono (Runs-connect_v5 mqtt_packets s client_id) λ _ t l. started-Accepted t l

  pub Starts-connect_client :
      (proto_ver : ℕ) → Starts 0 (connect_client mqtt_packets s client_id proto_ver)
  Starts-connect_client proto_ver =
      Passes-mono (Runs-connect_client mqtt_packets s client_id proto_ver)
        λ _ t l. started-Accepted t l

  pub Starts-connect_persistent_v5 :
      (present : Bool) → Starts 0 (connect_persistent_v5 mqtt_packets s client_id present)
  Starts-connect_persistent_v5 present =
      Passes-mono (Runs-connect_persistent_v5 mqtt_packets s client_id present)
        λ _ t l. started-Accepted t l

pub Starts-expect_success : (s : ℕ) (label : Text) → Starts 0 (expect_success s label)
Starts-expect_success s label = Passes-mono (Runs-expect_success s label) λ _ t l. none t l
  where
    none : (t : Trace) → Success s t → started t ≡ 0
    none t (success p _ _ j) = rw j (started-gets s p)

pub Starts-expect_plain_success : (s : ℕ) (label : Text) → Starts 0 (expect_plain_success s label)
Starts-expect_plain_success s label =
    Passes-mono (Runs-expect_plain_success s label) λ _ t l. none t l
  where
    none : (t : Trace) → PlainSuccess s t → started t ≡ 0
    none t (plain_success p _ _ j) = rw j (started-gets s p)

pub Starts-for_each :
    {A : Type 0} (xs : List A) {body : A → M (Unit {0})}
    → ((x : A) → Starts 0 (body x))
    → Starts 0 (for_each xs body)
unfolding for_each started
Starts-for_each [] sb = Passes-pure tt refl
Starts-for_each (x ∷ xs) sb = Starts-bind (sb x) (λ _. Starts-for_each xs sb)

-- A broker for each element
pub Starts-for_each_one :
    {A : Type 0} (xs : List A) {body : A → M (Unit {0})}
    → ((x : A) → Starts 1 (body x))
    → Starts (length xs) (for_each xs body)
unfolding for_each started
Starts-for_each_one [] sb = Passes-pure tt refl
Starts-for_each_one (x ∷ xs) sb =
    Passes-mono (Starts-then (sb x) (Starts-for_each_one xs sb)) λ _ t p. omega (arith, p)

pub Starts-finally : {m f : M (Unit {0})} → Starts 0 m → Starts 0 f → Starts 0 (finally m f)
Starts-finally sm sf = Passes-mono (Runs-finally sm sf) λ _ t l.
    let (a, b, in_a, in_b, j) = parts l in rw j (started-append a b ∙ omega (arith, in_a, in_b))

pub Starts-connect : (p : ℕ) → Starts 0 (connect p)
unfolding connect started
Starts-connect p = Starts-bind (Passes-mono (Passes-create_connection p) λ s t j. rw j refl) λ s.
    Starts-bind (Passes-mono (Runs-settimeout s 5000) λ _ t l. rw (Exactly→eq l) refl)
      λ _. Starts-pure s

pub Starts-with_socket :
    (p : ℕ) {body : ℕ → M (Unit {0})}
    → ((s : ℕ) → Starts 0 (body s))
    → Starts 0 (with_socket p body)
unfolding with_socket
Starts-with_socket p sb = Starts-bind (Starts-connect p) λ s. Starts-finally (sb s) (Starts-close s)

pub Starts-with_broker :
    (executable : Text) (c : Config) {body : ℕ → M (Unit {0})}
    → ((p : ℕ) → Starts 0 (body p))
    → Starts 1 (with_broker executable c body)
Starts-with_broker executable c sb =
    Passes-mono (Runs-with_broker executable c sb) λ _ t l. one_process t l
  where
    one_process : (t : Trace) → Served executable c (λ _ u. started u ≡ 0) t → started t ≡ 1
    one_process t (served q p said body heard_it none j) =
        rw j (unfold started in omega (arith, started-append body (exited (pos 0) ∷ []), none))

pub ruleset start_rules = (
  Starts-with_broker, Starts-with_socket, Starts-bind, Starts-if, Starts-pure, Starts-raise,
  Starts-check, Starts-recv, Starts-sendall, Starts-close, Starts-sleep, Starts-index,
  Starts-read_packet, Starts-expect_packet, Starts-unordered, Starts-expect_hang_up,
  Starts-expect_quiet, Starts-connect_v5, Starts-connect_client, Starts-connect_persistent_v5,
  Starts-expect_success, Starts-expect_plain_success, Starts-for_each, Starts-finally,
  Starts-connect,
)
