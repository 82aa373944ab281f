-- ===== src/Vectors/Ends/Rules.antt =====
-- The ends of the operations of tools/interop/mqtt_mosquitto_vectors.py.
use netz.Base.{
  ℕ, ◌≢◌, refl, Bool, not, true, false, Option, none, some, List, [], ◌∷◌, Bytes, arith, ◌==◌,
  if◌then◌else◌,
}
use netz.Base.Strings.{occurs}
use netz.Vectors.World.{
  Text, Exception, Outcome, ok, raised, blocked, out_of_fuel, Env, M, except, handle, finally,
  settle, for_each, check, print,
}
use netz.Vectors.Socket.{
  sendall, settimeout, close, sleep, new_socket, bind, getsockname, create_connection, popen,
  readline, wait, terminate, read_output,
}
use netz.Vectors.Mosquitto.{MqttPackets}
use netz.Vectors.Harness.{
  expect_packet, or_unexpected, unordered_loop, expect_packets_unordered, recv_nothing, is_timeout,
  expect_quiet, is_hang_up, expect_hang_up,
}
use netz.Vectors.Broker.{
  free_port, Config, listening, enter, exit_status, exit, is_expired, leave, guarded, with_broker,
  connect, with_socket, connect_client, connect_v5, connect_persistent_v5, is_success,
  expect_success,
}
use netz.Vectors.Scenarios.FlowControl.{is_plain_success, expect_plain_success}
use netz.Vectors.Ends.{
  Ends, Ends-pure, Ends-raise, Ends-perform, Ends-if, Ends-bind, Ends-recv, Ends-index,
  Ends-read_packet,
}

pub Ends-test : {A : Type 0} {m n : M A} (b : Bool) → Ends m → Ends n → Ends (if b then m else n)
Ends-test b em en = Ends-if b (λ _. em) (λ _. en)

pub Ends-check : (wrong : Bool) (message : Text) → Ends (check wrong message)
unfolding check
Ends-check wrong message = Ends-test wrong (Ends-raise _) (Ends-pure tt)

pub Ends-print : (message : Text) → Ends (print message)
unfolding print
Ends-print message = record { at = λ e h. ground arith }

pub Ends-sendall : (s : ℕ) (p : Bytes) → Ends (sendall s p)
unfolding sendall
Ends-sendall s p = Ends-perform _

pub Ends-settimeout : (s ms : ℕ) → Ends (settimeout s ms)
unfolding settimeout
Ends-settimeout s ms = Ends-perform _

pub Ends-close : (s : ℕ) → Ends (close s)
unfolding close
Ends-close s = Ends-perform _

pub Ends-sleep : (ms : ℕ) → Ends (sleep ms)
unfolding sleep
Ends-sleep ms = Ends-perform _

pub Ends-create_connection : (p : ℕ) → Ends (create_connection p)
unfolding create_connection
Ends-create_connection p = Ends-perform _

pub Ends-popen : (command : List Text) → Ends (popen command)
unfolding popen
Ends-popen command = Ends-perform _

pub Ends-readline : Ends readline
unfolding readline
Ends-readline = Ends-perform _

pub Ends-wait : Ends wait
unfolding wait
Ends-wait = Ends-perform _

pub Ends-terminate : Ends terminate
unfolding terminate
Ends-terminate = Ends-perform _

pub Ends-read_output : Ends read_output
unfolding read_output
Ends-read_output = Ends-perform _

handle-Ends :
    {A : Type 0} (caught : Exception → Bool) (r : Outcome A) {h : M A} (e : Env)
    → r ≢ out_of_fuel
    → Ends h
    → (handle caught r h e).0 ≢ out_of_fuel
handle-Ends caught (ok a) e n eh = λ p. ground arith
handle-Ends caught (raised x) {h} e n eh = (Ends-test (caught x) eh (Ends-raise x)).at e
handle-Ends caught blocked e n eh = λ p. ground arith
handle-Ends caught out_of_fuel e n eh = absurd (n refl)

pub Ends-except :
    {A : Type 0} (caught : Exception → Bool) {m h : M A}
    → Ends m
    → Ends h
    → Ends (except caught m h)
unfolding except
Ends-except caught {m} em eh = record { at = λ e. handle-Ends caught (m e).0 (m e).2 (em.at e) eh }

settle-Ends :
    {A : Type 0} (r : Outcome A) {f : M (Unit {0})} (e : Env)
    → r ≢ out_of_fuel
    → Ends f
    → (settle r f e).0 ≢ out_of_fuel
settle-Ends (ok a) e n ef = (Ends-bind ef (λ _. Ends-pure a)).at e
settle-Ends (raised x) e n ef = (Ends-bind ef (λ _. Ends-raise x)).at e
settle-Ends blocked e n ef = λ p. ground arith
settle-Ends out_of_fuel e n ef = absurd (n refl)

pub Ends-finally : {A : Type 0} {m : M A} {f : M (Unit {0})} → Ends m → Ends f → Ends (finally m f)
unfolding finally
Ends-finally {m = m} em ef = record { at = λ e. settle-Ends (m e).0 (m e).2 (em.at e) ef }

pub Ends-free_port : Ends free_port
unfolding free_port new_socket bind getsockname
Ends-free_port =
    Ends-bind (Ends-perform _)
      λ s. Ends-finally (Ends-bind (Ends-perform _) λ _. Ends-perform _) (Ends-close s)

pub Ends-for_each :
    {A : Type 0} (xs : List A) {body : A → M (Unit {0})}
    → ((x : A) → Ends (body x))
    → Ends (for_each xs body)
unfolding for_each
Ends-for_each [] eb = Ends-pure tt
Ends-for_each (x ∷ xs) eb = Ends-bind (eb x) (λ _. Ends-for_each xs eb)

pub Ends-expect_packet : (s : ℕ) (p : Bytes) (label : Text) → Ends (expect_packet s p label)
unfolding expect_packet
Ends-expect_packet s p label = Ends-bind (Ends-read_packet s) λ actual. Ends-check _ _

Ends-or_unexpected : (o : Option (List Bytes)) (message : Text) → Ends (or_unexpected o message)
Ends-or_unexpected (some ps) message = Ends-pure ps
Ends-or_unexpected none message = Ends-raise _

Ends-unordered_loop :
    (s : ℕ) (rounds remaining : List Bytes) (label : Text)
    → Ends (unordered_loop s rounds remaining label)
unfolding unordered_loop
Ends-unordered_loop s [] remaining label = Ends-pure tt
Ends-unordered_loop s (r ∷ rounds) remaining label =
    Ends-bind (Ends-read_packet s)
      λ actual. Ends-bind (Ends-or_unexpected _ _) λ left. Ends-unordered_loop s rounds left label

pub Ends-expect_packets_unordered :
    (s : ℕ) (ps : List Bytes) (label : Text) → Ends (expect_packets_unordered s ps label)
unfolding expect_packets_unordered
Ends-expect_packets_unordered s ps label = Ends-unordered_loop s ps ps label

Ends-recv_nothing :
    (caught : Exception → Bool) (s : ℕ) (message : Text) → Ends (recv_nothing caught s message)
unfolding recv_nothing
Ends-recv_nothing caught s message =
    Ends-except caught (Ends-bind (Ends-recv s 1) λ early. Ends-check _ _) (Ends-pure tt)

pub Ends-expect_quiet : (s : ℕ) (message : Text) → Ends (expect_quiet s message)
unfolding expect_quiet
Ends-expect_quiet s message =
    Ends-bind (Ends-settimeout s 50)
      λ _. Ends-finally (Ends-recv_nothing is_timeout s message) (Ends-settimeout s 5000)

pub Ends-expect_hang_up : (s : ℕ) (message : Text) → Ends (expect_hang_up s message)
unfolding expect_hang_up
Ends-expect_hang_up s message = Ends-recv_nothing is_hang_up s message

Ends-enter : (executable : Text) (c : Config) (p : ℕ) → Ends (enter executable c p)
unfolding enter
Ends-enter executable c p = Ends-bind (Ends-popen _) λ _.
    Ends-bind Ends-readline
      λ said. Ends-test (not (occurs listening said)) (Ends-raise _) (Ends-pure tt)

Ends-exit : (failed : Bool) → Ends (exit failed)
unfolding exit exit_status
Ends-exit failed =
    Ends-bind
      (Ends-except is_expired Ends-wait (
        Ends-bind Ends-terminate
          λ _. Ends-bind Ends-wait λ code. Ends-test failed (Ends-pure code) (Ends-raise _)))
      λ code. Ends-test _ (Ends-bind Ends-read_output λ rest. Ends-raise _) (Ends-pure tt)

leave-Ends : (r : Outcome (Unit {0})) (e : Env) → r ≢ out_of_fuel → (leave r e).0 ≢ out_of_fuel
leave-Ends (ok _) e n = (Ends-exit false).at e
leave-Ends (raised x) e n = (Ends-bind (Ends-exit true) (λ _. Ends-raise x)).at e
leave-Ends blocked e n = λ p. ground arith
leave-Ends out_of_fuel e n = absurd (n refl)

pub Ends-with_broker :
    (executable : Text) (c : Config) {body : ℕ → M (Unit {0})}
    → ((p : ℕ) → Ends (body p))
    → Ends (with_broker executable c body)
unfolding with_broker guarded
Ends-with_broker executable c {body} eb = Ends-bind Ends-free_port λ p.
    Ends-bind (Ends-enter executable c p)
      λ _. record { at = λ e. leave-Ends (body p e).0 (body p e).2 ((eb p).at e) }

pub Ends-connect : (p : ℕ) → Ends (connect p)
unfolding connect
Ends-connect p =
    Ends-bind (Ends-create_connection p) λ s. Ends-bind (Ends-settimeout s 5000) λ _. Ends-pure s

pub Ends-with_socket :
    (p : ℕ) {body : ℕ → M (Unit {0})} → ((s : ℕ) → Ends (body s)) → Ends (with_socket p body)
unfolding with_socket
Ends-with_socket p eb = Ends-bind (Ends-connect p) λ s. Ends-finally (eb s) (Ends-close s)

module _ (mqtt_packets : MqttPackets) (s : ℕ) (client_id : Text) where
  pub Ends-connect_client :
      (proto_ver : ℕ) → Ends (connect_client mqtt_packets s client_id proto_ver)
  unfolding connect_client
  Ends-connect_client proto_ver =
      Ends-bind (Ends-sendall s _) λ _. Ends-bind (Ends-read_packet s) λ connack. Ends-check _ _

  pub Ends-connect_v5 : Ends (connect_v5 mqtt_packets s client_id)
  unfolding connect_v5
  Ends-connect_v5 = Ends-connect_client 5

  pub Ends-connect_persistent_v5 :
      (present : Bool) → Ends (connect_persistent_v5 mqtt_packets s client_id present)
  unfolding connect_persistent_v5
  Ends-connect_persistent_v5 present =
      Ends-bind (Ends-sendall s _) λ _. Ends-bind (Ends-read_packet s) λ connack. Ends-check _ _

pub Ends-expect_success : (s : ℕ) (label : Text) → Ends (expect_success s label)
unfolding expect_success is_success
Ends-expect_success s label = Ends-bind (Ends-read_packet s) λ connack.
    Ends-bind
      (Ends-bind (Ends-index connack 0) λ kind.
        Ends-test (kind == 0x20) (Ends-bind (Ends-index connack 3) λ reason. Ends-pure _)
          (Ends-pure false))
      λ good. Ends-check _ _

pub Ends-expect_plain_success : (s : ℕ) (label : Text) → Ends (expect_plain_success s label)
unfolding expect_plain_success is_plain_success
Ends-expect_plain_success s label = Ends-bind (Ends-read_packet s) λ connack.
    Ends-bind (Ends-bind (Ends-index connack 0) λ kind. Ends-pure _) λ good. Ends-check _ _

pub ruleset end_rules = (
  Ends-with_broker, Ends-with_socket, Ends-bind, Ends-test, Ends-pure, Ends-raise, Ends-check,
  Ends-recv, Ends-sendall, Ends-close, Ends-sleep, Ends-index, Ends-read_packet, Ends-expect_packet,
  Ends-expect_packets_unordered, Ends-expect_hang_up, Ends-expect_quiet, Ends-connect_v5,
  Ends-connect_client, Ends-connect_persistent_v5, Ends-expect_success, Ends-expect_plain_success,
  Ends-for_each, Ends-finally, Ends-connect, Ends-print,
)
