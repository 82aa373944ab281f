-- ===== src/Vectors/Failures/Brokers.antt =====
-- How `with NetzBroker(...) as broker` of tools/interop/mqtt_mosquitto_vectors.py raises.
use netz.Base.{ℕ, ◌≡◌, refl, false, not, [], ◌∷◌, ◌++◌, Bytes, arith}
use netz.Base.Strings.{occurs, strip}
use netz.Base.Strings.Laws.{between-occurs}
use netz.Vectors.World.{
  Text, text, characters, Exception, runtime_error, opened, bound, probed, closed, spawned,
  announced, failed, Trace, M,
}
use netz.Vectors.Socket.{popen, readline}
use netz.Vectors.Broker.{Config, command, listening, enter, with_broker}
use netz.Vectors.Runs.{Runs, Exactly→eq}
use netz.Vectors.Runs.Sockets.{Runs-popen, Passes-readline}
use netz.Vectors.Runs.Brokers.{HasListening, Passes-free_port, Passes-enter}
use netz.Vectors.Failures.{
  Fails, Fails-pure, Fails-raise, Fails-mono, Fails-if, Fails-perform, Fails-bind,
}
use netz.Vectors.Failures.Sockets.{PortFails, Fails-free_port}
use netz.Vectors.Failures.Exits.{ProcessFails, Fails-guarded}

-- Before the body: the process was not started, its line was not read, or the line has no "listening"
-- in it, after which the process is left as it is.
pub data StartFails (executable : Text) (c : Config) (p : ℕ) (x : Exception) : Trace → Type 0 where
  unspawned : {t : Trace} → t ≡ failed x ∷ [] → StartFails executable c p x t
  unread :
      {t : Trace}
      → t ≡ spawned (command executable c p) ∷ failed x ∷ []
      → StartFails executable c p x t
  silent :
      {t : Trace} (line : Bytes)
      → ¬ (HasListening line)
      → x ≡ runtime_error (text "netz broker failed to start: " ∷ characters (strip line) ∷ [])
      → t ≡ spawned (command executable c p) ∷ announced line ∷ []
      → StartFails executable c p x t

-- The socket by which a port was found, which is closed again
abbrev pub found : ℕ → ℕ → Trace
found q p = opened q ∷ bound q ∷ probed p ∷ closed q ∷ []

pub data BrokerFails (executable : Text) (c : Config) (L : ℕ → Trace → Type 0)
    (F : ℕ → Exception → Trace → Type 0) (x : Exception) : Trace → Type 0 where
  no_port : {t : Trace} → PortFails x t → BrokerFails executable c L F x t
  start_fails :
      {t : Trace} (q p : ℕ) (start : Trace)
      → StartFails executable c p x start
      → t ≡ found q p ++ start
      → BrokerFails executable c L F x t
  process_fails :
      {t : Trace} (q p : ℕ) (line : Bytes) (rest : Trace)
      → HasListening line
      → ProcessFails (L p) (F p) x rest
      → t ≡ found q p ++ (spawned (command executable c p) ∷ announced line ∷ rest)
      → BrokerFails executable c L F x t

lacks : (line : Bytes) → occurs listening line ≡ false → ¬ (HasListening line)
lacks line absent (before, after, whole) =
    absurd (ground (arith, between-occurs listening before after, rw whole at absent))

Fails-enter :
    (executable : Text) (c : Config) (p : ℕ)
    → Fails (enter executable c p) (StartFails executable c p)
unfolding enter popen readline
Fails-enter executable c p =
    Fails-bind (Runs-popen _) (Fails-perform _) (λ x t j. unspawned j)
      λ _ t k.
        Fails-bind Passes-readline (Fails-perform _) (λ x u j. unread (rw (Exactly→eq k, j) refl))
          λ line u j.
            Fails-if (not (occurs listening line))
              (λ absent.
                Fails-raise _
                  (silent line (lacks line (ground arith)) refl (rw (Exactly→eq k, j) refl)))
              (λ _. Fails-pure tt)

-- If every run of the body that returns is in `L` and every run of it that raises is in `F`, every run
-- of `with NetzBroker(...)` that raises has done one of these. An operation of `free_port` raised, and
-- its socket was closed if there was one, unless the close raised. The process was not started, or its
-- line was not read: that exception. The line did not have the word "listening" in it: a RuntimeError
-- with the stripped line, and the process is neither terminated nor waited for. The body raised: that
-- exception goes on after the process was waited for, and terminated first if it was still there,
-- unless an operation of the waiting raised another. The body returned: the process was still there
-- and was terminated, or its status was not 0, a RuntimeError in both cases, or an operation of
-- `__exit__` raised.
pub Fails-with_broker :
    (executable : Text) (c : Config) {L : ℕ → Trace → Type 0} {F : ℕ → Exception → Trace → Type 0}
    {body : ℕ → M (Unit {0})}
    → ((p : ℕ) → Runs (body p) (L p))
    → ((p : ℕ) → Fails (body p) (F p))
    → Fails (with_broker executable c body) (BrokerFails executable c L F)
unfolding with_broker
Fails-with_broker executable c rb fb =
    Fails-bind Passes-free_port Fails-free_port (λ x t j. no_port j)
      λ p t (q, f).
        Fails-bind (Passes-enter executable c p) (Fails-enter executable c p)
          (λ x u s. start_fails q p u s (rw f refl))
          λ _ u (line, heard_it, k).
            Fails-mono (Fails-guarded (rb p) (fb p))
              λ x v g. process_fails q p line v heard_it g (rw (f, k) refl)
