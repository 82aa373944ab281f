-- ===== src/Vectors/Ends.antt =====
-- The ends of the loops of tools/interop/mqtt_mosquitto_vectors.py: runs that do not stop for lack
-- of fuel.
pub mod Rules
pub mod Scenarios
pub mod Main
use netz.Base.{
  ℕ, zero, suc, ◌+◌, ◌*◌, ◌≤◌, ◌<◌, ◌≡◌, ◌≢◌, refl, Bool, true, false, Option, none, some, [], ◌∷◌,
  ◌++◌, Bytes, length, length-append, get_elem?, ltb, ◌==◌, bit_and, arith, if◌then◌else◌,
}
use netz.Vectors.World.{
  Exception, Outcome, ok, raised, blocked, out_of_fuel, Answer, gives, fails, Env, Trace, M, pure,
  raise, answered, continue, perform, ◌>>=◌,
}
use netz.Vectors.Socket.{recv}
use netz.Vectors.Harness.{recv_loop, recv_exact, or_index_error, index, length_loop, read_packet}

-- In no environment does the run stop for lack of fuel.
pub record Ends {A : Type 0} (m : M A) : Type 0 where
  pub at : (e : Env) → (m e).0 ≢ out_of_fuel

module _ {A : Type 0} where
  pub Ends-pure : (a : A) → Ends (pure a)
  unfolding pure
  Ends-pure a = record { at = λ e h. ground arith }

  pub Ends-raise : (x : Exception) → Ends {A = A} (raise x)
  unfolding raise
  Ends-raise x = record { at = λ e h. ground arith }

  ends_answered : (o : Option (A × Trace)) (e : Env) → (answered o e).0 ≢ out_of_fuel
  ends_answered none e h = ground arith
  ends_answered (some r) e h = ground arith

  pub Ends-perform : (f : Answer → Option (A × Trace)) → Ends (perform f)
  unfolding perform
  Ends-perform f = record { at = ends }
    where
      ends : (e : Env) → (perform f e).0 ≢ out_of_fuel
      ends [] h = ground arith
      ends (fails x ∷ e) h = ground arith
      ends (gives a ∷ e) h = ends_answered (f a) e h

  pub Ends-if :
      {x y : M A} (b : Bool)
      → (b ≡ true → Ends x)
      → (b ≡ false → Ends y)
      → Ends (if b then x else y)
  Ends-if true p q = p refl
  Ends-if false p q = q refl

module _ {A B : Type 0} where
  continue-Ends :
      (r : Outcome A) (e : Env) (f : A → M B)
      → r ≢ out_of_fuel
      → ((a : A) → Ends (f a))
      → (continue r f e).0 ≢ out_of_fuel
  continue-Ends (ok a) e f n k = (k a).at e
  continue-Ends (raised x) e f n k = λ h. ground arith
  continue-Ends blocked e f n k = λ h. ground arith
  continue-Ends out_of_fuel e f n k = absurd (n refl)

  pub Ends-bind : {m : M A} {f : A → M B} → Ends m → ((a : A) → Ends (f a)) → Ends (m >>= f)
  unfolding ◌>>=◌
  Ends-bind {m} {f} n k = record { at = λ e. continue-Ends (m e).0 (m e).2 f (n.at e) k }

pub Ends-recv : (s n : ℕ) → Ends (recv s n)
unfolding recv
Ends-recv s n = Ends-perform _

Ends-recv_loop :
    (fuel s count : ℕ) (result : Bytes)
    → count ≤ length result + fuel
    → Ends (recv_loop fuel s count result)
unfolding recv_loop
Ends-recv_loop zero s count result enough =
    Ends-if (ltb (length result) count) (λ short. absurd (ground arith)) (λ _. Ends-pure result)
Ends-recv_loop (suc fuel) s count result enough =
    Ends-if (ltb (length result) count)
      (λ _. Ends-bind (Ends-recv s _) λ part.
        Ends-if (length part == 0) (λ _. Ends-raise _)
          λ some_part.
            Ends-recv_loop fuel s count (result ++ part)
              (ground (arith, length-append result part)))
      (λ _. Ends-pure result)

pub Ends-recv_exact : (s count : ℕ) → Ends (recv_exact s count)
unfolding recv_exact
Ends-recv_exact s count = Ends-recv_loop count s count [] (omega arith)

pub Ends-index : (xs : Bytes) (i : ℕ) → Ends (index xs i)
unfolding index
Ends-index xs i = at (get_elem? xs i)
  where
    at : (o : Option ℕ) → Ends (or_index_error o)
    at (some x) = Ends-pure x
    at none = Ends-raise _

-- With `k` rounds to come after this one, the test on the multiplier stops the last.
abbrev Enough : ℕ → ℕ → Type 0
Enough zero multiplier = 128 * 128 * 128 < multiplier * 128
Enough (suc k) multiplier = Enough k (multiplier * 128)

Ends-length_loop :
    (k s : ℕ) (read : Bytes) (multiplier remaining : ℕ)
    → Enough k multiplier
    → Ends (length_loop (suc k) s read multiplier remaining)
unfolding length_loop
Ends-length_loop zero s read multiplier remaining enough =
    Ends-bind (Ends-bind (Ends-recv_exact s 1) λ one. Ends-index one 0) λ encoded.
      Ends-if (bit_and encoded 0x80 == 0) (λ _. Ends-pure _)
        λ _.
          Ends-if (ltb (128 * 128 * 128) (multiplier * 128)) (λ _. Ends-raise _)
            λ short. absurd (ground arith)
Ends-length_loop (suc k) s read multiplier remaining enough =
    Ends-bind (Ends-bind (Ends-recv_exact s 1) λ one. Ends-index one 0) λ encoded.
      Ends-if (bit_and encoded 0x80 == 0) (λ _. Ends-pure _)
        λ _.
          Ends-if (ltb (128 * 128 * 128) (multiplier * 128)) (λ _. Ends-raise _)
            λ _. Ends-length_loop k s _ (multiplier * 128) _ enough

-- Whatever the environment answers, `read_packet` returns, raises or waits for an answer.
pub Ends-read_packet : (s : ℕ) → Ends (read_packet s)
unfolding read_packet
Ends-read_packet s = Ends-bind (Ends-recv_exact s 1) λ fixed.
    Ends-bind (Ends-length_loop 3 s [] 1 0 (omega arith))
      λ read. Ends-bind (Ends-recv_exact s read.1) λ body. Ends-pure _
