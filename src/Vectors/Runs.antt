-- ===== src/Vectors/Runs.antt =====
-- What a run that returns has left in the trace: a rule for each way in which the vectors of
-- tools/interop/mqtt_mosquitto_vectors.py are built.
pub mod Handlers
pub mod Sockets
pub mod Unordered
pub mod Brokers
pub mod Chunks
pub mod Packets
pub mod Connects
use netz.Base.{
  Bool, true, false, ◌≡◌, refl, sym, ap, ◌∙◌, ◌⊎◌, inl, inr, Option, none, some, List, [], ◌∷◌,
  ◌++◌, arith, append-nil, append_assoc, subst, if◌then◌else◌, Bool-cases,
}
use mathlib.Core.Path.{subst₂}
use netz.Vectors.World.{
  Text, Exception, Outcome, ok, raised, blocked, out_of_fuel, Answer, Reply, gives, fails, Env,
  Event, failed, Trace, M, pure, raise, run_out, answered, prepend, continue, perform, handle,
  except, settle, finally, for_each, check, ◌>>=◌, ◌>>◌,
}

-- In every environment in which `m` returns, the value and the trace are in `Q`.
pub record Passes {A : Type 0} (m : M A) (Q : A → Trace → Type 0) : Type 0 where
  pub at : (e e' : Env) (a : A) (t : Trace) → m e ≡ (ok a, t, e') → Q a t

-- A run of a block that returns is a run of its first part and one of the rest.
module _ {A B : Type 0} where
  split_outcome :
      (r : Outcome A) (t : Trace) (e' : Env) (f : A → M B) {b : B} {u : Trace} {e'' : Env}
      → prepend t (continue r f e') ≡ (ok b, u, e'')
      → (a : A) × (v : Trace) × (r ≡ ok a) × (f a e' ≡ (ok b, v, e'')) × (u ≡ t ++ v)
  split_outcome (ok a) t e' f {b} {u} {e''} h = (a, (f a e').1, refl, ground arith, ground arith)
  split_outcome (raised x) t e' f h = absurd (ground arith)
  split_outcome blocked t e' f h = absurd (ground arith)
  split_outcome out_of_fuel t e' f h = absurd (ground arith)

  pub Passes-bind :
      {P : A → Trace → Type 0} {Q : B → Trace → Type 0} {m : M A} {f : A → M B}
      → Passes m P
      → ((a : A) (t : Trace) → P a t → Passes (f a) (λ b u. Q b (t ++ u)))
      → Passes (m >>= f) Q
  unfolding ◌>>=◌
  Passes-bind {P} {Q} {m} {f} pm pf = record {
    at = λ e e'' b u h.
        let (a, v, ra, fa, ut) = split_outcome (m e).0 (m e).1 (m e).2 f h in
        subst (Q b) (sym ut)
          ((pf a (m e).1 (pm.at e (m e).2 a (m e).1 (whole e a ra))).at (m e).2 e'' b v fa);
  }
    where
      whole : (e : Env) (a : A) → (m e).0 ≡ ok a → m e ≡ (ok a, (m e).1, (m e).2)
      whole e a h = λ i. (h i, (m e).1, (m e).2)

module _ {A : Type 0} where
  pub Passes-pure : {Q : A → Trace → Type 0} (a : A) → Q a [] → Passes (pure a) Q
  unfolding pure
  Passes-pure {Q} a q = record { at = λ e e' b t h. subst₂ Q (ground arith) (ground arith) q }

  pub Passes-raise : {Q : A → Trace → Type 0} (x : Exception) → Passes (raise x) Q
  unfolding raise
  Passes-raise x = record { at = λ e e' b t h. absurd (ground arith) }

  pub Passes-any : (m : M A) → Passes m (λ _ _. Unit {0})
  Passes-any m = record { at = λ e e' a t h. tt }

  pub Passes-both :
      {P Q : A → Trace → Type 0} {m : M A}
      → Passes m P
      → Passes m Q
      → Passes m (λ a t. P a t × Q a t)
  Passes-both p q = record { at = λ e e' a t h. (p.at e e' a t h, q.at e e' a t h) }

  pub Passes-run_out : {Q : A → Trace → Type 0} → Passes (run_out {A = A}) Q
  unfolding run_out
  Passes-run_out = record { at = λ e e' b t h. absurd (ground arith) }

  pub Passes-if :
      {Q : A → Trace → Type 0} (b : Bool) {m n : M A}
      → (b ≡ true → Passes m Q)
      → (b ≡ false → Passes n Q)
      → Passes (if b then m else n) Q
  Passes-if true pm pn = pm refl
  Passes-if false pm pn = pn refl

  pub Passes-mono :
      {P Q : A → Trace → Type 0} {m : M A}
      → Passes m P
      → ((a : A) (t : Trace) → P a t → Q a t)
      → Passes m Q
  Passes-mono pm f = record { at = λ e e' a t h. f a t (pm.at e e' a t h) }

  returned :
      (f : Answer → Option (A × Trace)) (x : Answer) (o : Option (A × Trace)) (e e' : Env) {a : A}
      {t : Trace}
      → f x ≡ o
      → answered o e ≡ (ok a, t, e')
      → f x ≡ some (a, t)
  returned f x none e e' p h = absurd (ground arith)
  returned f x (some (b, u)) e e' {a} {t} p h = p ∙ λ i. some (ok_value h i, (h i).1)
    where
      ok_value : answered (some (b, u)) e ≡ (ok a, t, e') → b ≡ a
      ok_value k = cc

  perform_cases :
      (f : Answer → Option (A × Trace)) (e e' : Env) {a : A} {t : Trace}
      → perform f e ≡ (ok a, t, e')
      → (x : Answer) × (f x ≡ some (a, t))
  unfolding perform
  perform_cases f [] e' h = absurd (ground arith)
  perform_cases f (fails x ∷ e) e' h = absurd (ground arith)
  perform_cases f (gives x ∷ e) e' h = (x, returned f x (f x) e e' refl h)

  pub Passes-perform :
      {Q : A → Trace → Type 0} (f : Answer → Option (A × Trace))
      → ((x : Answer) (a : A) (t : Trace) → f x ≡ some (a, t) → Q a t)
      → Passes (perform f) Q
  unfolding perform
  Passes-perform f q = record {
    at = λ e e' a t h. let (x, p) = perform_cases f e e' h in q x a t p;
  }

-- A set of traces.
abbrev pub Lang : Type 0 → Type 1
Lang A = A → Trace → Type 0

abbrev pub Runs : M (Unit {0}) → (Trace → Type 0) → Type 0
Runs m L = Passes m (λ _ t. L t)

-- One trace, one after the other, and either.
pub data Exactly (u : Trace) : Trace → Type 0 where
  exactly : {t : Trace} → t ≡ u → Exactly u t

pub Exactly→eq : {u t : Trace} → Exactly u t → t ≡ u
Exactly→eq (exactly p) = p

infixr 20 ◌⨾◌
pub data ◌⨾◌ (L K : Trace → Type 0) : Trace → Type 0 where
  joined : {t : Trace} (a b : Trace) → L a → K b → t ≡ a ++ b → (L ⨾ K) t

pub parts :
    {L K : Trace → Type 0} {t : Trace}
    → (L ⨾ K) t
    → (a : Trace) × (b : Trace) × L a × K b × (t ≡ a ++ b)
parts (joined a b l k p) = (a, b, l, k, p)

pub data Some {A : Type 0} (L : A → Trace → Type 0) : Trace → Type 0 where
  here : {t : Trace} (a : A) → L a t → Some L t

infixr 20 ◌▸◌
pub ◌▸◌ : {L K : Trace → Type 0} {m n : M (Unit {0})} → Runs m L → Runs n K → Runs (m >> n) (L ⨾ K)
rm ▸ rn = Passes-bind rm (λ _ t l. Passes-mono rn (λ _ u k. joined t u l k refl))

-- A block whose first part returns a value, which the rest uses.
pub Runs-bind :
    {A : Type 0} {L : A → Trace → Type 0} {K : A → Trace → Type 0} {m : M A} {f : A → M (Unit {0})}
    → Passes m L
    → ((a : A) → Runs (f a) (K a))
    → Runs (m >>= f) (Some (λ a. L a ⨾ K a))
Runs-bind pm pf =
    Passes-bind pm (λ a t l. Passes-mono (pf a) (λ _ u k. here a (joined t u l k refl)))

pub Runs-check :
    (wrong : Bool) (message : Text) → Runs (check wrong message) (λ t. (t ≡ []) × (wrong ≡ false))
unfolding check
Runs-check true message = Passes-raise _
Runs-check false message = Passes-pure tt (refl, refl)

-- One pass through a loop for each element.
pub data Each {A : Type 0} (L : A → Trace → Type 0) : List A → Trace → Type 0 where
  none_left : {xs : List A} {t : Trace} → xs ≡ [] → t ≡ [] → Each L xs t
  one :
      {xs : List A} {t : Trace} (x : A) (ys : List A) (a b : Trace)
      → xs ≡ x ∷ ys
      → L x a
      → Each L ys b
      → t ≡ a ++ b
      → Each L xs t

pub Runs-for_each :
    {A : Type 0} (L : A → Trace → Type 0) {body : A → M (Unit {0})}
    → ((x : A) → Runs (body x) (L x))
    → (xs : List A) → Runs (for_each xs body) (Each L xs)
unfolding for_each
Runs-for_each L rb [] = Passes-pure tt (none_left refl refl)
Runs-for_each L rb (x ∷ xs) =
    Passes-bind (rb x)
      (λ _ t l. Passes-mono (Runs-for_each L rb xs) (λ _ u k. one x xs t u refl l k refl))
