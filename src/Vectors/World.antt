-- ===== src/Vectors/World.antt =====
-- What a vector of tools/interop/mqtt_mosquitto_vectors.py sees of its environment: the standard
-- library's sockets and subprocesses, and Python's exceptions.
--
-- The environment, broker included, is the list of its answers to the operations in the order in
-- which they are made. Every list is an environment, so a statement about all lists holds of every
-- broker. What a run does is its trace.
use Prim.Native.Nat.{ℕ}
use netz.Base.{String, ℤ, Bool, Option, none, some, List, [], ◌∷◌, ◌++◌, Bytes, if◌then◌else◌}

-- A Python `str`, an f-string before its parts are rendered.
pub data Part : Type 0 where
  text : String → Part
  number : ℕ → Part
  flag : Bool → Part
  integer : ℤ → Part
  hex repr characters : Bytes → Part

abbrev pub Text : Type 0
Text = List Part

abbrev pub txt : String → Text
txt s = text s ∷ []

pub data Exception : Type 0 where
  assertion_error runtime_error : Text → Exception
  index_error unicode_error : Exception
  socket_timeout connection_reset broken_pipe os_error : Exception
  timeout_expired : Exception

-- `blocked`: an operation has no answer, or one of another kind. `out_of_fuel` is no Python value:
-- a loop of the model stopped before the loop of the source.
pub data Outcome (A : Type 0) : Type 0 where
  ok : A → Outcome A
  raised : Exception → Outcome A
  blocked out_of_fuel : Outcome A

pub data Answer : Type 0 where
  port socket : ℕ → Answer
  exit_code : ℤ → Answer
  line : Bytes → Answer
  output : Text → Answer
  bytes : Bytes → Answer
  done : Answer

pub data Reply : Type 0 where
  gives : Answer → Reply
  fails : Exception → Reply

abbrev pub Env : Type 0
Env = List Reply

pub data Event : Type 0 where
  opened bound probed : ℕ → Event
  spawned : List Text → Event
  announced : Bytes → Event
  connected : ℕ → ℕ → Event
  sent : ℕ → Bytes → Event
  got : ℕ → ℕ → Event
  eof : ℕ → Event
  timeout_set : ℕ → ℕ → Event
  slept : ℕ → Event
  closed : ℕ → Event
  exited : ℤ → Event
  terminated : Event
  failed : Exception → Event
  printed : Text → Event

abbrev pub Trace : Type 0
Trace = List Event

abbrev pub M : Type 0 → Type 0
M A = Env → Outcome A × Trace × Env

module _ {A : Type 0} where
  unfoldable pub pure : A → M A
  pure a e = (ok a, [], e)

  unfoldable pub raise : Exception → M A
  raise x e = (raised x, [], e)

  unfoldable pub run_out : M A
  run_out e = (out_of_fuel, [], e)

  abbrev pub prepend : Trace → Outcome A × Trace × Env → Outcome A × Trace × Env
  prepend t (r, u, e) = (r, t ++ u, e)

  abbrev pub answered : Option (A × Trace) → M A
  answered none e = (blocked, [], e)
  answered (some (a, t)) e = (ok a, t, e)

  -- One operation: the next answer, read by what the operation expects.
  unfoldable pub perform : (Answer → Option (A × Trace)) → M A
  perform f [] = (blocked, [], [])
  perform f (fails x ∷ e) = (raised x, failed x ∷ [], e)
  perform f (gives a ∷ e) = answered (f a) e

-- `print`, which needs no answer
unfoldable pub print : Text → M (Unit {0})
print message e = (ok tt, printed message ∷ [], e)

module _ {A B : Type 0} where
  abbrev pub continue : Outcome A → (A → M B) → M B
  continue (ok a) f e = f a e
  continue (raised x) f e = (raised x, [], e)
  continue blocked f e = (blocked, [], e)
  continue out_of_fuel f e = (out_of_fuel, [], e)

  infixr 5 ◌>>=◌ ◌>>◌
  unfoldable pub ◌>>=◌ : M A → (A → M B) → M B
  ◌>>=◌ m f e = let (r, t, e') = m e in prepend t (continue r f e')

  abbrev pub ◌>>◌ : M A → M B → M B
  m >> n = m >>= λ _. n

-- `try: m` `except: h`, for the exceptions that `caught` names.
abbrev pub handle : {A : Type 0} → (Exception → Bool) → Outcome A → M A → M A
handle caught (ok a) h e = (ok a, [], e)
handle caught (raised x) h e = (if caught x then h else raise x) e
handle caught blocked h e = (blocked, [], e)
handle caught out_of_fuel h e = (out_of_fuel, [], e)

unfoldable pub except : {A : Type 0} → (Exception → Bool) → M A → M A → M A
unfolding raise
except caught m h e = let (r, t, e') = m e in prepend t (handle caught r h e')

-- `try: m` `finally: f`: `f` runs after `m` however it ended, and an exception of `f` prevails.
abbrev pub settle : {A : Type 0} → Outcome A → M (Unit {0}) → M A
settle (ok a) f e = (f >> pure a) e
settle (raised x) f e = (f >> raise x) e
settle blocked f e = (blocked, [], e)
settle out_of_fuel f e = (out_of_fuel, [], e)

unfoldable pub finally : {A : Type 0} → M A → M (Unit {0}) → M A
unfolding pure raise ◌>>=◌
finally m f e = let (r, t, e') = m e in prepend t (settle r f e')

-- `for x in xs: body`
module _ {A : Type 0} where
  unfoldable pub for_each : List A → (A → M (Unit {0})) → M (Unit {0})
  unfolding pure
  for_each [] body = pure tt
  for_each (x ∷ xs) body = body x >> for_each xs body

unfoldable pub check : Bool → Text → M (Unit {0})
unfolding pure raise
check wrong message = if wrong then raise (assertion_error message) else pure tt
