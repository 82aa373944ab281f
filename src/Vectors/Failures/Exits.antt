-- ===== src/Vectors/Failures/Exits.antt =====
-- How `__exit__` of `class NetzBroker` of tools/interop/mqtt_mosquitto_vectors.py ends, after a body that
-- returned and after one that raised.
use netz.Base.{
  ℤ, pos, is_zero, ◌≡◌, ◌≢◌, refl, sym, ap, Bool, true, false, not, ◌&&◌, [], ◌∷◌, ◌++◌, append-nil,
  subst, arith, if◌then◌else◌,
}
use netz.Vectors.World.{
  Text, text, integer, txt, Exception, runtime_error, timeout_expired, Outcome, ok, raised, blocked,
  out_of_fuel, Env, exited, terminated, failed, Trace, M, pure, raise, prepend, except, ◌>>=◌, ◌>>◌,
}
use netz.Vectors.Socket.{wait, terminate, read_output}
use netz.Vectors.Broker.{is_expired, exit_status, exit, leave, guarded}
use netz.Vectors.Runs.{
  Passes, Runs, Passes-pure, Passes-raise, Passes-bind, Passes-mono, Passes-perform,
}
use netz.Vectors.Runs.Sockets.{Passes-wait}
use netz.Vectors.Failures.{
  Fails, prepended_outcome, outcome_of, Fails-pure, Fails-raise, Fails-mono, Fails-if,
  Fails-perform, Fails-bind, Fails-except, Passes-caught,
}

-- The process was waited for; one that was still there after the wait was terminated.
pub data Waited : ℤ → Trace → Type 0 where
  by_itself : {t : Trace} {code : ℤ} → t ≡ exited code ∷ [] → Waited code t
  stopped :
      {t : Trace} {code : ℤ}
      → t ≡ failed timeout_expired ∷ terminated ∷ exited code ∷ []
      → Waited code t

-- An operation by which the process is waited for raised `x`.
pub data WaitFails (x : Exception) : Trace → Type 0 where
  first_wait : {t : Trace} → x ≢ timeout_expired → t ≡ failed x ∷ [] → WaitFails x t
  termination : {t : Trace} → t ≡ failed timeout_expired ∷ failed x ∷ [] → WaitFails x t
  second_wait :
      {t : Trace} → t ≡ failed timeout_expired ∷ terminated ∷ failed x ∷ [] → WaitFails x t

-- After a body that has returned: what `__exit__` raises and leaves
pub data ExitFails (x : Exception) : Trace → Type 0 where
  not_waited : {t : Trace} → WaitFails x t → ExitFails x t
  still_running :
      {t : Trace} (code : ℤ)
      → x ≡ runtime_error (txt "netz broker did not exit after DISCONNECT")
      → t ≡ failed timeout_expired ∷ terminated ∷ exited code ∷ []
      → ExitFails x t
  bad_status :
      {t : Trace} (code : ℤ) (rest : Text)
      → code ≢ pos 0
      → x ≡ runtime_error (text "netz broker exited " ∷ integer code ∷ text ": " ∷ rest)
      → t ≡ exited code ∷ []
      → ExitFails x t
  unread_status :
      {t : Trace} (code : ℤ) → code ≢ pos 0 → t ≡ exited code ∷ failed x ∷ [] → ExitFails x t

-- After the start of the process, `L` and `F` being the traces of the body that returns and raises
pub data ProcessFails (L : Trace → Type 0) (F : Exception → Trace → Type 0) (x : Exception)
    : Trace → Type 0 where
  body_raised :
      {t : Trace} (body last : Trace) (code : ℤ)
      → F x body
      → Waited code last
      → t ≡ body ++ last
      → ProcessFails L F x t
  wait_raised :
      {t : Trace} (y : Exception) (body last : Trace)
      → F y body
      → WaitFails x last
      → t ≡ body ++ last
      → ProcessFails L F x t
  exit_raised :
      {t : Trace} (body last : Trace)
      → L body
      → ExitFails x last
      → t ≡ body ++ last
      → ProcessFails L F x t

is_expired-eq : (x : Exception) → is_expired x ≡ true → x ≡ timeout_expired
is_expired-eq timeout_expired h = refl
is_expired-eq _ h = absurd (ground arith)

not_expired : (x : Exception) → is_expired x ≡ false → x ≢ timeout_expired
not_expired x h e = absurd (ground (arith, ap is_expired e))

Runs-terminate : Runs terminate (λ t. t ≡ terminated ∷ [])
unfolding terminate
Runs-terminate = Passes-perform _ λ x r t h. ground arith

Passes-read_output : Passes read_output (λ _ t. t ≡ [])
unfolding read_output
Passes-read_output = Passes-perform _ λ x r t h. ground arith

nonzero : (code : ℤ) → is_zero code ≡ false → code ≢ pos 0
nonzero code h e = absurd (ground (arith, ap is_zero e))

Fails-wait : Fails wait (λ x t. t ≡ failed x ∷ [])
unfolding wait
Fails-wait = Fails-perform _

Fails-terminate : Fails terminate (λ x t. t ≡ failed x ∷ [])
unfolding terminate
Fails-terminate = Fails-perform _

Fails-read_output : Fails read_output (λ x t. t ≡ failed x ∷ [])
unfolding read_output
Fails-read_output = Fails-perform _

-- The wait of `__exit__` with its handler, before the test of the status
module _ (failed_body : Bool) where
  abbrev stop : M ℤ
  stop = do
    terminate
    code ← wait
    if failed_body
        then pure code
        else raise (runtime_error (txt "netz broker did not exit after DISCONNECT"))

  data StopFails (x : Exception) : Trace → Type 0 where
    by_wait : {t : Trace} → WaitFails x t → StopFails x t
    by_rule :
        {t : Trace} (code : ℤ)
        → failed_body ≡ false
        → x ≡ runtime_error (txt "netz broker did not exit after DISCONNECT")
        → t ≡ failed timeout_expired ∷ terminated ∷ exited code ∷ []
        → StopFails x t

  Fails-stop : Fails stop (λ x u. StopFails x (failed timeout_expired ∷ u))
  Fails-stop =
      Fails-bind Runs-terminate Fails-terminate
        (λ x t j. by_wait (termination (ap (λ v. failed timeout_expired ∷ v) j)))
        λ _ t j.
          Fails-bind Passes-wait Fails-wait (λ x u k. by_wait (second_wait (rw (j, k) refl)))
            λ code u k.
              Fails-if failed_body (λ _. Fails-pure code)
                λ absent. Fails-raise _ (by_rule code absent refl (rw (j, k) refl))

  Fails-except-wait : Fails (except is_expired wait stop) StopFails
  Fails-except-wait =
      Fails-except is_expired Fails-wait
        (λ y t j expired.
          Fails-mono Fails-stop
            λ x u f. subst (StopFails x) (sym (rw (j, is_expired-eq y expired) refl)) f)
        (λ y t j other. by_wait (first_wait (not_expired y other) j))

Passes-stop : Passes (stop true) (λ code u. u ≡ terminated ∷ exited code ∷ [])
Passes-stop =
    Passes-bind Runs-terminate
      λ _ t j. Passes-bind Passes-wait λ code u k. Passes-pure code (rw (j, k) refl)

Passes-except-wait : Passes (except is_expired wait (stop true)) Waited
Passes-except-wait =
    Passes-caught is_expired (Passes-mono Passes-wait λ code t j. by_itself j) Fails-wait
      λ y t j expired.
        Passes-mono Passes-stop λ code u k. stopped (rw (j, is_expired-eq y expired, k) refl)

-- A body that raised: `__exit__` waits for the process, and raises only when the waiting does.
Passes-exit : Runs (exit true) (λ t. (code : ℤ) × Waited code t)
unfolding exit exit_status
Passes-exit =
    Passes-bind Passes-except-wait
      λ code t w. Passes-pure tt (code, subst (Waited code) (sym (append-nil t)) w)

Fails-exit_raised : Fails (exit true) WaitFails
unfolding exit exit_status
Fails-exit_raised =
    Fails-bind Passes-except-wait (Fails-except-wait true) (λ x t f. only x t f)
      λ code t w. Fails-pure tt
  where
    only : (x : Exception) (t : Trace) → StopFails true x t → WaitFails x t
    only x t (by_wait w) = w
    only x t (by_rule code absent r j) = absurd (ground arith)

-- A process that is still there makes `__exit__` raise, so a wait that is followed by the test of the
-- status was for a process that ended by itself.
Passes-ended : Passes (except is_expired wait (stop false)) (λ code t. t ≡ exited code ∷ [])
Passes-ended = Passes-caught is_expired Passes-wait Fails-wait λ y t j expired.
    Passes-bind Runs-terminate λ _ _ _. Passes-bind Passes-wait λ _ _ _. Passes-raise _

Fails-exit_status :
    (code : ℤ) (t : Trace)
    → t ≡ exited code ∷ []
    → Fails (exit_status false code) (λ x u. ExitFails x (t ++ u))
unfolding exit_status
Fails-exit_status code t j =
    Fails-if (not false && not (is_zero code))
      (λ bad.
        let wrong = nonzero code (ground arith) in
        Fails-bind Passes-read_output Fails-read_output
          (λ x u k. unread_status code wrong (rw (j, k) refl))
          λ rest u k. Fails-raise _ (bad_status code rest wrong refl (rw (j, k) refl)))
      (λ _. Fails-pure tt)

Fails-exit : Fails (exit false) ExitFails
unfolding exit
Fails-exit =
    Fails-bind Passes-ended (Fails-except-wait false) (λ x t f. either x t f)
      λ code t j. Fails-exit_status code t j
  where
    either : (x : Exception) (t : Trace) → StopFails false x t → ExitFails x t
    either x t (by_wait w) = not_waited w
    either x t (by_rule code absent r j) = still_running code r j

-- `__exit__` after the body
left_badly :
    (L : Trace → Type 0) (F : Exception → Trace → Type 0) (r : Outcome (Unit {0})) (t : Trace)
    (e : Env) {e' : Env} {u : Trace} {x : Exception}
    → (r ≡ ok tt → L t)
    → ((y : Exception) → r ≡ raised y → F y t)
    → prepend t (leave r e) ≡ (raised x, u, e')
    → ProcessFails L F x u
left_badly L F (ok _) t e {x = x} l f h =
    let (p, j) = prepended_outcome t (exit false e) h in
    exit_raised t _ (l refl) (Fails-exit.at e _ x _ p) j
left_badly L F (raised y) t e {x = x} l f h =
    let (p, j) = prepended_outcome t ((exit true >> raise y) e) h in
    let step : Fails (exit true >> raise y) (λ z v. ProcessFails L F z (t ++ v)) =
      Fails-bind Passes-exit Fails-exit_raised (λ z v w. wait_raised y t v (f y refl) w refl)
        λ _ v (code, w).
          Fails-raise y (body_raised t v code (f y refl) w (ap (λ b. t ++ b) (append-nil v))) in
    subst (ProcessFails L F x) (sym j) (step.at e _ x _ p)
left_badly L F blocked t e l f h = absurd (ground arith)
left_badly L F out_of_fuel t e l f h = absurd (ground arith)

pub Fails-guarded :
    {L : Trace → Type 0} {F : Exception → Trace → Type 0} {body : M (Unit {0})}
    → Runs body L
    → Fails body F
    → Fails (guarded body) (ProcessFails L F)
unfolding guarded
Fails-guarded {L} {F} {body = m} rb fb = record {
  at = λ e e' x t h.
      left_badly L F (m e).0 (m e).1 (m e).2 (λ r. rb.at e (m e).2 tt (m e).1 (outcome_of m e r))
        (λ y r. fb.at e (m e).2 y (m e).1 (outcome_of m e r)) h;
}
