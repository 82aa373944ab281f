-- ===== src/Vectors/Failures.antt =====
-- The exceptions of tools/interop/mqtt_mosquitto_vectors.py: what a run that raises has left in the
-- trace, a rule for each way in which the vectors are built.
pub mod Sockets
pub mod Exits
pub mod Brokers
use netz.Base.{
  Bool, true, false, ◌≡◌, refl, sym, ap, ◌∙◌, ◌⊎◌, inl, inr, Option, none, some, [], ◌∷◌, ◌++◌,
  arith, append-nil, subst, if◌then◌else◌, Bool-cases,
}
use netz.Vectors.World.{
  Exception, Outcome, ok, raised, blocked, out_of_fuel, Answer, gives, fails, Env, failed, Trace, M,
  pure, raise, answered, prepend, continue, perform, handle, except, settle, finally, ◌>>=◌, ◌>>◌,
}
use netz.Vectors.Runs.{Passes, Runs}

-- In every environment in which `m` raises, the exception and the trace are in `Q`.
pub record Fails {A : Type 0} (m : M A) (Q : Exception → Trace → Type 0) : Type 0 where
  pub at : (e e' : Env) (x : Exception) (t : Trace) → m e ≡ (raised x, t, e') → Q x t

module _ {A : Type 0} where
  pub prepended_outcome :
      (t : Trace) (y : Outcome A × Trace × Env) {r : Outcome A} {u : Trace} {e' : Env}
      → prepend t y ≡ (r, u, e')
      → (y ≡ (r, y.1, y.2)) × (u ≡ t ++ y.1)
  prepended_outcome t (q, v, e) p =
      (λ i. ((p i).0, v, e), λ i. sym (ap (λ (y : Outcome A × Trace × Env). y.1) p) i)

  pub outcome_of : (m : M A) (e : Env) {r : Outcome A} → (m e).0 ≡ r → m e ≡ (r, (m e).1, (m e).2)
  outcome_of m e h = λ i. (h i, (m e).1, (m e).2)

  pub Fails-pure : {Q : Exception → Trace → Type 0} (a : A) → Fails (pure a) Q
  unfolding pure
  Fails-pure a = record { at = λ e e' x t h. absurd (ground arith) }

  pub Fails-raise :
      {Q : Exception → Trace → Type 0} (x : Exception) → Q x [] → Fails {A = A} (raise x) Q
  unfolding raise
  Fails-raise {Q} x q = record {
    at = λ e e' y t h.
        let same : x ≡ y = ground arith in
        let empty : [] ≡ t = ground arith in subst (λ z. Q z t) same (subst (Q x) empty q);
  }

  pub Fails-mono :
      {F Q : Exception → Trace → Type 0} {m : M A}
      → Fails m F
      → ((x : Exception) (t : Trace) → F x t → Q x t)
      → Fails m Q
  Fails-mono fm f = record { at = λ e e' x t h. f x t (fm.at e e' x t h) }

  pub Fails-if :
      {Q : Exception → Trace → Type 0} (b : Bool) {m n : M A}
      → (b ≡ true → Fails m Q)
      → (b ≡ false → Fails n Q)
      → Fails (if b then m else n) Q
  Fails-if true fm fn = fm refl
  Fails-if false fm fn = fn refl

  answered_raises_not :
      (o : Option (A × Trace)) (e e' : Env) {x : Exception} {t : Trace}
      → ¬ (answered o e ≡ (raised x, t, e'))
  answered_raises_not none e e' h = ground arith
  answered_raises_not (some r) e e' h = ground arith

  -- An operation that fails leaves its exception in the trace.
  pub Fails-perform :
      (f : Answer → Option (A × Trace)) → Fails (perform f) (λ x t. t ≡ failed x ∷ [])
  unfolding perform
  Fails-perform f = record { at = at_answer }
    where
      at_answer :
          (e e' : Env) (x : Exception) (t : Trace)
          → perform f e ≡ (raised x, t, e')
          → t ≡ failed x ∷ []
      at_answer [] e' x t h = absurd (ground arith)
      at_answer (fails y ∷ e) e' x t h = ground arith
      at_answer (gives a ∷ e) e' x t h = absurd (answered_raises_not (f a) e e' h)

-- A block raises in its first part, or in the rest after the first part has returned.
module _ {A B : Type 0} where
  split_failure :
      (r : Outcome A) (t : Trace) (e' : Env) (f : A → M B) {x : Exception} {u : Trace} {e'' : Env}
      → prepend t (continue r f e') ≡ (raised x, u, e'')
      → ((r ≡ raised x) × (u ≡ t))
        ⊎ ((a : A) × (v : Trace) × (r ≡ ok a) × (f a e' ≡ (raised x, v, e'')) × (u ≡ t ++ v))
  split_failure (ok a) t e' f h = inr (a, (f a e').1, refl, ground arith, ground arith)
  split_failure (raised y) t e' f h = let whole = append-nil t in inl (ground arith, ground arith)
  split_failure blocked t e' f h = absurd (ground arith)
  split_failure out_of_fuel t e' f h = absurd (ground arith)

  pub Fails-bind :
      {P : A → Trace → Type 0} {F Q : Exception → Trace → Type 0} {m : M A} {f : A → M B}
      → Passes m P
      → Fails m F
      → ((x : Exception) (t : Trace) → F x t → Q x t)
      → ((a : A) (t : Trace) → P a t → Fails (f a) (λ x u. Q x (t ++ u)))
      → Fails (m >>= f) Q
  unfolding ◌>>=◌
  Fails-bind {Q} {m} {f} pm fm here later = record {
    at = λ e e'' x u h. elim (split_failure (m e).0 (m e).1 (m e).2 f h) [
      | inl (r, j) ↦ subst (Q x) (sym j) (here x _ (fm.at e (m e).2 x (m e).1 (outcome_of m e r)))
      | inr (a, v, r, k, j) ↦
          subst (Q x) (sym j)
            ((later a (m e).1 (pm.at e (m e).2 a (m e).1 (outcome_of m e r))).at (m e).2 e'' x v k)
    ];
  }

-- `except`: an exception that is not caught, or one of the handler
module _ {A : Type 0} {h : M A} where
  handled_failure :
      (Q : Exception → Trace → Type 0) (caught : Exception → Bool) (r : Outcome A) (t : Trace)
      (e : Env) {e' : Env} {u : Trace} {x : Exception}
      → ((y : Exception) → r ≡ raised y → caught y ≡ true → Fails h (λ z v. Q z (t ++ v)))
      → ((y : Exception) → r ≡ raised y → caught y ≡ false → Q y t)
      → prepend t (handle caught r h e) ≡ (raised x, u, e')
      → Q x u
  unfolding raise
  handled_failure Q caught (ok a) t e inner outer p = absurd (ground arith)
  handled_failure Q caught (raised y) t e {u = u} {x = x} inner outer p =
      elim (Bool-cases (caught y)) [
        | inl taken ↦
            let (z, j) = prepended_outcome t (h e) (rw taken at p) in
            subst (Q x) (sym j) ((inner y refl taken).at e _ x _ z)
        | inr passed ↦
            let whole = append-nil t in
            let same : y ≡ x = ground arith in
            let all : t ≡ u = ground arith in
            subst (λ z. Q z u) same (subst (Q y) all (outer y refl passed))
      ]
  handled_failure Q caught blocked t e inner outer p = absurd (ground arith)
  handled_failure Q caught out_of_fuel t e inner outer p = absurd (ground arith)

  pub Fails-except :
      {F Q : Exception → Trace → Type 0} {m : M A} (caught : Exception → Bool)
      → Fails m F
      → ((y : Exception) (t : Trace) → F y t → caught y ≡ true → Fails h (λ z v. Q z (t ++ v)))
      → ((y : Exception) (t : Trace) → F y t → caught y ≡ false → Q y t)
      → Fails (except caught m h) Q
  unfolding except
  Fails-except {Q = Q} {m = m} caught fm inner outer = record {
    at = λ e e' x t p.
        handled_failure Q caught (m e).0 (m e).1 (m e).2
          (λ y r. inner y (m e).1 (fm.at e (m e).2 y (m e).1 (outcome_of m e r)))
          (λ y r. outer y (m e).1 (fm.at e (m e).2 y (m e).1 (outcome_of m e r))) p;
  }

-- `except` that returns: the body returns, or its exception is caught and the handler returns.
module _ {A : Type 0} {h : M A} where
  handled_value :
      (Q : A → Trace → Type 0) (caught : Exception → Bool) (r : Outcome A) (t : Trace) (e : Env)
      {e' : Env} {u : Trace} {a : A}
      → ((b : A) → r ≡ ok b → Q b t)
      → ((y : Exception) → r ≡ raised y → caught y ≡ true → Passes h (λ b v. Q b (t ++ v)))
      → prepend t (handle caught r h e) ≡ (ok a, u, e')
      → Q a u
  unfolding raise
  handled_value Q caught (ok b) t e {u = u} {a = a} value inner p =
      let whole = append-nil t in
      let same : b ≡ a = ground arith in
      let all : t ≡ u = ground arith in subst (λ z. Q z u) same (subst (Q b) all (value b refl))
  handled_value Q caught (raised y) t e {a = a} value inner p = elim (Bool-cases (caught y)) [
    | inl taken ↦
        let (z, j) = prepended_outcome t (h e) (rw taken at p) in
        subst (Q a) (sym j) ((inner y refl taken).at e _ a _ z)
    | inr passed ↦ absurd (ground arith)
  ]
  handled_value Q caught blocked t e value inner p = absurd (ground arith)
  handled_value Q caught out_of_fuel t e value inner p = absurd (ground arith)

  pub Passes-caught :
      {F : Exception → Trace → Type 0} {Q : A → Trace → Type 0} {m : M A}
      (caught : Exception → Bool)
      → Passes m Q
      → Fails m F
      → ((y : Exception) (t : Trace) → F y t → caught y ≡ true → Passes h (λ b v. Q b (t ++ v)))
      → Passes (except caught m h) Q
  unfolding except
  Passes-caught {Q = Q} {m = m} caught pm fm inner = record {
    at = λ e e' a t p.
        handled_value Q caught (m e).0 (m e).1 (m e).2
          (λ b r. pm.at e (m e).2 b (m e).1 (outcome_of m e r))
          (λ y r. inner y (m e).1 (fm.at e (m e).2 y (m e).1 (outcome_of m e r))) p;
  }

-- `finally`: the body has ended in either way and the other part raises, or it returns after a body
-- that raised.
module _ {A : Type 0} {K : Trace → Type 0} {G : Exception → Trace → Type 0} {f : M (Unit {0})} where
  settled_failure :
      (Q : Exception → Trace → Type 0) (r : Outcome A) (t : Trace) (e : Env) {e' : Env} {u : Trace}
      {x : Exception}
      → Runs f K
      → Fails f G
      → ((y : Exception) (v : Trace)
          → ((a : A) × (r ≡ ok a)) ⊎ ((z : Exception) × (r ≡ raised z))
          → G y v
          → Q y (t ++ v))
      → ((y : Exception) (v : Trace) → r ≡ raised y → K v → Q y (t ++ v))
      → prepend t (settle r f e) ≡ (raised x, u, e')
      → Q x u
  settled_failure Q (ok a) t e {x = x} rf ff both body h =
      let (p, j) = prepended_outcome t ((f >> pure a) e) h in
      let step : Fails (f >> pure a) (λ y v. Q y (t ++ v)) =
        Fails-bind rf ff (λ y v g. both y v (inl (a, refl)) g) (λ _ v k. Fails-pure a) in
      subst (Q x) (sym j) (step.at e _ x _ p)
  settled_failure Q (raised z) t e {x = x} rf ff both body h =
      let (p, j) = prepended_outcome t ((f >> raise z) e) h in
      let step : Fails (f >> raise {A = A} z) (λ y v. Q y (t ++ v)) =
        Fails-bind rf ff (λ y v g. both y v (inr (z, refl)) g)
          (λ _ v k. Fails-raise z (rw (append-nil v) (body z v refl k))) in
      subst (Q x) (sym j) (step.at e _ x _ p)
  settled_failure Q blocked t e rf ff both body h = absurd (ground arith)
  settled_failure Q out_of_fuel t e rf ff both body h = absurd (ground arith)

  pub Fails-finally :
      {P : A → Trace → Type 0} {F Q : Exception → Trace → Type 0} {m : M A}
      → Passes m P
      → Fails m F
      → Runs f K
      → Fails f G
      → ((y : Exception) (t v : Trace)
          → ((a : A) × P a t) ⊎ ((z : Exception) × F z t)
          → G y v
          → Q y (t ++ v))
      → ((y : Exception) (t v : Trace) → F y t → K v → Q y (t ++ v))
      → Fails (finally m f) Q
  unfolding finally
  Fails-finally {Q = Q} {m = m} pm fm rf ff both body = record {
    at = λ e e' x t p.
        settled_failure Q (m e).0 (m e).1 (m e).2 rf ff
          (λ y v ended. both y (m e).1 v (elim ended [
            | inl (a, r) ↦ inl (a, pm.at e (m e).2 a (m e).1 (outcome_of m e r))
            | inr (z, r) ↦ inr (z, fm.at e (m e).2 z (m e).1 (outcome_of m e r))
          ]))
          (λ y v r. body y (m e).1 v (fm.at e (m e).2 y (m e).1 (outcome_of m e r))) p;
  }
