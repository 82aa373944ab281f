-- ===== src/Vectors/Runs/Handlers.antt =====
-- What a run with `finally` or `except` that returns has left in the trace.
use netz.Base.{Bool, ◌≡◌, refl, sym, ap, ◌∙◌, inl, inr, ◌++◌, arith, append-nil, subst, Bool-cases}
use mathlib.Core.Path.{subst₂}
use netz.Vectors.World.{
  Exception, Outcome, ok, raised, blocked, out_of_fuel, Env, Trace, M, pure, raise, prepend, handle,
  except, settle, finally, ◌>>◌,
}
use netz.Vectors.Runs.{Passes, Runs, ◌⨾◌, joined, Passes-bind, Passes-pure, Passes-raise}

-- `finally`: both parts return.
module _ {A : Type 0} where
  prepended_value :
      (t : Trace) (x : Outcome A × Trace × Env) {a : A} {u : Trace} {e' : Env}
      → prepend t x ≡ (ok a, u, e')
      → (x ≡ (ok a, x.1, x.2)) × (u ≡ t ++ x.1)
  prepended_value t (r, v, e) p =
      (λ i. ((p i).0, v, e), λ i. sym (ap (λ (y : Outcome A × Trace × Env). y.1) p) i)

  Passes-then_pure :
      {K : Trace → Type 0} {f : M (Unit {0})}
      → Runs f K
      → (a : A) → Passes (f >> pure a) (λ b t. (a ≡ b) × K t)
  Passes-then_pure {K} rf a =
      Passes-bind rf λ _ t k. Passes-pure a (refl, subst K (sym (append-nil t)) k)

  Passes-then_raise :
      {K : Trace → Type 0} {f : M (Unit {0})}
      → Runs f K
      → (x : Exception) → Passes (f >> raise {A = A} x) (λ _ _. ⊥)
  Passes-then_raise rf x = Passes-bind rf (λ _ _ _. Passes-raise x)

  settled :
      {K : Trace → Type 0} {f : M (Unit {0})} (r : Outcome A) (t : Trace) (e : Env) {e' : Env}
      {u : Trace} {a : A}
      → Runs f K
      → prepend t (settle r f e) ≡ (ok a, u, e')
      → (v : Trace) × (r ≡ ok a) × K v × (u ≡ t ++ v)
  settled {f = f} (ok b) t e rf h =
      let (p, q) = prepended_value t ((f >> pure b) e) h in
      let (same, k) = (Passes-then_pure rf b).at e _ _ _ p in
      (((f >> pure b) e).1, ap ok same, k, q)
  settled {f = f} (raised x) t e rf h =
      let (p, q) = prepended_value t ((f >> raise x) e) h in
      absurd ((Passes-then_raise rf x).at e _ _ _ p)
  settled blocked t e rf h = absurd (ground arith)
  settled out_of_fuel t e rf h = absurd (ground arith)

  pub Passes-finally :
      {P Q : A → Trace → Type 0} {K : Trace → Type 0} {m : M A} {f : M (Unit {0})}
      → Passes m P
      → Runs f K
      → ((a : A) (t u : Trace) → P a t → K u → Q a (t ++ u))
      → Passes (finally m f) Q
  unfolding finally
  Passes-finally {Q = Q} {m = m} pm rf both = record {
    at = λ e e' a t h.
        let (v, r, k, p) = settled (m e).0 (m e).1 (m e).2 rf h in
        subst (Q a) (sym p)
          (both a (m e).1 v (pm.at e (m e).2 a (m e).1 (λ i. (r i, (m e).1, (m e).2))) k);
  }

pub Runs-finally :
    {L K : Trace → Type 0} {m f : M (Unit {0})} → Runs m L → Runs f K → Runs (finally m f) (L ⨾ K)
Runs-finally rm rf = Passes-finally rm rf λ _ t u l k. joined t u l k refl

pub prepended :
    (t : Trace) (x : Outcome (Unit {0}) × Trace × Env) {a : Unit {0}} {u : Trace} {e' : Env}
    → prepend t x ≡ (ok a, u, e')
    → (x ≡ (ok tt, x.1, x.2)) × (u ≡ t ++ x.1)
prepended t (r, v, e) h =
    (λ i. ((h i).0, v, e), λ i. sym (ap (λ (y : Outcome (Unit {0}) × Trace × Env). y.1) h) i)

-- `except`: the body returns, or its handler does.
module _ {A : Type 0} where
  handled :
      (Q : A → Trace → Type 0) {h : M A} (caught : Exception → Bool) (r : Outcome A) (t : Trace)
      (e : Env) {e' : Env} {u : Trace} {a : A}
      → ((b : A) → r ≡ ok b → Q b t)
      → Passes h (λ b v. Q b (t ++ v))
      → prepend t (handle caught r h e) ≡ (ok a, u, e')
      → Q a u
  unfolding raise
  handled Q {h} caught (ok b) t e q ph p =
      let (x, y) = prepended_value t (handle caught (ok b) h e) p in
      subst₂ Q (ground arith) (sym (append-nil t) ∙ sym y) (q b refl)
  handled Q {h} caught (raised x) t e q ph p = elim (Bool-cases (caught x)) [
    | inl taken ↦
        let (y, z) = prepended_value t (h e) (rw taken at p) in
        subst (Q _) (sym z) (ph.at e _ _ _ y)
    | inr passed ↦ absurd (ground arith)
  ]
  handled Q caught blocked t e q ph p = absurd (ground arith)
  handled Q caught out_of_fuel t e q ph p = absurd (ground arith)

  pub Passes-except :
      {Q : A → Trace → Type 0} {m h : M A} (caught : Exception → Bool)
      → Passes m Q
      → ((t : Trace) → Passes h (λ a u. Q a (t ++ u)))
      → Passes (except caught m h) Q
  unfolding except
  Passes-except {Q} {m = m} caught pm ph = record {
    at = λ e e' a t p.
        handled Q caught (m e).0 (m e).1 (m e).2
          (λ b r. pm.at e (m e).2 b (m e).1 (λ i. (r i, (m e).1, (m e).2))) (ph (m e).1) p;
  }
