-- ===== src/Vectors/Failures/Sockets.antt =====
-- How `free_port` and `with broker.connect() as sock` of tools/interop/mqtt_mosquitto_vectors.py
-- raise.
use netz.Base.{ℕ, ◌≡◌, refl, ◌⊎◌, inl, inr, [], ◌∷◌, ◌++◌}
use netz.Vectors.World.{
  Exception, opened, bound, probed, connected, timeout_set, closed, failed, Trace, M, ◌>>◌,
}
use netz.Vectors.Socket.{close, new_socket, bind, getsockname, create_connection, settimeout}
use netz.Vectors.Broker.{free_port, connect, with_socket}
use netz.Vectors.Runs.{Runs, Exactly→eq}
use netz.Vectors.Runs.Sockets.{
  Passes-new_socket, Runs-bind_port, Passes-create_connection, Runs-settimeout, Runs-close,
}
use netz.Vectors.Runs.Brokers.{Passes-probe, Passes-connect}
use netz.Vectors.Failures.{Fails, Fails-pure, Fails-mono, Fails-perform, Fails-bind, Fails-finally}

-- `x` is raised: by the connection, by the body, after which the socket is closed, or by the close.
pub data ConnectionFails (p : ℕ) (L : ℕ → Trace → Type 0) (F : ℕ → Exception → Trace → Type 0)
    (x : Exception) : Trace → Type 0 where
  not_connected : {t : Trace} → t ≡ failed x ∷ [] → ConnectionFails p L F x t
  no_timeout : {t : Trace} (s : ℕ) → t ≡ connected p s ∷ failed x ∷ [] → ConnectionFails p L F x t
  body_raised :
      {t : Trace} (s : ℕ) (body : Trace)
      → F s x body
      → t ≡ connected p s ∷ timeout_set s 5000 ∷ (body ++ closed s ∷ [])
      → ConnectionFails p L F x t
  close_raised :
      {t : Trace} (s : ℕ) (body : Trace)
      → L s body ⊎ ((y : Exception) × F s y body)
      → t ≡ connected p s ∷ timeout_set s 5000 ∷ (body ++ failed x ∷ [])
      → ConnectionFails p L F x t

Fails-connect :
    (p : ℕ)
    → Fails
        (connect p)
        (λ x t. (t ≡ failed x ∷ []) ⊎ ((s : ℕ) × (t ≡ connected p s ∷ failed x ∷ [])))
unfolding connect create_connection settimeout
Fails-connect p =
    Fails-bind (Passes-create_connection p) (Fails-perform _) (λ x t j. inl j)
      λ s t c.
        Fails-bind (Runs-settimeout s 5000) (Fails-perform _) (λ x u j. inr (s, rw (c, j) refl))
          λ _ u _. Fails-pure s

-- The socket by which a port is found raised `x`.
pub data ProbeFails (q : ℕ) (x : Exception) : Trace → Type 0 where
  not_bound : {t : Trace} → t ≡ failed x ∷ [] → ProbeFails q x t
  not_named : {t : Trace} → t ≡ bound q ∷ failed x ∷ [] → ProbeFails q x t

-- `free_port` raised `x`: the socket is closed, when there is one and the close does not raise.
pub data PortFails (x : Exception) : Trace → Type 0 where
  not_opened : {t : Trace} → t ≡ failed x ∷ [] → PortFails x t
  probe_raised :
      {t : Trace} (q : ℕ) (body : Trace)
      → ProbeFails q x body
      → t ≡ opened q ∷ (body ++ closed q ∷ [])
      → PortFails x t
  close_failed :
      {t : Trace} (q : ℕ) (body : Trace)
      → ((p : ℕ) × (body ≡ bound q ∷ probed p ∷ [])) ⊎ ((y : Exception) × ProbeFails q y body)
      → t ≡ opened q ∷ (body ++ failed x ∷ [])
      → PortFails x t

Fails-probe : (q : ℕ) → Fails (do bind q; getsockname q) (ProbeFails q)
unfolding bind getsockname
Fails-probe q =
    Fails-bind (Runs-bind_port q) (Fails-perform _) (λ x t j. not_bound j)
      λ _ t b. Fails-mono (Fails-perform _) λ x u j. not_named (rw (b, j) refl)

pub Fails-free_port : Fails free_port PortFails
unfolding free_port new_socket close
Fails-free_port =
    Fails-bind Passes-new_socket (Fails-perform _) (λ x t j. not_opened j)
      λ q t o.
        Fails-finally (Passes-probe q) (Fails-probe q) (Runs-close q) (Fails-perform _)
          (λ x u v ended g. close_failed q u ended (rw (o, g) refl))
          (λ x u v f c. probe_raised q u f (rw (o, Exactly→eq c) refl))

-- If every run of the body that returns is in `L` and every run of it that raises is in `F`, every run
-- of `with broker.connect()` that raises has done one of these: the connection, or the setting of its
-- timeout, raised the exception and the body was not begun; the body raised it, and then the socket
-- was closed; or the body ended in either way, and the close raised it instead.
pub Fails-with_socket :
    (p : ℕ) {L : ℕ → Trace → Type 0} {F : ℕ → Exception → Trace → Type 0} {body : ℕ → M (Unit {0})}
    → ((s : ℕ) → Runs (body s) (L s))
    → ((s : ℕ) → Fails (body s) (F s))
    → Fails (with_socket p body) (ConnectionFails p L F)
unfolding with_socket close
Fails-with_socket p {L} {F} rb fb =
    Fails-bind (Passes-connect p) (Fails-connect p)
      (λ x t c. elim c [ inl j ↦ not_connected j | inr (s, j) ↦ no_timeout s j ])
      λ s t c.
        Fails-finally (rb s) (fb s) (Runs-close s) (Fails-perform _)
          (λ x u v ended g.
            close_raised s u (elim ended [ inl (_, l) ↦ inl l | inr f ↦ inr f ]) (rw (c, g) refl))
          (λ x u v f k. body_raised s u f (rw (c, Exactly→eq k) refl))
