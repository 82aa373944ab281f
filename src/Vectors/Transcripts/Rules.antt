-- ===== src/Vectors/Transcripts/Rules.antt =====
-- The turns of a conversation, and the rules by which `search` reads a scenario as one.
use netz.Base.{
  ℕ, Bool, true, false, not, ◌||◌, ◌==◌, ◌≡◌, refl, ap, inl, inr, Bool-cases, [], ◌∷◌, ◌++◌,
  append-nil, Bytes, bytes_eq, bytes_eq→eq, length, if◌then◌else◌, arith,
}
use netz.Vectors.World.{Text, Trace, sent, eof, M, pure, check, ◌>>=◌}
use netz.Vectors.Socket.{received, recv}
use netz.Vectors.Harness.{read_packet}
use netz.Vectors.Runs.{
  Runs, Exactly, exactly, ◌▸◌, Passes-bind, Passes-pure, Passes-mono, Runs-check, Runs-for_each,
}
use netz.Vectors.Runs.Sockets.{
  gets, Passes-recv, Passes-read_packet, Runs-sendall, Runs-expect_packet, Runs-sleep,
}
use netz.Vectors.Runs.Unordered.{Runs-Unordered}
use netz.Vectors.Runs.Brokers.{
  Runs-with_broker, Runs-with_socket, Runs-expect_quiet, Runs-expect_hang_up,
}
use netz.Vectors.Runs.Connects.{
  Runs-connect_v5, Runs-connect_client, Runs-connect_persistent_v5, Runs-expect_success,
  Runs-expect_plain_success,
}

-- The client sends a packet; the next packet from the broker is this one.
abbrev pub Says : ℕ → Bytes → Trace → Type 0
Says s p = Exactly (sent s p ∷ [])

abbrev pub Hears : ℕ → Bytes → Trace → Type 0
Hears s p = Exactly (gets s p)

-- One of two, as a test decides or freely
pub data Choice (b : Bool) (L K : Trace → Type 0) : Trace → Type 0 where
  first : {t : Trace} → b ≡ true → L t → Choice b L K t
  second : {t : Trace} → b ≡ false → K t → Choice b L K t

pub Runs-Choice :
    {L K : Trace → Type 0} (b : Bool) {m n : M (Unit {0})}
    → Runs m L
    → Runs n K
    → Runs (if b then m else n) (Choice b L K)
Runs-Choice true rm rn = Passes-mono rm (λ _ _ l. first refl l)
Runs-Choice false rm rn = Passes-mono rn (λ _ _ k. second refl k)

pub data Either (L K : Trace → Type 0) : Trace → Type 0 where
  this : {t : Trace} → L t → Either L K t
  that : {t : Trace} → K t → Either L K t

-- `if sock.recv(1) != b"": raise AssertionError(...)`
pub Runs-recv_end :
    (s : ℕ) (message : Text)
    → Runs (recv s 1 >>= λ answer. check (not (length answer == 0)) message) (Exactly (eof s ∷ []))
Runs-recv_end s message =
    Passes-bind (Passes-recv s 1)
      λ answer t came. Passes-mono (Runs-check _ _) λ _ u same. exactly (ended answer came.0 same)
  where
    ended :
        {t u : Trace} (answer : Bytes)
        → t ≡ received s answer
        → (u ≡ []) × (not (length answer == 0) ≡ false)
        → t ++ u ≡ eof s ∷ []
    ended [] came same = rw (came, same.0) refl
    ended (b ∷ bs) came same = absurd (ground arith)

-- `actual = read_packet(sock)`, `if actual not in [p, q]: raise AssertionError(...)`
pub Runs-one_of :
    (s : ℕ) (p q : Bytes) (message : Bytes → Text)
    → Runs
        (read_packet s >>= λ actual.
          check (not (bytes_eq actual p || bytes_eq actual q)) (message actual))
        (Either (Hears s p) (Hears s q))
Runs-one_of s p q message =
    Passes-bind (Passes-read_packet s)
      λ actual t came. Passes-mono (Runs-check _ _) λ _ u same. matched actual came same
  where
    matched :
        {t u : Trace} (actual : Bytes)
        → t ≡ gets s actual
        → (u ≡ []) × (not (bytes_eq actual p || bytes_eq actual q) ≡ false)
        → Either (Hears s p) (Hears s q) (t ++ u)
    matched actual came same = elim (Bool-cases (bytes_eq actual p)) [
      | inl is_p ↦
          this (exactly (rw (came, same.0, append-nil) (ap (gets s) (bytes_eq→eq actual p is_p))))
      | inr not_p ↦
          let is_q : bytes_eq actual q ≡ true = ground arith in
          that (exactly (rw (came, same.0, append-nil) (ap (gets s) (bytes_eq→eq actual q is_q))))
    ]

pub Runs-pure : Runs (pure tt) (Exactly [])
Runs-pure = Passes-pure tt (exactly refl)

pub ruleset vector_rules = (
  Runs-with_broker, Runs-with_socket, ◌▸◌, Runs-sendall, Runs-expect_packet, Runs-expect_quiet,
  Runs-expect_hang_up, Runs-Unordered, Runs-connect_v5, Runs-connect_client,
  Runs-connect_persistent_v5, Runs-expect_success, Runs-for_each, Runs-Choice, Runs-recv_end,
  Runs-one_of, Runs-sleep, Runs-expect_plain_success, Runs-pure,
)
