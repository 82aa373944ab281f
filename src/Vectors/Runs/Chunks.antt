-- ===== src/Vectors/Runs/Chunks.antt =====
-- `recv_exact` of tools/interop/mqtt_mosquitto_vectors.py on a stream that comes in pieces.
use netz.Base.{
  ℕ, zero, suc, ◌+◌, ◌-◌, ◌≤◌, ◌<◌, ◌≡◌, refl, ap, ◌∙◌, true, false, List, [], ◌∷◌, ◌++◌, map,
  map-append, append-nil, append_assoc, Bytes, length, length-append, take_all, All, ltb, ◌==◌,
  arith,
}
use mathlib.Core.List.{flatten}
use netz.Vectors.World.{ok, bytes, gives, Env, pure, perform, prepend, ◌>>=◌}
use netz.Vectors.Socket.{recv}
use netz.Vectors.Harness.{recv_loop, recv_exact}
use netz.Vectors.Runs.Sockets.{gets}

-- The answers by which a socket delivers these pieces
abbrev pub pieces : List Bytes → Env
pieces = map (λ c. gives (bytes c))

abbrev pub IsPiece : Bytes → Type 0
IsPiece c = 0 < length c

recv_loop-full :
    (fuel s count : ℕ) (result : Bytes) (e : Env)
    → length result ≡ count
    → recv_loop fuel s count result e ≡ (ok result, [], e)
unfolding recv_loop pure
recv_loop-full zero s count result e n = ground arith
recv_loop-full (suc fuel) s count result e n =
    let full : ltb (length result) count ≡ false = ground arith in rw full refl

recv_loop-piece :
    (fuel s count : ℕ) (result : Bytes) (x : ℕ) (c : Bytes) (e : Env)
    → length result + suc (length c) ≤ count
    → recv_loop (suc fuel) s count result (gives (bytes (x ∷ c)) ∷ e)
      ≡ prepend (gets s (x ∷ c)) (recv_loop fuel s count (result ++ (x ∷ c)) e)
unfolding recv_loop recv perform ◌>>=◌
recv_loop-piece fuel s count result x c e n =
    let short : ltb (length result) count ≡ true = ground arith in
    let some_part : (length (x ∷ c) == 0) ≡ false = ground arith in
    rw (short, take_all (count - length result) (x ∷ c) (omega arith), some_part) refl

recv_loop-pieces :
    (cs : List Bytes) (fuel s count : ℕ) (result : Bytes) (rest : Env)
    → All IsPiece cs
    → length result + length (flatten cs) ≡ count
    → length (flatten cs) ≤ fuel
    → recv_loop fuel s count result (pieces cs ++ rest)
      ≡ (ok (result ++ flatten cs), gets s (flatten cs), rest)
unfolding flatten
recv_loop-pieces [] fuel s count result rest all n f =
    rw append-nil (recv_loop-full fuel s count result rest (omega arith))
recv_loop-pieces ([] ∷ cs) fuel s count result rest all n f = absurd (omega (arith, all.0))
recv_loop-pieces ((x ∷ c) ∷ cs) zero s count result rest all n f =
    absurd (omega (arith, length-append (x ∷ c) (flatten cs)))
recv_loop-pieces ((x ∷ c) ∷ cs) (suc fuel) s count result rest all n f =
    let size = length-append (x ∷ c) (flatten cs) in
    recv_loop-piece fuel s count result x c (pieces cs ++ rest) (omega (arith, size))
    ∙ ap (prepend (gets s (x ∷ c))) (
        recv_loop-pieces cs fuel s count (result ++ (x ∷ c)) rest all.1
          (omega (arith, size, n, length-append result (x ∷ c))) (omega (arith, size, f)))
    ∙ rw (append_assoc, map-append) refl

pub recv_exact-pieces :
    (cs : List Bytes) (s : ℕ) (rest : Env)
    → All IsPiece cs
    → recv_exact s (length (flatten cs)) (pieces cs ++ rest)
      ≡ (ok (flatten cs), gets s (flatten cs), rest)
unfolding recv_exact
recv_exact-pieces cs s rest all =
    recv_loop-pieces cs (length (flatten cs)) s _ [] rest all (omega arith) (omega arith)
