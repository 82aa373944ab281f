-- ===== src/Vectors/Runs/Packets.antt =====
-- `read_packet` of tools/interop/mqtt_mosquitto_vectors.py on a whole packet.
use netz.Base.{
  ℕ, suc, ◌+◌, ◌*◌, ◌/◌, ◌%◌, ◌≤◌, ◌<◌, ◌≡◌, refl, inl, inr, Bool-cases, true, false, List, [], ◌∷◌,
  ◌++◌, map, Bytes, length, All, ltb, ◌==◌, bit_and, arith, append_assoc, map-append, append-nil,
  ap, ◌∙◌,
}
use mathlib.Core.List.{flatten}
use netz.Base.Bits.{low_bits, top_bit}
use netz.Mqtt.RemainingLength.Laws.{variable_byte_integer}
use netz.Vectors.World.{
  txt, assertion_error, raised, raise, Exception, ok, bytes, gives, Env, Trace, M, pure, perform,
  prepend, ◌>>=◌,
}
use netz.Vectors.Socket.{recv}
use netz.Vectors.Harness.{recv_loop, recv_exact, index, length_loop, read_packet}
use netz.Vectors.Runs.Sockets.{gets}
use netz.Vectors.Runs.Chunks.{pieces, IsPiece, recv_exact-pieces}

-- Bytes that arrive one at a time
abbrev pub singles : Bytes → Env
singles = map (λ b. gives (bytes (b ∷ [])))

length_loop_last :
    (fuel s b multiplier remaining : ℕ) (read : Bytes) (e : Env)
    → b < 128
    → length_loop (suc fuel) s read multiplier remaining (gives (bytes (b ∷ [])) ∷ e)
      ≡ (ok (read ++ b ∷ [], remaining + b * multiplier), gets s (b ∷ []), e)
unfolding length_loop recv_exact recv_loop recv perform index pure ◌>>=◌
length_loop_last fuel s b multiplier remaining read e h =
    let last : (bit_and b 0x80 == 0) ≡ true = ground (arith, top_bit b (omega arith)) in
    let low : bit_and b 0x7f ≡ b = ground (arith, low_bits b (omega arith)) in rw (last, low) refl

length_loop_inner :
    (fuel s b multiplier remaining : ℕ) (read : Bytes) (e : Env)
    → b < 128
    → multiplier * 128 ≤ 2097152
    → length_loop (suc fuel) s read multiplier remaining (gives (bytes ((b + 128) ∷ [])) ∷ e)
      ≡ prepend (gets s ((b + 128) ∷ [])) (
          length_loop fuel s
            (read ++ (b + 128) ∷ [])
            (multiplier * 128)
            (remaining + b * multiplier)
            e)
unfolding length_loop recv_exact recv_loop recv perform index pure ◌>>=◌
length_loop_inner fuel s b multiplier remaining read e h m =
    let more : (bit_and (b + 128) 0x80 == 0) ≡ false =
      ground (arith, top_bit (b + 128) (omega arith)) in
    let low : bit_and (b + 128) 0x7f ≡ b = ground (arith, low_bits (b + 128) (omega arith)) in
    let short : ltb (128 * 128 * 128) (multiplier * 128) ≡ false = ground arith in
    rw (more, low, short) refl

-- The loop from a byte on at which the multiplier is `m`, on a number of at most `k + 1` bytes.
abbrev ReadsLength : ℕ → ℕ → ℕ → Type 0
ReadsLength k m bound =
    (v s remaining : ℕ) (read : Bytes) (e : Env)
    → v < bound
    → length_loop (suc k) s read m remaining (singles (variable_byte_integer k v) ++ e) ≡ (
      ok (read ++ variable_byte_integer k v, remaining + v * m),
      gets s (variable_byte_integer k v),
      e,
    )

reads_fourth : ReadsLength 0 2097152 128
unfolding variable_byte_integer
reads_fourth v s remaining read e h = length_loop_last 0 s v 2097152 remaining read e h

reads_third : ReadsLength 1 16384 16384
unfolding variable_byte_integer
reads_third v s remaining read e h = elim (Bool-cases (ltb v 128)) [
  | inl low ↦ rw low (length_loop_last 1 s v 16384 remaining read e (ground arith))
  | inr high ↦
      let sum : remaining + v % 128 * 16384 + v / 128 * 2097152 ≡ remaining + v * 16384 =
        omega arith in
      rw high (
        length_loop_inner 1 s (v % 128) 16384 remaining read _ (omega arith) (omega arith)
        ∙ ap (prepend (gets s ((v % 128 + 128) ∷ []))) (
            reads_fourth (v / 128) s (remaining + v % 128 * 16384) (read ++ (v % 128 + 128) ∷ []) e
              (omega arith))
        ∙ rw (append_assoc, sum) refl)
]

reads_second : ReadsLength 2 128 2097152
unfolding variable_byte_integer
reads_second v s remaining read e h = elim (Bool-cases (ltb v 128)) [
  | inl low ↦ rw low (length_loop_last 2 s v 128 remaining read e (ground arith))
  | inr high ↦
      let sum : remaining + v % 128 * 128 + v / 128 * 16384 ≡ remaining + v * 128 = omega arith in
      rw high (
        length_loop_inner 2 s (v % 128) 128 remaining read _ (omega arith) (omega arith)
        ∙ ap (prepend (gets s ((v % 128 + 128) ∷ []))) (
            reads_third (v / 128) s (remaining + v % 128 * 128) (read ++ (v % 128 + 128) ∷ []) e
              (omega arith))
        ∙ rw (append_assoc, sum) refl)
]

reads_first : ReadsLength 3 1 268435456
unfolding variable_byte_integer
reads_first v s remaining read e h = elim (Bool-cases (ltb v 128)) [
  | inl low ↦ rw low (length_loop_last 3 s v 1 remaining read e (ground arith))
  | inr high ↦
      let sum : remaining + v % 128 * 1 + v / 128 * 128 ≡ remaining + v * 1 = omega arith in
      rw high (
        length_loop_inner 3 s (v % 128) 1 remaining read _ (omega arith) (omega arith)
        ∙ ap (prepend (gets s ((v % 128 + 128) ∷ []))) (
            reads_second (v / 128) s (remaining + v % 128 * 1) (read ++ (v % 128 + 128) ∷ []) e
              (omega arith))
        ∙ rw (append_assoc, sum) refl)
]

>>=-ok :
    {A B : Type 0} (m : M A) (f : A → M B) {a : A} {t : Trace} {e e' : Env}
    → m e ≡ (ok a, t, e')
    → (m >>= f) e ≡ prepend t (f a e')
unfolding ◌>>=◌
>>=-ok m f h = rw h refl

recv_exact-one :
    (s b : ℕ) (e : Env)
    → recv_exact s 1 (gives (bytes (b ∷ [])) ∷ e) ≡ (ok (b ∷ []), gets s (b ∷ []), e)
unfolding recv_exact recv_loop recv perform pure ◌>>=◌
recv_exact-one s b e = refl

-- A packet whose first byte and length bytes arrive one at a time, and whose body of at most
-- 268 435 455 bytes arrives in nonempty pieces, is returned by `read_packet` however the body is cut;
-- the socket delivered just these bytes, and what follows them is left.
pub read_packet-pieces :
    (s first : ℕ) (cs : List Bytes) (rest : Env)
    → All IsPiece cs
    → length (flatten cs) ≤ 268435455
    → read_packet s
        (singles (first ∷ variable_byte_integer 3 (length (flatten cs))) ++ (pieces cs ++ rest))
      ≡ (
        ok (first ∷ variable_byte_integer 3 (length (flatten cs)) ++ flatten cs),
        gets s (first ∷ variable_byte_integer 3 (length (flatten cs)) ++ flatten cs),
        rest,
      )
unfolding read_packet pure
read_packet-pieces s first cs rest all n =
    let size : 0 + length (flatten cs) * 1 ≡ length (flatten cs) = omega arith in
    let len = variable_byte_integer 3 (length (flatten cs)) in
    let header =
      rw size at (reads_first (length (flatten cs)) s 0 [] (pieces cs ++ rest) (omega arith)) in
    >>=-ok (recv_exact s 1) _ (recv_exact-one s first (singles len ++ (pieces cs ++ rest)))
    ∙ ap (prepend (gets s (first ∷ []))) (
        >>=-ok (length_loop 4 s [] 1 0) _ header
        ∙ ap (prepend (gets s len))
            (>>=-ok (recv_exact s (length (flatten cs))) _ (recv_exact-pieces cs s rest all)))
    ∙ rw (append-nil, map-append) refl

length_loop_overlong :
    (fuel s b multiplier remaining : ℕ) (read : Bytes) (e : Env)
    → b < 128
    → 2097152 < multiplier * 128
    → length_loop (suc fuel) s read multiplier remaining (gives (bytes ((b + 128) ∷ [])) ∷ e) ≡ (
      raised (assertion_error (txt "malformed MQTT Remaining Length")),
      gets s ((b + 128) ∷ []),
      e,
    )
unfolding length_loop recv_exact recv_loop recv perform index pure raise ◌>>=◌
length_loop_overlong fuel s b multiplier remaining read e h m =
    let more : (bit_and (b + 128) 0x80 == 0) ≡ false =
      ground (arith, top_bit (b + 128) (omega arith)) in
    let long : ltb (128 * 128 * 128) (multiplier * 128) ≡ true = ground arith in
    rw (more, long) refl

>>=-raised :
    {A B : Type 0} (m : M A) (f : A → M B) {x : Exception} {t : Trace} {e e' : Env}
    → m e ≡ (raised x, t, e')
    → (m >>= f) e ≡ (raised x, t, e')
unfolding ◌>>=◌
>>=-raised m f h = rw (h, append-nil) refl

-- When the first byte and four length bytes with their top bits set arrive one at a time, `read_packet`
-- raises an AssertionError as soon as the fourth has come, and takes nothing more from the socket.
pub read_packet_malformed :
    (s first a b c d : ℕ) (rest : Env)
    → a < 128
    → b < 128
    → c < 128
    → d < 128
    → read_packet s (singles (first ∷ (a + 128) ∷ (b + 128) ∷ (c + 128) ∷ (d + 128) ∷ []) ++ rest)
      ≡ (
        raised (assertion_error (txt "malformed MQTT Remaining Length")),
        gets s (first ∷ (a + 128) ∷ (b + 128) ∷ (c + 128) ∷ (d + 128) ∷ []),
        rest,
      )
unfolding read_packet
read_packet_malformed s first a b c d rest p q r t =
    >>=-ok (recv_exact s 1) _ (recv_exact-one s first _)
    ∙ ap (prepend (gets s (first ∷ []))) (
        >>=-raised (length_loop 4 s [] 1 0) _ (
          length_loop_inner 3 s a 1 0 [] _ p (omega arith)
          ∙ ap (prepend (gets s ((a + 128) ∷ []))) (
              length_loop_inner 2 s b 128 (0 + a * 1) ((a + 128) ∷ []) _ q (omega arith)
              ∙ ap (prepend (gets s ((b + 128) ∷ []))) (
                  length_loop_inner 1 s c 16384 (0 + a * 1 + b * 128) ((a + 128) ∷ (b + 128) ∷ []) _
                    r (omega arith)
                  ∙ ap (prepend (gets s ((c + 128) ∷ []))) (
                      length_loop_overlong 0 s d 2097152 (0 + a * 1 + b * 128 + c * 16384)
                        ((a + 128) ∷ (b + 128) ∷ (c + 128) ∷ []) rest t (omega arith))))))
