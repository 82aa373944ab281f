-- ===== src/Vectors/Runs/Unordered.antt =====
-- The traces of `expect_packets_unordered` of tools/interop/mqtt_mosquitto_vectors.py.
use netz.Base.{
  ℕ, suc, ◌≡◌, refl, sym, ap, ◌∙◌, Option, none, some, List, [], ◌∷◌, ◌++◌, map-append, append-nil,
  Bytes, bytes_eq, bytes_eq→eq, length, length-append, arith, Bool-cases, Option-cases, inl, inr,
}
use native.Mathlib.Nat.{ℕ_set}
use mathlib.Core.Logic.{∥∥₁_elim}
use mathlib.Core.List.{Perm, Permᴰ, flatten}
use mathlib.Core.List.Perm
use netz.Vectors.World.{Text, Trace}
use netz.Vectors.Harness.{or_unexpected, remove, unordered_loop, expect_packets_unordered}
use netz.Vectors.Runs.{Passes, Runs, Passes-bind, Passes-pure, Passes-raise, Passes-mono}
use netz.Vectors.Runs.Sockets.{gets, Passes-read_packet}

module _ {A : Type 0} where
  length-Permᴰ : {xs ys : List A} → Permᴰ xs ys → length xs ≡ length ys
  length-Permᴰ Permᴰ.nil = refl
  length-Permᴰ (Permᴰ.cons _ p) = ap suc (length-Permᴰ p)
  length-Permᴰ (Permᴰ.swap {l = l} _ _) = refl
  length-Permᴰ (Permᴰ.trans p q) = length-Permᴰ p ∙ length-Permᴰ q

  pub length-Perm : {xs ys : List A} → Perm xs ys → length xs ≡ length ys
  length-Perm p = ∥∥₁_elim p (ℕ_set _ _) length-Permᴰ

Passes-unexpected :
    (o : Option (List Bytes)) (message : Text)
    → Passes (or_unexpected o message) (λ ps t. (t ≡ []) × (o ≡ some ps))
Passes-unexpected (some ps) message = Passes-pure ps (refl, refl)
Passes-unexpected none message = Passes-raise _

perm_of_remove : (x : Bytes) (xs ys : List Bytes) → remove x xs ≡ some ys → Perm xs (x ∷ ys)
unfolding remove
perm_of_remove x [] ys h = absurd (ground arith)
perm_of_remove x (y ∷ xs) ys h = elim (Bool-cases (bytes_eq y x)) [
  | inl same ↦
      let first : y ≡ x = bytes_eq→eq y x same in
      let rest : xs ≡ ys = ground arith in rw (first, rest) (Perm.refl (x ∷ ys))
  | inr other ↦ elim (Option-cases (remove x xs)) [
    | inl missing ↦ absurd (ground arith)
    | inr (zs, found) ↦
        let rest : y ∷ zs ≡ ys = ground arith in
        rw (← rest) (Perm.trans (Perm.cons y (perm_of_remove x xs zs found)) (Perm.swap x y zs))
  ]
]

pub data Unordered (s : ℕ) (expected : List Bytes) : Trace → Type 0 where
  arrived :
      {t : Trace} (ps : List Bytes)
      → Perm expected ps
      → t ≡ gets s (flatten ps)
      → Unordered s expected t

Runs-unordered_loop :
    (s : ℕ) (rounds remaining : List Bytes) (label : Text)
    → Runs (unordered_loop s rounds remaining label) (λ t.
      (ps : List Bytes) × (left : List Bytes) × Perm remaining (ps ++ left)
      × (t ≡ gets s (flatten ps))
      × (length ps ≡ length rounds))
unfolding unordered_loop flatten
Runs-unordered_loop s [] remaining label =
    Passes-pure tt ([], remaining, Perm.refl remaining, refl, refl)
Runs-unordered_loop s (r ∷ rounds) remaining label =
    Passes-bind (Passes-read_packet s) λ actual t p.
      Passes-bind (Passes-unexpected _ _) λ left u found.
        Passes-mono (Runs-unordered_loop s rounds left label) λ _ v (ps, rest, q, w, n). (
          actual ∷ ps,
          rest,
          Perm.trans (perm_of_remove actual remaining left found.1) (Perm.cons actual q),
          (rw (p, found.0, w) (sym (map-append _ _ _))),
          ap suc n,
        )

-- In every environment in which `expect_packets_unordered` returns, the socket delivered a
-- permutation of the expected packets, one after the other, and nothing more.
pub Runs-Unordered :
    (s : ℕ) (expected : List Bytes) (label : Text)
    → Runs (expect_packets_unordered s expected label) (Unordered s expected)
unfolding expect_packets_unordered
Runs-Unordered s expected label =
    Passes-mono (Runs-unordered_loop s expected expected label) λ _ t (ps, left, q, w, n).
      let none_left : left ≡ [] =
        empty left (omega (arith, length-Perm q, length-append ps left)) in
      arrived ps (rw (none_left, append-nil) at q) w
  where
    empty : (left : List Bytes) → length left ≡ 0 → left ≡ []
    empty [] h = refl
    empty (x ∷ xs) h = absurd (omega arith)
