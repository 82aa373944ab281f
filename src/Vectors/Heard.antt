-- ===== src/Vectors/Heard.antt =====
-- What one socket of a scenario of tools/interop/mqtt_mosquitto_vectors.py heard, whatever happened
-- on the others meanwhile.
use netz.Base.{
  ℕ, ◌≡◌, ◌⊎◌, refl, sym, ap, ◌∙◌, Bool, true, false, inl, inr, Bool-cases, List, [], ◌∷◌, ◌++◌,
  append-nil, append_assoc, Bytes, ◌==◌, ==_iff, arith, if◌then◌else◌, subst, get_elem?, some,
}
use netz.Vectors.World.{Text, Exception, got, Trace, M}
use netz.Vectors.Broker.{Config}
use netz.Vectors.Runs.{
  Exactly, Exactly→eq, ◌⨾◌, joined, parts, Each, none_left, one, Runs, Passes-mono, Passes-both,
}
use netz.Vectors.Runs.Sockets.{gets}
use netz.Vectors.Runs.Brokers.{
  Nothing, ended, refused, Quiet, Connection, connection, Served, served,
}
use netz.Vectors.Runs.Connects.{Accepted, accepted, Success, success}
use netz.Vectors.Transcripts.Rules.{Says, Hears, Choice, first, second}

-- The bytes that socket `s` delivered
unfoldable pub heard : ℕ → Trace → Bytes
heard s [] = []
heard s (got source b ∷ t) = let rest = heard s t in if s == source then b ∷ rest else rest
heard s (_ ∷ t) = heard s t

heard-append : (s : ℕ) (t u : Trace) → heard s (t ++ u) ≡ heard s t ++ heard s u
unfolding heard
heard-append s [] u = refl
heard-append s (got source b ∷ t) u = elim (Bool-cases (s == source)) [
  | inl mine ↦ rw mine (ap (λ bs. b ∷ bs) (heard-append s t u))
  | inr other ↦ rw other (heard-append s t u)
]
heard-append s (_ ∷ t) u = heard-append s t u

heard-gets : (s : ℕ) (p : Bytes) → heard s (gets s p) ≡ p
unfolding heard
heard-gets s [] = refl
heard-gets s (b ∷ p) =
    let mine : (s == s) ≡ true = ground arith in rw mine (ap (λ bs. b ∷ bs) (heard-gets s p))

heard-gets_other : (s source : ℕ) (p : Bytes) → (s == source) ≡ false → heard s (gets source p) ≡ []
unfolding heard
heard-gets_other s source [] other = refl
heard-gets_other s source (b ∷ p) other = rw other (heard-gets_other s source p other)

-- A stretch of what is heard: one packet, or some packet in `P`
pub data Item : Type 1 where
  packet : Bytes → Item
  some_packet : (Bytes → Type 0) → Item

abbrev pub Hearing : List Item → Bytes → Type 0
Hearing [] bs = bs ≡ []
Hearing (packet p ∷ items) bs = (rest : Bytes) × (bs ≡ p ++ rest) × Hearing items rest
Hearing (some_packet P ∷ items) bs =
    (p : Bytes) × (rest : Bytes) × P p × (bs ≡ p ++ rest) × Hearing items rest

-- A trace in `L` adds to what `s` hears the items of `xs` that `ys` has no more.
pub record Adds (s : ℕ) (L : Trace → Type 0) (xs ys : List Item) : Type 1 where
  pub at : (t : Trace) → L t → (u : Bytes) → Hearing ys u → Hearing xs (heard s t ++ u)

infixr 3 ◌▹◌
pub ◌▹◌ :
    {s : ℕ} {L K : Trace → Type 0} {xs ys zs : List Item}
    → Adds s L xs ys
    → Adds s K ys zs
    → Adds s (L ⨾ K) xs zs
◌▹◌ {s} {xs = xs} l k = record {
  at = λ t both u h.
      let (a, b, in_l, in_k, j) = parts both in
      subst (Hearing xs)
        (sym (
          ap (λ v. heard s v ++ u) j
          ∙ ap (λ v. v ++ u) (heard-append s a b)
          ∙ append_assoc (heard s a) (heard s b) u))
        (l.at a in_l (heard s b ++ u) (k.at b in_k u h));
}

-- A trace by which `s` hears nothing
Adds-nothing :
    {s : ℕ} {L : Trace → Type 0} {xs : List Item}
    → ((t : Trace) → L t → heard s t ≡ [])
    → Adds s L xs xs
Adds-nothing {xs = xs} silent = record {
  at = λ t l u h. subst (Hearing xs) (sym (ap (λ v. v ++ u) (silent t l))) h;
}

pub says : {s source : ℕ} {p : Bytes} {xs : List Item} → Adds s (Says source p) xs xs
unfolding heard
says = Adds-nothing λ t l. rw (Exactly→eq l) refl

pub hears : {s : ℕ} {p : Bytes} {xs : List Item} → Adds s (Hears s p) (packet p ∷ xs) xs
hears {s} {p} = record { at = λ t l u h. (u, rw (Exactly→eq l, heard-gets s p) refl, h) }

pub accepts :
    {s : ℕ} {connect : Bytes} {P : Bytes → Type 0} {xs : List Item}
    → Adds s (Accepted s connect P) (some_packet P ∷ xs) xs
unfolding heard
accepts {s} {connect} {P} {xs} = record { at = came }
  where
    came :
        (t : Trace)
        → Accepted s connect P t
        → (u : Bytes) → Hearing xs u
        → Hearing (some_packet P ∷ xs) (heard s t ++ u)
    came t (accepted connack good j) u h = (connack, u, good, rw (j, heard-gets s connack) refl, h)

Nothing-heard :
    (caught : Exception → Bool) (s source : ℕ) (t : Trace)
    → Nothing caught source t
    → heard s t ≡ []
unfolding heard
Nothing-heard caught s source t (ended j) = rw j refl
Nothing-heard caught s source t (refused x c j) = rw j refl

pub quiet : {s source : ℕ} {xs : List Item} → Adds s (Quiet source) xs xs
unfolding heard
quiet {s} {source} =
    Adds-nothing (λ t l. rw (Exactly→eq l) refl)
    ▹ (Adds-nothing (Nothing-heard _ s source) ▹ Adds-nothing (λ t l. rw (Exactly→eq l) refl))

-- A CONNACK with the success code
pub record IsSuccess (p : Bytes) : Type 0 where
  pub kind : get_elem? p 0 ≡ some 0x20
  pub reason : get_elem? p 3 ≡ some 0

pub succeeds : {s : ℕ} {xs : List Item} → Adds s (Success s) (some_packet IsSuccess ∷ xs) xs
unfolding heard
succeeds {s} {xs} = record { at = came }
  where
    came :
        (t : Trace)
        → Success s t
        → (u : Bytes) → Hearing xs u
        → Hearing (some_packet IsSuccess ∷ xs) (heard s t ++ u)
    came t (success connack k r j) u h =
        (connack, u, record { kind = k; reason = r }, rw (j, heard-gets s connack) refl, h)

pub silent : {s : ℕ} {xs : List Item} → Adds s (Exactly []) xs xs
unfolding heard
silent = Adds-nothing λ t l. rw (Exactly→eq l) refl

pub either_way :
    {s : ℕ} {b : Bool} {L K : Trace → Type 0} {xs ys : List Item}
    → Adds s L xs ys
    → Adds s K xs ys
    → Adds s (Choice b L K) xs ys
either_way {s} {b} {L} {K} {xs} {ys} l k = record { at = both }
  where
    both : (t : Trace) → Choice b L K t → (u : Bytes) → Hearing ys u → Hearing xs (heard s t ++ u)
    both t (first _ x) u h = l.at t x u h
    both t (second _ x) u h = k.at t x u h

pub Hears-other :
    {s : ℕ} {xs : List Item} (source : ℕ) (p : Bytes)
    → (s == source) ≡ false
    → Adds s (Hears source p) xs xs
Hears-other {s} source p apart =
    Adds-nothing λ t l. rw (Exactly→eq l) (heard-gets_other s source p apart)

pub accepts_other :
    {s source : ℕ} {connect : Bytes} {P : Bytes → Type 0} {xs : List Item}
    → (s == source) ≡ false
    → Adds s (Accepted source connect P) xs xs
unfolding heard
accepts_other {s} {source} {connect} {P} apart = Adds-nothing came
  where
    came : (t : Trace) → Accepted source connect P t → heard s t ≡ []
    came t (accepted connack good j) = rw j (heard-gets_other s source connack apart)

-- The rounds of a loop
module _ {A : Type 0} {s : ℕ} {L : A → Trace → Type 0} where
  pub no_round : {xs : List Item} → Adds s (Each L []) xs xs
  unfolding heard
  no_round = Adds-nothing last
    where
      last : (t : Trace) → Each L [] t → heard s t ≡ []
      last t (none_left _ j) = rw j refl
      last t (one x ys a b e _ _ _) = absurd (ground arith)

  pub round :
      {x : A} {rest : List A} {xs ys zs : List Item}
      → Adds s (L x) xs ys
      → Adds s (Each L rest) ys zs
      → Adds s (Each L (x ∷ rest)) xs zs
  round {x} {rest} {xs} this_one others = record {
    at = λ t l. (this_one ▹ others).at t (turned t l);
  }
    where
      turned : (t : Trace) → Each L (x ∷ rest) t → (L x ⨾ Each L rest) t
      turned t (none_left e _) = absurd (ground arith)
      turned t (one y ys a b e l k j) =
          let same : y ≡ x = sym (ap (λ l. elim l [ [] ↦ x | z ∷ zs ↦ z ]) e) in
          let tail : ys ≡ rest = sym (ap (λ l. elim l [ [] ↦ rest | z ∷ zs ↦ zs ]) e) in
          joined a b (rw same at l) (rw tail at k) j

-- All that `s` hears in a trace of `L`
pub heard_all :
    {s : ℕ} {L : Trace → Type 0} {xs : List Item}
    → Adds s L xs []
    → (t : Trace) → L t
    → Hearing xs (heard s t)
heard_all {s} {xs = xs} l t in_l = subst (Hearing xs) (append-nil (heard s t)) (l.at t in_l [] refl)

pub Connection-map :
    {p : ℕ} {L K : ℕ → Trace → Type 0}
    → ((s : ℕ) (t : Trace) → L s t → K s t)
    → (t : Trace) → Connection p L t
    → Connection p K t
Connection-map f t (connection s body l j) = connection s body (f s body l) j

pub Served-map :
    {executable : Text} {c : Config} {L K : ℕ → Trace → Type 0}
    → ((p : ℕ) (t : Trace) → L p t → K p t)
    → (t : Trace) → Served executable c L t
    → Served executable c K t
Served-map f t (served q p said body heard_it l j) = served q p said body heard_it (f p body l) j

-- What the first of two connections hears, unless the sockets have the same number
delivered :
    {executable : Text} {c : Config} {L : ℕ → ℕ → Trace → Type 0} {m : M (Unit {0})}
    (items : List Item)
    → Runs m (Served executable c λ broker. Connection broker λ a. Connection broker λ b. L a b)
    → ((a b : ℕ) → (a == b) ≡ false → Adds a (L a b) items [])
    → Runs m (
        Served executable c λ broker.
          Connection broker λ a. Connection broker λ b t. (a ≡ b) ⊎ Hearing items (heard a t))
delivered items run adds = Passes-mono run λ _. Served-map λ broker. Connection-map λ a.
    Connection-map λ b t l. elim (Bool-cases (a == b)) [
      | inl same ↦ inl ((==_iff a b).0 same)
      | inr apart ↦ inr (heard_all (adds a b apart) t l)
    ]

-- The conversation itself, and what the first of the two connections hears in it
pub both_delivered :
    {executable : Text} {c : Config} {L : ℕ → ℕ → Trace → Type 0} {m : M (Unit {0})}
    (items : List Item)
    → Runs m (Served executable c λ broker. Connection broker λ a. Connection broker λ b. L a b)
    → ((a b : ℕ) → (a == b) ≡ false → Adds a (L a b) items [])
    → Runs m λ t.
      Served executable c (λ broker. Connection broker λ a. Connection broker λ b. L a b) t
      × Served executable c
          (λ broker.
            Connection broker λ a. Connection broker λ b u. (a ≡ b) ⊎ Hearing items (heard a u))
          t
both_delivered items run adds = Passes-both run (delivered items run adds)
