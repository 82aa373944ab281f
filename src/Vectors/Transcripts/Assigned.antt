-- ===== src/Vectors/Transcripts/Assigned.antt =====
-- The conversation of `assigned_client_identifier` of tools/interop/mqtt_mosquitto_vectors.py.
use netz.Base.{
  ℕ, zero, suc, ◌+◌, ◌-◌, ◌*◌, ◌≡◌, ◌≢◌, refl, sym, ap, ◌∙◌, true, false, not, Bool, none, some, [],
  ◌∷◌, ◌++◌, Bytes, length, take, take_all, drop, get_elem?, bytes_eq, bytes_eq→eq, bytes_eq_refl,
  append-nil, ltb, ◌==◌, ==_iff, arith, ◌||◌,
}
use netz.Vectors.World.{Text, Trace, sent}
use netz.Vectors.Mosquitto.{MqttPackets, Mqtt5Props, connect_args}
use netz.Vectors.Broker.{config, expected_connack}
use netz.Vectors.Runs.{
  Passes, Runs, Exactly→eq, Passes-bind, Passes-pure, Passes-raise, Passes-mono, Passes-if,
  Runs-check, ◌⨾◌, ◌▸◌, joined,
}
use netz.Vectors.Runs.Sockets.{
  gets, Passes-index, Passes-read_packet, Runs-sendall, Runs-expect_packet,
}
use netz.Vectors.Runs.Brokers.{Served, Connection, Runs-with_broker, Runs-with_socket}
use netz.Vectors.Transcripts.Rules.{Says, Hears}
use netz.Vectors.Transcripts.Identifier.{IsIdentifier, is_assigned-IsIdentifier}
use netz.Vectors.Scenarios.Assigned.{
  decode_ascii, every, is_assigned, assigned, assigned_client_identifier,
}

length-drop : (n : ℕ) (xs : Bytes) → length (drop n xs) ≡ length xs - n
length-drop zero xs = omega arith
length-drop (suc n) [] = omega arith
length-drop (suc n) (x ∷ xs) = omega (arith, length-drop n xs)

take-append-drop : (n : ℕ) (xs : Bytes) → take n xs ++ drop n xs ≡ xs
take-append-drop zero xs = refl
take-append-drop (suc n) [] = refl
take-append-drop (suc n) (x ∷ xs) = ap (λ ys. x ∷ ys) (take-append-drop n xs)

first_three :
    (xs : Bytes) {a b c : ℕ}
    → get_elem? xs 0 ≡ some a
    → get_elem? xs 1 ≡ some b
    → get_elem? xs 2 ≡ some c
    → xs ≡ a ∷ b ∷ c ∷ drop 3 xs
first_three [] p q r = absurd (ground arith)
first_three (x ∷ []) p q r = absurd (ground arith)
first_three (x ∷ y ∷ []) p q r = absurd (ground arith)
first_three (x ∷ y ∷ z ∷ xs) p q r = ground arith

Passes-decode_ascii :
    (value : Bytes) → Passes (decode_ascii value) (λ id t. (t ≡ []) × (id ≡ value))
unfolding decode_ascii
Passes-decode_ascii value =
    Passes-if (every (λ b. ltb b 128) value) (λ _. Passes-pure value (refl, refl))
      (λ _. Passes-raise _)

differ : (xs ys : Bytes) → bytes_eq xs ys ≡ false → xs ≢ ys
differ xs ys h e = absurd (ground (arith, bytes_eq_refl ys, rw e at h))

-- A CONNACK that gives out the identifier `id`: its properties are the identifier, written with its
-- length, and then the broker's own.
pub record GivesOut (identifier_property : ℕ) (base id connack : Bytes) : Type 0 where
  pub kind : get_elem? connack 0 ≡ some 0x20
  pub code : take 2 (drop 2 connack) ≡ 0 ∷ 0 ∷ []
  pub high : ℕ
  pub low : ℕ
  pub size : length id ≡ high * 256 + low
  pub properties : drop 5 connack ≡ identifier_property ∷ high ∷ low ∷ (id ++ base)
  pub shape : IsIdentifier id

whole_properties :
    (connack : Bytes) (n : ℕ) → 5 + n ≡ length connack → take n (drop 5 connack) ≡ drop 5 connack
whole_properties connack n e = take_all n (drop 5 connack) (omega (arith, length-drop 5 connack))

holds : {b : Bool} → not b ≡ false → b ≡ true
holds {b = true} h = refl
holds {b = false} h = absurd (ground arith)

neither : (a b c : Bool) → (not a || (not b || c)) ≡ false → (a ≡ true) × (b ≡ true)
neither true true c h = (refl, refl)
neither true false c h = absurd (ground arith)
neither false b c h = absurd (ground arith)

gives_out :
    (connack base client_id : Bytes) (identifier_property kind n id high low : ℕ)
    → get_elem? connack 0 ≡ some kind
    → (not (kind == 32)
        || (not (bytes_eq (take 2 (drop 2 connack)) (0 ∷ 0 ∷ [])) || ltb (length connack) 5))
      ≡ false
    → not (5 + n == length connack) ≡ false
    → get_elem? (take n (drop 5 connack)) 0 ≡ some id
    → not (id == identifier_property) ≡ false
    → get_elem? (take n (drop 5 connack)) 1 ≡ some high
    → get_elem? (take n (drop 5 connack)) 2 ≡ some low
    → not (length (take (high * 256 + low) (drop 3 (take n (drop 5 connack)))) == high * 256 + low)
      ≡ false
    → client_id ≡ take (high * 256 + low) (drop 3 (take n (drop 5 connack)))
    → not (is_assigned client_id) ≡ false
    → not (bytes_eq (drop (high * 256 + low) (drop 3 (take n (drop 5 connack)))) base) ≡ false
    → GivesOut identifier_property base client_id connack
gives_out connack base client_id identifier_property kind n id high low k c1 c2 p0 c4 p1 p2 c5 d c6
      c7 =
    let (is_kind, is_code) = neither _ _ _ c1 in
    let whole = whole_properties connack n ((==_iff _ _).0 (holds c2)) in
    let shape = rw whole at (first_three (take n (drop 5 connack)) p0 p1 p2) in
    let rest = drop 3 (drop 5 connack) in
    let same_id : id ≡ identifier_property = (==_iff _ _).0 (holds c4) in
    let value : client_id ≡ take (high * 256 + low) rest = rw whole at d in
    let base_is : drop (high * 256 + low) rest ≡ base = bytes_eq→eq _ _ (holds (rw whole at c7)) in
    record {
      kind = k ∙ ap some ((==_iff kind 32).0 is_kind);
      code = bytes_eq→eq _ _ is_code;
      high = high;
      low = low;
      size = ap length d ∙ (==_iff _ _).0 (holds c5);
      properties =
          shape
          ∙ rw (same_id, value, ← base_is)
              (ap (λ xs. identifier_property ∷ high ∷ low ∷ xs)
                (sym (take-append-drop (high * 256 + low) rest)));
      shape = is_assigned-IsIdentifier client_id (holds c6);
    }

module _ (executable : Text) (mqtt_packets : MqttPackets) (mqtt5_props : Mqtt5Props) where
  open mqtt_packets use {gen_connect, gen_pingreq, gen_pingresp, gen_disconnect}

  abbrev pub base_properties : Bytes
  base_properties =
      drop 5 (expected_connack mqtt_packets mqtt5_props false (16 * 1024 * 1024) 16 [])

  -- An anonymous CONNECT on `s`, answered by the CONNACK that gives out `id`
  abbrev pub Anonymous : ℕ → Bytes → Trace → Type 0
  Anonymous s id t =
      (connack : Bytes) × GivesOut mqtt5_props.assigned_client_identifier base_properties id connack
      × (t
          ≡ sent s (gen_connect (record (connect_args none 5) { clean_session = some true }))
            ∷ gets s connack)

  Passes-assigned :
      (position s : ℕ)
      → Passes (assigned executable mqtt_packets mqtt5_props position s) (Anonymous s)
  unfolding assigned
  Passes-assigned position s = Passes-bind (Runs-sendall s _) λ _ t0 out.
      Passes-bind (Passes-read_packet s) λ connack t1 back.
        Passes-bind (Passes-index connack 0) λ kind t2 k. Passes-bind (Runs-check _ _) λ _ t3 c1.
          Passes-bind (Passes-index connack 4) λ n t4 len. Passes-bind (Runs-check _ _) λ _ t5 c2.
            Passes-bind (Runs-check _ _) λ _ t6 c3. Passes-bind (Passes-index _ 0) λ id t7 p0.
              Passes-bind (Runs-check _ _) λ _ t8 c4. Passes-bind (Passes-index _ 1) λ high t9 p1.
                Passes-bind (Passes-index _ 2) λ low t10 p2.
                  Passes-bind (Runs-check _ _) λ _ t11 c5.
                    Passes-bind (Passes-decode_ascii _) λ client_id t12 d.
                      Passes-bind (Runs-check _ _) λ _ t13 c6.
                        Passes-bind (Runs-check _ _) λ _ t14 c7. Passes-pure client_id (
                          connack,
                          gives_out connack base_properties client_id _ kind n id high low k.1 c1.1
                              c2.1 p0.1 c4.1 p1.1 p2.1 c5.1 d.1 c6.1 c7.1,
                          rw
                              (
                                Exactly→eq out,
                                back,
                                k.0,
                                c1.0,
                                len.0,
                                c2.0,
                                c3.0,
                                p0.0,
                                c4.0,
                                p1.0,
                                p2.0,
                                c5.0,
                                d.0,
                                c6.0,
                                c7.0,
                                append-nil,
                              )
                              refl,
                        )

  abbrev pub AssignedClientIdentifier : Trace → Type 0
  AssignedClientIdentifier =
      Served executable (record config { connections = 2 })
        λ broker. Connection broker λ first. Connection broker λ second t.
          (first_id : Bytes) × (second_id : Bytes) × (first_id ≢ second_id)
          × (Anonymous first first_id
                ⨾ Anonymous second second_id
                ⨾ Says first gen_pingreq
                ⨾ Hears first gen_pingresp
                ⨾ Says first (gen_disconnect none 5 none)
                ⨾ Says second (gen_disconnect none 5 none))
              t

  -- A run of `assigned_client_identifier` that returns is this conversation: two anonymous clients on one
  -- broker are given different identifiers, "netz-" and then groups of 8, 4, 4, 4 and 12 lower-case
  -- hexadecimal digits with a `-` between them, each in a CONNACK with the identifier first and then exactly the broker's other properties, and the first
  -- client stays alive.
  pub assigned_client_identifier_conversation :
      Runs (assigned_client_identifier executable mqtt_packets mqtt5_props) AssignedClientIdentifier
  unfolding assigned_client_identifier
  assigned_client_identifier_conversation = Runs-with_broker executable _ λ broker.
      Runs-with_socket broker λ first. Runs-with_socket broker λ second.
        Passes-bind (Passes-assigned 1 first) λ first_id t a.
          Passes-bind (Passes-assigned 2 second) λ second_id u b.
            Passes-bind (Runs-check _ _) λ _ v c.
              Passes-mono
                (Runs-sendall first _
                  ▸ Runs-expect_packet first _ _
                  ▸ Runs-sendall first _
                  ▸ Runs-sendall second _)
                λ _ w rest. (
                  first_id,
                  second_id,
                  (λ e. differ first_id second_id c.1 e),
                  rw c.0 (joined t (u ++ w) a (joined u w b rest refl) refl),
                )
