-- ===== src/Vectors/Runs/Connects.antt =====
-- The traces of `connect_client`, `connect_v5` and `connect_persistent_v5`.
use netz.Base.{
  ℕ, ◌≤◌, ◌<◌, Bool, true, false, not, ◌||◌, ◌≡◌, refl, ap, ◌∙◌, some, [], ◌∷◌, Bytes, take, drop,
  bytes_eq→eq, length, get_elem?, ltb, leb, ◌==◌, arith, if◌then◌else◌, append-nil,
}
use netz.Vectors.World.{Text, Trace, sent}
use netz.Vectors.Scenarios.FlowControl.{is_plain_success, expect_plain_success}
use netz.Vectors.Mosquitto.{MqttPackets, connect_args}
use netz.Vectors.Broker.{
  connect_client, connect_v5, connect_persistent_v5, byte_is, is_success, expect_success,
}
use netz.Vectors.Runs.{
  Passes, Runs, Exactly→eq, Passes-bind, Passes-mono, Passes-pure, Passes-if, Runs-check,
}
use netz.Vectors.Runs.Sockets.{gets, Passes-read_packet, Passes-index, Runs-sendall}

-- A CONNECT goes out, and the next packet from the broker is in `P`.
pub data Accepted (s : ℕ) (connect : Bytes) (P : Bytes → Type 0) : Trace → Type 0 where
  accepted :
      {t : Trace} (connack : Bytes)
      → P connack
      → t ≡ sent s connect ∷ gets s connack
      → Accepted s connect P t

-- A CONNACK of at least `minimum` bytes, with a reason code that is no error
pub record IsConnack (minimum : ℕ) (p : Bytes) : Type 0 where
  pub kind : get_elem? p 0 ≡ some 0x20
  pub long_enough : minimum ≤ length p
  pub reason : ℕ
  pub reason_at : get_elem? p 3 ≡ some reason
  pub reason_small : reason < 0x80

-- A CONNACK with the success code and this Session Present flag
pub record IsResumed (session_present : Bool) (p : Bytes) : Type 0 where
  pub kind : get_elem? p 0 ≡ some 0x20
  pub long_enough : 5 ≤ length p
  pub flags : get_elem? p 2 ≡ some (if session_present then 1 else 0)
  pub reason : get_elem? p 3 ≡ some 0

abbrev minimum_len : ℕ → ℕ
minimum_len proto_ver = if proto_ver == 5 then 5 else 4

module _ (mqtt_packets : MqttPackets) where
  good-IsConnack :
      (proto_ver : ℕ) (p : Bytes)
      → (byte_is mqtt_packets (λ b. not (b == 0x20)) p 0
          || ltb (length p) (minimum_len proto_ver)
          || byte_is mqtt_packets (λ b. leb 0x80 b) p 3)
        ≡ false
      → IsConnack (minimum_len proto_ver) p
  good-IsConnack v (a ∷ b ∷ c ∷ d ∷ p) h = record {
    kind = ground arith;
    long_enough = ground arith;
    reason = d;
    reason_at = refl;
    reason_small = ground arith;
  }
  good-IsConnack v _ h = absurd (ground arith)

  good-IsResumed :
      (session_present : Bool) (p : Bytes)
      → (byte_is mqtt_packets (λ b. not (b == 0x20)) p 0
          || ltb (length p) 5
          || byte_is mqtt_packets (λ b. not (b == (if session_present then 1 else 0))) p 2
          || byte_is mqtt_packets (λ b. not (b == 0)) p 3)
        ≡ false
      → IsResumed session_present p
  good-IsResumed s (a ∷ b ∷ c ∷ d ∷ e ∷ p) h = ground arith
  good-IsResumed s _ h = absurd (ground arith)

  pub Runs-connect_client :
      (s : ℕ) (client_id : Text) (proto_ver : ℕ)
      → Runs (connect_client mqtt_packets s client_id proto_ver) (
          Accepted s
            (mqtt_packets.gen_connect (connect_args (some client_id) proto_ver))
            (IsConnack (minimum_len proto_ver)))
  unfolding connect_client
  Runs-connect_client s client_id proto_ver = Passes-bind (Runs-sendall s _) λ _ t out.
      Passes-bind (Passes-read_packet s) λ connack u back. Passes-mono (Runs-check _ _) λ _ v same.
        accepted connack (good-IsConnack proto_ver connack same.1)
          (rw (Exactly→eq out, back, same.0, append-nil))

  -- MQTT 5
  abbrev pub Connected : ℕ → Text → Trace → Type 0
  Connected s client_id =
      Accepted s (mqtt_packets.gen_connect (connect_args (some client_id) 5)) (IsConnack 5)

  pub Runs-connect_v5 :
      (s : ℕ) (client_id : Text)
      → Runs (connect_v5 mqtt_packets s client_id) (Connected s client_id)
  unfolding connect_v5
  Runs-connect_v5 s client_id = Runs-connect_client s client_id 5

  abbrev pub Persistent : ℕ → Text → Bool → Trace → Type 0
  Persistent s client_id session_present =
      Accepted s
        (mqtt_packets.gen_connect (record (connect_args (some client_id) 5) {
          clean_session = some false;
          session_expiry = some 60;
        }))
        (IsResumed session_present)

  pub Runs-connect_persistent_v5 :
      (s : ℕ) (client_id : Text) (session_present : Bool)
      → Runs
          (connect_persistent_v5 mqtt_packets s client_id session_present)
          (Persistent s client_id session_present)
  unfolding connect_persistent_v5
  Runs-connect_persistent_v5 s client_id session_present = Passes-bind (Runs-sendall s _) λ _ t out.
      Passes-bind (Passes-read_packet s) λ connack u back. Passes-mono (Runs-check _ _) λ _ v same.
        accepted connack (good-IsResumed session_present connack same.1)
          (rw (Exactly→eq out, back, same.0, append-nil))

-- The next packet from the broker is a CONNACK with the success code.
pub data Success (s : ℕ) : Trace → Type 0 where
  success :
      {t : Trace} (connack : Bytes)
      → get_elem? connack 0 ≡ some 0x20
      → get_elem? connack 3 ≡ some 0
      → t ≡ gets s connack
      → Success s t

Passes-is_success :
    (p : Bytes)
    → Passes (is_success p) (λ good t.
      (t ≡ []) × (good ≡ true → (get_elem? p 0 ≡ some 0x20) × (get_elem? p 3 ≡ some 0)))
unfolding is_success
Passes-is_success p = Passes-bind (Passes-index p 0) λ kind t k.
    Passes-if (kind == 0x20)
      (λ same. Passes-bind (Passes-index p 3) λ reason u r.
        Passes-pure _
          (rw (k.0, r.0) refl, λ h. (k.1 ∙ ap some (ground arith), r.1 ∙ ap some (ground arith))))
      (λ _. Passes-pure false (rw k.0 refl, λ h. absurd (ground arith)))

pub Runs-expect_success : (s : ℕ) (label : Text) → Runs (expect_success s label) (Success s)
unfolding expect_success
Runs-expect_success s label = Passes-bind (Passes-read_packet s) λ connack t back.
    Passes-bind (Passes-is_success connack) λ good u test. Passes-mono (Runs-check _ _) λ _ v same.
      let (kind, reason) = test.1 (ground arith) in
      success connack kind reason (rw (back, test.0, same.0, append-nil))

-- The next packet from the broker starts with 0x20, and its third and fourth bytes are zero.
pub data PlainSuccess (s : ℕ) : Trace → Type 0 where
  plain_success :
      {t : Trace} (connack : Bytes)
      → get_elem? connack 0 ≡ some 0x20
      → take 2 (drop 2 connack) ≡ 0 ∷ 0 ∷ []
      → t ≡ gets s connack
      → PlainSuccess s t

Passes-is_plain_success :
    (p : Bytes)
    → Passes (is_plain_success p) (λ good t.
      (t ≡ []) × (good ≡ true → (get_elem? p 0 ≡ some 0x20) × (take 2 (drop 2 p) ≡ 0 ∷ 0 ∷ [])))
unfolding is_plain_success
Passes-is_plain_success p = Passes-bind (Passes-index p 0) λ kind t k.
    Passes-pure _ (rw k.0 refl, λ h. (k.1 ∙ ap some (ground arith), bytes_eq→eq _ _ (ground arith)))

pub Runs-expect_plain_success :
    (s : ℕ) (label : Text) → Runs (expect_plain_success s label) (PlainSuccess s)
unfolding expect_plain_success
Runs-expect_plain_success s label = Passes-bind (Passes-read_packet s) λ connack t back.
    Passes-bind (Passes-is_plain_success connack) λ good u test.
      Passes-mono (Runs-check _ _) λ _ v same.
        let (kind, flags) = test.1 (ground arith) in
        plain_success connack kind flags (rw (back, test.0, same.0, append-nil))
