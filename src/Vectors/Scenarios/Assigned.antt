-- ===== src/Vectors/Scenarios/Assigned.antt =====
-- `assigned_client_identifier` of tools/interop/mqtt_mosquitto_vectors.py.
use netz.Base.{
  ℕ, ◌+◌, ◌*◌, Bool, true, false, not, ◌&&◌, ◌||◌, none, some, List, [], ◌∷◌, map, Bytes, length,
  take, drop, bytes_eq, ltb, leb, ◌==◌, if◌then◌else◌,
}
use netz.Base.Strings.{starts_with, split_scalar}
use netz.Vectors.World.{
  Text, text, number, hex, repr, txt, unicode_error, M, pure, raise, check, ◌>>=◌, ◌>>◌,
}
use netz.Vectors.Socket.{sendall}
use netz.Vectors.Mosquitto.{MqttPackets, Mqtt5Props, connect_args}
use netz.Vectors.Harness.{index, read_packet, expect_packet}
use netz.Vectors.Broker.{config, with_broker, with_socket, expected_connack}

abbrev pub every : (ℕ → Bool) → Bytes → Bool
every p [] = true
every p (b ∷ bs) = p b && every p bs

-- `value.decode("ascii")`: a string of ASCII characters is its bytes.
unfoldable pub decode_ascii : Bytes → M Bytes
unfolding pure raise
decode_ascii value = if every (λ b. ltb b 128) value then pure value else raise unicode_error

-- "netz-" and '-'
abbrev pub netz_prefix : Bytes
netz_prefix = 110 ∷ 101 ∷ 116 ∷ 122 ∷ 45 ∷ []

abbrev pub dash : ℕ
dash = 45

-- `removeprefix`
unfoldable pub remove_prefix : Bytes → Bytes → Bytes
unfolding starts_with
remove_prefix prefix value = if starts_with value prefix then drop (length prefix) value else value

-- `char in "0123456789abcdef"`
abbrev pub is_hexadecimal : ℕ → Bool
is_hexadecimal b = (leb 48 b && leb b 57) || (leb 97 b && leb b 102)

abbrev pub every_part : List Bytes → Bool
every_part [] = true
every_part (part ∷ parts) = every is_hexadecimal part && every_part parts

-- The test of the identifier's shape
unfoldable pub is_assigned : Bytes → Bool
unfolding starts_with split_scalar remove_prefix
is_assigned client_id =
    let parts = split_scalar dash (remove_prefix netz_prefix client_id) in
    starts_with client_id netz_prefix
    && (bytes_eq (map length parts) (8 ∷ 4 ∷ 4 ∷ 4 ∷ 12 ∷ []) && every_part parts)

module _ (executable : Text) (mqtt_packets : MqttPackets) where
  open mqtt_packets use {gen_connect, gen_pingreq, gen_pingresp, gen_disconnect}

  abbrev labelled : ℕ → Text → Text
  labelled position rest = text "assigned client " ∷ number position ∷ rest

  -- The body of the loop over the two sockets: the identifier that it appends
  unfoldable pub assigned : Mqtt5Props → ℕ → ℕ → M Bytes
  assigned mqtt5_props position sock = do
    sendall sock (gen_connect (record (connect_args none 5) { clean_session = some true }))
    connack ← read_packet sock
    kind ← index connack 0
    check
        (not (kind == 0x20)
          || (not (bytes_eq (take 2 (drop 2 connack)) (0 ∷ 0 ∷ [])) || ltb (length connack) 5))
        (labelled position (text " invalid CONNACK: " ∷ hex connack ∷ []))
    property_length ← index connack 4
    check (not (5 + property_length == length connack))
        (labelled position (text " malformed property length: " ∷ hex connack ∷ []))
    let properties = take property_length (drop 5 connack)
    check (ltb (length properties) 3)
        (labelled position (text " missing property: " ∷ hex connack ∷ []))
    id ← index properties 0
    check (not (id == mqtt5_props.assigned_client_identifier))
        (labelled position (text " missing property: " ∷ hex connack ∷ []))
    high ← index properties 1
    low ← index properties 2
    let value_len = high * 256 + low
    let value = take value_len (drop 3 properties)
    check (not (length value == value_len))
        (labelled position (text " malformed property: " ∷ hex connack ∷ []))
    client_id ← decode_ascii value
    check (not (is_assigned client_id))
        (labelled position (text " invalid identifier: " ∷ repr client_id ∷ []))
    let base_properties =
        drop 5 (expected_connack mqtt_packets mqtt5_props false (16 * 1024 * 1024) 16 [])
    check (not (bytes_eq (drop value_len (drop 3 properties)) base_properties))
        (labelled position (text " invalid capabilities: " ∷ hex connack ∷ []))
    pure client_id

  unfoldable pub assigned_client_identifier : Mqtt5Props → M (Unit {0})
  unfolding assigned
  assigned_client_identifier mqtt5_props =
      with_broker executable (record config { connections = 2 })
        λ broker. with_socket broker λ first. with_socket broker λ second. do
          first_id ← assigned mqtt5_props 1 first
          second_id ← assigned mqtt5_props 2 second
          check (bytes_eq first_id second_id)
              (txt "anonymous clients received duplicate identifiers")
          sendall first gen_pingreq
          expect_packet first gen_pingresp (txt "first anonymous client remains live")
          sendall first (gen_disconnect none 5 none)
          sendall second (gen_disconnect none 5 none)
