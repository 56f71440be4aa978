-- ===== src/Protocol/Relay/Checks.antt =====
-- relay.rs: the checks of the fields of messages. `Uuid::parse_str` is the argument `parses`.
use agentchat.Prelude.{
  ℕ, zero, suc, Bool, true, false, not, ◌&&◌, ◌||◌, List, [], ◌∷◌, ◌++◌, Option, none, some,
  if◌then◌else◌, is_empty, all, ltb, leb, Result, ok, err, ◌>>◌, ◌==◌, nat_eq, list_eq,
}
use agentchat.Text.{Text, codes, trim, as_bytes, byte_len, show_number}

pub record RelayWireValidationError : Type 0 where
  pub field : Text
  pub message : Text

abbrev pub Checked : Type 0
Checked = Result RelayWireValidationError (Unit {0})

abbrev pub relay_wire_protocol_version : Text
relay_wire_protocol_version = codes "relay-wire/0.1"

abbrev pub relay_wire_crypto_suite : Text
relay_wire_crypto_suite = codes "X25519_Ed25519_ChaCha20Poly1305_HKDFSHA256_v1"

abbrev pub relay_peer_daemon : Text
relay_peer_daemon = codes "daemon"

-- `RelayWireValidationError::new`, where a test fails.
abbrev pub ensure : Bool → Text → Text → Checked
ensure true field message = ok tt
ensure false field message = err (record { field = field; message = message })

-- `{:?}` of a text that needs no escape.
abbrev quoted : Text → Text
quoted value = codes "\"" ++ value ++ codes "\""

unfoldable pub ensure_message_type : Text → Text → Text → Checked
ensure_message_type field value expected =
    ensure (value == expected) field (codes "must equal " ++ quoted expected)

unfoldable pub ensure_protocol_version : Text → Checked
unfolding ensure_message_type
ensure_protocol_version value =
    ensure_message_type (codes "protocol_version") value relay_wire_protocol_version

unfoldable pub ensure_crypto_suite : Text → Checked
unfolding ensure_message_type
ensure_crypto_suite value = ensure_message_type (codes "crypto_suite") value relay_wire_crypto_suite

unfoldable pub ensure_role : Text → Text → Checked
ensure_role field value =
    ensure (value == codes "daemon" || value == codes "app") field
      (codes "must equal \"daemon\" or \"app\"")

unfoldable pub ensure_non_empty : Text → Text → Checked
unfolding trim
ensure_non_empty field value =
    ensure (not (is_empty (trim value))) field (codes "must not be empty")

abbrev within : ℕ → ℕ → ℕ → Bool
within lo hi c = leb lo c && leb c hi

abbrev is_dash_index : ℕ → Bool
is_dash_index index = index == 8 || index == 13 || index == 18 || index == 23

-- The loop over the bytes.
unfoldable pub uuid_bytes : ℕ → List ℕ → Bool
uuid_bytes index [] = true
uuid_bytes index (b ∷ bs) =
    (if is_dash_index index then b == b'-' else within b'0' b'9' b || within b'a' b'f' b)
    && uuid_bytes (suc index) bs

-- `bytes[index]` passes a test.
unfoldable pub byte_at : ℕ → (ℕ → Bool) → List ℕ → Bool
byte_at index test [] = false
byte_at zero test (b ∷ bs) = test b
byte_at (suc index) test (b ∷ bs) = byte_at index test bs

abbrev lowercase_uuid : Text
lowercase_uuid = codes "must be a lowercase UUID string"

unfoldable pub ensure_uuid : (Text → Bool) → Text → Text → Checked
unfolding byte_len uuid_bytes byte_at
ensure_uuid parses field value =
    ensure (byte_len value == 36) field lowercase_uuid
    >> ensure (uuid_bytes 0 (as_bytes value)) field lowercase_uuid
    >> ensure (byte_at 14 (within b'1' b'8') (as_bytes value)) field
        (codes "must use a UUID version between 1 and 8")
    >> ensure (byte_at 19 (λ b. b == b'8' || b == b'9' || b == b'a' || b == b'b') (as_bytes value))
        field (codes "must use the RFC 4122 variant")
    >> ensure (parses value) field (codes "must be a syntactically valid UUID string")

unfoldable pub strip_prefix : Text → Text → Option Text
strip_prefix [] value = some value
strip_prefix (p ∷ ps) [] = none
strip_prefix (p ∷ ps) (c ∷ cs) = let rest = strip_prefix ps cs in if c == p then rest else none

abbrev is_ascii_alphanumeric : ℕ → Bool
is_ascii_alphanumeric c = within b'0' b'9' c || within b'A' b'Z' c || within b'a' b'z' c

unfoldable pub is_base64url_char : ℕ → Bool
is_base64url_char c = is_ascii_alphanumeric c || c == b'-' || c == b'_'

unfoldable pub is_peer_component_char : ℕ → Bool
is_peer_component_char c = is_ascii_alphanumeric c || c == b'.' || c == b'_' || c == b'-'

unfoldable pub ensure_ascii_component : Text → Text → ℕ → ℕ → (ℕ → Bool) → Text → Checked
unfolding byte_len
ensure_ascii_component field value min_len max_len allowed expectation =
    ensure (not (ltb (byte_len value) min_len || ltb max_len (byte_len value))) field expectation
    >> ensure (all (λ c. ltb c 128 && allowed c) value) field expectation

unfoldable pub component_after : Text → Option Text → ℕ → ℕ → (ℕ → Bool) → Text → Checked
unfolding ensure_ascii_component
component_after field none min_len max_len allowed expectation = ensure false field expectation
component_after field (some suffix) min_len max_len allowed expectation =
    ensure_ascii_component field suffix min_len max_len allowed expectation

unfoldable pub ensure_app_peer_id : Text → Text → Checked
unfolding strip_prefix component_after is_peer_component_char
ensure_app_peer_id field value =
    component_after field (strip_prefix (codes "app:") value) 1 128 is_peer_component_char
      (codes "must match ^app:[A-Za-z0-9._-]{1,128}$")

unfoldable pub ensure_peer_id : Text → Text → Checked
unfolding ensure_app_peer_id
ensure_peer_id field value =
    if value == relay_peer_daemon then ok tt else ensure_app_peer_id field value

unfoldable pub ensure_connection_id : Text → Text → Checked
unfolding strip_prefix component_after is_base64url_char
ensure_connection_id field value =
    component_after field (strip_prefix (codes "rc_") value) 12 64 is_base64url_char
      (codes "must match ^rc_[A-Za-z0-9_-]{12,64}$")

abbrev unpadded : Text
unpadded = codes "must be base64url without padding"

unfoldable pub ensure_base64url_exact : Text → Text → ℕ → Checked
unfolding byte_len is_base64url_char show_number
ensure_base64url_exact field value exact_len =
    ensure (byte_len value == exact_len) field
      (unpadded ++ (codes " and exactly " ++ (show_number exact_len ++ codes " characters long")))
    >> ensure (all is_base64url_char value) field unpadded

unfoldable pub ensure_base64url_min : Text → Text → ℕ → Checked
unfolding byte_len is_base64url_char show_number
ensure_base64url_min field value min_len =
    ensure (not (ltb (byte_len value) min_len)) field
      (unpadded ++ (codes " and at least " ++ (show_number min_len ++ codes " characters long")))
    >> ensure (all is_base64url_char value) field unpadded
