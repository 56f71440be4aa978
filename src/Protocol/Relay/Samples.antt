-- ===== src/Protocol/Relay/Samples.antt =====
-- An envelope, and a channel between an application and the daemon. The codecs stand for those of the
-- crates.
use agentchat.Prelude.{◌≡◌, ◌↔◌, refl, ℕ, suc, zero, true, List, [], ◌∷◌, ◌++◌, ok, list_eqb}
use agentchat.Text.{Text, codes}
use agentchat.Protocol.Relay.Checks.{
  ensure_base64url_exact, is_base64url_char, relay_wire_protocol_version, relay_wire_crypto_suite,
  relay_peer_daemon,
}
use agentchat.Protocol.Relay.Messages.{
  RelayEnvelope, validate_envelope, SecureChannelHello, SecureChannelAccept, validate_hello,
  validate_accept,
}
use agentchat.Protocol.Relay.Channel.{
  Codecs, derive_channel_id, canonicalize_value, hello_signature_input,
}
use agentchat.Protocol.Relay.Accepted.{IsEnvelope, validate_envelope_iff}
use agentchat.Protocol.Relay.Derived.{derive_channel_id-valid}

abbrev uuid : Text
uuid = codes "550e8400-e29b-41d4-a716-446655440000"

abbrev envelope : RelayEnvelope
envelope = record {
  message_type = codes "relay_envelope";
  id = uuid;
  timestamp = 0;
  from = codes "daemon";
  to = codes "app:phone";
  channel_id = codes "AAAAAAAAAAAAAAAAAAAAAA";
  seq = 1;
  ciphertext = codes "AAAAAAAAAAAAAAAA";
}

accepted : validate_envelope (λ t. true) envelope ≡ ok tt
unfolding validate_envelope list_eqb
accepted = refl

validate_envelope_iff_example :
    (validate_envelope (λ t. true) envelope ≡ ok tt) ↔ IsEnvelope (λ t. true) envelope
validate_envelope_iff_example = validate_envelope_iff (λ t. true) envelope

abbrev copies : ℕ → ℕ → List ℕ
copies zero c = []
copies (suc n) c = c ∷ copies n c

abbrev codecs : Codecs
codecs = record {
  parses_uuid = λ t. true;
  quote = λ t. codes "\"" ++ t ++ codes "\"";
  sha256 = λ bytes. copies 32 7;
  encode = λ bytes. copies 22 b'A';
}

abbrev hello : SecureChannelHello
hello = record {
  message_type = codes "secure_channel_hello";
  id = uuid;
  timestamp = 1;
  protocol_version = relay_wire_protocol_version;
  from = codes "app:phone";
  to = relay_peer_daemon;
  connection_id = codes "rc_AAAAAAAAAAAA";
  crypto_suite = relay_wire_crypto_suite;
  ephemeral_public_key = copies 43 b'k';
  expires_at = 9;
  signature = copies 86 b's';
}

abbrev answer : SecureChannelAccept
answer = record {
  message_type = codes "secure_channel_accept";
  id = uuid;
  timestamp = 1;
  protocol_version = relay_wire_protocol_version;
  from = relay_peer_daemon;
  to = codes "app:phone";
  hello_id = uuid;
  connection_id = codes "rc_AAAAAAAAAAAA";
  crypto_suite = relay_wire_crypto_suite;
  ephemeral_public_key = copies 43 b'k';
  expires_at = 9;
  signature = copies 86 b's';
}

-- The keys of the text that is signed are in order.
signed :
    canonicalize_value codecs.quote
      (hello_signature_input (record hello { ephemeral_public_key = codes "k" }))
    ≡ codes
        "{\"connection_id\":\"rc_AAAAAAAAAAAA\",\"crypto_suite\":\"X25519_Ed25519_ChaCha20Poly1305_HKDFSHA256_v1\",\"ephemeral_public_key\":\"k\",\"expires_at\":9,\"from\":\"app:phone\",\"protocol_version\":\"relay-wire/0.1\",\"to\":\"daemon\",\"type\":\"secure_channel_hello\"}"
unfolding canonicalize_value hello_signature_input
signed = refl

derive_channel_id-valid_example :
    (validate_hello codecs.parses_uuid hello ≡ ok tt)
    × (validate_accept codecs.parses_uuid answer ≡ ok tt)
    × (ensure_base64url_exact (codes "channel_id") (copies 22 b'A') 22 ≡ ok tt)
unfolding derive_channel_id is_base64url_char list_eqb
derive_channel_id-valid_example =
    derive_channel_id-valid codecs (λ bytes. refl) (λ bytes n. (refl, refl)) hello answer refl
