-- ===== src/Protocol/Relay/Messages.antt =====
-- relay.rs: the messages and their `validate`.
use agentchat.Prelude.{ℕ, not, Option, ◌>>◌, ◌==◌, nat_eq, Bool}
use agentchat.Text.{Text, codes}
use agentchat.Protocol.Relay.Checks.{
  Checked, ensure, ensure_message_type, ensure_protocol_version, ensure_crypto_suite, ensure_role,
  ensure_non_empty, ensure_uuid, ensure_app_peer_id, ensure_peer_id, ensure_connection_id,
  ensure_base64url_exact, ensure_base64url_min, relay_peer_daemon,
}

pub record RelayReady : Type 0 where
  pub message_type : Text
  pub id : Text
  pub timestamp : ℕ
  pub protocol_version : Text
  pub device_id : Text
  pub role : Text
  pub peer_id : Text
  pub connection_id : Text

pub record RelayError : Type 0 where
  pub message_type : Text
  pub id : Text
  pub timestamp : ℕ
  pub code : Text
  pub message : Text
  pub ref_id : Option Text

pub record SecureChannelHello : Type 0 where
  pub message_type : Text
  pub id : Text
  pub timestamp : ℕ
  pub protocol_version : Text
  pub from : Text
  pub to : Text
  pub connection_id : Text
  pub crypto_suite : Text
  pub ephemeral_public_key : Text
  pub expires_at : ℕ
  pub signature : Text

pub record SecureChannelAccept : Type 0 where
  pub message_type : Text
  pub id : Text
  pub timestamp : ℕ
  pub protocol_version : Text
  pub from : Text
  pub to : Text
  pub hello_id : Text
  pub connection_id : Text
  pub crypto_suite : Text
  pub ephemeral_public_key : Text
  pub expires_at : ℕ
  pub signature : Text

pub record RelayEnvelope : Type 0 where
  pub message_type : Text
  pub id : Text
  pub timestamp : ℕ
  pub from : Text
  pub to : Text
  pub channel_id : Text
  pub seq : ℕ
  pub ciphertext : Text

module _ (parses : Text → Bool) where
  unfoldable pub validate_ready : RelayReady → Checked
  unfolding ensure_message_type ensure_uuid ensure_protocol_version ensure_non_empty ensure_role
      ensure_peer_id ensure_connection_id
  validate_ready m =
      ensure_message_type (codes "type") m.message_type (codes "relay_ready")
      >> ensure_uuid parses (codes "id") m.id
      >> ensure_protocol_version m.protocol_version
      >> ensure_non_empty (codes "device_id") m.device_id
      >> ensure_role (codes "role") m.role
      >> ensure_peer_id (codes "peer_id") m.peer_id
      >> ensure_connection_id (codes "connection_id") m.connection_id

  unfoldable pub validate_hello : SecureChannelHello → Checked
  unfolding ensure_message_type ensure_uuid ensure_protocol_version ensure_app_peer_id
      ensure_connection_id ensure_crypto_suite ensure_base64url_exact
  validate_hello m =
      ensure_message_type (codes "type") m.message_type (codes "secure_channel_hello")
      >> ensure_uuid parses (codes "id") m.id
      >> ensure_protocol_version m.protocol_version
      >> ensure_app_peer_id (codes "from") m.from
      >> ensure_message_type (codes "to") m.to relay_peer_daemon
      >> ensure_connection_id (codes "connection_id") m.connection_id
      >> ensure_crypto_suite m.crypto_suite
      >> ensure_base64url_exact (codes "ephemeral_public_key") m.ephemeral_public_key 43
      >> ensure_base64url_exact (codes "signature") m.signature 86

  unfoldable pub validate_accept : SecureChannelAccept → Checked
  unfolding ensure_message_type ensure_uuid ensure_protocol_version ensure_app_peer_id
      ensure_connection_id ensure_crypto_suite ensure_base64url_exact
  validate_accept m =
      ensure_message_type (codes "type") m.message_type (codes "secure_channel_accept")
      >> ensure_uuid parses (codes "id") m.id
      >> ensure_protocol_version m.protocol_version
      >> ensure_message_type (codes "from") m.from relay_peer_daemon
      >> ensure_app_peer_id (codes "to") m.to
      >> ensure_uuid parses (codes "hello_id") m.hello_id
      >> ensure_connection_id (codes "connection_id") m.connection_id
      >> ensure_crypto_suite m.crypto_suite
      >> ensure_base64url_exact (codes "ephemeral_public_key") m.ephemeral_public_key 43
      >> ensure_base64url_exact (codes "signature") m.signature 86

  unfoldable pub validate_envelope : RelayEnvelope → Checked
  unfolding ensure_message_type ensure_uuid ensure_peer_id ensure_base64url_exact
      ensure_base64url_min
  validate_envelope m =
      ensure_message_type (codes "type") m.message_type (codes "relay_envelope")
      >> ensure_uuid parses (codes "id") m.id
      >> ensure_peer_id (codes "from") m.from
      >> ensure_peer_id (codes "to") m.to
      >> ensure_base64url_exact (codes "channel_id") m.channel_id 22
      >> ensure (not (m.seq == 0)) (codes "seq") (codes "must be an integer >= 1")
      >> ensure_base64url_min (codes "ciphertext") m.ciphertext 16
