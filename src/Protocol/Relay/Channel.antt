-- ===== src/Protocol/Relay/Channel.antt =====
-- relay.rs: canonical JSON, and the id of a channel. `serde_json::to_string` of a string, SHA-256 and
-- `URL_SAFE_NO_PAD.encode` are the record `Codecs`. Of the JSON numbers there are the natural ones; an
-- object is the list of its entries.
use agentchat.Prelude.{
  ℕ, zero, suc, Bool, true, false, ◌||◌, ◌&&◌, List, [], ◌∷◌, ◌++◌, if◌then◌else◌, ltb, Result, ok,
  err, ◌>>=◌, map, ◌==◌, nat_eq,
}
use agentchat.Text.{Text, codes, as_bytes, show_number}
use agentchat.Protocol.Relay.Checks.{RelayWireValidationError, Checked}
use agentchat.Protocol.Relay.Messages.{
  SecureChannelHello, SecureChannelAccept, validate_hello, validate_accept,
}

-- Writing a string as JSON does not fail.
pub record Codecs : Type 0 where
  pub parses_uuid : Text → Bool
  pub quote : Text → Text
  pub sha256 : List ℕ → List ℕ
  pub encode : List ℕ → Text

mutual
  pub data Value : Type 0 where
    null : Value
    bool : Bool → Value
    number : ℕ → Value
    string : Text → Value
    array : Values → Value
    object : Entries → Value

  pub data Values : Type 0 where
    no_values : Values
    value_and : Value → Values → Values

  pub data Entries : Type 0 where
    no_entries : Entries
    entry_and : Text → Value → Entries → Entries

-- The order of keys: that of their bytes is that of their code points.
unfoldable pub key_le : Text → Text → Bool
key_le [] ys = true
key_le (x ∷ xs) [] = false
key_le (x ∷ xs) (y ∷ ys) = let rest = key_le xs ys in ltb x y || x == y && rest

-- `sort_by` of entries that are written already, which is stable.
unfoldable pub insert_entry : Text × Text → List (Text × Text) → List (Text × Text)
unfolding key_le
insert_entry e [] = e ∷ []
insert_entry e (f ∷ fs) =
    let rest = insert_entry e fs in if key_le e.0 f.0 then e ∷ f ∷ fs else f ∷ rest

unfoldable pub sort_entries : List (Text × Text) → List (Text × Text)
unfolding insert_entry
sort_entries [] = []
sort_entries (e ∷ es) = insert_entry e (sort_entries es)

abbrev entry_text : (Text → Text) → Text × Text → Text
entry_text quote (key, value) = quote key ++ (codes ":" ++ value)

-- The parts, with a comma before each but the first.
unfoldable pub comma_separated : List Text → Text
comma_separated [] = []
comma_separated (t ∷ []) = t
comma_separated (t ∷ u ∷ ts) = t ++ (codes "," ++ comma_separated (u ∷ ts))

-- The entries are written before they are sorted, not after: no write of one depends on another.
unfoldable mutual
  unfolding show_number sort_entries comma_separated

  pub canonicalize_value : (Text → Text) → Value → Text
  canonicalize_value quote null = codes "null"
  canonicalize_value quote (bool b) = if b then codes "true" else codes "false"
  canonicalize_value quote (number n) = show_number n
  canonicalize_value quote (string s) = quote s
  canonicalize_value quote (array vs) =
      codes "[" ++ (comma_separated (write_values quote vs) ++ codes "]")
  canonicalize_value quote (object es) =
      codes "{"
      ++ (comma_separated (map (entry_text quote) (sort_entries (write_entries quote es)))
          ++ codes "}")

  pub write_values : (Text → Text) → Values → List Text
  write_values quote no_values = []
  write_values quote (value_and v vs) = canonicalize_value quote v ∷ write_values quote vs

  pub write_entries : (Text → Text) → Entries → List (Text × Text)
  write_entries quote no_entries = []
  write_entries quote (entry_and key v es) =
      (key, canonicalize_value quote v) ∷ write_entries quote es

unfoldable pub hello_signature_input : SecureChannelHello → Value
hello_signature_input m = object (
    entry_and (codes "type") (string (codes "secure_channel_hello")) (
      entry_and (codes "protocol_version") (string m.protocol_version) (
        entry_and (codes "from") (string m.from) (
          entry_and (codes "to") (string m.to) (
            entry_and (codes "connection_id") (string m.connection_id) (
              entry_and (codes "crypto_suite") (string m.crypto_suite) (
                entry_and (codes "ephemeral_public_key") (string m.ephemeral_public_key)
                  (entry_and (codes "expires_at") (number m.expires_at) no_entries))))))))

unfoldable pub accept_signature_input : SecureChannelAccept → Value
accept_signature_input m = object (
    entry_and (codes "type") (string (codes "secure_channel_accept")) (
      entry_and (codes "protocol_version") (string m.protocol_version) (
        entry_and (codes "from") (string m.from) (
          entry_and (codes "to") (string m.to) (
            entry_and (codes "hello_id") (string m.hello_id) (
              entry_and (codes "connection_id") (string m.connection_id) (
                entry_and (codes "crypto_suite") (string m.crypto_suite) (
                  entry_and (codes "ephemeral_public_key") (string m.ephemeral_public_key)
                    (entry_and (codes "expires_at") (number m.expires_at) no_entries)))))))))

-- `RelayWireDerivationError`, from a validation error: its `Display`.
unfoldable pub from_validation : RelayWireValidationError → Text
from_validation e = codes "invalid relay wire field `" ++ (e.field ++ (codes "`: " ++ e.message))

unfoldable pub derivable : Checked → Result Text (Unit {0})
unfolding from_validation
derivable (ok x) = ok x
derivable (err e) = err (from_validation e)

abbrev pub take : ℕ → List ℕ → List ℕ
take zero bs = []
take (suc n) [] = []
take (suc n) (b ∷ bs) = b ∷ take n bs

-- The digest that names the channel of two messages.
unfoldable pub channel_digest : Codecs → SecureChannelHello → SecureChannelAccept → List ℕ
unfolding canonicalize_value hello_signature_input accept_signature_input as_bytes
channel_digest c hello accept =
    let transcript =
      as_bytes (canonicalize_value c.quote (hello_signature_input hello))
      ++ as_bytes (canonicalize_value c.quote (accept_signature_input accept)) in
    c.sha256 (as_bytes (codes "agentchat-channel") ++ c.sha256 transcript)

unfoldable pub derive_channel_id :
    Codecs → SecureChannelHello → SecureChannelAccept → Result Text Text
unfolding validate_hello validate_accept derivable channel_digest
derive_channel_id c hello accept = derivable (validate_hello c.parses_uuid hello) >>= λ _.
    derivable (validate_accept c.parses_uuid accept) >>= λ _.
    ok (c.encode (take 16 (channel_digest c hello accept)))
