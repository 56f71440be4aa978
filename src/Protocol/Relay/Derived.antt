-- ===== src/Protocol/Relay/Derived.antt =====
-- relay.rs: the id of a channel that `derive_channel_id` finds.
use agentchat.Prelude.{
  ◌≡◌, refl, ap, subst, ℕ, zero, suc, ◌≤◌, true, List, [], ◌∷◌, all, length, ok, err, ◌>>=◌,
  value_of, some_inj, arith,
}
use agentchat.Text.{Text, codes}
use agentchat.Protocol.Relay.Checks.{Checked, ensure_base64url_exact, is_base64url_char}
use agentchat.Protocol.Relay.Messages.{
  SecureChannelHello, SecureChannelAccept, validate_hello, validate_accept,
}
use agentchat.Protocol.Relay.Channel.{Codecs, derivable, take, channel_digest, derive_channel_id}
use agentchat.Protocol.Relay.Accepted.{ensure_base64url_exact_iff}

derivable-ok :
    (r q : Checked) (v : Text) {id : Text}
    → (derivable r >>= λ _. derivable q >>= λ _. ok v) ≡ ok id
    → (r ≡ ok tt) × (q ≡ ok tt) × (v ≡ id)
unfolding derivable
derivable-ok (ok x) (ok y) v h = (refl, refl, some_inj (ap value_of h))
derivable-ok (ok x) (err e) v h = ground (arith, ap value_of h)
derivable-ok (err e) q v h = ground (arith, ap value_of h)

length-take : (n : ℕ) (bs : List ℕ) → n ≤ length bs → length (take n bs) ≡ n
length-take zero bs h = refl
length-take (suc n) [] h = ground (arith, h)
length-take (suc n) (b ∷ bs) h = omega (arith, length-take n bs (omega (arith, h)))

-- A channel's id is derived only from a hello and an acceptance that are valid, and an envelope may
-- have it as its `channel_id`, where digests have 32 bytes and the encoding makes 22 characters of
-- base64url of 16 bytes.
pub derive_channel_id-valid :
    (c : Codecs) (digest : (bytes : List ℕ) → length (c.sha256 bytes) ≡ 32)
    (encoded : (bytes : List ℕ)
      → length bytes ≡ 16
      → (length (c.encode bytes) ≡ 22) × (all is_base64url_char (c.encode bytes) ≡ true))
    (hello : SecureChannelHello) (accept : SecureChannelAccept) {id : Text}
    → derive_channel_id c hello accept ≡ ok id
    → (validate_hello c.parses_uuid hello ≡ ok tt)
      × (validate_accept c.parses_uuid accept ≡ ok tt)
      × (ensure_base64url_exact (codes "channel_id") id 22 ≡ ok tt)
unfolding derive_channel_id channel_digest
derive_channel_id-valid c digest encoded hello accept {id} h =
    let derived =
      derivable-ok (validate_hello c.parses_uuid hello) (validate_accept c.parses_uuid accept) _
        h in
    let bytes = channel_digest c hello accept in
    let short = length-take 16 bytes (omega (arith, digest _)) in
    (
      derived.0,
      derived.1,
      (ensure_base64url_exact_iff (codes "channel_id") id 22).1 (
          subst (λ t. (length t ≡ 22) × (all is_base64url_char t ≡ true)) derived.2
            (encoded _ short)),
    )
