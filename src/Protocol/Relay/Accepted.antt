-- ===== src/Protocol/Relay/Accepted.antt =====
-- relay.rs: which messages of the relay are accepted, and the id of the channel that two of them name.
use agentchat.Prelude.{
  ◌≡◌, refl, sym, ap, subst, ◌∙◌, ◌↔◌, ◌⊎◌, inl, inr, ℕ, ◌≤◌, Bool, true, false, not, [], ◌∷◌, ◌++◌,
  Option, none, some, all, length, ltb, ◌&&◌, ◌||◌, if◌then◌else◌, some_inj, ok, err, ◌>>◌, ◌==◌,
  ==_iff, list_eq, nat_eq, arith,
}
use agentchat.Text.{Text, codes, as_bytes, byte_len, encode_char}
use agentchat.Protocol.Relay.Checks.{
  Checked, ensure, ensure_message_type, ensure_uuid, ensure_app_peer_id, ensure_peer_id,
  ensure_base64url_exact, ensure_base64url_min, ensure_ascii_component, component_after,
  is_base64url_char, is_peer_component_char, strip_prefix, relay_peer_daemon,
}
use agentchat.Protocol.Relay.Messages.{RelayEnvelope, validate_envelope}

ensure_iff : (b : Bool) (field message : Text) → (ensure b field message ≡ ok tt) ↔ (b ≡ true)
ensure_iff true field message = (λ _. refl, λ _. refl)
ensure_iff false field message = ground arith

-- Two checks pass where both do.
both_iff : (r q : Checked) → ((r >> q) ≡ ok tt) ↔ ((r ≡ ok tt) × (q ≡ ok tt))
both_iff (ok x) q = (λ e. (refl, e), λ h. h.1)
both_iff (err e) q = ground arith

as_bytes-ascii :
    (allowed : ℕ → Bool) (s : Text)
    → all (λ c. ltb c 128 && allowed c) s ≡ true
    → length (as_bytes s) ≡ length s
unfolding as_bytes encode_char
as_bytes-ascii allowed [] h = refl
as_bytes-ascii allowed (c ∷ cs) h = ground (arith, h, as_bytes-ascii allowed cs)

base64url-ascii :
    (s : Text)
    → all is_base64url_char s ≡ true
    → all (λ c. ltb c 128 && is_base64url_char c) s ≡ true
unfolding is_base64url_char
base64url-ascii [] h = refl
base64url-ascii (c ∷ cs) h = ground (arith, h, base64url-ascii cs)

byte_len-base64url : (s : Text) → all is_base64url_char s ≡ true → byte_len s ≡ length s
unfolding byte_len
byte_len-base64url s h = as_bytes-ascii is_base64url_char s (base64url-ascii s h)

checks_iff :
    (b c : Bool) (field message expectation : Text)
    → ((ensure b field message >> ensure c field expectation) ≡ ok tt) ↔ ((b ≡ true) × (c ≡ true))
checks_iff true c field message expectation =
    (λ e. (refl, (ensure_iff c field expectation).0 e), λ h. (ensure_iff c field expectation).1 h.1)
checks_iff false c field message expectation = ground arith

-- The characters of base64url, with a condition on their number.
pub ensure_base64url_exact_iff :
    (field value : Text) (n : ℕ)
    → (ensure_base64url_exact field value n ≡ ok tt)
      ↔ ((length value ≡ n) × (all is_base64url_char value ≡ true))
unfolding ensure_base64url_exact
ensure_base64url_exact_iff field value n =
    let both = checks_iff (byte_len value == n) (all is_base64url_char value) field _ _ in
    (
      λ e. (
        sym (byte_len-base64url value (both.0 e).1) ∙ (==_iff (byte_len value) n).0 (both.0 e).0,
        (both.0 e).1,
      ),
      λ h. both.1 ((==_iff (byte_len value) n).1 (byte_len-base64url value h.1 ∙ h.0), h.1),
    )

ensure_base64url_min_iff :
    (field value : Text) (n : ℕ)
    → (ensure_base64url_min field value n ≡ ok tt)
      ↔ ((n ≤ length value) × (all is_base64url_char value ≡ true))
unfolding ensure_base64url_min
ensure_base64url_min_iff field value n =
    let both = checks_iff (not (ltb (byte_len value) n)) (all is_base64url_char value) field _ _ in
    (
      λ e. (ground (arith, byte_len-base64url value (both.0 e).1, (both.0 e).0), (both.0 e).1),
      λ h. both.1 (ground (arith, byte_len-base64url value h.1, h.0), h.1),
    )

strip_prefix_iff :
    (prefix value suffix : Text)
    → (strip_prefix prefix value ≡ some suffix) ↔ (value ≡ prefix ++ suffix)
unfolding strip_prefix
strip_prefix_iff [] value suffix = (λ e. some_inj e, λ e. ap some e)
strip_prefix_iff (p ∷ ps) [] suffix = ground arith
strip_prefix_iff (p ∷ ps) (c ∷ cs) suffix =
    ground (arith, ==_iff c p, strip_prefix_iff ps cs suffix)

-- The characters of a peer's name, and how many.
pub IsComponent : (ℕ → Bool) → ℕ → ℕ → Text → Type 0
IsComponent allowed lo hi s =
    (lo ≤ length s) × (length s ≤ hi) × (all (λ c. ltb c 128 && allowed c) s ≡ true)

ensure_ascii_component_iff :
    (field value : Text) (lo hi : ℕ) (allowed : ℕ → Bool) (expectation : Text)
    → (ensure_ascii_component field value lo hi allowed expectation ≡ ok tt)
      ↔ IsComponent allowed lo hi value
unfolding ensure_ascii_component byte_len IsComponent
ensure_ascii_component_iff field value lo hi allowed expectation =
    let both =
      checks_iff (not (ltb (byte_len value) lo || ltb hi (byte_len value)))
        (all (λ c. ltb c 128 && allowed c) value) field expectation expectation in
    (
      λ e.
          let n = as_bytes-ascii allowed value (both.0 e).1 in
          (ground (arith, n, (both.0 e).0), ground (arith, n, (both.0 e).0), (both.0 e).1),
      λ h. both.1 (ground (arith, as_bytes-ascii allowed value h.2, h.0, h.1), h.2),
    )

-- `app:` and a name of 1 to 128 characters.
pub IsApp : Text → Type 0
IsApp value =
    (suffix : Text) × (value ≡ codes "app:" ++ suffix)
    × IsComponent is_peer_component_char 1 128 suffix

component_after_iff :
    (field value : Text) (o : Option Text) (expectation : Text)
    → (strip_prefix (codes "app:") value ≡ o)
    → (component_after field o 1 128 is_peer_component_char expectation ≡ ok tt) ↔ IsApp value
unfolding component_after IsApp
component_after_iff field value none expectation e = (
  λ h. ground (arith, h),
  λ h. ground (arith, e, (strip_prefix_iff (codes "app:") value h.0).1 h.1),
)
component_after_iff field value (some suffix) expectation e =
    let same = ensure_ascii_component_iff field suffix 1 128 is_peer_component_char expectation in
    (
      λ h. (suffix, (strip_prefix_iff (codes "app:") value suffix).0 e, same.0 h),
      λ h. same.1 (
          subst (IsComponent is_peer_component_char 1 128)
            (some_inj (sym ((strip_prefix_iff (codes "app:") value h.0).1 h.1) ∙ e)) h.2),
    )

ensure_app_peer_id_iff :
    (field value : Text) → (ensure_app_peer_id field value ≡ ok tt) ↔ IsApp value
unfolding ensure_app_peer_id
ensure_app_peer_id_iff field value =
    component_after_iff field value (strip_prefix (codes "app:") value) _ refl

-- The daemon, or an application.
pub IsPeer : Text → Type 0
IsPeer value = (value ≡ relay_peer_daemon) ⊎ IsApp value

unless_iff :
    (b : Bool) (q : Checked) → ((if b then ok tt else q) ≡ ok tt) ↔ ((b ≡ true) ⊎ (q ≡ ok tt))
unless_iff true q = (λ _. inl refl, λ _. refl)
unless_iff false q = (λ h. inr h, λ h. elim h [ inl d ↦ ground (arith, d) | inr a ↦ a ])

ensure_peer_id_iff : (field value : Text) → (ensure_peer_id field value ≡ ok tt) ↔ IsPeer value
unfolding ensure_peer_id IsPeer
ensure_peer_id_iff field value =
    let daemon = ==_iff value relay_peer_daemon in
    let app = ensure_app_peer_id_iff field value in
    let either = unless_iff (value == relay_peer_daemon) (ensure_app_peer_id field value) in
    (
      λ h. elim (either.0 h) [ inl d ↦ inl (daemon.0 d) | inr a ↦ inr (app.0 a) ],
      λ h. either.1 (elim h [ inl d ↦ inl (daemon.1 d) | inr a ↦ inr (app.1 a) ]),
    )

-- An envelope as the wire protocol describes it.
pub IsEnvelope : (Text → Bool) → RelayEnvelope → Type 0
IsEnvelope parses m =
    (m.message_type ≡ codes "relay_envelope")
    × (ensure_uuid parses (codes "id") m.id ≡ ok tt)
    × IsPeer m.from
    × IsPeer m.to
    × ((length m.channel_id ≡ 22) × (all is_base64url_char m.channel_id ≡ true))
    × (1 ≤ m.seq)
    × ((16 ≤ length m.ciphertext) × (all is_base64url_char m.ciphertext ≡ true))

ensure_message_type_iff :
    (field value expected : Text)
    → (ensure_message_type field value expected ≡ ok tt) ↔ (value ≡ expected)
unfolding ensure_message_type
ensure_message_type_iff field value expected =
    let passes = ensure_iff (value == expected) field _ in
    let same = ==_iff value expected in (λ h. same.0 (passes.0 h), λ h. passes.1 (same.1 h))

-- An envelope is accepted exactly when it names its type, its id passes `ensure_uuid`, its sender and
-- its receiver are each the daemon or an application whose name has 1 to 128 allowed characters, its
-- channel has 22 characters of base64url, its number is at least 1, and its text is base64url of 16
-- characters or more.
pub validate_envelope_iff :
    (parses : Text → Bool) (m : RelayEnvelope)
    → (validate_envelope parses m ≡ ok tt) ↔ IsEnvelope parses m
unfolding validate_envelope IsEnvelope
validate_envelope_iff parses m =
    let kind = ensure_message_type_iff (codes "type") m.message_type (codes "relay_envelope") in
    let from = ensure_peer_id_iff (codes "from") m.from in
    let to = ensure_peer_id_iff (codes "to") m.to in
    let channel = ensure_base64url_exact_iff (codes "channel_id") m.channel_id 22 in
    let seq = ensure_iff (not (m.seq == 0)) (codes "seq") (codes "must be an integer >= 1") in
    let cipher = ensure_base64url_min_iff (codes "ciphertext") m.ciphertext 16 in
    (
      λ h.
          let h6 = (both_iff _ (ensure_base64url_min (codes "ciphertext") m.ciphertext 16)).0 h in
          let h5 =
            (both_iff _
                (ensure (not (m.seq == 0)) (codes "seq") (codes "must be an integer >= 1"))).0
              h6.0 in
          let h4 =
            (both_iff _ (ensure_base64url_exact (codes "channel_id") m.channel_id 22)).0 h5.0 in
          let h3 = (both_iff _ (ensure_peer_id (codes "to") m.to)).0 h4.0 in
          let h2 = (both_iff _ (ensure_peer_id (codes "from") m.from)).0 h3.0 in
          let h1 =
            (both_iff (ensure_message_type (codes "type") m.message_type (codes "relay_envelope"))
                (ensure_uuid parses (codes "id") m.id)).0
              h2.0 in
          (
            kind.0 h1.0,
            h1.1,
            from.0 h2.1,
            to.0 h3.1,
            channel.0 h4.1,
            ground (arith, seq.0 h5.1),
            cipher.0 h6.1,
          ),
      λ (k, i, f, t, c, n, x).
          rw (kind.1 k, i, from.1 f, to.1 t, channel.1 c, seq.1 (ground (arith, n)), cipher.1 x)
            refl,
    )
