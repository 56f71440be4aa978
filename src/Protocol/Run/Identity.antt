-- ===== src/Protocol/Run/Identity.antt =====
-- run.rs: the length of a finding's id.
use agentchat.Prelude.{
  ◌≡◌, refl, ℕ, zero, suc, ◌+◌, ◌*◌, ◌≤◌, min, List, [], ◌∷◌, ◌++◌, length, length-append, arith,
  leb, if_cases,
}
use agentchat.Text.{Text, as_bytes, hex_byte}
use agentchat.Protocol.Run.Ids.{finding_id_len, hex_prefix, take, id_payload, finding_id}

length-take : (n : ℕ) (cs : Text) → length (take n cs) ≡ min n (length cs)
length-take zero cs = omega arith
length-take (suc n) [] = omega arith
length-take (suc n) (c ∷ cs) = omega (arith, length-take n cs)

length-hex_byte : (b : ℕ) → length (hex_byte b) ≡ 2
unfolding hex_byte
length-hex_byte b = refl

-- The loop stops only when it has enough digits.
hex_prefix_enough :
    (out : Text) (bytes : List ℕ)
    → finding_id_len ≤ length out + 2 * length bytes
    → finding_id_len ≤ length (hex_prefix out bytes)
unfolding hex_prefix
hex_prefix_enough out [] h = omega arith
hex_prefix_enough out (b ∷ bytes) h =
    let grown = length-append out (hex_byte b) in
    let two = length-hex_byte b in
    if_cases {A = Text} (λ t. finding_id_len ≤ length t) (leb finding_id_len (length out))
      (λ e. ground arith) (λ e. hex_prefix_enough (out ++ hex_byte b) bytes (omega arith))

-- Where the digest has at least six bytes, as SHA-256's 32, the id of a finding has exactly twelve
-- characters, whatever it is made of.
pub length-finding_id :
    (sha256 : List ℕ → List ℕ) (file category problem : Text)
    → 6 ≤ length (sha256 (as_bytes (id_payload file category problem)))
    → length (finding_id sha256 file category problem) ≡ finding_id_len
unfolding finding_id
length-finding_id sha256 file category problem h =
    let digest = sha256 (as_bytes (id_payload file category problem)) in
    let n : finding_id_len ≤ length {A = ℕ} [] + 2 * length digest = omega arith in
    omega (arith, length-take finding_id_len (hex_prefix [] digest), hex_prefix_enough [] digest n)
