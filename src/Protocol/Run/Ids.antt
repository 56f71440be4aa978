-- ===== src/Protocol/Run/Ids.antt =====
-- daemon/protocol/src/run.rs: the identity of a finding. SHA-256 is the crate `sha2`'s, a parameter.
use agentchat.Prelude.{ℕ, zero, suc, List, [], ◌∷◌, ◌++◌, if◌then◌else◌, leb, length}
use agentchat.Text.{Text, codes, as_bytes, hex_byte}

abbrev pub unspecified_file : Text
unspecified_file = codes "(unspecified)"

abbrev pub finding_id_len : ℕ
finding_id_len = 12

-- The `for` loop over the digest's bytes; `out.len()` counts ASCII digits.
unfoldable pub hex_prefix : Text → List ℕ → Text
hex_prefix out [] = out
hex_prefix out (byte ∷ bytes) =
    let rest = hex_prefix (out ++ hex_byte byte) bytes in
    if leb finding_id_len (length out) then out else rest

-- `out.truncate(n)` on ASCII digits.
abbrev pub take : ℕ → Text → Text
take zero cs = []
take (suc n) [] = []
take (suc n) (c ∷ cs) = c ∷ take n cs

-- What is hashed: file, category and problem, with the separator U+001F between them.
unfoldable pub id_payload : Text → Text → Text → Text
id_payload file category problem = file ++ (0x1f ∷ (category ++ (0x1f ∷ problem)))

module _ (sha256 : List ℕ → List ℕ) where
  unfoldable pub finding_id : Text → Text → Text → Text
  unfolding hex_prefix id_payload
  finding_id file category problem =
      take finding_id_len (hex_prefix [] (sha256 (as_bytes (id_payload file category problem))))
