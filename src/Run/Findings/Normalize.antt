-- ===== src/Run/Findings/Normalize.antt =====
-- findings.rs: normal forms of texts and locations, and the test for weak evidence.
use agentchat.Prelude.{
  ℕ, Bool, true, false, not, ◌&&◌, ◌||◌, List, [], ◌∷◌, none, some, ltb, if◌then◌else◌, ◌==◌,
  nat_eq, list_eq, length, is_empty, any, all,
}
use agentchat.Text.{
  Text, codes, trim, is_ascii_digit, split_whitespace, join, rsplit_once, byte_len,
}
use agentchat.Protocol.Run.{unspecified_file}

abbrev pub min_evidence_chars : ℕ
min_evidence_chars = 20

-- What the library functions that are not modelled compute: Unicode's lower case of a text, and the
-- SHA-256 digest of a list of bytes (the crate `sha2`).
pub record Externals : Type 0 where
  pub to_lowercase : Text → Text
  pub sha256 : List ℕ → List ℕ

abbrev is_line_char : ℕ → Bool
is_line_char c = is_ascii_digit c || c == b'-'

-- The tail of `path:88-92`.
unfoldable pub is_line_reference : Text → Bool
is_line_reference tail = any is_ascii_digit tail && all is_line_char tail

unfoldable pub strip_line : Text → Text
unfolding is_line_reference
strip_line trimmed = elim (rsplit_once b':' trimmed) [
  | some (head, tail) ↦ if is_line_reference tail then head else trimmed
  | none ↦ trimmed
]

-- `text.contains(needle)`.
abbrev is_prefix_of : Text → Text → Bool
is_prefix_of [] _ = true
is_prefix_of (x ∷ xs) [] = false
is_prefix_of (x ∷ xs) (y ∷ ys) = x == y && is_prefix_of xs ys

unfoldable pub contains_text : Text → Text → Bool
contains_text [] needle = is_empty needle
contains_text (c ∷ cs) needle = is_prefix_of needle (c ∷ cs) || contains_text cs needle

unfoldable pub has_concrete_reference : Text → Bool
unfolding contains_text
has_concrete_reference evidence =
    any (λ c. c == b'/') evidence
    || contains_text evidence (codes "::")
    || any (λ c. c == b'`') evidence
    || any (λ c. c == b'_') evidence
    || any is_ascii_digit evidence
    || any (λ token. ltb 3 (byte_len token) && any (λ c. c == b'.') token)
        (split_whitespace evidence)

module _ (x : Externals) where
  unfoldable pub normalize : Text → Text
  normalize text = x.to_lowercase (join (codes " ") (split_whitespace text))

  unfoldable pub normalize_file : Text → Text
  unfolding strip_line
  normalize_file location =
      let trimmed = trim location in
      let path = trim (strip_line trimmed) in
      if is_empty trimmed
      then unspecified_file
      else if is_empty path
      then unspecified_file
      else x.to_lowercase path

  unfoldable pub evidence_is_weak : Text → Text → Bool
  unfolding has_concrete_reference normalize
  evidence_is_weak problem evidence =
      let normalized = normalize evidence in
      is_empty normalized
      || ltb (length normalized) min_evidence_chars
      || normalized == normalize problem
      || not (has_concrete_reference evidence)
