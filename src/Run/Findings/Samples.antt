-- ===== src/Run/Findings/Samples.antt =====
-- Reports that are validated, compared and grouped, and the theorems at concrete inputs.
use Prim.Native.String.{String}
use mathlib.Core.List.{Perm}
use agentchat.Prelude.{
  ℕ, ◌+◌, ◌*◌, ◌%◌, ◌≡◌, refl, List, [], ◌∷◌, ◌++◌, Memᴰ, none, some, length, filter, map, contains,
  list_eq, nat_eq, list_eqb,
}
use agentchat.Text.{
  codes, to_ascii_lowercase, trim, is_whitespace, join, split_whitespace, is_ascii_digit, byte_len,
  rsplit_once, hex_byte,
}
use agentchat.Protocol.Run.{
  parse_or_other, non_blocking_of_token, blocking_parse, blocking_of_token, RawFinding,
  RawReviewReport, Finding, is_blocking, blocking, incorrect, unknown_category, weak_evidence,
}
use agentchat.Run.Findings.{
  Externals, normalize_file, build_finding, insert_group, group_cmp, validate_report,
  validate_round, new_blocking_since, group_findings, key_cmp, group_key, push_finding,
}
use agentchat.Run.Findings.Reports.{validate_report-blocking, validate_report-Supported, Supported}
use agentchat.Run.Findings.Grouping.{members, group_findings-perm}

-- Stand-ins for Unicode's lower case and for SHA-256: six sums of the bytes, weighted by place.
weigh : ℕ → List ℕ → ℕ
weigh k [] = 0
weigh k (b ∷ bs) = (b * k + weigh (k + 7) bs) % 256

toy_digest : List ℕ → List ℕ
unfolding weigh
toy_digest bs = weigh 1 bs ∷ weigh 2 bs ∷ weigh 3 bs ∷ weigh 5 bs ∷ weigh 11 bs ∷ weigh 13 bs ∷ []

-- To unfold it is to unfold the operations on texts too.
unfoldable pub toy : Externals
unfolding to_ascii_lowercase toy_digest blocking_parse blocking_of_token list_eqb trim is_whitespace
    join split_whitespace is_ascii_digit byte_len rsplit_once hex_byte
toy = record { to_lowercase = to_ascii_lowercase; sha256 = toy_digest }

abbrev entry : String → String → RawFinding
entry category problem = record {
  category = codes category;
  location = codes "src/Run/Stage.rs:88-92";
  problem = codes problem;
  evidence = codes "an empty plan panics in run/stage.rs";
  recommendation = [];
}

abbrev vague : RawFinding
vague = record {
  category = codes "security";
  location = codes "src/auth.rs";
  problem = codes "feels unsafe";
  evidence = codes "this seems risky to me overall";
  recommendation = [];
}

abbrev report : RawReviewReport
report = record {
  reviewer = codes "opus";
  round = 1;
  blocking =
      entry "incorrect" "alpha" ∷ entry "nitpick" "beta" ∷ vague ∷ entry " Security " "gamma" ∷ [];
  non_blocking = entry "style" "delta" ∷ [];
}

file_without_lines :
    normalize_file toy (codes " src/Run/Stage.rs:88-92 ") ≡ codes "src/run/stage.rs"
unfolding normalize_file toy
file_without_lines = refl

verdicts :
    map (λ f. f.demoted_from) (validate_report toy report)
    ≡ none ∷ some unknown_category ∷ some weak_evidence ∷ none ∷ none ∷ []
unfolding validate_report toy
verdicts = refl

validate_report-blocking_example : length (filter is_blocking (validate_report toy report)) ≡ 2
unfolding validate_report toy
validate_report-blocking_example = validate_report-blocking toy report

abbrev alpha : Finding
alpha = build_finding toy report (entry "incorrect" "alpha") (blocking incorrect) none

validate_report-Supported_example : Supported toy report report.blocking alpha
unfolding validate_report toy
validate_report-Supported_example =
    validate_report-Supported toy report {f = alpha} (Memᴰ.head refl) refl

abbrev second_report : RawReviewReport
second_report = record report {
  reviewer = codes "luna";
  round = 2;
  blocking = entry "incorrect" "alpha" ∷ entry "incorrect" "epsilon" ∷ [];
}

abbrev round_one : List Finding
round_one = validate_round toy (report ∷ [])

abbrev round_two : List Finding
round_two = validate_round toy (second_report ∷ [])

one_is_new : length (new_blocking_since round_one round_two) ≡ 1
unfolding new_blocking_since validate_round toy
one_is_new = refl

abbrev both_rounds : List Finding
both_rounds = round_one ++ round_two

consensus_ranks : map (λ g. g.consensus) (group_findings both_rounds) ≡ 2 ∷ 1 ∷ 2 ∷ 1 ∷ 1 ∷ []
unfolding group_findings validate_round toy push_finding key_cmp group_key insert_group group_cmp
    parse_or_other non_blocking_of_token contains
consensus_ranks = refl

group_findings-perm_example : Perm (members (group_findings both_rounds)) both_rounds
group_findings-perm_example = group_findings-perm both_rounds
