-- ===== src/Protocol/Run/Types.antt =====
-- daemon/protocol/src/run.rs: the data of reviews, dispositions, budgets, phases and statuses.
use agentchat.Prelude.{ℕ, Bool, true, false, List, Option}
use agentchat.Text.{Text}

pub data BlockingCategory : Type 0 where
  contradicts_brief missing_requirement incorrect breaks_existing security data_loss :
      BlockingCategory

pub data NonBlockingCategory : Type 0 where
  style naming perf_hint test_gap refactor readability other : NonBlockingCategory

pub data FindingSeverity : Type 0 where
  blocking : BlockingCategory → FindingSeverity
  non_blocking : NonBlockingCategory → FindingSeverity

-- `FindingSeverity::is_blocking`.
abbrev pub severity_is_blocking : FindingSeverity → Bool
severity_is_blocking (blocking c) = true
severity_is_blocking (non_blocking c) = false

pub data DemotionReason : Type 0 where
  unknown_category weak_evidence over_blocking_limit : DemotionReason

pub record RawFinding : Type 0 where
  pub category : Text
  pub location : Text
  pub problem : Text
  pub evidence : Text
  pub recommendation : Text

pub record RawReviewReport : Type 0 where
  pub reviewer : Text
  pub round : ℕ
  pub blocking : List RawFinding
  pub non_blocking : List RawFinding

pub record Finding : Type 0 where
  pub finding_id : Text
  pub reviewer : Text
  pub round : ℕ
  pub severity : FindingSeverity
  pub file : Text
  pub location : Text
  pub problem : Text
  pub evidence : Text
  pub recommendation : Text
  pub demoted_from : Option DemotionReason

-- `Finding::is_blocking`.
abbrev pub is_blocking : Finding → Bool
is_blocking f = severity_is_blocking f.severity

pub record FindingGroup : Type 0 where
  pub file : Text
  pub severity : FindingSeverity
  pub consensus : ℕ
  pub findings : List Finding

pub data DispositionAction : Type 0 where
  accepted disputed declined : DispositionAction

-- `PartialEq` of `DispositionAction`.
abbrev pub action_eqb : DispositionAction → DispositionAction → Bool
action_eqb accepted accepted = true
action_eqb disputed disputed = true
action_eqb declined declined = true
action_eqb _ _ = false

pub record Disposition : Type 0 where
  pub finding_id : Text
  pub action : DispositionAction
  pub reason : Text
  pub changed_files : List Text

pub record FreeRetryConfig : Type 0 where
  pub invalid_output : ℕ
  pub agent_failure : ℕ
  pub disposition : ℕ

pub record CycleBudgetConfig : Type 0 where
  pub max_cycles : ℕ
  pub free_retries : FreeRetryConfig

abbrev pub default_free_retries : FreeRetryConfig
default_free_retries = record { invalid_output = 1; agent_failure = 2; disposition = 1 }

abbrev pub default_budget : CycleBudgetConfig
default_budget = record { max_cycles = 2; free_retries = default_free_retries }

pub data RetryKind : Type 0 where
  invalid_output agent_failure disposition : RetryKind

pub data ExitReason : Type 0 where
  converged churn cycle_cap stuck : ExitReason

pub data PhaseKind : Type 0 where
  plan code : PhaseKind

pub data StageKind : Type 0 where
  authoring reviewing dispositioning awaiting_approval : StageKind

pub data RunStatus : Type 0 where
  planning awaiting_plan_approval implementing awaiting_code_approval completed cancelled :
      RunStatus

-- `RunStatus::is_terminal`.
abbrev pub is_terminal : RunStatus → Bool
is_terminal completed = true
is_terminal cancelled = true
is_terminal _ = false

-- `RunStatus::awaits_human`.
abbrev pub awaits_human : RunStatus → Bool
awaits_human awaiting_plan_approval = true
awaits_human awaiting_code_approval = true
awaits_human _ = false
