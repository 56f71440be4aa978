-- ===== src/Protocol/Run/Packet.antt =====
-- daemon/protocol/src/run.rs: what the human sees at a gate, and decides.
use agentchat.Prelude.{ℕ, Bool, List, Option}
use agentchat.Text.{Text}
use agentchat.Protocol.Run.Types.{Finding, Disposition, PhaseKind, ExitReason}

pub record ReviewedFinding : Type 0 where
  pub finding : Finding
  pub disposition : Option Disposition

pub record DiscussionSummary : Type 0 where
  pub blocking_raised : ℕ
  pub blocking_accepted : ℕ
  pub blocking_disputed : ℕ
  pub non_blocking_raised : ℕ
  pub non_blocking_adopted : ℕ
  pub non_blocking_declined : ℕ
  pub cycles_used : ℕ
  pub human_iterations : ℕ

pub record ArchiveGroup : Type 0 where
  pub file : Text
  pub category : Text
  pub consensus : ℕ
  pub items : List ReviewedFinding

pub record ArchiveSection : Type 0 where
  pub title : Text
  pub expanded : Bool
  pub groups : List ArchiveGroup

pub record ApprovalPacket : Type 0 where
  pub run_id : Text
  pub phase : PhaseKind
  pub version : ℕ
  pub exit_reason : Option ExitReason
  pub disputes : List ReviewedFinding
  pub summary : DiscussionSummary
  pub followups : List ReviewedFinding
  pub archive : List ArchiveSection

pub data ApprovalDecision : Type 0 where
  approve : ApprovalDecision
  request_changes : Text → ApprovalDecision
  cancel : ApprovalDecision
