-- ===== src/Run/Orchestrator/Safety.antt =====
-- orchestrator.rs: `drive_until` keeps a run coherent, so that it completes only past both gates.
use agentchat.Prelude.{
  ◌≡◌, refl, subst, ℕ, zero, suc, true, Option, none, some, is_some, Option-cases, inl, inr, Result,
  ok, err, arith, if_cases,
}
use agentchat.Text.{Text}
use agentchat.Protocol.Run.{
  PhaseKind, plan, code, awaiting_approval, RunStatus, completed, ApprovalDecision, approve,
  request_changes, cancel, ExitReason,
}
use agentchat.Run.Findings.{Externals}
use agentchat.Run.State
use agentchat.Run.State.{
  PhaseState, RunState, TransitionError, new_run, exit_reason, is_awaiting_approval,
  phase_of_status, put_phase, approve_plan, approve_code, sync_status,
}
use agentchat.Run.State.Runs
use agentchat.Run.State.Runs.{
  IsCoherent, run_call, run_call-IsCoherent, after_run, work-IsCoherent, past_gates,
  new_run-IsCoherent,
}
use agentchat.Run.Executor.Turns.{return, continue}
use agentchat.Run.Executor.Cases.{Result-cases}
use agentchat.Run.Orchestrator.{StageWorld, DriveError}
use agentchat.Run.Orchestrator.Until.{
  PhaseNames, PassWorld, RunError, which_phase, or_refused, decide, stops_here, RunPass,
  after_decision, at_gate, after_drive, driven, until_pass, drive_until,
}
use agentchat.Run.Orchestrator.Kept.{ok_inj, CoherentIn, drive_phase-CoherentIn}

called :
    (r s : RunState) (o : Result TransitionError RunState)
    → or_refused o ≡ ok s
    → IsCoherent (after_run r o)
    → IsCoherent s
called r s (err e) h v = absurd (ground arith)
called r s (ok t) h v = subst IsCoherent (ok_inj h) v

-- Decisions are calls on the run.
decide-IsCoherent :
    (which : PhaseKind) (d : ApprovalDecision) (feedback : Option Text) (now : ℕ) (r s : RunState)
    → decide which d feedback now r ≡ ok s
    → IsCoherent r
    → IsCoherent s
unfolding decide run_call
decide-IsCoherent plan approve feedback now r s e v =
    called r s (approve_plan now r) e (run_call-IsCoherent now r Runs.plan_approval v)
decide-IsCoherent code approve feedback now r s e v =
    called r s (approve_code now r) e (run_call-IsCoherent now r Runs.code_approval v)
decide-IsCoherent which (request_changes comments) (some m) now r s e v = absurd (ground arith)
decide-IsCoherent which (request_changes comments) none now r s e v =
    called r s (State.request_changes now r) e (run_call-IsCoherent now r Runs.changes v)
decide-IsCoherent which cancel feedback now r s e v =
    subst IsCoherent (ok_inj e) (run_call-IsCoherent now r Runs.cancellation v)

after_decision-IsCoherent :
    (stop_after : Option PhaseKind) (which : PhaseKind) (saved : Option Text) (r : RunState)
    (o : Result RunError RunState)
    → IsCoherent r
    → ((s : RunState) → o ≡ ok s → IsCoherent s)
    → IsCoherent (after_decision stop_after which saved r o).0
unfolding after_decision
after_decision-IsCoherent stop_after which saved r (err e) v h = v
after_decision-IsCoherent stop_after which (some m) r (ok s) v h = h s refl
after_decision-IsCoherent stop_after which none r (ok s) v h =
    if_cases {A = RunPass} (λ o. IsCoherent o.0) (stops_here stop_after which s.status)
      (λ _. h s refl) (λ _. h s refl)

at_gate-IsCoherent :
    (stop_after : Option PhaseKind) (which : PhaseKind) (w : PassWorld) (saved : Option Text)
    (r : RunState)
    → IsCoherent r
    → IsCoherent (at_gate stop_after which w saved r).0
unfolding at_gate
at_gate-IsCoherent stop_after which w (some m) r v = v
at_gate-IsCoherent stop_after which w none r v = elim (Result-cases w.decision) [
  | inl (e, k) ↦ rw (k, at_gate) v
  | inr (d, k) ↦
      rw (k, at_gate)
        (after_decision-IsCoherent stop_after which w.decided r
          (decide which d w.feedback w.decided_at r) v
          (λ s e. decide-IsCoherent which d w.feedback w.decided_at r s e v))
]

after_drive-IsCoherent :
    (stop_after : Option PhaseKind) (which : PhaseKind) (w : PassWorld)
    (s : RunState × Result DriveError ExitReason)
    → IsCoherent s.0
    → IsCoherent (after_drive stop_after which w s).0
unfolding after_drive run_call
after_drive-IsCoherent stop_after which w (r, err e) v = v
after_drive-IsCoherent stop_after which w (r, ok reason) v =
    at_gate-IsCoherent stop_after which w w.synced (sync_status w.synced_at r)
      (run_call-IsCoherent w.synced_at r Runs.sync v)

module _ (x : Externals) (roles : PhaseNames) (stop_after : Option PhaseKind) where
  driven-CoherentIn :
      (which : PhaseKind) (worlds : ℕ → StageWorld) (fuel : ℕ) (r : RunState)
      → which_phase r.status ≡ some which
      → IsCoherent r
      → CoherentIn (driven x roles stop_after which worlds fuel r)
  driven-CoherentIn plan worlds fuel r e v =
      drive_phase-CoherentIn x roles.planner roles.plan_artifact worlds fuel r plan e v
  driven-CoherentIn code worlds fuel r e v =
      drive_phase-CoherentIn x roles.implementer roles.code_artifact worlds fuel r code e v

  until_pass-CoherentIn :
      (stage_fuel : ℕ) (w : PassWorld) (r : RunState)
      → IsCoherent r
      → CoherentIn (until_pass x roles stop_after stage_fuel w r)
  unfolding until_pass
  until_pass-CoherentIn stage_fuel w r v = elim (Option-cases (which_phase r.status)) [
    | inl e ↦ rw (e, until_pass) v
    | inr (which, e) ↦
        rw (e, until_pass)
          (went which (driven x roles stop_after which w.stages stage_fuel r)
            (driven-CoherentIn which w.stages stage_fuel r e v))
  ]
    where
      went :
          (which : PhaseKind) (o : Option (RunState × Result DriveError ExitReason))
          → CoherentIn o
          → CoherentIn (elim o [ none ↦ none | some s ↦ some (after_drive stop_after which w s) ])
      went which none h = tt
      went which (some s) h = after_drive-IsCoherent stop_after which w s h

  drive_until-CoherentIn :
      (stage_fuel : ℕ) (worlds : ℕ → PassWorld) (fuel n : ℕ) (r : RunState)
      → IsCoherent r
      → CoherentIn (drive_until x roles stop_after stage_fuel worlds fuel n r)
  unfolding drive_until
  drive_until-CoherentIn stage_fuel worlds zero n r v = tt
  drive_until-CoherentIn stage_fuel worlds (suc fuel) n r v =
      went (until_pass x roles stop_after stage_fuel (worlds n) r)
        (until_pass-CoherentIn stage_fuel (worlds n) r v)
        (λ s h. drive_until-CoherentIn stage_fuel worlds fuel (suc n) s h)
    where
      went :
          (o : Option RunPass)
          → CoherentIn o
          → ((s : RunState)
              → IsCoherent s
              → CoherentIn (drive_until x roles stop_after stage_fuel worlds fuel (suc n) s))
          → CoherentIn (elim o [
            | none ↦ none
            | some (s, return a) ↦ some (s, a)
            | some (s, continue) ↦ drive_until x roles stop_after stage_fuel worlds fuel (suc n) s
          ])
      went none h rest = tt
      went (some (s, return a)) h rest = h
      went (some (s, continue)) h rest = rest s h

  -- A new run that is driven from gate to gate is completed only past both gates, whatever the agents,
  -- the files and the human do: when it is left completed, its plan and its code both stand at their
  -- approval gates, each with the reason for which it stopped.
  pub drive_until_completed :
      (run_id working_dir : Text) (now stage_fuel : ℕ) (worlds : ℕ → PassWorld) (fuel : ℕ)
      (r : RunState) (o : Result RunError RunStatus)
      → drive_until x roles stop_after stage_fuel worlds fuel 0 (new_run run_id working_dir now)
        ≡ some (r, o)
      → r.status ≡ completed
      → (r.plan.stage ≡ awaiting_approval)
        × (is_some (exit_reason r.plan) ≡ true)
        × ((p : PhaseState) × (r.code ≡ some p)
            × (p.stage ≡ awaiting_approval)
            × (is_some (exit_reason p) ≡ true))
  drive_until_completed run_id working_dir now stage_fuel worlds fuel r o e = past_gates r (
      subst (λ s. CoherentIn s) e
        (drive_until-CoherentIn stage_fuel worlds fuel 0 (new_run run_id working_dir now)
          (new_run-IsCoherent run_id working_dir now)))
