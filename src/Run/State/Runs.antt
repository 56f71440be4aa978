-- ===== src/Run/State/Runs.antt =====
-- state.rs: what holds of a run after any sequence of calls.
use agentchat.Prelude.{
  ℕ, ◌≡◌, refl, Bool, true, false, List, [], ◌∷◌, Option, none, some, arith, is_some, Result, ok,
  err, inl, inr, Option-cases,
}
use agentchat.Text.{Text}
use agentchat.Protocol.Run.{
  plan, code, awaiting_approval, RunStatus, planning, awaiting_plan_approval, implementing,
  awaiting_code_approval, completed, cancelled, default_budget,
}
use agentchat.Run.State.Phase.{PhaseState, TransitionError, exit_reason, record_human_rejection}
use agentchat.Run.State.Whole.{
  RunState, new_run, active_phase, phase_of_status, put_phase, sync_status, approve_plan,
  approve_code, request_changes, cancel_run,
}
use agentchat.Run.State.Invariant.{
  Call, call, calls, IsSound, call-IsSound, human-IsSound, calls_new-IsSound,
}

pub data RunCall : Type 0 where
  work : Call → RunCall
  sync : RunCall
  plan_approval : RunCall
  code_approval : RunCall
  changes : RunCall
  cancellation : RunCall

-- A call that fails leaves the run as it was.
abbrev pub after_run : RunState → Result TransitionError RunState → RunState
after_run r (ok s) = s
after_run r (err e) = r

-- A call on the phase that `active_phase_mut` hands out, if any.
unfoldable pub work_on : Option PhaseState → Call → RunState → RunState
unfolding put_phase
work_on none c r = r
work_on (some p) c r = put_phase r.status (call p c) r

unfoldable pub run_call : ℕ → RunState → RunCall → RunState
unfolding work_on active_phase
run_call now r (work c) = work_on (active_phase r) c r
run_call now r sync = sync_status now r
run_call now r plan_approval = after_run r (approve_plan now r)
run_call now r code_approval = after_run r (approve_code now r)
run_call now r changes = after_run r (request_changes now r)
run_call now r cancellation = cancel_run now r

-- Each call comes with the clock's reading.
unfoldable pub run_calls : RunState → List (ℕ × RunCall) → RunState
run_calls r [] = r
run_calls r ((now, c) ∷ cs) = run_calls (run_call now r c) cs

abbrev pub is_coding : RunStatus → Bool
is_coding implementing = true
is_coding awaiting_code_approval = true
is_coding completed = true
is_coding _ = false

abbrev pub is_planning : RunStatus → Bool
is_planning planning = true
is_planning awaiting_plan_approval = true
is_planning _ = false

-- The code phase, if it is open, is sound.
abbrev pub CodeSound : Option PhaseState → Type 0
CodeSound none = Unit
CodeSound (some p) = IsSound p

abbrev pub AtGate : Option PhaseState → Type 0
AtGate none = ⊥
AtGate (some p) = p.stage ≡ awaiting_approval

pub record IsCoherent (r : RunState) : Type 0 where
  pub plan_sound : IsSound r.plan
  pub code_sound : CodeSound r.code
  -- The code phase is open exactly from the plan's approval on.
  pub no_code : is_planning r.status ≡ true → r.code ≡ none
  pub has_code : is_coding r.status ≡ true → is_some r.code ≡ true
  -- No code is written before the plan has reached its gate.
  pub plan_at_gate : is_some r.code ≡ true → r.plan.stage ≡ awaiting_approval
  pub code_at_gate : r.status ≡ completed → AtGate r.code

pub new_run-IsCoherent :
    (run_id working_dir : Text) (now : ℕ) → IsCoherent (new_run run_id working_dir now)
unfolding new_run
new_run-IsCoherent run_id working_dir now = record {
  plan_sound = unfold calls in calls_new-IsSound plan default_budget [];
  code_sound = tt;
  no_code = λ _. refl;
  has_code = λ h. cc;
  plan_at_gate = λ h. cc;
  code_at_gate = λ h. cc;
}

pub work-IsCoherent :
    (s : RunStatus) (r : RunState) (p : PhaseState)
    → r.status ≡ s
    → phase_of_status s r ≡ some p
    → (q : PhaseState) → IsSound q
    → IsCoherent r
    → IsCoherent (put_phase s q r)
unfolding phase_of_status put_phase
work-IsCoherent planning r p e h q s v = ground arith
work-IsCoherent awaiting_plan_approval r p e h q s v = ground arith
work-IsCoherent implementing r p e h q s v = ground arith
work-IsCoherent awaiting_code_approval r p e h q s v = ground arith
work-IsCoherent completed r p e h q s v = cc
work-IsCoherent cancelled r p e h q s v = cc

pub active-IsSound :
    (r : RunState) (p : PhaseState) → active_phase r ≡ some p → IsCoherent r → IsSound p
unfolding active_phase
active-IsSound r p e v = ground arith

pub past_gates :
    (r : RunState)
    → IsCoherent r
    → r.status ≡ completed
    → (r.plan.stage ≡ awaiting_approval)
      × (is_some (exit_reason r.plan) ≡ true)
      × ((p : PhaseState) × (r.code ≡ some p)
          × (p.stage ≡ awaiting_approval)
          × (is_some (exit_reason p) ≡ true))
past_gates r v h = elim (Option-cases r.code) [
  | inl c ↦ absurd (ground (arith, v.has_code))
  | inr (p, c) ↦
      let s : IsSound p = ground arith in
      let g : p.stage ≡ awaiting_approval = ground arith in
      let q : r.plan.stage ≡ awaiting_approval = ground arith in
      (q, v.plan_sound.gate_has_reason q, (p, c, g, s.gate_has_reason g))
]

sync-IsCoherent : (now : ℕ) (r : RunState) → IsCoherent r → IsCoherent (sync_status now r)
unfolding sync_status
sync-IsCoherent now r v = ground arith

plan_approval-IsCoherent :
    (now : ℕ) (r : RunState) → IsCoherent r → IsCoherent (after_run r (approve_plan now r))
unfolding approve_plan
plan_approval-IsCoherent now r v =
    let s = calls_new-IsSound code r.code_budget [] in unfold calls in ground arith

code_approval-IsCoherent :
    (now : ℕ) (r : RunState) → IsCoherent r → IsCoherent (after_run r (approve_code now r))
unfolding approve_code
code_approval-IsCoherent now r v = ground arith

cancel-IsCoherent : (now : ℕ) (r : RunState) → IsCoherent r → IsCoherent (cancel_run now r)
unfolding cancel_run
cancel-IsCoherent now r v = ground arith

changes_at-IsCoherent :
    (now : ℕ) (s : RunStatus) (r : RunState)
    → r.status ≡ s
    → IsCoherent r
    → IsCoherent (after_run r (request_changes now r))
unfolding request_changes
changes_at-IsCoherent now planning r e v = let s = human-IsSound r.plan v.plan_sound in ground arith
changes_at-IsCoherent now awaiting_plan_approval r e v =
    let s = human-IsSound r.plan v.plan_sound in ground arith
changes_at-IsCoherent now implementing r e v = elim (Option-cases r.code) [
  | inl c ↦ absurd (ground (arith, v.has_code))
  | inr (p, c) ↦
      let s : IsSound (record_human_rejection p) = human-IsSound p (ground arith) in ground arith
]
changes_at-IsCoherent now awaiting_code_approval r e v = elim (Option-cases r.code) [
  | inl c ↦ absurd (ground (arith, v.has_code))
  | inr (p, c) ↦
      let s : IsSound (record_human_rejection p) = human-IsSound p (ground arith) in ground arith
]
changes_at-IsCoherent now completed r e v = ground arith
changes_at-IsCoherent now cancelled r e v = ground arith

worked-IsCoherent :
    (r : RunState) (c : Call) → IsCoherent r → IsCoherent (work_on (active_phase r) c r)
unfolding work_on
worked-IsCoherent r c v = elim (Option-cases (active_phase r)) [
  | inl e ↦ rw (e, work_on) v
  | inr (p, e) ↦
      rw (e, work_on)
        (work-IsCoherent r.status r p refl (unfold active_phase in e) (call p c)
          (call-IsSound p c (active-IsSound r p e v)) v)
]

-- Every call keeps a run coherent.
pub run_call-IsCoherent :
    (now : ℕ) (r : RunState) (c : RunCall) → IsCoherent r → IsCoherent (run_call now r c)
unfolding run_call
run_call-IsCoherent now r (work c) v = worked-IsCoherent r c v
run_call-IsCoherent now r sync v = sync-IsCoherent now r v
run_call-IsCoherent now r plan_approval v = plan_approval-IsCoherent now r v
run_call-IsCoherent now r code_approval v = code_approval-IsCoherent now r v
run_call-IsCoherent now r changes v = changes_at-IsCoherent now r.status r refl v
run_call-IsCoherent now r cancellation v = cancel-IsCoherent now r v

run_calls-IsCoherent :
    (r : RunState) (cs : List (ℕ × RunCall)) → IsCoherent r → IsCoherent (run_calls r cs)
unfolding run_calls
run_calls-IsCoherent r [] v = v
run_calls-IsCoherent r ((now, c) ∷ cs) v =
    run_calls-IsCoherent (run_call now r c) cs (run_call-IsCoherent now r c v)

-- After any calls on a new run, in any order and at any times, its phases keep the invariant of a
-- phase; there is a code phase only while the plan stands at its approval gate; a run that is planning
-- or waits for plan approval has none, one that is implementing, waits for code approval or is
-- completed has one; and the code phase of a completed run stands at its gate.
pub run_calls_new-IsCoherent :
    (run_id working_dir : Text) (now : ℕ) (cs : List (ℕ × RunCall))
    → IsCoherent (run_calls (new_run run_id working_dir now) cs)
run_calls_new-IsCoherent run_id working_dir now cs =
    run_calls-IsCoherent (new_run run_id working_dir now) cs
      (new_run-IsCoherent run_id working_dir now)

-- A run completes only past both gates: when it is completed, its plan and its code both stand at
-- their approval gates, each with the reason for which it stopped.
pub completed_past_gates :
    (run_id working_dir : Text) (now : ℕ) (cs : List (ℕ × RunCall))
    → let r = run_calls (new_run run_id working_dir now) cs in
      r.status ≡ completed
      → (r.plan.stage ≡ awaiting_approval)
        × (is_some (exit_reason r.plan) ≡ true)
        × ((p : PhaseState) × (r.code ≡ some p)
            × (p.stage ≡ awaiting_approval)
            × (is_some (exit_reason p) ≡ true))
completed_past_gates run_id working_dir now cs h =
    past_gates (run_calls (new_run run_id working_dir now) cs)
      (run_calls_new-IsCoherent run_id working_dir now cs) h
