-- ===== src/Run/Supervisor/Listed.antt =====
-- supervisor.rs: the list of runs, against the order in which runs were first reported.
use agentchat.Prelude.{
  subst, ℕ, ◌≡◌, refl, sym, ap, ◌∙◌, inl, inr, Bool, true, false, List, [], ◌∷◌, Option, none, some,
  if◌then◌else◌, is_some, contains, Distinct, HashMap, lookup, contains_key, ◌==◌, ==_iff, ==_refl,
  list_eq, nat_eq, arith, map, Option-cases,
}
use agentchat.Text.{Text}
use agentchat.Protocol.Run.{ApprovalDecision}
use agentchat.Run.State.{RunState}
use agentchat.Run.Supervisor.Registry.{
  RunView, RunSupervisor, new_supervisor, register, sync, append_log, park, unpark, decide, finish,
  view, views_of, list,
}
use agentchat.Run.Supervisor.Calls.{
  Call, synced, logged, parked, unparked, decided, finished, call, run,
}
use agentchat.Run.Supervisor.Consistent.{
  IsConsistent, call-IsConsistent, new_supervisor-IsConsistent, is_named, decide-none, decide-some,
  run-new_supervisor-IsConsistent,
}
use agentchat.Prelude.{firsts, unique_from, unique_from-firsts, inl, inr}
use mathlib.Core.List.{reverse, reverse_aux}

views_of-ids :
    (runs : HashMap Text RunView) (ids : List Text)
    → ((id : Text) → is_named id (lookup runs id) ≡ true)
    → ((id : Text) → contains ids id ≡ true → contains_key runs id ≡ true)
    → map (λ v. v.run_id) (views_of runs ids) ≡ ids
unfolding views_of contains contains_key
views_of-ids runs [] named h = refl
views_of-ids runs (id ∷ ids) named h =
    shown (lookup runs id) refl (views_of-ids runs ids named (λ k e. h k (ground arith)))
  where
    shown :
        (o : Option RunView)
        → lookup runs id ≡ o
        → map (λ v. v.run_id) (views_of runs ids) ≡ ids
        → map (λ v. v.run_id) (views_of runs (id ∷ ids)) ≡ id ∷ ids
    shown none e rest = ground (arith, h id, ==_refl id)
    shown (some v) e rest = rw (views_of, e) (ground (arith, named id, ==_iff v.run_id id))

-- The runs that the calls report, as they come.
abbrev pub reported : List Call → List Text
reported [] = []
reported (synced r ∷ cs) = r.run_id ∷ reported cs
reported (logged _ _ _ ∷ cs) = reported cs
reported (parked _ _ _ _ ∷ cs) = reported cs
reported (unparked _ ∷ cs) = reported cs
reported (decided _ _ _ _ ∷ cs) = reported cs
reported (finished _ _ _ ∷ cs) = reported cs

-- The ids, each at its first report.
abbrev pub once_each : List Text → List Text
once_each ids = firsts (λ j k. j == k) ids

order-decide :
    (waits : ℕ → Bool) (id : Text) (decision : ApprovalDecision) (now : ℕ) (s : RunSupervisor)
    → (decide waits id decision now s).1.order ≡ s.order
order-decide waits id decision now s = elim (Option-cases (lookup s.gates id)) [
  | inl e ↦ ap (λ t. t.1.order) (decide-none waits id decision now s e)
  | inr (channel, e) ↦ ap (λ t. t.1.order) (decide-some waits id decision now s e)
]

order-synced :
    (r : RunState) (s : RunSupervisor)
    → IsConsistent s
    → (sync r s).order ≡ (if contains s.order r.run_id then s.order else r.run_id ∷ s.order)
unfolding sync register
order-synced r s h = ap (λ b. if b then s.order else r.run_id ∷ s.order) (sym (h.listed r.run_id))

-- What calls report for the first time, put before an order, the last one first.
abbrev ahead : List Text → List Text → List Text
ahead order ids = reverse_aux (unique_from (λ k. k) order ids) order

ahead-cons :
    (order ids : List Text) (id : Text)
    → ahead (if contains order id then order else id ∷ order) ids ≡ ahead order (id ∷ ids)
unfolding unique_from
ahead-cons order ids id = by_test (contains order id)
  where
    by_test :
        (b : Bool)
        → ahead (if b then order else id ∷ order) ids
          ≡ reverse_aux
              (elim b [
                | true ↦ unique_from (λ k. k) order ids
                | false ↦ id ∷ unique_from (λ k. k) (id ∷ order) ids
              ])
              order
    by_test true = refl
    by_test false = refl

order-run :
    (cs : List Call) (s : RunSupervisor)
    → IsConsistent s
    → (run cs s).order ≡ ahead s.order (reported cs)
unfolding run
order-run [] s h = unfold unique_from in refl
order-run (c ∷ cs) s h = order-run cs (call c s) (call-IsConsistent c s h) ∙ step c
  where
    step : (c : Call) → ahead (call c s).order (reported cs) ≡ ahead s.order (reported (c ∷ cs))
    step (synced r) =
        unfold call in
        (ap (λ o. ahead o (reported cs)) (order-synced r s h)
          ∙ ahead-cons s.order (reported cs) r.run_id)
    step (logged id line now) = unfold call append_log in refl
    step (parked id packet channel now) = unfold call park in refl
    step (unparked id) = unfold call unpark in refl
    step (decided waits id decision now) =
        unfold call in ap (λ o. ahead o (reported cs)) (order-decide waits id decision now s)
    step (finished id problem now) = unfold call finish in refl

-- After any calls on a new supervisor, `list` shows the runs that were reported to it, newest first: in
-- the reverse of the order in which each was reported for the first time. It shows no run twice, and
-- just those that have a view.
pub list-run :
    (cs : List Call)
    → let s = run cs new_supervisor in
      let shown = map (λ v. v.run_id) (list s) in
      (shown ≡ reverse (once_each (reported cs)))
      × Distinct shown
      × ((id : Text) → contains shown id ≡ is_some (view id s))
unfolding list view contains_key new_supervisor
list-run cs =
    let h = run-new_supervisor-IsConsistent cs in
    let in_order = views_of-ids _ _ h.named (λ id e. sym (h.listed id) ∙ e) in
    (
      in_order
          ∙ order-run cs new_supervisor new_supervisor-IsConsistent
          ∙ ap reverse (unique_from-firsts (λ k. k) (λ j k. j == k) (λ j k. refl) (reported cs)),
      subst Distinct (sym in_order) h.once,
      λ id. ap (λ ids. contains ids id) in_order ∙ h.listed id,
    )
