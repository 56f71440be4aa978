-- ===== src/Run/Supervisor/Watched.antt =====
-- supervisor.rs: what a user interface reads: the list of runs, answers, and the end of a run.
use agentchat.Prelude.{
  ℕ, ◌≡◌, refl, ap, ◌∙◌, inl, inr, Bool, true, false, not, List, [], ◌∷◌, Option, none, some,
  if◌then◌else◌, is_some, HashMap, lookup, modify, changed, lookup-insert, lookup-erase_self,
  lookup-modify, ◌==◌, ==_iff, ==_refl, list_eq, nat_eq, arith, Option-cases, ok, err,
}
use agentchat.Text.{Text}
use agentchat.Protocol.Run.{ApprovalDecision}
use agentchat.Run.State.{RunState}
use agentchat.Run.Supervisor.Registry.{
  not_waiting, stopped, RunView, RunSupervisor, new_supervisor, register, keep_fields, from_state,
  sync, append_log, park, unpark, decide, finish, view, is_running, running,
}
use agentchat.Run.Supervisor.Calls.{
  Call, synced, logged, parked, unparked, decided, finished, call, run,
}
use agentchat.Run.Supervisor.Consistent.{
  shows_packet, answered, decide-none, decide-some, run-new_supervisor-IsConsistent,
}

-- After any calls on a new supervisor, a decision on a run whose view shows a packet reaches the
-- channel of that run's gate, unless its receiver is gone; the packet is then gone from the view, and a
-- second decision is refused as not awaited.
pub decide-shown :
    (cs : List Call) (id : Text) (decision : ApprovalDecision) (now : ℕ) (waits : ℕ → Bool)
    → let s = run cs new_supervisor in
      shows_packet (view id s) ≡ true
      → (channel : ℕ) × (lookup s.gates id ≡ some channel)
        × ((decide waits id decision now s).0
            ≡ (if waits channel then ok (channel, decision) else err (stopped id)))
        × (shows_packet (view id (decide waits id decision now s).1) ≡ false)
        × ((again : ApprovalDecision) (later : ℕ)
            → (decide waits id again later (decide waits id decision now s).1).0
              ≡ err (not_waiting id))
unfolding view
decide-shown cs id decision now waits shown =
    answers (lookup s.gates id) refl ((run-new_supervisor-IsConsistent cs).gated id shown)
  where
    s : RunSupervisor
    s = run cs new_supervisor

    take_away : RunView → RunView
    take_away v = record v { pending = none; updated_at_ms = now }

    cleared :
        (o : Option RunView) (f : RunView → RunView)
        → ((v : RunView) → (f v).pending ≡ none)
        → shows_packet (changed f o) ≡ false
    cleared none f h = refl
    cleared (some v) f h = ap is_some (h v)

    answers :
        (gate : Option ℕ)
        → lookup s.gates id ≡ gate
        → is_some gate ≡ true
        → (channel : ℕ) × (lookup s.gates id ≡ some channel)
          × ((decide waits id decision now s).0
              ≡ (if waits channel then ok (channel, decision) else err (stopped id)))
          × (shows_packet (lookup (decide waits id decision now s).1.runs id) ≡ false)
          × ((again : ApprovalDecision) (later : ℕ)
              → (decide waits id again later (decide waits id decision now s).1).0
                ≡ err (not_waiting id))
    answers none e h = cc
    answers (some channel) e h =
        let is_answered = ap (λ t. t.1) (decide-some waits id decision now s e) in
        (
          channel,
          e,
          ap (λ t. t.0) (decide-some waits id decision now s e),
          ap (λ t. shows_packet (lookup t.runs id)) is_answered
              ∙ ap shows_packet (
                  lookup-modify s.runs id id take_away
                  ∙ ap (λ b. if b then changed take_away (lookup s.runs id) else lookup s.runs id)
                      (==_refl id))
              ∙ cleared (lookup s.runs id) take_away (λ v. refl),
          λ again later.
              ap (λ t. (decide waits id again later t).0) is_answered
              ∙ ap (λ t. t.0)
                  (decide-none waits id again later (answered id now s)
                    (lookup-erase_self s.gates id)),
        )

abbrev closed : Option RunView → Bool
closed none = false
closed (some v) = v.finished

modify-closed :
    (k id : Text) (f : RunView → RunView) (runs : HashMap Text RunView)
    → ((v : RunView) → v.finished ≡ true → (f v).finished ≡ true)
    → closed (lookup runs id) ≡ true
    → closed (lookup (modify runs k f) id) ≡ true
modify-closed k id f runs keeps h = ap closed (lookup-modify runs k id f) ∙ still (lookup runs id) h
  where
    still :
        (o : Option RunView) → closed o ≡ true → closed (if k == id then changed f o else o) ≡ true
    still none e = cc
    still (some v) e = ground (arith, keeps v e)

sync-closed :
    (r : RunState) (id : Text) (s : RunSupervisor)
    → closed (lookup s.runs id) ≡ true
    → closed (lookup (sync r s).runs id) ≡ true
unfolding sync register keep_fields from_state
sync-closed r id s h =
    ap closed
      (lookup-insert s.runs r.run_id id (keep_fields (lookup s.runs r.run_id) (from_state r)))
    ∙ still (lookup s.runs r.run_id) refl
  where
    still :
        (old : Option RunView)
        → lookup s.runs r.run_id ≡ old
        → closed
            (if r.run_id == id then some (keep_fields old (from_state r)) else lookup s.runs id)
          ≡ true
    still none e = ground (arith, ==_iff r.run_id id)
    still (some v) e = ground (arith, ==_iff r.run_id id)

call-closed :
    (c : Call) (id : Text) (s : RunSupervisor)
    → closed (lookup s.runs id) ≡ true
    → closed (lookup (call c s).runs id) ≡ true
unfolding call append_log unpark park finish
call-closed (synced r) id s h = sync-closed r id s h
call-closed (logged k line now) id s h = h
call-closed (parked k packet channel now) id s h = modify-closed k id _ s.runs (λ v e. e) h
call-closed (unparked k) id s h = modify-closed k id _ s.runs (λ v e. e) h
call-closed (decided waits k decision now) id s h = elim (Option-cases (lookup s.gates k)) [
  | inl e ↦ ap (λ t. closed (lookup t.1.runs id)) (decide-none waits k decision now s e) ∙ h
  | inr (channel, e) ↦
      ap (λ t. closed (lookup t.1.runs id)) (decide-some waits k decision now s e)
      ∙ modify-closed k id _ s.runs (λ v e. e) h
]
call-closed (finished k problem now) id s h = modify-closed k id _ s.runs (λ v e. refl) h

run-closed :
    (cs : List Call) (id : Text) (s : RunSupervisor)
    → closed (lookup s.runs id) ≡ true
    → closed (lookup (run cs s).runs id) ≡ true
unfolding run
run-closed [] id s h = h
run-closed (c ∷ cs) id s h = run-closed cs id (call c s) (call-closed c id s h)

-- Once `finish` is called on a run that has a view, the run is never shown as running again, whatever
-- is called afterwards.
pub is_running-finish :
    (id : Text) (problem : Option Text) (now : ℕ) (s : RunSupervisor) (cs : List Call)
    → is_some (view id s) ≡ true
    → is_running id (run cs (finish id problem now s)) ≡ false
unfolding view finish is_running
is_running-finish id problem now s cs h =
    stopped_if (lookup (run cs (finish id problem now s)).runs id) (
      run-closed cs id (finish id problem now s)
        (ap closed (lookup-modify s.runs id id end) ∙ ended (lookup s.runs id) h))
  where
    end : RunView → RunView
    end v = record v { finished = true; pending = none; error = problem; updated_at_ms = now }

    ended :
        (o : Option RunView)
        → is_some o ≡ true
        → closed (if id == id then changed end o else o) ≡ true
    ended none e = cc
    ended (some v) e = ground (arith, ==_refl id)

    stopped_if : (o : Option RunView) → closed o ≡ true → running o ≡ false
    stopped_if none e = cc
    stopped_if (some v) e = ap not e
