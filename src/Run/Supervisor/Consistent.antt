-- ===== src/Run/Supervisor/Consistent.antt =====
-- supervisor.rs: what holds of the supervisor between calls.
use agentchat.Prelude.{
  ℕ, ◌≡◌, refl, sym, ap, subst, ◌∙◌, inl, inr, Bool, true, false, List, [], ◌∷◌, Option, none, some,
  if◌then◌else◌, is_some, if_cases, contains, Distinct, HashMap, lookup, insert, erase, modify,
  changed, contains_key, lookup-insert, lookup-erase, lookup-modify, ◌==◌, ==_iff, list_eq, nat_eq,
  arith, Option-cases, ok, err,
}
use agentchat.Text.{Text}
use agentchat.Protocol.Run.{ApprovalPacket, ApprovalDecision}
use agentchat.Run.State.{RunState}
use agentchat.Run.Supervisor.Registry.{
  not_waiting, stopped, RunView, RunSupervisor, new_supervisor, register, keep_fields, from_state,
  sync, append_log, park, unpark, decide, finish,
}
use agentchat.Run.Supervisor.Calls.{
  Call, synced, logged, parked, unparked, decided, finished, call, run,
}

-- A view that shows a packet.
abbrev pub shows_packet : Option RunView → Bool
shows_packet none = false
shows_packet (some v) = is_some v.pending

-- A view under the id of its run.
abbrev pub is_named : Text → Option RunView → Bool
is_named id none = true
is_named id (some v) = v.run_id == id

-- The order lists the registered runs, each once; a view stands under its run's id; and a view that
-- shows a packet has a gate to answer.
pub record IsConsistent (s : RunSupervisor) : Type 0 where
  pub listed : (id : Text) → contains s.order id ≡ contains_key s.runs id
  pub once : Distinct s.order
  pub named : (id : Text) → is_named id (lookup s.runs id) ≡ true
  pub gated :
      (id : Text) → shows_packet (lookup s.runs id) ≡ true → is_some (lookup s.gates id) ≡ true

pub new_supervisor-IsConsistent : IsConsistent new_supervisor
unfolding new_supervisor lookup contains contains_key
new_supervisor-IsConsistent = record {
  listed = λ id. refl;
  once = tt;
  named = λ id. refl;
  gated = λ id h. cc;
}

sync-IsConsistent : (r : RunState) (s : RunSupervisor) → IsConsistent s → IsConsistent (sync r s)
unfolding sync register contains_key keep_fields contains from_state
sync-IsConsistent r s h = record {
  listed = λ id.
      ground (arith, ==_iff r.run_id id, lookup-insert s.runs r.run_id id new_view, h.listed id);
  once =
      if_cases Distinct (is_some (lookup s.runs r.run_id)) (λ e. h.once)
        (λ e. (h.listed r.run_id ∙ e, h.once));
  named = λ id.
      ap (is_named id) (lookup-insert s.runs r.run_id id new_view)
      ∙ new_named id (lookup s.runs r.run_id) refl;
  gated = λ id e.
      new_gated id (lookup s.runs r.run_id) refl
        (ap shows_packet (sym (lookup-insert s.runs r.run_id id new_view)) ∙ e);
}
  where
    new_view : RunView
    new_view = keep_fields (lookup s.runs r.run_id) (from_state r)

    new_named :
        (id : Text) (old : Option RunView)
        → lookup s.runs r.run_id ≡ old
        → is_named id
            (if r.run_id == id then some (keep_fields old (from_state r)) else lookup s.runs id)
          ≡ true
    new_named id none e = ground (arith, h.named id)
    new_named id (some v) e = ground (arith, h.named id)

    new_gated :
        (id : Text) (old : Option RunView)
        → lookup s.runs r.run_id ≡ old
        → shows_packet
            (if r.run_id == id then some (keep_fields old (from_state r)) else lookup s.runs id)
          ≡ true
        → is_some (lookup s.gates id) ≡ true
    new_gated id none e shown = ground (arith, h.gated id)
    new_gated id (some v) e shown = ground (arith, ==_iff r.run_id id, h.gated id, h.gated r.run_id)

-- A change of one run's view and of the gates.
changed_view :
    (k : Text) (f : RunView → RunView) (gates : HashMap Text ℕ) (s : RunSupervisor)
    → ((v : RunView) → (f v).run_id ≡ v.run_id)
    → ((id : Text)
        → shows_packet (if k == id then changed f (lookup s.runs id) else lookup s.runs id) ≡ true
        → is_some (lookup gates id) ≡ true)
    → IsConsistent s
    → IsConsistent (record s { runs = modify s.runs k f; gates = gates })
unfolding contains_key
changed_view k f gates s keeps gated h = record {
  listed = λ id.
      h.listed id ∙ same id (lookup s.runs id) ∙ ap is_some (sym (lookup-modify s.runs k id f));
  once = h.once;
  named = λ id.
      ap (is_named id) (lookup-modify s.runs k id f) ∙ name id (lookup s.runs id) (h.named id);
  gated = λ id e. gated id (ap shows_packet (sym (lookup-modify s.runs k id f)) ∙ e);
}
  where
    same :
        (id : Text) (old : Option RunView)
        → is_some old ≡ is_some (if k == id then changed f old else old)
    same id none = ground arith
    same id (some v) = ground arith

    name :
        (id : Text) (old : Option RunView)
        → is_named id old ≡ true
        → is_named id (if k == id then changed f old else old) ≡ true
    name id none e = ground arith
    name id (some v) e = ground (arith, keeps v)

park-IsConsistent :
    (k : Text) (packet : ApprovalPacket) (channel now : ℕ) (s : RunSupervisor)
    → IsConsistent s
    → IsConsistent (park k packet channel now s)
unfolding park
park-IsConsistent k packet channel now s h =
    changed_view k (λ v. record v { pending = some packet; updated_at_ms = now })
      (insert s.gates k channel) s (λ v. refl)
      (λ id shown. ground (arith, lookup-insert s.gates k id channel, h.gated id)) h

-- A change that takes the packet away and closes the gate.
cleared_view :
    (k : Text) (f : RunView → RunView) (s : RunSupervisor)
    → ((v : RunView) → (f v).run_id ≡ v.run_id)
    → ((v : RunView) → (f v).pending ≡ none)
    → IsConsistent s
    → IsConsistent (record s { runs = modify s.runs k f; gates = erase s.gates k })
cleared_view k f s keeps clears h =
    changed_view k f (erase s.gates k) s keeps (λ id. closed id (lookup s.runs id) (h.gated id)) h
  where
    closed :
        (id : Text) (old : Option RunView)
        → (shows_packet old ≡ true → is_some (lookup s.gates id) ≡ true)
        → shows_packet (if k == id then changed f old else old) ≡ true
        → is_some (lookup (erase s.gates k) id) ≡ true
    closed id none g shown = ground arith
    closed id (some v) g shown = ground (arith, clears v, lookup-erase s.gates k id, g)

-- The supervisor after a decision found its gate.
abbrev pub answered : Text → ℕ → RunSupervisor → RunSupervisor
answered id now s = record s {
  gates = erase s.gates id;
  runs = modify s.runs id (λ v. record v { pending = none; updated_at_ms = now });
}

pub decide-none :
    (waits : ℕ → Bool) (id : Text) (decision : ApprovalDecision) (now : ℕ) (s : RunSupervisor)
    → lookup s.gates id ≡ none
    → decide waits id decision now s ≡ (err (not_waiting id), s)
unfolding decide
decide-none waits id decision now s e = rw (decide, e) refl

pub decide-some :
    (waits : ℕ → Bool) (id : Text) (decision : ApprovalDecision) (now : ℕ) (s : RunSupervisor)
    {channel : ℕ}
    → lookup s.gates id ≡ some channel
    → decide waits id decision now s
      ≡ (if waits channel then ok (channel, decision) else err (stopped id), answered id now s)
unfolding decide
decide-some waits id decision now s e = rw (decide, e) refl

pub call-IsConsistent : (c : Call) (s : RunSupervisor) → IsConsistent s → IsConsistent (call c s)
unfolding call append_log unpark finish decide
call-IsConsistent (synced r) s h = sync-IsConsistent r s h
call-IsConsistent (logged id line now) s h = record {
  listed = h.listed;
  once = h.once;
  named = h.named;
  gated = h.gated;
}
call-IsConsistent (parked id packet channel now) s h = park-IsConsistent id packet channel now s h
call-IsConsistent (unparked id) s h = cleared_view id _ s (λ v. refl) (λ v. refl) h
call-IsConsistent (finished id problem now) s h = cleared_view id _ s (λ v. refl) (λ v. refl) h
call-IsConsistent (decided waits id decision now) s h = elim (Option-cases (lookup s.gates id)) [
  | inl e ↦ subst IsConsistent (sym (ap (λ t. t.1) (decide-none waits id decision now s e))) h
  | inr (channel, e) ↦
      subst IsConsistent (sym (ap (λ t. t.1) (decide-some waits id decision now s e)))
        (cleared_view id _ s (λ v. refl) (λ v. refl) h)
]

run-IsConsistent : (cs : List Call) (s : RunSupervisor) → IsConsistent s → IsConsistent (run cs s)
unfolding run
run-IsConsistent [] s h = h
run-IsConsistent (c ∷ cs) s h = run-IsConsistent cs (call c s) (call-IsConsistent c s h)

-- After any calls on a new supervisor, the order lists exactly the registered runs, each once, a view
-- stands under its run's id, and a view that shows a packet has a gate to answer.
pub run-new_supervisor-IsConsistent : (cs : List Call) → IsConsistent (run cs new_supervisor)
run-new_supervisor-IsConsistent cs = run-IsConsistent cs new_supervisor new_supervisor-IsConsistent
