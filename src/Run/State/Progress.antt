-- ===== src/Run/State/Progress.antt =====
-- state.rs: a phase reaches the human within its budget of accepted exchanges.
use agentchat.Prelude.{
  ℕ, suc, ◌≤◌, ◌<◌, ◌≡◌, refl, ap, ◌∙◌, sym, true, List, [], ◌∷◌, none, arith, length, is_some,
  u32_max, ◌⊎◌, ◌≢◌, inl, inr,
}
use agentchat.Protocol.Run.{
  CycleBudgetConfig, Disposition, Finding, PhaseKind, reviewing, dispositioning, awaiting_approval,
}
use agentchat.Run.Budget
use agentchat.Run.Budget.Cycles.{record_cycles, record_cycles_exits, record_cycle_done}
use agentchat.Run.Disposition.{evaluate_gate, pass}
use agentchat.Run.State.Phase.{
  PhaseState, new_phase, record_draft, record_review_round, record_disposition, exit_reason,
}
use agentchat.Run.State.Invariant.{
  draft, review, dispose, call, calls, IsSound, call-IsSound, calls_new-IsSound,
}

-- One exchange: a round of findings, and the author's answers to it.
abbrev pub Exchange : Type 0
Exchange = List Finding × List Disposition

pub exchanges : PhaseState → List Exchange → PhaseState
exchanges p [] = p
exchanges p ((fs, ds) ∷ es) = exchanges (call (call p (review fs)) (dispose ds)) es

-- The gate passes the answers of each exchange.
abbrev pub Answered : List Exchange → Type 0
Answered [] = Unit
Answered ((fs, ds) ∷ es) = (evaluate_gate fs ds ≡ pass) × Answered es

-- Waiting for reviewers, or for the human.
record IsOpenOrDone (p : PhaseState) : Type 0 where
  sound : IsSound p
  stage : (p.stage ≡ reviewing) ⊎ (p.stage ≡ awaiting_approval)

review_stage :
    (p : PhaseState) (fs : List Finding)
    → p.stage ≡ reviewing
    → ((call p (review fs)).stage ≡ dispositioning)
      × ((call p (review fs)).current_round_findings ≡ fs)
      × ((call p (review fs)).ledger ≡ p.ledger)
unfolding call record_review_round
review_stage p fs e = ground arith

dispose_stage :
    (p : PhaseState) (ds : List Disposition)
    → p.stage ≡ dispositioning
    → evaluate_gate p.current_round_findings ds ≡ pass
    → (((call p (dispose ds)).stage ≡ reviewing)
        ⊎ ((call p (dispose ds)).stage ≡ awaiting_approval))
      × ((call p (dispose ds)).ledger ≡ Budget.record_cycle p.ledger p.pending_new_blocking)
unfolding call record_disposition
dispose_stage p ds e g = ground arith

done_call :
    (p : PhaseState) (fs : List Finding) (ds : List Disposition)
    → p.stage ≡ awaiting_approval
    → call (call p (review fs)) (dispose ds) ≡ p
unfolding call record_review_round record_disposition
done_call p fs ds e = ground arith

-- What an exchange does to a phase that is open or done.
record Exchanged (p q : PhaseState) : Type 0 where
  kept : IsOpenOrDone q
  count : ℕ
  ledger : q.ledger ≡ Budget.record_cycle p.ledger count

has_exit : (p : PhaseState) → p.stage ≡ awaiting_approval → IsSound p → exit_reason p ≢ none
has_exit p e s h = let r = s.gate_has_reason e in ground arith

exchange_lem :
    (p : PhaseState) (fs : List Finding) (ds : List Disposition)
    → IsOpenOrDone p
    → evaluate_gate fs ds ≡ pass
    → Exchanged p (call (call p (review fs)) (dispose ds))
exchange_lem p fs ds o g = elim o.stage [
  | inl e ↦
      let r = review_stage p fs e in
      let q = call p (review fs) in
      let d = dispose_stage q ds r.0 (rw r.1 g) in
      record {
        kept = record {
          sound = call-IsSound q (dispose ds) (call-IsSound p (review fs) o.sound);
          stage = d.0;
        };
        count = q.pending_new_blocking;
        ledger = d.1 ∙ ap (λ l. Budget.record_cycle l q.pending_new_blocking) r.2;
      }
  | inr e ↦ rw (done_call p fs ds e) (record {
    kept = record { sound = o.sound; stage = inr e };
    count = 0;
    ledger = sym (record_cycle_done p.ledger 0 (has_exit p e o.sound));
  })
]

-- The rounds of a phase, as its ledger counts them.
record Counted (p q : PhaseState) (es : List Exchange) : Type 0 where
  kept : IsOpenOrDone q
  counts : List ℕ
  each : length counts ≡ length es
  ledger : q.ledger ≡ record_cycles p.ledger counts

exchanges_lem :
    (p : PhaseState) (es : List Exchange)
    → IsOpenOrDone p
    → Answered es
    → Counted p (exchanges p es) es
unfolding exchanges record_cycles
exchanges_lem p [] o a = record { kept = o; counts = []; each = refl; ledger = refl }
exchanges_lem p ((fs, ds) ∷ es) o a =
    let x = exchange_lem p fs ds o a.0 in
    let rest = exchanges_lem (call (call p (review fs)) (dispose ds)) es x.kept a.1 in
    record {
      kept = rest.kept;
      counts = x.count ∷ rest.counts;
      each = ap suc rest.each;
      ledger = rest.ledger ∙ ap (λ l. record_cycles l rest.counts) x.ledger;
    }

drafted : PhaseKind → CycleBudgetConfig → PhaseState
drafted k b = call (new_phase k b) draft

drafted_open : (k : PhaseKind) (b : CycleBudgetConfig) → IsOpenOrDone (drafted k b)
unfolding drafted call record_draft new_phase calls
drafted_open k b = record {
  sound = call-IsSound (new_phase k b) draft (calls_new-IsSound k b []);
  stage = inl refl;
}

drafted_ledger : (k : PhaseKind) (b : CycleBudgetConfig) → (drafted k b).ledger ≡ Budget.new b
unfolding drafted call record_draft new_phase calls
drafted_ledger k b = refl

at_gate :
    (p : PhaseState) → IsOpenOrDone p → is_some (exit_reason p) ≡ true → p.stage ≡ awaiting_approval
at_gate p o h = o.sound.reason_at_gate h

-- A phase always comes to the human: after the first draft of a new phase, any list of rounds, at
-- least one and at least as many as the budget allows cycles, whose answers the gate passes brings it
-- to its approval gate, whatever the reviewers raise. The cap on cycles is a 32-bit number.
pub exchanges_reach_gate :
    (k : PhaseKind) (b : CycleBudgetConfig) (es : List Exchange)
    → b.max_cycles ≤ u32_max
    → b.max_cycles ≤ length es
    → 0 < length es
    → Answered es
    → (exchanges (call (new_phase k b) draft) es).stage ≡ awaiting_approval
unfolding drafted
exchanges_reach_gate k b es w h pos a =
    let c = exchanges_lem (drafted k b) es (drafted_open k b) a in
    let e : (exchanges (drafted k b) es).ledger ≡ record_cycles (Budget.new b) c.counts =
      c.ledger ∙ ap (λ l. record_cycles l c.counts) (drafted_ledger k b) in
    at_gate (exchanges (drafted k b) es) c.kept
      (rw e (record_cycles_exits b c.counts w (rw c.each h) (rw c.each pos)))
