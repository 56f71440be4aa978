-- ===== src/Run/Disposition/Carried.antt =====
-- disposition.rs: which findings carry into the next round, and which become follow-ups.
use agentchat.Prelude.{
  ◌≡◌, sym, true, false, List, contains, Memᴰ, filter, is_empty, list_eq, nat_eq, arith, inl, inr,
  ◌⊎◌, mem→contains, contains→mem, mem-map, mem-map_inv, mem-filter_of, mem-filter,
}
use agentchat.Text.{trim}
use agentchat.Protocol.Run.{
  Finding, is_blocking, Disposition, DispositionAction, accepted, disputed, action_eqb,
}
use agentchat.Run.Findings.{id_of, blocking_findings}
use agentchat.Run.Findings.Rounds.{mem-blocking_findings}
use agentchat.Run.Disposition.{pass, evaluate_gate, ids_with, disputed_findings}
use agentchat.Run.Disposition.Acceptance.{IsComplete, evaluate_gate-pass_iff}

action_of_eqb : (a b : DispositionAction) → action_eqb a b ≡ true → a ≡ b
action_of_eqb a b h = ground arith

eqb_of_action : (a b : DispositionAction) → a ≡ b → action_eqb a b ≡ true
eqb_of_action a b h = ground arith

mem-ids_with :
    (a : DispositionAction) (ds : List Disposition) (f : Finding)
    → contains (ids_with a ds) (id_of f) ≡ true
    → (d : Disposition) × Memᴰ d ds × (d.finding_id ≡ f.finding_id) × (d.action ≡ a)
mem-ids_with a ds f h =
    let (d, m, e) =
      mem-map_inv (λ d. d.finding_id) (filter (λ d. action_eqb d.action a) ds)
        (contains→mem (ids_with a ds) (id_of f) h) in
    let (n, k) = mem-filter (λ d. action_eqb d.action a) ds m in
    (d, n, sym e, action_of_eqb d.action a k)

ids_with-mem :
    (a : DispositionAction) {ds : List Disposition} {d : Disposition}
    → Memᴰ d ds
    → d.action ≡ a
    → contains (ids_with a ds) d.finding_id ≡ true
ids_with-mem a m e = mem→contains (
    mem-map (λ d. d.finding_id)
      (mem-filter_of (λ d. action_eqb d.action a) m (eqb_of_action _ a e)))

module _ (fs : List Finding) (ds : List Disposition) (passed : evaluate_gate fs ds ≡ pass) where
  complete : IsComplete fs ds
  complete = (evaluate_gate-pass_iff fs ds).0 passed

  argued_dispute :
      (f : Finding) (d : Disposition)
      → Memᴰ f fs
      → is_blocking f ≡ true
      → Memᴰ d ds
      → d.finding_id ≡ f.finding_id
      → d.action ≡ disputed
      → is_empty (trim d.reason) ≡ false
  argued_dispute f d m b n e a = let w = complete.argued f d m b n e in ground arith

  -- Once the gate has passed, a finding that carries into the next round is a blocking finding of this
  -- one, and the author disputed it and gave a reason.
  pub disputed_findings-argued :
      {f : Finding}
      → Memᴰ f (disputed_findings fs ds)
      → Memᴰ f fs
        × (is_blocking f ≡ true)
        × ((d : Disposition) × Memᴰ d ds
            × (d.finding_id ≡ f.finding_id)
            × (d.action ≡ disputed)
            × (is_empty (trim d.reason) ≡ false))
  unfolding disputed_findings
  disputed_findings-argued {f} m =
      let (n, h) =
        mem-filter (λ g. contains (ids_with disputed ds) (id_of g)) (blocking_findings fs) m in
      let (k, b) = mem-blocking_findings fs n in
      let (d, l, e, a) = mem-ids_with disputed ds f h in
      (k, b, (d, l, e, a, argued_dispute f d k b l e a))

  -- Once the gate has passed, a blocking finding is carried into the next round or was accepted.
  pub accepted_or_disputed :
      {f : Finding}
      → Memᴰ f (blocking_findings fs)
      → Memᴰ f (disputed_findings fs ds)
        ⊎ ((d : Disposition) × Memᴰ d ds × (d.finding_id ≡ f.finding_id) × (d.action ≡ accepted))
  unfolding disputed_findings
  accepted_or_disputed {f} m =
      let (k, b) = mem-blocking_findings fs m in
      let (d, n, e) = complete.answered f k b in
      elim (complete.argued f d k b n e) [
        | inl a ↦ inr (d, n, e, a)
        | inr w ↦ inl (
            mem-filter_of (λ g. contains (ids_with disputed ds) (id_of g)) m
              (rw (sym e) (ids_with-mem disputed n w.0)))
      ]
