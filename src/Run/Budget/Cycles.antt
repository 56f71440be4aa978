-- ===== src/Run/Budget/Cycles.antt =====
-- budget.rs: how many cycles a phase may take, when it stops, and what retries cost.
use agentchat.Prelude.{
  ℕ, suc, ◌+◌, ◌≤◌, ◌<◌, ◌≡◌, refl, true, List, [], ◌∷◌, none, arith, length, u32_max, ◌≢◌, inl,
  inr, Option-cases,
}
use agentchat.Protocol.Run.{CycleBudgetConfig}
use agentchat.Run.Budget.{CycleLedger, new, record_cycle, is_terminal}
use agentchat.Run.Budget.Ledger.{IsValid, record_cycle-IsValid, new-IsValid}

-- A phase whose rounds raise these numbers of new blocking findings.
unfoldable pub record_cycles : CycleLedger → List ℕ → CycleLedger
record_cycles l [] = l
record_cycles l (n ∷ ns) = record_cycles (record_cycle l n) ns

record_cycles-IsValid : (l : CycleLedger) (ns : List ℕ) → IsValid l → IsValid (record_cycles l ns)
unfolding record_cycles
record_cycles-IsValid l [] v = v
record_cycles-IsValid l (n ∷ ns) v =
    record_cycles-IsValid (record_cycle l n) ns (record_cycle-IsValid l n v)

pub record_cycle_done : (l : CycleLedger) (n : ℕ) → l.exit_reason ≢ none → record_cycle l n ≡ l
unfolding record_cycle
record_cycle_done l n h = ground arith

pub record_cycles_done :
    (l : CycleLedger) (ns : List ℕ) → l.exit_reason ≢ none → record_cycles l ns ≡ l
unfolding record_cycles
record_cycles_done l [] h = refl
record_cycles_done l (n ∷ ns) h = ground (arith, record_cycle_done l n, record_cycles_done l ns)

-- An open ledger has counted every cycle.
open_counts :
    (l : CycleLedger) (n : ℕ)
    → (record_cycle l n).exit_reason ≡ none
    → (l.exit_reason ≡ none)
      × (length (record_cycle l n).new_blocking_history ≡ suc (length l.new_blocking_history))
      × ((record_cycle l n).config ≡ l.config)
unfolding record_cycle
open_counts l n h = ground arith

record_cycles_open :
    (l : CycleLedger) (ns : List ℕ)
    → (record_cycles l ns).exit_reason ≡ none
    → (length (record_cycles l ns).new_blocking_history ≡ length ns + length l.new_blocking_history)
      × ((record_cycles l ns).config ≡ l.config)
      × (l.exit_reason ≡ none)
unfolding record_cycles
record_cycles_open l [] h = ground arith
record_cycles_open l (n ∷ ns) h =
    let ih = record_cycles_open (record_cycle l n) ns h in
    let o = open_counts l n ih.2 in ground arith

-- A phase ends within its budget: after at least `max_cycles` completed cycles, and at least one, a
-- new ledger has an exit reason, whatever the rounds raised. The cap is a 32-bit number.
pub record_cycles_exits :
    (c : CycleBudgetConfig) (ns : List ℕ)
    → c.max_cycles ≤ u32_max
    → c.max_cycles ≤ length ns
    → 0 < length ns
    → is_terminal (record_cycles (new c) ns) ≡ true
unfolding new
record_cycles_exits c ns w h k = elim (Option-cases (record_cycles (new c) ns).exit_reason) [
  | inr (r, e) ↦ rw e
  | inl e ↦
      let v = record_cycles-IsValid (new c) ns (new-IsValid c) in
      let o = record_cycles_open (new c) ns e in
      absurd (ground (arith, v.counted, v.below_cap e, o))
]

-- A cycle that does not end the phase raised something new, and less than the cycle before it.
record_cycle_falls :
    (l : CycleLedger) (n h : ℕ) (rest : List ℕ)
    → l.new_blocking_history ≡ h ∷ rest
    → (record_cycle l n).exit_reason ≡ none
    → (0 < n) × (n < h) × ((record_cycle l n).new_blocking_history ≡ n ∷ l.new_blocking_history)
unfolding record_cycle
record_cycle_falls l n h rest e o = ground arith

shrinks :
    (l : CycleLedger) (h : ℕ) (rest ns : List ℕ)
    → l.new_blocking_history ≡ h ∷ rest
    → 0 < h
    → (record_cycles l ns).exit_reason ≡ none
    → length ns < h
unfolding record_cycles
shrinks l h rest [] e p o = omega arith
shrinks l h rest (n ∷ ns) e p o =
    let still = (record_cycles_open (record_cycle l n) ns o).2 in
    let f = record_cycle_falls l n h rest e still in
    let ih = shrinks (record_cycle l n) n l.new_blocking_history ns f.2 f.0 o in omega arith

-- The first round bounds the cycles, whatever the cap: a phase whose first round raised `n` new
-- blocking findings and that has not ended has completed at most `n` cycles.
pub record_cycles-le-first :
    (c : CycleBudgetConfig) (n : ℕ) (ns : List ℕ)
    → (record_cycles (new c) (n ∷ ns)).exit_reason ≡ none
    → length (n ∷ ns) ≤ n
unfolding record_cycles new record_cycle
record_cycles-le-first c n ns o =
    let still = (record_cycles_open (record_cycle (new c) n) ns o).2 in
    let p : 0 < n = ground arith in
    let h : (record_cycle (new c) n).new_blocking_history ≡ n ∷ [] = ground arith in
    shrinks (record_cycle (new c) n) n [] ns h p o
