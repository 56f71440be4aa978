-- ===== src/Run/Supervisor/Delivered.antt =====
-- supervisor.rs: a packet handed to the gate, and the way of the decision back to the run.
use agentchat.Prelude.{
  ℕ, ◌≡◌, refl, ap, ◌∙◌, true, Option, none, some, if◌then◌else◌, is_some, HashMap, lookup, modify,
  changed, lookup-insert_self, lookup-erase_self, lookup-modify, ==_refl, list_eq, nat_eq, Result,
  ok,
}
use agentchat.Text.{Text}
use agentchat.Protocol.Run.{ApprovalPacket, ApprovalDecision}
use agentchat.Run.Supervisor.Registry.{
  RunView, RunSupervisor, append_log, park, unpark, decide, view,
}
use agentchat.Run.Supervisor.Approvals.{request_parks, request_wakes}
use agentchat.Run.Supervisor.Consistent.{answered, decide-some}

-- The packet that a view shows.
abbrev pub packet_of : Option RunView → Option ApprovalPacket
packet_of none = none
packet_of (some v) = v.pending

modify_self :
    (runs : HashMap Text RunView) (id : Text) (f : RunView → RunView)
    → lookup (modify runs id f) id ≡ changed f (lookup runs id)
modify_self runs id f =
    lookup-modify runs id id f
    ∙ ap (λ b. if b then changed f (lookup runs id) else lookup runs id) (==_refl id)

set_packet :
    (o : Option RunView) (f : RunView → RunView) {p : Option ApprovalPacket}
    → ((v : RunView) → (f v).pending ≡ p)
    → is_some o ≡ true
    → packet_of (changed f o) ≡ p
set_packet none f h e = cc
set_packet (some v) f h e = h v

-- A gate that asks for a decision on a run with a view shows its packet there; a decision then goes to
-- that gate's channel while its receiver waits; and when the gate wakes with it, it returns that
-- decision, the packet is gone from the view and the gate is closed.
pub request_wakes-decide :
    (id : Text) (packet : ApprovalPacket) (channel now : ℕ) (decision : ApprovalDecision)
    (later waking : ℕ) (s : RunSupervisor)
    → is_some (view id s) ≡ true
    → let asked = request_parks id packet channel now s in
      let told = decide (λ _. true) id decision later asked in
      let woken = request_wakes id (some decision) waking told.1 in
      (packet_of (view id asked) ≡ some packet)
      × (told.0 ≡ ok (channel, decision))
      × (woken.0 ≡ ok decision)
      × (packet_of (view id woken.1) ≡ none)
      × (lookup woken.1.gates id ≡ none)
unfolding view request_parks request_wakes park append_log unpark
request_wakes-decide id packet channel now decision later waking s h = (
  ap packet_of (modify_self s.runs id show) ∙ set_packet (lookup s.runs id) show (λ v. refl) h,
  ap (λ t. t.0) told_eq,
  refl,
  ap packet_of (modify_self told.1.runs id hide) ∙ hidden (lookup told.1.runs id),
  lookup-erase_self told.1.gates id,
)
  where
    show : RunView → RunView
    show v = record v { pending = some packet; updated_at_ms = now }

    hide : RunView → RunView
    hide v = record v { pending = none }

    asked : RunSupervisor
    asked = request_parks id packet channel now s

    told : Result Text (ℕ × ApprovalDecision) × RunSupervisor
    told = decide (λ _. true) id decision later asked

    told_eq : told ≡ (ok (channel, decision), answered id later asked)
    told_eq =
        decide-some (λ _. true) id decision later asked (lookup-insert_self s.gates id channel)

    hidden : (o : Option RunView) → packet_of (changed hide o) ≡ none
    hidden none = refl
    hidden (some v) = refl
