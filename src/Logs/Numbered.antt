-- ===== src/Logs/Numbered.antt =====
-- The shape that daemon/core/src/thread_event_log.rs and session_event_log.rs share: for each id a
-- counter of sequence numbers and the list of events, oldest first. Which id and which number an event
-- has are parameters.
use agentchat.Prelude.{
  unwrap_or, ℕ, List, [], ◌∷◌, ◌++◌, Option, none, some, ltb, filter, HashMap, lookup, insert,
  erase, saturating_suc64, list_eq, nat_eq,
}
use agentchat.Text.{Text}

pub record Journal (Event : Type 0) : Type 0 where
  pub next_seqs : HashMap Text ℕ
  pub events : HashMap Text (List Event)

-- `events.last()`.
unfoldable pub last {ℓ} : {A : Type ℓ} → List A → Option A
last [] = none
last (x ∷ []) = some x
last (x ∷ y ∷ xs) = last (y ∷ xs)

abbrev pub and_then {ℓ κ} : {A : Type ℓ} {B : Type κ} → Option A → (A → Option B) → Option B
and_then none f = none
and_then (some a) f = f a

module _ {Event : Type 0} where
  unfoldable pub new_journal : Journal Event
  new_journal = record { next_seqs = []; events = [] }

  -- `entry(id).or_insert(1)` and `entry(id).or_default()`.
  unfoldable pub init : Text → Journal Event → Journal Event
  unfolding lookup insert
  init id j = record {
    next_seqs = insert j.next_seqs id (unwrap_or 1 (lookup j.next_seqs id));
    events = insert j.events id (unwrap_or [] (lookup j.events id));
  }

  -- The number handed out, and the journal after it.
  unfoldable pub take_seq : Text → Journal Event → ℕ × Journal Event
  unfolding lookup insert
  take_seq id j =
      let current = unwrap_or 1 (lookup j.next_seqs id) in
      (current, record j { next_seqs = insert j.next_seqs id (saturating_suc64 current) })

  unfoldable pub remove : Text → Journal Event → Journal Event
  unfolding erase
  remove id j = record { next_seqs = erase j.next_seqs id; events = erase j.events id }

  -- The events of one id, oldest first.
  unfoldable pub events_of : Text → Journal Event → List Event
  unfolding lookup
  events_of id j = unwrap_or [] (lookup j.events id)

module _ {Event : Type 0} (id_of : Event → Option Text) where
  unfoldable pub append : Event → Journal Event → Journal Event
  unfolding lookup insert
  append event j = elim (id_of event) [
    | none ↦ j
    | some id ↦ record j {
      events = insert j.events id (unwrap_or [] (lookup j.events id) ++ event ∷ []);
    }
  ]

module _ {Event : Type 0} (seq_of : Event → Option ℕ) where
  unfoldable pub tail_seq : Text → Journal Event → ℕ
  unfolding lookup last
  tail_seq id j =
      unwrap_or 0 (and_then (and_then (lookup j.events id) (λ events. last events)) seq_of)

  unfoldable pub replay_after : Text → ℕ → Journal Event → List Event
  unfolding events_of
  replay_after id after_seq j =
      filter (λ event. ltb after_seq (unwrap_or 0 (seq_of event))) (events_of id j)
