-- ===== src/Lib.antt =====
-- agentchat: a daemon between clients and coding agents. It runs a loop of writing, review and answer
-- that turns an Issue into approved code, and keeps threads, in which people and agents talk.
--
-- A run has two phases, plan and code. In a phase an author writes a version, reviewers report on it
-- in a round, validation turns their reports into findings, and the author answers every blocking
-- finding while it writes the next version; a ledger of cycles decides when the phase stops, and a
-- human then approves it or sends it back. Parts and files:
--
-- - daemon/protocol/src/run.rs: Protocol/Run/Types (raw reports, findings, dispositions, budgets,
--   stages, statuses), Protocol/Run/Packet (the packet a human reads), Protocol/Run/Category (the
--   tokens of categories), Protocol/Run/Ids (`finding_id`); Protocol/Run/{Tokens, Identity} are about
--   these two.
-- - daemon/core/src/run/budget.rs: Run/Budget (`CycleLedger` and its methods); Run/Budget/Ledger is
--   its invariant over sequences of operations, Run/Budget/Cycles when it exits, Run/Budget/Retries
--   what retries and the human's rejection do to it.
-- - daemon/core/src/run/findings.rs: Run/Findings/Normalize (`normalize`, `normalize_file`,
--   `evidence_is_weak`), Run/Findings/Validate (`validate_report`, `validate_round`),
--   Run/Findings/Since (`new_blocking_since`, `blocking_findings`), Run/Findings/Group
--   (`group_findings`); Run/Findings/Reports is about validation, Run/Findings/Rounds about the
--   blocking findings of rounds, Run/Findings/{Order, Grouping, Ranking, Keys} about groups.
-- - daemon/core/src/run/disposition.rs: Run/Disposition (`evaluate_gate`, `disputed_findings`,
--   `declined_advisory`); Run/Disposition/{Fields, Gate} is what a rejection holds,
--   Run/Disposition/Acceptance when the gate passes, Run/Disposition/Carried what carries over.
-- - daemon/core/src/run/state.rs: Run/State/Phase (`PhaseState`), Run/State/Whole (`RunState`);
--   Run/State/{Invariant, Progress} is about calls on a phase, Run/State/Runs about calls on a run.
-- - daemon/core/src/run/approval.rs: Run/Approval (`build_packet`); Run/Approval/Counts is about the
--   answers and the summary, Run/Approval/Archive about what the packet shows.
-- - daemon/core/src/run/executor.rs: Run/Executor/Turns (errors, retries, the loop), and the stages
--   Run/Executor/Author (`execute_author`), Run/Executor/Review (`execute_review_round`) and
--   Run/Executor/Answer (`execute_disposition`); Run/Executor/Cases and Run/Executor/Refinement
--   follow the phase through a stage, Run/Executor/Retries is about the loops' end,
--   Run/Executor/Outcomes about results.
-- - daemon/core/src/run/orchestrator.rs: Run/Orchestrator (`drive_phase`), Run/Orchestrator/Until
--   (`drive_until`); Run/Orchestrator/{Stages, Rounds, Drivable, Nearer, Progress,
--   Gate} are about the end of a phase, Run/Orchestrator/{Kept, Safety} about a completed run.
-- - daemon/core/src/run/supervisor.rs: Run/Supervisor/Registry (`RunSupervisor`),
--   Run/Supervisor/Approvals (`SupervisorGate::request`); Run/Supervisor/{Calls, Consistent} are about
--   sequences of calls, Run/Supervisor/{Lines, Delivered, Listed, Watched} about the activity log, the
--   approval and what a user interface reads.
-- - daemon/core/src/run/store.rs: Run/Store/Snapshots (`RunStore`), Run/Store/Scan (`scan_resumable`,
--   `resume`); Run/Store/{Recovery, Resuming, Restart} are about restarts.
-- - daemon/protocol/src/lib.rs: Protocol/Wire/{Types, Events, Mention} (events, what they carry, and the
--   handles of mentions).
-- - daemon/protocol/src/relay.rs: Protocol/Relay/{Checks, Messages, Channel} (messages of the relay, their
--   validation, and the id of a channel); Protocol/Relay/{Accepted, Derived} are about these.
-- - daemon/core/src/thread_event_log.rs and session_event_log.rs: Logs/Numbered and Logs/Kinds (the
--   journals of numbered events); Logs/{Sequence, Refinement, Resume} are about replay.
-- - daemon/core/src/thread_store.rs: Threads/Records and Threads/Store (`ThreadStore`); Threads/{Handles,
--   Unique, Calls, Apart} are about ids and effective handles.
-- - daemon/core/src/session_store.rs: Sessions/Transcripts (`SessionStore`); Sessions/Recorded is about
--   sequences of calls on it.
-- - daemon/server/src/app.rs and daemon/core/src/backend.rs: Server/{Feed, Updates} (what agents send, as
--   events of sessions and threads), Server/Attach (a client that attaches), Server/{Mentions, Routes,
--   Send} (a message, its mentions, and whom it prompts); Server/{Streams, Turns, Emits, Inputs, Replays,
--   Spans, Targets} are about these.
--
-- The parts meet as follows. The orchestrator takes a run's state through the stages of the executor,
-- writes it by the store and hands its packet to the supervisor's gate, where a client answers. The
-- server turns what agents send into events, numbers them in the journals, and sends a client that
-- attaches what it has not seen; the thread store says which session speaks for which participant.
--
-- Prelude has the equality tests, lists without repetition, maps, saturation and `Result`; Text has
-- texts as lists of code points, and the operations of Rust's `str` the source uses.
--
-- How the code is represented. A `&mut self` method returns the new state beside its result; a method
-- that fails returns no state, since it changes nothing. `u32` counters saturate at 2 ^ 32 - 1 where
-- the source calls `saturating_add`, sequence numbers at 2 ^ 64 - 1; `usize` lengths are unbounded. The
-- activity log of a run keeps 5,000 lines. A ledger's history of rounds is newest first. A `BTreeSet` of ids is a list, a `BTreeMap` of findings a list of buckets in the
-- order of their keys, a `HashMap` an association list, whose order stands for the map's. A channel is
-- a number. The clock's reading, a new uuid, the text that `serde_json` makes of a run, Unicode's tables,
-- whether a session is being prompted or an agent alive, base64, and the failure of each file operation are
-- arguments. What findings take from elsewhere is the record `Externals` of Run/Findings/Normalize: Unicode's lower case and the SHA-256 digest, of which
-- nothing is assumed but, where a theorem says so, the digest's length. What agents and files do is a
-- value: a turn with the error of its prompt and what is found on disk afterwards, and the error of
-- each write, if it fails. The functions recurse on their lists, but for three kinds of loop that take
-- fuel. The loops of a stage have one turn more than `allowance`, what the retry allowances leave, and
-- the loop of `drive_phase` one stage more than `stages_left`; Run/Executor/Retries and
-- Run/Orchestrator/Gate show that this is enough. The loop of `drive_until` goes on as often as the
-- human sends a phase back: its fuel is one more than the number of decisions that are asked.
--
-- Not modelled: the texts of prompts, error messages and `GateRejection::feedback`, the page that a human
-- reads and the paths of a run's files, progress events, the files of journals, skills and capabilities,
-- the processes of agents and their protocols, the sockets of the server and of the relay with their
-- encryption, the console, the command line, and the clients.
pub mod Prelude
pub mod Text
pub mod Protocol
pub mod Run
pub mod Logs
pub mod Threads
pub mod Server
pub mod Sessions
