-- ===== src/Logs/Samples.antt =====
-- Two participants removed from a thread while another thread is closed.
use agentchat.Prelude.{◌≡◌, refl, List, [], ◌∷◌, ◌++◌, arith, list_eq, nat_eq, list_eqb}
use agentchat.Text.{Text, codes}
use agentchat.Protocol.Wire.{
  thread_participant_removed, turn_end, event_thread_id, thread_seq, event_session_id, event_seq,
}
use agentchat.Logs.Numbered.{new_journal, replay_after, tail_seq}
use agentchat.Logs.Sequence.{Entry, Call, open_log, emit, close_log, run}
use agentchat.Logs.Refinement.{Follows, emitted_by, run-new_journal-Follows}
use agentchat.Logs.Resume.{Keeps, replay_after-resumes}

abbrev first : Text
first = codes "thread-1"

abbrev other : Text
other = codes "thread-2"

-- The removal of a participant, journaled.
abbrev removed : Text → Text → Entry event_thread_id thread_seq
removed thread participant = record {
  id = thread;
  make = λ n. thread_participant_removed thread n participant;
  owned = λ n. unfold event_thread_id in refl;
  numbered = λ n. unfold thread_seq in refl;
}

abbrev turn : Text → Entry event_session_id event_seq
turn session = record {
  id = session;
  make = λ n. turn_end session n (codes "end");
  owned = λ n. unfold event_session_id in refl;
  numbered = λ n. unfold event_seq in refl;
}

abbrev early : List (Call event_thread_id thread_seq)
early = open_log first ∷ emit (removed first (codes "p1")) ∷ emit (removed other (codes "p2")) ∷ []

abbrev late : List (Call event_thread_id thread_seq)
late = close_log other ∷ emit (removed first (codes "p3")) ∷ []

run-new_journal-Follows_example :
    Follows event_thread_id thread_seq
      (run event_thread_id thread_seq early new_journal)
      (emitted_by event_thread_id thread_seq early)
run-new_journal-Follows_example =
    run-new_journal-Follows event_thread_id thread_seq early (omega arith)

replay_after-resumes_example :
    let before = run event_thread_id thread_seq early new_journal in
    let after = run event_thread_id thread_seq late before in
    replay_after thread_seq first 0 before
      ++ replay_after thread_seq first (tail_seq thread_seq first before) after
    ≡ replay_after thread_seq first 0 after
unfolding Keeps list_eqb
replay_after-resumes_example =
    replay_after-resumes event_thread_id thread_seq early late first (omega arith) (refl, tt)

-- The reader of the second test takes up the third event.
late_replay :
    replay_after thread_seq first 1 (run event_thread_id thread_seq (early ++ late) new_journal)
    ≡ thread_participant_removed first 2 (codes "p3") ∷ []
unfolding run replay_after event_thread_id new_journal list_eqb thread_seq
late_replay = refl
