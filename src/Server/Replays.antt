-- ===== src/Server/Replays.antt =====
-- app.rs: what a client that attaches is sent, over the journal that the daemon's emissions have made.
use agentchat.Prelude.{
  ℕ, suc, ◌<◌, ◌≡◌, ap, ◌∙◌, List, [], ◌∷◌, ◌++◌, some, if◌then◌else◌, ltb, length, drop, u64_max,
}
use agentchat.Text.{Text}
use agentchat.Protocol.Wire.{
  ResponseEvent, event_thread_id, thread_seq, thread_attached, thread_snapshot,
  thread_replay_complete, Unicode,
}
use agentchat.Logs.{
  ThreadEventLog, new_journal, thread_tail_seq, thread_replay_after, tail_seq, replay_after,
}
use agentchat.Logs.Sequence.{Call, run, number}
use agentchat.Logs.Refinement.{emitted_by, replay_after-run}
use agentchat.Logs.Resume.{tail_seq-run}
use agentchat.Threads.{ThreadRecord, ThreadStore, get_thread, thread_to_snapshot}
use agentchat.Server.Attach.{
  Liveness, build_thread_snapshot, attach_found, handle_attach_thread, ahead_of_tail,
}

-- The journal that some calls have made of an empty one.
abbrev pub journal : List (Call event_thread_id thread_seq) → ThreadEventLog
journal cs = run event_thread_id thread_seq cs new_journal

-- After fewer than 2 ^ 64 - 1 calls on the journal of threads, a client that attaches to a thread that
-- is stored under its id, having seen its first `k` events, is sent the snapshot, then the events after
-- these in order with their numbers, then the number of the last one; if it claims to have seen more
-- events than there are, it is sent an error alone.
pub handle_attach_thread-replays :
    (u : Unicode) (live : Liveness) (s : ThreadStore) (cs : List (Call event_thread_id thread_seq))
    (id : Text) (k : ℕ) (t : ThreadRecord)
    → length cs < u64_max
    → get_thread id s ≡ some t
    → t.thread_id ≡ id
    → let entries = emitted_by event_thread_id thread_seq cs id in
      handle_attach_thread u live s (journal cs) id (some k) ≡ (
        if ltb (length entries) k
        then ahead_of_tail k (length entries) ∷ []
        else thread_attached id
          ∷ thread_snapshot (build_thread_snapshot u live (journal cs) t)
          ∷ (number event_thread_id thread_seq (suc k) (drop k entries)
              ++ thread_replay_complete id (length entries) ∷ []))
unfolding handle_attach_thread attach_found build_thread_snapshot thread_to_snapshot thread_tail_seq
    thread_replay_after
handle_attach_thread-replays u live s cs id k t fits found named =
    rw (handle_attach_thread, found)
      (ap (λ tail. attached tail (replay_after thread_seq id k (journal cs))) is_tail
        ∙ ap (attached (length (emitted_by event_thread_id thread_seq cs id)))
            (replay_after-run event_thread_id thread_seq cs id k fits))
  where
    is_tail :
        tail_seq thread_seq t.thread_id (journal cs)
        ≡ length (emitted_by event_thread_id thread_seq cs id)
    is_tail =
        ap (λ i. tail_seq thread_seq i (journal cs)) named
        ∙ tail_seq-run event_thread_id thread_seq cs id fits

    attached : ℕ → List ResponseEvent → List ResponseEvent
    attached tail events =
        if ltb tail k
        then ahead_of_tail k tail ∷ []
        else thread_attached id
          ∷ thread_snapshot (build_thread_snapshot u live (journal cs) t)
          ∷ (events ++ thread_replay_complete id tail ∷ [])
