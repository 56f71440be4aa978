-- ===== src/Threads/Apart.antt =====
-- thread_store.rs: ids and handles in all threads, over sequences of calls on a store. A handle
-- here is the effective one; app.rs mentions an agent by its `agent_id` too, which participants may
-- share.
use agentchat.Prelude.{
  ℕ, ◌≡◌, refl, sym, ap, subst, inl, inr, false, List, [], ◌∷◌, Option, none, some, contains, ◌==◌,
  nat_eq, list_eq, Option-cases, lookup, insert, lookup-insert, lookup-erase, Result, unwrap_or,
  if_cases, ◌>>=◌,
}
use agentchat.Text.{Text}
use agentchat.Protocol.Wire.{
  Unicode, canonical_mention_handle, AgentSessionSettings, ThreadParticipantConfig,
}
use agentchat.Threads.Records.{
  ThreadParticipantRecord, ThreadRecord, ThreadStore, is_taken, is_agent, effective_mention_handle,
}
use agentchat.Threads.Store.{
  new_thread_store, create_thread, add_agent_participant_with_mention_handle,
  set_participant_configuration, set_participant_settings, remove_participant, remove_thread,
  find_participant, drop_participant, put_participants, ok_or, agent_of, unbind,
}
use agentchat.Threads.Handles.{spare, base_of, unique_mention_handle-untaken}
use agentchat.Threads.Unique.{
  ids, IsUnique, snoc-IsUnique, drop-IsUnique, update-IsUnique, renamed-IsUnique,
  unique_mention_handle-nonempty,
}
use agentchat.Threads.Calls.{
  Call, created, added, configured, set, left, closed, after, participants_of, members, call, run,
  IsFresh, AllFresh,
}

-- What holds of the store before a call, and after the rest of it where a value is found.
after_cases {ℓ κ} :
    {A : Type ℓ} {B : Type κ} (P : ThreadStore → Type 0) (s : ThreadStore) (o : Option B)
    (message : Text) (next : B → Result Text (A × ThreadStore))
    → P s
    → ((b : B) → o ≡ some b → P (after s (next b)))
    → P (after s (ok_or message o >>= next))
after_cases P s none message next h f = h
after_cases P s (some b) message next h f = f b refl

remove_participant-none :
    (thread participant : Text) (s : ThreadStore)
    → lookup s.threads thread ≡ none
    → remove_participant thread participant s ≡ (none, s)
unfolding remove_participant
remove_participant-none thread participant s e = rw (remove_participant, e) refl

remove_participant-missing :
    (thread participant : Text) (s : ThreadStore) {t : ThreadRecord}
    → lookup s.threads thread ≡ some t
    → find_participant t.participants participant ≡ none
    → remove_participant thread participant s ≡ (none, s)
unfolding remove_participant
remove_participant-missing thread participant s e f = rw (remove_participant, e, f) refl

remove_participant-some :
    (thread participant : Text) (s : ThreadStore) {t : ThreadRecord} {p : ThreadParticipantRecord}
    → lookup s.threads thread ≡ some t
    → find_participant t.participants participant ≡ some p
    → remove_participant thread participant s ≡ (
      some p,
      record (put_participants thread t (drop_participant participant t.participants) s) {
        session_to_binding = unbind p.session_id s.session_to_binding;
      },
    )
unfolding remove_participant
remove_participant-some thread participant s e f = rw (remove_participant, e, f) refl

module _ (u : Unicode) where
  -- In every thread.
  abbrev pub AllUnique : ThreadStore → Type 0
  AllUnique s = (id : Text) → IsUnique u (members id s)

  none-IsUnique : IsUnique u []
  none-IsUnique = record { ids_once = tt; handles_once = tt }

  new_thread_store-AllUnique : AllUnique new_thread_store
  unfolding new_thread_store lookup
  new_thread_store-AllUnique id = none-IsUnique

  -- One thread written.
  insert-AllUnique :
      (k : Text) (t : ThreadRecord) (s : ThreadStore)
      → IsUnique u t.participants
      → AllUnique s
      → (id : Text) → IsUnique u (participants_of (lookup (insert s.threads k t) id))
  insert-AllUnique k t s new h id =
      subst (λ o. IsUnique u (participants_of o)) (sym (lookup-insert s.threads k id t))
        (if_cases (λ o. IsUnique u (participants_of o)) (k == id) (λ _. new) (λ _. h id))

  at_thread :
      (k : Text) (s : ThreadStore) {t : ThreadRecord}
      → lookup s.threads k ≡ some t
      → AllUnique s
      → IsUnique u t.participants
  at_thread k s e h = subst (λ o. IsUnique u (participants_of o)) e (h k)

  call-created :
      (title : Option Text) (working_dir fresh_id : Text) (now : ℕ) (s : ThreadStore)
      → AllUnique s
      → AllUnique (create_thread title working_dir fresh_id now s).1
  unfolding create_thread
  call-created title working_dir fresh_id now s h =
      insert-AllUnique fresh_id _ s
        record {
          ids_once = (unfold contains in refl, tt);
          handles_once = (unfold contains in refl, tt);
        }
        h

  call-added :
      (thread agent session : Text) (config : ThreadParticipantConfig) (preferred : Option Text)
      (fresh fresh_id : Text) (s : ThreadStore)
      → IsFresh u (added thread agent session config preferred fresh fresh_id) s
      → AllUnique s
      → AllUnique (
          after s (
            add_agent_participant_with_mention_handle u thread agent session config preferred fresh
              fresh_id s))
  unfolding add_agent_participant_with_mention_handle
  call-added thread agent session config preferred fresh fresh_id s new h =
      after_cases AllUnique s (lookup s.threads thread) _ _ h (λ t e.
        let fresh_here : List ThreadParticipantRecord → Type 0 = λ ps.
          (contains (ids ps) fresh_id ≡ false)
          × (is_taken u ps none
                (spare (base_of (unwrap_or (canonical_mention_handle u agent) preferred)) fresh)
              ≡ false) in
        let here : fresh_here t.participants = subst (λ o. fresh_here (participants_of o)) e new in
        insert-AllUnique thread _ s
          (snoc-IsUnique u t.participants _ (at_thread thread s e h) here.0
            (unique_mention_handle-nonempty u t.participants _ none fresh)
            (unique_mention_handle-untaken u t.participants none _ fresh here.1))
          h)

  call-configured :
      (thread participant : Text) (config : ThreadParticipantConfig) (fresh : Text)
      (s : ThreadStore)
      → IsFresh u (configured thread participant config fresh) s
      → AllUnique s
      → AllUnique (after s (set_participant_configuration u thread participant config fresh s))
  unfolding set_participant_configuration
  call-configured thread participant config fresh s new h =
      after_cases AllUnique s (lookup s.threads thread) _ _ h (λ t e.
        after_cases AllUnique s (agent_of u (find_participant t.participants participant)) _ _ h
          (λ p found.
            insert-AllUnique thread _ s
              (renamed-IsUnique u participant _ _ t.participants (λ q. refl) (λ q. refl)
                (unique_mention_handle-nonempty u t.participants _ (some participant) fresh)
                (unique_mention_handle-untaken u t.participants (some participant) _ fresh (
                  subst
                    (λ o.
                      is_taken u (participants_of o) (some participant)
                        (spare (base_of (canonical_mention_handle u config.display_name)) fresh)
                      ≡ false)
                    e new))
                (at_thread thread s e h))
              h))

  call-set :
      (thread participant : Text) (settings : AgentSessionSettings) (s : ThreadStore)
      → AllUnique s
      → AllUnique (after s (set_participant_settings thread participant settings s))
  unfolding set_participant_settings effective_mention_handle
  call-set thread participant settings s h =
      after_cases AllUnique s (lookup s.threads thread) _ _ h (λ t e.
        after_cases AllUnique s (find_participant t.participants participant) _ _ h (λ p found.
          if_cases {A = Result Text (ThreadParticipantRecord × ThreadStore)}
            (λ r. AllUnique (after s r)) (is_agent p.kind)
            (λ _.
              insert-AllUnique thread _ s
                (update-IsUnique u participant (λ q. record q { settings = settings })
                  t.participants (λ q. refl) (λ q. refl) (at_thread thread s e h))
                h)
            (λ _. h)))

  call-left :
      (thread participant : Text) (s : ThreadStore)
      → AllUnique s
      → AllUnique (remove_participant thread participant s).1
  unfolding remove_participant
  call-left thread participant s h = elim (Option-cases (lookup s.threads thread)) [
    | inl e ↦
        subst AllUnique (sym (ap (λ r. r.1) (remove_participant-none thread participant s e))) h
    | inr (t, e) ↦ elim (Option-cases (find_participant t.participants participant)) [
      | inl f ↦
          subst AllUnique
            (sym (ap (λ r. r.1) (remove_participant-missing thread participant s e f))) h
      | inr (p, f) ↦
          subst AllUnique (sym (ap (λ r. r.1) (remove_participant-some thread participant s e f))) (
            insert-AllUnique thread
              (record t { participants = drop_participant participant t.participants }) s
              (drop-IsUnique u participant t.participants (at_thread thread s e h)) h)
    ]
  ]

  call-closed :
      (thread : Text) (s : ThreadStore) → AllUnique s → AllUnique (remove_thread thread s).1
  unfolding remove_thread
  call-closed thread s h = elim (Option-cases (lookup s.threads thread)) [
    | inl e ↦ rw (remove_thread, e) h
    | inr (t, e) ↦
        rw (remove_thread, e)
          (λ id.
            subst (λ o. IsUnique u (participants_of o)) (sym (lookup-erase s.threads thread id))
              (if_cases (λ o. IsUnique u (participants_of o)) (thread == id) (λ _. none-IsUnique)
                (λ _. h id)))
  ]

  call-AllUnique :
      (c : Call) (s : ThreadStore) → IsFresh u c s → AllUnique s → AllUnique (call u c s)
  unfolding call
  call-AllUnique (created title dir fresh_id now) s new h = call-created title dir fresh_id now s h
  call-AllUnique (added thread agent session config preferred fresh fresh_id) s new h =
      call-added thread agent session config preferred fresh fresh_id s new h
  call-AllUnique (configured thread participant config fresh) s new h =
      call-configured thread participant config fresh s new h
  call-AllUnique (set thread participant settings) s new h =
      call-set thread participant settings s h
  call-AllUnique (left thread participant) s new h = call-left thread participant s h
  call-AllUnique (closed thread) s new h = call-closed thread s h

  run-AllUnique :
      (cs : List Call) (s : ThreadStore) → AllFresh u cs s → AllUnique s → AllUnique (run u cs s)
  unfolding run
  run-AllUnique [] s new h = h
  run-AllUnique (c ∷ cs) s new h = run-AllUnique cs (call u c s) new.1 (call-AllUnique c s new.0 h)

  -- After any calls on a new store, if the ids made from `Uuid::new_v4` are new where they are used, no
  -- two participants of a thread have one id, and no two have one `effective_mention_handle`.
  pub run-new_thread_store-IsUnique :
      (cs : List Call) (id : Text)
      → AllFresh u cs new_thread_store
      → IsUnique u (members id (run u cs new_thread_store))
  run-new_thread_store-IsUnique cs id new =
      run-AllUnique cs new_thread_store new new_thread_store-AllUnique id
