-- ===== src/Server/Targets.antt =====
-- app.rs and thread_store.rs: whom a message to a thread prompts.
use agentchat.Prelude.{
  ◌≡◌, refl, sym, ap, subst, ◌∙◌, true, List, [], ◌∷◌, ◌++◌, Option, none, some, if_cases, ◌==◌,
  ==_iff, nat_eq, list_eq, filter, contains, contains→mem, Memᴰ, mem-filter, All, mem-All, All-mem,
  is_empty, All-append, OkAll, OkAll-bind, ◌>>=◌, Result, ok, err, some_inj, value_of, Option-cases,
  inl, inr,
}
use agentchat.Text.{Text, codes}
use agentchat.Protocol.Wire.{Unicode, ResponseEvent}
use agentchat.Threads.{
  ThreadParticipantRecord, ThreadRecord, ThreadStore, get_thread, is_agent, find_participant,
  resolve_targets, targets_of, ok_or, target_agent_participants,
}
use agentchat.Server.Feed.{Feed}
use agentchat.Server.Routes.{ThreadMessageRoute, build_thread_message_routes}
use agentchat.Server.Send.{
  refuse, send_along, deliver, all_targets, checked, nonempty,
  validate_thread_message_explicit_targets, resolve_thread_message_mentions, some_targets,
  participants_found, thread_found, Prompt, prompts_to, route_participants, route_prompts,
  merge_thread_message_targets, select_participants, handle_send_thread_message,
}

-- Whether a client's own targets, if it gives any, have an id.
pub Allowed : Option (List Text) → Text → Type 0
Allowed none id = Unit {0}
Allowed (some ids) id = Memᴰ id ids

-- An agent among the participants whose id has a property.
abbrev Chosen : List ThreadParticipantRecord → (Text → Type 0) → ThreadParticipantRecord → Type 0
Chosen ps Q p = Memᴰ p ps × (is_agent p.kind ≡ true) × Q p.participant_id

abbrev Found : List ThreadParticipantRecord → Text → Option ThreadParticipantRecord → Type 0
Found ps id none = Unit {0}
Found ps id (some p) = Memᴰ p ps × (p.participant_id ≡ id)

Found-skip :
    (q : ThreadParticipantRecord) (ps : List ThreadParticipantRecord) (id : Text)
    (o : Option ThreadParticipantRecord)
    → Found ps id o
    → Found (q ∷ ps) id o
Found-skip q ps id none h = tt
Found-skip q ps id (some p) h = (Memᴰ.tail h.0, h.1)

find_participant-Found :
    (ps : List ThreadParticipantRecord) (id : Text) → Found ps id (find_participant ps id)
unfolding find_participant
find_participant-Found [] id = tt
find_participant-Found (q ∷ ps) id =
    if_cases (Found (q ∷ ps) id) (q.participant_id == id)
      (λ e. (Memᴰ.head refl, (==_iff q.participant_id id).0 e))
      (λ _. Found-skip q ps id _ (find_participant-Found ps id))

ok_or-found :
    {A : Type 0} (message : Text) (o : Option A) {a : A} → ok_or message o ≡ ok a → o ≡ some a
ok_or-found message none h = ap value_of h
ok_or-found message (some b) h = ap value_of h

resolve_targets-Chosen :
    (Q : Text → Type 0) (ps : List ThreadParticipantRecord) (ids : List Text)
    → All Q ids
    → OkAll (All (Chosen ps Q)) (resolve_targets ps ids)
unfolding resolve_targets
resolve_targets-Chosen Q ps [] h = tt
resolve_targets-Chosen Q ps (id ∷ ids) h =
    OkAll-bind (All (Chosen ps Q))
      (ok_or (codes "participant not found: " ++ id) (find_participant ps id)) _
      (λ p e.
        let found =
          subst (Found ps id) (ok_or-found _ (find_participant ps id) e)
            (find_participant-Found ps id) in
        OkAll-bind (All (Chosen ps Q)) (resolve_targets ps ids) _ (λ resolved e'.
          let others = subst (OkAll (All (Chosen ps Q))) e' (resolve_targets-Chosen Q ps ids h.1) in
          if_cases (λ xs. All (Chosen ps Q) xs) (is_agent p.kind)
            (λ agent. ((found.0, agent, subst Q (sym found.1) h.0), others)) (λ _. others)))

-- The targets of a message are ids that the client allows.
targets_of-Chosen :
    (ps : List ThreadParticipantRecord) (explicit mentions : Option (List Text))
    → OkAll
        (All (Chosen ps (Allowed explicit)))
        (targets_of ps (merge_thread_message_targets explicit mentions))
unfolding merge_thread_message_targets Allowed
targets_of-Chosen ps none none =
    mem-All (Chosen ps (Allowed none)) (filter (λ p. is_agent p.kind) ps)
      (λ p m. let kept = mem-filter (λ p. is_agent p.kind) ps m in (kept.0, kept.1, tt))
targets_of-Chosen ps none (some ids) =
    resolve_targets-Chosen (Allowed none) ps ids (mem-All (Allowed none) ids (λ id m. tt))
targets_of-Chosen ps (some explicit) none =
    resolve_targets-Chosen (Allowed (some explicit)) ps explicit
      (mem-All (Allowed (some explicit)) explicit (λ id m. m))
targets_of-Chosen ps (some explicit) (some ids) =
    resolve_targets-Chosen (Allowed (some explicit)) ps (filter (λ id. contains explicit id) ids) (
      mem-All (Allowed (some explicit)) (filter (λ id. contains explicit id) ids)
        (λ id m. contains→mem explicit id (mem-filter (λ id. contains explicit id) ids m).1))

target_agent_participants-found :
    (s : ThreadStore) (id : Text) (targets : Option (List Text)) {t : ThreadRecord}
    → get_thread id s ≡ some t
    → target_agent_participants id targets s ≡ targets_of t.participants targets
unfolding get_thread target_agent_participants
target_agent_participants-found s id targets h = rw (target_agent_participants, h) refl

participants_found-OkAll :
    (P : List ThreadParticipantRecord → Type 0) (r : Result Text (List ThreadParticipantRecord))
    → OkAll P r
    → OkAll P (participants_found r)
participants_found-OkAll P (ok ps) h = h
participants_found-OkAll P (err e) h =
    if_cases (OkAll P) (e == codes "thread not found") (λ _. tt) (λ _. tt)

thread_found-some :
    (o : Option ThreadRecord) {t : ThreadRecord} → thread_found o ≡ ok t → o ≡ some t
thread_found-some none h = ap value_of h
thread_found-some (some t) h = ap value_of h

-- The thread, and agents of it that the client allows.
abbrev Selected :
    ThreadStore → Text → Option (List Text) → ThreadRecord × List ThreadParticipantRecord → Type 0
Selected s id explicit (t, ps) =
    (get_thread id s ≡ some t) × All (Chosen t.participants (Allowed explicit)) ps

found-Selected :
    (s : ThreadStore) (id : Text) (explicit mentions : Option (List Text))
    (ps : List ThreadParticipantRecord)
    → participants_found
        (target_agent_participants id (merge_thread_message_targets explicit mentions) s)
      ≡ ok ps
    → OkAll (Selected s id explicit) (thread_found (get_thread id s) >>= λ t. ok (t, ps))
found-Selected s id explicit mentions ps e =
    OkAll-bind (Selected s id explicit) (thread_found (get_thread id s)) (λ t. ok (t, ps))
      (λ t e'.
        let targets = merge_thread_message_targets explicit mentions in
        let found = thread_found-some (get_thread id s) e' in
        let P = All (Chosen t.participants (Allowed explicit)) in
        let chosen =
          subst (λ r. OkAll P (participants_found r))
            (sym (target_agent_participants-found s id targets found))
            (participants_found-OkAll P (targets_of t.participants targets)
              (targets_of-Chosen t.participants explicit mentions)) in
        (found, subst (OkAll P) e chosen))

select_participants-Selected :
    (u : Unicode) (lower : Text → Text) (s : ThreadStore) (id content : Text)
    (explicit : Option (List Text))
    → OkAll (Selected s id explicit) (select_participants u lower s id content explicit)
unfolding select_participants
select_participants-Selected u lower s id content explicit =
    let P = Selected s id explicit in
    OkAll-bind P (checked (validate_thread_message_explicit_targets s id explicit)) _ (λ _ _.
      OkAll-bind P (resolve_thread_message_mentions u lower s id content) _ (λ mentions _.
        let targets = merge_thread_message_targets explicit (some_targets mentions) in
        OkAll-bind P (nonempty targets) _ (λ _ _.
          OkAll-bind P (participants_found (target_agent_participants id targets s)) _
            (λ ps e. found-Selected s id explicit (some_targets mentions) ps e))))

-- A prompt of an agent of the thread that the client allows, in its own session.
pub IsAllowed : ThreadRecord → Option (List Text) → Prompt → Type 0
IsAllowed t explicit q =
    Chosen t.participants (Allowed explicit) q.participant
    × (q.participant.session_id ≡ some q.session_id)

route_participants-All :
    (P : ThreadParticipantRecord → Type 0) (ps : List ThreadParticipantRecord) (ids : List Text)
    → All P ps
    → All P (route_participants ps ids)
unfolding route_participants
route_participants-All P ps [] h = tt
route_participants-All P ps (id ∷ ids) h =
    let rest = route_participants-All P ps ids h in
    (elim (find_participant ps id)
        as (λ o.
          Found ps id o
          → All P (elim o [
            | none ↦ route_participants ps ids
            | some p ↦ p ∷ route_participants ps ids
          ])) [ none ↦ λ _. rest | some p ↦ λ found. (All-mem P ps h found.0, rest) ])
      (find_participant-Found ps id)

prompts_to-IsAllowed :
    (t : ThreadRecord) (explicit : Option (List Text)) (content : Text)
    (together ps : List ThreadParticipantRecord)
    → All (Chosen t.participants (Allowed explicit)) ps
    → All (IsAllowed t explicit) (prompts_to content together ps)
unfolding prompts_to IsAllowed
prompts_to-IsAllowed t explicit content together [] h = tt
prompts_to-IsAllowed t explicit content together (p ∷ ps) h =
    let rest = prompts_to-IsAllowed t explicit content together ps h.1 in
    elim (Option-cases p.session_id) [
      | inl e ↦ rw (e) rest
      | inr (session, e) ↦ rw (e) ((h.0, e), rest)
    ]

route_prompts-IsAllowed :
    (t : ThreadRecord) (explicit : Option (List Text)) (ps : List ThreadParticipantRecord)
    (rs : List ThreadMessageRoute)
    → All (Chosen t.participants (Allowed explicit)) ps
    → All (IsAllowed t explicit) (route_prompts ps rs)
unfolding route_prompts
route_prompts-IsAllowed t explicit ps [] h = tt
route_prompts-IsAllowed t explicit ps (r ∷ rs) h =
    let to = route_participants ps r.participant_ids in
    All-append (IsAllowed t explicit) (prompts_to r.content to to) (route_prompts ps rs)
      (prompts_to-IsAllowed t explicit r.content to to
        (route_participants-All (Chosen t.participants (Allowed explicit)) ps r.participant_ids h))
      (route_prompts-IsAllowed t explicit ps rs h)

IsAllowed-send :
    (t : ThreadRecord) (explicit : Option (List Text)) (fresh id content : Text)
    (ps : List ThreadParticipantRecord) (rs : List ThreadMessageRoute) (f : Feed)
    → All (Chosen t.participants (Allowed explicit)) ps
    → All (IsAllowed t explicit) (send_along fresh id content ps rs f).1
unfolding send_along refuse
IsAllowed-send t explicit fresh id content ps rs f h =
    if_cases {A = Feed × List Prompt} (λ sent. All (IsAllowed t explicit) sent.1)
      (is_empty (all_targets [] rs)) (λ _. tt) (λ _. route_prompts-IsAllowed t explicit ps rs h)

deliver-IsAllowed :
    (u : Unicode) (lower : Text → Text) (fresh id content : Text) (explicit : Option (List Text))
    (f : Feed) (t : ThreadRecord)
    (r : Result ResponseEvent (ThreadRecord × List ThreadParticipantRecord))
    → get_thread id f.threads ≡ some t
    → OkAll (Selected f.threads id explicit) r
    → All (IsAllowed t explicit) (deliver u lower fresh id content f r).1
unfolding deliver refuse
deliver-IsAllowed u lower fresh id content explicit f t (err event) here selected = tt
deliver-IsAllowed u lower fresh id content explicit f t (ok (t', ps)) here selected =
    if_cases {A = Feed × List Prompt} (λ sent. All (IsAllowed t explicit) sent.1) (is_empty ps)
      (λ _. tt)
      (λ _.
        IsAllowed-send t explicit fresh id content ps
          (build_thread_message_routes u lower t' ps content) f
          (subst (λ r. All (Chosen r.participants (Allowed explicit)) ps)
            (some_inj (sym selected.0 ∙ here)) selected.1))

-- A message to a thread of the store prompts only agents of this thread, each in its own session,
-- and, where the client gives targets, only agents among them, whatever the message mentions.
pub handle_send_thread_message-IsAllowed :
    (u : Unicode) (lower : Text → Text) (fresh id content : Text) (explicit : Option (List Text))
    (f : Feed) (t : ThreadRecord)
    → get_thread id f.threads ≡ some t
    → All (IsAllowed t explicit) (handle_send_thread_message u lower fresh id content explicit f).1
unfolding handle_send_thread_message
handle_send_thread_message-IsAllowed u lower fresh id content explicit f t here =
    deliver-IsAllowed u lower fresh id content explicit f t _ here
      (select_participants-Selected u lower f.threads id content explicit)
