-- ===== src/Threads/Unique.antt =====
-- thread_store.rs: ids and handles in a thread, when its participants change.
use agentchat.Prelude.{
  ℕ, zero, suc, ◌≡◌, refl, sym, ap, subst, ◌∙◌, Bool, true, false, ◌||◌, not, List, [], ◌∷◌, ◌++◌,
  Option, none, some, if_cases, is_empty, contains, Distinct, map, ◌==◌, ==_iff, nat_eq, list_eq,
  arith, contains-append,
}
use agentchat.Text.{Text, codes, show_number}
use agentchat.Protocol.Wire.{Unicode}
use agentchat.Threads.Records.{
  ThreadParticipantRecord, effective_mention_handle, is_taken, first_free, unique_mention_handle,
}
use agentchat.Threads.Store.{update_participant, drop_participant}

abbrev pub ids : List ThreadParticipantRecord → List Text
ids ps = map (λ p. p.participant_id) ps

module _ (g : ThreadParticipantRecord → Text) where
  contains-drop :
      (id k : Text) (ps : List ThreadParticipantRecord)
      → contains (map g (drop_participant id ps)) k ≡ true
      → contains (map g ps) k ≡ true
  unfolding drop_participant contains
  contains-drop id k [] h = h
  contains-drop id k (p ∷ ps) h = ground (arith, contains-drop id k ps)

  pub drop_participant-Distinct :
      (id : Text) (ps : List ThreadParticipantRecord)
      → Distinct (map g ps)
      → Distinct (map g (drop_participant id ps))
  unfolding drop_participant
  drop_participant-Distinct id [] h = tt
  drop_participant-Distinct id (p ∷ ps) h =
      let rest = drop_participant-Distinct id ps h.1 in
      if_cases (λ l. Distinct (map g l)) (p.participant_id == id) (λ _. h.1)
        (λ _. (kept (contains (map g (drop_participant id ps)) (g p)) refl, rest))
    where
      kept :
          (b : Bool)
          → contains (map g (drop_participant id ps)) (g p) ≡ b
          → contains (map g (drop_participant id ps)) (g p) ≡ false
      kept true e = ground (arith, contains-drop id (g p) ps e, h.0)
      kept false e = e

  pub map-update :
      (id : Text) (f : ThreadParticipantRecord → ThreadParticipantRecord)
      (ps : List ThreadParticipantRecord)
      → ((p : ThreadParticipantRecord) → g (f p) ≡ g p)
      → map g (update_participant id f ps) ≡ map g ps
  unfolding update_participant
  map-update id f [] h = refl
  map-update id f (p ∷ ps) h =
      let rest = map-update id f ps h in
      if_cases (λ l. map g l ≡ g p ∷ map g ps) (p.participant_id == id)
        (λ _. ap (λ k. k ∷ map g ps) (h p)) (λ _. ap (λ l. g p ∷ l) rest)

  contains-update :
      (id k h : Text) (f : ThreadParticipantRecord → ThreadParticipantRecord)
      (ps : List ThreadParticipantRecord)
      → ((p : ThreadParticipantRecord) → g (f p) ≡ h)
      → contains (map g (update_participant id f ps)) k ≡ true
      → (contains (map g ps) k || h == k) ≡ true
  unfolding update_participant contains
  contains-update id k h f [] e m = cc
  contains-update id k h f (p ∷ ps) e m = ground (arith, e p, contains-update id k h f ps e)

  -- A list one longer, with a new name.
  pub Distinct-snoc :
      (ps : List ThreadParticipantRecord) (p : ThreadParticipantRecord)
      → Distinct (map g ps)
      → contains (map g ps) (g p) ≡ false
      → Distinct (map g (ps ++ p ∷ []))
  unfolding contains
  Distinct-snoc [] p h e = (refl, tt)
  Distinct-snoc (q ∷ qs) p h e = (apart, Distinct-snoc qs p h.1 (ground arith))
    where
      split : (xs : List ThreadParticipantRecord) → map g (xs ++ p ∷ []) ≡ map g xs ++ g p ∷ []
      split [] = refl
      split (x ∷ xs) = ap (λ l. g x ∷ l) (split xs)

      apart : contains (map g (qs ++ p ∷ [])) (g q) ≡ false
      apart =
          ap (λ l. contains l (g q)) (split qs)
          ∙ ground (
            arith,
            contains-append (map g qs) (g p ∷ []) (g q),
            ==_iff (g q) (g p),
            ==_iff (g p) (g q),
            h.0,
          )

module _ (u : Unicode) where
  -- Each participant of a thread has its own id and its own effective handle.
  pub record IsUnique (ps : List ThreadParticipantRecord) : Type 0 where
    pub ids_once : Distinct (ids ps)
    pub handles_once : Distinct (map (effective_mention_handle u) ps)

  is_taken-none :
      (ps : List ThreadParticipantRecord) (handle : Text)
      → is_taken u ps none handle ≡ contains (map (effective_mention_handle u) ps) handle
  unfolding is_taken contains
  is_taken-none [] handle = refl
  is_taken-none (p ∷ ps) handle =
      ap (λ b. effective_mention_handle u p == handle || b) (is_taken-none ps handle)

  is_taken-some :
      (ps : List ThreadParticipantRecord) (id handle : Text)
      → contains (ids ps) id ≡ false
      → is_taken u ps (some id) handle ≡ contains (map (effective_mention_handle u) ps) handle
  unfolding is_taken contains
  is_taken-some [] id handle h = refl
  is_taken-some (p ∷ ps) id handle h = ground (arith, is_taken-some ps id handle)

  first_free-nonempty :
      (ps : List ThreadParticipantRecord) (excluded : Option Text) (c : ℕ) (base fresh : Text)
      (left index : ℕ)
      → is_empty (first_free u ps excluded (c ∷ base) fresh left index) ≡ false
  unfolding first_free
  first_free-nonempty ps excluded c base fresh zero index = refl
  first_free-nonempty ps excluded c base fresh (suc left) index =
      let rest = first_free-nonempty ps excluded c base fresh left (suc index) in
      if_cases {A = Text} (λ handle. is_empty handle ≡ false)
        (not (is_taken u ps excluded ((c ∷ base) ++ (codes "-" ++ show_number index)))) (λ _. refl)
        (λ _. rest)

  pub unique_mention_handle-nonempty :
      (ps : List ThreadParticipantRecord) (preferred : Text) (excluded : Option Text) (fresh : Text)
      → is_empty (unique_mention_handle u ps preferred excluded fresh) ≡ false
  unfolding unique_mention_handle
  unique_mention_handle-nonempty ps [] excluded fresh =
      if_cases {A = Text} (λ handle. is_empty handle ≡ false)
        (not (is_taken u ps excluded (codes "agent"))) (λ _. refl)
        (λ _. first_free-nonempty ps excluded b'a' (codes "gent") fresh 998 2)
  unique_mention_handle-nonempty ps (c ∷ cs) excluded fresh =
      if_cases {A = Text} (λ handle. is_empty handle ≡ false)
        (not (is_taken u ps excluded (c ∷ cs))) (λ _. refl)
        (λ _. first_free-nonempty ps excluded c cs fresh 998 2)

  effective-handle :
      (p : ThreadParticipantRecord)
      → is_empty p.mention_handle ≡ false
      → effective_mention_handle u p ≡ p.mention_handle
  unfolding effective_mention_handle
  effective-handle p h = rw h refl

  -- A participant more, with a fresh id and a handle that nobody has.
  pub snoc-IsUnique :
      (ps : List ThreadParticipantRecord) (p : ThreadParticipantRecord)
      → IsUnique ps
      → contains (ids ps) p.participant_id ≡ false
      → is_empty p.mention_handle ≡ false
      → is_taken u ps none p.mention_handle ≡ false
      → IsUnique (ps ++ p ∷ [])
  snoc-IsUnique ps p h new named free = record {
    ids_once = Distinct-snoc (λ q. q.participant_id) ps p h.ids_once new;
    handles_once = Distinct-snoc (effective_mention_handle u) ps p h.handles_once (
        ap (contains (map (effective_mention_handle u) ps)) (effective-handle p named)
        ∙ sym (is_taken-none ps p.mention_handle)
        ∙ free);
  }

  pub drop-IsUnique :
      (id : Text) (ps : List ThreadParticipantRecord)
      → IsUnique ps
      → IsUnique (drop_participant id ps)
  drop-IsUnique id ps h = record {
    ids_once = drop_participant-Distinct (λ q. q.participant_id) id ps h.ids_once;
    handles_once = drop_participant-Distinct (effective_mention_handle u) id ps h.handles_once;
  }

  renamed-Distinct :
      (id handle : Text) (f : ThreadParticipantRecord → ThreadParticipantRecord)
      (ps : List ThreadParticipantRecord)
      → ((p : ThreadParticipantRecord) → effective_mention_handle u (f p) ≡ handle)
      → is_taken u ps (some id) handle ≡ false
      → Distinct (ids ps)
      → Distinct (map (effective_mention_handle u) ps)
      → Distinct (map (effective_mention_handle u) (update_participant id f ps))
  unfolding update_participant is_taken
  renamed-Distinct id handle f [] e free once h = tt
  renamed-Distinct id handle f (p ∷ ps) e free once h =
      let rest = renamed-Distinct id handle f ps e (ground arith) once.1 h.1 in
      if_cases (λ l. Distinct (map (effective_mention_handle u) l)) (p.participant_id == id)
        (λ here. (first here, h.1))
        (λ there. (
          apart there
              (contains (map (effective_mention_handle u) (update_participant id f ps))
                (effective_mention_handle u p))
              refl,
          rest,
        ))
    where
      first :
          (p.participant_id == id) ≡ true
          → contains (map (effective_mention_handle u) ps) (effective_mention_handle u (f p))
            ≡ false
      first here =
          ap (contains (map (effective_mention_handle u) ps)) (e p)
          ∙ sym (
              is_taken-some ps id handle (
                subst (λ i. contains (ids ps) i ≡ false) ((==_iff p.participant_id id).0 here)
                  once.0))
          ∙ ground arith

      apart :
          (p.participant_id == id) ≡ false
          → (b : Bool)
          → contains
              (map (effective_mention_handle u) (update_participant id f ps))
              (effective_mention_handle u p)
            ≡ b
          → contains
              (map (effective_mention_handle u) (update_participant id f ps))
              (effective_mention_handle u p)
            ≡ false
      apart there true c = ground (
        arith,
        contains-update (effective_mention_handle u) id (effective_mention_handle u p) handle f ps e
            c,
        h.0,
        ==_iff handle (effective_mention_handle u p),
        ==_iff (effective_mention_handle u p) handle,
      )
      apart there false c = c

  -- One participant changed, its id and handle kept.
  pub update-IsUnique :
      (id : Text) (f : ThreadParticipantRecord → ThreadParticipantRecord)
      (ps : List ThreadParticipantRecord)
      → ((p : ThreadParticipantRecord) → (f p).participant_id ≡ p.participant_id)
      → ((p : ThreadParticipantRecord)
          → effective_mention_handle u (f p) ≡ effective_mention_handle u p)
      → IsUnique ps
      → IsUnique (update_participant id f ps)
  update-IsUnique id f ps same handle h = record {
    ids_once = subst Distinct (sym (map-update (λ q. q.participant_id) id f ps same)) h.ids_once;
    handles_once =
        subst Distinct (sym (map-update (effective_mention_handle u) id f ps handle))
          h.handles_once;
  }

  -- One participant changed, its id kept and its handle one that nobody else has.
  pub renamed-IsUnique :
      (id handle : Text) (f : ThreadParticipantRecord → ThreadParticipantRecord)
      (ps : List ThreadParticipantRecord)
      → ((p : ThreadParticipantRecord) → (f p).participant_id ≡ p.participant_id)
      → ((p : ThreadParticipantRecord) → (f p).mention_handle ≡ handle)
      → is_empty handle ≡ false
      → is_taken u ps (some id) handle ≡ false
      → IsUnique ps
      → IsUnique (update_participant id f ps)
  renamed-IsUnique id handle f ps same names named free h = record {
    ids_once = subst Distinct (sym (map-update (λ q. q.participant_id) id f ps same)) h.ids_once;
    handles_once =
        renamed-Distinct id handle f ps
          (λ p. effective-handle (f p) (ap is_empty (names p) ∙ named) ∙ names p) free h.ids_once
          h.handles_once;
  }
