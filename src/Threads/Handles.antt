-- ===== src/Threads/Handles.antt =====
-- thread_store.rs: the handles of the participants of one thread.
use agentchat.Prelude.{
  ℕ, zero, suc, ◌≡◌, false, not, List, ◌++◌, Option, if◌then◌else◌, if_cases, is_empty, nat_eq,
  list_eq, arith,
}
use agentchat.Text.{Text, codes, show_number}
use agentchat.Protocol.Wire.{Unicode}
use agentchat.Threads.Records.{ThreadParticipantRecord, is_taken, first_free, unique_mention_handle}

-- The last resort, whose end no participant has.
abbrev pub spare : Text → Text → Text
spare base fresh = base ++ (codes "-" ++ fresh)

abbrev pub base_of : Text → Text
base_of preferred = if is_empty preferred then codes "agent" else preferred

module _ (u : Unicode) (ps : List ThreadParticipantRecord) (excluded : Option Text) where
  first_free-untaken :
      (base fresh : Text) (left index : ℕ)
      → is_taken u ps excluded (spare base fresh) ≡ false
      → is_taken u ps excluded (first_free u ps excluded base fresh left index) ≡ false
  unfolding first_free
  first_free-untaken base fresh zero index h = h
  first_free-untaken base fresh (suc left) index h =
      let rest = first_free-untaken base fresh left (suc index) h in
      if_cases (λ handle. is_taken u ps excluded handle ≡ false)
        (not (is_taken u ps excluded (base ++ (codes "-" ++ show_number index))))
        (λ free. ground arith) (λ _. rest)

  -- The handle chosen is taken by no other participant, if the last resort is not.
  pub unique_mention_handle-untaken :
      (preferred fresh : Text)
      → is_taken u ps excluded (spare (base_of preferred) fresh) ≡ false
      → is_taken u ps excluded (unique_mention_handle u ps preferred excluded fresh) ≡ false
  unfolding unique_mention_handle
  unique_mention_handle-untaken preferred fresh h =
      if_cases (λ handle. is_taken u ps excluded handle ≡ false)
        (not (is_taken u ps excluded (base_of preferred))) (λ free. ground arith)
        (λ _. first_free-untaken (base_of preferred) fresh 998 2 h)
