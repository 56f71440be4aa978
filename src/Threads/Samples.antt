-- ===== src/Threads/Samples.antt =====
-- Two agents of one name in a thread, and the theorem there. The tables stand for Unicode's on ASCII
-- letters alone.
use agentchat.Prelude.{
  ◌+◌, ◌≡◌, refl, ◌&&◌, ◌||◌, List, [], ◌∷◌, Option, none, some, if◌then◌else◌, leb, map,
}
use agentchat.Text.{Text, codes}
use agentchat.Protocol.Wire.{Unicode, ThreadParticipantConfig}
use agentchat.Threads.Records.{ThreadRecord, ThreadStore}
use agentchat.Threads.Store.{new_thread_store, default_settings}
use agentchat.Threads.Unique.{IsUnique}
use agentchat.Threads.Calls.{Call, created, added, configured, left, run, members}
use agentchat.Threads.Apart.{run-new_thread_store-IsUnique}

abbrev ascii : Unicode
ascii = record {
  to_lowercase = λ c. (if leb b'A' c && leb c b'Z' then c + 32 else c) ∷ [];
  is_alphanumeric = λ c. leb b'a' c && leb c b'z';
}

abbrev profile : ThreadParticipantConfig
profile = record {
  display_name = codes "Front End";
  avatar = codes "FE";
  settings = default_settings;
}

abbrev talk : Text
talk = codes "thread-1"

abbrev calls : List Call
calls =
    created none (codes "/w") talk 1
    ∷ added talk (codes "codex") (codes "s1") profile (some (codes "front-end")) (codes "u1")
        (codes "p1")
    ∷ added talk (codes "codex") (codes "s2") profile (some (codes "front-end")) (codes "u2")
        (codes "p2")
    ∷ configured talk (codes "p1") profile (codes "u3")
    ∷ left talk (codes "p2")
    ∷ []

run-new_thread_store-IsUnique_example :
    IsUnique ascii (members talk (run ascii calls new_thread_store))
unfolding agentchat.Prelude.contains agentchat.Prelude.lookup agentchat.Threads.Calls.call
    new_thread_store agentchat.Prelude.list_eqb agentchat.Threads.Records.is_taken
    agentchat.Threads.Records.unique_mention_handle agentchat.Text.is_whitespace
run-new_thread_store-IsUnique_example =
    run-new_thread_store-IsUnique ascii calls talk
      (tt, ((refl, refl), ((refl, refl), (refl, (tt, tt)))))

-- The second agent of the name has a number.
second_handle :
    map
      (λ p. p.mention_handle)
      (members talk (
        run ascii
          (created none (codes "/w") talk 1
            ∷ added talk
                (codes "codex")
                (codes "s1")
                profile
                (some (codes "front-end"))
                (codes "u1")
                (codes "p1")
            ∷ added talk
                (codes "codex")
                (codes "s2")
                profile
                (some (codes "front-end"))
                (codes "u2")
                (codes "p2")
            ∷ [])
          new_thread_store))
    ≡ [] ∷ codes "front-end" ∷ codes "front-end-2" ∷ []
unfolding agentchat.Prelude.lookup run new_thread_store agentchat.Prelude.list_eqb
    agentchat.Threads.Records.unique_mention_handle
second_handle = refl
