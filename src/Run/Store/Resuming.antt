-- ===== src/Run/Store/Resuming.antt =====
-- store.rs: what a restart finds, on a directory of runs whose snapshots may not be readable.
use agentchat.Prelude.{
  ℕ, ◌≤◌, ◌≡◌, refl, sym, ap, ◌∙◌, ◌↔◌, ◌⊎◌, inl, inr, List, [], ◌∷◌, ◌++◌, Option, none, some, leb,
  map, Memᴰ, Result, ok, err, ◌>>=◌, list_eq, nat_eq, arith, All, if_cases, some_inj,
}
use agentchat.Prelude.{◌≢◌, if◌then◌else◌, value_of, subst, Bool, true, false}
use agentchat.Protocol.Run.{
  RunStatus, completed, cancelled, planning, awaiting_plan_approval, implementing,
  awaiting_code_approval, is_terminal,
}
use agentchat.Text.{Text}
use agentchat.Run.State.{RunState}
use agentchat.Run.Store.Snapshots.{Codec}
use agentchat.Run.Store.Scan.{
  Snapshot, no_file, unreadable, contents, resumable_of, entries, resumable, push, scan_entries,
  insert_by_age, sort_by_age, scan_resumable,
}

-- A run with work left: neither completed nor cancelled.
unfoldable pub IsUnfinished : RunState → Type 0
IsUnfinished r = (r.status ≢ completed) × (r.status ≢ cancelled)

-- A snapshot that parses, as the run `q`.
unfoldable pub Parses : Codec → Snapshot → RunState → Type 0
Parses codec s q = (json : Text) × (s ≡ contents json) × (codec.of_json json ≡ ok q)

-- An unfinished run of the directory: one of its snapshots parses as it.
abbrev pub HasWork : Codec → List Snapshot → RunState → Type 0
HasWork codec ss q = (s : Snapshot) × Memᴰ s ss × Parses codec s q × IsUnfinished q

abbrev HasNoWork : Result Text RunState → Type 0
HasNoWork (ok r) = (r.status ≡ completed) ⊎ (r.status ≡ cancelled)
HasNoWork (err e) = Unit

-- A snapshot that is missing, cannot be read, does not parse, or is of a finished run.
unfoldable pub IsSkipped : Codec → Snapshot → Type 0
IsSkipped codec no_file = Unit
IsSkipped codec (unreadable e) = Unit
IsSkipped codec (contents json) = HasNoWork (codec.of_json json)

resumable-IsSkipped : (codec : Codec) (s : Snapshot) → IsSkipped codec s → resumable codec s ≡ none
unfolding resumable IsSkipped
resumable-IsSkipped codec no_file h = refl
resumable-IsSkipped codec (unreadable e) h = refl
resumable-IsSkipped codec (contents json) h = no_work (codec.of_json json) h
  where
    no_work : (r : Result Text RunState) → HasNoWork r → resumable_of r ≡ none
    no_work (ok r) (inl e) = ap (λ t. if is_terminal t then none else some r) e
    no_work (ok r) (inr e) = ap (λ t. if is_terminal t then none else some r) e
    no_work (err e) h = refl

is_terminal_iff : (t : RunStatus) → (is_terminal t ≡ false) ↔ ((t ≢ completed) × (t ≢ cancelled))
is_terminal_iff t = (
  λ e. (λ c. ground (arith, e, ap is_terminal c), λ c. ground (arith, e, ap is_terminal c)),
  back t,
)
  where
    back : (t : RunStatus) → (t ≢ completed) × (t ≢ cancelled) → is_terminal t ≡ false
    back completed h = absurd (h.0 refl)
    back cancelled h = absurd (h.1 refl)
    back planning h = refl
    back awaiting_plan_approval h = refl
    back implementing h = refl
    back awaiting_code_approval h = refl

kept_iff :
    (b : Bool) (r q : RunState) → ((if b then none else some r) ≡ some q) ↔ ((b ≡ false) × (r ≡ q))
kept_iff true r q = (λ e. cc, λ h. cc)
kept_iff false r q = (λ e. (refl, some_inj e), λ h. ap some h.1)

resumable_of_iff :
    (o : Result Text RunState) (q : RunState)
    → (resumable_of o ≡ some q) ↔ ((o ≡ ok q) × IsUnfinished q)
unfolding IsUnfinished
resumable_of_iff (ok r) q =
    let kept = kept_iff (is_terminal r.status) r q in
    (
      λ e.
          let (left, same) = kept.0 e in
          (
            ap ok same,
            (is_terminal_iff q.status).0 (subst (λ t. is_terminal t.status ≡ false) same left),
          ),
      λ h.
          let same = some_inj (ap value_of h.0) in
          kept.1 (
            subst (λ t. is_terminal t.status ≡ false) (sym same) ((is_terminal_iff q.status).1 h.1),
            same,
          ),
    )
resumable_of_iff (err e) q = (λ h. cc, λ h. ground (arith, ap value_of h.0))

pub resumable_iff :
    (codec : Codec) (s : Snapshot) (q : RunState)
    → (resumable codec s ≡ some q) ↔ (Parses codec s q × IsUnfinished q)
unfolding resumable Parses
resumable_iff codec s q = (
  parsed s,
  λ ((json, here, parses), left).
      ap (resumable codec) here ∙ (resumable_of_iff (codec.of_json json) q).1 (parses, left),
)
  where
    parsed : (s : Snapshot) → resumable codec s ≡ some q → Parses codec s q × IsUnfinished q
    parsed no_file e = cc
    parsed (unreadable m) e = cc
    parsed (contents json) e =
        let (parses, left) = (resumable_of_iff (codec.of_json json) q).0 e in
        ((json, refl, parses), left)

-- The runs of snapshots that are to be resumed, in the order of the directory.
abbrev pub found : Codec → List Snapshot → List RunState
found codec [] = []
found codec (s ∷ ss) = push (resumable codec s) (found codec ss)

pub scan_entries-ok :
    (codec : Codec) (ss : List Snapshot) → scan_entries codec (map ok ss) ≡ ok (found codec ss)
unfolding scan_entries
scan_entries-ok codec [] = refl
scan_entries-ok codec (s ∷ ss) = rw (scan_entries-ok codec ss) refl

scan_entries-skip :
    (codec : Codec) (bad : Snapshot) (before after : List (Result Text Snapshot))
    → resumable codec bad ≡ none
    → scan_entries codec (before ++ ok bad ∷ after) ≡ scan_entries codec (before ++ after)
unfolding scan_entries
scan_entries-skip codec bad [] after h = skipped (scan_entries codec after)
  where
    skipped :
        (rest : Result Text (List RunState))
        → (rest >>= λ runs. ok (push (resumable codec bad) runs)) ≡ rest
    skipped (ok runs) = ap (λ o. ok (push o runs)) h
    skipped (err e) = refl
scan_entries-skip codec bad (err e ∷ before) after h = refl
scan_entries-skip codec bad (ok s ∷ before) after h =
    ap (λ rest. rest >>= λ runs. ok (push (resumable codec s) runs))
      (scan_entries-skip codec bad before after h)

-- An entry whose snapshot is missing, cannot be read, does not parse, or is of a completed or a
-- cancelled run changes nothing of what a scan returns, wherever it stands.
pub scan_resumable-skip :
    (codec : Codec) (dir : Text) (bad : Snapshot) (before after : List (Result Text Snapshot))
    → IsSkipped codec bad
    → scan_resumable codec dir (entries (before ++ ok bad ∷ after))
      ≡ scan_resumable codec dir (entries (before ++ after))
unfolding scan_resumable
scan_resumable-skip codec dir bad before after h =
    ap (λ rest. rest >>= λ runs. ok (sort_by_age runs))
      (scan_entries-skip codec bad before after (resumable-IsSkipped codec bad h))

-- Ages in order.
abbrev pub IsSorted : List RunState → Type 0
IsSorted [] = Unit
IsSorted (r ∷ rs) = All (λ q. r.created_at_ms ≤ q.created_at_ms) rs × IsSorted rs

-- Two heads in either order.
mem_there :
    {q r s : RunState} {rest ss : List RunState}
    → (Memᴰ q rest → Memᴰ q (r ∷ ss))
    → Memᴰ q (s ∷ rest)
    → Memᴰ q (r ∷ s ∷ ss)
mem_there f (Memᴰ.head e) = Memᴰ.tail (Memᴰ.head e)
mem_there f (Memᴰ.tail m) = elim (f m) [
  | Memᴰ.head e ↦ Memᴰ.head e
  | Memᴰ.tail n ↦ Memᴰ.tail (Memᴰ.tail n)
]

mem_back :
    {q r s : RunState} {rest ss : List RunState}
    → (Memᴰ q (r ∷ ss) → Memᴰ q rest)
    → Memᴰ q (r ∷ s ∷ ss)
    → Memᴰ q (s ∷ rest)
mem_back f (Memᴰ.head e) = Memᴰ.tail (f (Memᴰ.head e))
mem_back f (Memᴰ.tail (Memᴰ.head e)) = Memᴰ.head e
mem_back f (Memᴰ.tail (Memᴰ.tail m)) = Memᴰ.tail (f (Memᴰ.tail m))

mem-insert_by_age :
    (r q : RunState) (rs : List RunState) → Memᴰ q (insert_by_age r rs) ↔ Memᴰ q (r ∷ rs)
unfolding insert_by_age
mem-insert_by_age r q [] = (λ m. m, λ m. m)
mem-insert_by_age r q (s ∷ ss) =
    let rest = mem-insert_by_age r q ss in
    if_cases (λ l. Memᴰ q l ↔ Memᴰ q (r ∷ s ∷ ss)) (leb r.created_at_ms s.created_at_ms)
      (λ _. (λ m. m, λ m. m)) (λ _. (mem_there rest.0, mem_back rest.1))

mem_tail :
    {q r : RunState} {xs ys : List RunState}
    → (Memᴰ q xs → Memᴰ q ys)
    → Memᴰ q (r ∷ xs)
    → Memᴰ q (r ∷ ys)
mem_tail f (Memᴰ.head e) = Memᴰ.head e
mem_tail f (Memᴰ.tail m) = Memᴰ.tail (f m)

-- Sorting keeps the runs.
pub mem-sort_by_age : (q : RunState) (rs : List RunState) → Memᴰ q (sort_by_age rs) ↔ Memᴰ q rs
unfolding sort_by_age
mem-sort_by_age q [] = (λ m. m, λ m. m)
mem-sort_by_age q (r ∷ rs) =
    let one = mem-insert_by_age r q (sort_by_age rs) in
    let rest = mem-sort_by_age q rs in
    (λ m. mem_tail rest.0 (one.0 m), λ m. one.1 (mem_tail rest.1 m))

All-insert_by_age :
    (P : RunState → Type 0) (r : RunState) (rs : List RunState)
    → P r
    → All P rs
    → All P (insert_by_age r rs)
unfolding insert_by_age
All-insert_by_age P r [] h hs = (h, tt)
All-insert_by_age P r (s ∷ ss) h hs =
    let rest = All-insert_by_age P r ss h hs.1 in
    if_cases (All P) (leb r.created_at_ms s.created_at_ms) (λ _. (h, hs)) (λ _. (hs.0, rest))

All-older :
    {a b : ℕ} (rs : List RunState)
    → a ≤ b
    → All (λ q. b ≤ q.created_at_ms) rs
    → All (λ q. a ≤ q.created_at_ms) rs
All-older [] h hs = tt
All-older (r ∷ rs) h hs = (omega (arith, h, hs.0), All-older rs h hs.1)

insert_by_age-IsSorted :
    (r : RunState) (rs : List RunState) → IsSorted rs → IsSorted (insert_by_age r rs)
unfolding insert_by_age
insert_by_age-IsSorted r [] h = (tt, tt)
insert_by_age-IsSorted r (s ∷ ss) h =
    let rest = insert_by_age-IsSorted r ss h.1 in
    if_cases IsSorted (leb r.created_at_ms s.created_at_ms)
      (λ older.
        let le : r.created_at_ms ≤ s.created_at_ms = ground arith in ((le, All-older ss le h.0), h))
      (λ newer. (All-insert_by_age _ r ss (ground arith) h.0, rest))

sort_by_age-IsSorted : (rs : List RunState) → IsSorted (sort_by_age rs)
unfolding sort_by_age
sort_by_age-IsSorted [] = tt
sort_by_age-IsSorted (r ∷ rs) = insert_by_age-IsSorted r (sort_by_age rs) (sort_by_age-IsSorted rs)

mem_push :
    {q : RunState} (o : Option RunState) {rs : List RunState}
    → Memᴰ q (push o rs) ↔ ((o ≡ some q) ⊎ Memᴰ q rs)
mem_push none = (λ m. inr m, λ t. elim t [ inl e ↦ cc | inr m ↦ m ])
mem_push (some r) = (
  λ m. elim m [ Memᴰ.head e ↦ inl (ap some (sym e)) | Memᴰ.tail n ↦ inr n ],
  λ t. elim t [ inl e ↦ Memᴰ.head (sym (some_inj e)) | inr n ↦ Memᴰ.tail n ],
)

pub mem-found :
    (codec : Codec) (q : RunState) (ss : List Snapshot)
    → Memᴰ q (found codec ss) ↔ ((s : Snapshot) × Memᴰ s ss × (resumable codec s ≡ some q))
mem-found codec q [] = (λ m. elim m [ ], λ t. elim t.1 [ ])
mem-found codec q (s ∷ ss) =
    let rest = mem-found codec q ss in
    let here = mem_push (resumable codec s) {rs = found codec ss} in
    (
      λ m. elim (here.0 m) [
        | inl e ↦ (s, Memᴰ.head refl, e)
        | inr n ↦ let (t, mem, e) = rest.0 n in (t, Memᴰ.tail mem, e)
      ],
      λ (t, mem, e). here.1 (placed t mem e rest.1),
    )
  where
    placed :
        (t : Snapshot)
        → Memᴰ t (s ∷ ss)
        → resumable codec t ≡ some q
        → (((u : Snapshot) × Memᴰ u ss × (resumable codec u ≡ some q)) → Memᴰ q (found codec ss))
        → (resumable codec s ≡ some q) ⊎ Memᴰ q (found codec ss)
    placed t (Memᴰ.head p) e f = inl (ap (resumable codec) (sym p) ∙ e)
    placed t (Memᴰ.tail m) e f = inr (f (t, m, e))

pub HasWork-found :
    (codec : Codec) (ss : List Snapshot) (q : RunState)
    → HasWork codec ss q
    → Memᴰ q (found codec ss)
HasWork-found codec ss q (s, mem, parses, left) =
    (mem-found codec q ss).1 (s, mem, (resumable_iff codec s q).1 (parses, left))

-- A scan of a directory whose entries can be read returns, oldest first, exactly the runs of those
-- snapshots that parse and whose run is neither completed nor cancelled.
pub scan_resumable-finds :
    (codec : Codec) (dir : Text) (ss : List Snapshot)
    → (runs : List RunState) × (scan_resumable codec dir (entries (map ok ss)) ≡ ok runs)
      × IsSorted runs
      × ((q : RunState) → Memᴰ q runs ↔ HasWork codec ss q)
unfolding scan_resumable
scan_resumable-finds codec dir ss = (
  sort_by_age (found codec ss),
  ap (λ rest. rest >>= λ runs. ok (sort_by_age runs)) (scan_entries-ok codec ss),
  sort_by_age-IsSorted (found codec ss),
  λ q.
      let sorted = mem-sort_by_age q (found codec ss) in
      let sources = mem-found codec q ss in
      (
        λ m.
            let (s, mem, e) = sources.0 (sorted.0 m) in
            let (parses, left) = (resumable_iff codec s q).0 e in (s, mem, parses, left),
        λ (s, mem, parses, left).
            sorted.1 (sources.1 (s, mem, (resumable_iff codec s q).1 (parses, left))),
      ),
)
