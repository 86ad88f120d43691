-- ===== src/Conversations.antt =====
-- app/state/in_memory.py: BoundedInMemoryStore. The `asyncio.Lock` makes each method one step; the
-- monotonic clock is an argument, in whole microseconds. Messages are of any type, and are never
-- copied: no method changes one. Metrics are left out.
pub mod Sessions
pub mod Bounds
pub mod Turns
mod Tests
use langchain_langraph_app_l.Prelude.{
  ℕ, ◌+◌, String, Bool, true, false, ◌||◌, Option, none, some, List, [], ◌∷◌, ◌++◌, ltb, leb,
  length, elem, last_n, str_eq, is_some, if◌then◌else◌, Result, ok, err,
}
use langchain_langraph_app_l.Prelude.Dict.{Dict, lookup, put, put_last, remove}

pub record Store (M : Type 0) : Type 0 where
  pub ttl : ℕ
  pub max_sessions : ℕ
  pub max_messages : ℕ
  pub sessions : Dict (ℕ × List M)
  pub committed_runs : Dict (List String)

-- The messages of `ValueError`.
pub data ValueError : Type 0 where
  ttl_not_positive max_sessions_not_positive max_messages_not_positive empty_key : ValueError

-- `__init__`
unfoldable pub create : {M : Type 0} → ℕ → ℕ → ℕ → Result ValueError (Store M)
create ttl max_sessions max_messages =
    if leb ttl 0
    then err ttl_not_positive
    else if leb max_sessions 0
    then err max_sessions_not_positive
    else if leb max_messages 0
    then err max_messages_not_positive
    else ok (record {
      ttl = ttl;
      max_sessions = max_sessions;
      max_messages = max_messages;
      sessions = [];
      committed_runs = [];
    })

abbrev pub run_ids : Option (List String) → List String
run_ids none = []
run_ids (some ids) = ids

module _ {M : Type 0} where
  -- `timestamp < now - self.ttl`
  abbrev pub is_expired : ℕ → ℕ → ℕ × List M → Bool
  is_expired ttl now (timestamp, messages) = ltb (timestamp + ttl) now

  unfoldable pub expired_keys : ℕ → ℕ → Dict (ℕ × List M) → List String
  expired_keys ttl now [] = []
  expired_keys ttl now ((key, session) ∷ rest) =
      let keys = expired_keys ttl now rest in
      if is_expired ttl now session then key ∷ keys else keys

  -- Both dictionaries without a key.
  abbrev pub drop_key : String → Store M → Store M
  drop_key key s = record s {
    sessions = remove key s.sessions;
    committed_runs = remove key s.committed_runs;
  }

  unfoldable pub drop_keys : List String → Store M → Store M
  drop_keys [] s = s
  drop_keys (key ∷ keys) s = drop_keys keys (drop_key key s)

  -- `_purge`
  unfoldable pub purge : ℕ → Store M → Store M
  unfolding expired_keys drop_keys
  purge now s = drop_keys (expired_keys s.ttl now s.sessions) s

  -- The loop that pops the oldest session while there are too many, on the list of sessions.
  unfoldable pub evict :
      ℕ → Dict (ℕ × List M) → Dict (List String) → Dict (ℕ × List M) × Dict (List String)
  evict limit [] runs = ([], runs)
  evict limit ((key, session) ∷ rest) runs =
      let fewer = evict limit rest (remove key runs) in
      if ltb limit (length ((key, session) ∷ rest)) then fewer else ((key, session) ∷ rest, runs)

  abbrev pub messages_of : Option (ℕ × List M) → List M
  messages_of none = []
  messages_of (some (timestamp, messages)) = messages

  -- `_append_locked` behind its `_purge`.
  unfoldable pub append_locked : String → List M → ℕ → Store M → Store M
  unfolding evict
  append_locked key messages now s =
      let updated = last_n s.max_messages (messages_of (lookup key s.sessions) ++ messages) in
      let (sessions, runs) =
        evict s.max_sessions (put_last key (now, updated) s.sessions) s.committed_runs in
      record s { sessions = sessions; committed_runs = runs }

  unfoldable pub get : String → ℕ → Store M → List M × Store M
  unfolding purge
  get key now s =
      if str_eq key ""
      then ([], s)
      else let s' = purge now s in
        elim (lookup key s'.sessions) [
          | none ↦ ([], s')
          | some (_, messages) ↦
              (messages, record s' { sessions = put_last key (now, messages) s'.sessions })
        ]

  unfoldable pub append : String → List M → ℕ → Store M → Result ValueError (Store M)
  unfolding append_locked purge
  append key [] now s = if str_eq key "" then err empty_key else ok s
  append key (m ∷ messages) now s =
      if str_eq key ""
      then err empty_key
      else ok (append_locked key (m ∷ messages) now (purge now s))

  -- `committed.add(run_id)` on the set that the dictionary holds, unless the set was popped.
  abbrev pub commit : String → String → Store M → Store M
  commit key run_id s = elim (lookup key s.committed_runs) [
    | none ↦ s
    | some ids ↦ record s { committed_runs = put key (run_id ∷ ids) s.committed_runs }
  ]

  -- `self._committed_runs.setdefault(key, set())`
  abbrev pub with_committed : String → Store M → Store M
  with_committed key s = record s {
    committed_runs = put key (run_ids (lookup key s.committed_runs)) s.committed_runs;
  }

  -- Behind the checks of the arguments: whether the turn was appended, and the store.
  unfoldable pub append_turn_locked : String → String → M → M → ℕ → Store M → Bool × Store M
  unfolding append_locked purge
  append_turn_locked key run_id user assistant now s =
      let s' = with_committed key (purge now s) in
      if elem run_id (run_ids (lookup key s'.committed_runs))
      then (false, s')
      else (true, commit key run_id (append_locked key (user ∷ assistant ∷ []) now s'))

  unfoldable pub append_turn :
      String → String → M → M → ℕ → Store M → Result ValueError (Bool × Store M)
  unfolding append_turn_locked
  append_turn key run_id user assistant now s =
      if str_eq key "" || str_eq run_id ""
      then err empty_key
      else ok (append_turn_locked key run_id user assistant now s)

  -- `clear` without a key, and with one.
  unfoldable pub clear : Option String → Store M → Store M
  clear none s = record s { sessions = []; committed_runs = [] }
  clear (some key) s = drop_key key s

  -- `health` purges, too; its report is left out.
  abbrev pub health : ℕ → Store M → Store M
  health now s = purge now s
