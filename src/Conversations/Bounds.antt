-- ===== src/Conversations/Bounds.antt =====
-- in_memory.py: the limits of the store, under sequences of calls.
use langchain_langraph_app_l.Prelude.{
  ℕ, ◌≤◌, ◌≡◌, inl, inr, String, Option, none, some, List, [], ◌∷◌, ◌++◌, length, arith, All,
  Option-cases, Bool-cases, length-last_n, last_n, ok, err, elem,
}
use langchain_langraph_app_l.Prelude.Dict.{Dict, lookup, put, put_last, length-remove}
use langchain_langraph_app_l.Conversations.{
  Store, expired_keys, purge, messages_of, append_locked, get, append, append_turn_locked,
  append_turn, clear, health, with_committed, commit, run_ids,
}
use langchain_langraph_app_l.Conversations.Sessions.{
  All-remove, All-put_last, length-remove_found, length-put_last, All-evict, length-evict,
  All-drop_keys, length-drop_keys, drop_keys-limits,
}

pub data Call (M : Type 0) : Type 0 where
  get_messages : String → ℕ → Call M
  append_messages : String → List M → ℕ → Call M
  append_pair : String → String → M → M → ℕ → Call M
  clear_sessions : Option String → Call M
  health_check : ℕ → Call M

module _ {M : Type 0} where
  abbrev pub Fits : ℕ → String × (ℕ × List M) → Type 0
  Fits limit (key, (timestamp, messages)) = length messages ≤ limit

  -- At most so many sessions, of at most so many messages each.
  pub record IsBounded (max_sessions max_messages : ℕ) (s : Store M) : Type 0 where
    pub same_sessions : s.max_sessions ≡ max_sessions
    pub same_messages : s.max_messages ≡ max_messages
    pub sessions : length s.sessions ≤ max_sessions
    pub messages : All (Fits max_messages) s.sessions

  -- The object after a call, which a raise leaves alone.
  unfoldable pub perform : Call M → Store M → Store M
  perform (get_messages key now) s = (get key now s).1
  perform (append_messages key messages now) s = elim (append key messages now s) [
    | ok s' ↦ s'
    | err e ↦ s
  ]
  perform (append_pair key run_id user assistant now) s =
      elim (append_turn key run_id user assistant now s) [ ok (appended, s') ↦ s' | err e ↦ s ]
  perform (clear_sessions key) s = clear key s
  perform (health_check now) s = health now s

  unfoldable pub perform_all : List (Call M) → Store M → Store M
  perform_all [] s = s
  perform_all (c ∷ cs) s = perform_all cs (perform c s)

  module _ (max_sessions max_messages : ℕ) where
    abbrev Bounded : Store M → Type 0
    Bounded s = IsBounded max_sessions max_messages s

    purge-IsBounded : (now : ℕ) (s : Store M) → Bounded s → Bounded (purge now s)
    unfolding purge
    purge-IsBounded now s h =
        let keys = expired_keys s.ttl now s.sessions in
        let (_, a, b) = drop_keys-limits keys s in
        record {
          same_sessions = omega (arith, a, h.same_sessions);
          same_messages = omega (arith, b, h.same_messages);
          sessions = omega (arith, length-drop_keys keys s, h.sessions);
          messages = All-drop_keys (Fits max_messages) keys s h.messages;
        }

    append_locked-IsBounded :
        (key : String) (messages : List M) (now : ℕ) (s : Store M)
        → Bounded s
        → Bounded (append_locked key messages now s)
    unfolding append_locked
    append_locked-IsBounded key messages now s h =
        let all = messages_of (lookup key s.sessions) ++ messages in
        let updated = last_n s.max_messages all in
        let sessions = put_last key (now, updated) s.sessions in
        record {
          same_sessions = h.same_sessions;
          same_messages = h.same_messages;
          sessions =
              omega (arith, length-evict s.max_sessions sessions s.committed_runs, h.same_sessions);
          messages = All-evict (Fits max_messages) s.max_sessions sessions s.committed_runs (
              All-put_last (Fits max_messages) key (now, updated) s.sessions
                (All-remove (Fits max_messages) key s.sessions h.messages)
                (omega (arith, length-last_n s.max_messages all, h.same_messages)));
        }

    lookup-Fits :
        (key : String) (timestamp : ℕ) (messages : List M) (d : Dict (ℕ × List M))
        → All (Fits max_messages) d
        → lookup key d ≡ some (timestamp, messages)
        → length messages ≤ max_messages
    unfolding lookup
    lookup-Fits key timestamp messages [] h e = absurd (ground arith)
    lookup-Fits key timestamp messages ((j, (t, ms)) ∷ d) h e =
        ground (arith, lookup-Fits key timestamp messages d h.1, h.0)

    touched-IsBounded :
        (key : String) (now timestamp : ℕ) (messages : List M) (s : Store M)
        → Bounded s
        → lookup key s.sessions ≡ some (timestamp, messages)
        → Bounded (record s { sessions = put_last key (now, messages) s.sessions })
    touched-IsBounded key now timestamp messages s h e = record {
      same_sessions = h.same_sessions;
      same_messages = h.same_messages;
      sessions = omega (
        arith,
        length-put_last key (now, messages) s.sessions,
        length-remove_found key (timestamp, messages) s.sessions e,
        h.sessions,
      );
      messages =
          All-put_last (Fits max_messages) key (now, messages) s.sessions
            (All-remove (Fits max_messages) key s.sessions h.messages)
            (lookup-Fits key timestamp messages s.sessions h.messages e);
    }

    get-IsBounded : (key : String) (now : ℕ) (s : Store M) → Bounded s → Bounded (get key now s).1
    unfolding get
    get-IsBounded key now s h =
        let kept = purge-IsBounded now s h in
        elim (Option-cases (lookup key (purge now s).sessions)) [
          | inl e ↦ ground (arith, e, h, kept)
          | inr ((timestamp, messages), e) ↦
              ground
                (arith, e, h, touched-IsBounded key now timestamp messages (purge now s) kept e)
        ]

    append-IsBounded :
        (key : String) (messages : List M) (now : ℕ) (s : Store M)
        → Bounded s
        → Bounded (perform (append_messages key messages now) s)
    unfolding perform append
    append-IsBounded key [] now s h = ground arith
    append-IsBounded key (m ∷ messages) now s h =
        let kept = purge-IsBounded now s h in
        ground (arith, append_locked-IsBounded key (m ∷ messages) now (purge now s) kept)

    -- The sets of committed runs do not matter.
    runs-IsBounded :
        (runs : Dict (List String)) (s : Store M)
        → Bounded s
        → Bounded (record s { committed_runs = runs })
    runs-IsBounded runs s h = record {
      same_sessions = h.same_sessions;
      same_messages = h.same_messages;
      sessions = h.sessions;
      messages = h.messages;
    }

    commit-IsBounded :
        (key run_id : String) (s : Store M) → Bounded s → Bounded (commit key run_id s)
    commit-IsBounded key run_id s h = elim (Option-cases (lookup key s.committed_runs)) [
      | inl e ↦ ground (arith, e, h)
      | inr (ids, e) ↦
          ground (arith, e, runs-IsBounded (put key (run_id ∷ ids) s.committed_runs) s h)
    ]

    append_turn-IsBounded :
        (key run_id : String) (user assistant : M) (now : ℕ) (s : Store M)
        → Bounded s
        → Bounded (append_turn_locked key run_id user assistant now s).1
    unfolding append_turn_locked
    append_turn-IsBounded key run_id user assistant now s h =
        let s' = with_committed key (purge now s) in
        let kept : Bounded s' =
          runs-IsBounded s'.committed_runs (purge now s) (purge-IsBounded now s h) in
        let grown =
          commit-IsBounded key run_id (append_locked key (user ∷ assistant ∷ []) now s')
            (append_locked-IsBounded key (user ∷ assistant ∷ []) now s' kept) in
        elim (Bool-cases (elem run_id (run_ids (lookup key s'.committed_runs)))) [
          | inl e ↦ ground (arith, e, kept)
          | inr e ↦ ground (arith, e, grown)
        ]

    clear-IsBounded : (key : Option String) (s : Store M) → Bounded s → Bounded (clear key s)
    unfolding clear
    clear-IsBounded none s h = record {
      same_sessions = h.same_sessions;
      same_messages = h.same_messages;
      sessions = omega arith;
      messages = tt;
    }
    clear-IsBounded (some key) s h = record {
      same_sessions = h.same_sessions;
      same_messages = h.same_messages;
      sessions = omega (arith, length-remove key s.sessions, h.sessions);
      messages = All-remove (Fits max_messages) key s.sessions h.messages;
    }

    perform-IsBounded : (c : Call M) (s : Store M) → Bounded s → Bounded (perform c s)
    unfolding perform append_turn
    perform-IsBounded (get_messages key now) s h = get-IsBounded key now s h
    perform-IsBounded (append_messages key messages now) s h = append-IsBounded key messages now s h
    perform-IsBounded (append_pair key run_id user assistant now) s h =
        ground (arith, append_turn-IsBounded key run_id user assistant now s h)
    perform-IsBounded (clear_sessions key) s h = clear-IsBounded key s h
    perform-IsBounded (health_check now) s h = purge-IsBounded now s h

    -- Through every sequence of calls from a store within these bounds, such as a new one, there are
    -- never more sessions than the limit, nor more messages in a session than the other limit, and
    -- the two limits stay as they are.
    pub perform_all-Bounded :
        (cs : List (Call M)) (s : Store M) → Bounded s → Bounded (perform_all cs s)
    unfolding perform_all
    perform_all-Bounded [] s h = h
    perform_all-Bounded (c ∷ cs) s h =
        perform_all-Bounded cs (perform c s) (perform-IsBounded c s h)
