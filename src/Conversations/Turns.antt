-- ===== src/Conversations/Turns.antt =====
-- in_memory.py: reading back a turn, and appending it again.
use mathlib.Core.Path.{subst}
use langchain_langraph_app_l.Prelude.{
  ℕ, ◌+◌, ◌≤◌, ◌<◌, ◌≡◌, inl, inr, refl, String, true, false, some, List, [], ◌∷◌, ◌++◌, str_eq,
  eq_iff, arith, All, Bool-cases, last_n, ok, elem,
}
use langchain_langraph_app_l.Prelude.Dict.{
  Dict, lookup, put_last, remove, lookup-remove, lookup-put,
}
use langchain_langraph_app_l.Conversations.{
  Store, is_expired, expired_keys, purge, messages_of, append_locked, get, append_turn_locked,
  append_turn, with_committed, commit, run_ids,
}
use langchain_langraph_app_l.Conversations.Sessions.{
  All-put_last, All-evict, lookup-evict, elem-expired_keys, lookup-drop_keys, drop_keys-limits,
}

pub All-removed :
    {V : Type 0} (Q : String × V → Type 0) (k : String) (d : Dict V)
    → All (λ entry. str_eq entry.0 k ≡ true → Q entry) (remove k d)
unfolding remove
All-removed Q k [] = tt
All-removed Q k ((j, v) ∷ d) = elim (Bool-cases (str_eq j k)) [
  | inl e ↦ rw (e, All) (All-removed Q k d)
  | inr e ↦ rw (e, All) (λ h. absurd (ground (arith, h, e)), All-removed Q k d)
]

module _ {M : Type 0} where
  -- The session is there, was touched at a time, and no session under its key is older.
  pub record IsFiled (key : String) (now : ℕ) (messages : List M) (ids : List String) (s : Store M)
      : Type 0 where
    pub session : lookup key s.sessions ≡ some (now, messages)
    pub runs : lookup key s.committed_runs ≡ some ids
    pub newest : All (λ entry. str_eq entry.0 key ≡ true → entry.1.0 ≡ now) s.sessions

  append_locked-IsFiled :
      (key : String) (messages : List M) (now : ℕ) (ids : List String) (s : Store M)
      → 0 < s.max_sessions
      → lookup key s.committed_runs ≡ some ids
      → IsFiled key now
          (last_n s.max_messages (messages_of (lookup key s.sessions) ++ messages))
          ids
          (append_locked key messages now s)
  unfolding append_locked put_last
  append_locked-IsFiled key messages now ids s positive e =
      let session : ℕ × List M =
        (now, last_n s.max_messages (messages_of (lookup key s.sessions) ++ messages)) in
      let removed = lookup-remove key key s.sessions in
      let (a, b) =
        lookup-evict s.max_sessions key session (remove key s.sessions) s.committed_runs
          (ground (arith, removed, eq_iff key key)) positive in
      record {
        session = a;
        runs = ground (arith, b, e);
        newest =
            All-evict (λ entry. str_eq entry.0 key ≡ true → entry.1.0 ≡ now) s.max_sessions
              (put_last key session s.sessions) s.committed_runs
              (All-put_last (λ entry. str_eq entry.0 key ≡ true → entry.1.0 ≡ now) key session
                s.sessions (All-removed (λ entry. entry.1.0 ≡ now) key s.sessions) (λ _. refl));
      }

  newest-fresh :
      (key : String) (ttl now now' : ℕ) (d : Dict (ℕ × List M))
      → now' ≤ now + ttl
      → All (λ entry. str_eq entry.0 key ≡ true → entry.1.0 ≡ now) d
      → All (λ entry. str_eq entry.0 key ≡ true → is_expired ttl now' entry.1 ≡ false) d
  newest-fresh key ttl now now' [] late h = tt
  newest-fresh key ttl now now' ((j, (t, ms)) ∷ d) late h =
      (λ same. ground (arith, h.0 same), newest-fresh key ttl now now' d late h.1)

  -- A session that is not too old is not purged.
  purge-keeps :
      (key : String) (now now' : ℕ) (messages : List M) (ids : List String) (s : Store M)
      → IsFiled key now messages ids s
      → now' ≤ now + s.ttl
      → (lookup key (purge now' s).sessions ≡ some (now, messages))
        × (lookup key (purge now' s).committed_runs ≡ some ids)
  unfolding purge
  purge-keeps key now now' messages ids s h late =
      let kept =
        elem-expired_keys key s.ttl now' s.sessions
          (newest-fresh key s.ttl now now' s.sessions late h.newest) in
      let (a, b) = lookup-drop_keys key (expired_keys s.ttl now' s.sessions) s kept in
      (ground (arith, a, h.session), ground (arith, b, h.runs))

  filed-get :
      (key : String) (now now' : ℕ) (messages : List M) (ids : List String) (s : Store M)
      → str_eq key "" ≡ false
      → IsFiled key now messages ids s
      → now' ≤ now + s.ttl
      → (get key now' s).0 ≡ messages
  unfolding get
  filed-get key now now' messages ids s named h late =
      let (a, b) = purge-keeps key now now' messages ids s h late in ground (arith, a, named)

  filed-append_turn :
      (key run_id : String) (user assistant : M) (now now' : ℕ) (messages : List M)
      (ids : List String) (s : Store M)
      → elem run_id ids ≡ true
      → IsFiled key now messages ids s
      → now' ≤ now + s.ttl
      → ((append_turn_locked key run_id user assistant now' s).0 ≡ false)
        × (lookup key (append_turn_locked key run_id user assistant now' s).1.sessions
            ≡ some (now, messages))
  unfolding append_turn_locked
  filed-append_turn key run_id user assistant now now' messages ids s there h late =
      let (a, b) = purge-keeps key now now' messages ids s h late in
      let law = lookup-put key key ids (purge now' s).committed_runs in
      (
        ground (arith, a, b, law, eq_iff key key, there),
        ground (arith, a, b, law, eq_iff key key, there),
      )

  committed-IsFiled :
      (key run_id : String) (now : ℕ) (messages : List M) (ids : List String) (s : Store M)
      → IsFiled key now messages ids s
      → IsFiled key now messages (run_id ∷ ids) (commit key run_id s)
  committed-IsFiled key run_id now messages ids s h =
      let law = lookup-put key key (run_id ∷ ids) s.committed_runs in
      rw (h.runs, commit)
        (record {
          session = h.session;
          runs = ground (arith, law, eq_iff key key);
          newest = h.newest;
        })

  purge-limits :
      (now : ℕ) (s : Store M)
      → ((purge now s).ttl ≡ s.ttl)
        × ((purge now s).max_sessions ≡ s.max_sessions)
        × ((purge now s).max_messages ≡ s.max_messages)
  unfolding purge
  purge-limits now s = drop_keys-limits (expired_keys s.ttl now s.sessions) s

  append_locked-ttl :
      (key : String) (messages : List M) (now : ℕ) (s : Store M)
      → (append_locked key messages now s).ttl ≡ s.ttl
  unfolding append_locked
  append_locked-ttl key messages now s = refl

  commit-ttl : (key run_id : String) (s : Store M) → (commit key run_id s).ttl ≡ s.ttl
  commit-ttl key run_id s = ground arith

  appended :
      (key run_id : String) (user assistant : M) (now : ℕ) (s s' : Store M)
      → append_turn key run_id user assistant now s ≡ ok (true, s')
      → (str_eq key "" ≡ false)
        × (str_eq run_id "" ≡ false)
        × (s'
            ≡ commit key run_id
                (append_locked key (user ∷ assistant ∷ []) now (with_committed key (purge now s))))
  unfolding append_turn append_turn_locked
  appended key run_id user assistant now s s' h = (ground arith, ground arith, ground arith)

  appended-IsFiled :
      (key run_id : String) (user assistant : M) (now : ℕ) (s s' : Store M)
      → 0 < s.max_sessions
      → append_turn key run_id user assistant now s ≡ ok (true, s')
      → (ids : List String) × (s'.ttl ≡ s.ttl)
        × IsFiled key now
            (last_n s.max_messages
              (messages_of (lookup key (purge now s).sessions) ++ user ∷ assistant ∷ []))
            (run_id ∷ ids)
            s'
  appended-IsFiled key run_id user assistant now s s' positive h =
      let p = purge now s in
      let ids = run_ids (lookup key p.committed_runs) in
      let s1 = with_committed key p in
      let pair = user ∷ assistant ∷ [] in
      let (ttl, sessions, messages) = purge-limits now s in
      let law = lookup-put key key ids p.committed_runs in
      let filed =
        append_locked-IsFiled key pair now ids s1 (omega (arith, positive, sessions))
          (ground (arith, law, eq_iff key key)) in
      let done =
        committed-IsFiled key run_id now
          (last_n s1.max_messages (messages_of (lookup key s1.sessions) ++ pair)) ids
          (append_locked key pair now s1) filed in
      let (_, _, made) = appended key run_id user assistant now s s' h in
      let cut =
        subst
          (λ n.
            IsFiled key now (last_n n (messages_of (lookup key p.sessions) ++ pair)) (run_id ∷ ids)
              (commit key run_id (append_locked key pair now s1)))
          messages done in
      let grown = commit-ttl key run_id (append_locked key pair now s1) in
      (ids, ground (arith, made, grown, ttl, append_locked-ttl key pair now s1), rw made cut)

  -- The first time that a run appends its turn to a conversation, in a store that may hold a session:
  -- until the time to live is over the conversation reads as what was there and the turn, cut to the
  -- newest messages that the limit allows; and a second try of the same run, whatever its messages,
  -- returns false and leaves the conversation's session as it is.
  pub append_turn-get :
      (key run_id : String) (user assistant user' assistant' : M) (now now' : ℕ) (s s' : Store M)
      → 0 < s.max_sessions
      → append_turn key run_id user assistant now s ≡ ok (true, s')
      → now' ≤ now + s.ttl
      → ((get key now' s').0
          ≡ last_n s.max_messages
              (messages_of (lookup key (purge now s).sessions) ++ user ∷ assistant ∷ []))
        × ((s'' : Store M) × (append_turn key run_id user' assistant' now' s' ≡ ok (false, s''))
            × (lookup key s''.sessions ≡ lookup key s'.sessions))
  unfolding append_turn
  append_turn-get key run_id user assistant user' assistant' now now' s s' positive h late =
      let (ids, ttl, filed) = appended-IsFiled key run_id user assistant now s s' positive h in
      let (named, run_named, _) = appended key run_id user assistant now s s' h in
      let updated =
        last_n s.max_messages
          (messages_of (lookup key (purge now s).sessions) ++ user ∷ assistant ∷ []) in
      let in_time : now' ≤ now + s'.ttl = omega (arith, ttl, late) in
      let again =
        filed-append_turn key run_id user' assistant' now now' updated (run_id ∷ ids) s'
          (ground (arith, eq_iff run_id run_id)) filed in_time in
      (
        filed-get key now now' updated (run_id ∷ ids) s' named filed in_time,
        (
          (append_turn_locked key run_id user' assistant' now' s').1,
          ground (arith, named, run_named, again),
          ground (arith, again, filed.session),
        ),
      )
