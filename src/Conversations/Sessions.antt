-- ===== src/Conversations/Sessions.antt =====
-- in_memory.py: what the steps of BoundedInMemoryStore do to the ordered dictionary of sessions.
use langchain_langraph_app_l.Prelude.{
  ℕ, ◌+◌, ◌≤◌, ◌<◌, ◌≡◌, inl, inr, refl, String, true, false, none, some, List, [], ◌∷◌, ◌++◌, ltb,
  length, elem, str_eq, eq_iff, arith, All, All-append, Bool-cases, length-append,
}
use langchain_langraph_app_l.Prelude.Dict.{
  Dict, lookup, put_last, remove, lookup-remove, length-remove, lookup-append,
}
use langchain_langraph_app_l.Conversations.{
  Store, is_expired, expired_keys, drop_key, drop_keys, evict,
}

module _ {V : Type 0} (P : String × V → Type 0) where
  pub All-remove : (k : String) (d : Dict V) → All P d → All P (remove k d)
  unfolding remove
  All-remove k [] h = tt
  All-remove k ((j, v) ∷ d) h = elim (Bool-cases (str_eq j k)) [
    | inl e ↦ rw (e, All) (All-remove k d h.1)
    | inr e ↦ rw (e, All) (h.0, All-remove k d h.1)
  ]

  pub All-put_last :
      (k : String) (v : V) (d : Dict V) → All P (remove k d) → P (k, v) → All P (put_last k v d)
  unfolding put_last
  All-put_last k v d h p = All-append P (remove k d) ((k, v) ∷ []) h (p, tt)

pub length-remove_found :
    {V : Type 0} (k : String) (v : V) (d : Dict V)
    → lookup k d ≡ some v
    → length (remove k d) + 1 ≤ length d
unfolding lookup remove
length-remove_found k v [] h = absurd (ground arith)
length-remove_found k v ((j, w) ∷ d) h =
    ground (arith, length-remove_found k v d, length-remove k d)

pub length-put_last :
    {V : Type 0} (k : String) (v : V) (d : Dict V)
    → length (put_last k v d) ≡ length (remove k d) + 1
unfolding put_last
length-put_last k v d = ground (arith, length-append (remove k d) ((k, v) ∷ []))

module _ {M : Type 0} where
  pub All-evict :
      (P : String × (ℕ × List M) → Type 0) (limit : ℕ) (d : Dict (ℕ × List M))
      (runs : Dict (List String))
      → All P d
      → All P (evict limit d runs).0
  unfolding evict
  All-evict P limit [] runs h = tt
  All-evict P limit ((k, v) ∷ d) runs h = elim (Bool-cases (ltb limit (length ((k, v) ∷ d)))) [
    | inl e ↦ rw (e, All) (All-evict P limit d (remove k runs) h.1)
    | inr e ↦ rw (e, All) h
  ]

  pub length-evict :
      (limit : ℕ) (d : Dict (ℕ × List M)) (runs : Dict (List String))
      → length (evict limit d runs).0 ≤ limit
  unfolding evict
  length-evict limit [] runs = omega arith
  length-evict limit ((k, v) ∷ d) runs = ground (arith, length-evict limit d (remove k runs))

  -- The newest session stays, with its set of runs.
  pub lookup-evict :
      (limit : ℕ) (k : String) (v : ℕ × List M) (d : Dict (ℕ × List M)) (runs : Dict (List String))
      → lookup k d ≡ none
      → 0 < limit
      → (lookup k (evict limit (d ++ (k, v) ∷ []) runs).0 ≡ some v)
        × (lookup k (evict limit (d ++ (k, v) ∷ []) runs).1 ≡ lookup k runs)
  unfolding evict lookup
  lookup-evict limit k v [] runs h p = (ground (arith, eq_iff k k), ground (arith, eq_iff k k))
  lookup-evict limit k v ((j, w) ∷ d) runs h p =
      let none_left : lookup k d ≡ none = ground arith in
      let rest = lookup-evict limit k v d (remove j runs) none_left p in
      let removed = lookup-remove j k runs in
      let appended = lookup-append k k v d none_left in
      (
        ground (arith, rest, removed, appended, eq_iff k k),
        ground (arith, rest, removed, appended, eq_iff k k),
      )

  pub elem-expired_keys :
      (k : String) (ttl now : ℕ) (d : Dict (ℕ × List M))
      → All (λ entry. str_eq entry.0 k ≡ true → is_expired ttl now entry.1 ≡ false) d
      → elem k (expired_keys ttl now d) ≡ false
  unfolding expired_keys
  elem-expired_keys k ttl now [] h = refl
  elem-expired_keys k ttl now ((j, w) ∷ d) h =
      ground (arith, elem-expired_keys k ttl now d h.1, h.0, eq_iff j k, eq_iff k j)

  pub lookup-drop_keys :
      (k : String) (keys : List String) (s : Store M)
      → elem k keys ≡ false
      → (lookup k (drop_keys keys s).sessions ≡ lookup k s.sessions)
        × (lookup k (drop_keys keys s).committed_runs ≡ lookup k s.committed_runs)
  unfolding drop_keys
  lookup-drop_keys k [] s h = (refl, refl)
  lookup-drop_keys k (key ∷ keys) s h =
      let rest = lookup-drop_keys k keys (drop_key key s) in
      let a = lookup-remove key k s.sessions in
      let b = lookup-remove key k s.committed_runs in
      (
        ground (arith, rest, a, eq_iff key k, eq_iff k key),
        ground (arith, rest, b, eq_iff key k, eq_iff k key),
      )

  pub All-drop_keys :
      (P : String × (ℕ × List M) → Type 0) (keys : List String) (s : Store M)
      → All P s.sessions
      → All P (drop_keys keys s).sessions
  unfolding drop_keys
  All-drop_keys P [] s h = h
  All-drop_keys P (key ∷ keys) s h =
      All-drop_keys P keys (drop_key key s) (All-remove P key s.sessions h)

  pub length-drop_keys :
      (keys : List String) (s : Store M) → length (drop_keys keys s).sessions ≤ length s.sessions
  unfolding drop_keys
  length-drop_keys [] s = omega arith
  length-drop_keys (key ∷ keys) s =
      omega (arith, length-drop_keys keys (drop_key key s), length-remove key s.sessions)

  -- The limits are never changed.
  pub drop_keys-limits :
      (keys : List String) (s : Store M)
      → ((drop_keys keys s).ttl ≡ s.ttl)
        × ((drop_keys keys s).max_sessions ≡ s.max_sessions)
        × ((drop_keys keys s).max_messages ≡ s.max_messages)
  unfolding drop_keys
  drop_keys-limits [] s = (refl, refl, refl)
  drop_keys-limits (key ∷ keys) s = drop_keys-limits keys (drop_key key s)
