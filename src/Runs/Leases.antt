-- ===== src/Runs/Leases.antt =====
-- run_repository.py: the invariant of MemoryRunRepository, and the updates of its tables.
pub mod Kept
use langchain_langraph_app_l.Prelude.{
  ℕ, ◌+◌, ◌≡◌, ◌⊎◌, inl, inr, refl, ap, sym, String, List, [], ◌∷◌, Bool, true, false, ◌==◌, Option,
  none, some, str_eq, eq_iff, if◌then◌else◌, Result, ok, err, arith, Bool-cases, Option-cases,
  Result-cases,
}
use langchain_langraph_app_l.Prelude.Dict.{
  Dict, lookup, put, remove, lookup-put, lookup-remove, dict_laws,
}
use langchain_langraph_app_l.Runs.{
  RunStatus, Payload, RunRecord, RunLease, RunIdentity, RunError, MemoryRunRepository,
  empty_repository, validate_identity, start, aclose,
}
use langchain_langraph_app_l.Runs.Calls.{Call, after, perform, perform_all}
use langchain_langraph_app_l.Runs.Memory.{
  Done, Ending, new_record, store, or_now, create_or_get, taken, granted, acquire, new_lease,
  token_of, same_owner, owns, owned_record, renew, release, ended, mark_terminal, history_committed,
  mark_history_committed, reconcile_history_committed, revoke_resume_tokens,
}

abbrev pub conversation_of : Option RunRecord → Option String
conversation_of none = none
conversation_of (some known) = some known.conversation_id

-- A conversation's lease is filed under the conversation, carries the last fencing token given out
-- for it, and is that of a run of the conversation.
pub record IsConsistent (r : MemoryRunRepository) : Type 0 where
  pub own_key : (c : String) (l : RunLease) → lookup c r.leases ≡ some l → l.conversation_id ≡ c
  pub latest :
      (c : String) (l : RunLease)
      → lookup c r.leases ≡ some l
      → lookup c r.fencing ≡ some l.fencing_token
  pub has_run :
      (c : String) (l : RunLease)
      → lookup c r.leases ≡ some l
      → conversation_of (lookup l.run_id r.records) ≡ some c

pub empty-IsConsistent : IsConsistent empty_repository
unfolding lookup
empty-IsConsistent = record { own_key = λ c l h. cc; latest = λ c l h. cc; has_run = λ c l h. cc }

-- A record is replaced by one of the same conversation.
pub store-IsConsistent :
    (id : String) (updated : RunRecord) (r : MemoryRunRepository)
    → conversation_of (lookup id r.records) ≡ none
      ⊎ (conversation_of (lookup id r.records) ≡ some updated.conversation_id)
    → IsConsistent r
    → IsConsistent (store id updated r)
store-IsConsistent id updated r old h = record {
  own_key = h.own_key;
  latest = h.latest;
  has_run = λ c l e.
      ground (arith, lookup-put id l.run_id updated r.records, eq_iff id l.run_id, h.has_run c l e);
}

pub granted-IsConsistent :
    (lease : RunLease) (known : RunRecord) (now : ℕ) (r : MemoryRunRepository)
    → known.conversation_id ≡ lease.conversation_id
    → conversation_of (lookup lease.run_id r.records) ≡ some lease.conversation_id
    → IsConsistent r
    → IsConsistent (granted lease known now r)
granted-IsConsistent lease known now r same old h = record {
  own_key = λ c l e. ground (
    arith,
    lookup-put lease.conversation_id c lease r.leases,
    eq_iff lease.conversation_id c,
    h.own_key c l,
  );
  latest = λ c l e. ground (
    arith,
    lookup-put lease.conversation_id c lease r.leases,
    lookup-put lease.conversation_id c lease.fencing_token r.fencing,
    eq_iff lease.conversation_id c,
    h.latest c l,
  );
  has_run = λ c l e. ground (
    arith,
    lookup-put lease.conversation_id c lease r.leases,
    lookup-put lease.run_id l.run_id (taken known lease now) r.records,
    eq_iff lease.run_id l.run_id,
    eq_iff lease.conversation_id c,
    h.has_run c l,
  );
}

-- `_assert_lease` holds, and the run has a record.
abbrev pub Owns : MemoryRunRepository → RunLease → ℕ → RunRecord → Type 0
Owns r lease now known =
    (owns (lookup lease.conversation_id r.leases) lease now ≡ true)
    × (lookup lease.run_id r.records ≡ some known)

pub owned_record-Owns :
    (lease : RunLease) (now : ℕ) (r : MemoryRunRepository) (known : RunRecord)
    → owned_record lease now r ≡ ok known
    → Owns r lease now known
unfolding owned_record
owned_record-Owns lease now r known h = ground arith

pub replaced-IsConsistent :
    (id : String) (known updated : RunRecord) (r : MemoryRunRepository)
    → lookup id r.records ≡ some known
    → updated.conversation_id ≡ known.conversation_id
    → IsConsistent r
    → IsConsistent (store id updated r)
replaced-IsConsistent id known updated r e same h =
    store-IsConsistent id updated r (inr (ground (arith, e))) h

-- What `_same_owner` compares.
pub same_owner-fields :
    (current lease : RunLease)
    → same_owner current lease ≡ true
    → (current.run_id ≡ lease.run_id) × (current.fencing_token ≡ lease.fencing_token)
same_owner-fields current lease h = ground (arith, eq_iff current.run_id lease.run_id)

pub owns-fields :
    (current : Option RunLease) (lease : RunLease) (now : ℕ)
    → owns current lease now ≡ true
    → (l : RunLease) × (current ≡ some l)
      × (l.run_id ≡ lease.run_id)
      × (l.fencing_token ≡ lease.fencing_token)
owns-fields none lease now h = absurd (ground arith)
owns-fields (some l) lease now h =
    let (a, b) = same_owner-fields l lease (ground arith) in (l, refl, a, b)

pub renewed-IsConsistent :
    (lease renewed : RunLease) (now : ℕ) (r : MemoryRunRepository)
    → owns (lookup lease.conversation_id r.leases) lease now ≡ true
    → renewed.conversation_id ≡ lease.conversation_id
    → renewed.run_id ≡ lease.run_id
    → renewed.fencing_token ≡ lease.fencing_token
    → IsConsistent r
    → IsConsistent (record r { leases = put lease.conversation_id renewed r.leases })
renewed-IsConsistent lease renewed now r held same_c same_r same_t h =
    let (current, e, f, g) = owns-fields (lookup lease.conversation_id r.leases) lease now held in
    let k = lease.conversation_id in
    let latest = h.latest k current e in
    let has_run = h.has_run k current e in
    record {
      own_key = λ c l p. ground (arith, lookup-put k c renewed r.leases, eq_iff k c, h.own_key c l);
      latest = λ c l p. ground (arith, lookup-put k c renewed r.leases, eq_iff k c, h.latest c l);
      has_run = λ c l p. ground (arith, lookup-put k c renewed r.leases, eq_iff k c, h.has_run c l);
    }
