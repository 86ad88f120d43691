-- ===== src/Runs/Leases/Kept.antt =====
-- run_repository.py: the operations of MemoryRunRepository, and the invariant on leases.
use langchain_langraph_app_l.Prelude.{
  ℕ, ◌+◌, inl, inr, refl, String, List, [], ◌∷◌, Option, some, eq_iff, arith, Option-cases,
  Result-cases,
}
use langchain_langraph_app_l.Prelude.Dict.{lookup, put, remove, lookup-remove}
use langchain_langraph_app_l.Runs.{
  Payload, RunLease, RunIdentity, MemoryRunRepository, validate_identity,
}
use langchain_langraph_app_l.Runs.Calls.{Call, after, perform, perform_all}
use langchain_langraph_app_l.Runs.Memory.{
  Ending, new_record, or_now, create_or_get, acquire, new_lease, token_of, owned_record, renew,
  release, ended, mark_terminal, history_committed, mark_history_committed,
  reconcile_history_committed, revoke_resume_tokens,
}
use langchain_langraph_app_l.Runs.Leases.{
  IsConsistent, owned_record-Owns, store-IsConsistent, granted-IsConsistent, replaced-IsConsistent,
  renewed-IsConsistent,
}

create_or_get-IsConsistent :
    (identity : RunIdentity) (now : ℕ) (r : MemoryRunRepository)
    → IsConsistent r
    → IsConsistent (after r (create_or_get identity now r))
unfolding create_or_get
create_or_get-IsConsistent identity now r h =
    elim (Option-cases (lookup identity.run_id r.records)) [
      | inl e ↦ ground (
        arith,
        e,
        store-IsConsistent identity.run_id (new_record identity now) r (inl (ground (arith, e))) h,
      )
      | inr (known, e) ↦ ground (arith, e, h)
    ]

pub acquire-IsConsistent :
    (identity : RunIdentity) (owner : String) (ttl now : ℕ) (r : MemoryRunRepository)
    → IsConsistent r
    → IsConsistent (after r (acquire identity owner ttl now r))
unfolding acquire validate_identity
acquire-IsConsistent identity owner ttl now r h =
    elim (Option-cases (lookup identity.run_id r.records)) [
      | inl e ↦ ground (arith, e, h)
      | inr (known, e) ↦
          let lease =
            new_lease identity owner ttl (token_of (lookup identity.conversation_id r.fencing) + 1)
              now in
          ground (
            arith,
            e,
            h,
            eq_iff known.conversation_id identity.conversation_id,
            granted-IsConsistent lease known now r,
          )
    ]

renew-IsConsistent :
    (lease : RunLease) (ttl now now' now'' : ℕ) (r : MemoryRunRepository)
    → IsConsistent r
    → IsConsistent (after r (renew lease ttl now now' now'' r))
unfolding renew
renew-IsConsistent lease ttl now now' now'' r h = elim (Result-cases (owned_record lease now r)) [
  | inl (known, e) ↦
      let (held, found) = owned_record-Owns lease now r known e in
      let renewed = record lease { expires_at = now' + ttl } in
      let kept = renewed-IsConsistent lease renewed now r held refl refl refl h in
      ground (
        arith,
        e,
        replaced-IsConsistent lease.run_id known
            (record known { lease_expires_at = some renewed.expires_at; updated_at = some now'' })
            (record r { leases = put lease.conversation_id renewed r.leases }) found refl kept,
      )
  | inr (_, e) ↦ ground (arith, e, h)
]

mark_terminal-IsConsistent :
    (lease : RunLease) (e : Ending) (now now' : ℕ) (r : MemoryRunRepository)
    → IsConsistent r
    → IsConsistent (after r (mark_terminal lease e now now' r))
unfolding mark_terminal
mark_terminal-IsConsistent lease e now now' r h = elim (Result-cases (owned_record lease now r)) [
  | inl (known, p) ↦ ground (
    arith,
    p,
    replaced-IsConsistent lease.run_id known (ended known e now') r
        (owned_record-Owns lease now r known p).1 refl h,
  )
  | inr (_, p) ↦ ground (arith, p, h)
]

mark_history_committed-IsConsistent :
    (lease : RunLease) (payload : Option Payload) (now now' now'' : ℕ) (r : MemoryRunRepository)
    → IsConsistent r
    → IsConsistent (after r (mark_history_committed lease payload now now' now'' r))
unfolding mark_history_committed
mark_history_committed-IsConsistent lease payload now now' now'' r h =
    elim (Result-cases (owned_record lease now r)) [
      | inl (known, p) ↦ ground (
        arith,
        p,
        replaced-IsConsistent lease.run_id known (history_committed known payload (some now') now'')
            r (owned_record-Owns lease now r known p).1 refl h,
      )
      | inr (_, p) ↦ ground (arith, p, h)
    ]

reconcile-IsConsistent :
    (run_id : String) (payload : Option Payload) (now now' : ℕ) (r : MemoryRunRepository)
    → IsConsistent r
    → IsConsistent (after r (reconcile_history_committed run_id payload now now' r))
unfolding reconcile_history_committed
reconcile-IsConsistent run_id payload now now' r h = elim (Option-cases (lookup run_id r.records)) [
  | inl e ↦ ground (arith, e, h)
  | inr (known, e) ↦
      let updated = history_committed known payload (or_now known.history_committed_at now) now' in
      ground (arith, e, replaced-IsConsistent run_id known updated r e refl h)
]

revoke-IsConsistent :
    (run_id : String) (now : ℕ) (r : MemoryRunRepository)
    → IsConsistent r
    → IsConsistent (after r (revoke_resume_tokens run_id now r))
unfolding revoke_resume_tokens
revoke-IsConsistent run_id now r h = elim (Option-cases (lookup run_id r.records)) [
  | inl e ↦ ground (arith, e, h)
  | inr (known, e) ↦
      let updated = record known {
        resume_token_version = known.resume_token_version + 1;
        updated_at = some now;
      } in
      ground (arith, e, replaced-IsConsistent run_id known updated r e refl h)
]

pub release-IsConsistent :
    (lease : RunLease) (r : MemoryRunRepository) → IsConsistent r → IsConsistent (release lease r)
unfolding release
release-IsConsistent lease r h =
    let k = lease.conversation_id in
    let removed : IsConsistent (record r { leases = remove k r.leases }) = record {
      own_key = λ c l p. ground (arith, lookup-remove k c r.leases, h.own_key c l);
      latest = λ c l p. ground (arith, lookup-remove k c r.leases, h.latest c l);
      has_run = λ c l p. ground (arith, lookup-remove k c r.leases, h.has_run c l);
    } in
    ground (arith, h, removed)

perform-IsConsistent :
    (c : Call) (r : MemoryRunRepository) → IsConsistent r → IsConsistent (perform c r)
unfolding perform
perform-IsConsistent Call.start_call r h = record {
  own_key = h.own_key;
  latest = h.latest;
  has_run = h.has_run;
}
perform-IsConsistent Call.aclose_call r h = record {
  own_key = h.own_key;
  latest = h.latest;
  has_run = h.has_run;
}
perform-IsConsistent (Call.create identity now) r h = create_or_get-IsConsistent identity now r h
perform-IsConsistent (Call.acquire_lease identity owner ttl now) r h =
    acquire-IsConsistent identity owner ttl now r h
perform-IsConsistent (Call.renew_lease lease ttl now now' now'') r h =
    renew-IsConsistent lease ttl now now' now'' r h
perform-IsConsistent (Call.release_lease lease) r h = release-IsConsistent lease r h
perform-IsConsistent (Call.end_run lease e now now') r h =
    mark_terminal-IsConsistent lease e now now' r h
perform-IsConsistent (Call.commit_history lease payload now now' now'') r h =
    mark_history_committed-IsConsistent lease payload now now' now'' r h
perform-IsConsistent (Call.reconcile_history run_id payload now now') r h =
    reconcile-IsConsistent run_id payload now now' r h
perform-IsConsistent (Call.revoke_tokens run_id now) r h = revoke-IsConsistent run_id now r h

-- Through every sequence of calls from a consistent repository, such as the empty one, each lease is
-- filed under its conversation, carries the last fencing token given out for it, and is the lease of
-- a recorded run of that conversation.
pub perform_all-IsConsistent :
    (cs : List Call) (r : MemoryRunRepository) → IsConsistent r → IsConsistent (perform_all cs r)
unfolding perform_all
perform_all-IsConsistent [] r h = h
perform_all-IsConsistent (c ∷ cs) r h =
    perform_all-IsConsistent cs (perform c r) (perform-IsConsistent c r h)
