-- ===== src/Runs/Refinement/Steps.antt =====
-- run_repository.py: each operation of the two repositories, side by side.
use langchain_langraph_app_l.Prelude.{
  ℕ, ◌+◌, ◌≡◌, inl, inr, refl, String, Option, some, eq_iff, arith, Option-cases, Bool-cases,
  Result-cases, ok,
}
use langchain_langraph_app_l.Prelude.Dict.{lookup, put}
use langchain_langraph_app_l.Runs.{
  Payload, RunRecord, RunLease, RunIdentity, MemoryRunRepository, validate_identity,
}
use langchain_langraph_app_l.Runs.Memory.{
  Ending, new_record, new_lease, taken, or_now, token_of, owns, is_held, owned_record, ended,
  nonempty_payload, history_committed, store,
}
use langchain_langraph_app_l.Runs.Memory
use langchain_langraph_app_l.Runs.Leases.{owned_record-Owns}
use langchain_langraph_app_l.Runs.Postgres.{
  Tables, empty_tables, update_run, update_lease, taken_row, written_run, completes, same_token,
  renew_run,
}
use langchain_langraph_app_l.Runs.Postgres
use langchain_langraph_app_l.Runs.Refinement.{Op, by_memory, by_postgres, Agrees, Fits}
use langchain_langraph_app_l.Runs.Refinement.Updates.{
  store-Agrees, taken_row-token, held_row-owns, holder-found,
}
use langchain_langraph_app_l.Runs.Refinement.Grants.{
  granted-Agrees, written_run-owned_record, renewed-Agrees, released-Agrees,
}

-- One operation at one time has one reply, and leaves the two in agreement.
abbrev pub Same : ℕ → MemoryRunRepository → Tables → Op → Type 0
Same now m t op =
    ((by_memory op now m).0 ≡ (by_postgres op now t).0)
    × Agrees now (by_memory op now m).1 (by_postgres op now t).1

new_record-valid :
    (identity : RunIdentity) (now : ℕ)
    → validate_identity (new_record identity now) identity ≡ ok tt
unfolding validate_identity
new_record-valid identity now = ground (
  arith,
  eq_iff identity.conversation_id identity.conversation_id,
  eq_iff identity.execution_thread_id identity.execution_thread_id,
  eq_iff identity.request_hash identity.request_hash,
)

create-Same :
    (now : ℕ) (m : MemoryRunRepository) (t : Tables) (identity : RunIdentity)
    → Agrees now m t
    → Same now m t (Op.create identity)
unfolding by_memory by_postgres Memory.create_or_get Postgres.create_or_get
create-Same now m t identity a = elim (Option-cases (lookup identity.run_id m.records)) [
  | inl missing ↦ ground (
    arith,
    a.runs,
    missing,
    new_record-valid identity now,
    store-Agrees now identity.run_id (new_record identity now) m t (inl missing) a,
  )
  | inr (known, found) ↦ elim (Result-cases (validate_identity known identity)) [
    | inl (_, e) ↦ ground (arith, a.runs, found, e, a)
    | inr (_, e) ↦ ground (arith, a.runs, found, e, a)
  ]
]

valid-conversation :
    (known : RunRecord) (identity : RunIdentity)
    → validate_identity known identity ≡ ok tt
    → known.conversation_id ≡ identity.conversation_id
unfolding validate_identity
valid-conversation known identity h =
    ground (arith, eq_iff known.conversation_id identity.conversation_id)

acquire-Same :
    (now : ℕ) (m : MemoryRunRepository) (t : Tables) (identity : RunIdentity) (owner : String)
    (ttl : ℕ)
    → Fits m (Op.acquire identity owner ttl)
    → Agrees now m t
    → Same now m t (Op.acquire identity owner ttl)
unfolding by_memory by_postgres Memory.acquire Postgres.acquire
acquire-Same now m t identity owner ttl (known, found, valid) a =
    let k = identity.conversation_id in
    let token = token_of (lookup k m.fencing) in
    let lease = new_lease identity owner ttl (token + 1) now in
    let row =
      taken_row-token (lookup k m.leases) (lookup k t.app_conversation_leases) identity owner ttl
        now token (a.rows k) (a.tokens k) in
    let granted =
      granted-Agrees now lease known m t found (valid-conversation known identity valid) a in
    elim (Bool-cases (is_held (lookup k m.leases) now)) [
      | inl held ↦ ground (arith, a, found, valid, row, held)
      | inr free ↦ ground (arith, a.runs, found, valid, row, free, granted)
    ]

renew-Same :
    (now : ℕ) (m : MemoryRunRepository) (t : Tables) (lease : RunLease) (ttl : ℕ)
    → Agrees now m t
    → Same now m t (Op.renew lease ttl)
unfolding by_memory by_postgres Memory.renew Postgres.renew renew_run owned_record
renew-Same now m t lease ttl a =
    let k = lease.conversation_id in
    let row =
      held_row-owns (lookup k m.leases) (lookup k t.app_conversation_leases) lease now (a.rows k) in
    elim (Bool-cases (owns (lookup k m.leases) lease now)) [
      | inr free ↦ ground (arith, a, row, free)
      | inl owned ↦
          let (known, found, token, owner) = holder-found now m t lease now a owned in
          let updated = record known {
            lease_expires_at = some (now + ttl);
            updated_at = some now;
          } in
          let r = record m { leases = put k (record lease { expires_at = now + ttl }) m.leases } in
          let kept = renewed-Agrees now (now + ttl) lease m t owned a in
          let stored =
            store-Agrees now lease.run_id updated r
              (update_lease (record lease { expires_at = now + ttl }) t)
              (inr (ground (arith, found), ground (arith, found))) kept in
          ground (arith, a.runs, row, owned, found, token, stored)
    ]

-- A record that a held lease writes to.
store-Same :
    (now : ℕ) (m : MemoryRunRepository) (t : Tables) (id : String) (known updated : RunRecord)
    → lookup id m.records ≡ some known
    → updated.conversation_id ≡ known.conversation_id
    → updated.fencing_token ≡ known.fencing_token
    → updated.lease_owner ≡ known.lease_owner
    → Agrees now m t
    → Agrees now (store id updated m) (update_run id updated t)
store-Same now m t id known updated found same_c same_t same_o a =
    store-Agrees now id updated m t
      (inr (ground (arith, found, same_c), ground (arith, found, same_t, same_o))) a

end_run-Same :
    (now : ℕ) (m : MemoryRunRepository) (t : Tables) (lease : RunLease) (e : Ending)
    → Fits m (Op.end_run lease e)
    → Agrees now m t
    → Same now m t (Op.end_run lease e)
unfolding by_memory by_postgres Memory.mark_terminal Postgres.mark_terminal
end_run-Same now m t lease e (names, payload, status) a =
    let same = written_run-owned_record now lease m t a names in
    elim (Result-cases (owned_record lease now m)) [
      | inr (_, p) ↦ ground (arith, a, same, p)
      | inl (known, p) ↦
          let (_, found) = owned_record-Owns lease now m known p in
          let one : Postgres.ended known e now ≡ ended known e now =
            ground (arith, payload, status) in
          let stored =
            store-Same now m t lease.run_id known (ended known e now) found refl refl refl a in
          ground (arith, same, p, one, stored)
    ]

commit_history-Same :
    (now : ℕ) (m : MemoryRunRepository) (t : Tables) (lease : RunLease) (payload : Option Payload)
    → Fits m (Op.commit_history lease payload)
    → Agrees now m t
    → Same now m t (Op.commit_history lease payload)
unfolding by_memory by_postgres Memory.mark_history_committed Postgres.mark_history_committed
commit_history-Same now m t lease payload (names, once) a =
    let same = written_run-owned_record now lease m t a names in
    elim (Result-cases (owned_record lease now m)) [
      | inr (_, p) ↦ ground (arith, a, same, p)
      | inl (known, p) ↦
          let (_, found) = owned_record-Owns lease now m known p in
          let updated = history_committed known payload (some now) now in
          let stored = store-Same now m t lease.run_id known updated found refl refl refl a in
          ground (arith, same, p, once known found, stored)
    ]

reconcile-Same :
    (now : ℕ) (m : MemoryRunRepository) (t : Tables) (id : String) (payload : Option Payload)
    → Fits m (Op.reconcile_history id payload)
    → Agrees now m t
    → Same now m t (Op.reconcile_history id payload)
unfolding by_memory by_postgres Memory.reconcile_history_committed
    Postgres.reconcile_history_committed
reconcile-Same now m t id payload ends a = elim (Option-cases (lookup id m.records)) [
  | inl missing ↦ ground (arith, a, a.runs, missing)
  | inr (known, found) ↦
      let updated = history_committed known payload (or_now known.history_committed_at now) now in
      let stored = store-Same now m t id known updated found refl refl refl a in
      ground (arith, a.runs, found, ends known found, stored)
]

revoke-Same :
    (now : ℕ) (m : MemoryRunRepository) (t : Tables) (id : String)
    → Agrees now m t
    → Same now m t (Op.revoke_tokens id)
unfolding by_memory by_postgres Memory.revoke_resume_tokens Postgres.revoke_resume_tokens
revoke-Same now m t id a = elim (Option-cases (lookup id m.records)) [
  | inl missing ↦ ground (arith, a, a.runs, missing)
  | inr (known, found) ↦
      let updated = record known {
        resume_token_version = known.resume_token_version + 1;
        updated_at = some now;
      } in
      let stored = store-Same now m t id known updated found refl refl refl a in
      ground (arith, a.runs, found, stored)
]

pub step-Same :
    (now : ℕ) (m : MemoryRunRepository) (t : Tables) (op : Op)
    → Fits m op
    → Agrees now m t
    → Same now m t op
unfolding by_memory by_postgres
step-Same now m t (Op.create identity) f a = create-Same now m t identity a
step-Same now m t (Op.acquire identity owner ttl) f a = acquire-Same now m t identity owner ttl f a
step-Same now m t (Op.renew lease ttl) f a = renew-Same now m t lease ttl a
step-Same now m t (Op.release lease) f a = (refl, released-Agrees now lease m t a)
step-Same now m t (Op.end_run lease e) f a = end_run-Same now m t lease e f a
step-Same now m t (Op.commit_history lease payload) f a =
    commit_history-Same now m t lease payload f a
step-Same now m t (Op.reconcile_history id payload) f a = reconcile-Same now m t id payload f a
step-Same now m t (Op.revoke_tokens id) f a = revoke-Same now m t id a
