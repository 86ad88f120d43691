-- ===== src/Runs/Contract.antt =====
-- run_repository.py: the conditions of `acquire` and `mark_terminal`, and reading a record back.
use langchain_langraph_app_l.Prelude.{
  ℕ, ◌≤◌, ◌<◌, ◌≡◌, ◌≢◌, ◌↔◌, inl, inr, refl, String, Option, none, true, false, some, eq_iff, ok,
  is_ok, arith, Option-cases, Result-cases,
}
use langchain_langraph_app_l.Prelude.Dict.{lookup, lookup-put}
use langchain_langraph_app_l.Runs.{
  RunRecord, RunLease, RunIdentity, MemoryRunRepository, validate_identity,
}
use langchain_langraph_app_l.Runs.Memory.{
  Ending, get, create_or_get, is_held, acquire, owns, owned_record, mark_terminal, ended,
}
use langchain_langraph_app_l.Runs.Leases.{IsConsistent, owns-fields}

-- The record is of the identity's run: same conversation, execution, request and schema.
pub record Matches (known : RunRecord) (identity : RunIdentity) : Type 0 where
  pub conversation : known.conversation_id ≡ identity.conversation_id
  pub execution : known.execution_thread_id ≡ identity.execution_thread_id
  pub request : known.request_hash ≡ identity.request_hash
  pub request_version : known.request_hash_version ≡ identity.request_hash_version
  pub schema : known.state_schema_version ≡ identity.state_schema_version

validate_identity-Matches :
    (known : RunRecord) (identity : RunIdentity)
    → validate_identity known identity ≡ ok tt
    → Matches known identity
unfolding validate_identity
validate_identity-Matches known identity h = ground (
  arith,
  eq_iff known.conversation_id identity.conversation_id,
  eq_iff known.execution_thread_id identity.execution_thread_id,
  eq_iff known.request_hash identity.request_hash,
)

Matches-validate_identity :
    (known : RunRecord) (identity : RunIdentity)
    → Matches known identity
    → validate_identity known identity ≡ ok tt
unfolding validate_identity
Matches-validate_identity known identity m = ground (
  arith,
  eq_iff known.conversation_id identity.conversation_id,
  eq_iff known.execution_thread_id identity.execution_thread_id,
  eq_iff known.request_hash identity.request_hash,
)

-- The run is recorded under this identity, and no unexpired lease is on its conversation.
pub record IsFree (r : MemoryRunRepository) (identity : RunIdentity) (now : ℕ) : Type 0 where
  pub known : RunRecord
  pub found : lookup identity.run_id r.records ≡ some known
  pub matches : Matches known identity
  pub free :
      (lease : RunLease)
      → lookup identity.conversation_id r.leases ≡ some lease
      → lease.expires_at ≤ now

held_iff_unexpired :
    (found : Option RunLease) (now : ℕ)
    → (is_held found now ≡ false)
      ↔ ((lease : RunLease) → found ≡ some lease → lease.expires_at ≤ now)
held_iff_unexpired none now = (λ h lease e. absurd (ground (arith, e)), λ h. refl)
held_iff_unexpired (some current) now =
    (λ h lease e. ground (arith, e), λ h. let k = h current refl in ground (arith, k))

acquire-IsFree :
    (identity : RunIdentity) (owner : String) (ttl now : ℕ) (r : MemoryRunRepository)
    → is_ok (acquire identity owner ttl now r) ≡ true
    → IsFree r identity now
unfolding acquire
acquire-IsFree identity owner ttl now r h = elim (Option-cases (lookup identity.run_id r.records)) [
  | inl e ↦ absurd (ground (arith, e))
  | inr (known, e) ↦ elim (Result-cases (validate_identity known identity)) [
    | inl (u, p) ↦ record {
      known = known;
      found = e;
      matches = validate_identity-Matches known identity p;
      free =
          (held_iff_unexpired (lookup identity.conversation_id r.leases) now).0
            (ground (arith, e, p));
    }
    | inr (x, p) ↦ absurd (ground (arith, e, p))
  ]
]

IsFree-acquire :
    (identity : RunIdentity) (owner : String) (ttl now : ℕ) (r : MemoryRunRepository)
    → IsFree r identity now
    → is_ok (acquire identity owner ttl now r) ≡ true
unfolding acquire
IsFree-acquire identity owner ttl now r f =
    let not_held = (held_iff_unexpired (lookup identity.conversation_id r.leases) now).1 f.free in
    ground (arith, f.found, Matches-validate_identity f.known identity f.matches, not_held)

-- A run is granted its conversation exactly when it is recorded under the same conversation,
-- execution, request and schema, and no lease on the conversation is unexpired.
pub acquire_iff :
    (identity : RunIdentity) (owner : String) (ttl now : ℕ) (r : MemoryRunRepository)
    → (is_ok (acquire identity owner ttl now r) ≡ true) ↔ IsFree r identity now
acquire_iff identity owner ttl now r =
    (acquire-IsFree identity owner ttl now r, IsFree-acquire identity owner ttl now r)

ok_owned :
    (lease : RunLease) (e : Ending) (now now' : ℕ) (r : MemoryRunRepository)
    → is_ok (mark_terminal lease e now now' r) ≡ true
    → owns (lookup lease.conversation_id r.leases) lease now ≡ true
unfolding mark_terminal owned_record
ok_owned lease e now now' r h = ground arith

owned_ok :
    (lease : RunLease) (e : Ending) (now now' : ℕ) (r : MemoryRunRepository)
    → IsConsistent r
    → owns (lookup lease.conversation_id r.leases) lease now ≡ true
    → is_ok (mark_terminal lease e now now' r) ≡ true
unfolding mark_terminal owned_record
owned_ok lease e now now' r h p =
    let (current, found, run, _) =
      owns-fields (lookup lease.conversation_id r.leases) lease now p in
    let recorded = h.has_run lease.conversation_id current found in
    elim (Option-cases (lookup lease.run_id r.records)) [
      | inl missing ↦ absurd (ground (arith, missing, recorded, run))
      | inr (known, q) ↦ ground (arith, q)
    ]

-- The conversation's lease is for the same run, owner and token, and is unexpired.
pub record IsCurrent (r : MemoryRunRepository) (lease : RunLease) (now : ℕ) : Type 0 where
  pub current : RunLease
  pub found : lookup lease.conversation_id r.leases ≡ some current
  pub conversation : current.conversation_id ≡ lease.conversation_id
  pub run : current.run_id ≡ lease.run_id
  pub owner : current.owner_id ≡ lease.owner_id
  pub token : current.fencing_token ≡ lease.fencing_token
  pub unexpired : now < current.expires_at

owns-IsCurrent :
    (lease : RunLease) (now : ℕ) (r : MemoryRunRepository)
    → owns (lookup lease.conversation_id r.leases) lease now ≡ true
    → IsCurrent r lease now
owns-IsCurrent lease now r h = elim (Option-cases (lookup lease.conversation_id r.leases)) [
  | inl e ↦ absurd (ground (arith, e))
  | inr (current, e) ↦ record {
    current = current;
    found = e;
    conversation = ground (arith, e, eq_iff current.conversation_id lease.conversation_id);
    run = ground (arith, e, eq_iff current.run_id lease.run_id);
    owner = ground (arith, e, eq_iff current.owner_id lease.owner_id);
    token = ground (arith, e);
    unexpired = ground (arith, e);
  }
]

IsCurrent-owns :
    (lease : RunLease) (now : ℕ) (r : MemoryRunRepository)
    → IsCurrent r lease now
    → owns (lookup lease.conversation_id r.leases) lease now ≡ true
IsCurrent-owns lease now r c = ground (
  arith,
  c.found,
  eq_iff c.current.conversation_id lease.conversation_id,
  eq_iff c.current.run_id lease.run_id,
  eq_iff c.current.owner_id lease.owner_id,
)

-- In a consistent repository the outcome of a run is persisted exactly when its lease is that of its
-- conversation, with the same run, owner and token, and is unexpired.
pub mark_terminal_iff :
    (lease : RunLease) (e : Ending) (now now' : ℕ) (r : MemoryRunRepository)
    → IsConsistent r
    → (is_ok (mark_terminal lease e now now' r) ≡ true) ↔ IsCurrent r lease now
mark_terminal_iff lease e now now' r h = (
  λ p. owns-IsCurrent lease now r (ok_owned lease e now now' r p),
  λ c. owned_ok lease e now now' r h (IsCurrent-owns lease now r c),
)

create_or_get-found :
    (identity : RunIdentity) (known : RunRecord) (now : ℕ) (r : MemoryRunRepository)
    → Matches known identity
    → lookup identity.run_id r.records ≡ some known
    → create_or_get identity now r ≡ ok ((known, false), r)
unfolding create_or_get
create_or_get-found identity known now r m e =
    ground (arith, e, Matches-validate_identity known identity m)

-- When `mark_terminal` returns, `get` and, for an identity that the record matches, `create_or_get`
-- give back the record that it returned, and no other record, no lease and no token has changed.
pub mark_terminal-get :
    (identity : RunIdentity) (lease : RunLease) (e : Ending) (now now' now'' : ℕ)
    (r r' : MemoryRunRepository) (updated : RunRecord)
    → mark_terminal lease e now now' r ≡ ok (updated, r')
    → identity.run_id ≡ lease.run_id
    → Matches updated identity
    → (get lease.run_id r' ≡ some updated)
      × (create_or_get identity now'' r' ≡ ok ((updated, false), r'))
      × ((id : String) → id ≢ lease.run_id → get id r' ≡ get id r)
      × (r'.leases ≡ r.leases)
      × (r'.fencing ≡ r.fencing)
unfolding mark_terminal
mark_terminal-get identity lease e now now' now'' r r' updated h same m =
    elim (Result-cases (owned_record lease now r)) [
      | inl (known, p) ↦
          let new = ended known e now' in
          (
            ground (
              arith,
              p,
              lookup-put lease.run_id lease.run_id new r.records,
              eq_iff lease.run_id lease.run_id,
            ),
            create_or_get-found identity updated now'' r' m (
                ground (
                  arith,
                  p,
                  lookup-put lease.run_id lease.run_id new r.records,
                  eq_iff lease.run_id lease.run_id,
                )),
            λ id other.
                ground (arith, p, lookup-put lease.run_id id new r.records, eq_iff lease.run_id id),
            ground (arith, p),
            ground (arith, p),
          )
      | inr (x, p) ↦ absurd (ground (arith, p))
    ]
