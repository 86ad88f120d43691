-- ===== src/Runs/Memory.antt =====
-- app/state/run_repository.py: the operations of MemoryRunRepository.
use langchain_langraph_app_l.Prelude.{
  ℕ, ◌+◌, String, ◌∷◌, Bool, true, false, not, ◌&&◌, ◌==◌, leb, Option, none, some, str_eq,
  if◌then◌else◌, Result, ok, err, ◌>>=◌,
}
use langchain_langraph_app_l.Prelude.Dict.{lookup, put, remove}
use langchain_langraph_app_l.Runs.{
  RunStatus, pending, running, is_terminal, Payload, RunRecord, RunLease, RunIdentity, RunError,
  no_record, conversation_busy, stale_lease, key_error, MemoryRunRepository, validate_identity,
}

abbrev pub Done {ℓ} : Type ℓ → Type ℓ
Done A = Result RunError (A × MemoryRunRepository)

abbrev pub new_record : RunIdentity → ℕ → RunRecord
new_record identity now = record {
  run_id = identity.run_id;
  conversation_id = identity.conversation_id;
  execution_thread_id = identity.execution_thread_id;
  request_hash = identity.request_hash;
  request_hash_version = identity.request_hash_version;
  state_schema_version = identity.state_schema_version;
  status = pending;
  fencing_token = none;
  lease_owner = none;
  lease_expires_at = none;
  checkpoint_id = none;
  response_payload = none;
  termination_reason = none;
  error_code = none;
  created_at = some now;
  updated_at = some now;
  started_at = none;
  completed_at = none;
  history_committed_at = none;
  resume_token_version = identity.resume_token_version;
}

-- `self._records[run_id] = updated`
abbrev pub store : String → RunRecord → MemoryRunRepository → MemoryRunRepository
store run_id updated r = record r { records = put run_id updated r.records }

unfoldable pub create_or_get : RunIdentity → ℕ → MemoryRunRepository → Done (RunRecord × Bool)
create_or_get identity now r = elim (lookup identity.run_id r.records) [
  | some known ↦ validate_identity known identity >>= λ _. ok ((known, false), r)
  | none ↦ ok ((new_record identity now, true), store identity.run_id (new_record identity now) r)
]

abbrev pub get : String → MemoryRunRepository → Option RunRecord
get run_id r = lookup run_id r.records

-- `current is not None and current.expires_at > now`
abbrev pub is_held : Option RunLease → ℕ → Bool
is_held none now = false
is_held (some current) now = not (leb current.expires_at now)

-- `self._fencing.get(conversation_id, 0)`
abbrev pub token_of : Option ℕ → ℕ
token_of none = 0
token_of (some token) = token

abbrev pub new_lease : RunIdentity → String → ℕ → ℕ → ℕ → RunLease
new_lease identity owner ttl token now = record {
  conversation_id = identity.conversation_id;
  run_id = identity.run_id;
  owner_id = owner;
  fencing_token = token;
  expires_at = now + ttl;
}

-- `started_at or now`
abbrev pub or_now : Option ℕ → ℕ → Option ℕ
or_now none now = some now
or_now (some t) now = some t

abbrev pub taken : RunRecord → RunLease → ℕ → RunRecord
taken known lease now = record known {
  status = running;
  fencing_token = some lease.fencing_token;
  lease_owner = some lease.owner_id;
  lease_expires_at = some lease.expires_at;
  started_at = or_now known.started_at now;
  updated_at = some now;
}

-- The two tables of leases and tokens, and the record, after a lease was granted.
abbrev pub granted : RunLease → RunRecord → ℕ → MemoryRunRepository → MemoryRunRepository
granted lease known now r = record r {
  records = put lease.run_id (taken known lease now) r.records;
  leases = put lease.conversation_id lease r.leases;
  fencing = put lease.conversation_id lease.fencing_token r.fencing;
}

unfoldable pub acquire : RunIdentity → String → ℕ → ℕ → MemoryRunRepository → Done RunLease
acquire identity owner ttl now r = elim (lookup identity.run_id r.records) [
  | none ↦ err no_record
  | some known ↦ validate_identity known identity >>= λ _.
      let token = token_of (lookup identity.conversation_id r.fencing) + 1 in
      let lease = new_lease identity owner ttl token now in
      if is_held (lookup identity.conversation_id r.leases) now
      then err conversation_busy
      else ok (lease, granted lease known now r)
]

abbrev pub same_owner : RunLease → RunLease → Bool
same_owner current supplied =
    str_eq current.conversation_id supplied.conversation_id
    && (str_eq current.run_id supplied.run_id
        && (str_eq current.owner_id supplied.owner_id
            && current.fencing_token == supplied.fencing_token))

-- `_assert_lease`, as its condition.
abbrev pub owns : Option RunLease → RunLease → ℕ → Bool
owns none lease now = false
owns (some current) lease now = same_owner current lease && not (leb current.expires_at now)

-- `_assert_lease`, and the run's record.
unfoldable pub owned_record : RunLease → ℕ → MemoryRunRepository → Result RunError RunRecord
owned_record lease now r =
    if owns (lookup lease.conversation_id r.leases) lease now
    then elim (lookup lease.run_id r.records) [ none ↦ err key_error | some known ↦ ok known ]
    else err stale_lease

-- The two readings of the clock behind `_assert_lease` are the second and the third one.
unfoldable pub renew : RunLease → ℕ → ℕ → ℕ → ℕ → MemoryRunRepository → Done RunLease
unfolding owned_record
renew lease ttl now now' now'' r =
    let renewed = record lease { expires_at = now' + ttl } in
    owned_record lease now r >>= λ known. ok (
      renewed,
      store lease.run_id
          (record known { lease_expires_at = some renewed.expires_at; updated_at = some now'' })
          (record r { leases = put lease.conversation_id renewed r.leases }),
    )

unfoldable pub release : RunLease → MemoryRunRepository → MemoryRunRepository
release lease r = elim (lookup lease.conversation_id r.leases) [
  | none ↦ r
  | some current ↦
      if same_owner current lease
      then record r { leases = remove lease.conversation_id r.leases }
      else r
]

-- What `mark_terminal` is told of the run; an empty payload is stored as none.
pub record Ending : Type 0 where
  pub status : RunStatus
  pub response_payload : Option Payload
  pub termination_reason : Option String
  pub error_code : Option String
  pub checkpoint_id : Option String

abbrev pub nonempty_payload : Option Payload → Option Payload
nonempty_payload (some (x ∷ xs)) = some (x ∷ xs)
nonempty_payload _ = none

abbrev pub ended : RunRecord → Ending → ℕ → RunRecord
ended known e now = record known {
  status = e.status;
  response_payload = nonempty_payload e.response_payload;
  termination_reason = e.termination_reason;
  error_code = e.error_code;
  checkpoint_id = e.checkpoint_id;
  completed_at = if is_terminal e.status then some now else none;
  updated_at = some now;
}

unfoldable pub mark_terminal : RunLease → Ending → ℕ → ℕ → MemoryRunRepository → Done RunRecord
unfolding owned_record
mark_terminal lease e now now' r = owned_record lease now r >>= λ known.
    ok (ended known e now', store lease.run_id (ended known e now') r)

abbrev pub or_payload : Option Payload → Option Payload → Option Payload
or_payload none old = old
or_payload (some new) old = some new

abbrev pub history_committed : RunRecord → Option Payload → Option ℕ → ℕ → RunRecord
history_committed known payload at now = record known {
  response_payload = or_payload payload known.response_payload;
  history_committed_at = at;
  updated_at = some now;
}

unfoldable pub mark_history_committed :
    RunLease → Option Payload → ℕ → ℕ → ℕ → MemoryRunRepository → Done RunRecord
unfolding owned_record
mark_history_committed lease payload now now' now'' r = owned_record lease now r >>= λ known.
    let updated = history_committed known payload (some now') now'' in
    ok (updated, store lease.run_id updated r)

unfoldable pub reconcile_history_committed :
    String → Option Payload → ℕ → ℕ → MemoryRunRepository → Done RunRecord
reconcile_history_committed run_id payload now now' r = elim (lookup run_id r.records) [
  | none ↦ err no_record
  | some known ↦
      let updated = history_committed known payload (or_now known.history_committed_at now) now' in
      ok (updated, store run_id updated r)
]

unfoldable pub revoke_resume_tokens : String → ℕ → MemoryRunRepository → Done ℕ
revoke_resume_tokens run_id now r = elim (lookup run_id r.records) [
  | none ↦ err no_record
  | some known ↦
      let version = known.resume_token_version + 1 in
      let updated = record known { resume_token_version = version; updated_at = some now } in
      ok (version, store run_id updated r)
]
