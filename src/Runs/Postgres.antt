-- ===== src/Runs/Postgres.antt =====
-- app/state/run_repository.py: the statements of PostgresRunRepository, on the two tables that they
-- read and write. A row of app_runs has the fields of RunRecord. NOW() is the start of the
-- transaction, so each operation has one time. asyncpg, the pool and the constraint that an
-- execution_thread_id is unique are left out; UUIDs are given in the form that the database prints.
use langchain_langraph_app_l.Prelude.{
  ℕ, ◌+◌, String, [], Bool, true, false, ◌&&◌, ◌==◌, not, leb, Option, none, some, str_eq,
  if◌then◌else◌, Result, ok, err, ◌>>=◌,
}
use langchain_langraph_app_l.Prelude.Dict.{Dict, lookup, put}
use langchain_langraph_app_l.Runs.{
  RunStatus, completed, failed, cancelled, Payload, RunRecord, RunLease, RunIdentity, RunError,
  no_record, conversation_busy, stale_lease, validate_identity,
}
use langchain_langraph_app_l.Runs.Memory.{
  new_record, new_lease, taken, or_now, same_owner, Ending, history_committed,
}

-- app_conversation_leases has one row for each conversation, which is never deleted.
pub record Tables : Type 0 where
  pub app_runs : Dict RunRecord
  pub app_conversation_leases : Dict RunLease

abbrev pub empty_tables : Tables
empty_tables = record { app_runs = []; app_conversation_leases = [] }

abbrev pub Answer {ℓ} : Type ℓ → Type ℓ
Answer A = Result RunError (A × Tables)

-- UPDATE app_runs … WHERE run_id = $1
abbrev pub update_run : String → RunRecord → Tables → Tables
update_run run_id row t = record t { app_runs = put run_id row t.app_runs }

abbrev pub update_lease : RunLease → Tables → Tables
update_lease row t = record t {
  app_conversation_leases = put row.conversation_id row t.app_conversation_leases;
}

-- INSERT … ON CONFLICT (run_id) DO NOTHING, then SELECT; the record is validated outside of SQL.
unfoldable pub create_or_get : RunIdentity → ℕ → Tables → Answer (RunRecord × Bool)
create_or_get identity now t = elim (lookup identity.run_id t.app_runs) [
  | some row ↦ validate_identity row identity >>= λ _. ok ((row, false), t)
  | none ↦ validate_identity (new_record identity now) identity >>= λ _.
      ok ((new_record identity now, true), update_run identity.run_id (new_record identity now) t)
]

-- The row that INSERT … ON CONFLICT (conversation_id) DO UPDATE … WHERE lease_expires_at <= NOW()
-- returns, if it returns one.
abbrev pub taken_row : Option RunLease → RunIdentity → String → ℕ → ℕ → Option RunLease
taken_row none identity owner ttl now = some (new_lease identity owner ttl 1 now)
taken_row (some row) identity owner ttl now =
    if leb row.expires_at now
    then some (new_lease identity owner ttl (row.fencing_token + 1) now)
    else none

-- Both statements are one transaction, so an exception of the second one undoes the first.
unfoldable pub acquire : RunIdentity → String → ℕ → ℕ → Tables → Answer RunLease
acquire identity owner ttl now t =
    elim (taken_row (lookup identity.conversation_id t.app_conversation_leases) identity owner ttl
      now) [
        | none ↦ err conversation_busy
        | some row ↦ elim (lookup identity.run_id t.app_runs) [
          | none ↦ err no_record
          | some known ↦
              ok (row, update_run identity.run_id (taken known row now) (update_lease row t))
        ]
      ]

-- WHERE conversation_id = $1 AND run_id = $2 AND lease_owner = $3 AND fencing_token = $4 AND
-- lease_expires_at > NOW()
abbrev pub held_row : Option RunLease → RunLease → ℕ → Bool
held_row none lease now = false
held_row (some row) lease now = same_owner row lease && not (leb row.expires_at now)

abbrev pub same_token : Option ℕ → ℕ → Bool
same_token none token = false
same_token (some n) token = n == token

abbrev pub same_text_value : Option String → String → Bool
same_text_value none s = false
same_text_value (some t) s = str_eq t s

-- UPDATE app_runs SET lease_expires_at … WHERE run_id = $1 AND fencing_token = $3
unfoldable pub renew_run : RunLease → ℕ → ℕ → Tables → Tables
renew_run lease expiry now t = elim (lookup lease.run_id t.app_runs) [
  | none ↦ t
  | some known ↦
      if same_token known.fencing_token lease.fencing_token
      then update_run lease.run_id
          (record known { lease_expires_at = some expiry; updated_at = some now }) t
      else t
]

unfoldable pub renew : RunLease → ℕ → ℕ → Tables → Answer RunLease
unfolding renew_run
renew lease ttl now t =
    if held_row (lookup lease.conversation_id t.app_conversation_leases) lease now
    then ok (
      record lease { expires_at = now + ttl },
      renew_run lease (now + ttl) now (update_lease (record lease { expires_at = now + ttl }) t),
    )
    else err stale_lease

unfoldable pub release : RunLease → ℕ → Tables → Tables
release lease now t = elim (lookup lease.conversation_id t.app_conversation_leases) [
  | none ↦ t
  | some row ↦ if same_owner row lease then update_lease (record row { expires_at = now }) t else t
]

-- WHERE run_id = $1 AND lease_owner = $2 AND fencing_token = $3 AND EXISTS (…), for the row of the run.
abbrev pub writes : RunRecord → RunLease → ℕ → Tables → Bool
writes known lease now t =
    same_text_value known.lease_owner lease.owner_id
    && (same_token known.fencing_token lease.fencing_token
        && held_row (lookup known.conversation_id t.app_conversation_leases)
            (record lease { conversation_id = known.conversation_id }) now)

unfoldable pub written_run : RunLease → ℕ → Tables → Result RunError RunRecord
written_run lease now t = elim (lookup lease.run_id t.app_runs) [
  | none ↦ err stale_lease
  | some known ↦ if writes known lease now t then ok known else err stale_lease
]

-- CASE WHEN $4 IN ('completed', 'failed', 'cancelled') THEN NOW() ELSE NULL END
abbrev pub completes : RunStatus → Bool
completes completed = true
completes failed = true
completes cancelled = true
completes _ = false

abbrev pub ended : RunRecord → Ending → ℕ → RunRecord
ended known e now = record known {
  status = e.status;
  response_payload = e.response_payload;
  termination_reason = e.termination_reason;
  error_code = e.error_code;
  checkpoint_id = e.checkpoint_id;
  completed_at = if completes e.status then some now else none;
  updated_at = some now;
}

unfoldable pub mark_terminal : RunLease → Ending → ℕ → Tables → Answer RunRecord
unfolding written_run
mark_terminal lease e now t = written_run lease now t >>= λ known.
    ok (ended known e now, update_run lease.run_id (ended known e now) t)

unfoldable pub mark_history_committed : RunLease → Option Payload → ℕ → Tables → Answer RunRecord
unfolding written_run
mark_history_committed lease payload now t = written_run lease now t >>= λ known.
    let updated = history_committed known payload (or_now known.history_committed_at now) now in
    ok (updated, update_run lease.run_id updated t)

unfoldable pub reconcile_history_committed : String → Option Payload → ℕ → Tables → Answer RunRecord
reconcile_history_committed run_id payload now t = elim (lookup run_id t.app_runs) [
  | none ↦ err no_record
  | some known ↦
      let updated = history_committed known payload (or_now known.history_committed_at now) now in
      if completes known.status then ok (updated, update_run run_id updated t) else err no_record
]

unfoldable pub revoke_resume_tokens : String → ℕ → Tables → Answer ℕ
revoke_resume_tokens run_id now t = elim (lookup run_id t.app_runs) [
  | none ↦ err no_record
  | some known ↦
      let version = known.resume_token_version + 1 in
      ok (
        version,
        update_run run_id (record known { resume_token_version = version; updated_at = some now })
            t,
      )
]
