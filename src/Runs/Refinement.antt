-- ===== src/Runs/Refinement.antt =====
-- run_repository.py: MemoryRunRepository and PostgresRunRepository side by side, with one reading of
-- the clock for each operation.
pub mod Updates
pub mod Grants
pub mod Steps
pub mod Run
mod Tests
use langchain_langraph_app_l.Prelude.{
  ℕ, ◌≤◌, ◌≡◌, ◌≢◌, String, Bool, true, false, Option, none, some, List, [], ◌∷◌, Result, ok, err,
}
use langchain_langraph_app_l.Prelude.Dict.{lookup}
use langchain_langraph_app_l.Runs.{
  Payload, RunRecord, RunLease, RunIdentity, RunError, MemoryRunRepository, is_terminal,
  validate_identity,
}
use langchain_langraph_app_l.Runs.Memory.{Done, Ending, nonempty_payload, token_of}
use langchain_langraph_app_l.Runs.Memory
use langchain_langraph_app_l.Runs.Postgres.{Tables, Answer, completes}
use langchain_langraph_app_l.Runs.Postgres
use langchain_langraph_app_l.Runs.Leases.{IsConsistent}

pub data Op : Type 0 where
  create : RunIdentity → Op
  acquire : RunIdentity → String → ℕ → Op
  renew : RunLease → ℕ → Op
  release : RunLease → Op
  end_run : RunLease → Ending → Op
  commit_history : RunLease → Option Payload → Op
  reconcile_history : String → Option Payload → Op
  revoke_tokens : String → Op

pub data Reply : Type 0 where
  created : RunRecord → Bool → Reply
  leased : RunLease → Reply
  recorded : RunRecord → Reply
  version : ℕ → Reply
  released : Reply
  refused : RunError → Reply

-- The reply and the new state; an exception leaves the state alone.
abbrev pub answer {ℓ κ} :
    {A : Type ℓ} {S : Type κ} → (A → Reply) → S → Result RunError (A × S) → Reply × S
answer f s (ok (a, s')) = (f a, s')
answer f s (err e) = (refused e, s)

unfoldable pub by_memory : Op → ℕ → MemoryRunRepository → Reply × MemoryRunRepository
by_memory (create identity) now m =
    answer (λ x. created x.0 x.1) m (Memory.create_or_get identity now m)
by_memory (acquire identity owner ttl) now m =
    answer leased m (Memory.acquire identity owner ttl now m)
by_memory (renew lease ttl) now m = answer leased m (Memory.renew lease ttl now now now m)
by_memory (release lease) now m = (released, Memory.release lease m)
by_memory (end_run lease e) now m = answer recorded m (Memory.mark_terminal lease e now now m)
by_memory (commit_history lease payload) now m =
    answer recorded m (Memory.mark_history_committed lease payload now now now m)
by_memory (reconcile_history run_id payload) now m =
    answer recorded m (Memory.reconcile_history_committed run_id payload now now m)
by_memory (revoke_tokens run_id) now m = answer version m (Memory.revoke_resume_tokens run_id now m)

unfoldable pub by_postgres : Op → ℕ → Tables → Reply × Tables
by_postgres (create identity) now t =
    answer (λ x. created x.0 x.1) t (Postgres.create_or_get identity now t)
by_postgres (acquire identity owner ttl) now t =
    answer leased t (Postgres.acquire identity owner ttl now t)
by_postgres (renew lease ttl) now t = answer leased t (Postgres.renew lease ttl now t)
by_postgres (release lease) now t = (released, Postgres.release lease now t)
by_postgres (end_run lease e) now t = answer recorded t (Postgres.mark_terminal lease e now t)
by_postgres (commit_history lease payload) now t =
    answer recorded t (Postgres.mark_history_committed lease payload now t)
by_postgres (reconcile_history run_id payload) now t =
    answer recorded t (Postgres.reconcile_history_committed run_id payload now t)
by_postgres (revoke_tokens run_id) now t =
    answer version t (Postgres.revoke_resume_tokens run_id now t)

abbrev pub row_token : Option RunLease → ℕ
row_token none = 0
row_token (some row) = row.fencing_token

-- A lease that was given back has a row that has expired.
abbrev pub RowOf : ℕ → Option RunLease → Option RunLease → Type 0
RowOf now (some lease) row = row ≡ some lease
RowOf now none none = Unit
RowOf now none (some row) = row.expires_at ≤ now

-- The token and the owner that a run's record shows.
abbrev pub holder_of : Option RunRecord → Option (Option ℕ × Option String)
holder_of none = none
holder_of (some known) = some (known.fencing_token, known.lease_owner)

pub record Agrees (now : ℕ) (m : MemoryRunRepository) (t : Tables) : Type 0 where
  pub consistent : IsConsistent m
  pub runs : t.app_runs ≡ m.records
  pub tokens :
      (c : String) → row_token (lookup c t.app_conversation_leases) ≡ token_of (lookup c m.fencing)
  pub rows : (c : String) → RowOf now (lookup c m.leases) (lookup c t.app_conversation_leases)
  pub holders :
      (c : String) (l : RunLease)
      → lookup c m.leases ≡ some l
      → holder_of (lookup l.run_id m.records) ≡ some (some l.fencing_token, some l.owner_id)

-- The lease names the conversation of its run.
abbrev pub Names : MemoryRunRepository → RunLease → Type 0
Names m lease =
    (known : RunRecord)
    → lookup lease.run_id m.records ≡ some known
    → known.conversation_id ≡ lease.conversation_id

-- The calls on which the two are meant to agree, which are those that the chat runtime makes: a run
-- is recorded before it is leased, an outcome has a payload that is not empty and a status that an
-- execution ends with, history is committed once, and only a run that has ended is reconciled.
abbrev pub Fits : MemoryRunRepository → Op → Type 0
Fits m (acquire identity owner ttl) =
    (known : RunRecord) × (lookup identity.run_id m.records ≡ some known)
    × (validate_identity known identity ≡ ok tt)
Fits m (end_run lease e) =
    Names m lease
    × (nonempty_payload e.response_payload ≡ e.response_payload)
    × (completes e.status ≡ is_terminal e.status)
Fits m (commit_history lease payload) =
    Names m lease
    × ((known : RunRecord)
        → lookup lease.run_id m.records ≡ some known
        → known.history_committed_at ≡ none)
Fits m (reconcile_history run_id payload) =
    (known : RunRecord) → lookup run_id m.records ≡ some known → completes known.status ≡ true
Fits m _ = Unit
