-- ===== src/Runs/Calls.antt =====
-- run_repository.py: sequences of calls of MemoryRunRepository. Its lock makes any interleaving of the
-- requests such a sequence.
use langchain_langraph_app_l.Prelude.{ℕ, String, List, [], ◌∷◌, Option, ok, err}
use langchain_langraph_app_l.Runs.{
  Payload, RunLease, RunIdentity, MemoryRunRepository, start, aclose,
}
use langchain_langraph_app_l.Runs.Memory.{
  Done, Ending, create_or_get, acquire, renew, release, mark_terminal, mark_history_committed,
  reconcile_history_committed, revoke_resume_tokens,
}

pub data Call : Type 0 where
  start_call aclose_call : Call
  create : RunIdentity → ℕ → Call
  acquire_lease : RunIdentity → String → ℕ → ℕ → Call
  renew_lease : RunLease → ℕ → ℕ → ℕ → ℕ → Call
  release_lease : RunLease → Call
  end_run : RunLease → Ending → ℕ → ℕ → Call
  commit_history : RunLease → Option Payload → ℕ → ℕ → ℕ → Call
  reconcile_history : String → Option Payload → ℕ → ℕ → Call
  revoke_tokens : String → ℕ → Call

-- The object after a call, which a raise leaves alone.
abbrev pub after {ℓ} : {A : Type ℓ} → MemoryRunRepository → Done A → MemoryRunRepository
after r (ok (a, r')) = r'
after r (err e) = r

unfoldable pub perform : Call → MemoryRunRepository → MemoryRunRepository
perform start_call r = start r
perform aclose_call r = aclose r
perform (create identity now) r = after r (create_or_get identity now r)
perform (acquire_lease identity owner ttl now) r = after r (acquire identity owner ttl now r)
perform (renew_lease lease ttl now now' now'') r = after r (renew lease ttl now now' now'' r)
perform (release_lease lease) r = release lease r
perform (end_run lease e now now') r = after r (mark_terminal lease e now now' r)
perform (commit_history lease payload now now' now'') r =
    after r (mark_history_committed lease payload now now' now'' r)
perform (reconcile_history run_id payload now now') r =
    after r (reconcile_history_committed run_id payload now now' r)
perform (revoke_tokens run_id now) r = after r (revoke_resume_tokens run_id now r)

unfoldable pub perform_all : List Call → MemoryRunRepository → MemoryRunRepository
perform_all [] r = r
perform_all (c ∷ cs) r = perform_all cs (perform c r)
