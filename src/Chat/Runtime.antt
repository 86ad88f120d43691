-- ===== src/Chat/Runtime.antt =====
-- chat_runtime.py: a chat request from its identity to its response.
use langchain_langraph_app_l.Prelude.{
  String, Bool, true, false, not, ◌&&◌, ◌||◌, Option, none, some, Result, ok, err, if◌then◌else◌,
}
use langchain_langraph_app_l.Runs.{RunStatus, RunRecord, RunLease, stale_lease}
use langchain_langraph_app_l.Runs.Memory.{Ending}
use langchain_langraph_app_l.Runs.Memory
use langchain_langraph_app_l.Chat.{
  Request, ChatResponse, Exception, run_error, World, Act, and_then, ◌>>=◌, ◌>>◌, pure, raise, inc,
  Point, Outside, pause, call,
}
use langchain_langraph_app_l.Chat.Execution.{RunExecution, execute_with_heartbeat}
use langchain_langraph_app_l.Chat.Preflight.{
  append_history_safely, checkpoint_exists_safely, Found, find_record, preflight_existing_run,
}

abbrev pub require_checkpoint : Request → Found → Bool → Act (Unit {0})
require_checkpoint request found exists =
    if request.resumed && not exists
    then raise Exception.resume_not_found
    else if not request.resumed && (request.client_supplied_run_id && (found.created && exists))
    then raise Exception.checkpoint_conflict
    else pure tt

-- Behind the preflight: whether the graph has a checkpoint that the request can start from, or must
-- not meet.
unfoldable pub known_checkpoint : Request → Outside → Found → Act Bool
unfolding pause checkpoint_exists_safely
known_checkpoint request o found = elim found.checkpoint_exists [
  | some exists ↦ pure exists
  | none ↦
      (pause o Point.checking
        >> checkpoint_exists_safely o
            (request.resumed || (request.client_supplied_run_id && not found.created)))
]

unfoldable pub check_checkpoint : Request → Outside → Found → Act (Unit {0})
unfolding known_checkpoint
check_checkpoint request o found =
    known_checkpoint request o found >>= require_checkpoint request found

abbrev pub ending_of : Outside → RunExecution → Ending
ending_of o execution = record {
  status = execution.status;
  response_payload = some (o.codec.dump execution.response);
  termination_reason = execution.termination_reason;
  error_code = execution.error_code;
  checkpoint_id = o.checkpoint_id;
}

-- The try block up to `terminal_persisted = True`.
unfoldable pub persist : Request → Outside → RunLease → Act RunExecution
unfolding pause execute_with_heartbeat
persist request o lease = do
  execution ← execute_with_heartbeat request o lease
  pause o Point.inspecting
  pause o Point.ending
  call (
      Memory.mark_terminal lease (ending_of o execution) (o.clock Point.ending 0)
        (o.clock Point.ending 1))
  pure execution

-- The rest of the try block, and its part behind the try to append the turn.
abbrev pub mark_history : Outside → RunLease → RunExecution → Act RunRecord
mark_history o lease execution = call (
    Memory.mark_history_committed lease
      (some (o.codec.dump (record execution.response { history_persisted = some true })))
      (o.clock Point.committing 0) (o.clock Point.committing 1) (o.clock Point.committing 2))

unfoldable pub note_history : Outside → RunLease → RunExecution → Bool → Act ChatResponse
unfolding pause
note_history o lease execution false =
    pure (record execution.response { history_persisted = some false })
note_history o lease execution true = do
  pause o Point.committing
  mark_history o lease execution
  pure (record execution.response { history_persisted = some true })

unfoldable pub commit_history : Request → Outside → RunLease → RunExecution → Act ChatResponse
unfolding pause append_history_safely note_history
commit_history request o lease execution = do
  pause o Point.appending
  persisted ← append_history_safely request execution.response.response (o.clock Point.appending 0)
  note_history o lease execution persisted

abbrev pub interruption : String → Ending
interruption code = record {
  status = RunStatus.interrupted;
  response_payload = none;
  termination_reason = some code;
  error_code = some code;
  checkpoint_id = none;
}

-- `_mark_interrupted_safely`
abbrev pub swallow {ℓ} :
    {A : Type ℓ} → Result Exception A × World → Result Exception (Unit {0}) × World
swallow (ok a, w) = (ok tt, w)
swallow (err (run_error stale_lease), w) = inc "chat.interrupt_stale_lease" w
swallow (err e, w) = (ok tt, w)

unfoldable pub mark_interrupted_safely : Outside → RunLease → String → Act (Unit {0})
unfolding pause
mark_interrupted_safely o lease code = do
  pause o Point.interrupting
  λ w. swallow (
      call
        (Memory.mark_terminal lease (interruption code) (o.clock Point.interrupting 0)
          (o.clock Point.interrupting 1))
        w)

-- The except clauses, with `terminal_persisted`.
unfoldable pub handle : Outside → RunLease → Bool → Exception → Act ChatResponse
unfolding mark_interrupted_safely
handle o lease terminal_persisted Exception.cancelled = do
  mark_interrupted_safely o lease "request_cancelled"
  inc "chat.run_interrupted"
  raise Exception.cancelled
handle o lease terminal_persisted (run_error stale_lease) = do
  inc "chat.stale_lease"
  raise (run_error stale_lease)
handle o lease true e = do inc "chat.run_failed"; raise e
handle o lease false e = do
  mark_interrupted_safely o lease "runtime_interrupted"
  inc "chat.run_failed"
  raise e

abbrev pub or_handle :
    Outside
    → RunLease
    → Bool
    → Result Exception ChatResponse × World
    → Result Exception ChatResponse × World
or_handle o lease terminal_persisted (ok response, w) = (ok response, w)
or_handle o lease terminal_persisted (err e, w) = handle o lease terminal_persisted e w

abbrev pub after_persist :
    Request
    → Outside
    → RunLease
    → Result Exception RunExecution × World
    → Result Exception ChatResponse × World
after_persist request o lease (ok execution, w) =
    or_handle o lease true (commit_history request o lease execution w)
after_persist request o lease (err e, w) = handle o lease false e w

-- The finally clause.
unfoldable pub release_lease : Outside → RunLease → Act (Unit {0})
unfolding pause
release_lease o lease =
    pause o Point.releasing
    >> (λ w. (ok tt, record w { repository = Memory.release lease w.repository }))

abbrev pub finally :
    Outside
    → RunLease
    → Result Exception ChatResponse × World
    → Result Exception ChatResponse × World
finally o lease (result, w) = and_then (release_lease o lease w) (λ _ w'. (result, w'))

-- The try statement.
unfoldable pub leased_run : Request → Outside → RunLease → Act ChatResponse
unfolding persist commit_history handle release_lease
leased_run request o lease w =
    finally o lease (after_persist request o lease (persist request o lease w))

abbrev pub take_lease : Request → Outside → Act RunLease
take_lease request o = do
  pause o Point.acquiring
  call (Memory.acquire request.identity o.owner_id o.run_lease_ttl (o.clock Point.acquiring 0))

-- Behind the preflight: the stored response, or an execution under a lease.
unfoldable pub answer_found : Request → Outside → Found → Option ChatResponse → Act ChatResponse
unfolding check_checkpoint leased_run pause
answer_found request o found (some response) = pure response
answer_found request o found none = do
  check_checkpoint request o found
  lease ← take_lease request o
  leased_run request o lease

-- `_ainvoke_with_identity`, inside of the gate.
unfoldable pub ainvoke_with_identity : Request → Outside → Act ChatResponse
unfolding find_record preflight_existing_run answer_found
ainvoke_with_identity request o = do
  found ← find_record request o
  stored ← preflight_existing_run request o found
  answer_found request o found stored
