-- ===== src/Chat/Execution.antt =====
-- chat_runtime.py: the execution of a run under the heartbeat of its lease.
use Prim.Native.String.{◌++◌}
use langchain_langraph_app_l.Prelude.{
  ℕ, String, List, [], ◌∷◌, Bool, true, false, Option, none, some, Result, ok, err, str_eq,
  if◌then◌else◌,
}
use langchain_langraph_app_l.Runs.{RunStatus, RunLease}
use langchain_langraph_app_l.Runs.Memory
use langchain_langraph_app_l.Runs.Calls.{perform_all}
use langchain_langraph_app_l.Conversations
use langchain_langraph_app_l.Chat.{
  Request, ChatResponse, Exception, run_error, World, Act, ◌>>=◌, ◌>>◌, pure, raise, inc, Point,
  Beat, GraphOutcome, Outside, interfere,
}

-- `_RunExecution`
pub record RunExecution : Type 0 where
  pub response : ChatResponse
  pub status : RunStatus
  pub termination_reason : Option String
  pub error_code : Option String

-- The entries of the graph's result that `_execute_run` reads.
pub record GraphResult : Type 0 where
  pub response : String
  pub is_failed : Bool
  pub termination_reason : Option String
  pub error_code : Option String

-- `_fallback_message`
abbrev pub fallback_message : String → String
fallback_message reason =
    "Execution stopped safely before a verified answer could be produced: " ++ reason ++ "."

-- `_safe_failure_result`
abbrev pub safe_failure_result : String → String → GraphResult
safe_failure_result reason error_code = record {
  response = fallback_message reason;
  is_failed = true;
  termination_reason = some reason;
  error_code = some error_code;
}

-- `_invoke_graph_safely`
unfoldable pub invoke_graph_safely : GraphOutcome → Act GraphResult
invoke_graph_safely (GraphOutcome.returned response is_failed reason code) = pure (record {
  response = response;
  is_failed = is_failed;
  termination_reason = reason;
  error_code = code;
})
invoke_graph_safely (GraphOutcome.budget_exceeded reason) = do
  inc "graph.unhandled_budget_exhausted"
  pure (safe_failure_result reason "budget_exhausted")
invoke_graph_safely (GraphOutcome.structured_output_error schema attempts) = do
  inc "graph.unhandled_structured_output_error"
  pure (
      safe_failure_result
        ("structured output failed for " ++ schema ++ " after " ++ attempts
          ++ " bounded attempt(s)")
        "structured_output_failed")
invoke_graph_safely GraphOutcome.graph_cancelled = raise Exception.cancelled
invoke_graph_safely (GraphOutcome.raised name) = do
  inc "graph.unhandled_runtime_error"
  pure (safe_failure_result ("agent execution failed: " ++ name) "agent_execution_failed")

-- `str(result.get("response") or self._fallback_message("empty response"))`
abbrev pub response_text : String → String
response_text text = if str_eq text "" then fallback_message "empty response" else text

abbrev pub executed : Outside → GraphResult → RunExecution
executed o result = record {
  response = record {
    response = response_text result.response;
    history_persisted = some false;
    fields = o.fields;
  };
  status = if result.is_failed then RunStatus.failed else RunStatus.completed;
  termination_reason = result.termination_reason;
  error_code = result.error_code;
}

-- `self.memory.get`
abbrev pub read_history : String → ℕ → Act (Unit {0})
read_history conversation_id now w =
    (ok tt, record w { memory = (Conversations.get conversation_id now w.memory).1 })

-- The inventory and the system prompt, or the budget's usage and the response, which may raise.
abbrev pub prepare : Result String (Unit {0}) → Act (Unit {0})
prepare (ok u) = pure u
prepare (err name) = raise (Exception.other name)

-- `_execute_run`
unfoldable pub execute_run : Request → Outside → Act RunExecution
unfolding invoke_graph_safely
execute_run request o = do
  read_history request.identity.conversation_id (o.clock Point.reading 0)
  prepare o.prepared
  inc "chat.requests"
  result ← invoke_graph_safely o.graph
  prepare o.reported
  pure (executed o result)

-- `_lease_heartbeat`: what stops it, if a renewal raises in these rounds.
unfoldable pub lease_heartbeat : ℕ → RunLease → List Beat → World → Option Exception × World
lease_heartbeat ttl lease [] w = (none, w)
lease_heartbeat ttl lease (b ∷ beats) w =
    let before = perform_all b.others w.repository in
    elim (Memory.renew lease ttl b.now b.now' b.now'' before) [
      | err e ↦ (some (run_error e), record w { repository = before })
      | ok (renewed, r) ↦
          lease_heartbeat ttl renewed beats
            (record w { repository = r; metrics = "chat.lease_renewed" ∷ w.metrics })
    ]

-- What is raised or returned once the execution, or the heartbeat, is done.
abbrev pub settle :
    Result Exception RunExecution
    → Bool
    → Option Exception × World
    → Result Exception RunExecution × World
settle result is_cancelled (some e, w) = (err e, w)
settle result true (none, w) = (err Exception.cancelled, w)
settle result false (none, w) = (result, w)

-- `_execute_with_heartbeat`. The execution does not touch the run repository, and the heartbeat
-- nothing else; an execution that a failed heartbeat cancels has read the history.
unfoldable pub execute_with_heartbeat : Request → Outside → RunLease → Act RunExecution
unfolding execute_run lease_heartbeat
execute_with_heartbeat request o lease w =
    let (result, w') = execute_run request o w in
    settle result (o.is_cancelled Point.executing)
      (lease_heartbeat o.run_lease_ttl lease o.beats (interfere o Point.executing w'))
