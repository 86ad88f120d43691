-- ===== src/Graph/Working.antt =====
-- app/graph.py: `_worker` and `_revise`.
use Prim.Native.String.{◌++◌}
use langchain_langraph_app_l.Prelude.{
  ◌+◌, String, Option, none, some, [], if◌then◌else◌, Result, ok, err,
}
use langchain_langraph_app_l.Meter.{ExecutionBudget}
use langchain_langraph_app_l.Graph.State.{
  WorkerResult, GraphState, Settings, Exception, validation_error, index_error, worker_invalid,
  Answers,
}
use langchain_langraph_app_l.Graph.Calls.{
  Outcome, invoke_model, within_budget, catch_structured, current_task,
}

abbrev pub echo_result : String → WorkerResult
echo_result message = record {
  answer = "Echo mode is active.\n\nMessage received: " ++ message;
  claims = [];
  assumptions = [];
  missing_information = [];
}

abbrev pub worked : GraphState → WorkerResult → GraphState
worked s w = record s { worker_result = some w; iterations = s.iterations + 1 }

abbrev pub worker_update : GraphState → Result Exception WorkerResult → Result Exception GraphState
worker_update s (ok w) = ok (worked s w)
worker_update s (err x) = catch_structured worker_invalid s x

-- `_worker`
unfoldable pub worker_node : Settings → Answers → GraphState → ExecutionBudget → Outcome
unfolding within_budget
worker_node settings a s b = within_budget b a.now s λ b. elim (current_task s) [
  | none ↦ (err index_error, b)
  | some task ↦
      if settings.ollama
      then (let (r, b') = invoke_model a.working b in (worker_update s r, b'))
      else (ok (worked s (echo_result s.message)), b)
]

abbrev pub count_revision : ExecutionBudget → ExecutionBudget
count_revision b = record b {
  state = record b.state { revision_rounds = b.state.revision_rounds + 1 };
}

abbrev pub revise_update : GraphState → Result Exception WorkerResult → Result Exception GraphState
revise_update s (ok w) = ok (worked s w)
revise_update s (err x) = err x

-- `WorkerResult.model_validate(state["worker_result"])`, which refuses an empty dictionary.
abbrev pub validated_result : Option WorkerResult → Result Exception WorkerResult
validated_result none = err validation_error
validated_result (some w) = ok w

-- `_revise`
unfoldable pub revise_node : Settings → Answers → GraphState → ExecutionBudget → Outcome
unfolding within_budget
revise_node settings a s b = within_budget (count_revision b) a.now s λ b. elim (current_task s) [
  | none ↦ (err index_error, b)
  | some task ↦
      if settings.ollama
      then (let (r, b') = invoke_model a.working b in (revise_update s r, b'))
      else (revise_update s (validated_result s.worker_result), b)
]
