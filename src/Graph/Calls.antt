-- ===== src/Graph/Calls.antt =====
-- app/graph.py: `_invoke_model`, `_check_budget`, `_current_task`, `_set_next_action` and the updates
-- that the nodes share. A node returns the new state, or the exception that leaves it, beside the
-- request's budget, which it changes in place.
use langchain_langraph_app_l.Prelude.{
  ℕ, String, Bool, ◌&&◌, not, Option, none, some, List, [], ◌∷◌, get_elem?, elem, if◌then◌else◌,
  Result, ok, err,
}
use langchain_langraph_app_l.Meter.{ExecutionBudget, check, record_logical_model_operation}
use langchain_langraph_app_l.Ollama.{Attempt, ChatError, ollama_error, interrupted, chat}
use langchain_langraph_app_l.Graph.State.{
  PlanTask, tasks, GraphState, Action, Reason, budget, Exception, structured_output, index_error,
  other, Reply, value, structured_output_error, failure, ModelCall,
}

-- What the nodes ask of other components: the router's test for external evidence, and the hash of
-- the standard library.
pub record Services : Type 0 where
  pub requires_external_evidence : String → PlanTask → Bool
  pub sha256 : String → String

abbrev pub Outcome : Type 0
Outcome = Result Exception GraphState × ExecutionBudget

-- The loop of `invoke_json` in app/agents/base.py over the models that it asks: the answers
-- before the last one did not fit the schema, and an exception of `chat` leaves it. `n` is the context
-- variable that counts the attempts.
unfoldable pub run_attempts :
    List Attempt → Option ℕ → ExecutionBudget → Result ChatError (Unit {0}) × ExecutionBudget
unfolding chat
run_attempts [] n b = (ok tt, b)
run_attempts (a ∷ rest) n b =
    let ((r, n'), b') = chat a n b in
    elim r [ err e ↦ (err e, b') | ok _ ↦ run_attempts rest n' b' ]

abbrev chat_exception : ChatError → Exception
chat_exception (ChatError.over_budget e) = Exception.over_budget e
chat_exception (ollama_error message) = other "OllamaError"
chat_exception (interrupted name) = other name

module _ {ℓ} {T : Type ℓ} where
  abbrev reply_result : Reply T → Result Exception T
  reply_result (value t) = ok t
  reply_result (structured_output_error n) = err (structured_output n)
  reply_result (failure name) = err (other name)

  abbrev answer_after :
      Reply T → Result ChatError (Unit {0}) × ExecutionBudget → Result Exception T × ExecutionBudget
  answer_after reply (ok _, b) = (reply_result reply, b)
  answer_after reply (err e, b) = (err (chat_exception e), b)

  -- `_invoke_model` within `model_operation_scope`.
  unfoldable pub invoke_model : ModelCall T → ExecutionBudget → Result Exception T × ExecutionBudget
  unfolding run_attempts
  invoke_model call b = elim (record_logical_model_operation b call.started) [
    | err e ↦ (err (Exception.over_budget e), b)
    | ok b' ↦ answer_after call.reply (run_attempts call.attempts (some 0) b')
  ]

-- `termination_reason=…`
abbrev pub stop : Reason → GraphState → GraphState
stop reason s = record s { termination_reason = some reason }

-- The `try` of `_check_budget` and of its callers: the body runs only within the budget.
unfoldable pub within_budget :
    ExecutionBudget → ℕ → GraphState → (ExecutionBudget → Outcome) → Outcome
within_budget b now s body = elim (check b now) [
  | err e ↦ (ok (stop (budget e) s), b)
  | ok _ ↦ body b
]

-- `except StructuredOutputError`; every other exception goes on.
abbrev pub catch_structured : (ℕ → Reason) → GraphState → Exception → Result Exception GraphState
catch_structured reason s (structured_output n) = ok (stop (reason n) s)
catch_structured reason s x = err x

-- `state["plan"]["tasks"][state.get("task_index", 0)]`; none where Python raises.
unfoldable pub current_task : GraphState → Option PlanTask
current_task s = elim s.plan [ none ↦ none | some p ↦ get_elem? (tasks p) s.task_index ]

abbrev pub choose : Bool → Bool → Action
choose required researched = if required && not researched then Action.research else Action.worker

unfoldable pub set_next_action : Services → GraphState → Result Exception GraphState
set_next_action v s = elim (current_task s) [
  | none ↦ err index_error
  | some task ↦ ok (record s {
    next_action =
        choose (v.requires_external_evidence s.message task) (elem task.id s.researched_task_ids);
  })
]
