-- ===== src/Graph/Finishing.antt =====
-- app/graph.py: `_finalize`, `_verify_final`, `_revise_final` and `_terminate`.
use langchain_langraph_app_l.Prelude.{
  ℕ, ◌+◌, String, Bool, false, Option, none, some, List, [], ◌∷◌, ltb, leb, length, is_some, ◌&&◌,
  if◌then◌else◌, Result, ok, err,
}
use langchain_langraph_app_l.Meter.{ExecutionBudget}
use langchain_langraph_app_l.Graph.State.{
  WorkerResult, FinalVerificationReport, TaskRecord, GraphState, Settings, Exception, over_budget,
  structured_output, index_error, key_error, validation_error, tool_timeout, tool_cancelled, other,
  synthesis_failed, final_revision_failed, final_invalid, final_unverified, Answers,
}
use langchain_langraph_app_l.Graph.Routes.{passes}
use langchain_langraph_app_l.Graph.Calls.{
  Outcome, invoke_model, stop, within_budget, catch_structured,
}
use langchain_langraph_app_l.Graph.Partial.{partial_response}

-- `_terminate`
unfoldable pub terminated : GraphState → GraphState
terminated s = record s { response = partial_response s }

-- `type(exc).__name__`
abbrev pub exception_name : Exception → String
exception_name (over_budget e) = "BudgetExceeded"
exception_name (structured_output n) = "StructuredOutputError"
exception_name index_error = "IndexError"
exception_name key_error = "KeyError"
exception_name validation_error = "ValidationError"
exception_name tool_timeout = "TimeoutError"
exception_name tool_cancelled = "CancelledError"
exception_name (other name) = name

abbrev result_answer : Option WorkerResult → String
result_answer none = ""
result_answer (some w) = w.answer

-- `results[-1]["worker_result"]["answer"]`, or the current worker's answer if there is no result. For
-- a result without a worker's answer, which Graph/Accepted excludes, Python raises a KeyError where
-- the text is empty here.
abbrev pub last_answer : GraphState → List TaskRecord → String
last_answer s [] = result_answer s.worker_result
last_answer s (r ∷ []) = result_answer r.worker_result
last_answer s (r ∷ q ∷ rest) = last_answer s (q ∷ rest)

abbrev pub finalized : GraphState → String → Bool → GraphState
finalized s response required = record s {
  response = response;
  final_verification_required = required;
  final_verification = none;
  final_revision_rounds = 0;
}

-- `except Exception`: the node itself terminates, and the edge to `terminate` follows.
abbrev synthesized : Settings → GraphState → Result Exception String → GraphState
synthesized settings s (ok response) = finalized s response settings.final_verification_enabled
synthesized settings s (err x) = terminated (stop (synthesis_failed (exception_name x)) s)

-- `_finalize`
unfoldable pub finalize_node : Settings → Answers → GraphState → ExecutionBudget → Outcome
unfolding terminated
finalize_node settings a s b =
    if is_some s.termination_reason
    then (ok (terminated s), b)
    else if settings.ollama && ltb 1 (length s.task_results)
    then (let (r, b') = invoke_model a.synthesis b in (ok (synthesized settings s r), b'))
    else (ok (finalized s (last_answer s s.task_results) false), b)

abbrev pub checked : GraphState → FinalVerificationReport → GraphState
checked s report = record s { final_verification = some report }

abbrev final_update :
    Settings → GraphState → Result Exception FinalVerificationReport → Result Exception GraphState
final_update settings s (ok report) = ok (
    if passes (some report)
    then checked s report
    else if leb settings.final_max_revision_rounds s.final_revision_rounds
    then stop final_unverified (checked s report)
    else checked s report)
final_update settings s (err x) = catch_structured final_invalid s x

-- `_verify_final`
unfoldable pub verify_final_node : Settings → Answers → GraphState → ExecutionBudget → Outcome
unfolding within_budget
verify_final_node settings a s b =
    within_budget b a.now s
      λ b. let (r, b') = invoke_model a.final_check b in (final_update settings s r, b')

abbrev pub count_final : ExecutionBudget → ℕ → ExecutionBudget
count_final b n = record b { state = record b.state { final_revision_rounds = n } }

-- `except Exception` catches every exception of the synthesis.
abbrev revised : GraphState → Result Exception String → GraphState
revised s (ok response) = record s {
  response = response;
  final_revision_rounds = s.final_revision_rounds + 1;
  final_verification = none;
}
revised s (err x) =
    stop (final_revision_failed (exception_name x))
      (record s { final_revision_rounds = s.final_revision_rounds + 1 })

-- `_revise_final`
unfoldable pub revise_final_node : Answers → GraphState → ExecutionBudget → Outcome
unfolding within_budget
revise_final_node a s b =
    within_budget (count_final b (s.final_revision_rounds + 1)) a.now s
      λ b. let (r, b') = invoke_model a.synthesis b in (ok (revised s r), b')
