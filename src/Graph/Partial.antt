-- ===== src/Graph/Partial.antt =====
-- app/graph.py: `_partial_response`, the text of a run that stopped, with the texts of the reasons.
use Prim.Native.String.{◌++◌}
use mathlib.Core.List.{◌++◌ as cat}
use langchain_langraph_app_l.Prelude.{
  ℕ, ◌+◌, String, Bool, true, not, ◌&&◌, Option, none, some, List, str_eq, if◌then◌else◌,
}
use langchain_langraph_app_l.Prelude.Text.{codes, contains_text}
use langchain_langraph_app_l.Prelude.Strings.{decimal, join, strip_blanks}
use langchain_langraph_app_l.Meter.{
  BudgetExceeded, deadline_exceeded, model_calls_exceeded, tool_calls_exceeded,
  verifier_rounds_exceeded, research_rounds_exceeded,
}
use langchain_langraph_app_l.Graph.State.{
  WorkerResult, TaskRecord, Reason, budget, plan_invalid, worker_invalid, final_invalid,
  mcp_disabled, research_failed, replans_exceeded, final_unverified, synthesis_failed,
  final_revision_failed, GraphState,
}

abbrev budget_text : BudgetExceeded → String
budget_text deadline_exceeded = "execution deadline exceeded"
budget_text model_calls_exceeded = "model call budget exceeded"
budget_text tool_calls_exceeded = "tool call budget exceeded"
budget_text verifier_rounds_exceeded = "maximum verifier rounds exceeded"
budget_text research_rounds_exceeded = "maximum research rounds exceeded"

unfoldable pub reason_text : Reason → String
reason_text (budget e) = budget_text e
reason_text (plan_invalid n) =
    "plan could not produce valid structured output after " ++ decimal n ++ " bounded attempt(s)"
reason_text (worker_invalid n) =
    "worker could not produce valid structured output after " ++ decimal n ++ " bounded attempt(s)"
reason_text (final_invalid n) =
    "final verification could not produce valid structured output after "
    ++ decimal n
    ++ " bounded attempt(s)"
reason_text mcp_disabled = "external evidence is required but MCP is disabled"
reason_text research_failed =
    "all compatible read-only MCP research attempts failed; no current evidence was retrieved"
reason_text replans_exceeded = "maximum replans exceeded"
reason_text final_unverified = "final answer could not be independently verified"
reason_text (synthesis_failed name) = "final synthesis failed: " ++ name
reason_text (final_revision_failed name) = "final answer revision failed: " ++ name

-- `str(state.get("termination_reason") or "execution stopped")`
abbrev stop_text : Option Reason → String
stop_text none = "execution stopped"
stop_text (some r) = reason_text r

-- `str(worker_result.get("answer") or "").strip()`
abbrev answer_text : Option WorkerResult → String
answer_text none = ""
answer_text (some w) = strip_blanks w.answer

abbrev section : String → String → List String
section title text = if str_eq text "" then List.[] else List.◌∷◌ (title ++ text) List.[]

task_sections : ℕ → List TaskRecord → List String
task_sections index List.[] = List.[]
task_sections index (List.◌∷◌ r rest) =
    cat (section ("Completed task " ++ decimal index ++ ":\n") (answer_text r.worker_result))
      (task_sections (index + 1) rest)

-- `all(text not in section for section in sections)`
in_no_section : String → List String → Bool
in_no_section text List.[] = true
in_no_section text (List.◌∷◌ s rest) =
    not (contains_text (codes text) (codes s)) && in_no_section text rest

abbrev in_progress : String → List String → List String
in_progress text sections =
    if in_no_section text sections
    then section "In-progress task output (not fully verified):\n" text
    else List.[]

abbrev finished_sections : GraphState → List String
finished_sections s =
    cat (task_sections 1 s.task_results)
      (section "Candidate final answer (not fully verified):\n" (strip_blanks s.response))

abbrev stopped_text : List String → String → String
stopped_text List.[] reason =
    "Execution stopped safely before a verified answer could be produced: " ++ reason ++ "."
stopped_text (List.◌∷◌ part parts) reason =
    join "\n\n" (List.◌∷◌ part parts)
    ++ "\n\nExecution stopped safely before all work was completed: "
    ++ reason
    ++ ". Treat any in-progress output as unverified."

-- `_partial_response`
unfoldable pub partial_response : GraphState → String
unfolding task_sections in_no_section strip_blanks reason_text join contains_text decimal
partial_response s =
    let sections = finished_sections s in
    stopped_text (cat sections (in_progress (answer_text s.worker_result) sections))
      (stop_text s.termination_reason)
