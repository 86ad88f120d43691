-- ===== src/Graph/Verifying.antt =====
-- app/graph.py: `_verify`, with app/services/answer_quality.py.
use langchain_langraph_app_l.Prelude.{
  ◌+◌, String, Bool, true, false, ◌&&◌, none, some, List, [], ◌∷◌, ◌++◌, ltb, length, take, str_eq,
  if◌then◌else◌, Result, ok, err,
}
use langchain_langraph_app_l.Prelude.Text.{codes, is_blank, strip, count_text}
use langchain_langraph_app_l.Meter.{BudgetExceeded, ExecutionBudget, check}
use langchain_langraph_app_l.Evidence.Grounding.{
  ClaimGroundingResult, GroundingStatus, ground_claims,
}
use langchain_langraph_app_l.Graph.State.{
  PlanTask, WorkerResult, Verdict, IssueCode, answer_too_short, possible_repetition,
  claim_grounding, budget_exhausted, VerificationReport, GraphState, Reason, Settings, Exception,
  over_budget, index_error, Answers,
}
use langchain_langraph_app_l.Graph.Calls.{Outcome, invoke_model, stop, current_task}
use langchain_langraph_app_l.Graph.Working.{validated_result}

-- `deterministic_output_issues(text)` with its default of 20 characters.
unfoldable pub deterministic_output_issues : String → List IssueCode
unfolding strip count_text
deterministic_output_issues text =
    let clean = strip is_blank (codes text) in
    (if ltb (length clean) 20 then answer_too_short ∷ [] else [])
    ++ (if ltb 3 (count_text (take 50 clean) clean) && ltb 100 (length clean)
        then possible_repetition ∷ []
        else [])

abbrev pub is_supported : GroundingStatus → Bool
is_supported GroundingStatus.supported = true
is_supported _ = false

-- `grounding_issues`
unfoldable pub grounding_issues : List ClaimGroundingResult → List IssueCode
grounding_issues [] = []
grounding_issues (g ∷ rest) =
    let others = grounding_issues rest in
    if is_supported g.status then others else claim_grounding g.claim_id g.status ∷ others

-- `_termination_report`
abbrev pub termination_report : BudgetExceeded → VerificationReport
termination_report e = record {
  verdict = Verdict.terminate;
  task_complete = false;
  issues = budget_exhausted e ∷ [];
  required_actions = [];
}

abbrev pub verify_stopped : GraphState → BudgetExceeded → GraphState
verify_stopped s e =
    stop (Reason.budget e) (record s { verification = some (termination_report e) })

abbrev pub is_nil {ℓ} : {A : Type ℓ} → List A → Bool
is_nil [] = true
is_nil (x ∷ xs) = false

-- The report without a model.
abbrev pub echo_report : List IssueCode → VerificationReport
echo_report issues = record {
  verdict = if is_nil issues then Verdict.pass else Verdict.revise;
  task_complete = is_nil issues;
  issues = issues;
  required_actions = [];
}

-- A passing report does not stand against a claim that is not supported.
unfoldable pub override : List IssueCode → VerificationReport → VerificationReport
override [] report = report
override (i ∷ issues) report = elim report.verdict [
  | Verdict.pass ↦ record report {
    verdict = Verdict.revise;
    task_complete = false;
    issues = report.issues ++ i ∷ issues;
  }
  | _ ↦ report
]

abbrev pub verified : GraphState → List ClaimGroundingResult → VerificationReport → GraphState
verified s grounding report = record s {
  verification = some (override (grounding_issues grounding) report);
  grounding = grounding;
}

-- `except BudgetExceeded`; every other exception goes on, `StructuredOutputError` too.
abbrev pub verify_update :
    GraphState
    → List ClaimGroundingResult
    → Result Exception VerificationReport
    → Result Exception GraphState
verify_update s grounding (ok report) = ok (verified s grounding report)
verify_update s grounding (err (over_budget e)) = ok (verify_stopped s e)
verify_update s grounding (err x) = err x

abbrev pub count_round : ExecutionBudget → ExecutionBudget
count_round b = record b {
  state = record b.state { verifier_rounds = b.state.verifier_rounds + 1 };
}

-- `str(self._current_task(state).get("id") or "task")`
abbrev pub verify_task_id : PlanTask → String
verify_task_id task = if str_eq task.id "" then "task" else task.id

abbrev pub task_grounding : GraphState → WorkerResult → PlanTask → List ClaimGroundingResult
task_grounding s w task = ground_claims w.claims s.evidence s.run_id (verify_task_id task)

-- The body of `_verify` behind the budget check.
unfoldable pub verify_task :
    Settings → Answers → GraphState → WorkerResult → PlanTask → ExecutionBudget → Outcome
unfolding override
verify_task settings a s w task b =
    let grounding = task_grounding s w task in
    if settings.ollama
    then (let (r, b') = invoke_model a.verifying b in (verify_update s grounding r, b'))
    else (
      ok (
          verified s grounding
            (echo_report (deterministic_output_issues w.answer ++ grounding_issues grounding))),
      b,
    )

-- `_verify`
unfoldable pub verify_node : Settings → Answers → GraphState → ExecutionBudget → Outcome
unfolding verify_task
verify_node settings a s b = elim (check (count_round b) a.now) [
  | err e ↦ (ok (verify_stopped s e), count_round b)
  | ok _ ↦ elim (validated_result s.worker_result) [
    | err x ↦ (err x, count_round b)
    | ok w ↦ elim (current_task s) [
      | none ↦ (err index_error, count_round b)
      | some task ↦ verify_task settings a s w task (count_round b)
    ]
  ]
]
