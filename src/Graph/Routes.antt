-- ===== src/Graph/Routes.antt =====
-- app/graphs/routes.py, `_after_finalize` and `_after_final_verification` of app/graph.py, and the
-- edges that `_build_graph` hangs on them.
use langchain_langraph_app_l.Prelude.{
  ℕ, Bool, true, false, Option, none, some, is_some, leb, ltb, length, if◌then◌else◌, Result, ok,
  err,
}
use langchain_langraph_app_l.Graph.State.{
  GraphState, Settings, Action, Verdict, VerificationReport, FinalVerificationReport, tasks,
  ExecutionPlan, Exception, key_error,
}

pub data Node : Type 0 where
  plan research worker verify revise replan advance finalize verify_final revise_final : Node
  terminate finish : Node

-- The keys that the routing functions return.
pub data Key : Type 0 where
  continue research worker terminate advance revise replan finalize : Key
  complete verify_final revise_final : Key

abbrev pub stopped : GraphState → Bool
stopped s = is_some s.termination_reason

unfoldable pub after_budgeted_step : GraphState → Key
after_budgeted_step s = if stopped s then Key.terminate else continue

abbrev pub action_key : Action → Key
action_key Action.research = Key.research
action_key Action.worker = Key.worker
action_key Action.unset = Key.worker

unfoldable pub after_plan : GraphState → Key
after_plan s = if stopped s then Key.terminate else action_key s.next_action

-- `is True` for the task's completion; no report counts as the verdict "terminate".
abbrev pub verdict_key : Option VerificationReport → Key
verdict_key none = Key.terminate
verdict_key (some report) = elim report.verdict [
  | Verdict.pass ↦ if report.task_complete then Key.advance else Key.revise
  | Verdict.revise ↦ Key.revise
  | Verdict.research ↦ Key.research
  | Verdict.replan ↦ Key.replan
  | Verdict.terminate ↦ Key.terminate
]

unfoldable pub after_verification : GraphState → Key
after_verification s = if stopped s then Key.terminate else verdict_key s.verification

abbrev pub task_count : Option ExecutionPlan → ℕ
task_count none = 0
task_count (some p) = length (tasks p)

unfoldable pub after_advance : GraphState → Key
after_advance s =
    if stopped s
    then Key.terminate
    else if leb (task_count s.plan) s.task_index
    then Key.finalize
    else action_key s.next_action

unfoldable pub after_finalize : GraphState → Key
after_finalize s =
    if stopped s
    then Key.terminate
    else if s.final_verification_required
    then Key.verify_final
    else complete

-- `report.get("verdict") == "pass" and report.get("answer_complete") is True`
abbrev pub passes : Option FinalVerificationReport → Bool
passes none = false
passes (some (FinalVerificationReport.pass issues)) = true
passes (some (FinalVerificationReport.revise answer_complete issues)) = false

unfoldable pub after_final_verification : Settings → GraphState → Key
after_final_verification settings s =
    if stopped s
    then Key.terminate
    else if passes s.final_verification
    then complete
    else if ltb s.final_revision_rounds settings.final_max_revision_rounds
    then Key.revise_final
    else Key.terminate

-- The dictionaries of `add_conditional_edges`; a key that is not in one raises.
unfoldable pub edges : Node → Key → Result Exception Node
edges Node.plan Key.research = ok Node.research
edges Node.plan Key.worker = ok Node.worker
edges Node.plan Key.terminate = ok Node.terminate
edges Node.research continue = ok Node.worker
edges Node.research Key.terminate = ok Node.terminate
edges Node.worker continue = ok Node.verify
edges Node.worker Key.terminate = ok Node.terminate
edges Node.revise continue = ok Node.verify
edges Node.revise Key.terminate = ok Node.terminate
edges Node.replan continue = ok Node.worker
edges Node.replan Key.terminate = ok Node.terminate
edges Node.verify Key.advance = ok Node.advance
edges Node.verify Key.revise = ok Node.revise
edges Node.verify Key.research = ok Node.research
edges Node.verify Key.replan = ok Node.replan
edges Node.verify Key.terminate = ok Node.terminate
edges Node.advance Key.research = ok Node.research
edges Node.advance Key.worker = ok Node.worker
edges Node.advance Key.finalize = ok Node.finalize
edges Node.finalize complete = ok finish
edges Node.finalize Key.verify_final = ok Node.verify_final
edges Node.finalize Key.terminate = ok Node.terminate
edges Node.verify_final complete = ok finish
edges Node.verify_final Key.revise_final = ok Node.revise_final
edges Node.verify_final Key.terminate = ok Node.terminate
edges _ _ = err key_error

-- The node after a node, in the state that it returned.
unfoldable pub route : Settings → Node → GraphState → Result Exception Node
unfolding edges after_plan after_budgeted_step after_verification after_advance after_finalize
    after_final_verification
route settings Node.plan s = edges Node.plan (after_plan s)
route settings Node.research s = edges Node.research (after_budgeted_step s)
route settings Node.worker s = edges Node.worker (after_budgeted_step s)
route settings Node.verify s = edges Node.verify (after_verification s)
route settings Node.revise s = edges Node.revise (after_budgeted_step s)
route settings Node.replan s = edges Node.replan (after_budgeted_step s)
route settings Node.advance s = edges Node.advance (after_advance s)
route settings Node.finalize s = edges Node.finalize (after_finalize s)
route settings Node.verify_final s = edges Node.verify_final (after_final_verification settings s)
route settings Node.revise_final s = ok Node.verify_final
route settings Node.terminate s = ok finish
route settings finish s = ok finish
