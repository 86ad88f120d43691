-- ===== src/Graph/Accepted.antt =====
-- app/graph.py: the invariant of a run on the results that it keeps, and on what each node reads.
mod Updates
mod Steps
mod Advance
pub mod Run
use langchain_langraph_app_l.Prelude.{
  ℕ, zero, suc, ◌+◌, ◌≡◌, String, true, false, Option, some, List, [], ◌∷◌, All,
}
use langchain_langraph_app_l.Meter.{ExecutionBudget}
use langchain_langraph_app_l.Evidence.Grounding.{
  GroundingStatus, ClaimGroundingResult, ground_claims,
}
use langchain_langraph_app_l.Graph.State.{
  PlanTask, WorkerResult, Verdict, VerificationReport, TaskRecord, GraphState, Settings, Answers,
}
use langchain_langraph_app_l.Graph.Routes.{Node, finish, stopped}
use langchain_langraph_app_l.Graph.Calls.{Services, current_task}
use langchain_langraph_app_l.Graph.Verifying.{verify_task_id, task_grounding}
use langchain_langraph_app_l.Graph.Machine.{Config, at, raised, step, run}
use langchain_langraph_app_l.Graph.Errors.{IsExternal}

abbrev pub IsSupported : ClaimGroundingResult → Type 0
IsSupported g = g.status ≡ GroundingStatus.supported

-- A kept result: passed, complete, and with each of the worker's claims grounded as supported in the
-- evidence that is kept with it, for this run and for the task's ID.
pub record IsAccepted (run_id : String) (r : TaskRecord) : Type 0 where
  pub w : WorkerResult
  pub report : VerificationReport
  pub has_result : r.worker_result ≡ some w
  pub has_report : r.verification ≡ some report
  pub passed : report.verdict ≡ Verdict.pass
  pub complete : report.task_complete ≡ true
  pub grounded : r.grounding ≡ ground_claims w.claims r.evidence run_id (verify_task_id r.task)
  pub supported : All IsSupported r.grounding

abbrev pub IsGood : GraphState → Type 0
IsGood s = All (IsAccepted s.run_id) s.task_results

abbrev pub HasTask : GraphState → Type 0
HasTask s = (task : PlanTask) × (current_task s ≡ some task)

pub record IsWorked (s : GraphState) : Type 0 where
  pub task : PlanTask
  pub w : WorkerResult
  pub has_task : current_task s ≡ some task
  pub has_result : s.worker_result ≡ some w

pub record IsVerified (s : GraphState) : Type 0 where
  pub task : PlanTask
  pub w : WorkerResult
  pub report : VerificationReport
  pub has_task : current_task s ≡ some task
  pub has_result : s.worker_result ≡ some w
  pub has_report : s.verification ≡ some report
  pub grounded : s.grounding ≡ task_grounding s w task
  pub supported : report.verdict ≡ Verdict.pass → All IsSupported s.grounding

pub record IsPassed (s : GraphState) : Type 0 where
  pub verified : IsVerified s
  pub goes_on : stopped s ≡ false
  pub passed : verified.report.verdict ≡ Verdict.pass
  pub complete : verified.report.task_complete ≡ true

-- What holds when a node is reached.
abbrev pub Ready : Node → GraphState → Type 0
Ready Node.research s = IsGood s × HasTask s
Ready Node.worker s = IsGood s × HasTask s
Ready Node.verify s = IsGood s × IsWorked s
Ready Node.revise s = IsGood s × IsWorked s
Ready Node.replan s = IsGood s × IsWorked s
Ready Node.advance s = IsGood s × IsPassed s
Ready _ s = IsGood s

abbrev pub IsSound : Config → Type 0
IsSound (at n s b) = Ready n s
IsSound (raised x b) = IsExternal x
