-- ===== src/Graph/State.antt =====
-- app/graphs/state.py and the schemas of app/schemas/{planning,worker,verification,finalization}.py,
-- as far as a node of app/graph.py branches on them or hands them on. Left out are the channels that
-- only report: names of models and tools, queries, routing, inventory, prompts and history.
use langchain_langraph_app_l.Prelude.{ℕ, String, Bool, Option, List, ◌∷◌}
use langchain_langraph_app_l.Meter.{BudgetExceeded}
use langchain_langraph_app_l.Ollama.{Attempt}
use langchain_langraph_app_l.Evidence.{EvidenceItem, Readings, Supplied}
use langchain_langraph_app_l.Evidence.Grounding.{
  Claim, ClaimId, ClaimGroundingResult, GroundingStatus,
}
use langchain_langraph_app_l.Tools.Executor.{ToolCall, ToolResult}

pub record PlanTask : Type 0 where
  pub id : String
  pub objective : String
  pub required_evidence : List String
  pub completion_criteria : List String
  pub depends_on : List String

-- `tasks` has at least one element.
pub record ExecutionPlan : Type 0 where
  pub goal : String
  pub first_task : PlanTask
  pub more_tasks : List PlanTask

abbrev pub tasks : ExecutionPlan → List PlanTask
tasks p = p.first_task ∷ p.more_tasks

pub record WorkerResult : Type 0 where
  pub answer : String
  pub claims : List Claim
  pub assumptions : List String
  pub missing_information : List String

pub data Verdict : Type 0 where
  pass revise research replan terminate : Verdict

-- The `code` of an issue: one that a verifier model reports, or one that the program finds.
pub data IssueCode : Type 0 where
  reported : String → IssueCode
  answer_too_short possible_repetition : IssueCode
  claim_grounding : ClaimId → GroundingStatus → IssueCode
  budget_exhausted : BudgetExceeded → IssueCode

pub record VerificationReport : Type 0 where
  pub verdict : Verdict
  pub task_complete : Bool
  pub issues : List IssueCode
  pub required_actions : List String

-- A pass verdict is complete: the validator of `FinalVerificationReport` refuses any other.
pub data FinalVerificationReport : Type 0 where
  pass : List IssueCode → FinalVerificationReport
  revise : Bool → List IssueCode → FinalVerificationReport

-- One entry of `task_results`.
pub record TaskRecord : Type 0 where
  pub task : PlanTask
  pub worker_result : Option WorkerResult
  pub verification : Option VerificationReport
  pub grounding : List ClaimGroundingResult
  pub evidence : List EvidenceItem

-- The texts that a node writes to `termination_reason`; the numbers count attempted models, the
-- texts are names of exception types.
pub data Reason : Type 0 where
  budget : BudgetExceeded → Reason
  plan_invalid worker_invalid final_invalid : ℕ → Reason
  mcp_disabled research_failed replans_exceeded final_unverified : Reason
  synthesis_failed final_revision_failed : String → Reason

pub data Action : Type 0 where
  unset research worker : Action

-- An empty dictionary is `none`.
pub record GraphState : Type 0 where
  pub message : String
  pub run_id : String
  pub supplied : List Supplied
  pub plan : Option ExecutionPlan
  pub task_index : ℕ
  pub task_results : List TaskRecord
  pub worker_result : Option WorkerResult
  pub verification : Option VerificationReport
  pub grounding : List ClaimGroundingResult
  pub evidence : List EvidenceItem
  pub iterations : ℕ
  pub research_rounds : ℕ
  pub replans : ℕ
  pub next_action : Action
  pub researched_task_ids : List String
  pub response : String
  pub termination_reason : Option Reason
  pub final_verification_required : Bool
  pub final_verification : Option FinalVerificationReport
  pub final_revision_rounds : ℕ

pub record Settings : Type 0 where
  pub ollama : Bool
  pub mcp_enabled : Bool
  pub manual_metering : Bool
  pub agent_max_research_rounds : ℕ
  pub agent_max_replans : ℕ
  pub final_max_revision_rounds : ℕ
  pub final_verification_enabled : Bool

-- An exception that leaves a node.
pub data Exception : Type 0 where
  over_budget : BudgetExceeded → Exception
  structured_output : ℕ → Exception
  index_error key_error validation_error : Exception
  tool_timeout tool_cancelled : Exception
  other : String → Exception

-- What a role agent gives back: a value of its schema, `StructuredOutputError` with the number of
-- models that were tried, or another exception.
pub data Reply {ℓ} (T : Type ℓ) : Type ℓ where
  value : T → Reply T
  structured_output_error : ℕ → Reply T
  failure : String → Reply T

pub record ModelCall {ℓ} (T : Type ℓ) : Type ℓ where
  pub started : ℕ
  pub attempts : List Attempt
  pub reply : Reply T

-- The answer of a tool: whether it succeeded, and what the text helpers read in it.
abbrev pub ToolReply : Type 0
ToolReply = ToolResult Readings

pub record Candidate : Type 0 where
  pub name : String
  pub call : ToolCall Readings

-- One research query: the fingerprint, and the tools that the router ranks for it, best first.
pub record Query : Type 0 where
  pub fingerprint : String
  pub candidates : List Candidate

-- What the clock, the models and the tools answer while one node runs.
pub record Answers : Type 0 where
  pub now : ℕ
  pub planning : ModelCall ExecutionPlan
  pub working : ModelCall WorkerResult
  pub verifying : ModelCall VerificationReport
  pub queries : List Query
  pub synthesis : ModelCall String
  pub final_check : ModelCall FinalVerificationReport
