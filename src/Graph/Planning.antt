-- ===== src/Graph/Planning.antt =====
-- app/graph.py: `_plan`, `_replan` and `_advance`.
use Prim.Native.String.{◌++◌ as append}
use langchain_langraph_app_l.Prelude.{
  ℕ, ◌+◌, String, ◌++◌, Option, none, some, [], ◌∷◌, ltb, if◌then◌else◌, Result, ok, err,
}
use langchain_langraph_app_l.Prelude.Strings.{decimal}
use langchain_langraph_app_l.Meter.{ExecutionBudget}
use langchain_langraph_app_l.Evidence.{evidence_from_metadata}
use langchain_langraph_app_l.Graph.State.{
  PlanTask, ExecutionPlan, TaskRecord, GraphState, Action, Settings, Exception, validation_error,
  index_error, plan_invalid, replans_exceeded, Answers,
}
use langchain_langraph_app_l.Graph.Routes.{task_count}
use langchain_langraph_app_l.Graph.Calls.{
  Services, Outcome, invoke_model, stop, within_budget, catch_structured, current_task,
  set_next_action,
}

-- The plan without a model: the message as the only task.
abbrev pub echo_plan : String → ExecutionPlan
echo_plan message = record {
  goal = message;
  first_task = record {
    id = "t1";
    objective = message;
    required_evidence = [];
    completion_criteria = "Answer directly and completely" ∷ [];
    depends_on = [];
  };
  more_tasks = [];
}

-- f"user-{index}"
abbrev pub user_id : ℕ → String
user_id index = append "user-" (decimal index)

abbrev pub fresh_plan : Services → ℕ → GraphState → ExecutionPlan → GraphState
fresh_plan v now s p = record s {
  plan = some p;
  task_index = 0;
  task_results = [];
  worker_result = none;
  verification = none;
  evidence = evidence_from_metadata v.sha256 user_id now s.supplied s.run_id "request";
  iterations = 0;
  research_rounds = 0;
  replans = 0;
  termination_reason = none;
  response = "";
  researched_task_ids = [];
}

abbrev pub planned :
    Services → ℕ → GraphState → Result Exception ExecutionPlan → Result Exception GraphState
planned v now s (ok p) = set_next_action v (fresh_plan v now s p)
planned v now s (err x) = catch_structured plan_invalid s x

-- `_plan`
unfoldable pub plan_node : Services → Settings → Answers → GraphState → ExecutionBudget → Outcome
unfolding within_budget
plan_node v settings a s b = within_budget b a.now s λ b.
    if settings.ollama
    then (let (r, b') = invoke_model a.planning b in (planned v a.now s r, b'))
    else (planned v a.now s (ok (echo_plan s.message)), b)

abbrev pub count_replans : ExecutionBudget → ℕ → ExecutionBudget
count_replans b n = record b { state = record b.state { replans = n } }

abbrev pub restarted : GraphState → ExecutionPlan → GraphState
restarted s p = record s {
  plan = some p;
  task_index = 0;
  task_results = [];
  worker_result = none;
  verification = none;
  evidence = [];
  research_rounds = 0;
  replans = s.replans + 1;
  researched_task_ids = [];
}

abbrev pub replanned :
    Services → GraphState → Result Exception ExecutionPlan → Result Exception GraphState
replanned v s (err x) = err x
replanned v s (ok p) = set_next_action v (restarted s p)

abbrev pub validated_plan : Option ExecutionPlan → Result Exception ExecutionPlan
validated_plan none = err validation_error
validated_plan (some p) = ok p

-- `_replan`
unfoldable pub replan_node : Services → Settings → Answers → GraphState → ExecutionBudget → Outcome
replan_node v settings a s b =
    let counted = count_replans b (s.replans + 1) in
    if ltb settings.agent_max_replans (s.replans + 1)
    then (ok (stop replans_exceeded (record s { replans = s.replans + 1 })), counted)
    else if settings.ollama
    then (let (r, b') = invoke_model a.planning counted in (replanned v s r, b'))
    else (replanned v s (validated_plan s.plan), counted)

abbrev pub task_record : GraphState → PlanTask → TaskRecord
task_record s task = record {
  task = task;
  worker_result = s.worker_result;
  verification = s.verification;
  grounding = s.grounding;
  evidence = s.evidence;
}

abbrev pub advanced : GraphState → PlanTask → GraphState
advanced s task = record s {
  task_results = s.task_results ++ task_record s task ∷ [];
  task_index = s.task_index + 1;
  verification = none;
  worker_result = none;
  grounding = [];
  evidence = [];
  research_rounds = 0;
  next_action = Action.worker;
}

-- `_advance`
unfoldable pub advance_node : Services → GraphState → ExecutionBudget → Outcome
advance_node v s b = elim (current_task s) [
  | none ↦ (err index_error, b)
  | some task ↦
      let s' = advanced s task in
      (if ltb s'.task_index (task_count s'.plan) then set_next_action v s' else ok s', b)
]
