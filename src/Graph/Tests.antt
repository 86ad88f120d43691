-- ===== src/Graph/Tests.antt =====
-- app/graph.py: a run without a model and one with two tasks, and the theorems at these.
use langchain_langraph_app_l.Prelude.{
  ℕ, String, ◌≡◌, refl, true, false, Option, none, some, [], ◌∷◌, arith,
}
use langchain_langraph_app_l.Meter.{
  ExecutionBudget, check, create, record_logical_model_operation, begin_tool_attempt,
  begin_model_attempt, finish_model_attempt, finish_tool_attempt, add_queue_wait,
}
use langchain_langraph_app_l.Evidence.{
  evidence_from_tool_result, evidence_from_metadata, deduplicate_evidence, Readings,
  FreshnessStatus, SourceQuality, InjectionScanStatus,
}
use langchain_langraph_app_l.Evidence.Grounding.{
  by_id, valid_items, select, ground_claim, ground_claims,
}
use langchain_langraph_app_l.Ollama.{Payload, object, chat, chat_body, finish_chat}
use langchain_langraph_app_l.Mcp.{
  delivered, Messages, client_attempts, post, post_body, finish_post,
}
use langchain_langraph_app_l.Tools.Executor.{returned, is_explicitly_safe_read, admitted, execute}
use langchain_langraph_app_l.Graph.State.{
  PlanTask, WorkerResult, Verdict, FinalVerificationReport, GraphState, Settings, Action, ModelCall,
  value, Candidate, Answers,
}
use langchain_langraph_app_l.Graph.Routes.{Node, finish, route}
use langchain_langraph_app_l.Graph.Calls.{Services, set_next_action, current_task, invoke_model}
use langchain_langraph_app_l.Graph.Planning.{plan_node, advance_node}
use langchain_langraph_app_l.Graph.Working.{worker_node}
use langchain_langraph_app_l.Graph.Verifying.{
  deterministic_output_issues, grounding_issues, verify_node,
}
use langchain_langraph_app_l.Graph.Researching.{research_node}
use langchain_langraph_app_l.Graph.Finishing.{finalize_node}
use langchain_langraph_app_l.Prelude.Strings.{decimal}
use langchain_langraph_app_l.Prelude.Dict.{lookup, put}
use langchain_langraph_app_l.Graph.Machine.{Config, at, raised, step, run}
use langchain_langraph_app_l.Graph.Termination.{IsOver, run_ends}
use langchain_langraph_app_l.Graph.Accepted.{IsSound}
use langchain_langraph_app_l.Graph.Accepted.Run.{run-IsSound}
use langchain_langraph_app_l.Graph.Release.{Releases, run-Releases}
use langchain_langraph_app_l.Graph.Provenance.Run.{Traced, run-Traced}
use langchain_langraph_app_l.Graph.Spending.{IsMetered}
use langchain_langraph_app_l.Graph.Spending.Run.{budget_of, run-IsMetered}

abbrev initial : GraphState
initial = record {
  message = "How tall is the tower, and who built it?";
  run_id = "r1";
  supplied = [];
  plan = none;
  task_index = 0;
  task_results = [];
  worker_result = none;
  verification = none;
  grounding = [];
  evidence = [];
  iterations = 0;
  research_rounds = 0;
  replans = 0;
  next_action = Action.unset;
  researched_task_ids = [];
  response = "";
  termination_reason = none;
  final_verification_required = false;
  final_verification = none;
  final_revision_rounds = 0;
}

abbrev echo_settings : Settings
echo_settings = record {
  ollama = false;
  mcp_enabled = false;
  manual_metering = false;
  agent_max_research_rounds = 2;
  agent_max_replans = 1;
  final_max_revision_rounds = 1;
  final_verification_enabled = true;
}

abbrev model_settings : Settings
model_settings = record echo_settings { ollama = true; mcp_enabled = true }

abbrev services : Services
services = record { requires_external_evidence = λ message task. true; sha256 = λ s. s }

abbrev no_services : Services
no_services = record { requires_external_evidence = λ message task. false; sha256 = λ s. s }

abbrev task : String → PlanTask
task id = record {
  id = id;
  objective = id;
  required_evidence = [];
  completion_criteria = [];
  depends_on = [];
}

abbrev payload : Payload
payload = record {
  error = none;
  prompt_eval_count = some 200;
  eval_count = some 40;
  load_duration = none;
}

abbrev reply {ℓ} : {T : Type ℓ} → T → ModelCall T
reply t = record {
  started = 1;
  attempts = record { now = 1; response = object payload } ∷ [];
  reply = value t;
}

abbrev readings : Readings
readings = record {
  text = "The tower is 330 m tall.";
  truncated = false;
  source_uri = none;
  canonical_uri = none;
  retrieved_at = 1;
  published_at = none;
  title = none;
  raw_artifact_uri = none;
  freshness = FreshnessStatus.not_time_sensitive;
  quality = SourceQuality.secondary_unknown;
  injection_scan = InjectionScanStatus.clean;
}

abbrev search : Candidate
search = record {
  name = "web_search";
  call = record {
    waited = admitted 0;
    now = 1;
    attempts = record { now = 1; allow_empty = false; delivery = delivered Messages.object } ∷ [];
    refused = readings;
    outcome = returned (record { ok = true; reply = readings });
  };
}

-- A tool that would write is ranked first, and is denied.
abbrev send : Candidate
send = record search { name = "mail_send" }

abbrev worker_answer : WorkerResult
worker_answer = record {
  answer = "The tower is 330 metres tall.";
  claims =
      record {
        claim_id = none;
        text = "330 m";
        evidence_ids = "research-t1-1-1" ∷ [];
        requires_current_evidence = false;
      }
      ∷ [];
  assumptions = [];
  missing_information = [];
}

abbrev answers : ℕ → Answers
answers tick = record {
  now = 1;
  planning = reply (record { goal = "g"; first_task = task "t1"; more_tasks = [] });
  working = reply worker_answer;
  verifying =
      reply (record {
        verdict = Verdict.pass;
        task_complete = true;
        issues = [];
        required_actions = [];
      });
  queries = record { fingerprint = "f"; candidates = send ∷ search ∷ [] } ∷ [];
  synthesis = reply "Both.";
  final_check = reply (FinalVerificationReport.pass []);
}

abbrev fresh_budget : ExecutionBudget
fresh_budget = create 180 8 10 3 none 0 0

abbrev response_of : Config → Option String
response_of (at finish s b) = some s.response
response_of (at _ s b) = none
response_of (raised x b) = none

abbrev begin : Config
begin = at Node.plan initial fresh_budget

-- Without a model, the worker's echo passes the deterministic checks.
echo_run :
    response_of (run no_services echo_settings 10 answers 0 begin)
    ≡ some "Echo mode is active.\n\nMessage received: How tall is the tower, and who built it?"
unfolding run step route plan_node worker_node verify_node advance_node finalize_node
    set_next_action current_task check create deterministic_output_issues grounding_issues
    ground_claims
echo_run = refl

-- With models and a tool: the tool that would write is denied, the search gives the evidence that the
-- claim needs, and the worker's answer is the response.
model_run :
    response_of (run services model_settings 10 answers 0 begin)
    ≡ some "The tower is 330 metres tall."
unfolding run step route plan_node worker_node verify_node advance_node finalize_node
    set_next_action current_task check create deterministic_output_issues grounding_issues
    ground_claims invoke_model record_logical_model_operation research_node execute
    is_explicitly_safe_read chat chat_body finish_chat begin_model_attempt finish_model_attempt
    client_attempts post post_body finish_post begin_tool_attempt finish_tool_attempt add_queue_wait
    evidence_from_tool_result evidence_from_metadata deduplicate_evidence by_id lookup put
    valid_items select ground_claim decimal
model_run = refl

run_ends_example : IsOver services model_settings (run services model_settings 25 answers 0 begin)
unfolding create
run_ends_example = run_ends services model_settings answers initial fresh_budget 25 (omega arith)

run-IsSound_example : IsSound (run services model_settings 6 answers 0 begin)
run-IsSound_example = run-IsSound services model_settings answers 6 0 begin tt

run-Releases_example : Releases (run services model_settings 10 answers 0 begin)
run-Releases_example = run-Releases services model_settings answers 10 0 begin tt

fresh-IsMetered : IsMetered fresh_budget
unfolding create
fresh-IsMetered = ground arith

run-IsMetered_example : IsMetered (budget_of (run services model_settings 10 answers 0 begin))
run-IsMetered_example = run-IsMetered services model_settings answers 10 0 begin fresh-IsMetered

run-Traced_example : Traced services answers (run services model_settings 6 answers 0 begin)
run-Traced_example =
    run-Traced services model_settings answers 6 0 begin
      (record { counted = refl; at_hand = tt; in_results = tt })
