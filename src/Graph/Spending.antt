-- ===== src/Graph/Spending.antt =====
-- app/graph.py: the attempts that the calls of models and tools spend.
pub mod Run
use langchain_langraph_app_l.Prelude.{
  ℕ, zero, suc, ◌+◌, ◌≤◌, ◌≡◌, inl, inr, refl, String, Bool, Option, none, some, List, [], ◌∷◌,
  arith, Option-cases, ok, err, Result, Result-cases,
}
use langchain_langraph_app_l.Meter.{
  ExecutionBudget, record_logical_model_operation, begin_model_attempt, finish_model_attempt, check,
}
use langchain_langraph_app_l.Ollama.{Attempt, Locals, chat_body, finish_chat, chat}
use langchain_langraph_app_l.Tools.Executor.{execute}
use langchain_langraph_app_l.Tools.Executor.Safety.{execute-IsSettled}
use langchain_langraph_app_l.Graph.State.{
  PlanTask, WorkerResult, GraphState, Settings, ModelCall, Candidate, Query, Answers, Exception,
}
use langchain_langraph_app_l.Graph.Routes.{Node, finish}
use langchain_langraph_app_l.Graph.Calls.{Services, current_task, run_attempts, invoke_model}
use langchain_langraph_app_l.Graph.Planning.{count_replans, plan_node, replan_node, advance_node}
use langchain_langraph_app_l.Graph.Working.{count_revision, worker_node, revise_node}
use langchain_langraph_app_l.Graph.Verifying.{count_round, verify_task, verify_node}
use langchain_langraph_app_l.Graph.Researching.{
  research_task_id, Place, Findings, Search-cases, query_place, add_finding, try_candidates,
  search_queries, count_research, research_task, research_node,
}
use langchain_langraph_app_l.Graph.Finishing.{
  count_final, finalize_node, verify_final_node, revise_final_node,
}
use langchain_langraph_app_l.Graph.Machine.{Config, at, raised, run_node, follow, step, run}

-- No attempt is open: each one was counted once, as a success or a failure, and no limit is passed.
pub record IsMetered (b : ExecutionBudget) : Type 0 where
  pub models : b.state.physical_model_attempts ≡ b.state.model_successes + b.state.model_failures
  pub tools : b.state.tool_attempts ≡ b.state.tool_successes + b.state.tool_failures
  pub limit : b.state.physical_model_attempts ≤ b.max_model_calls
  pub tool_limit : b.state.tool_attempts ≤ b.max_tool_calls

-- An attempt that was begun, and finished by the `finally` of `chat`.
finish_chat-IsMetered :
    (l : Locals) (now : ℕ) (n n' : Option ℕ) (b b' : ExecutionBudget)
    → begin_model_attempt b none n now ≡ ok (b', n')
    → IsMetered b
    → IsMetered (finish_chat l b')
unfolding begin_model_attempt finish_chat finish_model_attempt
finish_chat-IsMetered l now n n' b b' e h = ground arith

chat-IsMetered :
    (a : Attempt) (n : Option ℕ) (b : ExecutionBudget) → IsMetered b → IsMetered (chat a n b).1
unfolding chat
chat-IsMetered a n b h = elim (Result-cases (begin_model_attempt b none n a.now)) [
  | inl ((b', n'), e) ↦
      rw (e, chat) (finish_chat-IsMetered (chat_body a.response).1 a.now n n' b b' e h)
  | inr (_, e) ↦ rw (e, chat) h
]

run_attempts-IsMetered :
    (attempts : List Attempt) (n : Option ℕ) (b : ExecutionBudget)
    → IsMetered b
    → IsMetered (run_attempts attempts n b).1
unfolding run_attempts
run_attempts-IsMetered [] n b h = h
run_attempts-IsMetered (a ∷ rest) n b h =
    let ((r, n'), b') = chat a n b in
    let done = chat-IsMetered a n b h in
    elim (Result-cases r) [
      | inl (_, e) ↦ rw (e, run_attempts) (run_attempts-IsMetered rest n' b' done)
      | inr (_, e) ↦ rw (e, run_attempts) done
    ]

logical-IsMetered :
    (b b' : ExecutionBudget) (now : ℕ)
    → record_logical_model_operation b now ≡ ok b'
    → IsMetered b
    → IsMetered b'
unfolding record_logical_model_operation
logical-IsMetered b b' now e h = ground arith

pub invoke_model-IsMetered {ℓ} :
    {T : Type ℓ} (call : ModelCall T) (b : ExecutionBudget)
    → IsMetered b
    → IsMetered (invoke_model call b).1
unfolding invoke_model
invoke_model-IsMetered call b h =
    elim (Result-cases (record_logical_model_operation b call.started)) [
      | inl (b', e) ↦ ground (
        arith,
        e,
        run_attempts-IsMetered call.attempts (some 0) b' (logical-IsMetered b b' call.started e h),
      )
      | inr (_, e) ↦ rw (e, invoke_model) h
    ]

execute-IsMetered :
    (manual : Bool) (c : Candidate) (b : ExecutionBudget)
    → IsMetered b
    → IsMetered (execute manual c.name c.call b).1
execute-IsMetered manual c b h =
    let k = execute-IsSettled manual c.name c.call b in
    record {
      models =
          omega (arith, h.models, k.same_models, k.same_model_successes, k.same_model_failures);
      tools = omega (arith, h.tools, k.finished);
      limit = omega (arith, h.limit, k.same_models, k.same_model_limit);
      tool_limit = k.within h.tool_limit;
    }

try_candidates-IsMetered :
    (v : Services) (manual : Bool) (place : Place) (cs : List Candidate) (b : ExecutionBudget)
    → IsMetered b
    → IsMetered (try_candidates v manual place cs b).1
unfolding try_candidates
try_candidates-IsMetered v manual place [] b h = h
try_candidates-IsMetered v manual place (c ∷ rest) b h =
    let b' = (execute manual c.name c.call b).1 in
    let done = execute-IsMetered manual c b h in
    ground (arith, done, try_candidates-IsMetered v manual place rest b' done)

pub search_queries-IsMetered :
    (v : Services) (manual : Bool) (run_id task_id : String) (rounds index : ℕ) (qs : List Query)
    (f : Findings) (b : ExecutionBudget)
    → IsMetered b
    → IsMetered (search_queries v manual run_id task_id rounds index qs f b).1
unfolding search_queries
search_queries-IsMetered v manual run_id task_id rounds index [] f b h = h
search_queries-IsMetered v manual run_id task_id rounds index (q ∷ rest) f b h =
    let place = query_place run_id task_id rounds index q in
    let (r, b') = try_candidates v manual place q.candidates b in
    let kept = try_candidates-IsMetered v manual place q.candidates b h in
    elim (Search-cases r) [
      | inl (found, e) ↦
          rw (e, search_queries)
            (search_queries-IsMetered v manual run_id task_id rounds (index + 1) rest
              (add_finding f found) b' kept)
      | inr (inl (_, e)) ↦ rw (e, search_queries) kept
      | inr (inr (_, e)) ↦ rw (e, search_queries) kept
    ]
