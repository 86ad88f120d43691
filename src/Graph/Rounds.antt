-- ===== src/Graph/Rounds.antt =====
-- app/graph.py: the count of verifier rounds, node by node.
use langchain_langraph_app_l.Prelude.{
  none, ℕ, ◌+◌, ◌≡◌, inl, inr, refl, String, Bool, Option, some, List, [], ◌∷◌, arith, Option-cases,
  ok, Result-cases,
}
use langchain_langraph_app_l.Meter.{
  ExecutionBudget, record_logical_model_operation, begin_model_attempt, finish_model_attempt,
}
use langchain_langraph_app_l.Tools.Executor.{execute}
use langchain_langraph_app_l.Tools.Executor.Safety.{execute-IsSettled}
use langchain_langraph_app_l.Graph.State.{
  PlanTask, WorkerResult, GraphState, Settings, ModelCall, Candidate, Query, Answers,
}
use langchain_langraph_app_l.Ollama.{Attempt, Locals, chat_body, finish_chat, chat}
use langchain_langraph_app_l.Graph.Calls.{Services, run_attempts, invoke_model, current_task}
use langchain_langraph_app_l.Graph.Planning.{count_replans, plan_node, replan_node, advance_node}
use langchain_langraph_app_l.Graph.Working.{count_revision, worker_node, revise_node}
use langchain_langraph_app_l.Graph.Verifying.{count_round, verify_task, verify_node}
use langchain_langraph_app_l.Graph.Researching.{
  research_task_id, Place, Findings, Search-cases, query_place, add_finding, try_candidates,
  search_queries, count_research, research_task, research_node,
}
use langchain_langraph_app_l.Graph.Finishing.{
  count_final, finalize_node, verify_final_node, revise_final_node,
}

pub record SameRounds (b b' : ExecutionBudget) : Type 0 where
  pub rounds : b'.state.verifier_rounds ≡ b.state.verifier_rounds
  pub limit : b'.max_verifier_rounds ≡ b.max_verifier_rounds

SameRounds-refl : (b : ExecutionBudget) → SameRounds b b
SameRounds-refl b = record { rounds = refl; limit = refl }

SameRounds-trans : (a b c : ExecutionBudget) → SameRounds a b → SameRounds b c → SameRounds a c
SameRounds-trans a b c h k = record { rounds = omega arith; limit = omega arith }

finish_chat-SameRounds :
    (l : Locals) (now : ℕ) (n n' : Option ℕ) (b b' : ExecutionBudget)
    → begin_model_attempt b none n now ≡ ok (b', n')
    → SameRounds b (finish_chat l b')
unfolding begin_model_attempt finish_chat finish_model_attempt
finish_chat-SameRounds l now n n' b b' e = ground arith

chat-SameRounds : (a : Attempt) (n : Option ℕ) (b : ExecutionBudget) → SameRounds b (chat a n b).1
unfolding chat
chat-SameRounds a n b = elim (Result-cases (begin_model_attempt b none n a.now)) [
  | inl ((b', n'), e) ↦
      rw (e, chat) (finish_chat-SameRounds (chat_body a.response).1 a.now n n' b b' e)
  | inr (_, e) ↦ rw (e, chat) (SameRounds-refl b)
]

run_attempts-SameRounds :
    (attempts : List Attempt) (n : Option ℕ) (b : ExecutionBudget)
    → SameRounds b (run_attempts attempts n b).1
unfolding run_attempts
run_attempts-SameRounds [] n b = SameRounds-refl b
run_attempts-SameRounds (a ∷ rest) n b =
    let ((r, n'), b') = chat a n b in
    let done = chat-SameRounds a n b in
    elim (Result-cases r) [
      | inl (_, e) ↦
          rw (e, run_attempts)
            (SameRounds-trans b b' (run_attempts rest n' b').1 done
              (run_attempts-SameRounds rest n' b'))
      | inr (_, e) ↦ rw (e, run_attempts) done
    ]

logical-SameRounds :
    (b b' : ExecutionBudget) (now : ℕ)
    → record_logical_model_operation b now ≡ ok b'
    → SameRounds b b'
unfolding record_logical_model_operation
logical-SameRounds b b' now e = ground arith

invoke_model-SameRounds {ℓ} :
    {T : Type ℓ} (call : ModelCall T) (b : ExecutionBudget) → SameRounds b (invoke_model call b).1
unfolding invoke_model
invoke_model-SameRounds call b =
    elim (Result-cases (record_logical_model_operation b call.started)) [
      | inl (b', e) ↦ ground (
        arith,
        e,
        logical-SameRounds b b' call.started e,
        run_attempts-SameRounds call.attempts (some 0) b',
      )
      | inr (_, e) ↦ rw (e, invoke_model) (SameRounds-refl b)
    ]

try_candidates-SameRounds :
    (v : Services) (manual : Bool) (place : Place) (cs : List Candidate) (b : ExecutionBudget)
    → SameRounds b (try_candidates v manual place cs b).1
unfolding try_candidates
try_candidates-SameRounds v manual place [] b = SameRounds-refl b
try_candidates-SameRounds v manual place (c ∷ rest) b =
    let b' = (execute manual c.name c.call b).1 in
    ground (
      arith,
      execute-IsSettled manual c.name c.call b,
      try_candidates-SameRounds v manual place rest b',
    )

search_queries-SameRounds :
    (v : Services) (manual : Bool) (run_id task_id : String) (rounds index : ℕ) (qs : List Query)
    (f : Findings) (b : ExecutionBudget)
    → SameRounds b (search_queries v manual run_id task_id rounds index qs f b).1
unfolding search_queries
search_queries-SameRounds v manual run_id task_id rounds index [] f b = SameRounds-refl b
search_queries-SameRounds v manual run_id task_id rounds index (q ∷ rest) f b =
    let place = query_place run_id task_id rounds index q in
    let (r, b') = try_candidates v manual place q.candidates b in
    let kept = try_candidates-SameRounds v manual place q.candidates b in
    elim (Search-cases r) [
      | inl (found, e) ↦
          rw (e, search_queries)
            (SameRounds-trans b b'
              (search_queries v manual run_id task_id rounds (index + 1) rest (add_finding f found)
                b').1
              kept
              (search_queries-SameRounds v manual run_id task_id rounds (index + 1) rest
                (add_finding f found) b'))
      | inr (inl (_, e)) ↦ rw (e, search_queries) kept
      | inr (inr (_, e)) ↦ rw (e, search_queries) kept
    ]

module _ (v : Services) (settings : Settings) (a : Answers) (s : GraphState)
    (b : ExecutionBudget) where
  pub plan_node-SameRounds : SameRounds b (plan_node v settings a s b).1
  unfolding plan_node
  plan_node-SameRounds = ground (arith, invoke_model-SameRounds a.planning b)

  pub worker_node-SameRounds : SameRounds b (worker_node settings a s b).1
  unfolding worker_node
  worker_node-SameRounds = ground (arith, invoke_model-SameRounds a.working b)

  pub revise_node-SameRounds : SameRounds b (revise_node settings a s b).1
  unfolding revise_node
  revise_node-SameRounds = ground (arith, invoke_model-SameRounds a.working (count_revision b))

  pub replan_node-SameRounds : SameRounds b (replan_node v settings a s b).1
  unfolding replan_node
  replan_node-SameRounds =
      ground (arith, invoke_model-SameRounds a.planning (count_replans b (s.replans + 1)))

  pub advance_node-SameRounds : SameRounds b (advance_node v s b).1
  unfolding advance_node
  advance_node-SameRounds = ground arith

  research_task-SameRounds :
      (task : PlanTask) (b' : ExecutionBudget)
      → SameRounds b' (research_task v settings a s task b').1
  unfolding research_task
  research_task-SameRounds task b' =
      search_queries-SameRounds v settings.manual_metering s.run_id (research_task_id s task)
        (s.research_rounds + 1) 1 a.queries (record { evidence = s.evidence; tools = [] }) b'

  pub research_node-SameRounds : SameRounds b (research_node v settings a s b).1
  unfolding research_node
  research_node-SameRounds = elim (Option-cases (current_task s)) [
    | inl e ↦ ground (arith, e)
    | inr (task, e) ↦
        ground (arith, e, research_task-SameRounds task (count_research b (s.research_rounds + 1)))
  ]

  pub finalize_node-SameRounds : SameRounds b (finalize_node settings a s b).1
  unfolding finalize_node
  finalize_node-SameRounds = ground (arith, invoke_model-SameRounds a.synthesis b)

  pub verify_final_node-SameRounds : SameRounds b (verify_final_node settings a s b).1
  unfolding verify_final_node
  verify_final_node-SameRounds = ground (arith, invoke_model-SameRounds a.final_check b)

  pub revise_final_node-SameRounds : SameRounds b (revise_final_node a s b).1
  unfolding revise_final_node
  revise_final_node-SameRounds =
      ground
        (arith, invoke_model-SameRounds a.synthesis (count_final b (s.final_revision_rounds + 1)))

  verify_task-SameRounds :
      (w : WorkerResult) (task : PlanTask) (b' : ExecutionBudget)
      → SameRounds b' (verify_task settings a s w task b').1
  unfolding verify_task
  verify_task-SameRounds w task b' = ground (arith, invoke_model-SameRounds a.verifying b')

  -- `_verify` counts one round, and goes on only if that round is within the limit.
  pub verify_node-SameRounds : SameRounds (count_round b) (verify_node settings a s b).1
  unfolding verify_node
  verify_node-SameRounds = elim (Option-cases (current_task s)) [
    | inl e ↦ ground (arith, e)
    | inr (task, e) ↦ elim (Option-cases s.worker_result) [
      | inl none_yet ↦ ground (arith, e, none_yet)
      | inr (w, given) ↦ ground (arith, e, given, verify_task-SameRounds w task (count_round b))
    ]
  ]
