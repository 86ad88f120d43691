-- ===== src/Graph/Spending/Run.antt =====
-- app/graph.py: what each node spends, and a run.
use langchain_langraph_app_l.Prelude.{
  ℕ, zero, suc, ◌+◌, inl, inr, [], arith, Option-cases, ok, err, Result,
}
use langchain_langraph_app_l.Meter.{ExecutionBudget}
use langchain_langraph_app_l.Graph.State.{
  PlanTask, WorkerResult, GraphState, Settings, Answers, Exception,
}
use langchain_langraph_app_l.Graph.Routes.{Node, finish}
use langchain_langraph_app_l.Graph.Calls.{Services, current_task}
use langchain_langraph_app_l.Graph.Planning.{count_replans, plan_node, replan_node, advance_node}
use langchain_langraph_app_l.Graph.Working.{count_revision, worker_node, revise_node}
use langchain_langraph_app_l.Graph.Verifying.{count_round, verify_task, verify_node}
use langchain_langraph_app_l.Graph.Researching.{
  research_task_id, count_research, research_task, research_node,
}
use langchain_langraph_app_l.Graph.Finishing.{
  count_final, finalize_node, verify_final_node, revise_final_node,
}
use langchain_langraph_app_l.Graph.Machine.{Config, at, raised, run_node, follow, step, run}
use langchain_langraph_app_l.Graph.Spending.{
  IsMetered, invoke_model-IsMetered, search_queries-IsMetered,
}

module _ (v : Services) (settings : Settings) (a : Answers) (s : GraphState) where
  plan_node-IsMetered :
      (b : ExecutionBudget) → IsMetered b → IsMetered (plan_node v settings a s b).1
  unfolding plan_node
  plan_node-IsMetered b h = ground (arith, invoke_model-IsMetered a.planning b h)

  worker_node-IsMetered :
      (b : ExecutionBudget) → IsMetered b → IsMetered (worker_node settings a s b).1
  unfolding worker_node
  worker_node-IsMetered b h = ground (arith, invoke_model-IsMetered a.working b h)

  revise_node-IsMetered :
      (b : ExecutionBudget) → IsMetered b → IsMetered (revise_node settings a s b).1
  unfolding revise_node
  revise_node-IsMetered b h =
      let counted : IsMetered (count_revision b) = ground arith in
      ground (arith, counted, invoke_model-IsMetered a.working (count_revision b) counted)

  replan_node-IsMetered :
      (b : ExecutionBudget) → IsMetered b → IsMetered (replan_node v settings a s b).1
  unfolding replan_node
  replan_node-IsMetered b h =
      let b' = count_replans b (s.replans + 1) in
      let counted : IsMetered b' = ground arith in
      ground (arith, counted, invoke_model-IsMetered a.planning b' counted)

  advance_node-IsMetered : (b : ExecutionBudget) → IsMetered b → IsMetered (advance_node v s b).1
  unfolding advance_node
  advance_node-IsMetered b h = ground arith

  research_node-IsMetered :
      (b : ExecutionBudget) → IsMetered b → IsMetered (research_node v settings a s b).1
  unfolding research_node research_task
  research_node-IsMetered b h =
      let b' = count_research b (s.research_rounds + 1) in
      let counted : IsMetered b' = ground arith in
      elim (Option-cases (current_task s)) [
        | inl e ↦ ground (arith, e, counted)
        | inr (task, e) ↦ ground (
          arith,
          e,
          counted,
          search_queries-IsMetered v settings.manual_metering s.run_id (research_task_id s task)
              (s.research_rounds + 1) 1 a.queries (record { evidence = s.evidence; tools = [] }) b'
              counted,
        )
      ]

  finalize_node-IsMetered :
      (b : ExecutionBudget) → IsMetered b → IsMetered (finalize_node settings a s b).1
  unfolding finalize_node
  finalize_node-IsMetered b h = ground (arith, invoke_model-IsMetered a.synthesis b h)

  verify_final_node-IsMetered :
      (b : ExecutionBudget) → IsMetered b → IsMetered (verify_final_node settings a s b).1
  unfolding verify_final_node
  verify_final_node-IsMetered b h = ground (arith, invoke_model-IsMetered a.final_check b h)

  revise_final_node-IsMetered :
      (b : ExecutionBudget) → IsMetered b → IsMetered (revise_final_node a s b).1
  unfolding revise_final_node
  revise_final_node-IsMetered b h =
      let b' = count_final b (s.final_revision_rounds + 1) in
      let counted : IsMetered b' = ground arith in
      ground (arith, counted, invoke_model-IsMetered a.synthesis b' counted)

  verify_task-IsMetered :
      (w : WorkerResult) (task : PlanTask) (b : ExecutionBudget)
      → IsMetered b
      → IsMetered (verify_task settings a s w task b).1
  unfolding verify_task
  verify_task-IsMetered w task b h = ground (arith, h, invoke_model-IsMetered a.verifying b h)

  verify_node-IsMetered :
      (b : ExecutionBudget) → IsMetered b → IsMetered (verify_node settings a s b).1
  unfolding verify_node
  verify_node-IsMetered b h =
      let counted : IsMetered (count_round b) = ground arith in
      elim (Option-cases (current_task s)) [
        | inl e ↦ ground (arith, e, counted)
        | inr (task, e) ↦ elim (Option-cases s.worker_result) [
          | inl f ↦ ground (arith, e, f, counted)
          | inr (w, f) ↦
              ground (arith, e, f, counted, verify_task-IsMetered w task (count_round b) counted)
        ]
      ]

abbrev pub budget_of : Config → ExecutionBudget
budget_of (at n s b) = b
budget_of (raised x b) = b

module _ (v : Services) (settings : Settings) where
  follow-IsMetered :
      (n : Node) (r : Result Exception GraphState) (b : ExecutionBudget)
      → IsMetered b
      → IsMetered (budget_of (follow v settings n (r, b)))
  follow-IsMetered n (err x) b h = h
  follow-IsMetered n (ok s) b h = ground (arith, h)

  run_node-IsMetered :
      (n : Node) (a : Answers) (s : GraphState) (b : ExecutionBudget)
      → IsMetered b
      → IsMetered (run_node v settings n a s b).1
  unfolding run_node
  run_node-IsMetered Node.plan a s b h = plan_node-IsMetered v settings a s b h
  run_node-IsMetered Node.research a s b h = research_node-IsMetered v settings a s b h
  run_node-IsMetered Node.worker a s b h = worker_node-IsMetered v settings a s b h
  run_node-IsMetered Node.verify a s b h = verify_node-IsMetered v settings a s b h
  run_node-IsMetered Node.revise a s b h = revise_node-IsMetered v settings a s b h
  run_node-IsMetered Node.replan a s b h = replan_node-IsMetered v settings a s b h
  run_node-IsMetered Node.advance a s b h = advance_node-IsMetered v settings a s b h
  run_node-IsMetered Node.finalize a s b h = finalize_node-IsMetered v settings a s b h
  run_node-IsMetered Node.verify_final a s b h = verify_final_node-IsMetered v settings a s b h
  run_node-IsMetered Node.revise_final a s b h = revise_final_node-IsMetered v settings a s b h
  run_node-IsMetered Node.terminate a s b h = h
  run_node-IsMetered finish a s b h = h

  step-IsMetered :
      (a : Answers) (c : Config)
      → IsMetered (budget_of c)
      → IsMetered (budget_of (step v settings a c))
  unfolding step
  step-IsMetered a (raised x b) h = h
  step-IsMetered a (at finish s b) h = h
  step-IsMetered a (at n s b) h =
      follow-IsMetered n (run_node v settings n a s b).0 (run_node v settings n a s b).1
        (run_node-IsMetered n a s b h)

  -- From a budget whose attempts are all counted and within the limits, such as a new one, whatever
  -- the clock, the models and the tools answer: after every number of steps, and when an exception
  -- ends the run, too, each attempt of a model or a tool that has begun is counted once as a success
  -- or a failure, and neither limit is passed.
  pub run-IsMetered :
      (answers : ℕ → Answers) (fuel tick : ℕ) (c : Config)
      → IsMetered (budget_of c)
      → IsMetered (budget_of (run v settings fuel answers tick c))
  unfolding run
  run-IsMetered answers zero tick c h = h
  run-IsMetered answers (suc fuel) tick c h =
      run-IsMetered answers fuel (tick + 1) (step v settings (answers tick) c)
        (step-IsMetered (answers tick) c h)
