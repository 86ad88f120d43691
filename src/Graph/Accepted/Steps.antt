-- ===== src/Graph/Accepted/Steps.antt =====
-- app/graph.py: each node but `_advance`, and the invariant of the run.
use langchain_langraph_app_l.Prelude.{◌+◌, ◌≡◌, some, [], ◌++◌, arith, ok}
use langchain_langraph_app_l.Meter.{ExecutionBudget}
use langchain_langraph_app_l.Graph.State.{PlanTask, WorkerResult, GraphState, Settings, Answers}
use langchain_langraph_app_l.Graph.Calls.{Services, current_task, invoke_model}
use langchain_langraph_app_l.Graph.Planning.{
  validated_plan, echo_plan, count_replans, plan_node, replan_node,
}
use langchain_langraph_app_l.Graph.Working.{
  validated_result, echo_result, count_revision, worker_node, revise_node,
}
use langchain_langraph_app_l.Graph.Verifying.{
  echo_report, deterministic_output_issues, grounding_issues, task_grounding, count_round,
  verify_task, verify_node,
}
use langchain_langraph_app_l.Graph.Researching.{
  research_task_id, count_research, search_queries, research_task, research_node,
}
use langchain_langraph_app_l.Graph.Finishing.{finalize_node, verify_final_node, revise_final_node}
use langchain_langraph_app_l.Graph.Errors.{invoke_model-ExternalError, search_queries-ExternalRaise}
use langchain_langraph_app_l.Graph.Accepted.{IsGood, HasTask, IsWorked, IsVerified}
use langchain_langraph_app_l.Graph.Accepted.Updates.{
  Post, StopsOr, planned-Post, worker_update-Post, revise_update-Post,
  validated_result-ExternalError, replanned-Post, validated_plan-ExternalError, verify_update-Post,
  search_update-Post,
}

module _ (v : Services) (settings : Settings) (a : Answers) (s : GraphState)
    (b : ExecutionBudget) where
  pub plan_node-Post : IsGood s → Post (StopsOr HasTask) (plan_node v settings a s b).0
  unfolding plan_node
  plan_node-Post good = ground (
    arith,
    planned-Post v a.now s (invoke_model a.planning b).0 good
        (invoke_model-ExternalError a.planning b),
    planned-Post v a.now s (ok (echo_plan s.message)) good tt,
  )

  pub worker_node-Post :
      IsGood s → HasTask s → Post (StopsOr IsWorked) (worker_node settings a s b).0
  unfolding worker_node
  worker_node-Post good (task, e) = ground (
    arith,
    worker_update-Post s (invoke_model a.working b).0 good (task, e)
        (invoke_model-ExternalError a.working b),
    worker_update-Post s (ok (echo_result s.message)) good (task, e) tt,
  )

  pub revise_node-Post :
      IsGood s → IsWorked s → Post (StopsOr IsWorked) (revise_node settings a s b).0
  unfolding revise_node
  revise_node-Post good h = ground (
    arith,
    h.has_task,
    revise_update-Post s (invoke_model a.working (count_revision b)).0 good (h.task, h.has_task)
        (invoke_model-ExternalError a.working (count_revision b)),
    revise_update-Post s (validated_result s.worker_result) good (h.task, h.has_task)
        (validated_result-ExternalError s h),
  )

  pub replan_node-Post :
      IsGood s → HasTask s → Post (StopsOr HasTask) (replan_node v settings a s b).0
  unfolding replan_node
  replan_node-Post good t =
      let counted = count_replans b (s.replans + 1) in
      ground (
        arith,
        replanned-Post v s (invoke_model a.planning counted).0
            (invoke_model-ExternalError a.planning counted),
        replanned-Post v s (validated_plan s.plan) (validated_plan-ExternalError s t),
      )

  verify_task-Post :
      (w : WorkerResult) (task : PlanTask) (b' : ExecutionBudget)
      → IsGood s
      → s.worker_result ≡ some w
      → current_task s ≡ some task
      → Post (StopsOr IsVerified) (verify_task settings a s w task b').0
  unfolding verify_task
  verify_task-Post w task b' good given e =
      let grounding = task_grounding s w task in
      let issues = deterministic_output_issues w.answer ++ grounding_issues grounding in
      ground (
        arith,
        verify_update-Post s w task (invoke_model a.verifying b').0 good given e
            (invoke_model-ExternalError a.verifying b'),
        verify_update-Post s w task (ok (echo_report issues)) good given e tt,
      )

  pub verify_node-Post :
      IsGood s → IsWorked s → Post (StopsOr IsVerified) (verify_node settings a s b).0
  unfolding verify_node
  verify_node-Post good h = ground (
    arith,
    h.has_task,
    h.has_result,
    verify_task-Post h.w h.task (count_round b) good h.has_result h.has_task,
  )

  research_task-Post :
      (task : PlanTask) (b' : ExecutionBudget)
      → IsGood s
      → HasTask s
      → Post (StopsOr HasTask) (research_task v settings a s task b').0
  unfolding research_task
  research_task-Post task b' good t =
      let task_id = research_task_id s task in
      search_update-Post s task_id
        (search_queries v settings.manual_metering s.run_id task_id (s.research_rounds + 1) 1
          a.queries (record { evidence = s.evidence; tools = [] }) b').0
        good t
        (search_queries-ExternalRaise v settings.manual_metering s.run_id task_id
          (s.research_rounds + 1) 1 a.queries (record { evidence = s.evidence; tools = [] }) b')

  pub research_node-Post :
      IsGood s → HasTask s → Post (StopsOr HasTask) (research_node v settings a s b).0
  unfolding research_node
  research_node-Post good (task, e) =
      let counted = count_research b (s.research_rounds + 1) in
      ground (arith, e, research_task-Post task counted good (task, e))

  pub finalize_node-Post : IsGood s → Post IsGood (finalize_node settings a s b).0
  unfolding finalize_node
  finalize_node-Post good = ground arith

  pub verify_final_node-Post : IsGood s → Post IsGood (verify_final_node settings a s b).0
  unfolding verify_final_node
  verify_final_node-Post good = ground (arith, invoke_model-ExternalError a.final_check b)

  pub revise_final_node-Post : IsGood s → Post IsGood (revise_final_node a s b).0
  unfolding revise_final_node
  revise_final_node-Post good = ground arith
