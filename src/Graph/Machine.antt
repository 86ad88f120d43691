-- ===== src/Graph/Machine.antt =====
-- app/graph.py: the compiled graph. One step runs a node and follows its edge; a run goes on until
-- END or an exception. `answers` gives what the world answers in each step.
use langchain_langraph_app_l.Prelude.{ℕ, zero, suc, ◌+◌, ok, err}
use langchain_langraph_app_l.Meter.{ExecutionBudget}
use langchain_langraph_app_l.Graph.State.{GraphState, Settings, Exception, Answers}
use langchain_langraph_app_l.Graph.Routes.{Node, finish, route}
use langchain_langraph_app_l.Graph.Calls.{Services, Outcome}
use langchain_langraph_app_l.Graph.Planning.{plan_node, replan_node, advance_node}
use langchain_langraph_app_l.Graph.Working.{worker_node, revise_node}
use langchain_langraph_app_l.Graph.Verifying.{verify_node}
use langchain_langraph_app_l.Graph.Researching.{research_node}
use langchain_langraph_app_l.Graph.Finishing.{
  terminated, finalize_node, verify_final_node, revise_final_node,
}

pub data Config : Type 0 where
  at : Node → GraphState → ExecutionBudget → Config
  raised : Exception → ExecutionBudget → Config

module _ (v : Services) (settings : Settings) where
  unfoldable pub run_node : Node → Answers → GraphState → ExecutionBudget → Outcome
  run_node Node.plan a s b = plan_node v settings a s b
  run_node Node.research a s b = research_node v settings a s b
  run_node Node.worker a s b = worker_node settings a s b
  run_node Node.verify a s b = verify_node settings a s b
  run_node Node.revise a s b = revise_node settings a s b
  run_node Node.replan a s b = replan_node v settings a s b
  run_node Node.advance a s b = advance_node v s b
  run_node Node.finalize a s b = finalize_node settings a s b
  run_node Node.verify_final a s b = verify_final_node settings a s b
  run_node Node.revise_final a s b = revise_final_node a s b
  run_node Node.terminate a s b = (ok (terminated s), b)
  run_node finish a s b = (ok s, b)

  abbrev pub follow : Node → Outcome → Config
  follow n (ok s, b) = elim (route settings n s) [ ok n' ↦ at n' s b | err x ↦ raised x b ]
  follow n (err x, b) = raised x b

  -- END and an exception stay as they are.
  unfoldable pub step : Answers → Config → Config
  unfolding run_node
  step a (raised x b) = raised x b
  step a (at finish s b) = at finish s b
  step a (at n s b) = follow n (run_node n a s b)

  unfoldable pub run : ℕ → (ℕ → Answers) → ℕ → Config → Config
  run zero answers tick c = c
  run (suc fuel) answers tick c = run fuel answers (tick + 1) (step (answers tick) c)
