-- ===== src/Graph/Provenance/Run.antt =====
-- app/graph.py: the evidence of a run, from node to node.
use langchain_langraph_app_l.Prelude.{
  ℕ, zero, suc, ◌+◌, inl, inr, refl, Result-cases, Result, ok, err,
}
use langchain_langraph_app_l.Meter.{ExecutionBudget}
use langchain_langraph_app_l.Graph.State.{GraphState, Settings, Exception, Answers}
use langchain_langraph_app_l.Graph.Routes.{Node, finish, route}
use langchain_langraph_app_l.Graph.Calls.{Services}
use langchain_langraph_app_l.Graph.Finishing.{terminated}
use langchain_langraph_app_l.Graph.Machine.{
  Config, at, raised as failed, run_node, follow, step, run,
}
use langchain_langraph_app_l.Graph.Provenance.States.{
  HasTraces, OkTraces, Same-OkTraces, Same-HasTraces, worker_node-Same, revise_node-Same,
  verify_node-Same, finalize_node-Same, verify_final_node-Same, revise_final_node-Same,
}
use langchain_langraph_app_l.Graph.Provenance.Nodes.{
  plan_node-OkTraces, research_node-OkTraces, replan_node-OkTraces, advance_node-OkTraces,
}

abbrev pub Traced : Services → (ℕ → Answers) → Config → Type 0
Traced v answers (at n s b) = HasTraces v answers s
Traced v answers (failed x b) = Unit

module _ (v : Services) (settings : Settings) (answers : ℕ → Answers) where
  run_node-OkTraces :
      (n : Node) (tick : ℕ) (s : GraphState) (b : ExecutionBudget)
      → HasTraces v answers s
      → OkTraces v answers (run_node v settings n (answers tick) s b).0
  unfolding run_node terminated
  run_node-OkTraces Node.plan tick s b h =
      plan_node-OkTraces v answers settings (answers tick) s b h
  run_node-OkTraces Node.research tick s b h = research_node-OkTraces v answers settings s b tick h
  run_node-OkTraces Node.worker tick s b h =
      Same-OkTraces v answers s _ (worker_node-Same settings (answers tick) s b) h
  run_node-OkTraces Node.verify tick s b h =
      Same-OkTraces v answers s _ (verify_node-Same settings (answers tick) s b) h
  run_node-OkTraces Node.revise tick s b h =
      Same-OkTraces v answers s _ (revise_node-Same settings (answers tick) s b) h
  run_node-OkTraces Node.replan tick s b h =
      replan_node-OkTraces v answers settings s b (answers tick) h
  run_node-OkTraces Node.advance tick s b h = advance_node-OkTraces v answers settings s b h
  run_node-OkTraces Node.finalize tick s b h =
      Same-OkTraces v answers s _ (finalize_node-Same settings (answers tick) s b) h
  run_node-OkTraces Node.verify_final tick s b h =
      Same-OkTraces v answers s _ (verify_final_node-Same settings (answers tick) s b) h
  run_node-OkTraces Node.revise_final tick s b h =
      Same-OkTraces v answers s _ (revise_final_node-Same settings (answers tick) s b) h
  run_node-OkTraces Node.terminate tick s b h =
      Same-HasTraces v answers s _ (refl, refl, refl, refl, refl) h
  run_node-OkTraces finish tick s b h = h

  follow-Traced :
      (n : Node) (r : Result Exception GraphState) (b : ExecutionBudget)
      → OkTraces v answers r
      → Traced v answers (follow v settings n (r, b))
  follow-Traced n (err x) b h = tt
  follow-Traced n (ok s) b h = elim (Result-cases (route settings n s)) [
    | inl (n', e) ↦ rw (e, Traced) h
    | inr (x, e) ↦ rw (e, Traced) tt
  ]

  step-Traced :
      (tick : ℕ) (c : Config)
      → Traced v answers c
      → Traced v answers (step v settings (answers tick) c)
  unfolding step
  step-Traced tick (failed x b) h = tt
  step-Traced tick (at finish s b) h = h
  step-Traced tick (at n s b) h =
      follow-Traced n (run_node v settings n (answers tick) s b).0
        (run_node v settings n (answers tick) s b).1 (run_node-OkTraces n tick s b h)

  -- From a state whose evidence is traced, such as one without evidence or results at task 0,
  -- whatever the clock, the models and the tools answer: after every number of steps each item of
  -- the evidence at hand, and of the evidence kept with a result, can carry no claim, or is made
  -- of a reply that succeeded, which a tool that a query of this run ranks, and whose name has a
  -- read marker and no write marker, returned; and it is labelled with the run, with that query
  -- and tool, and with the task: the one at hand, or the one of the result, by its ID, or by its
  -- number when it has none.
  pub run-Traced :
      (fuel tick : ℕ) (c : Config)
      → Traced v answers c
      → Traced v answers (run v settings fuel answers tick c)
  unfolding run
  run-Traced zero tick c h = h
  run-Traced (suc fuel) tick c h =
      run-Traced fuel (tick + 1) (step v settings (answers tick) c) (step-Traced tick c h)
