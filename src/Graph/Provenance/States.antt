-- ===== src/Graph/Provenance/States.antt =====
-- app/graph.py: when the evidence of a state is traced, and which nodes leave it as it is.
use langchain_langraph_app_l.Prelude.{
  ℕ, ◌+◌, ◌≡◌, List, [], ◌∷◌, ◌++◌, length, arith, Result, ok, err, String, Option, some,
}
use langchain_langraph_app_l.Meter.{ExecutionBudget}
use langchain_langraph_app_l.Evidence.{EvidenceItem}
use langchain_langraph_app_l.Graph.State.{
  PlanTask, TaskRecord, GraphState, Settings, Exception, Answers,
}
use langchain_langraph_app_l.Graph.Calls.{Services, current_task}
use langchain_langraph_app_l.Graph.Working.{worker_node, revise_node}
use langchain_langraph_app_l.Graph.Verifying.{verify_task, verify_node}
use langchain_langraph_app_l.Graph.Finishing.{
  finalize_node, verify_final_node, revise_final_node, terminated,
}
use langchain_langraph_app_l.Graph.Provenance.{AllTraced}

module _ (v : Services) (answers : ℕ → Answers) (run_id : String) where
  -- The evidence kept with each result, from the task number `index` on, is traced to its task.
  abbrev pub ResultsTraced : ℕ → List TaskRecord → Type 0
  ResultsTraced index [] = Unit
  ResultsTraced index (r ∷ rest) =
      AllTraced v answers run_id (some r.task) index r.evidence × ResultsTraced (index + 1) rest

  moved :
      (current : Option PlanTask) (n m : ℕ) (items : List EvidenceItem)
      → n ≡ m
      → AllTraced v answers run_id current n items
      → AllTraced v answers run_id current m items
  moved current n m items e h = rw (← e) h

  pub ResultsTraced-append :
      (index n : ℕ) (results : List TaskRecord) (r : TaskRecord)
      → n ≡ index + length results
      → ResultsTraced index results
      → AllTraced v answers run_id (some r.task) n r.evidence
      → ResultsTraced index (results ++ r ∷ [])
  ResultsTraced-append index n [] r e h k =
      (moved (some r.task) n index r.evidence (omega arith) k, tt)
  ResultsTraced-append index n (x ∷ rest) r e h k =
      (h.0, ResultsTraced-append (index + 1) n rest r (omega arith) h.1 k)

-- The task at hand stands at the number of the results, and the evidence at hand is traced to it; the
-- evidence of each result is traced to its task.
pub record HasTraces (v : Services) (answers : ℕ → Answers) (s : GraphState) : Type 0 where
  pub counted : s.task_index ≡ length s.task_results
  pub at_hand : AllTraced v answers s.run_id (current_task s) s.task_index s.evidence
  pub in_results : ResultsTraced v answers s.run_id 0 s.task_results

-- What `HasTraces` reads is the same.
abbrev pub Same : GraphState → GraphState → Type 0
Same s s' =
    (s'.run_id ≡ s.run_id)
    × (s'.plan ≡ s.plan)
    × (s'.task_index ≡ s.task_index)
    × (s'.evidence ≡ s.evidence)
    × (s'.task_results ≡ s.task_results)

abbrev pub OkSame : GraphState → Result Exception GraphState → Type 0
OkSame s (ok s') = Same s s'
OkSame s (err x) = Unit

abbrev pub OkTraces : Services → (ℕ → Answers) → Result Exception GraphState → Type 0
OkTraces v answers (ok s) = HasTraces v answers s
OkTraces v answers (err x) = Unit

module _ (v : Services) (answers : ℕ → Answers) where
  same_task :
      (s s' : GraphState)
      → s'.plan ≡ s.plan
      → s'.task_index ≡ s.task_index
      → current_task s' ≡ current_task s
  unfolding current_task
  same_task s s' p i = ground arith

  pub Same-HasTraces :
      (s s' : GraphState) → Same s s' → HasTraces v answers s → HasTraces v answers s'
  Same-HasTraces s s' (e, p, i, f, g) h = record {
    counted = ground (arith, h.counted);
    at_hand = rw (same_task s s' p i, e, i, f) h.at_hand;
    in_results = rw (e, g) h.in_results;
  }

  pub Same-OkTraces :
      (s : GraphState) (r : Result Exception GraphState)
      → OkSame s r
      → HasTraces v answers s
      → OkTraces v answers r
  Same-OkTraces s (ok s') e h = Same-HasTraces s s' e h
  Same-OkTraces s (err x) e h = tt

module _ (settings : Settings) (a : Answers) (s : GraphState) (b : ExecutionBudget) where
  pub worker_node-Same : OkSame s (worker_node settings a s b).0
  unfolding worker_node
  worker_node-Same = ground arith

  pub revise_node-Same : OkSame s (revise_node settings a s b).0
  unfolding revise_node
  revise_node-Same = ground arith

  pub verify_node-Same : OkSame s (verify_node settings a s b).0
  unfolding verify_node verify_task
  verify_node-Same = ground arith

  pub finalize_node-Same : OkSame s (finalize_node settings a s b).0
  unfolding finalize_node terminated
  finalize_node-Same = ground arith

  pub verify_final_node-Same : OkSame s (verify_final_node settings a s b).0
  unfolding verify_final_node
  verify_final_node-Same = ground arith

  pub revise_final_node-Same : OkSame s (revise_final_node a s b).0
  unfolding revise_final_node
  revise_final_node-Same = ground arith
