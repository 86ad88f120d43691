-- ===== src/Graph/Accepted/Advance.antt =====
-- app/graph.py: the results that `_advance` keeps, and the next task.
use langchain_langraph_app_l.Prelude.{
  suc, ◌+◌, ◌≤◌, ◌≡◌, inl, inr, true, false, some, [], ◌∷◌, arith, All-append, Option-cases, ok,
  get_elem?-some, ltb, ltb→lt, Bool-cases,
}
use langchain_langraph_app_l.Meter.{ExecutionBudget}
use langchain_langraph_app_l.Graph.State.{PlanTask, tasks, GraphState}
use langchain_langraph_app_l.Graph.Routes.{stopped, task_count}
use langchain_langraph_app_l.Graph.Calls.{Services, current_task, set_next_action}
use langchain_langraph_app_l.Graph.Planning.{advance_node, task_record, advanced}
use langchain_langraph_app_l.Graph.Accepted.{IsAccepted, IsGood, HasTask, IsPassed}
use langchain_langraph_app_l.Graph.Accepted.Updates.{Post, set_next_action-eq_ok}

-- What `advance` leaves: it never stops the run, and a task is current unless all are done.
pub record IsAdvanced (s : GraphState) : Type 0 where
  pub good : IsGood s
  pub goes_on : stopped s ≡ false
  pub has_task : suc s.task_index ≤ task_count s.plan → HasTask s

next_task : (s : GraphState) → suc s.task_index ≤ task_count s.plan → HasTask s
unfolding current_task
next_task s h = elim (Option-cases s.plan) [
  | inl e ↦ absurd (ground arith)
  | inr (p, e) ↦
      let (task, found) = get_elem?-some (tasks p) s.task_index (rw e at h) in (task, rw e found)
]

task_record-IsAccepted :
    (s : GraphState) (h : IsPassed s) → IsAccepted s.run_id (task_record s h.verified.task)
task_record-IsAccepted s h = record {
  w = h.verified.w;
  report = h.verified.report;
  has_result = h.verified.has_result;
  has_report = h.verified.has_report;
  passed = h.passed;
  complete = h.complete;
  grounded = h.verified.grounded;
  supported = h.verified.supported h.passed;
}

set_next_action-IsAdvanced :
    (v : Services) (s : GraphState)
    → IsGood s
    → stopped s ≡ false
    → HasTask s
    → Post IsAdvanced (set_next_action v s)
unfolding current_task
set_next_action-IsAdvanced v s good goes_on (task, e) =
    rw (set_next_action-eq_ok v s task e)
      (record { good = good; goes_on = goes_on; has_task = λ _. (task, e) })

module _ (v : Services) (s : GraphState) (b : ExecutionBudget) (task : PlanTask) where
  advance_more :
      current_task s ≡ some task
      → ltb (s.task_index + 1) (task_count s.plan) ≡ true
      → (advance_node v s b).0 ≡ set_next_action v (advanced s task)
  unfolding advance_node
  advance_more e more = rw (e, advance_node, more)

  advance_last :
      current_task s ≡ some task
      → ltb (s.task_index + 1) (task_count s.plan) ≡ false
      → (advance_node v s b).0 ≡ ok (advanced s task)
  unfolding advance_node
  advance_last e all_done = rw (e, advance_node, all_done)

pub advance_node-Post :
    (v : Services) (s : GraphState) (b : ExecutionBudget)
    → IsGood s
    → IsPassed s
    → Post IsAdvanced (advance_node v s b).0
advance_node-Post v s b good h =
    let task = h.verified.task in
    let s' = advanced s task in
    let good' : IsGood s' =
      All-append (IsAccepted s.run_id) s.task_results (task_record s task ∷ []) good
        (task_record-IsAccepted s h, tt) in
    elim (Bool-cases (ltb s'.task_index (task_count s'.plan))) [
      | inl more ↦
          rw (advance_more v s b task h.verified.has_task more)
            (set_next_action-IsAdvanced v s' good' h.goes_on (next_task s' (ltb→lt _ _ more)))
      | inr all_done ↦
          rw (advance_last v s b task h.verified.has_task all_done)
            (record { good = good'; goes_on = h.goes_on; has_task = λ less. absurd (ground arith) })
    ]
