-- ===== src/Graph/Provenance/Nodes.antt =====
-- app/graph.py: what the nodes that plan, search and advance do to the evidence.
use langchain_langraph_app_l.Prelude.{
  ℕ, ◌+◌, ◌≡◌, inl, inr, refl, List, [], ◌∷◌, arith, ltb, Option-cases, Result-cases, Bool-cases,
  Result, ok, err, some, String, length-append,
}
use langchain_langraph_app_l.Meter.{ExecutionBudget, check}
use langchain_langraph_app_l.Evidence.{EvidenceItem}
use langchain_langraph_app_l.Graph.State.{
  PlanTask, ExecutionPlan, GraphState, Settings, Exception, Answers,
}
use langchain_langraph_app_l.Graph.Routes.{task_count}
use langchain_langraph_app_l.Graph.Calls.{
  Services, within_budget, invoke_model, current_task, set_next_action,
}
use langchain_langraph_app_l.Graph.Planning.{
  echo_plan, user_id, fresh_plan, planned, plan_node, restarted, replanned, replan_node,
  task_record, advanced, advance_node,
}
use langchain_langraph_app_l.Graph.Researching.{
  Search, done, halted, Findings, research_task_id, count_research, researched, search_update,
  research_task, research_node,
}
use langchain_langraph_app_l.Graph.Provenance.{
  AllTraced, research_task_id-IsFiled, evidence_from_metadata-AllTraced,
}
use langchain_langraph_app_l.Graph.Provenance.Queries.{
  SearchTraced, search_queries-SearchTraced, deduplicate_evidence-AllTraced,
}
use langchain_langraph_app_l.Graph.Provenance.States.{
  ResultsTraced-append, HasTraces, OkTraces, Same-HasTraces, Same-OkTraces,
}

module _ (v : Services) (answers : ℕ → Answers) where
  set_next_action-OkTraces :
      (s : GraphState) → HasTraces v answers s → OkTraces v answers (set_next_action v s)
  unfolding set_next_action
  set_next_action-OkTraces s h = elim (Option-cases (current_task s)) [
    | inl e ↦ rw (e, set_next_action) tt
    | inr (task, e) ↦
        rw (e, set_next_action) (Same-HasTraces v answers s _ (refl, refl, refl, refl, refl) h)
  ]

  planned-OkTraces :
      (now : ℕ) (s : GraphState) (r : Result Exception ExecutionPlan)
      → HasTraces v answers s
      → OkTraces v answers (planned v now s r)
  planned-OkTraces now s (ok p) h = set_next_action-OkTraces (fresh_plan v now s p) (record {
    counted = refl;
    at_hand =
        evidence_from_metadata-AllTraced v answers s.run_id v.sha256 user_id now s.supplied s.run_id
          "request" (current_task (fresh_plan v now s p)) 0;
    in_results = tt;
  })
  planned-OkTraces now s (err x) h =
      Same-OkTraces v answers s (planned v now s (err x)) (ground arith) h

  pub plan_node-OkTraces :
      (settings : Settings) (a : Answers) (s : GraphState) (b : ExecutionBudget)
      → HasTraces v answers s
      → OkTraces v answers (plan_node v settings a s b).0
  unfolding plan_node within_budget
  plan_node-OkTraces settings a s b h = elim (Result-cases (check b a.now)) [
    | inr (x, e) ↦
        rw (e, plan_node, within_budget, OkTraces)
          (Same-HasTraces v answers s _ (refl, refl, refl, refl, refl) h)
    | inl (u, e) ↦ elim (Bool-cases settings.ollama) [
      | inl f ↦
          rw (e, f, plan_node, within_budget, OkTraces)
            (planned-OkTraces a.now s (invoke_model a.planning b).0 h)
      | inr f ↦
          rw (e, f, plan_node, within_budget, OkTraces)
            (planned-OkTraces a.now s (ok (echo_plan s.message)) h)
    ]
  ]

  replanned-OkTraces :
      (s : GraphState) (r : Result Exception ExecutionPlan)
      → HasTraces v answers s
      → OkTraces v answers (replanned v s r)
  replanned-OkTraces s (ok p) h =
      set_next_action-OkTraces (restarted s p)
        (record { counted = refl; at_hand = tt; in_results = tt })
  replanned-OkTraces s (err x) h =
      Same-OkTraces v answers s (replanned v s (err x)) (ground arith) h

  researched-HasTraces :
      (s : GraphState) (task : PlanTask) (task_id : String) (items : List EvidenceItem)
      (tools : List String)
      → current_task s ≡ some task
      → HasTraces v answers s
      → AllTraced v answers s.run_id (some task) s.task_index items
      → HasTraces v answers (researched s task_id (record { evidence = items; tools = tools }))
  unfolding current_task
  researched-HasTraces s task task_id items [] e h k = record {
    counted = h.counted;
    at_hand = rw e k;
    in_results = h.in_results;
  }
  researched-HasTraces s task task_id items (tool ∷ tools) e h k = record {
    counted = h.counted;
    at_hand =
        rw e (deduplicate_evidence-AllTraced v answers s.run_id (some task) s.task_index items k);
    in_results = h.in_results;
  }

  searched-OkTraces :
      (s : GraphState) (task : PlanTask) (task_id : String) (r : Search Findings)
      → current_task s ≡ some task
      → HasTraces v answers s
      → SearchTraced v answers s.run_id task s.task_index r
      → OkTraces v answers (search_update s task_id r)
  searched-OkTraces s task task_id (halted e) g h k =
      Same-HasTraces v answers s _ (refl, refl, refl, refl, refl) h
  searched-OkTraces s task task_id (Search.raised x) g h k = tt
  searched-OkTraces s task task_id (done f) g h k =
      researched-HasTraces s task task_id f.evidence f.tools g h k

  module _ (settings : Settings) (s : GraphState) (b : ExecutionBudget) where
    pub research_node-OkTraces :
        (tick : ℕ)
        → HasTraces v answers s
        → OkTraces v answers (research_node v settings (answers tick) s b).0
    unfolding research_node research_task
    research_node-OkTraces tick h = elim (Bool-cases settings.mcp_enabled) [
      | inr e ↦
          rw (e, research_node, OkTraces)
            (Same-HasTraces v answers s _ (refl, refl, refl, refl, refl) h)
      | inl e ↦ elim (Bool-cases (ltb settings.agent_max_research_rounds (s.research_rounds + 1))) [
        | inl f ↦
            rw (e, f, research_node, OkTraces)
              (Same-HasTraces v answers s _ (refl, refl, refl, refl, refl) h)
        | inr f ↦ elim (Option-cases (current_task s)) [
          | inl g ↦ rw (e, f, g, research_node, OkTraces) tt
          | inr (task, g) ↦
              rw (e, f, g, research_node, OkTraces)
                (searched-OkTraces s task (research_task_id s task) _ g h (
                  search_queries-SearchTraced v answers s.run_id task s.task_index
                    settings.manual_metering tick (research_task_id s task) (s.research_rounds + 1)
                    1 (answers tick).queries (record { evidence = s.evidence; tools = [] })
                    (count_research b (s.research_rounds + 1)) (research_task_id-IsFiled s task)
                    (λ q m. m) (rw (← g) h.at_hand)))
        ]
      ]
    ]

    pub replan_node-OkTraces :
        (a : Answers) → HasTraces v answers s → OkTraces v answers (replan_node v settings a s b).0
    unfolding replan_node
    replan_node-OkTraces a h = elim (Bool-cases (ltb settings.agent_max_replans (s.replans + 1))) [
      | inl e ↦
          rw (e, replan_node, OkTraces)
            (Same-HasTraces v answers s _ (refl, refl, refl, refl, refl) h)
      | inr e ↦ elim (Bool-cases settings.ollama) [
        | inl f ↦ rw (e, f, replan_node, OkTraces) (replanned-OkTraces s _ h)
        | inr f ↦ rw (e, f, replan_node, OkTraces) (replanned-OkTraces s _ h)
      ]
    ]

    advanced-HasTraces :
        (task : PlanTask)
        → current_task s ≡ some task
        → HasTraces v answers s
        → HasTraces v answers (advanced s task)
    advanced-HasTraces task e h = record {
      counted = ground (arith, h.counted, length-append s.task_results (task_record s task ∷ []));
      at_hand = tt;
      in_results =
          ResultsTraced-append v answers s.run_id 0 s.task_index s.task_results (task_record s task)
            (omega (arith, h.counted)) h.in_results (rw (← e) h.at_hand);
    }

    pub advance_node-OkTraces : HasTraces v answers s → OkTraces v answers (advance_node v s b).0
    unfolding advance_node
    advance_node-OkTraces h = elim (Option-cases (current_task s)) [
      | inl e ↦ rw (e, advance_node, OkTraces) tt
      | inr (task, e) ↦ elim (Bool-cases (ltb (s.task_index + 1) (task_count s.plan))) [
        | inl f ↦
            rw (e, f, advance_node, OkTraces)
              (set_next_action-OkTraces (advanced s task) (advanced-HasTraces task e h))
        | inr f ↦ rw (e, f, advance_node, OkTraces) (advanced-HasTraces task e h)
      ]
    ]
