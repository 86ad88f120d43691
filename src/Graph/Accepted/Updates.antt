-- ===== src/Graph/Accepted/Updates.antt =====
-- app/graph.py: the updates that the nodes return, and the invariant of the run.
use langchain_langraph_app_l.Prelude.{
  ℕ, String, ◌≡◌, ◌⊎◌, inl, inr, refl, true, some, List, [], ◌∷◌, arith, All, Result, ok, err, elem,
}
use langchain_langraph_app_l.Evidence.Grounding.{ClaimGroundingResult}
use langchain_langraph_app_l.Graph.State.{
  PlanTask, ExecutionPlan, WorkerResult, Verdict, IssueCode, VerificationReport, GraphState,
  Exception, structured_output, over_budget,
}
use langchain_langraph_app_l.Graph.Routes.{stopped}
use langchain_langraph_app_l.Graph.Calls.{Services, current_task, set_next_action, choose}
use langchain_langraph_app_l.Graph.Planning.{replanned, validated_plan, planned, fresh_plan}
use langchain_langraph_app_l.Graph.Working.{revise_update, validated_result, worker_update}
use langchain_langraph_app_l.Graph.Verifying.{
  verified, verify_update, grounding_issues, override, task_grounding,
}
use langchain_langraph_app_l.Graph.Researching.{
  Search, done, halted, raised, search_update, Findings, researched,
}
use langchain_langraph_app_l.Graph.Errors.{IsExternal, ExternalError, ExternalRaise}
use langchain_langraph_app_l.Graph.Accepted.{IsSupported, IsGood, HasTask, IsWorked, IsVerified}

-- What a node's result owes: an external exception, or a state with `P`.
abbrev pub Post : (GraphState → Type 0) → Result Exception GraphState → Type 0
Post P (ok s) = P s
Post P (err x) = IsExternal x

abbrev pub StopsOr : (GraphState → Type 0) → GraphState → Type 0
StopsOr P s = IsGood s × ((stopped s ≡ true) ⊎ P s)

pub set_next_action-eq_ok :
    (v : Services) (s : GraphState) (task : PlanTask)
    → current_task s ≡ some task
    → set_next_action v s
      ≡ ok (record s {
        next_action =
            choose
              (v.requires_external_evidence s.message task)
              (elem task.id s.researched_task_ids);
      })
unfolding set_next_action
set_next_action-eq_ok v s task e = rw (e, set_next_action)

pub set_next_action-Post :
    (v : Services) (s : GraphState)
    → IsGood s
    → HasTask s
    → Post (StopsOr HasTask) (set_next_action v s)
unfolding current_task
set_next_action-Post v s good (task, e) =
    rw (set_next_action-eq_ok v s task e) (good, inr (task, e))

-- The issues of the grounding are empty only if every claim is supported.
All-IsSupported : (gs : List ClaimGroundingResult) → grounding_issues gs ≡ [] → All IsSupported gs
unfolding grounding_issues
All-IsSupported [] h = tt
All-IsSupported (g ∷ rest) h = ground (arith, All-IsSupported rest)

-- A report passes the override only as it was, and only without such issues.
override_pass :
    (issues : List IssueCode) (report : VerificationReport)
    → (override issues report).verdict ≡ Verdict.pass
    → issues ≡ []
unfolding override
override_pass [] report h = refl
override_pass (i ∷ rest) report h = absurd (ground arith)

pub planned-Post :
    (v : Services) (now : ℕ) (s : GraphState) (r : Result Exception ExecutionPlan)
    → IsGood s
    → ExternalError r
    → Post (StopsOr HasTask) (planned v now s r)
unfolding current_task
planned-Post v now s (ok p) good h =
    set_next_action-Post v (fresh_plan v now s p) tt (p.first_task, refl)
planned-Post v now s (err (structured_output n)) good h = (good, inl refl)
planned-Post v now s (err x) good h = h

pub worker_update-Post :
    (s : GraphState) (r : Result Exception WorkerResult)
    → IsGood s
    → HasTask s
    → ExternalError r
    → Post (StopsOr IsWorked) (worker_update s r)
unfolding current_task
worker_update-Post s (ok w) good (task, e) h =
    (good, inr (record { task = task; w = w; has_task = e; has_result = refl }))
worker_update-Post s (err (structured_output n)) good t h = (good, inl refl)
worker_update-Post s (err x) good t h = h

pub revise_update-Post :
    (s : GraphState) (r : Result Exception WorkerResult)
    → IsGood s
    → HasTask s
    → ExternalError r
    → Post (StopsOr IsWorked) (revise_update s r)
unfolding current_task
revise_update-Post s (ok w) good (task, e) h =
    (good, inr (record { task = task; w = w; has_task = e; has_result = refl }))
revise_update-Post s (err x) good t h = h

pub validated_result-ExternalError :
    (s : GraphState) → IsWorked s → ExternalError (validated_result s.worker_result)
validated_result-ExternalError s h = ground arith

pub replanned-Post :
    (v : Services) (s : GraphState) (r : Result Exception ExecutionPlan)
    → ExternalError r
    → Post (StopsOr HasTask) (replanned v s r)
unfolding current_task
replanned-Post v s (ok p) h = set_next_action-Post v _ tt (p.first_task, refl)
replanned-Post v s (err x) h = h

pub validated_plan-ExternalError :
    (s : GraphState) → HasTask s → ExternalError (validated_plan s.plan)
unfolding current_task
validated_plan-ExternalError s (task, e) = ground arith

verified-Post :
    (s : GraphState) (w : WorkerResult) (task : PlanTask) (report : VerificationReport)
    → s.worker_result ≡ some w
    → current_task s ≡ some task
    → IsVerified (verified s (task_grounding s w task) report)
unfolding current_task
verified-Post s w task report given e =
    let grounding = task_grounding s w task in
    record {
      task = task;
      w = w;
      report = override (grounding_issues grounding) report;
      has_task = e;
      has_result = given;
      has_report = refl;
      grounded = refl;
      supported =
          λ h. All-IsSupported grounding (override_pass (grounding_issues grounding) report h);
    }

pub verify_update-Post :
    (s : GraphState) (w : WorkerResult) (task : PlanTask) (r : Result Exception VerificationReport)
    → IsGood s
    → s.worker_result ≡ some w
    → current_task s ≡ some task
    → ExternalError r
    → Post (StopsOr IsVerified) (verify_update s (task_grounding s w task) r)
verify_update-Post s w task (ok report) good given e h =
    (good, inr (verified-Post s w task report given e))
verify_update-Post s w task (err (over_budget x)) good given e h = (good, inl refl)
verify_update-Post s w task (err x) good given e h = h

researched-Post :
    (s : GraphState) (task_id : String) (f : Findings)
    → IsGood s
    → HasTask s
    → StopsOr HasTask (researched s task_id f)
unfolding current_task
researched-Post s task_id f good (task, e) =
    elim f.tools as (λ l. StopsOr HasTask (researched s task_id (record f { tools = l }))) [
      | [] ↦ (good, inl refl)
      | tool ∷ rest ↦ (good, inr (task, e))
    ]

pub search_update-Post :
    (s : GraphState) (task_id : String) (r : Search Findings)
    → IsGood s
    → HasTask s
    → ExternalRaise r
    → Post (StopsOr HasTask) (search_update s task_id r)
search_update-Post s task_id (done f) good t h = researched-Post s task_id f good t
search_update-Post s task_id (halted e) good t h = (good, inl refl)
search_update-Post s task_id (raised x) good t h = h
