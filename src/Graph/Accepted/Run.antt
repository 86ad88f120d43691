-- ===== src/Graph/Accepted/Run.antt =====
-- app/graph.py: the invariant along a run, from node to node by the edges.
use langchain_langraph_app_l.Prelude.{
  ℕ, zero, suc, ◌+◌, ◌≡◌, inl, inr, refl, Bool, true, false, some, arith, Result, ok, err,
  Bool-cases, leb, if◌then◌else◌,
}
use langchain_langraph_app_l.Meter.{ExecutionBudget}
use langchain_langraph_app_l.Graph.State.{
  Verdict, VerificationReport, GraphState, Settings, Exception, Answers,
}
use langchain_langraph_app_l.Graph.Routes.{Node, finish, Key, edges, stopped, route, task_count}
use langchain_langraph_app_l.Graph.Calls.{Services}
use langchain_langraph_app_l.Graph.Machine.{Config, at, raised, follow, step, run}
use langchain_langraph_app_l.Graph.Finishing.{terminated}
use langchain_langraph_app_l.Graph.Accepted.{IsGood, HasTask, IsWorked, IsVerified, IsSound}
use langchain_langraph_app_l.Graph.Accepted.Updates.{Post, StopsOr}
use langchain_langraph_app_l.Graph.Accepted.Steps.{
  plan_node-Post, worker_node-Post, revise_node-Post, replan_node-Post, verify_node-Post,
  research_node-Post, finalize_node-Post, verify_final_node-Post, revise_final_node-Post,
}
use langchain_langraph_app_l.Graph.Accepted.Advance.{IsAdvanced, advance_node-Post}

-- What the nodes owe to the edges behind them.
abbrev Owes : Node → GraphState → Type 0
Owes Node.plan s = StopsOr HasTask s
Owes Node.research s = StopsOr HasTask s
Owes Node.replan s = StopsOr HasTask s
Owes Node.worker s = StopsOr IsWorked s
Owes Node.revise s = StopsOr IsWorked s
Owes Node.verify s = StopsOr IsVerified s
Owes Node.advance s = IsAdvanced s
Owes _ s = IsGood s

IsVerified-IsWorked : (s : GraphState) → IsVerified s → IsWorked s
IsVerified-IsWorked s h = record {
  task = h.task;
  w = h.w;
  has_task = h.has_task;
  has_result = h.has_result;
}

abbrev report_key : Verdict → Bool → Key
report_key Verdict.pass complete = if complete then Key.advance else Key.revise
report_key Verdict.revise complete = Key.revise
report_key Verdict.research complete = Key.research
report_key Verdict.replan complete = Key.replan
report_key Verdict.terminate complete = Key.terminate

module _ (v : Services) (settings : Settings) where
  route-verify :
      (s : GraphState) (report : VerificationReport) (verdict : Verdict) (complete : Bool)
      → stopped s ≡ false
      → s.verification ≡ some report
      → report.verdict ≡ verdict
      → report.task_complete ≡ complete
      → route settings Node.verify s ≡ edges Node.verify (report_key verdict complete)
  unfolding route
  route-verify s report Verdict.pass complete goes_on e f g = ground arith
  route-verify s report _ complete goes_on e f g = ground arith

  verified_follow :
      (s : GraphState) (b : ExecutionBudget)
      → IsGood s
      → (h : IsVerified s) → stopped s ≡ false
      → (verdict : Verdict) (complete : Bool) → h.report.verdict ≡ verdict
      → h.report.task_complete ≡ complete
      → IsSound (follow v settings Node.verify (ok s, b))
  unfolding edges
  verified_follow s b good h goes_on Verdict.pass true e f =
      rw (route-verify s h.report Verdict.pass true goes_on h.has_report e f, IsSound)
        (good, record { verified = h; goes_on = goes_on; passed = e; complete = f })
  verified_follow s b good h goes_on Verdict.pass false e f =
      rw (route-verify s h.report Verdict.pass false goes_on h.has_report e f, IsSound)
        (good, IsVerified-IsWorked s h)
  verified_follow s b good h goes_on Verdict.revise complete e f =
      rw (route-verify s h.report Verdict.revise complete goes_on h.has_report e f, IsSound)
        (good, IsVerified-IsWorked s h)
  verified_follow s b good h goes_on Verdict.research complete e f =
      rw (route-verify s h.report Verdict.research complete goes_on h.has_report e f, IsSound)
        (good, (h.task, h.has_task))
  verified_follow s b good h goes_on Verdict.replan complete e f =
      rw (route-verify s h.report Verdict.replan complete goes_on h.has_report e f, IsSound)
        (good, IsVerified-IsWorked s h)
  verified_follow s b good h goes_on Verdict.terminate complete e f =
      rw (route-verify s h.report Verdict.terminate complete goes_on h.has_report e f, IsSound) good

  follow-stopped :
      (s : GraphState) (b : ExecutionBudget)
      → IsGood s
      → stopped s ≡ true
      → IsSound (follow v settings Node.verify (ok s, b))
  unfolding route
  follow-stopped s b good e = ground arith

  verify_follow :
      (s : GraphState) (b : ExecutionBudget)
      → StopsOr IsVerified s
      → IsSound (follow v settings Node.verify (ok s, b))
  verify_follow s b (good, inl e) = follow-stopped s b good e
  verify_follow s b (good, inr h) = elim (Bool-cases (stopped s)) [
    | inl e ↦ follow-stopped s b good e
    | inr e ↦ verified_follow s b good h e h.report.verdict h.report.task_complete refl refl
  ]

  -- Each edge leads to a node whose demands are met.
  follow-IsSound :
      (n : Node) (s : GraphState) (b : ExecutionBudget)
      → Owes n s
      → IsSound (follow v settings n (ok s, b))
  unfolding route
  follow-IsSound Node.verify s b h = verify_follow s b h
  follow-IsSound Node.plan s b h = ground arith
  follow-IsSound Node.research s b h = ground arith
  follow-IsSound Node.replan s b h = ground arith
  follow-IsSound Node.worker s b h = ground arith
  follow-IsSound Node.revise s b h = ground arith
  follow-IsSound Node.advance s b h = elim (Bool-cases (leb (task_count s.plan) s.task_index)) [
    | inl all_done ↦ ground (arith, h.good, h.goes_on)
    | inr more ↦ ground (arith, h.good, h.goes_on, h.has_task (ground arith))
  ]
  follow-IsSound _ s b h = ground arith

  outcome-IsSound :
      (n : Node) (r : Result Exception GraphState) (b : ExecutionBudget)
      → Post (Owes n) r
      → IsSound (follow v settings n (r, b))
  outcome-IsSound n (ok s) b h = follow-IsSound n s b h
  outcome-IsSound n (err x) b h = h

  step-IsSound : (a : Answers) (c : Config) → IsSound c → IsSound (step v settings a c)
  unfolding step
  step-IsSound a (raised x b) h = h
  step-IsSound a (at finish s b) h = h
  step-IsSound a (at Node.plan s b) h =
      outcome-IsSound Node.plan _ _ (plan_node-Post v settings a s b h)
  step-IsSound a (at Node.research s b) h =
      outcome-IsSound Node.research _ _ (research_node-Post v settings a s b h.0 h.1)
  step-IsSound a (at Node.worker s b) h =
      outcome-IsSound Node.worker _ _ (worker_node-Post v settings a s b h.0 h.1)
  step-IsSound a (at Node.verify s b) h =
      outcome-IsSound Node.verify _ _ (verify_node-Post v settings a s b h.0 h.1)
  step-IsSound a (at Node.revise s b) h =
      outcome-IsSound Node.revise _ _ (revise_node-Post v settings a s b h.0 h.1)
  step-IsSound a (at Node.replan s b) h =
      outcome-IsSound Node.replan _ _
        (replan_node-Post v settings a s b h.0 (h.1.task, h.1.has_task))
  step-IsSound a (at Node.advance s b) h =
      outcome-IsSound Node.advance _ _ (advance_node-Post v s b h.0 h.1)
  step-IsSound a (at Node.finalize s b) h =
      outcome-IsSound Node.finalize _ _ (finalize_node-Post v settings a s b h)
  step-IsSound a (at Node.verify_final s b) h =
      outcome-IsSound Node.verify_final _ _ (verify_final_node-Post v settings a s b h)
  step-IsSound a (at Node.revise_final s b) h =
      outcome-IsSound Node.revise_final _ _ (revise_final_node-Post v settings a s b h)
  step-IsSound a (at Node.terminate s b) h = unfold route terminated in h

  -- From a config that satisfies `IsSound`, such as `plan` with no kept results, whatever the clock,
  -- the models and the tools answer: after every number of steps each kept task result has passed a
  -- verifier as complete, with all claims of its worker grounded as supported in the evidence kept
  -- with it; and no exception that ends the run is a missing task, a missing edge or an invalid
  -- worker result or plan.
  pub run-IsSound :
      (answers : ℕ → Answers) (fuel tick : ℕ) (c : Config)
      → IsSound c
      → IsSound (run v settings fuel answers tick c)
  unfolding run
  run-IsSound answers zero tick c h = h
  run-IsSound answers (suc fuel) tick c h =
      run-IsSound answers fuel (tick + 1) (step v settings (answers tick) c)
        (step-IsSound (answers tick) c h)
