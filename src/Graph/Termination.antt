-- ===== src/Graph/Termination.antt =====
-- app/graph.py: the number of steps of a run, by its cycles through `verify` and `revise_final`.
use langchain_langraph_app_l.Prelude.{
  ℕ, zero, suc, ◌+◌, ◌-◌, ◌*◌, ◌≤◌, ◌<◌, ◌≡◌, ◌⊎◌, inl, inr, refl, true, false, arith, Result, ok,
  err, Result-cases, if◌then◌else◌,
}
use langchain_langraph_app_l.Meter.{ExecutionBudget, BudgetExceeded, check}
use langchain_langraph_app_l.Graph.State.{GraphState, Settings, Exception, Answers}
use langchain_langraph_app_l.Graph.Routes.{Node, finish, route, stopped}
use langchain_langraph_app_l.Graph.Calls.{Services}
use langchain_langraph_app_l.Graph.Verifying.{count_round, verify_stopped, verify_node}
use langchain_langraph_app_l.Graph.Finishing.{finalize_node, verify_final_node, revise_final_node}
use langchain_langraph_app_l.Graph.Machine.{Config, at, raised, follow, step, run}
use langchain_langraph_app_l.Graph.Rounds.{
  SameRounds, plan_node-SameRounds, worker_node-SameRounds, revise_node-SameRounds,
  replan_node-SameRounds, advance_node-SameRounds, research_node-SameRounds, verify_node-SameRounds,
}

-- The steps that are left at most, in the phase of the tasks, from the rounds that are left.
task_steps : Settings → ExecutionBudget → ℕ → ℕ
task_steps settings b rank =
    2 * settings.final_max_revision_rounds
    + 4
    + 4 * (b.max_verifier_rounds + 1 - b.state.verifier_rounds)
    + rank

abbrev final_steps : Settings → GraphState → ℕ
final_steps settings s =
    if stopped s then 2 else 2 * (settings.final_max_revision_rounds - s.final_revision_rounds) + 2

steps_left : Settings → Config → ℕ
unfolding task_steps
steps_left settings (raised x b) = 0
steps_left settings (at finish s b) = 0
steps_left settings (at Node.terminate s b) = 1
steps_left settings (at Node.verify_final s b) = final_steps settings s
steps_left settings (at Node.revise_final s b) =
    2 * (settings.final_max_revision_rounds - (s.final_revision_rounds + 1)) + 3
steps_left settings (at Node.finalize s b) = 2 * settings.final_max_revision_rounds + 3
steps_left settings (at Node.verify s b) = task_steps settings b 0
steps_left settings (at Node.worker s b) = task_steps settings b 1
steps_left settings (at Node.revise s b) = task_steps settings b 1
steps_left settings (at Node.research s b) = task_steps settings b 2
steps_left settings (at Node.replan s b) = task_steps settings b 2
steps_left settings (at Node.plan s b) = task_steps settings b 3
steps_left settings (at Node.advance s b) = task_steps settings b 3

-- A task node other than `verify` leads to one of lower rank, whatever state it returns.
data IsTaskNode : Node → Type 0 where
  plan : IsTaskNode Node.plan
  research : IsTaskNode Node.research
  worker : IsTaskNode Node.worker
  revise : IsTaskNode Node.revise
  replan : IsTaskNode Node.replan
  advance : IsTaskNode Node.advance

module _ (v : Services) (settings : Settings) where
  task_follow :
      (n : Node) (s : GraphState) (b : ExecutionBudget) (r : Result Exception GraphState)
      (b' : ExecutionBudget)
      → IsTaskNode n
      → SameRounds b b'
      → steps_left settings (follow v settings n (r, b')) < steps_left settings (at n s b)
  unfolding steps_left route
  task_follow n s b (err x) b' plan h = omega arith
  task_follow n s b (err x) b' research h = omega arith
  task_follow n s b (err x) b' worker h = omega arith
  task_follow n s b (err x) b' revise h = omega arith
  task_follow n s b (err x) b' replan h = omega arith
  task_follow n s b (err x) b' advance h = omega arith
  task_follow n s b (ok s') b' plan h = ground arith
  task_follow n s b (ok s') b' research h = ground arith
  task_follow n s b (ok s') b' worker h = ground arith
  task_follow n s b (ok s') b' revise h = ground arith
  task_follow n s b (ok s') b' replan h = ground arith
  task_follow n s b (ok s') b' advance h = ground arith

  -- After `verify` the run has stopped, or the round just counted is within the limit.
  abbrev GoesOn : ExecutionBudget → Result Exception GraphState → Type 0
  GoesOn b (err x) = Unit
  GoesOn b (ok s) = (stopped s ≡ true) ⊎ (b.state.verifier_rounds + 1 ≤ b.max_verifier_rounds)

  GoesOn-any :
      (b : ExecutionBudget) (r : Result Exception GraphState)
      → b.state.verifier_rounds + 1 ≤ b.max_verifier_rounds
      → GoesOn b r
  GoesOn-any b (err x) h = tt
  GoesOn-any b (ok s) h = inr h

  checked_round :
      (b : ExecutionBudget) (now : ℕ) (u : Unit {0})
      → check (count_round b) now ≡ ok u
      → b.state.verifier_rounds + 1 ≤ b.max_verifier_rounds
  unfolding check
  checked_round b now u e = ground arith

  verify_late :
      (a : Answers) (s : GraphState) (b : ExecutionBudget) (x : BudgetExceeded)
      → check (count_round b) a.now ≡ err x
      → verify_node settings a s b ≡ (ok (verify_stopped s x), count_round b)
  unfolding verify_node
  verify_late a s b x e = rw (e, verify_node)

  verify_node-GoesOn :
      (a : Answers) (s : GraphState) (b : ExecutionBudget) → GoesOn b (verify_node settings a s b).0
  verify_node-GoesOn a s b = elim (Result-cases (check (count_round b) a.now)) [
    | inl (u, e) ↦ GoesOn-any b (verify_node settings a s b).0 (checked_round b a.now u e)
    | inr (x, e) ↦ rw (verify_late a s b x e, GoesOn) (inl refl)
  ]

  verify_follow :
      (s : GraphState) (b : ExecutionBudget) (r : Result Exception GraphState)
      (b' : ExecutionBudget)
      → GoesOn b r
      → SameRounds (count_round b) b'
      → steps_left settings (follow v settings Node.verify (r, b'))
        < steps_left settings (at Node.verify s b)
  unfolding steps_left route
  verify_follow s b (err x) b' g h = omega arith
  verify_follow s b (ok s') b' (inl stops) h = ground arith
  verify_follow s b (ok s') b' (inr within) h = ground arith

  -- The final nodes: what each says of the rounds in the state that it returns.
  abbrev Finalized : Result Exception GraphState → Type 0
  Finalized (err x) = Unit
  Finalized (ok s) = (stopped s ≡ true) ⊎ (s.final_revision_rounds ≡ 0)

  finalize_rounds :
      (a : Answers) (s : GraphState) (b : ExecutionBudget)
      → Finalized (finalize_node settings a s b).0
  unfolding finalize_node
  finalize_rounds a s b = ground arith

  abbrev Checked : GraphState → Result Exception GraphState → Type 0
  Checked s (err x) = Unit
  Checked s (ok s') =
      (stopped s' ≡ true)
      ⊎ ((stopped s ≡ false) × (s'.final_revision_rounds ≡ s.final_revision_rounds))

  verify_final_rounds :
      (a : Answers) (s : GraphState) (b : ExecutionBudget)
      → Checked s (verify_final_node settings a s b).0
  unfolding verify_final_node
  verify_final_rounds a s b = ground arith

  abbrev Revised : GraphState → Result Exception GraphState → Type 0
  Revised s (err x) = Unit
  Revised s (ok s') = (stopped s' ≡ true) ⊎ (s'.final_revision_rounds ≡ s.final_revision_rounds + 1)

  revise_final_rounds :
      (a : Answers) (s : GraphState) (b : ExecutionBudget) → Revised s (revise_final_node a s b).0
  unfolding revise_final_node
  revise_final_rounds a s b = ground arith

  finalize_follow :
      (s : GraphState) (b : ExecutionBudget) (r : Result Exception GraphState)
      (b' : ExecutionBudget)
      → Finalized r
      → steps_left settings (follow v settings Node.finalize (r, b'))
        < steps_left settings (at Node.finalize s b)
  unfolding steps_left route
  finalize_follow s b (err x) b' h = omega arith
  finalize_follow s b (ok s') b' h = ground arith

  verify_final_follow :
      (s : GraphState) (b : ExecutionBudget) (r : Result Exception GraphState)
      (b' : ExecutionBudget)
      → Checked s r
      → steps_left settings (follow v settings Node.verify_final (r, b'))
        < steps_left settings (at Node.verify_final s b)
  unfolding steps_left route
  verify_final_follow s b (err x) b' h = ground arith
  verify_final_follow s b (ok s') b' h = ground arith

  revise_final_follow :
      (s : GraphState) (b : ExecutionBudget) (r : Result Exception GraphState)
      (b' : ExecutionBudget)
      → Revised s r
      → steps_left settings (follow v settings Node.revise_final (r, b'))
        < steps_left settings (at Node.revise_final s b)
  unfolding steps_left route
  revise_final_follow s b (err x) b' h = omega arith
  revise_final_follow s b (ok s') b' h = ground arith

  abbrev pub IsOver : Config → Type 0
  IsOver (raised x b) = Unit
  IsOver (at finish s b) = Unit
  IsOver (at _ s b) = ⊥

  -- A step of a run that is not over leaves fewer steps to do.
  step-lt :
      (a : Answers) (c : Config)
      → IsOver c ⊎ (steps_left settings (step v settings a c) < steps_left settings c)
  unfolding step
  step-lt a (raised x b) = inl tt
  step-lt a (at finish s b) = inl tt
  step-lt a (at Node.plan s b) =
      inr (task_follow Node.plan s b _ _ plan (plan_node-SameRounds v settings a s b))
  step-lt a (at Node.research s b) =
      inr (task_follow Node.research s b _ _ research (research_node-SameRounds v settings a s b))
  step-lt a (at Node.worker s b) =
      inr (task_follow Node.worker s b _ _ worker (worker_node-SameRounds v settings a s b))
  step-lt a (at Node.revise s b) =
      inr (task_follow Node.revise s b _ _ revise (revise_node-SameRounds v settings a s b))
  step-lt a (at Node.replan s b) =
      inr (task_follow Node.replan s b _ _ replan (replan_node-SameRounds v settings a s b))
  step-lt a (at Node.advance s b) =
      inr (task_follow Node.advance s b _ _ advance (advance_node-SameRounds v settings a s b))
  step-lt a (at Node.verify s b) =
      inr
        (verify_follow s b _ _ (verify_node-GoesOn a s b) (verify_node-SameRounds v settings a s b))
  step-lt a (at Node.finalize s b) = inr (finalize_follow s b _ _ (finalize_rounds a s b))
  step-lt a (at Node.verify_final s b) =
      inr (verify_final_follow s b _ _ (verify_final_rounds a s b))
  step-lt a (at Node.revise_final s b) =
      inr (revise_final_follow s b _ _ (revise_final_rounds a s b))
  step-lt a (at Node.terminate s b) = inr (unfold steps_left route in omega arith)

  IsOver-run :
      (fuel : ℕ) (answers : ℕ → Answers) (tick : ℕ) (c : Config)
      → IsOver c
      → IsOver (run v settings fuel answers tick c)
  unfolding run step
  IsOver-run zero answers tick c h = h
  IsOver-run (suc fuel) answers tick (raised x b) h =
      IsOver-run fuel answers (tick + 1) (raised x b) h
  IsOver-run (suc fuel) answers tick (at finish s b) h =
      IsOver-run fuel answers (tick + 1) (at finish s b) h
  IsOver-run (suc fuel) answers tick (at _ s b) h = absurd h

  run-IsOver :
      (fuel : ℕ) (answers : ℕ → Answers) (tick : ℕ) (c : Config)
      → steps_left settings c ≤ fuel
      → IsOver (run v settings fuel answers tick c)
  unfolding run
  run-IsOver zero answers tick c h = elim (step-lt (answers tick) c) [
    | inl over ↦ IsOver-run zero answers tick c over
    | inr less ↦ absurd (omega arith)
  ]
  run-IsOver (suc fuel) answers tick c h = elim (step-lt (answers tick) c) [
    | inl over ↦ IsOver-run (suc fuel) answers tick c over
    | inr less ↦ run-IsOver fuel answers (tick + 1) (step v settings (answers tick) c) (omega arith)
  ]

  -- Whatever the clock, the models and the tools answer, a run from `plan` has come to END or to an
  -- exception after any number of steps that is at least four for each verifier round of the limit,
  -- two for each final revision of the setting, and eleven more.
  pub run_ends :
      (answers : ℕ → Answers) (s : GraphState) (b : ExecutionBudget) (fuel : ℕ)
      → 4 * b.max_verifier_rounds + 2 * settings.final_max_revision_rounds + 11 ≤ fuel
      → IsOver (run v settings fuel answers 0 (at Node.plan s b))
  run_ends answers s b fuel h =
      run-IsOver fuel answers 0 (at Node.plan s b) (unfold steps_left in omega arith)
