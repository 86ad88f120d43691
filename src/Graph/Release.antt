-- ===== src/Graph/Release.antt =====
-- app/graph.py: the edges into END, from `finalize`, `verify_final` and `terminate`.
use langchain_langraph_app_l.Prelude.{
  ℕ, zero, suc, ◌+◌, ◌≡◌, ◌≢◌, inl, inr, refl, Bool-cases, true, false, arith, Result, ok, err,
}
use langchain_langraph_app_l.Meter.{ExecutionBudget}
use langchain_langraph_app_l.Graph.State.{GraphState, Settings, Exception, Answers}
use langchain_langraph_app_l.Graph.Routes.{Node, finish, stopped, passes, route}
use langchain_langraph_app_l.Graph.Calls.{Services}
use langchain_langraph_app_l.Graph.Finishing.{terminated}
use langchain_langraph_app_l.Graph.Partial.{partial_response}
use langchain_langraph_app_l.Graph.Machine.{Config, at, raised, follow, step, run}

-- The answer needed no final verification and nothing stopped the run, or it passed it, or the
-- response is the text of a run that stopped.
pub data IsReleased (s : GraphState) : Type 0 where
  unverified : stopped s ≡ false → s.final_verification_required ≡ false → IsReleased s
  verified : stopped s ≡ false → passes s.final_verification ≡ true → IsReleased s
  stopped_text : (s' : GraphState) → s.response ≡ partial_response s' → IsReleased s

abbrev pub Releases : Config → Type 0
Releases (at finish s b) = IsReleased s
Releases (at _ s b) = Unit
Releases (raised x b) = Unit

module _ (v : Services) (settings : Settings) where
  finalize_follow :
      (s : GraphState) (b : ExecutionBudget) → Releases (follow v settings Node.finalize (ok s, b))
  unfolding route
  finalize_follow s b = elim (Bool-cases (stopped s)) [
    | inl e ↦ ground (arith, e)
    | inr e ↦ elim (Bool-cases s.final_verification_required) [
      | inl f ↦ ground (arith, e, f)
      | inr f ↦ ground (arith, e, f, unverified e f)
    ]
  ]

  verify_final_follow :
      (s : GraphState) (b : ExecutionBudget)
      → Releases (follow v settings Node.verify_final (ok s, b))
  unfolding route
  verify_final_follow s b = elim (Bool-cases (stopped s)) [
    | inl e ↦ ground (arith, e)
    | inr e ↦ elim (Bool-cases (passes s.final_verification)) [
      | inl f ↦ ground (arith, e, f, verified e f)
      | inr f ↦ ground (arith, e, f)
    ]
  ]

  follow-Releases :
      (n : Node) (r : Result Exception GraphState) (b : ExecutionBudget)
      → n ≢ Node.terminate
      → n ≢ finish
      → Releases (follow v settings n (r, b))
  unfolding route
  follow-Releases n (err x) b h k = tt
  follow-Releases Node.finalize (ok s) b h k = finalize_follow s b
  follow-Releases Node.verify_final (ok s) b h k = verify_final_follow s b
  follow-Releases Node.terminate (ok s) b h k = absurd (h refl)
  follow-Releases finish (ok s) b h k = absurd (k refl)
  follow-Releases _ (ok s) b h k = ground arith

  step-Releases : (a : Answers) (c : Config) → Releases c → Releases (step v settings a c)
  unfolding step
  step-Releases a (raised x b) h = tt
  step-Releases a (at finish s b) h = h
  step-Releases a (at Node.terminate s b) h = unfold route terminated in stopped_text s refl
  step-Releases a (at n s b) h = follow-Releases _ _ _ (λ e. cc) (λ e. cc)

  -- From a config that satisfies `Releases`, as every one outside END does, whatever the clock, the
  -- models and the tools answer: a run that has come to END has an answer that no final verification
  -- was required of, or that passed it, and nothing stopped it; or else its response is a partial
  -- response, the text that says that the execution stopped.
  pub run-Releases :
      (answers : ℕ → Answers) (fuel tick : ℕ) (c : Config)
      → Releases c
      → Releases (run v settings fuel answers tick c)
  unfolding run
  run-Releases answers zero tick c h = h
  run-Releases answers (suc fuel) tick c h =
      run-Releases answers fuel (tick + 1) (step v settings (answers tick) c)
        (step-Releases (answers tick) c h)
