-- ===== src/Meter/Attempts.antt =====
-- execution_meter.py: `begin_…_attempt` and `finish_…_attempt` as the gateways pair them. Any number
-- of attempts may be in flight at once; each is finished once.
use langchain_langraph_app_l.Prelude.{ℕ, suc, ◌+◌, ◌≤◌, ◌≡◌, Bool, Option, arith, ok}
use langchain_langraph_app_l.Meter.{
  ExecutionBudget, Usage, begin_model_attempt, finish_model_attempt, begin_tool_attempt,
  finish_tool_attempt,
}

pub record Traffic : Type 0 where
  pub budget : ExecutionBudget
  pub models_in_flight : ℕ
  pub tools_in_flight : ℕ

pub data Step : Traffic → Traffic → Type 0 where
  begin_model :
      (t : Traffic) (fallback : Option Bool) (attempts : Option ℕ) (now : ℕ) {b : ExecutionBudget}
      {attempts' : Option ℕ}
      → begin_model_attempt t.budget fallback attempts now ≡ ok (b, attempts')
      → Step t (record t { budget = b; models_in_flight = t.models_in_flight + 1 })
  finish_model :
      (t : Traffic) (u : Usage) (n : ℕ)
      → t.models_in_flight ≡ suc n
      → Step t (record t { budget = finish_model_attempt t.budget u; models_in_flight = n })
  begin_tool :
      (t : Traffic) (now : ℕ) {b : ExecutionBudget}
      → begin_tool_attempt t.budget now ≡ ok b
      → Step t (record t { budget = b; tools_in_flight = t.tools_in_flight + 1 })
  finish_tool :
      (t : Traffic) (success timed_out : Bool) (n : ℕ)
      → t.tools_in_flight ≡ suc n
      → Step t (record t {
        budget = finish_tool_attempt t.budget success timed_out;
        tools_in_flight = n;
      })

pub data Reach (s : Traffic) : Traffic → Type 0 where
  here : Reach s s
  next : {t u : Traffic} → Reach s t → Step t u → Reach s u

-- Each attempt that has begun is in flight, or has been counted once as a success or a failure.
pub record IsBalanced (t : Traffic) : Type 0 where
  pub models :
      t.budget.state.physical_model_attempts
      ≡ t.budget.state.model_successes + t.budget.state.model_failures + t.models_in_flight
  pub tools :
      t.budget.state.tool_attempts
      ≡ t.budget.state.tool_successes + t.budget.state.tool_failures + t.tools_in_flight
  pub limit : t.budget.state.physical_model_attempts ≤ t.budget.max_model_calls
  pub tool_limit : t.budget.state.tool_attempts ≤ t.budget.max_tool_calls

Step-IsBalanced : {t u : Traffic} → Step t u → IsBalanced t → IsBalanced u
unfolding begin_model_attempt finish_model_attempt begin_tool_attempt finish_tool_attempt
Step-IsBalanced (begin_model t fallback attempts now e) h = ground arith
Step-IsBalanced (finish_model t u n e) h = ground arith
Step-IsBalanced (begin_tool t now e) h = ground arith
Step-IsBalanced (finish_tool t success timed_out n e) h = ground arith

-- In every interleaving of attempts that starts from a balanced meter, each attempt that has begun
-- is in flight or counted exactly once as a success or a failure, and no limit is passed.
pub Reach-IsBalanced : {s t : Traffic} → IsBalanced s → Reach s t → IsBalanced t
Reach-IsBalanced h here = h
Reach-IsBalanced h (next r st) = Step-IsBalanced st (Reach-IsBalanced h r)
