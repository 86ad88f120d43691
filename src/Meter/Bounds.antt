-- ===== src/Meter/Bounds.antt =====
-- execution_meter.py: the guards of `check`, `begin_model_attempt` and `begin_tool_attempt`, for one
-- call and for sequences of calls. The lock makes any interleaving of the request's tasks such a
-- sequence.
use langchain_langraph_app_l.Prelude.{
  ℕ, ◌≤◌, ◌<◌, ◌≡◌, ◌↔◌, Bool, Option, List, [], ◌∷◌, arith, Result, ok, err, is_ok, true,
}
use langchain_langraph_app_l.Meter.{
  ExecutionBudget, BudgetExceeded, Usage, Metered, check, record_logical_model_operation,
  begin_model_attempt, finish_model_attempt, begin_tool_attempt, finish_tool_attempt,
  add_queue_wait, record_cancellation,
}

-- What `check` demands.
pub record WithinLimits (b : ExecutionBudget) (now : ℕ) : Type 0 where
  pub in_time : now < b.state.deadline_at
  pub model_calls : b.state.physical_model_attempts ≤ b.max_model_calls
  pub tool_calls : b.state.tool_attempts ≤ b.max_tool_calls
  pub rounds : b.state.verifier_rounds ≤ b.max_verifier_rounds

-- `check` passes exactly when the deadline is ahead and none of the three counters is over its
-- limit; a model attempt is admitted exactly when `check` passes and fewer attempts than the limit
-- have begun, and a tool attempt likewise.
pub begin_attempt_iff :
    (b : ExecutionBudget) (fallback : Option Bool) (attempts : Option ℕ) (now : ℕ)
    → ((check b now ≡ ok tt) ↔ WithinLimits b now)
      × ((is_ok (begin_model_attempt b fallback attempts now) ≡ true)
          ↔ (WithinLimits b now × (b.state.physical_model_attempts < b.max_model_calls)))
      × ((is_ok (begin_tool_attempt b now) ≡ true)
          ↔ (WithinLimits b now × (b.state.tool_attempts < b.max_tool_calls)))
unfolding check begin_model_attempt begin_tool_attempt
begin_attempt_iff b fallback attempts now = (
  (λ h. ground arith, λ w. ground arith),
  (λ h. ground arith, λ w. ground arith),
  (λ h. ground arith, λ w. ground arith),
)

-- The calls that the gateways and the graph make.
pub data Call : Type 0 where
  record_logical : ℕ → Call
  begin_model : Option Bool → Option ℕ → ℕ → Call
  finish_model : Usage → Call
  begin_tool : ℕ → Call
  finish_tool : Bool → Bool → Call
  queue_wait : ℕ → Call
  cancellation : Call

abbrev or_same : ExecutionBudget → Metered → ExecutionBudget
or_same b (ok b') = b'
or_same b (err e) = b

abbrev or_same_pair :
    ExecutionBudget → Result BudgetExceeded (ExecutionBudget × Option ℕ) → ExecutionBudget
or_same_pair b (ok (b', attempts)) = b'
or_same_pair b (err e) = b

-- The object after a call, which a raise leaves alone.
pub perform : Call → ExecutionBudget → ExecutionBudget
perform (record_logical now) b = or_same b (record_logical_model_operation b now)
perform (begin_model fallback attempts now) b =
    or_same_pair b (begin_model_attempt b fallback attempts now)
perform (finish_model u) b = finish_model_attempt b u
perform (begin_tool now) b = or_same b (begin_tool_attempt b now)
perform (finish_tool success timed_out) b = finish_tool_attempt b success timed_out
perform (queue_wait waited) b = add_queue_wait b waited
perform cancellation b = record_cancellation b

pub perform_all : List Call → ExecutionBudget → ExecutionBudget
perform_all [] b = b
perform_all (c ∷ cs) b = perform_all cs (perform c b)

pub record IsBounded (b : ExecutionBudget) : Type 0 where
  pub model_calls : b.state.physical_model_attempts ≤ b.max_model_calls
  pub tool_calls : b.state.tool_attempts ≤ b.max_tool_calls
  pub fallbacks : b.state.fallback_attempts ≤ b.state.physical_model_attempts

perform-IsBounded : (c : Call) (b : ExecutionBudget) → IsBounded b → IsBounded (perform c b)
unfolding perform record_logical_model_operation begin_model_attempt finish_model_attempt
    begin_tool_attempt finish_tool_attempt add_queue_wait record_cancellation
perform-IsBounded (record_logical now) b h = ground arith
perform-IsBounded _ b h = ground arith

-- From a budget within these bounds, whatever calls the request makes, the attempts that have begun
-- never pass their limits, and no more model attempts are counted as fallbacks than have begun.
pub perform_all-IsBounded :
    (cs : List Call) (b : ExecutionBudget) → IsBounded b → IsBounded (perform_all cs b)
unfolding perform_all
perform_all-IsBounded [] b h = h
perform_all-IsBounded (c ∷ cs) b h =
    perform_all-IsBounded cs (perform c b) (perform-IsBounded c b h)
