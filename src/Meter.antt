-- ===== src/Meter.antt =====
-- app/orchestration/execution_meter.py: the request-scoped execution budget. Datetimes, the
-- monotonic clock and durations are whole microseconds, and each call of a clock is an argument.
-- A method that raises leaves its object alone, so it returns the new object or the exception.
-- The `asyncio.Lock` makes each method one step.
pub mod Bounds
pub mod Clock
pub mod Attempts
mod Tests
use langchain_langraph_app_l.Prelude.{
  ℕ, ◌+◌, ◌-◌, ◌≤◌, max, Bool, true, false, ◌&&◌, ◌||◌, Option, none, some, ltb, leb, if◌then◌else◌,
  is_some, Result, ok, err, ◌>>=◌,
}

-- The messages with which `BudgetExceeded` is raised; the last one is raised by the graph.
pub data BudgetExceeded : Type 0 where
  deadline_exceeded model_calls_exceeded tool_calls_exceeded : BudgetExceeded
  verifier_rounds_exceeded research_rounds_exceeded : BudgetExceeded

pub record ExecutionMeterState : Type 0 where
  pub logical_model_operations : ℕ
  pub physical_model_attempts : ℕ
  pub model_successes : ℕ
  pub model_failures : ℕ
  pub fallback_attempts : ℕ
  pub tool_attempts : ℕ
  pub tool_successes : ℕ
  pub tool_failures : ℕ
  pub tool_timeouts : ℕ
  pub verifier_rounds : ℕ
  pub revision_rounds : ℕ
  pub final_revision_rounds : ℕ
  pub research_rounds : ℕ
  pub replans : ℕ
  pub prompt_tokens : ℕ
  pub generated_tokens : ℕ
  pub queue_wait : ℕ
  pub model_load : ℕ
  pub time_to_first_token : Option ℕ
  pub started_at : ℕ
  pub deadline_at : ℕ
  pub elapsed_wall : ℕ
  pub active_execution : ℕ
  pub cancellation_count : ℕ

pub record ExecutionBudget : Type 0 where
  pub max_duration : ℕ
  pub max_model_calls : ℕ
  pub max_tool_calls : ℕ
  pub max_verifier_rounds : ℕ
  pub state : ExecutionMeterState
  pub elapsed_before_resume : ℕ
  pub resume_clock_guard : ℕ
  pub started_monotonic : ℕ

abbrev pub fresh_state : ℕ → ℕ → ExecutionMeterState
fresh_state now duration = record {
  logical_model_operations = 0;
  physical_model_attempts = 0;
  model_successes = 0;
  model_failures = 0;
  fallback_attempts = 0;
  tool_attempts = 0;
  tool_successes = 0;
  tool_failures = 0;
  tool_timeouts = 0;
  verifier_rounds = 0;
  revision_rounds = 0;
  final_revision_rounds = 0;
  research_rounds = 0;
  replans = 0;
  prompt_tokens = 0;
  generated_tokens = 0;
  queue_wait = 0;
  model_load = 0;
  time_to_first_token = none;
  started_at = now;
  deadline_at = now + duration;
  elapsed_wall = 0;
  active_execution = 0;
  cancellation_count = 0;
}

-- `__init__`: the limits, the saved state if there is one, and the two clocks.
unfoldable pub create : ℕ → ℕ → ℕ → ℕ → Option ExecutionMeterState → ℕ → ℕ → ExecutionBudget
create duration model_calls tool_calls rounds none now monotonic = record {
  max_duration = duration;
  max_model_calls = model_calls;
  max_tool_calls = tool_calls;
  max_verifier_rounds = rounds;
  state = fresh_state now duration;
  elapsed_before_resume = 0;
  resume_clock_guard = 0;
  started_monotonic = monotonic;
}
create duration model_calls tool_calls rounds (some saved) now monotonic = record {
  max_duration = duration;
  max_model_calls = model_calls;
  max_tool_calls = tool_calls;
  max_verifier_rounds = rounds;
  state = saved;
  elapsed_before_resume = saved.active_execution;
  resume_clock_guard = 1000;
  started_monotonic = monotonic;
}

-- The property `elapsed_seconds`, at a wall-clock time and a monotonic time.
unfoldable pub elapsed : ExecutionBudget → ℕ → ℕ → ℕ
elapsed b now monotonic =
    let active =
      b.elapsed_before_resume + b.resume_clock_guard + (monotonic - b.started_monotonic) in
    max (max active b.state.elapsed_wall) (now - b.state.started_at)

unfoldable pub remaining : ExecutionBudget → ℕ → ℕ
remaining b now = b.state.deadline_at - now

unfoldable pub check : ExecutionBudget → ℕ → Result BudgetExceeded (Unit {0})
check b now =
    if leb b.state.deadline_at now
    then err deadline_exceeded
    else if ltb b.max_model_calls b.state.physical_model_attempts
    then err model_calls_exceeded
    else if ltb b.max_tool_calls b.state.tool_attempts
    then err tool_calls_exceeded
    else if ltb b.max_verifier_rounds b.state.verifier_rounds
    then err verifier_rounds_exceeded
    else ok tt

abbrev pub Metered : Type 0
Metered = Result BudgetExceeded ExecutionBudget

unfoldable pub record_logical_model_operation : ExecutionBudget → ℕ → Metered
unfolding check
record_logical_model_operation b now = check b now >>= λ _. ok (record b {
  state = record b.state { logical_model_operations = b.state.logical_model_operations + 1 };
})

-- `fallback is True or (fallback is None and inferred_fallback)`, from the number of attempts that
-- the enclosing `model_operation_scope` has counted, if there is one.
abbrev pub is_fallback : Option Bool → Option ℕ → Bool
is_fallback (some fallback) operation_attempts = fallback
is_fallback none none = false
is_fallback none (some attempts) = ltb 0 attempts

abbrev pub next_attempts : Option ℕ → Option ℕ
next_attempts none = none
next_attempts (some attempts) = some (attempts + 1)

abbrev pub count_attempt : Bool → ExecutionMeterState → ExecutionMeterState
count_attempt fallback s = record s {
  physical_model_attempts = s.physical_model_attempts + 1;
  fallback_attempts = if fallback then s.fallback_attempts + 1 else s.fallback_attempts;
}

-- Returns the budget and the new value of the context variable.
unfoldable pub begin_model_attempt :
    ExecutionBudget
    → Option Bool
    → Option ℕ
    → ℕ
    → Result BudgetExceeded (ExecutionBudget × Option ℕ)
unfolding check
begin_model_attempt b fallback operation_attempts now = check b now >>= λ _.
    if leb b.max_model_calls b.state.physical_model_attempts
    then err model_calls_exceeded
    else ok (
      record b { state = count_attempt (is_fallback fallback operation_attempts) b.state },
      next_attempts operation_attempts,
    )

-- What the gateway reports of a physical model attempt; negative amounts count as 0 there.
pub record Usage : Type 0 where
  pub success : Bool
  pub prompt_tokens : ℕ
  pub generated_tokens : ℕ
  pub model_load : ℕ
  pub time_to_first_token : Option ℕ

abbrev pub first_some : Option ℕ → Option ℕ → Option ℕ
first_some none new = new
first_some (some old) new = some old

unfoldable pub finish_model_attempt : ExecutionBudget → Usage → ExecutionBudget
finish_model_attempt b u = record b {
  state = record b.state {
    model_successes = if u.success then b.state.model_successes + 1 else b.state.model_successes;
    model_failures = if u.success then b.state.model_failures else b.state.model_failures + 1;
    prompt_tokens = b.state.prompt_tokens + u.prompt_tokens;
    generated_tokens = b.state.generated_tokens + u.generated_tokens;
    model_load = b.state.model_load + u.model_load;
    time_to_first_token = first_some b.state.time_to_first_token u.time_to_first_token;
  };
}

unfoldable pub begin_tool_attempt : ExecutionBudget → ℕ → Metered
unfolding check
begin_tool_attempt b now = check b now >>= λ _.
    if leb b.max_tool_calls b.state.tool_attempts
    then err tool_calls_exceeded
    else ok (record b { state = record b.state { tool_attempts = b.state.tool_attempts + 1 } })

unfoldable pub finish_tool_attempt : ExecutionBudget → Bool → Bool → ExecutionBudget
finish_tool_attempt b success timed_out = record b {
  state = record b.state {
    tool_successes = if success then b.state.tool_successes + 1 else b.state.tool_successes;
    tool_failures = if success then b.state.tool_failures else b.state.tool_failures + 1;
    tool_timeouts = if timed_out then b.state.tool_timeouts + 1 else b.state.tool_timeouts;
  };
}

unfoldable pub add_queue_wait : ExecutionBudget → ℕ → ExecutionBudget
add_queue_wait b waited = record b {
  state = record b.state { queue_wait = b.state.queue_wait + waited };
}

unfoldable pub record_cancellation : ExecutionBudget → ExecutionBudget
record_cancellation b = record b {
  state = record b.state { cancellation_count = b.state.cancellation_count + 1 };
}

-- `snapshot`, which the graph saves in its checkpoint. It reads the wall clock twice.
unfoldable pub snapshot : ExecutionBudget → ℕ → ℕ → ℕ → ExecutionMeterState
unfolding elapsed
snapshot b now later monotonic = record b.state {
  elapsed_wall = now - b.state.started_at;
  active_execution = elapsed b later monotonic;
}
