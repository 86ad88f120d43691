-- ===== src/Meter/Clock.antt =====
-- execution_meter.py: the clocks of a budget, and of a budget restored from a snapshot.
use langchain_langraph_app_l.Prelude.{ℕ, ◌+◌, ◌≤◌, ◌≡◌, some, arith}
use langchain_langraph_app_l.Meter.{ExecutionBudget, create, elapsed, remaining, snapshot}

-- However its two clocks stand, a budget restored from a snapshot reports at least the elapsed time
-- that the snapshot held and the handoff guard of a millisecond, keeps the deadline of the first
-- start, and has as much time left at any moment.
pub elapsed-create-snapshot :
    (b : ExecutionBudget) (now later monotonic : ℕ) (now' origin monotonic' : ℕ)
    → let saved = snapshot b now later monotonic in
      let restored =
        create b.max_duration b.max_model_calls b.max_tool_calls b.max_verifier_rounds
          (some saved)
          now'
          origin in
      (elapsed b later monotonic + 1000 ≤ elapsed restored now' monotonic')
      × (restored.state.deadline_at ≡ b.state.deadline_at)
      × (remaining restored now' ≡ remaining b now')
unfolding create elapsed remaining snapshot
elapsed-create-snapshot b now later monotonic now' origin monotonic' =
    (omega arith, ground arith, ground arith)
