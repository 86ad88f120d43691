-- ===== src/Tools/Executor/Replies.antt =====
-- executor.py: where a result that succeeded comes from.
use langchain_langraph_app_l.Prelude.{
  ◌≡◌, inl, inr, String, Bool, true, ok, arith, Bool-cases, Result-cases,
}
use langchain_langraph_app_l.Meter.{ExecutionBudget, begin_tool_attempt, add_queue_wait}
use langchain_langraph_app_l.Mcp.{client_attempts}
use langchain_langraph_app_l.Tools.Executor.{
  Outcome, Wait, admitted, too_late, interrupted, ToolResult, ToolCall, conclude, call_tool,
  metered_call, admitted_call, execute,
}
use langchain_langraph_app_l.Tools.Executor.Safety.{execute_denied}

-- A result that succeeded is the one that the client's call returned.
module _ {ℓ} {R : Type ℓ} (manual : Bool) where
  conclude-returned :
      (outcome : Outcome R) (b : ExecutionBudget) (r : ToolResult R)
      → (conclude manual outcome b).0 ≡ ok r
      → outcome ≡ Outcome.returned r
  unfolding conclude
  conclude-returned (Outcome.returned x) b r h = ground arith
  conclude-returned Outcome.expired b r h = absurd (ground arith)
  conclude-returned Outcome.timed_out b r h = absurd (ground arith)
  conclude-returned Outcome.cancelled b r h = absurd (ground arith)
  conclude-returned (Outcome.failed name) b r h = absurd (ground arith)

  call_tool-returned :
      (c : ToolCall R) (b : ExecutionBudget) (r : ToolResult R)
      → (call_tool manual c b).0 ≡ ok r
      → r.ok ≡ true
      → c.outcome ≡ Outcome.returned r
  unfolding call_tool conclude
  call_tool-returned c b r h k = elim (Result-cases (client_attempts c.attempts b).0) [
    | inl (_, e) ↦
        conclude-returned c.outcome (client_attempts c.attempts b).1 r (ground (arith, e, h))
    | inr (_, e) ↦ absurd (ground (arith, e))
  ]

  metered_call-returned :
      (c : ToolCall R) (b : ExecutionBudget) (r : ToolResult R)
      → (metered_call manual c b).0 ≡ ok r
      → r.ok ≡ true
      → c.outcome ≡ Outcome.returned r
  unfolding metered_call
  metered_call-returned c b r h k = elim (Bool-cases manual) [
    | inr m ↦ call_tool-returned c b r (ground (arith, m, h)) k
    | inl m ↦ elim (Result-cases (begin_tool_attempt b c.now)) [
      | inl (b', e) ↦ call_tool-returned c b' r (ground (arith, m, e, h)) k
      | inr (_, e) ↦ absurd (ground (arith, m, e, h))
    ]
  ]

  admitted_call-returned :
      (c : ToolCall R) (waited : Wait) (b : ExecutionBudget) (r : ToolResult R)
      → (admitted_call manual c waited b).0 ≡ ok r
      → r.ok ≡ true
      → c.outcome ≡ Outcome.returned r
  unfolding admitted_call
  admitted_call-returned c too_late b r h k = absurd (ground (arith, h))
  admitted_call-returned c interrupted b r h k = absurd (ground (arith, h))
  admitted_call-returned c (admitted waited) b r h k =
      metered_call-returned c (add_queue_wait b waited) r h k

  pub execute-returned :
      (name : String) (c : ToolCall R) (b : ExecutionBudget) (r : ToolResult R)
      → (execute manual name c b).0 ≡ ok r
      → r.ok ≡ true
      → c.outcome ≡ Outcome.returned r
  execute-returned name c b r h k = elim (execute_denied manual name c b) [
    | inl (_, e) ↦ admitted_call-returned c c.waited b r (ground (arith, e, h)) k
    | inr (_, e) ↦ absurd (ground (arith, e, h))
  ]
