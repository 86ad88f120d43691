-- ===== src/Tools/Executor.antt =====
-- app/tools/executor.py. The wait for the semaphore, the posts that the MCP client sends, which it
-- meters by itself in production, and how its `call_tool` ends are given with the call.
pub mod Names
pub mod Denial
pub mod Replies
pub mod Safety
mod Tests
use langchain_langraph_app_l.Prelude.{
  ℕ, String, Bool, true, false, not, ◌&&◌, Option, none, some, List, [], ◌∷◌, map, ◌==◌,
  if◌then◌else◌, Result, ok, err,
}
use langchain_langraph_app_l.Prelude.Text.{codes, lower_code, split_on, meets}
use langchain_langraph_app_l.Meter.{
  BudgetExceeded, ExecutionBudget, begin_tool_attempt, finish_tool_attempt, add_queue_wait,
  record_cancellation,
}
use langchain_langraph_app_l.Mcp.{Post, client_attempts}
use langchain_langraph_app_l.Tools.Policies.{ToolPolicy, policy_for, nonempty}

abbrev pub read_only_markers : List String
read_only_markers =
    "calculate" ∷ "convert" ∷ "explain" ∷ "extract" ∷ "fetch" ∷ "get" ∷ "health" ∷ "list" ∷ "lookup"
    ∷ "news" ∷ "query" ∷ "quote" ∷ "read" ∷ "scrape" ∷ "search" ∷ "status" ∷ "time" ∷ "weather" ∷ []

abbrev pub write_markers : List String
write_markers =
    "approve" ∷ "create" ∷ "delete" ∷ "draft" ∷ "execute" ∷ "modify" ∷ "patch" ∷ "post" ∷ "publish"
    ∷ "remove" ∷ "run" ∷ "send" ∷ "trigger" ∷ "update" ∷ "upload" ∷ "write" ∷ []

abbrev dash_to_underscore : ℕ → ℕ
dash_to_underscore c = if c == b'-' then b'_' else c

unfoldable pub tool_name_tokens : String → List (List ℕ)
unfolding nonempty split_on
tool_name_tokens name =
    nonempty (split_on b'_' (map dash_to_underscore (map lower_code (codes name))))

-- `getattr(policy, "confirmation_required", False)`: a `ToolPolicy` has no such attribute.
abbrev pub confirmation_required : ToolPolicy → Bool
confirmation_required policy = false

unfoldable pub is_explicitly_safe_read : String → ToolPolicy → Bool
unfolding tool_name_tokens
is_explicitly_safe_read name policy =
    if confirmation_required policy
    then false
    else if meets (tool_name_tokens name) write_markers
    then false
    else meets (tool_name_tokens name) read_only_markers

pub data ToolError : Type 0 where
  approval_required execution_denied : ToolError
  over_budget : BudgetExceeded → ToolError
  timed_out cancelled : ToolError
  failed : String → ToolError

-- `MCPToolResult`
pub record ToolResult {ℓ} (R : Type ℓ) : Type ℓ where
  pub ok : Bool
  pub reply : R

-- How `mcp.call_tool` ends: with a result or with an exception. `expired` is
-- the time limit of `asyncio.timeout`, which reaches the call as a `CancelledError` and leaves
-- `execute` as a `TimeoutError`; `timed_out` is a `TimeoutError` of the client's own.
pub data Outcome {ℓ} (R : Type ℓ) : Type ℓ where
  returned : ToolResult R → Outcome R
  expired timed_out cancelled : Outcome R
  failed : String → Outcome R

-- How the wait for the semaphore ends.
pub data Wait : Type 0 where
  admitted : ℕ → Wait
  too_late interrupted : Wait

-- `attempts` are the posts of a client that meters them; `refused` is what such a client
-- puts in the result, which is not `ok`, when the budget refuses a post.
pub record ToolCall {ℓ} (R : Type ℓ) : Type ℓ where
  pub waited : Wait
  pub now : ℕ
  pub attempts : List Post
  pub refused : R
  pub outcome : Outcome R

module _ {ℓ} {R : Type ℓ} where
  -- The `try` around `call_tool`; `manual` is `manual_metering`.
  unfoldable pub conclude :
      Bool → Outcome R → ExecutionBudget → Result ToolError (ToolResult R) × ExecutionBudget
  conclude manual (returned r) b = (ok r, if manual then finish_tool_attempt b r.ok false else b)
  conclude manual expired b =
      let b' = record_cancellation b in
      (err timed_out, if manual then finish_tool_attempt b' false false else b')
  conclude manual timed_out b =
      (err timed_out, if manual then finish_tool_attempt b false true else b)
  conclude manual cancelled b =
      let b' = record_cancellation b in
      (err cancelled, if manual then finish_tool_attempt b' false false else b')
  conclude manual (failed name) b =
      (err (failed name), if manual then finish_tool_attempt b false false else b)

  unfoldable pub call_tool :
      Bool → ToolCall R → ExecutionBudget → Result ToolError (ToolResult R) × ExecutionBudget
  unfolding client_attempts conclude
  call_tool manual c b =
      let (r, b') = client_attempts c.attempts b in
      elim r [
        | err e ↦ conclude manual (returned (record { ok = false; reply = c.refused })) b'
        | ok _ ↦ conclude manual c.outcome b'
      ]

  -- Inside the semaphore: the manual attempt, if the client does not meter, and the call.
  unfoldable pub metered_call :
      Bool → ToolCall R → ExecutionBudget → Result ToolError (ToolResult R) × ExecutionBudget
  unfolding call_tool
  metered_call false c b = call_tool false c b
  metered_call true c b = elim (begin_tool_attempt b c.now) [
    | err e ↦ (err (over_budget e), b)
    | ok b' ↦ call_tool true c b'
  ]

  unfoldable pub admitted_call :
      Bool → ToolCall R → Wait → ExecutionBudget → Result ToolError (ToolResult R) × ExecutionBudget
  unfolding metered_call
  admitted_call manual c too_late b = (err timed_out, b)
  admitted_call manual c interrupted b = (err cancelled, b)
  admitted_call manual c (admitted waited) b = metered_call manual c (add_queue_wait b waited)

  -- `ToolExecutor.execute`. The caller's metadata is dropped there, so it is no argument here.
  unfoldable pub execute :
      Bool
      → String
      → ToolCall R
      → ExecutionBudget
      → Result ToolError (ToolResult R) × ExecutionBudget
  unfolding admitted_call
  execute manual name c b =
      if confirmation_required (policy_for name)
      then (err approval_required, b)
      else if not (is_explicitly_safe_read name (policy_for name))
      then (err execution_denied, b)
      else admitted_call manual c c.waited b
