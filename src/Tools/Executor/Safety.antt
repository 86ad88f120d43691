-- ===== src/Tools/Executor/Safety.antt =====
-- executor.py: the tools that run, and the meter behind `execute`.
use langchain_langraph_app_l.Prelude.{
  ℕ, ◌+◌, ◌≤◌, ◌≡◌, ◌⊎◌, inl, inr, Bool-cases, Result-cases, String, Bool, true, false, List, [],
  ◌∷◌, arith, ok, err,
}
use langchain_langraph_app_l.Prelude.Text.{meets}
use langchain_langraph_app_l.Meter.{
  ExecutionBudget, begin_tool_attempt, finish_tool_attempt, add_queue_wait, record_cancellation,
}
use langchain_langraph_app_l.Mcp.{Post, post_body, finish_post, post, client_attempts}
use langchain_langraph_app_l.Tools.Executor.{
  read_only_markers, write_markers, tool_name_tokens, is_explicitly_safe_read, execution_denied,
  Outcome, Wait, admitted, too_late, interrupted, ToolCall, conclude, call_tool, metered_call,
  admitted_call, execute,
}

-- Some part of the name is a read marker, and none is a write marker.
pub record IsSafeRead (name : String) : Type 0 where
  pub no_write : meets (tool_name_tokens name) write_markers ≡ false
  pub reads : meets (tool_name_tokens name) read_only_markers ≡ true

-- What a call leaves on the meter: the attempts that it began are finished, once each, the limit
-- holds, and the counts of model attempts, the verifier rounds and the limits are as they were.
pub record IsSettled (b b' : ExecutionBudget) : Type 0 where
  pub finished :
      b'.state.tool_attempts + b.state.tool_successes + b.state.tool_failures
      ≡ b.state.tool_attempts + b'.state.tool_successes + b'.state.tool_failures
  pub within : b.state.tool_attempts ≤ b.max_tool_calls → b'.state.tool_attempts ≤ b'.max_tool_calls
  pub same_limit : b'.max_tool_calls ≡ b.max_tool_calls
  pub same_rounds : b'.state.verifier_rounds ≡ b.state.verifier_rounds
  pub same_max_rounds : b'.max_verifier_rounds ≡ b.max_verifier_rounds
  pub same_models : b'.state.physical_model_attempts ≡ b.state.physical_model_attempts
  pub same_model_successes : b'.state.model_successes ≡ b.state.model_successes
  pub same_model_failures : b'.state.model_failures ≡ b.state.model_failures
  pub same_model_limit : b'.max_model_calls ≡ b.max_model_calls

IsSettled-refl : (b : ExecutionBudget) → IsSettled b b
IsSettled-refl b = ground arith

IsSettled-trans : (a b c : ExecutionBudget) → IsSettled a b → IsSettled b c → IsSettled a c
IsSettled-trans a b c h k = record {
  finished = omega arith;
  within = λ p. k.within (h.within p);
  same_limit = omega arith;
  same_rounds = omega arith;
  same_max_rounds = omega arith;
  same_models = omega arith;
  same_model_successes = omega arith;
  same_model_failures = omega arith;
  same_model_limit = omega arith;
}

-- One attempt, begun and finished.
attempt-IsSettled :
    (now : ℕ) (success timed_out : Bool) (b : ExecutionBudget) {b' : ExecutionBudget}
    → begin_tool_attempt b now ≡ ok b'
    → IsSettled b (finish_tool_attempt b' success timed_out)
unfolding begin_tool_attempt finish_tool_attempt
attempt-IsSettled now success timed_out b h = ground arith

-- One post of the client, begun, and finished by the `finally` of `_post`.
post-IsSettled : (p : Post) (b : ExecutionBudget) → IsSettled b (post p b).1
unfolding post finish_post
post-IsSettled p b = elim (Result-cases (begin_tool_attempt b p.now)) [
  | inl (b', e) ↦
      let f = (post_body p.allow_empty p.delivery).1 in
      rw (e, post) (attempt-IsSettled p.now f.success f.timed_out b e)
  | inr (_, e) ↦ rw (e, post) (IsSettled-refl b)
]

client_attempts-IsSettled :
    (attempts : List Post) (b : ExecutionBudget) → IsSettled b (client_attempts attempts b).1
unfolding client_attempts
client_attempts-IsSettled [] b = IsSettled-refl b
client_attempts-IsSettled (p ∷ rest) b =
    let b' = (post p b).1 in
    let done = post-IsSettled p b in
    ground (
      arith,
      done,
      IsSettled-trans b b' (client_attempts rest b').1 done (client_attempts-IsSettled rest b'),
    )

add_queue_wait-IsSettled :
    (waited : ℕ) (b : ExecutionBudget) → IsSettled b (add_queue_wait b waited)
unfolding add_queue_wait
add_queue_wait-IsSettled waited b = ground arith

module _ {ℓ} {R : Type ℓ} where
  conclude-IsSettled :
      (outcome : Outcome R) (b b' : ExecutionBudget)
      → IsSettled b b'
      → IsSettled b (conclude false outcome b').1
  unfolding conclude record_cancellation
  conclude-IsSettled (Outcome.returned r) b b' h = ground arith
  conclude-IsSettled _ b b' h = ground arith

  call_tool-IsSettled : (c : ToolCall R) (b : ExecutionBudget) → IsSettled b (call_tool false c b).1
  unfolding call_tool
  call_tool-IsSettled c b =
      let h = client_attempts-IsSettled c.attempts b in
      ground (arith, h, conclude-IsSettled c.outcome b (client_attempts c.attempts b).1 h)

  -- With one attempt of the executor's own open, every outcome finishes it.
  conclude_manual :
      (outcome : Outcome R) (b b' b'' : ExecutionBudget) (now : ℕ)
      → begin_tool_attempt b now ≡ ok b'
      → IsSettled b' b''
      → IsSettled b (conclude true outcome b'').1
  unfolding conclude record_cancellation finish_tool_attempt begin_tool_attempt
  conclude_manual (Outcome.returned r) b b' b'' now e h = ground arith
  conclude_manual _ b b' b'' now e h = ground arith

  call_manual-IsSettled :
      (c : ToolCall R) (b b' : ExecutionBudget)
      → begin_tool_attempt b c.now ≡ ok b'
      → IsSettled b (call_tool true c b').1
  unfolding call_tool finish_tool_attempt begin_tool_attempt
  call_manual-IsSettled c b b' e =
      let h = client_attempts-IsSettled c.attempts b' in
      ground (arith, h, conclude_manual c.outcome b b' (client_attempts c.attempts b').1 c.now e h)

  metered_call-IsSettled :
      (manual : Bool) (c : ToolCall R) (b : ExecutionBudget)
      → IsSettled b (metered_call manual c b).1
  unfolding metered_call
  metered_call-IsSettled false c b = call_tool-IsSettled c b
  metered_call-IsSettled true c b = elim (Result-cases (begin_tool_attempt b c.now)) [
    | inl (b', e) ↦ rw (e, metered_call) (call_manual-IsSettled c b b' e)
    | inr (_, e) ↦ rw (e, metered_call) (IsSettled-refl b)
  ]

  admitted_call-IsSettled :
      (manual : Bool) (c : ToolCall R) (waited : Wait) (b : ExecutionBudget)
      → IsSettled b (admitted_call manual c waited b).1
  unfolding admitted_call
  admitted_call-IsSettled manual c too_late b = IsSettled-refl b
  admitted_call-IsSettled manual c interrupted b = IsSettled-refl b
  admitted_call-IsSettled manual c (admitted waited) b =
      IsSettled-trans b (add_queue_wait b waited)
        (metered_call manual c (add_queue_wait b waited)).1 (add_queue_wait-IsSettled waited b)
        (metered_call-IsSettled manual c (add_queue_wait b waited))

module _ {ℓ} {R : Type ℓ} (manual : Bool) where
  -- Either some part of the tool's name is a read marker and none is a write marker, and the call
  -- goes on, or the call is denied and the budget is as it was.
  pub execute_denied :
      (name : String) (c : ToolCall R) (b : ExecutionBudget)
      → (IsSafeRead name × (execute manual name c b ≡ admitted_call manual c c.waited b))
        ⊎ (¬ (IsSafeRead name) × (execute manual name c b ≡ (err execution_denied, b)))
  unfolding execute is_explicitly_safe_read
  execute_denied name c b = elim (Bool-cases (meets (tool_name_tokens name) write_markers)) [
    | inl writes ↦ inr (λ s. cc (s.no_write, writes), rw writes)
    | inr other ↦ elim (Bool-cases (meets (tool_name_tokens name) read_only_markers)) [
      | inl reads ↦ inl (record { no_write = other; reads = reads }, rw (other, reads))
      | inr neither ↦ inr (λ s. cc (s.reads, neither), rw (other, neither))
    ]
  ]

  -- Whatever way `execute` ends, by a result, a denial, a spent budget, a timeout, a cancellation
  -- or another exception, each attempt that it began is counted once as a success or a failure, the
  -- attempts stay within their limit, and the counts of model attempts, the verifier rounds and the
  -- three limits are as they were.
  pub execute-IsSettled :
      (name : String) (c : ToolCall R) (b : ExecutionBudget)
      → IsSettled b (execute manual name c b).1
  execute-IsSettled name c b = elim (execute_denied name c b) [
    | inl (_, goes_on) ↦ rw goes_on (admitted_call-IsSettled manual c c.waited b)
    | inr (_, denied) ↦ rw denied (IsSettled-refl b)
  ]
