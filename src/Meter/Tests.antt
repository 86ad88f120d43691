-- ===== src/Meter/Tests.antt =====
-- execution_meter.py: the theorems on the budget at concrete requests.
use langchain_langraph_app_l.Prelude.{
  ◌+◌, ◌≤◌, ◌≡◌, ◌↔◌, ◌<◌, refl, true, false, none, some, List, [], ◌∷◌, arith, ok, is_ok,
}
use langchain_langraph_app_l.Meter.{
  ExecutionBudget, Usage, create, elapsed, remaining, check, snapshot, begin_model_attempt,
  begin_tool_attempt,
}
use langchain_langraph_app_l.Meter.Attempts.{
  Traffic, here, next, begin_tool, IsBalanced, Reach-IsBalanced,
}
use langchain_langraph_app_l.Meter.Bounds.{
  WithinLimits, begin_attempt_iff, Call, perform_all, IsBounded, perform_all-IsBounded,
}
use langchain_langraph_app_l.Meter.Clock.{elapsed-create-snapshot}

-- Two model calls and one tool call in a hundred seconds.
abbrev small : ExecutionBudget
unfolding create
small = create 100 2 1 3 none 0 0

abbrev usage : Usage
usage = record {
  success = true;
  prompt_tokens = 10;
  generated_tokens = 5;
  model_load = 0;
  time_to_first_token = none;
}

abbrev calls : List Call
calls =
    Call.record_logical 1
    ∷ Call.begin_model none (some 0) 1
    ∷ Call.finish_model usage
    ∷ Call.begin_tool 2
    ∷ Call.begin_tool 3
    ∷ Call.finish_tool false true
    ∷ Call.cancellation
    ∷ []

abbrev one_tool : ExecutionBudget
one_tool = record small { state = record small.state { tool_attempts = 1 } }

begin_attempt_iff_example :
    ((check small 5 ≡ ok tt) ↔ WithinLimits small 5)
    × ((is_ok (begin_model_attempt small none (some 1) 5) ≡ true)
        ↔ (WithinLimits small 5 × (small.state.physical_model_attempts < small.max_model_calls)))
    × ((is_ok (begin_tool_attempt small 5) ≡ true)
        ↔ (WithinLimits small 5 × (small.state.tool_attempts < small.max_tool_calls)))
begin_attempt_iff_example = begin_attempt_iff small none (some 1) 5

small-IsBounded : IsBounded small
unfolding create
small-IsBounded = ground arith

perform_all-IsBounded_example : IsBounded (perform_all calls small)
perform_all-IsBounded_example = perform_all-IsBounded calls small small-IsBounded

abbrev idle : Traffic
idle = record { budget = small; models_in_flight = 0; tools_in_flight = 0 }

abbrev busy : Traffic
busy = record { budget = one_tool; models_in_flight = 0; tools_in_flight = 1 }

idle-IsBalanced : IsBalanced idle
unfolding create
idle-IsBalanced = ground arith

begun : begin_tool_attempt small 5 ≡ ok one_tool
unfolding begin_tool_attempt check create
begun = refl

Reach-IsBalanced_example : IsBalanced busy
Reach-IsBalanced_example = Reach-IsBalanced idle-IsBalanced (next here (begin_tool idle 5 begun))

elapsed-create-snapshot_example :
    let saved = snapshot small 40 41 30 in
    let restored = create 100 2 1 3 (some saved) 60 7 in
    (elapsed small 41 30 + 1000 ≤ elapsed restored 60 20)
    × (restored.state.deadline_at ≡ small.state.deadline_at)
    × (remaining restored 60 ≡ remaining small 60)
unfolding create
elapsed-create-snapshot_example = elapsed-create-snapshot small 40 41 30 60 7 20
