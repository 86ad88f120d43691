-- ===== src/Mcp.antt =====
-- app/mcp/client.py: `MCPClient._post`, as far as it meters its attempt, and the posts of one call.
-- What the transport answers is an argument.
use langchain_langraph_app_l.Prelude.{
  ℕ, String, Bool, true, false, List, [], ◌∷◌, Result, ok, err, if◌then◌else◌,
}
use langchain_langraph_app_l.Meter.{
  BudgetExceeded, ExecutionBudget, begin_tool_attempt, finish_tool_attempt,
}

-- What the transport returns: None, one object, a list whose elements are objects or not, or
-- anything else.
pub data Messages : Type 0 where
  absent object : Messages
  collection : List Bool → Messages
  malformed : Messages

-- How `transport.post` ends. `interrupted` is any exception but a timeout, a cancellation too.
pub data Delivery : Type 0 where
  delivered : Messages → Delivery
  timeout : Delivery
  interrupted : String → Delivery

-- The exceptions that leave `_post`.
pub data PostError : Type 0 where
  over_budget : BudgetExceeded → PostError
  timed_out protocol_error : PostError
  raised : String → PostError

pub record Post : Type 0 where
  pub now : ℕ
  pub allow_empty : Bool
  pub delivery : Delivery

-- The variables `success` and `timed_out`, which the `finally` reads.
pub record Flags : Type 0 where
  pub success : Bool
  pub timed_out : Bool

abbrev pub all_objects : List Bool → Bool
all_objects [] = true
all_objects (is_object ∷ rest) = if is_object then all_objects rest else false

abbrev pub is_collection : Bool → Messages → Bool
is_collection allow_empty absent = allow_empty
is_collection allow_empty object = true
is_collection allow_empty (collection kinds) = all_objects kinds
is_collection allow_empty malformed = false

-- The body of the `try`, and its `except`.
unfoldable pub post_body : Bool → Delivery → Result PostError (Unit {0}) × Flags
post_body allow_empty (delivered messages) =
    if is_collection allow_empty messages
    then (ok tt, record { success = true; timed_out = false })
    else (err protocol_error, record { success = false; timed_out = false })
post_body allow_empty timeout = (err timed_out, record { success = false; timed_out = true })
post_body allow_empty (interrupted name) =
    (err (raised name), record { success = false; timed_out = false })

-- The `finally`, which runs however the body ended.
unfoldable pub finish_post : Flags → ExecutionBudget → ExecutionBudget
finish_post f b = finish_tool_attempt b f.success f.timed_out

unfoldable pub post : Post → ExecutionBudget → Result PostError (Unit {0}) × ExecutionBudget
unfolding post_body finish_post
post p b = elim (begin_tool_attempt b p.now) [
  | err e ↦ (err (over_budget e), b)
  | ok b' ↦ let (r, f) = post_body p.allow_empty p.delivery in (r, finish_post f b')
]

-- The posts of one call, in order: the session's, the request, answers to the server, and those
-- after an expired session. A post that the budget refuses ends the call.
unfoldable pub client_attempts :
    List Post → ExecutionBudget → Result BudgetExceeded (Unit {0}) × ExecutionBudget
unfolding post
client_attempts [] b = (ok tt, b)
client_attempts (p ∷ rest) b =
    let (r, b') = post p b in
    let next = client_attempts rest b' in
    elim r [
      | err (over_budget e) ↦ (err e, b')
      | err timed_out ↦ next
      | err protocol_error ↦ next
      | err (raised name) ↦ next
      | ok _ ↦ next
    ]
