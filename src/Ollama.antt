-- ===== src/Ollama.antt =====
-- app/llm/ollama.py: `OllamaClient.chat`, as far as it meters its attempt. What the HTTP client
-- answers, with the wait for the permit of the model, is an argument.
use langchain_langraph_app_l.Prelude.{
  ℕ, String, Bool, true, false, Option, none, some, Result, ok, err,
}
use langchain_langraph_app_l.Meter.{
  BudgetExceeded, ExecutionBudget, Usage, begin_model_attempt, finish_model_attempt,
}

-- The object that /api/chat answers. `error` is none when it is absent or empty; a count is none
-- when it is missing, negative or no number.
pub record Payload : Type 0 where
  pub error : Option String
  pub prompt_eval_count : Option ℕ
  pub eval_count : Option ℕ
  pub load_duration : Option ℕ

-- What the body of the `try` meets: an `httpx.HTTPError`, a `ValueError` of the parser, any other
-- exception, such as a cancellation or a refused permit, or a parsed answer.
pub data Response : Type 0 where
  http_error value_error interrupted : String → Response
  non_object : Response
  object : Payload → Response

-- The exceptions that leave the body of the `try`.
pub data Raised : Type 0 where
  http value ollama other : String → Raised

-- The exceptions that leave `chat`.
pub data ChatError : Type 0 where
  over_budget : BudgetExceeded → ChatError
  ollama_error interrupted : String → ChatError

-- The variables `success` and `data`, which the `finally` reads; none is the empty dictionary.
pub record Locals : Type 0 where
  pub success : Bool
  pub data_read : Option Payload

abbrev unread : Locals
unread = record { success = false; data_read = none }

-- The body of the `try`.
unfoldable pub chat_body : Response → Result Raised Payload × Locals
chat_body (http_error message) = (err (http message), unread)
chat_body (value_error message) = (err (value message), unread)
chat_body (Response.interrupted name) = (err (other name), unread)
chat_body non_object = (err (ollama "Ollama /api/chat returned a non-object payload."), unread)
chat_body (object payload) = elim payload.error [
  | some message ↦ (err (ollama message), record { success = false; data_read = some payload })
  | none ↦ (ok payload, record { success = true; data_read = some payload })
]

-- `except (httpx.HTTPError, ValueError, OllamaError)`
abbrev pub catch_http : Raised → ChatError
catch_http (http message) = ollama_error message
catch_http (value message) = ollama_error message
catch_http (ollama message) = ollama_error message
catch_http (other name) = ChatError.interrupted name

-- `_nonnegative_int`
abbrev pub nonnegative : Option ℕ → ℕ
nonnegative none = 0
nonnegative (some n) = n

abbrev pub usage_of : Locals → Usage
usage_of l = elim l.data_read [
  | none ↦ record {
    success = l.success;
    prompt_tokens = 0;
    generated_tokens = 0;
    model_load = 0;
    time_to_first_token = none;
  }
  | some payload ↦ record {
    success = l.success;
    prompt_tokens = nonnegative payload.prompt_eval_count;
    generated_tokens = nonnegative payload.eval_count;
    model_load = nonnegative payload.load_duration;
    time_to_first_token = none;
  }
]

-- The `finally`, which runs however the body ended.
unfoldable pub finish_chat : Locals → ExecutionBudget → ExecutionBudget
finish_chat l b = finish_model_attempt b (usage_of l)

-- One call of `chat`: when it starts, and what it meets.
pub record Attempt : Type 0 where
  pub now : ℕ
  pub response : Response

abbrev pub caught : Result Raised Payload → Result ChatError Payload
caught (ok payload) = ok payload
caught (err x) = err (catch_http x)

-- `n` is the context variable that counts the attempts of one operation.
unfoldable pub chat :
    Attempt → Option ℕ → ExecutionBudget → (Result ChatError Payload × Option ℕ) × ExecutionBudget
unfolding chat_body finish_chat
chat a n b = elim (begin_model_attempt b none n a.now) [
  | err e ↦ ((err (over_budget e), n), b)
  | ok (b', n') ↦ let (r, l) = chat_body a.response in ((caught r, n'), finish_chat l b')
]
