-- ===== src/Chat.antt =====
-- app/orchestration/chat_runtime.py: the data of ChatRuntimeAgent. Chat/Execution, Chat/Preflight and
-- Chat/Runtime have its methods. A method changes the two stores and the counters, and returns or
-- raises; what it changed before it raises stays. It waits at the points below, where other requests
-- are served and the request can be cancelled. Log lines are left out.
pub mod Execution
pub mod Preflight
pub mod Runtime
pub mod Steps
pub mod Outcome
pub mod Answered
pub mod Leased
pub mod Found
pub mod Retry
pub mod Idempotent
pub mod Decision
pub mod Release
pub mod Freed
pub mod Liveness
pub mod Cancelled
pub mod Persisted
mod Example
mod Tests
use langchain_langraph_app_l.Prelude.{
  ℕ, String, List, [], ◌∷◌, Bool, true, false, Option, none, some, Result, ok, err, if◌then◌else◌,
}
use langchain_langraph_app_l.Runs.{
  Payload, RunLease, RunRecord, RunIdentity, RunError, stale_lease, MemoryRunRepository,
}
use langchain_langraph_app_l.Runs.Memory.{Done}
use langchain_langraph_app_l.Runs.Calls
use langchain_langraph_app_l.Conversations.{Store}
use langchain_langraph_app_l.Conversations.Bounds

pub record Message : Type 0 where
  pub role : String
  pub content : String
  pub conversation_id : String
  pub run_id : String

-- A request with its identity, which is that of a run with three more fields.
pub record Request : Type 0 where
  pub identity : RunIdentity
  pub resumed : Bool
  pub client_supplied_run_id : Bool
  pub message : String

-- The text, the entry `history_persisted` of metadata["persistence"], and everything else by its JSON
-- texts.
pub record ChatResponse : Type 0 where
  pub response : String
  pub history_persisted : Option Bool
  pub fields : Payload

-- The exceptions. Those of the run repository keep their data; of another, there is the name.
pub data Exception : Type 0 where
  run_error : RunError → Exception
  identity_mismatch checkpoint_conflict lease_expired already_active already_exists : Exception
  resume_not_found token_revoked not_resumable cancelled : Exception
  other : String → Exception

-- The names of the counters that were raised, newest first.
pub record World : Type 0 where
  pub repository : MemoryRunRepository
  pub memory : Store Message
  pub metrics : List String

-- What a method does to the world, and what it returns or raises.
abbrev pub Act {ℓ} : Type ℓ → Type ℓ
Act A = World → Result Exception A × World

abbrev pub and_then {ℓ κ} :
    {A : Type ℓ} {B : Type κ}
    → Result Exception A × World
    → (A → Act B)
    → Result Exception B × World
and_then (ok a, w) f = f a w
and_then (err e, w) f = (err e, w)

infixl 5 ◌>>=◌ ◌>>◌
abbrev pub ◌>>=◌ {ℓ κ} : {A : Type ℓ} {B : Type κ} → Act A → (A → Act B) → Act B
(act >>= f) w = and_then (act w) f

abbrev pub ◌>>◌ {ℓ κ} : {A : Type ℓ} {B : Type κ} → Act A → Act B → Act B
(act >> next) w = and_then (act w) (λ _. next)

abbrev pub pure {ℓ} : {A : Type ℓ} → A → Act A
pure a w = (ok a, w)

abbrev pub raise {ℓ} : {A : Type ℓ} → Exception → Act A
raise e w = (err e, w)

-- `metrics.inc`
abbrev pub inc : String → Act (Unit {0})
inc name w = (ok tt, record w { metrics = name ∷ w.metrics })

-- The places where a request waits, in the order of the code.
pub data Point : Type 0 where
  looking_up creating replaying reconciling checking acquiring reading executing : Point
  inspecting ending appending committing interrupting releasing : Point

-- One round of the heartbeat: the calls before it, and the three readings of the clock by `renew`.
pub record Beat : Type 0 where
  pub others : List Calls.Call
  pub now : ℕ
  pub now' : ℕ
  pub now'' : ℕ

-- How the graph ends: the result's entries that are read, or what it raises.
pub data GraphOutcome : Type 0 where
  returned : String → Bool → Option String → Option String → GraphOutcome
  budget_exceeded : String → GraphOutcome
  structured_output_error : String → String → GraphOutcome
  graph_cancelled : GraphOutcome
  raised : String → GraphOutcome

-- pydantic's `model_dump` and `model_validate` of ChatResponse.
pub record Codec : Type 0 where
  pub dump : ChatResponse → Payload
  pub validate : Payload → Option ChatResponse

-- What the outside gives to one request: `clock` has the readings at each point, `others` and `turns`
-- the calls of other requests on the two stores, `prepared` and `reported` whether what is built in
-- front of the graph and behind it raises, and `fields` what the response has beside its text.
pub record Outside : Type 0 where
  pub run_lease_ttl : ℕ
  pub clock : Point → ℕ → ℕ
  pub others : Point → List Calls.Call
  pub turns : Point → List (Bounds.Call Message)
  pub is_cancelled : Point → Bool
  pub codec : Codec
  pub checkpoint : Result String Bool
  pub checkpoint_id : Option String
  pub owner_id : String
  pub beats : List Beat
  pub prepared : Result String (Unit {0})
  pub reported : Result String (Unit {0})
  pub graph : GraphOutcome
  pub fields : Payload

abbrev pub interfere : Outside → Point → World → World
interfere o p w = record w {
  repository = Calls.perform_all (o.others p) w.repository;
  memory = Bounds.perform_all (o.turns p) w.memory;
}

-- A wait: other requests are served, and the request may have been cancelled meanwhile.
unfoldable pub pause : Outside → Point → Act (Unit {0})
pause o p w =
    if o.is_cancelled p
    then (err Exception.cancelled, interfere o p w)
    else (ok tt, interfere o p w)

-- A call of the run repository.
abbrev pub stored {ℓ} : {A : Type ℓ} → World → Done A → Result Exception A × World
stored w (ok (a, r)) = (ok a, record w { repository = r })
stored w (err e) = (err (run_error e), w)

abbrev pub call {ℓ} : {A : Type ℓ} → (MemoryRunRepository → Done A) → Act A
call f w = stored w (f w.repository)
