-- ===== src/Runs.antt =====
-- app/state/run_repository.py: the data of the run repository. Runs/Memory has its operations. The `asyncio.Lock` makes
-- each method one step. A method that raises leaves its object alone, so it returns its value and the
-- new object, or the exception. Each call of the clock is an argument, in whole microseconds. A
-- payload's values are given by their JSON text.

pub mod Memory
pub mod Calls
pub mod Leases
pub mod Fencing
pub mod Contract
pub mod Exclusion
pub mod Postgres
pub mod Refinement
mod Tests
use langchain_langraph_app_l.Prelude.{
  ℕ, ◌+◌, String, List, [], ◌∷◌, Bool, true, false, not, ◌&&◌, ◌||◌, ◌==◌, leb, ltb, Option, none,
  some, str_eq, if◌then◌else◌, or_else, Result, ok, err, ◌>>=◌,
}
use langchain_langraph_app_l.Prelude.Dict.{Dict, lookup, put, remove}

pub data RunStatus : Type 0 where
  pending running interrupted completed failed cancelled expired reconciling : RunStatus

abbrev pub is_terminal : RunStatus → Bool
is_terminal RunStatus.completed = true
is_terminal RunStatus.failed = true
is_terminal RunStatus.cancelled = true
is_terminal RunStatus.expired = true
is_terminal _ = false

abbrev pub Payload : Type 0
Payload = Dict String

pub record RunRecord : Type 0 where
  pub run_id : String
  pub conversation_id : String
  pub execution_thread_id : String
  pub request_hash : String
  pub request_hash_version : ℕ
  pub state_schema_version : ℕ
  pub status : RunStatus
  pub fencing_token : Option ℕ
  pub lease_owner : Option String
  pub lease_expires_at : Option ℕ
  pub checkpoint_id : Option String
  pub response_payload : Option Payload
  pub termination_reason : Option String
  pub error_code : Option String
  pub created_at : Option ℕ
  pub updated_at : Option ℕ
  pub started_at : Option ℕ
  pub completed_at : Option ℕ
  pub history_committed_at : Option ℕ
  pub resume_token_version : ℕ

pub record RunLease : Type 0 where
  pub conversation_id : String
  pub run_id : String
  pub owner_id : String
  pub fencing_token : ℕ
  pub expires_at : ℕ

-- The fields of `RunIdentity` that the repository reads.
pub record RunIdentity : Type 0 where
  pub conversation_id : String
  pub run_id : String
  pub execution_thread_id : String
  pub request_hash : String
  pub request_hash_version : ℕ
  pub state_schema_version : ℕ
  pub resume_token_version : ℕ

-- The exceptions, with the messages of `RunConflictError`; `key_error` is Python's own.
pub data RunError : Type 0 where
  no_record other_conversation other_execution other_request other_schema : RunError
  conversation_busy stale_lease key_error : RunError

pub record MemoryRunRepository : Type 0 where
  pub records : Dict RunRecord
  pub leases : Dict RunLease
  pub fencing : Dict ℕ
  pub started : Bool

abbrev pub empty_repository : MemoryRunRepository
empty_repository = record { records = []; leases = []; fencing = []; started = false }

abbrev pub start : MemoryRunRepository → MemoryRunRepository
start r = record r { started = true }

abbrev pub aclose : MemoryRunRepository → MemoryRunRepository
aclose r = record r { started = false }

-- `_validate_record_identity`
unfoldable pub validate_identity : RunRecord → RunIdentity → Result RunError (Unit {0})
validate_identity known identity =
    if not (str_eq known.conversation_id identity.conversation_id)
    then err other_conversation
    else if not (str_eq known.execution_thread_id identity.execution_thread_id)
    then err other_execution
    else if not (str_eq known.request_hash identity.request_hash)
        || not (known.request_hash_version == identity.request_hash_version)
    then err other_request
    else if not (known.state_schema_version == identity.state_schema_version)
    then err other_schema
    else ok tt
