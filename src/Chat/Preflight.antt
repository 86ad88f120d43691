-- ===== src/Chat/Preflight.antt =====
-- chat_runtime.py: what is decided before a run executes.
use langchain_langraph_app_l.Prelude.{
  ℕ, String, ◌∷◌, Bool, true, false, not, ◌&&◌, ◌==◌, leb, Option, none, some, Result, ok, err,
  str_eq, is_some, if◌then◌else◌,
}
use langchain_langraph_app_l.Runs.{
  RunStatus, completed, failed, cancelled, pending, running, interrupted, Payload, RunRecord,
  RunIdentity,
}
use langchain_langraph_app_l.Runs.Memory.{create_or_get, get, reconcile_history_committed}
use langchain_langraph_app_l.Conversations
use langchain_langraph_app_l.Chat.{
  Message, Request, ChatResponse, Exception, World, Act, ◌>>=◌, ◌>>◌, pure, raise, inc, Point,
  Outside, pause, call,
}

-- `_append_history_safely` behind its wait.
abbrev pub turn : String → Request → String → Message
turn role request content = record {
  role = role;
  content = content;
  conversation_id = request.identity.conversation_id;
  run_id = request.identity.run_id;
}

abbrev pub appended :
    World
    → Result Conversations.ValueError (Bool × Conversations.Store Message)
    → Result Exception Bool × World
appended w (ok (fresh, memory)) = (ok true, record w { memory = memory })
appended w (err e) = (ok false, record w { metrics = "chat.history_append_error" ∷ w.metrics })

unfoldable pub append_history_safely : Request → String → ℕ → Act Bool
append_history_safely request text now w = appended w (
    Conversations.append_turn request.identity.conversation_id request.identity.run_id
      (turn "user" request request.message) (turn "assistant" request text) now w.memory)

-- `_checkpoint_exists_safely`
unfoldable pub checkpoint_exists_safely : Outside → Bool → Act Bool
checkpoint_exists_safely o required = elim o.checkpoint [
  | ok found ↦ pure found
  | err name ↦
      if required
      then raise (Exception.other name)
      else (inc "chat.checkpoint_lookup_degraded" >> pure false)
]

-- The record of the run, whether it is new, whether it comes of a checkpoint without a record, and
-- whether there is a checkpoint, if that is known.
pub record Found : Type 0 where
  pub known : RunRecord
  pub created : Bool
  pub resume_migrated : Bool
  pub checkpoint_exists : Option Bool

abbrev pub same_run : RunRecord → RunIdentity → Bool
same_run known identity =
    str_eq known.conversation_id identity.conversation_id
    && (str_eq known.execution_thread_id identity.execution_thread_id
        && (str_eq known.request_hash identity.request_hash
            && (known.request_hash_version == identity.request_hash_version
                && known.state_schema_version == identity.state_schema_version)))

abbrev pub read_record : String → Act (Option RunRecord)
read_record run_id w = (ok (get run_id w.repository), w)

abbrev pub record_run : Request → Outside → Act (RunRecord × Bool)
record_run request o = do
  pause o Point.creating
  call (create_or_get request.identity (o.clock Point.creating 0))

abbrev pub recorded_run : Bool → Option Bool → RunRecord × Bool → Found
recorded_run resume_migrated checkpoint_exists (known, created) = record {
  known = known;
  created = created;
  resume_migrated = resume_migrated;
  checkpoint_exists = checkpoint_exists;
}

-- `create_or_get`, with what is known of the checkpoint.
unfoldable pub find_or_create : Request → Outside → Bool → Option Bool → Act Found
unfolding pause
find_or_create request o resume_migrated checkpoint_exists = do
  recorded ← record_run request o
  pure (recorded_run resume_migrated checkpoint_exists recorded)

-- A run without a record is resumed from its checkpoint.
unfoldable pub migrate : Request → Outside → Act Found
unfolding pause checkpoint_exists_safely find_or_create
migrate request o = do
  pause o Point.checking
  exists ← checkpoint_exists_safely o true
  if exists then find_or_create request o true (some exists) else raise Exception.resume_not_found

unfoldable pub find_resumed : Request → Outside → Option RunRecord → Act Found
unfolding migrate
find_resumed request o none = migrate request o
find_resumed request o (some known) =
    if same_run known request.identity
    then pure (recorded_run false none (known, false))
    else raise Exception.identity_mismatch

-- The first part of `_ainvoke_with_identity`.
unfoldable pub find_record : Request → Outside → Act Found
unfolding pause find_or_create find_resumed
find_record request o =
    if request.resumed
    then (pause o Point.looking_up
        >> (read_record request.identity.run_id >>= find_resumed request o))
    else find_or_create request o false none

-- `record.status in {"completed", "failed", "cancelled"}`
abbrev pub is_over : RunStatus → Bool
is_over completed = true
is_over failed = true
is_over cancelled = true
is_over _ = false

-- The payload that is sent again, if the run has one.
abbrev pub stored_outcome : RunRecord → Option Payload
stored_outcome known = if is_over known.status then known.response_payload else none

-- Behind the second try to append the turn of a stored response.
unfoldable pub note_replay : Request → Outside → ChatResponse → Bool → Act ChatResponse
unfolding pause
note_replay request o response false = do
  inc "chat.idempotent_durable_replay"
  pure (record response { history_persisted = some false })
note_replay request o response true = do
  pause o Point.reconciling
  call (
      reconcile_history_committed request.identity.run_id
        (some (o.codec.dump (record response { history_persisted = some true })))
        (o.clock Point.reconciling 0) (o.clock Point.reconciling 1))
  inc "chat.idempotent_durable_replay"
  pure (record response { history_persisted = some true })

unfoldable pub retry_history : Request → Outside → ChatResponse → Act ChatResponse
unfolding pause append_history_safely note_replay
retry_history request o response = do
  pause o Point.replaying
  committed ← append_history_safely request response.response (o.clock Point.replaying 0)
  note_replay request o response committed

-- The replay of a stored response.
unfoldable pub replay : Request → Outside → RunRecord → Payload → Act ChatResponse
unfolding retry_history
replay request o known payload = elim (o.codec.validate payload) [
  | none ↦ raise (Exception.other "ValidationError")
  | some response ↦
      if is_some known.history_committed_at
      then (inc "chat.idempotent_durable_replay" >> pure response)
      else retry_history request o response
]

abbrev pub is_pending : RunStatus → Bool
is_pending pending = true
is_pending _ = false

-- `record.lease_expires_at is not None and record.lease_expires_at <= datetime.now(UTC)`
abbrev pub lease_has_expired : Option ℕ → ℕ → Bool
lease_has_expired none now = false
lease_has_expired (some t) now = leb t now

-- The status of a run that was there before: none if it may be executed now.
abbrev pub refusal_resumed : RunStatus → Bool → Option Exception
refusal_resumed interrupted expired = none
refusal_resumed running true = none
refusal_resumed _ _ = some Exception.not_resumable

abbrev pub refusal_fresh : RunStatus → Bool → Option Exception
refusal_fresh running true = some Exception.lease_expired
refusal_fresh running false = some Exception.already_active
refusal_fresh pending expired = none
refusal_fresh _ _ = some Exception.already_exists

abbrev pub refusal : Request → Found → ℕ → Option Exception
refusal request found now =
    if request.resumed && (found.resume_migrated && is_pending found.known.status)
    then none
    else if found.created
    then (if request.resumed then some Exception.resume_not_found else none)
    else if request.resumed
    then refusal_resumed found.known.status (lease_has_expired found.known.lease_expires_at now)
    else refusal_fresh found.known.status (lease_has_expired found.known.lease_expires_at now)

abbrev pub proceed : Option Exception → Act (Option ChatResponse)
proceed none = pure none
proceed (some e) = raise e

-- `_preflight_existing_run`: the stored response, or none if the run is to be executed.
unfoldable pub preflight_existing_run : Request → Outside → Found → Act (Option ChatResponse)
unfolding replay
preflight_existing_run request o found =
    if request.resumed
      && not (request.identity.resume_token_version == found.known.resume_token_version)
    then raise Exception.token_revoked
    else elim (stored_outcome found.known) [
      | some payload ↦ do response ← replay request o found.known payload; pure (some response)
      | none ↦ proceed (refusal request found (o.clock Point.replaying 1))
    ]
