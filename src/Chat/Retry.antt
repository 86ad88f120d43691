-- ===== src/Chat/Retry.antt =====
-- chat_runtime.py: a request whose run has an outcome.
use langchain_langraph_app_l.Prelude.{
  ℕ, ◌+◌, ◌≡◌, refl, inl, inr, String, List, [], ◌∷◌, Bool, true, false, none, some, Result, ok,
  err, arith, str_eq, if◌then◌else◌, Bool-cases, is_some,
}
use langchain_langraph_app_l.Runs.{Payload, RunRecord}
use langchain_langraph_app_l.Runs.Memory.{
  create_or_get, reconcile_history_committed, history_committed, or_now, store,
}
use langchain_langraph_app_l.Conversations
use langchain_langraph_app_l.Chat.{
  Message, Request, ChatResponse, Exception, World, Point, Outside, pause, interfere,
}
use langchain_langraph_app_l.Chat.Preflight.{
  turn, appended, append_history_safely, stored_outcome, note_replay, retry_history, replay,
  preflight_existing_run, find_record, find_or_create,
}
use langchain_langraph_app_l.Chat.Runtime.{ainvoke_with_identity, answer_found}
use langchain_langraph_app_l.Chat.Steps.{HasOutcome, perform_all-HasOutcome}
use langchain_langraph_app_l.Chat.Outcome.{IsApart}

-- How many executions have begun.
abbrev pub executions : List String → ℕ
executions [] = 0
executions (name ∷ names) = (if str_eq name "chat.requests" then 1 else 0) + executions names

-- The step returns a response of this text, and no execution begins.
unfoldable pub Answers : Result Exception ChatResponse × World → String → World → Type 0
Answers x text w =
    (response : ChatResponse) × (w' : World) × (x ≡ (ok response, w'))
    × (response.response ≡ text)
    × (executions w'.metrics ≡ executions w.metrics)

-- The request is never cancelled.
pub record IsCalm (o : Outside) : Type 0 where
  pub calm : (p : Point) → o.is_cancelled p ≡ false

pause-calm :
    (o : Outside) (p : Point) (w : World) → IsCalm o → pause o p w ≡ (ok tt, interfere o p w)
unfolding pause
pause-calm o p w h = ground (arith, h.calm p)

appended-calm :
    (w : World) (x : Result Conversations.ValueError (Bool × Conversations.Store Message))
    → (b : Bool) × (w' : World) × (appended w x ≡ (ok b, w'))
      × (w'.repository ≡ w.repository)
      × (executions w'.metrics ≡ executions w.metrics)
appended-calm w (ok (fresh, memory)) = (true, record w { memory = memory }, refl, refl, refl)
appended-calm w (err e) = (
  false,
  record w { metrics = "chat.history_append_error" ∷ w.metrics },
  refl,
  refl,
  ground arith,
)

append-calm :
    (request : Request) (text : String) (now : ℕ) (w : World)
    → (b : Bool) × (w' : World) × (append_history_safely request text now w ≡ (ok b, w'))
      × (w'.repository ≡ w.repository)
      × (executions w'.metrics ≡ executions w.metrics)
unfolding append_history_safely
append-calm request text now w = appended-calm w (
    Conversations.append_turn request.identity.conversation_id request.identity.run_id
      (turn "user" request request.message) (turn "assistant" request text) now w.memory)

note_replay-Answers :
    (request : Request) (o : Outside) (payload : Payload) (response : ChatResponse) (b : Bool)
    (w : World)
    → IsCalm o
    → IsApart o request.identity.run_id
    → HasOutcome request.identity payload w.repository
    → Answers (note_replay request o response b w) response.response w
unfolding Answers note_replay reconcile_history_committed
note_replay-Answers request o payload response false w calm apart h = (
  record response { history_persisted = some false },
  record w { metrics = "chat.idempotent_durable_replay" ∷ w.metrics },
  refl,
  refl,
  ground arith,
)
note_replay-Answers request o payload response true w calm apart h =
    let w1 = interfere o Point.reconciling w in
    let h1 =
      perform_all-HasOutcome (o.others Point.reconciling) request.identity payload w.repository
        (apart.apart Point.reconciling) h in
    let noted : ChatResponse = record response { history_persisted = some true } in
    let updated =
      history_committed h1.known (some (o.codec.dump noted))
        (or_now h1.known.history_committed_at (o.clock Point.reconciling 0))
        (o.clock Point.reconciling 1) in
    let w2 : World = record w1 {
      repository = store request.identity.run_id updated w1.repository;
      metrics = "chat.idempotent_durable_replay" ∷ w1.metrics;
    } in
    (noted, w2, ground (arith, pause-calm o Point.reconciling w calm, h1.found), refl, ground arith)

retry_history-Answers :
    (request : Request) (o : Outside) (payload : Payload) (response : ChatResponse) (w : World)
    → IsCalm o
    → IsApart o request.identity.run_id
    → HasOutcome request.identity payload w.repository
    → Answers (retry_history request o response w) response.response w
unfolding Answers retry_history
retry_history-Answers request o payload response w calm apart h =
    let w1 = interfere o Point.replaying w in
    let h1 =
      perform_all-HasOutcome (o.others Point.replaying) request.identity payload w.repository
        (apart.apart Point.replaying) h in
    let (b, w2, e, same, count) =
      append-calm request response.response (o.clock Point.replaying 0) w1 in
    let (given, w3, e', text, count') =
      note_replay-Answers request o payload response b w2 calm apart (rw same h1) in
    (
      given,
      w3,
      ground (arith, pause-calm o Point.replaying w calm, e, e'),
      text,
      ground (arith, count, count'),
    )

replay-Answers :
    (request : Request) (o : Outside) (known : RunRecord) (payload : Payload)
    (response : ChatResponse) (w : World)
    → IsCalm o
    → IsApart o request.identity.run_id
    → HasOutcome request.identity payload w.repository
    → o.codec.validate payload ≡ some response
    → Answers (replay request o known payload w) response.response w
unfolding Answers replay
replay-Answers request o known payload response w calm apart h valid =
    elim (Bool-cases (is_some known.history_committed_at)) [
      | inl e ↦ (
        response,
        record w { metrics = "chat.idempotent_durable_replay" ∷ w.metrics },
        ground (arith, e, valid),
        refl,
        ground arith,
      )
      | inr e ↦
          let (given, w1, p, text, count) =
            retry_history-Answers request o payload response w calm apart h in
          (given, w1, ground (arith, e, valid, p), text, count)
    ]

find_record-known :
    (request : Request) (o : Outside) (payload : Payload) (w : World)
    → request.resumed ≡ false
    → IsCalm o
    → IsApart o request.identity.run_id
    → HasOutcome request.identity payload w.repository
    → (known : RunRecord) × (find_record request o w ≡ (
      ok (record {
        known = known;
        created = false;
        resume_migrated = false;
        checkpoint_exists = none;
      }),
      interfere o Point.creating w,
    ))
      × (stored_outcome known ≡ some payload)
unfolding find_record find_or_create create_or_get
find_record-known request o payload w fresh calm apart h =
    let h1 =
      perform_all-HasOutcome (o.others Point.creating) request.identity payload w.repository
        (apart.apart Point.creating) h in
    (
      h1.known,
      ground (arith, fresh, pause-calm o Point.creating w calm, h1.found, h1.valid),
      h1.outcome,
    )

pub ainvoke-Answers :
    (request : Request) (o : Outside) (payload : Payload) (response : ChatResponse) (w : World)
    → request.resumed ≡ false
    → IsCalm o
    → IsApart o request.identity.run_id
    → HasOutcome request.identity payload w.repository
    → o.codec.validate payload ≡ some response
    → Answers (ainvoke_with_identity request o w) response.response w
unfolding Answers ainvoke_with_identity answer_found preflight_existing_run
ainvoke-Answers request o payload response w fresh calm apart h valid =
    let (known, e, outcome) = find_record-known request o payload w fresh calm apart h in
    let w1 = interfere o Point.creating w in
    let h1 =
      perform_all-HasOutcome (o.others Point.creating) request.identity payload w.repository
        (apart.apart Point.creating) h in
    let (given, w2, p, text, count) =
      replay-Answers request o known payload response w1 calm apart h1 valid in
    (given, w2, ground (arith, e, fresh, outcome, p), text, count)
