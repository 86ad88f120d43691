-- ===== src/Chat/Found.antt =====
-- chat_runtime.py: the record that a request starts from.
use langchain_langraph_app_l.Prelude.{
  ℕ, ◌≡◌, inl, inr, Bool, true, false, Option, none, some, ok, eq_iff, arith, if◌then◌else◌,
  Option-cases, Bool-cases,
}
use langchain_langraph_app_l.Prelude.Dict.{lookup, lookup-put}
use langchain_langraph_app_l.Runs.{RunRecord, RunIdentity, MemoryRunRepository, validate_identity}
use langchain_langraph_app_l.Runs.Memory.{create_or_get, new_record, get}
use langchain_langraph_app_l.Chat.{
  Request, Exception, World, ◌>>=◌, pure, raise, Point, Outside, pause, call,
}
use langchain_langraph_app_l.Chat.Preflight.{
  checkpoint_exists_safely, find_record, find_or_create, find_resumed, migrate, recorded_run, Found,
  record_run, read_record, same_run,
}
use langchain_langraph_app_l.Chat.Steps.{and_then-ok}
use langchain_langraph_app_l.Chat.Outcome.{call-ok}

-- The run has this record, which matches the identity.
unfoldable pub Shows : RunIdentity → RunRecord → World → Type 0
Shows identity known w =
    (lookup identity.run_id w.repository.records ≡ some known)
    × (validate_identity known identity ≡ ok tt)

create_or_get-known :
    (identity : RunIdentity) (now : ℕ) (r r' : MemoryRunRepository) (x : RunRecord × Bool)
    → create_or_get identity now r ≡ ok (x, r')
    → (lookup identity.run_id r'.records ≡ some x.0) × (validate_identity x.0 identity ≡ ok tt)
unfolding create_or_get validate_identity
create_or_get-known identity now r r' x h = ground (
  arith,
  lookup-put identity.run_id identity.run_id (new_record identity now) r.records,
  eq_iff identity.run_id identity.run_id,
  eq_iff identity.conversation_id identity.conversation_id,
  eq_iff identity.execution_thread_id identity.execution_thread_id,
  eq_iff identity.request_hash identity.request_hash,
)

same_run-valid :
    (known : RunRecord) (identity : RunIdentity)
    → same_run known identity ≡ true
    → validate_identity known identity ≡ ok tt
unfolding validate_identity
same_run-valid known identity h = ground (
  arith,
  eq_iff known.conversation_id identity.conversation_id,
  eq_iff known.execution_thread_id identity.execution_thread_id,
  eq_iff known.request_hash identity.request_hash,
)

record_run-Shows :
    (request : Request) (o : Outside) (w w' : World) (x : RunRecord × Bool)
    → record_run request o w ≡ (ok x, w')
    → Shows request.identity x.0 w'
unfolding Shows
record_run-Shows request o w w' x h =
    let create = create_or_get request.identity (o.clock Point.creating 0) in
    let (_, w1, e1, h1) =
      and_then-ok (pause o Point.creating w) (λ (u : Unit {0}). call create) x w' h in
    create_or_get-known request.identity (o.clock Point.creating 0) w1.repository w'.repository x
      (call-ok create w1 w' x h1)

find_or_create-Shows :
    (request : Request) (o : Outside) (b : Bool) (c : Option Bool) (w w' : World) (found : Found)
    → find_or_create request o b c w ≡ (ok found, w')
    → Shows request.identity found.known w'
unfolding Shows find_or_create
find_or_create-Shows request o b c w w' found h =
    let (x, w1, e1, h1) =
      and_then-ok (record_run request o w) (λ (x : RunRecord × Bool). pure (recorded_run b c x))
        found w' h in
    ground (arith, record_run-Shows request o w w1 x e1, h1)

migrate-Shows :
    (request : Request) (o : Outside) (w w' : World) (found : Found)
    → migrate request o w ≡ (ok found, w')
    → Shows request.identity found.known w'
unfolding migrate
migrate-Shows request o w w' found h =
    let next = λ (exists : Bool).
      (if exists
        then find_or_create request o true (some exists)
        else raise Exception.resume_not_found) in
    let (_, w1, e1, h1) =
      and_then-ok (pause o Point.checking w)
        (λ (u : Unit {0}). checkpoint_exists_safely o true >>= next) found w' h in
    let (exists, w2, e2, h2) = and_then-ok (checkpoint_exists_safely o true w1) next found w' h1 in
    elim (Bool-cases exists) [
      | inl p ↦
          find_or_create-Shows request o true (some exists) w2 w' found (ground (arith, h2, p))
      | inr p ↦ absurd (ground (arith, h2, p))
    ]

pub find_record-Shows :
    (request : Request) (o : Outside) (w w' : World) (found : Found)
    → find_record request o w ≡ (ok found, w')
    → Shows request.identity found.known w'
unfolding Shows find_record find_resumed
find_record-Shows request o w w' found h = elim (Bool-cases request.resumed) [
  | inr fresh ↦ find_or_create-Shows request o false none w w' found (ground (arith, h, fresh))
  | inl resumed ↦
      let (_, w1, e1, h1) =
        and_then-ok (pause o Point.looking_up w)
          (λ (u : Unit {0}). read_record request.identity.run_id >>= find_resumed request o) found
          w' (ground (arith, h, resumed)) in
      elim (Option-cases (get request.identity.run_id w1.repository)) [
        | inl missing ↦ migrate-Shows request o w1 w' found (ground (arith, h1, missing))
        | inr (known, e) ↦ ground (arith, h1, e, same_run-valid known request.identity)
      ]
]
