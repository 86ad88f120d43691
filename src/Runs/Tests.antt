-- ===== src/Runs/Tests.antt =====
-- run_repository.py: a run, its takeover by a second one after its lease has expired, and the theorems
-- at these.
use langchain_langraph_app_l.Prelude.{
  ℕ, ◌≡◌, ◌≢◌, ◌↔◌, ◌<◌, refl, String, true, false, none, some, List, [], ◌∷◌, arith, ok, err,
  is_ok,
}
use langchain_langraph_app_l.Prelude.Dict.{lookup, put}
use langchain_langraph_app_l.Runs.{
  RunStatus, RunRecord, RunLease, RunIdentity, conversation_busy, MemoryRunRepository,
  empty_repository, validate_identity,
}
use langchain_langraph_app_l.Runs.Memory.{
  Ending, get, new_record, new_lease, taken, granted, ended, store, create_or_get, acquire,
  owned_record, mark_terminal,
}
use langchain_langraph_app_l.Runs.Calls.{Call, perform_all}
use langchain_langraph_app_l.Runs.Leases.{IsConsistent, empty-IsConsistent}
use langchain_langraph_app_l.Runs.Leases.Kept.{acquire-IsConsistent, perform_all-IsConsistent}
use langchain_langraph_app_l.Runs.Fencing.{IsFenced, takeover_fences}
use langchain_langraph_app_l.Runs.Exclusion.{Holds, acquire_excludes}
use langchain_langraph_app_l.Runs.Contract.{
  IsFree, IsCurrent, acquire_iff, mark_terminal_iff, mark_terminal-get,
}

abbrev identity : String → RunIdentity
identity run_id = record {
  conversation_id = "c1";
  run_id = run_id;
  execution_thread_id = "t1";
  request_hash = "h1";
  request_hash_version = 1;
  state_schema_version = 1;
  resume_token_version = 1;
}

-- Both runs are recorded.
abbrev recorded : MemoryRunRepository
recorded = record {
  records = ("r1", new_record (identity "r1") 0) ∷ ("r2", new_record (identity "r2") 0) ∷ [];
  leases = [];
  fencing = [];
  started = true;
}

abbrev first : RunLease
first = new_lease (identity "r1") "o1" 10 1 5

abbrev second : RunLease
second = new_lease (identity "r2") "o2" 10 2 20

abbrev one_running : MemoryRunRepository
one_running = granted first (new_record (identity "r1") 0) 5 recorded

abbrev taken_over : MemoryRunRepository
taken_over = granted second (new_record (identity "r2") 0) 20 one_running

abbrev ending : Ending
ending = record {
  status = RunStatus.completed;
  response_payload = some (("response", "done") ∷ []);
  termination_reason = none;
  error_code = none;
  checkpoint_id = none;
}

first_acquires : acquire (identity "r1") "o1" 10 5 recorded ≡ ok (first, one_running)
unfolding acquire validate_identity lookup put
first_acquires = refl

second_waits : acquire (identity "r2") "o2" 10 14 one_running ≡ err conversation_busy
unfolding acquire validate_identity lookup put
second_waits = refl

second_acquires : acquire (identity "r2") "o2" 10 20 one_running ≡ ok (second, taken_over)
unfolding acquire validate_identity lookup put
second_acquires = refl

recorded-IsConsistent : IsConsistent recorded
unfolding lookup
recorded-IsConsistent = record {
  own_key = λ c l h. cc;
  latest = λ c l h. cc;
  has_run = λ c l h. cc;
}

one_running-IsConsistent : IsConsistent one_running
unfolding acquire validate_identity lookup put
one_running-IsConsistent =
    acquire-IsConsistent (identity "r1") "o1" 10 5 recorded recorded-IsConsistent

abbrev calls : List Call
calls =
    Call.create (identity "r1") 1
    ∷ Call.acquire_lease (identity "r1") "o1" 10 5
    ∷ Call.end_run first ending 6 6
    ∷ Call.release_lease first
    ∷ []

perform_all-IsConsistent_example : IsConsistent (perform_all calls empty_repository)
perform_all-IsConsistent_example =
    perform_all-IsConsistent calls empty_repository empty-IsConsistent

takeover_fences_example : IsFenced (perform_all (Call.release_lease second ∷ []) taken_over) first
takeover_fences_example =
    takeover_fences (identity "r2") "o2" 10 20 one_running taken_over second first
      (Call.release_lease second ∷ []) one_running-IsConsistent second_acquires refl
      (unfold lookup put in omega arith)

abbrev early_calls : List Call
early_calls = Call.acquire_lease (identity "r2") "o2" 10 14 ∷ Call.end_run first ending 14 14 ∷ []

acquire_excludes_example :
    Holds first 15 (perform_all early_calls one_running)
    × ((identity' : RunIdentity) (owner' : String) (ttl' now' : ℕ)
        → identity'.conversation_id ≡ "c1"
        → now' < 15
        → is_ok (acquire identity' owner' ttl' now' (perform_all early_calls one_running)) ≡ false)
acquire_excludes_example =
    acquire_excludes (identity "r1") "o1" 10 5 recorded one_running first early_calls first_acquires
      (omega arith, (tt, tt))

acquire_iff_example :
    (is_ok (acquire (identity "r2") "o2" 10 20 one_running) ≡ true)
    ↔ IsFree one_running (identity "r2") 20
acquire_iff_example = acquire_iff (identity "r2") "o2" 10 20 one_running

mark_terminal_iff_example :
    (is_ok (mark_terminal first ending 7 7 one_running) ≡ true) ↔ IsCurrent one_running first 7
mark_terminal_iff_example = mark_terminal_iff first ending 7 7 one_running one_running-IsConsistent

abbrev ended_record : RunRecord
ended_record = ended (taken (new_record (identity "r1") 0) first 5) ending 8

abbrev one_ended : MemoryRunRepository
one_ended = store "r1" ended_record one_running

first_ends : mark_terminal first ending 7 8 one_running ≡ ok (ended_record, one_ended)
unfolding mark_terminal owned_record lookup put
first_ends = refl

mark_terminal-get_example :
    (get "r1" one_ended ≡ some ended_record)
    × (create_or_get (identity "r1") 9 one_ended ≡ ok ((ended_record, false), one_ended))
    × ((id : String) → id ≢ "r1" → get id one_ended ≡ get id one_running)
    × (one_ended.leases ≡ one_running.leases)
    × (one_ended.fencing ≡ one_running.fencing)
mark_terminal-get_example =
    mark_terminal-get (identity "r1") first ending 7 8 9 one_running one_ended ended_record
      first_ends refl
      (record {
        conversation = refl;
        execution = refl;
        request = refl;
        request_version = refl;
        schema = refl;
      })
