-- ===== src/Chat/Tests.antt =====
-- chat_runtime.py: a request that executes its run, its retry, and one that is cancelled.
use langchain_langraph_app_l.Prelude.{
  ◌≡◌, ◌↔◌, refl, [], ◌∷◌, Bool, true, false, none, some, ok, err, is_ok,
}
use langchain_langraph_app_l.Prelude.Dict.{lookup, put, remove, put_last}
use langchain_langraph_app_l.Runs.{
  RunLease, RunRecord, interrupted, empty_repository, validate_identity,
}
use langchain_langraph_app_l.Runs.Memory.{
  create_or_get, acquire, renew, release, mark_terminal, mark_history_committed, owned_record,
  new_lease, new_record, taken, granted, owns, ended, history_committed,
}
use langchain_langraph_app_l.Runs.Calls.{perform_all}
use langchain_langraph_app_l.Conversations.{
  expired_keys, drop_keys, purge, evict, append_locked, append_turn_locked, append_turn,
}
use langchain_langraph_app_l.Conversations
use langchain_langraph_app_l.Conversations.Bounds
use langchain_langraph_app_l.Chat.{Exception, World, Point, pause, interfere}
use langchain_langraph_app_l.Chat.Execution.{
  RunExecution, executed, execute_run, invoke_graph_safely, lease_heartbeat, execute_with_heartbeat,
}
use langchain_langraph_app_l.Chat.Preflight.{
  Found, append_history_safely, checkpoint_exists_safely, find_record, find_or_create,
  preflight_existing_run, recorded_run, stored_outcome,
}
use langchain_langraph_app_l.Chat.Runtime.{
  ainvoke_with_identity, answer_found, check_checkpoint, known_checkpoint, persist, commit_history,
  note_history, handle, ending_of, release_lease, leased_run, take_lease,
}
use langchain_langraph_app_l.Chat.Outcome.{IsApart}
use langchain_langraph_app_l.Chat.Retry.{Answers}
use langchain_langraph_app_l.Chat.Idempotent.{ainvoke-idempotent}
use langchain_langraph_app_l.Chat.Decision.{MayExecute, is_revoked, preflight_iff}
use langchain_langraph_app_l.Chat.Release.{IsUndisturbed}
use langchain_langraph_app_l.Chat.Liveness.{leased_run-frees}
use langchain_langraph_app_l.Chat.Cancelled.{cancelled-loses}
use langchain_langraph_app_l.Chat.Example.{
  codec, codec-Restores, identity, request, never, at_append, outside, world, response,
}

abbrev answered : World
answered = (ainvoke_with_identity request (outside never) world).1

request_answered : ainvoke_with_identity request (outside never) world ≡ (ok response, answered)
unfolding ainvoke_with_identity answer_found check_checkpoint known_checkpoint persist
    commit_history note_history handle release_lease leased_run find_record find_or_create
    preflight_existing_run append_history_safely checkpoint_exists_safely execute_run
    invoke_graph_safely lease_heartbeat execute_with_heartbeat pause perform_all Bounds.perform_all
    create_or_get acquire renew release mark_terminal mark_history_committed owned_record
    validate_identity lookup put remove put_last expired_keys drop_keys purge evict append_locked
    append_turn_locked append_turn Conversations.get
request_answered = refl

apart : (b : Point → Bool) → IsApart (outside b) "r"
apart b = record { apart = λ p. tt }

ainvoke-idempotent_example :
    Answers (ainvoke_with_identity request (outside never) answered) "answer" answered
ainvoke-idempotent_example =
    ainvoke-idempotent request request (outside never) (outside never) world answered response
      codec-Restores refl (apart never) (apart never) request_answered refl refl
      (record { calm = λ p. refl })

abbrev found : Found
found = recorded_run false none (new_record (identity "r") 5, true)

preflight_iff_example :
    (preflight_existing_run request (outside never) found world ≡ (ok none, world)) ↔ (
      (is_revoked request found ≡ false)
      × (stored_outcome found.known ≡ none)
      × MayExecute request found 5)
preflight_iff_example = preflight_iff request (outside never) found world

abbrev lease : RunLease
lease = new_lease (identity "r") "o" 10 1 5

-- The run is recorded and leased.
abbrev recorded : World
recorded = record world {
  repository = record empty_repository { records = ("r", new_record (identity "r") 5) ∷ [] };
}

abbrev leased : World
leased = record world {
  repository = granted lease (new_record (identity "r") 5) 5 recorded.repository;
}

lease_taken : take_lease request (outside never) recorded ≡ (ok lease, leased)
unfolding pause perform_all Bounds.perform_all acquire validate_identity lookup put
lease_taken = refl

abbrev freed : World
freed = (leased_run request (outside never) lease leased).1

abbrev execution : RunExecution
execution = executed (outside never) (record {
  response = "answer";
  is_failed = false;
  termination_reason = none;
  error_code = none;
})

abbrev running_record : RunRecord
running_record = taken (new_record (identity "r") 5) lease 5

abbrev ended_record : RunRecord
ended_record = ended running_record (ending_of (outside never) execution) 5

abbrev committed_record : RunRecord
committed_record = history_committed ended_record (some (codec.dump response)) (some 5) 5

committed : lookup "r" freed.repository.records ≡ some committed_record
unfolding persist commit_history note_history handle release_lease leased_run append_history_safely
    execute_run invoke_graph_safely lease_heartbeat execute_with_heartbeat pause perform_all
    Bounds.perform_all renew release mark_terminal mark_history_committed owned_record lookup put
    remove put_last expired_keys drop_keys purge evict append_locked append_turn_locked append_turn
    Conversations.get
committed = refl

undisturbed : IsUndisturbed (outside never) "c"
undisturbed = record { at_points = λ p. tt; at_beats = (tt, tt) }

leased_run-frees_example :
    (lookup "c" freed.repository.leases ≡ none)
    × (is_ok (acquire (identity "r") "o2" 10 6 freed.repository) ≡ true)
leased_run-frees_example =
    leased_run-frees request (outside never) lease recorded leased (identity "r") committed_record
      "o2" 10 6 lease_taken undisturbed refl refl committed
      (record {
        conversation = refl;
        execution = refl;
        request = refl;
        request_version = refl;
        schema = refl;
      })

abbrev persisted : World
persisted = (persist request (outside at_append) lease leased).1

run_persisted : persist request (outside at_append) lease leased ≡ (ok execution, persisted)
unfolding persist execute_run invoke_graph_safely lease_heartbeat execute_with_heartbeat pause
    perform_all Bounds.perform_all renew mark_terminal owned_record lookup put expired_keys
    drop_keys purge Conversations.get
run_persisted = refl

still_owned :
    (owns
        (lookup "c"
          (interfere
            (outside at_append)
            Point.interrupting
            (interfere (outside at_append) Point.appending persisted)).repository.leases)
        lease
        5
      ≡ true)
    × (lookup "r"
          (interfere
            (outside at_append)
            Point.interrupting
            (interfere (outside at_append) Point.appending persisted)).repository.records
        ≡ some ended_record)
unfolding persist execute_run invoke_graph_safely lease_heartbeat execute_with_heartbeat pause
    perform_all Bounds.perform_all renew mark_terminal owned_record lookup put expired_keys
    drop_keys purge Conversations.get
still_owned = (refl, refl)

cancelled-loses_example :
    ((leased_run request (outside at_append) lease leased).0 ≡ err Exception.cancelled)
    × ((later : RunRecord) × (lookup "r"
            (leased_run request (outside at_append) lease leased).1.repository.records
          ≡ some later)
        × (later.status ≡ interrupted)
        × (later.response_payload ≡ none))
cancelled-loses_example =
    cancelled-loses request (outside at_append) lease leased persisted execution ended_record
      run_persisted refl refl refl refl still_owned.0 still_owned.1

abbrev settled : World
settled = (persist request (outside never) lease leased).1
