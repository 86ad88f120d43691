-- ===== src/Runs/Refinement/Tests.antt =====
-- run_repository.py: a run that both repositories play.
use langchain_langraph_app_l.Prelude.{ℕ, ◌≡◌, refl, String, List, [], ◌∷◌, none, some, arith}
use langchain_langraph_app_l.Prelude.Dict.{lookup, put}
use langchain_langraph_app_l.Runs.{
  RunStatus, RunLease, RunIdentity, empty_repository, validate_identity,
}
use langchain_langraph_app_l.Runs.Memory.{Ending, new_record, new_lease, taken, ended, owned_record}
use langchain_langraph_app_l.Runs.Memory
use langchain_langraph_app_l.Runs.Postgres.{empty_tables, written_run}
use langchain_langraph_app_l.Runs.Postgres
use langchain_langraph_app_l.Runs.Refinement.{Op, by_memory, by_postgres}
use langchain_langraph_app_l.Runs.Refinement.Run.{
  run_by_memory, run_by_postgres, Plays, postgres-refines,
}

abbrev identity : String → RunIdentity
identity run_id = record {
  conversation_id = "c";
  run_id = run_id;
  execution_thread_id = "e";
  request_hash = "h";
  request_hash_version = 1;
  state_schema_version = 1;
  resume_token_version = 0;
}

abbrev first : RunLease
first = new_lease (identity "r1") "o1" 10 1 5

abbrev ending : Ending
ending = record {
  status = RunStatus.completed;
  response_payload = some (("response", "ok") ∷ []);
  termination_reason = none;
  error_code = none;
  checkpoint_id = none;
}

-- The first owner ends its run and gives the lease back; the second is refused before, and gets the
-- next token after.
abbrev ops : List (Op × ℕ)
ops =
    (Op.create (identity "r1"), 0)
    ∷ (Op.acquire (identity "r1") "o1" 10, 5)
    ∷ (Op.create (identity "r2"), 6)
    ∷ (Op.acquire (identity "r2") "o2" 10, 7)
    ∷ (Op.end_run first ending, 8)
    ∷ (Op.commit_history first none, 9)
    ∷ (Op.release first, 9)
    ∷ (Op.acquire (identity "r2") "o2" 10, 10)
    ∷ []

ops-Plays : Plays 0 empty_repository ops
unfolding by_memory Memory.create_or_get Memory.acquire Memory.mark_terminal Memory.release
    Memory.mark_history_committed owned_record validate_identity lookup put
ops-Plays = (
  omega arith,
  tt,
  (
    omega arith,
    (new_record (identity "r1") 0, refl, refl),
    (
      omega arith,
      tt,
      (
        omega arith,
        (new_record (identity "r2") 6, refl, refl),
        (
          omega arith,
          ((λ known e. ground (arith, e)), refl, refl),
          (
            omega arith,
            ((λ known e. ground (arith, e)), (λ known e. ground (arith, e))),
            (omega arith, tt, (omega arith, (new_record (identity "r2") 6, refl, refl), tt)),
          ),
        ),
      ),
    ),
  ),
)

ops_second :
    (run_by_postgres ops empty_tables).1.app_conversation_leases
    ≡ (("c", new_lease (identity "r2") "o2" 10 2 10) ∷ [])
unfolding run_by_postgres by_postgres Postgres.create_or_get Postgres.acquire Postgres.mark_terminal
    Postgres.release Postgres.mark_history_committed written_run validate_identity lookup put
ops_second = refl

postgres-refines_example :
    ((run_by_postgres ops empty_tables).0 ≡ (run_by_memory ops empty_repository).0)
    × ((run_by_postgres ops empty_tables).1.app_runs
        ≡ (run_by_memory ops empty_repository).1.records)
postgres-refines_example = postgres-refines ops ops-Plays
