-- ===== src/Runs/Refinement/Run.antt =====
-- run_repository.py: runs of the two repositories, side by side. A call has its time.
use langchain_langraph_app_l.Prelude.{ℕ, ◌≤◌, ◌≡◌, refl, List, [], ◌∷◌, arith}
use langchain_langraph_app_l.Prelude.Dict.{lookup}
use langchain_langraph_app_l.Runs.{MemoryRunRepository, empty_repository}
use langchain_langraph_app_l.Runs.Leases.{empty-IsConsistent}
use langchain_langraph_app_l.Runs.Postgres.{Tables, empty_tables}
use langchain_langraph_app_l.Runs.Refinement.{Op, Reply, by_memory, by_postgres, Agrees, Fits}
use langchain_langraph_app_l.Runs.Refinement.Updates.{Agrees-later}
use langchain_langraph_app_l.Runs.Refinement.Steps.{step-Same}

unfoldable pub run_by_memory :
    List (Op × ℕ) → MemoryRunRepository → List Reply × MemoryRunRepository
run_by_memory [] m = ([], m)
run_by_memory ((op, now) ∷ ops) m =
    let rest = run_by_memory ops (by_memory op now m).1 in ((by_memory op now m).0 ∷ rest.0, rest.1)

unfoldable pub run_by_postgres : List (Op × ℕ) → Tables → List Reply × Tables
run_by_postgres [] t = ([], t)
run_by_postgres ((op, now) ∷ ops) t =
    let rest = run_by_postgres ops (by_postgres op now t).1 in
    ((by_postgres op now t).0 ∷ rest.0, rest.1)

-- The times do not decrease, and each call fits the state that it meets.
abbrev pub Plays : ℕ → MemoryRunRepository → List (Op × ℕ) → Type 0
Plays clock m [] = Unit
Plays clock m ((op, now) ∷ ops) = (clock ≤ now) × Fits m op × Plays now (by_memory op now m).1 ops

pub empty-Agrees : Agrees 0 empty_repository empty_tables
unfolding lookup
empty-Agrees = record {
  consistent = empty-IsConsistent;
  runs = refl;
  tokens = λ c. refl;
  rows = λ c. tt;
  holders = λ c l h. cc;
}

run-Agrees :
    (ops : List (Op × ℕ)) (clock : ℕ) (m : MemoryRunRepository) (t : Tables)
    → Agrees clock m t
    → Plays clock m ops
    → ((run_by_postgres ops t).0 ≡ (run_by_memory ops m).0)
      × ((run_by_postgres ops t).1.app_runs ≡ (run_by_memory ops m).1.records)
unfolding run_by_memory run_by_postgres
run-Agrees [] clock m t a p = (refl, a.runs)
run-Agrees ((op, now) ∷ ops) clock m t a (h, fits, plays) =
    let (reply, kept) = step-Same now m t op fits (Agrees-later clock now m t h a) in
    let (replies, runs) =
      run-Agrees ops now (by_memory op now m).1 (by_postgres op now t).1 kept plays in
    (ground (arith, reply, replies), runs)

-- From the empty repository and the empty tables, any calls at times that do not decrease, each of
-- which fits the state that it meets, get the same replies from MemoryRunRepository and from the
-- statements of PostgresRunRepository, lease for lease and exception for exception, and leave the
-- same records of runs.
pub postgres-refines :
    (ops : List (Op × ℕ))
    → Plays 0 empty_repository ops
    → ((run_by_postgres ops empty_tables).0 ≡ (run_by_memory ops empty_repository).0)
      × ((run_by_postgres ops empty_tables).1.app_runs
          ≡ (run_by_memory ops empty_repository).1.records)
postgres-refines ops p = run-Agrees ops 0 empty_repository empty_tables empty-Agrees p
