-- ===== src/Graph/Errors.antt =====
-- app/graph.py: the exceptions that the calls of models and tools let out.
use langchain_langraph_app_l.Prelude.{
  ℕ, ◌+◌, inl, inr, String, Bool, List, [], ◌∷◌, arith, Result, ok, err,
}
use langchain_langraph_app_l.Meter.{ExecutionBudget}
use langchain_langraph_app_l.Tools.Executor.{execute}
use langchain_langraph_app_l.Graph.State.{
  Exception, index_error, key_error, validation_error, ModelCall, Candidate, Query,
}
use langchain_langraph_app_l.Graph.Calls.{Services, invoke_model}
use langchain_langraph_app_l.Graph.Researching.{
  Place, Search, done, halted, raised, Search-cases, Findings, add_finding, query_place,
  try_candidates, search_queries,
}

abbrev pub IsExternal : Exception → Type 0
IsExternal index_error = ⊥
IsExternal key_error = ⊥
IsExternal validation_error = ⊥
IsExternal _ = Unit

module _ {ℓ} {T : Type ℓ} where
  abbrev pub ExternalError : Result Exception T → Type 0
  ExternalError (ok t) = Unit
  ExternalError (err x) = IsExternal x

  pub invoke_model-ExternalError :
      (call : ModelCall T) (b : ExecutionBudget) → ExternalError (invoke_model call b).0
  unfolding invoke_model
  invoke_model-ExternalError call b = ground arith

abbrev pub ExternalRaise : {A : Type 0} → Search A → Type 0
ExternalRaise (done a) = Unit
ExternalRaise (halted e) = Unit
ExternalRaise (raised x) = IsExternal x

try_candidates-ExternalRaise :
    (v : Services) (manual : Bool) (place : Place) (cs : List Candidate) (b : ExecutionBudget)
    → ExternalRaise (try_candidates v manual place cs b).0
unfolding try_candidates
try_candidates-ExternalRaise v manual place [] b = tt
try_candidates-ExternalRaise v manual place (c ∷ rest) b =
    ground
      (arith, try_candidates-ExternalRaise v manual place rest (execute manual c.name c.call b).1)

pub search_queries-ExternalRaise :
    (v : Services) (manual : Bool) (run_id task_id : String) (rounds index : ℕ) (qs : List Query)
    (f : Findings) (b : ExecutionBudget)
    → ExternalRaise (search_queries v manual run_id task_id rounds index qs f b).0
unfolding search_queries
search_queries-ExternalRaise v manual run_id task_id rounds index [] f b = tt
search_queries-ExternalRaise v manual run_id task_id rounds index (q ∷ rest) f b =
    let place = query_place run_id task_id rounds index q in
    let (r, b') = try_candidates v manual place q.candidates b in
    let h = try_candidates-ExternalRaise v manual place q.candidates b in
    elim (Search-cases r) [
      | inl (found, e) ↦
          rw (e, search_queries)
            (search_queries-ExternalRaise v manual run_id task_id rounds (index + 1) rest
              (add_finding f found) b')
      | inr (inl (_, e)) ↦ rw (e, search_queries) tt
      | inr (inr (x, e)) ↦ rw (e, search_queries) (rw e at h)
    ]
