-- ===== src/Graph/Provenance/Queries.antt =====
-- app/graph.py: the evidence that the queries of `_research` give.
use mathlib.Core.List.{Memᴰ}
use langchain_langraph_app_l.Prelude.{
  ℕ, ◌+◌, inl, inr, refl, String, Bool, Option, none, some, List, [], ◌∷◌, All, All-append,
}
use langchain_langraph_app_l.Meter.{ExecutionBudget}
use langchain_langraph_app_l.Evidence.{EvidenceItem, deduplicate_evidence}
use langchain_langraph_app_l.Evidence.Dedup.{
  Sublist, nothing, kept, left_out, deduplicate_evidence-keeps,
}
use langchain_langraph_app_l.Graph.State.{PlanTask, Query, Answers}
use langchain_langraph_app_l.Graph.Calls.{Services}
use langchain_langraph_app_l.Graph.Researching.{
  Search, done, Search-cases, Findings, query_place, add_finding, try_candidates, search_queries,
}
use langchain_langraph_app_l.Graph.Provenance.{
  IsFiled, IsTraced, found, AllTraced, FindsFrom, try_candidates-FindsFrom,
}

-- A part of a list is traced when the list is.
All-Sublist :
    (P : EvidenceItem → Type 0) {xs ys : List EvidenceItem} → Sublist xs ys → All P ys → All P xs
All-Sublist P nothing h = tt
All-Sublist P (kept st) h = (h.0, All-Sublist P st h.1)
All-Sublist P (left_out st) h = All-Sublist P st h.1

module _ (v : Services) (answers : ℕ → Answers) (run_id : String) where
  pub deduplicate_evidence-AllTraced :
      (current : Option PlanTask) (index : ℕ) (items : List EvidenceItem)
      → AllTraced v answers run_id current index items
      → AllTraced v answers run_id current index (deduplicate_evidence items)
  deduplicate_evidence-AllTraced current index items h =
      All-Sublist (IsTraced v answers run_id current index) (deduplicate_evidence-keeps items).0 h

  module _ (task : PlanTask) (index : ℕ) where
    add_finding-AllTraced :
        (f : Findings) (x : Option (EvidenceItem × String))
        → AllTraced v answers run_id (some task) index f.evidence
        → FindsFrom v answers run_id task index (done x)
        → AllTraced v answers run_id (some task) index (add_finding f x).evidence
    add_finding-AllTraced f none h k = h
    add_finding-AllTraced f (some (item, tool)) h k =
        All-append (IsTraced v answers run_id (some task) index) f.evidence (item ∷ []) h
          (found task refl k, tt)

    abbrev pub SearchTraced : Search Findings → Type 0
    SearchTraced (done f) = AllTraced v answers run_id (some task) index f.evidence
    SearchTraced _ = Unit

    pub search_queries-SearchTraced :
        (manual : Bool) (tick : ℕ) (task_id : String) (rounds n : ℕ) (qs : List Query)
        (f : Findings) (b : ExecutionBudget)
        → IsFiled task index task_id
        → ((q : Query) → Memᴰ q qs → Memᴰ q (answers tick).queries)
        → AllTraced v answers run_id (some task) index f.evidence
        → SearchTraced (search_queries v manual run_id task_id rounds n qs f b).0
    unfolding search_queries query_place
    search_queries-SearchTraced manual tick task_id rounds n [] f b filed asked h = h
    search_queries-SearchTraced manual tick task_id rounds n (q ∷ rest) f b filed asked h =
        let place = query_place run_id task_id rounds n q in
        let (r, b') = try_candidates v manual place q.candidates b in
        let k =
          try_candidates-FindsFrom v answers run_id task index manual place q.candidates b
            (λ c m. record {
              tick = tick;
              query = q;
              asked = asked q (Memᴰ.head refl);
              ranked = m;
              labelled = refl;
            })
            refl filed in
        elim (Search-cases r) [
          | inl (x, e) ↦
              rw (e, search_queries)
                (search_queries-SearchTraced manual tick task_id rounds (n + 1) rest
                  (add_finding f x) b' filed (λ q m. asked q (Memᴰ.tail m))
                  (add_finding-AllTraced f x h (rw e at k)))
          | inr (inl (_, e)) ↦ rw (e, search_queries) tt
          | inr (inr (_, e)) ↦ rw (e, search_queries) tt
        ]
