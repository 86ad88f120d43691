-- ===== src/Graph/Provenance.antt =====
-- app/graph.py: where the evidence that `_research` adds comes from.
pub mod Queries
pub mod States
pub mod Nodes
pub mod Run
use Prim.Native.String.{◌++◌ as append}
use mathlib.Core.List.{Memᴰ}
use mathlib.Core.List.Memᴰ
use langchain_langraph_app_l.Prelude.{
  ℕ, ◌+◌, ◌≡◌, ◌≢◌, ◌⊎◌, inl, inr, refl, String, Bool, true, false, Option, none, some, List, [],
  ◌∷◌, ◌++◌, arith, str_eq, eq_iff, All, All-append, Result, ok, err, Result-cases, Bool-cases,
}
use langchain_langraph_app_l.Prelude.Strings.{decimal}
use langchain_langraph_app_l.Meter.{ExecutionBudget}
use langchain_langraph_app_l.Evidence.{
  EvidenceItem, ToolStatus, evidence_from_tool_result, validate, Supplied, evidence_from_entry,
  evidence_from_entries, evidence_from_metadata, deduplicate_evidence,
}
use langchain_langraph_app_l.Evidence.Dedup.{
  Sublist, nothing, kept, left_out, deduplicate_evidence-keeps,
}
use langchain_langraph_app_l.Tools.Executor.{returned, execute, execution_denied}
use langchain_langraph_app_l.Tools.Executor.Safety.{IsSafeRead, execute_denied}
use langchain_langraph_app_l.Tools.Executor.Replies.{execute-returned}
use langchain_langraph_app_l.Graph.State.{
  PlanTask, GraphState, Candidate, Query, Answers, ToolReply,
}
use langchain_langraph_app_l.Graph.Calls.{Services}
use langchain_langraph_app_l.Graph.Researching.{
  Place, Search, done, halted, raised, Search-cases, tool_evidence, Findings, query_place,
  add_finding, try_candidates, search_queries, research_task_id,
}

-- The task ID on the evidence of the task that stands at the index: the task's own, or one made of
-- the index when it has none.
pub data IsFiled (task : PlanTask) (index : ℕ) (task_id : String) : Type 0 where
  by_id : task.id ≢ "" → task_id ≡ task.id → IsFiled task index task_id
  by_index : task.id ≡ "" → task_id ≡ append "task-" (decimal index) → IsFiled task index task_id

pub research_task_id-IsFiled :
    (s : GraphState) (task : PlanTask) → IsFiled task s.task_index (research_task_id s task)
research_task_id-IsFiled s task = elim (Bool-cases (str_eq task.id "")) [
  | inl e ↦ by_index (ground (arith, e, eq_iff task.id "")) (ground (arith, e))
  | inr e ↦ by_id (λ same. absurd (ground (arith, e, same, eq_iff task.id ""))) (ground (arith, e))
]

-- A query of the answers of some step ranks the tool.
pub record IsRanked (answers : ℕ → Answers) (query_id : String) (c : Candidate) : Type 0 where
  pub tick : ℕ
  pub query : Query
  pub asked : Memᴰ query (answers tick).queries
  pub ranked : Memᴰ c query.candidates
  pub labelled : query_id ≡ query.fingerprint

-- The item is made of a reply that succeeded, which a ranked tool with a safe name returned, and is
-- labelled with the run, the task, the tool and the query.
pub record IsFound (v : Services) (answers : ℕ → Answers) (run_id : String) (task : PlanTask)
    (index : ℕ) (item : EvidenceItem) : Type 0 where
  pub place : Place
  pub tool : Candidate
  pub reply : ToolReply
  pub ranked : IsRanked answers place.query_id tool
  pub safe : IsSafeRead tool.name
  pub replied : tool.call.outcome ≡ returned reply
  pub succeeded : reply.ok ≡ true
  pub gives : item ≡ tool_evidence v place tool.name reply
  pub same_run : item.run_id ≡ run_id
  pub same_task : IsFiled task index item.task_id
  pub same_tool : item.tool_name ≡ some tool.name
  pub same_query : item.query_id ≡ some place.query_id
  pub eligible : item.eligible_for_claim_support ≡ true

execute-IsSafeRead :
    (manual : Bool) (c : Candidate) (b : ExecutionBudget) (reply : ToolReply)
    → (execute manual c.name c.call b).0 ≡ ok reply
    → IsSafeRead c.name
execute-IsSafeRead manual c b reply h = elim (execute_denied manual c.name c.call b) [
  | inl (safe, _) ↦ safe
  | inr (_, denied) ↦ absurd (ground (arith, denied))
]

-- An item that may support a claim comes of a reply that succeeded.
eligible-ok :
    (v : Services) (place : Place) (tool : String) (reply : ToolReply)
    → (tool_evidence v place tool reply).eligible_for_claim_support ≡ true
    → reply.ok ≡ true
unfolding evidence_from_tool_result validate
eligible-ok v place tool reply h = ground arith

module _ (v : Services) (answers : ℕ → Answers) (run_id : String) where
  module _ (task : PlanTask) (index : ℕ) where
    tool_evidence-IsFound :
        (manual : Bool) (place : Place) (c : Candidate) (b : ExecutionBudget) (reply : ToolReply)
        → IsRanked answers place.query_id c
        → place.run_id ≡ run_id
        → IsFiled task index place.task_id
        → (execute manual c.name c.call b).0 ≡ ok reply
        → (tool_evidence v place c.name reply).eligible_for_claim_support ≡ true
        → IsFound v answers run_id task index (tool_evidence v place c.name reply)
    unfolding evidence_from_tool_result validate
    tool_evidence-IsFound manual place c b reply ranked same filed h eligible =
        let succeeded = eligible-ok v place c.name reply eligible in
        record {
          place = place;
          tool = c;
          reply = reply;
          ranked = ranked;
          safe = execute-IsSafeRead manual c b reply h;
          replied = execute-returned manual c.name c.call b reply h succeeded;
          succeeded = succeeded;
          gives = refl;
          same_run = same;
          same_task = filed;
          same_tool = refl;
          same_query = refl;
          eligible = eligible;
        }

    abbrev pub FindsFrom : Search (Option (EvidenceItem × String)) → Type 0
    FindsFrom (done (some (item, tool))) = IsFound v answers run_id task index item
    FindsFrom _ = Unit

    pub try_candidates-FindsFrom :
        (manual : Bool) (place : Place) (cs : List Candidate) (b : ExecutionBudget)
        → ((c : Candidate) → Memᴰ c cs → IsRanked answers place.query_id c)
        → place.run_id ≡ run_id
        → IsFiled task index place.task_id
        → FindsFrom (try_candidates v manual place cs b).0
    unfolding try_candidates
    try_candidates-FindsFrom manual place [] b ranked same filed = tt
    try_candidates-FindsFrom manual place (c ∷ rest) b ranked same filed =
        let (r, b') = execute manual c.name c.call b in
        let next =
          try_candidates-FindsFrom manual place rest b' (λ c m. ranked c (Memᴰ.tail m)) same
            filed in
        elim (Result-cases r) [
          | inr (e, p) ↦ ground (arith, p, next)
          | inl (reply, p) ↦
              let found =
                tool_evidence-IsFound manual place c b reply (ranked c (Memᴰ.head refl)) same filed
                  p in
              ground (arith, p, next, found)
        ]

  -- An item that no claim can rest on, or one that was found for the task.
  pub data IsTraced (current : Option PlanTask) (index : ℕ) (item : EvidenceItem) : Type 0 where
    ineligible : item.eligible_for_claim_support ≡ false → IsTraced current index item
    found :
        (task : PlanTask)
        → current ≡ some task
        → IsFound v answers run_id task index item
        → IsTraced current index item

  abbrev pub AllTraced : Option PlanTask → ℕ → List EvidenceItem → Type 0
  AllTraced current index items = All (IsTraced current index) items

  entries-AllTraced :
      (sha256 : String → String) (numbered : ℕ → String) (now : ℕ) (run task_id : String)
      (current : Option PlanTask) (index n : ℕ) (raw : List Supplied)
      → AllTraced current index (evidence_from_entries sha256 numbered now run task_id n raw)
  unfolding evidence_from_entries evidence_from_entry validate
  entries-AllTraced sha256 numbered now run task_id current index n [] = tt
  entries-AllTraced sha256 numbered now run task_id current index n (entry ∷ rest) = (
    ineligible refl,
    entries-AllTraced sha256 numbered now run task_id current index (n + 1) rest,
  )

  pub evidence_from_metadata-AllTraced :
      (sha256 : String → String) (numbered : ℕ → String) (now : ℕ) (raw : List Supplied)
      (run task_id : String) (current : Option PlanTask) (index : ℕ)
      → AllTraced current index (evidence_from_metadata sha256 numbered now raw run task_id)
  unfolding evidence_from_metadata
  evidence_from_metadata-AllTraced sha256 numbered now raw run task_id current index =
      entries-AllTraced sha256 numbered now run task_id current index 1 raw
