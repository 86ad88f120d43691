-- ===== src/Graph/Researching.antt =====
-- app/graph.py: `_research`. The queries, and the ranked tools for each, come with the answers: the
-- router builds them from the live inventory. The list of failures, which is only reported, is left
-- out.
use Prim.Native.String.{◌++◌ as append}
use langchain_langraph_app_l.Prelude.{
  ℕ, ◌+◌, ◌≡◌, ◌⊎◌, inl, inr, refl, String, Bool, not, Option, none, some, List, [], ◌∷◌, ◌++◌, ltb,
  elem, str_eq, if◌then◌else◌, Result, ok, err,
}
use langchain_langraph_app_l.Prelude.Strings.{decimal}
use langchain_langraph_app_l.Meter.{BudgetExceeded, research_rounds_exceeded, ExecutionBudget}
use langchain_langraph_app_l.Evidence.{
  EvidenceItem, evidence_from_tool_result, deduplicate_evidence,
}
use langchain_langraph_app_l.Tools.Executor.{
  approval_required, execution_denied, over_budget, timed_out, cancelled, failed, execute,
}
use langchain_langraph_app_l.Graph.State.{
  PlanTask, GraphState, Action, Reason, mcp_disabled, research_failed, Settings, Exception,
  tool_timeout, tool_cancelled, index_error, other, ToolReply, Candidate, Query, Answers,
}
use langchain_langraph_app_l.Graph.Calls.{Services, Outcome, stop, current_task}

-- Where one piece of evidence belongs: its ID, the run, the task and the query.
pub record Place : Type 0 where
  pub evidence_id : String
  pub run_id : String
  pub task_id : String
  pub query_id : String

abbrev pub tool_evidence : Services → Place → String → ToolReply → EvidenceItem
tool_evidence v place tool reply =
    evidence_from_tool_result v.sha256 reply.ok reply.reply place.evidence_id place.run_id
      place.task_id (some place.query_id) tool

-- How the candidates of a query, or all the queries, end: `halted` returns from `_research` with a
-- spent budget.
pub data Search (A : Type 0) : Type 0 where
  done : A → Search A
  halted : BudgetExceeded → Search A
  raised : Exception → Search A

-- The inner loop: the first tool that gives evidence which may support a claim.
unfoldable pub try_candidates :
    Services
    → Bool
    → Place
    → List Candidate
    → ExecutionBudget
    → Search (Option (EvidenceItem × String)) × ExecutionBudget
try_candidates v manual place [] b = (done none, b)
try_candidates v manual place (c ∷ rest) b =
    let (r, b') = execute manual c.name c.call b in
    let next = try_candidates v manual place rest b' in
    elim r [
      | err approval_required ↦ next
      | err execution_denied ↦ next
      | err (over_budget e) ↦ (halted e, b')
      | err timed_out ↦ (raised tool_timeout, b')
      | err cancelled ↦ (raised tool_cancelled, b')
      | err (failed name) ↦ (raised (other name), b')
      | ok reply ↦
          let item = tool_evidence v place c.name reply in
          if item.eligible_for_claim_support then (done (some (item, c.name)), b') else next
    ]

pub record Findings : Type 0 where
  pub evidence : List EvidenceItem
  pub tools : List String

abbrev pub add_finding : Findings → Option (EvidenceItem × String) → Findings
add_finding f none = f
add_finding f (some (item, tool)) = record {
  evidence = f.evidence ++ item ∷ [];
  tools = f.tools ++ tool ∷ [];
}

-- f"research-{task_id}-{rounds}-{query_index}"
abbrev research_id : String → ℕ → ℕ → String
research_id task_id rounds index =
    append "research-"
      (append task_id (append "-" (append (decimal rounds) (append "-" (decimal index)))))

unfoldable pub query_place : String → String → ℕ → ℕ → Query → Place
query_place run_id task_id rounds index q = record {
  evidence_id = research_id task_id rounds index;
  run_id = run_id;
  task_id = task_id;
  query_id = q.fingerprint;
}

pub Search-cases :
    {A : Type 0} (r : Search A)
    → ((a : A) × (r ≡ done a))
      ⊎ (((e : BudgetExceeded) × (r ≡ halted e)) ⊎ ((x : Exception) × (r ≡ raised x)))
Search-cases (done a) = inl (a, refl)
Search-cases (halted e) = inr (inl (e, refl))
Search-cases (raised x) = inr (inr (x, refl))

-- The outer loop, from query number `index` on.
unfoldable pub search_queries :
    Services
    → Bool
    → String
    → String
    → ℕ
    → ℕ
    → List Query
    → Findings
    → ExecutionBudget
    → Search Findings × ExecutionBudget
unfolding try_candidates query_place
search_queries v manual run_id task_id rounds index [] f b = (done f, b)
search_queries v manual run_id task_id rounds index (q ∷ rest) f b =
    let place = query_place run_id task_id rounds index q in
    let (r, b') = try_candidates v manual place q.candidates b in
    elim r [
      | halted e ↦ (halted e, b')
      | raised x ↦ (raised x, b')
      | done found ↦
          search_queries v manual run_id task_id rounds (index + 1) rest (add_finding f found) b'
    ]

-- `list(dict.fromkeys([*ids, id]))`, for IDs that differ already
abbrev pub add_id : List String → String → List String
add_id ids id = if elem id ids then ids else ids ++ id ∷ []

-- `str(task.get("id") or f"task-{state.get('task_index', 0)}")`
abbrev pub research_task_id : GraphState → PlanTask → String
research_task_id s task =
    if str_eq task.id "" then append "task-" (decimal s.task_index) else task.id

abbrev pub researched : GraphState → String → Findings → GraphState
researched s task_id f = elim f.tools [
  | [] ↦
      stop research_failed
        (record s { research_rounds = s.research_rounds + 1; evidence = f.evidence })
  | tool ∷ tools ↦ record s {
    research_rounds = s.research_rounds + 1;
    researched_task_ids = add_id s.researched_task_ids task_id;
    evidence = deduplicate_evidence f.evidence;
    next_action = Action.worker;
  }
]

abbrev pub search_update : GraphState → String → Search Findings → Result Exception GraphState
search_update s task_id (done f) = ok (researched s task_id f)
search_update s task_id (halted e) = ok (stop (Reason.budget e) s)
search_update s task_id (raised x) = err x

abbrev pub count_research : ExecutionBudget → ℕ → ExecutionBudget
count_research b n = record b { state = record b.state { research_rounds = n } }

-- The body of `_research` behind its two guards.
unfoldable pub research_task :
    Services → Settings → Answers → GraphState → PlanTask → ExecutionBudget → Outcome
unfolding search_queries
research_task v settings a s task b =
    let task_id = research_task_id s task in
    let (r, b') =
      search_queries v settings.manual_metering s.run_id task_id (s.research_rounds + 1) 1 a.queries
        (record { evidence = s.evidence; tools = [] }) b in
    (search_update s task_id r, b')

-- `_research`
unfoldable pub research_node :
    Services → Settings → Answers → GraphState → ExecutionBudget → Outcome
unfolding research_task
research_node v settings a s b =
    let counted = count_research b (s.research_rounds + 1) in
    if not settings.mcp_enabled
    then (ok (stop mcp_disabled (record s { research_rounds = s.research_rounds + 1 })), counted)
    else if ltb settings.agent_max_research_rounds (s.research_rounds + 1)
    then (ok (stop (Reason.budget research_rounds_exceeded) s), counted)
    else elim (current_task s) [
      | none ↦ (err index_error, counted)
      | some task ↦ research_task v settings a s task counted
    ]
