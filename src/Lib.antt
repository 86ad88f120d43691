-- ===== src/Lib.antt =====
-- A verification library for the agent service of this repository: a FastAPI application whose
-- requests run a LangGraph graph (plan, research, work, verify, finalize) under a budget, with tools
-- that are called through MCP and claims that are checked against the evidence found.
--
-- The parts, and how they interact:
-- - app/graph.py (ChatAgent) compiles a graph of eleven nodes. A node reads and updates the state of
--   the graph, and calls models, tools and the clock. The functions of app/graphs/routes.py, and two
--   of its own, choose the edge behind it.
-- - app/orchestration/execution_meter.py (ExecutionBudget) is the request's budget. Each node changes
--   it in place; the clients of models and tools ask it before each attempt and report to it after.
-- - app/llm/ollama.py (OllamaClient) and app/mcp/client.py (MCPClient) send the attempts: each begins
--   one on the budget's meter, and finishes it however it ends.
-- - app/tools/executor.py (ToolExecutor) denies tools that may write, and meters the others.
--   app/tools/policies.py gives the level of a tool.
-- - app/schemas/evidence.py and app/services/evidence.py make evidence of a tool's result;
--   app/services/claim_grounding.py says which claims of a worker's answer it supports.
-- - app/state/run_repository.py keeps the runs, the lease of each conversation and its fencing token:
--   who may execute and write a run, and the outcome that is replayed. MemoryRunRepository does so in
--   a process, PostgresRunRepository by SQL statements.
-- - app/state/in_memory.py (BoundedInMemoryStore) keeps the messages of each conversation, within
--   limits, and which runs have appended their turn.
-- - app/orchestration/chat_runtime.py (ChatRuntimeAgent) takes a request from its identity to its
--   response: it looks its run up, sends a stored outcome again, or executes the graph under a lease,
--   persists the outcome and appends the turn to the conversation.
-- - app/orchestration/run_identity.py (RunIdentityService) gives a request its identity, and issues and
--   reads the signed tokens that resume a run. Its ConversationGate lets one request of a conversation
--   in at a time.
-- - app/llm/resource_manager.py (OllamaResourceManager) bounds the requests that the models serve at
--   once, with a second bound on heavy models.
--
-- The files:
-- - Prelude and its children: library names passed on, tests on the native numbers, lists, results,
--   dictionaries in the order of insertion, ASCII texts and decimal numerals.
-- - Meter: the class ExecutionBudget, one function for each method. Meter/Bounds, Meter/Attempts and
--   Meter/Clock are its theorems.
-- - Ollama: OllamaClient.chat. Mcp: MCPClient._post, and the posts of one call.
-- - Evidence: EvidenceItem with its validator, evidence_from_tool_result, evidence_from_metadata and
--   deduplicate_evidence. Evidence/Grounding: ground_claims. Their theorems are in Evidence/Dedup and
--   Evidence/Grounding/Support.
--   Evidence/Context: build_context of app/services/context_builder.py, with its theorem.
-- - Tools/Policies: policy_for. Tools/Executor: execute, in the order of its blocks; its theorems are
--   in Tools/Executor/Safety, Tools/Executor/Replies and Tools/Executor/Denial, which rests on
--   Tools/Executor/Names.
-- - Graph/State: the channels of AgentGraphState and the schemas of app/schemas. Graph/Routes: the
--   routing functions and the edges. Graph/Calls: _invoke_model with
--   the attempts of invoke_json (app/agents/base.py), _check_budget, _current_task and
--   _set_next_action. Graph/Planning: _plan, _replan and _advance. Graph/Working: _worker and
--   _revise. Graph/Verifying: _verify. Graph/Researching: _research. Graph/Partial:
--   _partial_response. Graph/Finishing: _finalize, _verify_final, _revise_final and _terminate.
--   Graph/Machine: the compiled graph.
-- - Graph/Rounds, Graph/Termination, Graph/Errors, Graph/Accepted with its children, Graph/Release,
--   Graph/Spending and Graph/Provenance with their children: the theorems on the graph.
-- - Runs: the data of the run repository. Runs/Memory: its operations. Runs/Calls: sequences of calls.
--   Runs/Postgres: the statements of PostgresRunRepository on their two tables. Runs/Leases with its
--   child, Runs/Fencing, Runs/Exclusion and Runs/Contract are the theorems on the first, and
--   Runs/Refinement with its children those on the two side by side.
-- - Conversations: BoundedInMemoryStore, one function for each method. Conversations/Sessions has the
--   lemmas on its dictionaries, Conversations/Bounds and Conversations/Turns the theorems.
-- - Chat: the data of the run protocol. Chat/Execution: _execute_run, _invoke_graph_safely and the
--   heartbeat. Chat/Preflight: what is decided before. Chat/Runtime: _ainvoke_with_identity, with its
--   try statement. Chat/Steps, Chat/Outcome, Chat/Answered, Chat/Leased, Chat/Found, Chat/Release and
--   Chat/Freed have the lemmas, Chat/Retry and Chat/Idempotent, Chat/Decision, Chat/Liveness,
--   Chat/Persisted and Chat/Cancelled the theorems.
-- - Identity: normalize, issue_resume_token, _decode_token and _identity_from_token. Identity/Tokens and
--   Identity/Accepted: their theorems. Identity/Gate: ConversationGate, the requests that pass through
--   it, and its theorem.
-- - Resources: acquire, as the moves of requests. Resources/Permits and Resources/Counting: the theorems.
-- - The modules called Tests: runs at concrete inputs.
--
-- What the outside answers is an argument. `Answers` holds, for each step of a run, the clock, the
-- replies of the role agents with what each of their calls of the model meets, and the router's
-- queries with the tools ranked for each, what the posts of each call meet, and how it ends. The theorems hold for all of them.
-- `Services` holds the router's test for external evidence and the hash of texts.
--
-- `Outside` holds what one request meets: the clock, the calls that other requests make at each of its
-- waits, whether it is cancelled there, the checkpointer's answers, the rounds of the heartbeat, and
-- how the graph ends. pydantic's dump and validation are the functions of `Codec`.
--
-- Bounds and fuel: `run` takes a number of steps. Graph/Termination gives a number that always
-- suffices, from the limit on verifier rounds and the setting for final revisions; LangGraph's own
-- limit on steps is not modelled. Datetimes, the monotonic clock and durations are whole
-- microseconds. Amounts that the code cuts at 0 are natural numbers. Python's integers have no width.
--
-- Not modelled: state channels that only report (names of models and tools, queries, routing,
-- prompts, history), logs and metrics; the text helpers behind a tool's readings; case and blanks
-- beyond ASCII; an empty run ID; the stream of events and the response's metadata of a chat
-- request; the canonical form behind the request hash and the deprecated RunRegistry; the HTTP API,
-- settings, the transports of the two clients and the sessions of MCP, the router's tables, the pool and the
-- drivers of PostgreSQL, and its constraint that execution threads are unique.
pub mod Chat
pub mod Conversations
pub mod Evidence
pub mod Graph
pub mod Identity
pub mod Mcp
pub mod Meter
pub mod Ollama
pub mod Prelude
pub mod Resources
pub mod Runs
pub mod Tools
